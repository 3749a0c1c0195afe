-- ===== src/Config/Bindings/Laws.antt =====
-- The environment variables of the settings.
use tfbuddy.Prelude.{
  ℕ, ◌≡◌, refl, Bool, true, false, [], ◌∷◌, ◌++◌, map, All, arith, if◌then◌else◌, ◌==◌, leb, ◌&&◌,
}
use tfbuddy.Text.{Text, lit}
use tfbuddy.Config.Bindings.{upper, underscored, env_char, env_var_name}

-- A character that the keys of settings are made of: neither a capital letter nor an underscore.
abbrev pub is_key_char : ℕ → Bool
is_key_char c = if leb 65 c && leb c 90 then false else (if c == b'_' then false else true)

env_char_injective :
    (c d : ℕ) → is_key_char c ≡ true → is_key_char d ≡ true → env_char c ≡ env_char d → c ≡ d
unfolding upper underscored
env_char_injective c d p q e = ground (arith, e)

map-env_char_injective :
    (k j : Text)
    → All (λ c. is_key_char c ≡ true) k
    → All (λ c. is_key_char c ≡ true) j
    → map env_char k ≡ map env_char j
    → k ≡ j
map-env_char_injective [] [] p q e = refl
map-env_char_injective [] (d ∷ j) p q e = cc
map-env_char_injective (c ∷ k) [] p q e = cc
map-env_char_injective (c ∷ k) (d ∷ j) (p, ps) (q, qs) e =
    let (first, rest) = split_cons (env_char c) (env_char d) (map env_char k) (map env_char j) e in
    let same = env_char_injective c d p q first in
    let others = map-env_char_injective k j ps qs rest in cc
  where
    split_cons : (a b : ℕ) (s t : Text) → a ∷ s ≡ b ∷ t → (a ≡ b) × (s ≡ t)
    split_cons a b s t e = (cc, cc)

-- Two settings with one environment variable have one key, if the keys hold no capital letter and no
-- underscore.
pub env_var_name_injective :
    (k j : Text)
    → All (λ c. is_key_char c ≡ true) k
    → All (λ c. is_key_char c ≡ true) j
    → env_var_name k ≡ env_var_name j
    → k ≡ j
unfolding env_var_name lit
env_var_name_injective k j p q e = map-env_char_injective k j p q (behind e)
  where
    behind : {s t : Text} → lit "TFBUDDY_" ++ s ≡ lit "TFBUDDY_" ++ t → s ≡ t
    behind e = cc
