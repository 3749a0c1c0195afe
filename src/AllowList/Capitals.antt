-- ===== src/AllowList/Capitals.antt =====
-- Capital letters in workspace names: the entries of the lists are lower-cased, the name that is
-- looked up is not.
use tfbuddy.Prelude.{
  ◌≡◌, refl, ◌≢◌, ℕ, subst, sym, false, List, [], ◌∷◌, ◌++◌, is_empty, any, Any, Any-append_right,
  inl, inr, arith, Bool-cases, All,
}
use tfbuddy.Text.{Text, text_eq, has_prefix, contains, to_lower, trim_space}
use tfbuddy.Text.Laws.{text_eq_iff, IsUpper, to_lower-not-IsUpper}
use tfbuddy.Config.{Config}
use tfbuddy.AllowList.Laws.{is_empty-qualify_all}
use tfbuddy.AllowList.{qualify, qualify_all, is_workspace_allowed}

abbrev pub HasNoSlash : Text → Type 0
HasNoSlash s = All (λ c. c ≢ b'/') s

contains-slash : (s : Text) → contains s (b'/' ∷ []) ≡ false → HasNoSlash s
unfolding contains has_prefix
contains-slash [] h = tt
contains-slash (c ∷ s) h = (ground arith, contains-slash s (ground arith))

not-HasNoSlash : (q y : Text) → ¬ HasNoSlash (q ++ b'/' ∷ y)
not-HasNoSlash [] y h = h.0 refl
not-HasNoSlash (c ∷ q) y h = not-HasNoSlash q y h.1

pub tail_eq : (c d : ℕ) (s t : Text) → c ∷ s ≡ d ∷ t → s ≡ t
tail_eq c d s t e = cc

-- What stands behind the last slash is determined.
last_part : (p q x y : Text) → HasNoSlash x → HasNoSlash y → p ++ b'/' ∷ x ≡ q ++ b'/' ∷ y → x ≡ y
last_part [] [] x y hx hy e = cc
last_part [] (c ∷ q) x y hx hy e =
    absurd (not-HasNoSlash q y (subst HasNoSlash (tail_eq b'/' c x (q ++ b'/' ∷ y) e) hx))
last_part (c ∷ p) [] x y hx hy e =
    absurd (not-HasNoSlash p x (subst HasNoSlash (sym (tail_eq c b'/' (p ++ b'/' ∷ x) y e)) hy))
last_part (c ∷ p) (d ∷ q) x y hx hy e =
    last_part p q x y hx hy (tail_eq c d (p ++ b'/' ∷ x) (q ++ b'/' ∷ y) e)

module _ (default_org workspace org : Text) (capital : Any IsUpper workspace)
    (no_slash : HasNoSlash workspace) where
  qualify-ne : (entry : Text) → qualify default_org entry ≢ org ++ b'/' ∷ workspace
  unfolding qualify
  qualify-ne entry e = elim (Bool-cases (contains (to_lower (trim_space entry)) (b'/' ∷ []))) [
    | inl whole ↦ to_lower-not-IsUpper (trim_space entry) (
        subst (Any IsUpper) (sym (rw whole at e))
          (Any-append_right IsUpper org (b'/' ∷ workspace) (inr capital)))
    | inr short ↦
        let same =
          last_part default_org org (to_lower (trim_space entry)) workspace (contains-slash _ short)
            no_slash (rw short at e) in
        to_lower-not-IsUpper (trim_space entry) (subst (Any IsUpper) (sym same) capital)
  ]

  qualify_all-unlisted :
      (l : List Text) → any (text_eq (org ++ b'/' ∷ workspace)) (qualify_all default_org l) ≡ false
  unfolding qualify_all
  qualify_all-unlisted [] = refl
  qualify_all-unlisted (entry ∷ l) = ground (
    arith,
    text_eq_iff (org ++ b'/' ∷ workspace) (qualify default_org entry),
    λ (e : qualify default_org entry ≡ org ++ b'/' ∷ workspace). qualify-ne entry e,
    qualify_all-unlisted l,
  )

-- A workspace whose name has a capital letter, and no slash, is on neither list, whatever the
-- lists say: it cannot be denied, and where there is an allow list it cannot be allowed. The answer
-- is whether the allow list is empty.
pub is_workspace_allowed-capital :
    (cfg : Config) (workspace org : Text)
    → Any IsUpper workspace
    → HasNoSlash workspace
    → is_workspace_allowed cfg workspace org ≡ is_empty cfg.workspace_allow_list
unfolding is_workspace_allowed
is_workspace_allowed-capital cfg workspace org capital no_slash = ground (
  arith,
  unlisted cfg.workspace_deny_list,
  unlisted cfg.workspace_allow_list,
  is_empty-qualify_all cfg.default_tfc_organization cfg.workspace_allow_list,
)
  where
    unlisted :
        (l : List Text)
        → any (text_eq (org ++ b'/' ∷ workspace)) (qualify_all cfg.default_tfc_organization l)
          ≡ false
    unlisted = qualify_all-unlisted cfg.default_tfc_organization workspace org capital no_slash
