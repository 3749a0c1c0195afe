-- ===== src/Locks/Laws.antt =====
-- Tags that are written by `AddTags` are read back by `FindLockingMR`.
use tfbuddy.Prelude.{
  ℕ, ◌≡◌, refl, ap, sym, ◌∙◌, subst, false, some, List, [], ◌∷◌, ◌++◌, map, reverse, if◌then◌else◌,
  is_empty, length, All, arith, Bool-cases, inl, inr, ◌==◌, append_assoc,
}
use tfbuddy.Text.{Text, lit, text_eq, drop, is_space, is_digit, trim_left, trim_space, itoa}
use tfbuddy.Text.Laws.{
  text_eq_refl, text_eq_sound, has_prefix-append, IsDigit, itoa-All, itoa-cons, itoa_injective,
}
use mathlib.Core.Path.{◌≡⟨◌⟩◌, ◌∎}
use mathlib.Core.List.{reverse-append, reverse-reverse}
use tfbuddy.Locks.{
  tf_prefix, dash, tag_name, take_digits, match_here, find_submatch, find_locking_mr,
}

drop-length : (p r : Text) → drop (length p) (p ++ r) ≡ r
unfolding drop
drop-length [] r = refl
drop-length (c ∷ p) r = drop-length p r

take_digits-All : (s : Text) → All IsDigit s → take_digits s ≡ s
unfolding take_digits
take_digits-All [] h = refl
take_digits-All (c ∷ s) (d, h) = rw (d, take_digits-All s h)

abbrev pub lock_tag : ℕ → Text
lock_tag n = tag_name tf_prefix (itoa n)

regroup : (s : Text) → tag_name tf_prefix s ≡ (tf_prefix ++ dash) ++ s
regroup s = sym (append_assoc tf_prefix dash s)

pub itoa-full : (n : ℕ) → is_empty (itoa n) ≡ false
itoa-full n = let (d, t, e) = itoa-cons n in rw e

match_here-lock_tag : (n : ℕ) → match_here (lock_tag n) ≡ some (itoa n)
unfolding match_here
match_here-lock_tag n =
    rw regroup
      (rw (has_prefix-append, drop-length, take_digits-All _ (itoa-All n)) (rw (itoa-full n)))

find_submatch-cons :
    (c : ℕ) (s digits : Text)
    → match_here (c ∷ s) ≡ some digits
    → find_submatch (c ∷ s) ≡ some digits
unfolding find_submatch
find_submatch-cons c s digits e = rw (e, find_submatch)

find_submatch-lock_tag : (n : ℕ) → find_submatch (lock_tag n) ≡ some (itoa n)
unfolding lit
find_submatch-lock_tag n = find_submatch-cons b't' _ (itoa n) (match_here-lock_tag n)

trim_left-keep : (c : ℕ) (s : Text) → is_space c ≡ false → trim_left (c ∷ s) ≡ c ∷ s
unfolding trim_left
trim_left-keep c s e = rw e

-- A text that neither begins nor ends with white space.
trim_space_fixed :
    (c : ℕ) (s t : Text) (d : ℕ)
    → is_space c ≡ false
    → is_space d ≡ false
    → c ∷ s ≡ t ++ d ∷ []
    → trim_space (c ∷ s) ≡ c ∷ s
unfolding trim_space
trim_space_fixed c s t d first last e =
    trim_space (c ∷ s)
    ≡⟨ ap (λ u. reverse (trim_left (reverse u))) (trim_left-keep c s first) ⟩
      reverse (trim_left (reverse (c ∷ s)))
    ≡⟨ ap (λ u. reverse (trim_left u)) (ap reverse e ∙ reverse-append t (d ∷ [])) ⟩
      reverse (trim_left (d ∷ reverse t))
    ≡⟨ ap reverse (trim_left-keep d (reverse t) last) ⟩ reverse (d ∷ reverse t)
    ≡⟨ ap reverse (sym (ap reverse e ∙ reverse-append t (d ∷ []))) ∙ reverse-reverse (c ∷ s) ⟩
      c ∷ s ∎

digit-not_space : (c : ℕ) → IsDigit c → is_space c ≡ false
unfolding is_digit is_space
digit-not_space c d = ground arith

split_last : (c : ℕ) (s : Text) → (t : Text) × (d : ℕ) × (c ∷ s ≡ t ++ d ∷ [])
split_last c [] = ([], c, refl)
split_last c (x ∷ s) = let (t, d, e) = split_last x s in (c ∷ t, d, rw e)

All-last : (P : ℕ → Type 0) (t : Text) (d : ℕ) → All P (t ++ d ∷ []) → P d
All-last P [] d h = h.0
All-last P (c ∷ t) d h = All-last P t d h.1

trim_space-lock_tag : (n : ℕ) → trim_space (lock_tag n) ≡ lock_tag n
unfolding lit
trim_space-lock_tag n =
    let (c, s, e) = itoa-cons n in
    let (t, d, e') = split_last c s in
    let digit = All-last IsDigit t d (subst (All IsDigit) (e ∙ e') (itoa-All n)) in
    trim_space_fixed b't' _ (tag_name tf_prefix t) d (unfold is_space in refl)
      (digit-not_space d digit)
      (ap (tag_name tf_prefix) (e ∙ e') ∙ sym (append_assoc tf_prefix (b'-' ∷ t) (d ∷ [])))

pub text_eq-itoa : (m n : ℕ) → text_eq (itoa m) (itoa n) ≡ (m == n)
text_eq-itoa m n = elim (Bool-cases (m == n)) [
  | inl same ↦ let e : m ≡ n = ground arith in rw (same, e) (text_eq_refl (itoa n))
  | inr other ↦ elim (Bool-cases (text_eq (itoa m) (itoa n))) [
    | inl equal ↦
        let e : m ≡ n = itoa_injective m n (text_eq_sound (itoa m) (itoa n) equal) in ground arith
    | inr distinct ↦ rw (other, distinct)
  ]
]

-- The number of the first MR that is not this one.
abbrev pub first_other : ℕ → List ℕ → Text
first_other this_mr [] = []
first_other this_mr (n ∷ ns) =
    let rest = first_other this_mr ns in if n == this_mr then rest else itoa n

-- On a workspace that MRs have tagged, in any order and number, the locking MR is the first one that
-- is not this MR; without such a tag the workspace is free.
pub find_locking_mr-lock_tag :
    (this_mr : ℕ) (ns : List ℕ)
    → find_locking_mr (map lock_tag ns) (itoa this_mr) ≡ first_other this_mr ns
unfolding find_locking_mr
find_locking_mr-lock_tag this_mr [] = refl
find_locking_mr-lock_tag this_mr (n ∷ ns) = ground (
  arith,
  trim_space-lock_tag n,
  find_submatch-lock_tag n,
  text_eq-itoa n this_mr,
  find_locking_mr-lock_tag this_mr ns,
)
