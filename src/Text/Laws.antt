-- ===== src/Text/Laws.antt =====
-- Laws of the operations on texts.
use tfbuddy.Prelude.{
  ℕ, zero, suc, ◌+◌, ◌-◌, ◌*◌, ◌/◌, ◌%◌, ◌∙◌, ◌<◌, ◌≤◌, ◌≡◌, refl, ◌↔◌, inl, inr, true, [], ◌∷◌,
  ◌++◌, arith, ltb, ◌==◌, Bool-cases, and_parts, or_parts, All, All-append, Any, sym, ap, subst,
  none, some, if◌then◌else◌,
}
use tfbuddy.Text.{
  Text, all_digits, atoi, text_eq, has_prefix, has_suffix, is_digit, digits_of, itoa, value_from,
  lower, to_lower,
}

pub text_eq_refl : (s : Text) → text_eq s s ≡ true
unfolding text_eq
text_eq_refl [] = refl
text_eq_refl (x ∷ s) = ground (arith, text_eq_refl s)

pub text_eq_sound : (s t : Text) → text_eq s t ≡ true → s ≡ t
unfolding text_eq
text_eq_sound [] [] h = refl
text_eq_sound (x ∷ s) (y ∷ t) h = ground (arith, text_eq_sound s t)
text_eq_sound [] (y ∷ t) h = cc
text_eq_sound (x ∷ s) [] h = cc

pub text_eq_iff : (s t : Text) → (text_eq s t ≡ true) ↔ (s ≡ t)
unfolding text_eq
text_eq_iff s t =
    (text_eq_sound s t, λ e. (let h : text_eq s s ≡ true = text_eq_refl s in ground (arith, h)))

pub has_prefix-append : (p r : Text) → has_prefix (p ++ r) p ≡ true
unfolding has_prefix
has_prefix-append [] [] = refl
has_prefix-append [] (y ∷ r) = refl
has_prefix-append (x ∷ p) r = ground (arith, has_prefix-append p r)

pub has_prefix-split : (s p : Text) → has_prefix s p ≡ true → (r : Text) × (s ≡ p ++ r)
unfolding has_prefix
has_prefix-split s [] h = (s, refl)
has_prefix-split [] (y ∷ p) h = cc
has_prefix-split (x ∷ s) (y ∷ p) h =
    let (same, more) = and_parts (x == y) (has_prefix s p) h in
    let (r, e) = has_prefix-split s p more in (r, ground (arith, e, same))

-- The texts that begin with `p`.
pub has_prefix_iff : (s p : Text) → (has_prefix s p ≡ true) ↔ ((r : Text) × (s ≡ p ++ r))
has_prefix_iff s p = (has_prefix-split s p, λ (r, e). rw e (has_prefix-append p r))

pub has_suffix-append : (r t : Text) → has_suffix (r ++ t) t ≡ true
unfolding has_suffix
has_suffix-append [] [] = text_eq_refl []
has_suffix-append [] (y ∷ t) = ground (arith, text_eq_refl (y ∷ t))
has_suffix-append (x ∷ r) t = ground (arith, has_suffix-append r t)

pub has_suffix-split : (s t : Text) → has_suffix s t ≡ true → (r : Text) × (s ≡ r ++ t)
unfolding has_suffix
has_suffix-split [] t h = ([], text_eq_sound [] t h)
has_suffix-split (x ∷ s) t h = elim (or_parts (text_eq (x ∷ s) t) (has_suffix s t) h) [
  | inl all ↦ ([], text_eq_sound (x ∷ s) t all)
  | inr later ↦ let (r, e) = has_suffix-split s t later in (x ∷ r, rw e)
]

abbrev pub IsDigit : ℕ → Type 0
IsDigit c = is_digit c ≡ true

IsDigit-last : (n : ℕ) → IsDigit (48 + n % 10)
unfolding is_digit
IsDigit-last n = ground arith

digits_of-All : (f n : ℕ) → All IsDigit (digits_of f n)
unfolding digits_of
digits_of-All zero n = tt
digits_of-All (suc f) n = elim (Bool-cases (ltb n 10)) [
  | inl small ↦ rw small (IsDigit-last n, tt)
  | inr large ↦
      rw large (
        All-append IsDigit (digits_of f (n / 10)) _ (digits_of-All f (n / 10)) (IsDigit-last n, tt))
]

pub itoa-All : (n : ℕ) → All IsDigit (itoa n)
unfolding itoa
itoa-All n = digits_of-All (suc n) n

value_from-append :
    (acc : ℕ) (s : Text) (c : ℕ) → value_from acc (s ++ c ∷ []) ≡ value_from acc s * 10 + (c - 48)
unfolding value_from
value_from-append acc [] c = refl
value_from-append acc (x ∷ s) c = value_from-append (acc * 10 + (x - 48)) s c

value_from-digits_of : (f n : ℕ) → n < f → value_from 0 (digits_of f n) ≡ n
unfolding digits_of value_from
value_from-digits_of zero n h = elim h [ ]
value_from-digits_of (suc f) n h = elim (Bool-cases (ltb n 10)) [
  | inl small ↦ rw small (ground arith)
  | inr large ↦ rw large (
      rw (value_from-append 0 (digits_of f (n / 10)) (48 + n % 10))
        (ground (arith, value_from-digits_of f (n / 10), large)))
]

pub value_from-itoa : (n : ℕ) → value_from 0 (itoa n) ≡ n
unfolding itoa
value_from-itoa n = value_from-digits_of (suc n) n (omega arith)

pub itoa_injective : (m n : ℕ) → itoa m ≡ itoa n → m ≡ n
itoa_injective m n e = sym (value_from-itoa m) ∙ ap (value_from 0) e ∙ value_from-itoa n

append_one-cons : (s : Text) (c : ℕ) → (d : ℕ) × (t : Text) × (s ++ c ∷ [] ≡ d ∷ t)
append_one-cons [] c = (c, [], refl)
append_one-cons (x ∷ s) c = (x, s ++ c ∷ [], refl)

pub itoa-cons : (n : ℕ) → (d : ℕ) × (t : Text) × (itoa n ≡ d ∷ t)
unfolding itoa digits_of
itoa-cons n = append_one-cons _ (48 + n % 10)

-- Lower-casing leaves no capital letter, so a text that has one is no lower-cased text.
abbrev pub IsUpper : ℕ → Type 0
IsUpper c = (b'A' ≤ c) × (c ≤ b'Z')

lower-not-IsUpper : (c : ℕ) → ¬ IsUpper (lower c)
unfolding lower
lower-not-IsUpper c h = ground arith

pub to_lower-not-IsUpper : (s : Text) → ¬ Any IsUpper (to_lower s)
unfolding to_lower
to_lower-not-IsUpper [] h = h
to_lower-not-IsUpper (c ∷ s) (inl h) = lower-not-IsUpper c h
to_lower-not-IsUpper (c ∷ s) (inr h) = to_lower-not-IsUpper s h

all_digits-All : (s : Text) → All IsDigit s → all_digits s ≡ true
unfolding all_digits
all_digits-All [] h = refl
all_digits-All (c ∷ s) (d, h) = ground (arith, d, all_digits-All s h)

-- A number is read back, if it fits an `int`.
pub atoi-itoa : (n : ℕ) → atoi (itoa n) ≡ (if ltb n 9223372036854775808 then some n else none)
unfolding atoi
atoi-itoa n =
    let (c, s, e) = itoa-cons n in
    let digits = all_digits-All (c ∷ s) (subst (All IsDigit) e (itoa-All n)) in
    let value = ap (value_from 0) (sym e) ∙ value_from-itoa n in rw e (rw (digits, value))
