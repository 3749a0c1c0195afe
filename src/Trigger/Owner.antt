-- ===== src/Trigger/Owner.antt =====
-- Which merge request owns the lock of a workspace, by the tags that the workspace has.
use tfbuddy.Prelude.{
  ℕ, ◌≡◌, refl, ap, sym, ◌∙◌, Bool, true, ◌&&◌, Option, none, some, List, [], ◌∷◌, ◌++◌,
  if◌then◌else◌, any, keep, arith, append-nil, ◌==◌, Bool-cases, inl, inr,
}
use tfbuddy.Text.{Text, text_eq, contains, has_prefix, itoa}
use tfbuddy.Text.Laws.{text_eq_refl, text_eq_sound, has_prefix-append}
use tfbuddy.Locks.{tf_prefix, find_locking_mr}
use tfbuddy.Locks.Laws.{lock_tag, text_eq-itoa, find_locking_mr-lock_tag}
use tfbuddy.Trigger.Tags.{is_missing}

-- A lock tag of any merge request, in the sense of the query for `tfPrefix`.
abbrev pub is_lock_tag : Text → Bool
is_lock_tag tag = contains tag tf_prefix

abbrev pub lock_tags : Option ℕ → List Text
lock_tags none = []
lock_tags (some n) = lock_tag n ∷ []

-- Of all lock tags, the workspace has just the one of its owner.
abbrev pub OwnedBy : Option ℕ → List Text → Type 0
OwnedBy o tags = keep is_lock_tag tags ≡ lock_tags o

contains_prefix : (s p : Text) → has_prefix s p ≡ true → contains s p ≡ true
unfolding contains
contains_prefix [] p h = h
contains_prefix (c ∷ s) p h = rw h

pub contains_refl : (s : Text) → contains s s ≡ true
contains_refl s =
    contains_prefix s s (ap (λ t. has_prefix t s) (sym (append-nil s)) ∙ has_prefix-append s [])

lock_tag-is_lock : (n : ℕ) → is_lock_tag (lock_tag n) ≡ true
lock_tag-is_lock n = contains_prefix _ _ (has_prefix-append tf_prefix _)

module _ {A : Type 0} where
  pub keep-append : (p : A → Bool) (xs ys : List A) → keep p (xs ++ ys) ≡ keep p xs ++ keep p ys
  keep-append p [] ys = refl
  keep-append p (x ∷ xs) ys = ground (arith, keep-append p xs ys)

  pub keep_comm : (p q : A → Bool) (xs : List A) → keep p (keep q xs) ≡ keep q (keep p xs)
  keep_comm p q [] = refl
  keep_comm p q (x ∷ xs) = ground (arith, keep_comm p q xs)

any-keep :
    (x : Text) (p : Text → Bool) (xs : List Text)
    → any (text_eq x) (keep p xs) ≡ (p x && any (text_eq x) xs)
any-keep x p [] = ground arith
any-keep x p (y ∷ ys) = elim (Bool-cases (text_eq x y)) [
  | inl same ↦ ground (arith, same, ap p (text_eq_sound x y same), any-keep x p ys)
  | inr other ↦ ground (arith, other, any-keep x p ys)
]

text_eq-append : (p s t : Text) → text_eq (p ++ s) (p ++ t) ≡ text_eq s t
unfolding text_eq
text_eq-append [] s t = refl
text_eq-append (c ∷ p) s t = ground (arith, text_eq-append p s t)

text_eq-lock_tag : (m n : ℕ) → text_eq (lock_tag m) (lock_tag n) ≡ (m == n)
text_eq-lock_tag m n =
    text_eq-append tf_prefix (b'-' ∷ itoa m) (b'-' ∷ itoa n)
    ∙ text_eq-append (b'-' ∷ []) (itoa m) (itoa n)
    ∙ text_eq-itoa m n

-- A lock tag stands among the tags exactly when it stands among the lock tags.
has_lock_tag :
    (n : ℕ) (tags : List Text)
    → any (text_eq (lock_tag n)) (keep is_lock_tag tags) ≡ any (text_eq (lock_tag n)) tags
has_lock_tag n tags = any-keep (lock_tag n) is_lock_tag tags ∙ rw (lock_tag-is_lock n)

owner-has :
    (n : ℕ) (tags : List Text) → OwnedBy (some n) tags → any (text_eq (lock_tag n)) tags ≡ true
owner-has n tags o = sym (has_lock_tag n tags) ∙ rw o (rw (text_eq_refl (lock_tag n)))

-- Only the owner's lock tag is there.
pub owner_tag :
    (o : Option ℕ) (n : ℕ) (tags : List Text)
    → OwnedBy o tags
    → any (text_eq (lock_tag n)) tags ≡ any (text_eq (lock_tag n)) (lock_tags o)
owner_tag o n tags own = sym (has_lock_tag n tags) ∙ ap (any (text_eq (lock_tag n))) own

-- The text of `FindLockingMR`: the owner, unless it is this MR.
abbrev pub locker : Option ℕ → ℕ → Text
locker none this_mr = []
locker (some n) this_mr = if n == this_mr then [] else itoa n

pub find_locking_mr-OwnedBy :
    (o : Option ℕ) (this_mr : ℕ) (tags : List Text)
    → OwnedBy o tags
    → find_locking_mr (keep is_lock_tag tags) (itoa this_mr) ≡ locker o this_mr
find_locking_mr-OwnedBy none this_mr tags own = rw own (find_locking_mr-lock_tag this_mr [])
find_locking_mr-OwnedBy (some n) this_mr tags own =
    rw own (find_locking_mr-lock_tag this_mr (n ∷ []))

-- The tag of an MR on a free workspace makes it the owner.
pub add-OwnedBy :
    (n : ℕ) (tags : List Text)
    → OwnedBy none tags
    → OwnedBy (some n) (tags ++ keep (is_missing tags) (lock_tag n ∷ []))
add-OwnedBy n tags own =
    let absent = owner_tag none n tags own in
    rw absent (keep-append is_lock_tag tags (lock_tag n ∷ []) ∙ rw own (rw (lock_tag-is_lock n)))

-- The tag of the owner is added to no effect.
pub add-OwnedBy_self :
    (n : ℕ) (tags : List Text)
    → OwnedBy (some n) tags
    → OwnedBy (some n) (tags ++ keep (is_missing tags) (lock_tag n ∷ []))
add-OwnedBy_self n tags own = rw (owner-has n tags own) (rw append-nil own)

pub matched :
    (n : ℕ) (tags : List Text)
    → OwnedBy (some n) tags
    → any (text_eq (lock_tag n)) (keep (λ t. contains t (lock_tag n)) tags) ≡ true
matched n tags own =
    any-keep (lock_tag n) (λ t. contains t (lock_tag n)) tags
    ∙ rw (contains_refl (lock_tag n), owner-has n tags own)

-- The removal of the tags that match the owner's frees the workspace.
pub remove-OwnedBy :
    (n : ℕ) (tags : List Text)
    → OwnedBy (some n) tags
    → OwnedBy none (keep (is_missing (keep (λ t. contains t (lock_tag n)) tags)) tags)
remove-OwnedBy n tags own =
    keep_comm is_lock_tag (is_missing (keep (λ t. contains t (lock_tag n)) tags)) tags
    ∙ rw own (rw (matched n tags own))

-- What the removal of the tag of an MR leaves.
abbrev pub released : ℕ → Option ℕ → Option ℕ
released m none = none
released m (some n) = if n == m then none else some n

pub release-OwnedBy :
    (m : ℕ) (o : Option ℕ) (tags : List Text)
    → OwnedBy o tags
    → OwnedBy (released m o) (keep (is_missing (lock_tag m ∷ [])) tags)
release-OwnedBy m none tags own = keep_comm is_lock_tag (is_missing (lock_tag m ∷ [])) tags ∙ rw own
release-OwnedBy m (some n) tags own =
    keep_comm is_lock_tag (is_missing (lock_tag m ∷ [])) tags
    ∙ rw own (ground (arith, text_eq-lock_tag n m))
