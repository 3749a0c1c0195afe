-- ===== src/Effects/Order.antt =====
-- How often a program makes a kind of call, and what must come before it.
use tfbuddy.Prelude.{
  ℕ, suc, ◌+◌, ◌≤◌, ◌≡◌, refl, ◌⊎◌, inl, inr, Bool, true, false, List, [], ◌∷◌, ◌++◌, arith, All,
  Any, tally, tally-append, if◌then◌else◌,
}
use tfbuddy.Text.{Text}
use tfbuddy.Errors.{Error, wrap}
use tfbuddy.Effects.{
  Call, Res, ok, err, History, Io, after, ◌>>=◌, attempt, on_result, context, rewrap,
}
use tfbuddy.Effects.Laws.{Always}

-- At most `n` of the calls of `m` pass the test.
abbrev pub AtMost : {A : Type 0} → (Call → Bool) → ℕ → Io A → Type 0
AtMost p n m = (h : History) → tally p (m h).1 ≤ n

module _ (p : Call → Bool) {A B : Type 0} where
  after-AtMost :
      (a b : ℕ) (r : Res A × List Call) (f : A → Io B) (h : History)
      → tally p r.1 ≤ a
      → ((x : A) → AtMost p b (f x))
      → tally p (after r f h).1 ≤ a + b
  after-AtMost a b (ok x, v) f h le q =
      omega (arith, tally-append p v (f x (h ++ v)).1, q x (h ++ v))
  after-AtMost a b (err e, v) f h le q = omega arith

  pub AtMost-bind :
      (a b : ℕ) (m : Io A) (f : A → Io B)
      → AtMost p a m
      → ((x : A) → AtMost p b (f x))
      → AtMost p (a + b) (m >>= f)
  unfolding ◌>>=◌
  AtMost-bind a b m f le q h = after-AtMost a b (m h) f h (le h) q

tally-zero : (p : Call → Bool) (l : List Call) → All (λ c. p c ≡ false) l → tally p l ≤ 0
tally-zero p [] h = omega arith
tally-zero p (c ∷ l) (e, h) = ground (arith, e, tally-zero p l h)

module _ (p : Call → Bool) {A : Type 0} where
  pub AtMost-Always : (m : Io A) → Always (λ c. p c ≡ false) m → AtMost p 0 m
  AtMost-Always m q h = tally-zero p (m h).1 (q h)

  pub AtMost-attempt : (n : ℕ) (m : Io A) → AtMost p n m → AtMost p n (attempt m)
  unfolding attempt
  AtMost-attempt n m le h = le h

  rewrap-calls : (g : Error → Error) (r : Res A × List Call) → (rewrap g r).1 ≡ r.1
  rewrap-calls g (ok a, v) = refl
  rewrap-calls g (err e, v) = refl

  pub AtMost-context : (n : ℕ) (t : Text) (m : Io A) → AtMost p n m → AtMost p n (context t m)
  unfolding context
  AtMost-context n t m le h = rw (rewrap-calls (wrap t) (m h)) (le h)

-- Where one part of a program makes no call that passes the test.
module _ (p : Call → Bool) {A B : Type 0} (n : ℕ) where
  pub AtMost-skip :
      (m : Io A) (f : A → Io B)
      → Always (λ c. p c ≡ false) m
      → ((x : A) → AtMost p n (f x))
      → AtMost p n (m >>= f)
  AtMost-skip m f q r h = omega (arith, AtMost-bind p 0 n m f (AtMost-Always p m q) r h)

  pub AtMost-last :
      (m : Io A) (f : A → Io B)
      → AtMost p n m
      → ((x : A) → Always (λ c. p c ≡ false) (f x))
      → AtMost p n (m >>= f)
  AtMost-last m f r q h =
      omega (arith, AtMost-bind p n 0 m f r (λ x. AtMost-Always p (f x) (q x)) h)

module _ (p : Call → Bool) {A : Type 0} (n : ℕ) where
  pub AtMost-suc : (m : Io A) → AtMost p n m → AtMost p (suc n) m
  AtMost-suc m le h = omega (arith, le h)

  pub AtMost-none : (m : Io A) → Always (λ c. p c ≡ false) m → AtMost p n m
  AtMost-none m q h = omega (arith, AtMost-Always p m q h)

  pub AtMost-on_result :
      {B : Type 0} (f : Error → Io A) (g : B → Io A) (r : Res B)
      → ((e : Error) → AtMost p n (f e))
      → ((b : B) → AtMost p n (g b))
      → AtMost p n (on_result f g r)
  unfolding on_result
  AtMost-on_result f g (err e) q s = q e
  AtMost-on_result f g (ok b) q s = s b

  pub AtMost-if :
      (b : Bool) (m k : Io A) → AtMost p n m → AtMost p n k → AtMost p n (if b then m else k)
  AtMost-if true m k q r = q
  AtMost-if false m k q r = r

-- Each call with `Q` has one with `P` before it.
abbrev pub OnlyAfter : {C : Type 0} → (C → Type 0) → (C → Type 0) → List C → Type 0
OnlyAfter P Q [] = Unit
OnlyAfter P Q (c ∷ l) = P c ⊎ ((¬ Q c) × OnlyAfter P Q l)

module _ (P Q : Call → Type 0) where
  pub OnlyAfter-All : (l : List Call) → All (λ c. ¬ Q c) l → OnlyAfter P Q l
  OnlyAfter-All [] h = tt
  OnlyAfter-All (c ∷ l) (n, h) = inr (n, OnlyAfter-All l h)

  pub OnlyAfter-append :
      (u v : List Call) → All (λ c. ¬ Q c) u → OnlyAfter P Q v → OnlyAfter P Q (u ++ v)
  OnlyAfter-append [] v h k = k
  OnlyAfter-append (c ∷ u) v (n, h) k = inr (n, OnlyAfter-append u v h k)

  pub OnlyAfter-Any : (u v : List Call) → All (λ c. ¬ Q c) u → Any P u → OnlyAfter P Q (u ++ v)
  OnlyAfter-Any [] v h k = absurd k
  OnlyAfter-Any (c ∷ u) v (n, h) (inl p) = inl p
  OnlyAfter-Any (c ∷ u) v (n, h) (inr k) = inr (n, OnlyAfter-Any u v h k)

  -- A program that makes a call with `P` when it succeeds, and none with `Q`, may stand before any.
  pub after-OnlyAfter :
      {A B : Type 0} (r : Res A × List Call) (f : A → Io B) (h : History)
      → All (λ c. ¬ Q c) r.1
      → ((a : A) → r.0 ≡ ok a → Any P r.1)
      → OnlyAfter P Q (after r f h).1
  after-OnlyAfter (ok a, v) f h n k = OnlyAfter-Any v _ n (k a refl)
  after-OnlyAfter (err e, v) f h n k = OnlyAfter-All v n
