-- ===== src/Effects/Laws.antt =====
-- Rules for what holds of every call that a program makes, whatever the world answers.
use tfbuddy.Prelude.{
  ◌≡◌, refl, ◌⊎◌, inl, inr, List, [], ◌∷◌, ◌++◌, All, All-append, Bool, true, false, if◌then◌else◌,
}
use tfbuddy.Text.{Text}
use tfbuddy.Errors.{Error, wrap}
use tfbuddy.Effects.{
  Call, Res, ok, err, History, Answers, Io, after, ◌>>=◌, pure, fail, perform, caught, attempt,
  on_result, rewrap, context, ignore, of_res, for_each, now, World, get_time,
}

pub Res-cases {ℓ} : {A : Type ℓ} (r : Res A) → ((a : A) × (r ≡ ok a)) ⊎ ((e : Error) × (r ≡ err e))
Res-cases (ok a) = inl (a, refl)
Res-cases (err e) = inr (e, refl)

abbrev pub is_err {ℓ} : {A : Type ℓ} → Res A → Bool
is_err (ok a) = false
is_err (err e) = true

-- Every call of `m` has the property.
abbrev pub Always : {A : Type 0} → (Call → Type 0) → Io A → Type 0
Always P m = (h : History) → All P (m h).1

All-weaken : (P Q : Call → Type 0) (l : List Call) → ((c : Call) → P c → Q c) → All P l → All Q l
All-weaken P Q [] f p = tt
All-weaken P Q (c ∷ l) f (p, q) = (f c p, All-weaken P Q l f q)

pub Always-weaken :
    {A : Type 0} (P Q : Call → Type 0) (m : Io A)
    → ((c : Call) → P c → Q c)
    → Always P m
    → Always Q m
Always-weaken P Q m f p h = All-weaken P Q (m h).1 f (p h)

module _ (P : Call → Type 0) {A B : Type 0} where
  after-All :
      (r : Res A × List Call) (f : A → Io B) (h : History)
      → All P r.1
      → ((a : A) → Always P (f a))
      → All P (after r f h).1
  after-All (ok a, w) f h p q = All-append P w _ p (q a (h ++ w))
  after-All (err e, w) f h p q = p

  pub Always-bind :
      (m : Io A) (f : A → Io B) → Always P m → ((a : A) → Always P (f a)) → Always P (m >>= f)
  unfolding ◌>>=◌
  Always-bind m f p q h = after-All (m h) f h (p h) q

module _ (P : Call → Type 0) (A : Type 0) where
  pub Always-fail : (e : Error) → Always P (fail {A = A} e)
  unfolding fail
  Always-fail e h = tt

module _ (P : Call → Type 0) {A : Type 0} where
  pub Always-perform : (ans : Answers A) (c : Call) → P c → Always P (perform ans c)
  unfolding perform
  Always-perform ans c p h = (p, tt)

  pub Always-pure : (a : A) → Always P (pure a)
  unfolding pure
  Always-pure a h = tt

  pub Always-of_res : (r : Res A) → Always P (of_res r)
  Always-of_res (ok a) = Always-pure a
  Always-of_res (err e) = Always-fail P A e

  caught-All : (r : Res A × List Call) → All P r.1 → All P (caught r).1
  caught-All (r, w) p = p

  pub Always-attempt : (m : Io A) → Always P m → Always P (attempt m)
  unfolding attempt
  Always-attempt m p h = caught-All (m h) (p h)

  rewrap-All : (g : Error → Error) (r : Res A × List Call) → All P r.1 → All P (rewrap g r).1
  rewrap-All g (ok a, w) p = p
  rewrap-All g (err e, w) p = p

  pub Always-context : (t : Text) (m : Io A) → Always P m → Always P (context t m)
  unfolding context
  Always-context t m p h = rewrap-All (wrap t) (m h) (p h)

pub Always-now : (P : Call → Type 0) (w : World) → P get_time → Always P (now w)
unfolding now
Always-now P w p h = (p, tt)

module _ (P : Call → Type 0) {A : Type 0} where
  pub Always-ignore : (m : Io A) → Always P m → Always P (ignore m)
  Always-ignore m p = Always-bind P (attempt m) _ (Always-attempt P m p) (λ _. Always-pure P tt)

  pub Always-on_result :
      {B : Type 0} (f : Error → Io B) (g : A → Io B) (r : Res A)
      → ((e : Error) → Always P (f e))
      → ((a : A) → Always P (g a))
      → Always P (on_result f g r)
  unfolding on_result
  Always-on_result f g (err e) p q = p e
  Always-on_result f g (ok a) p q = q a

  pub Always-for_each :
      (body : A → Io (Unit {0})) (xs : List A)
      → ((x : A) → Always P (body x))
      → Always P (for_each body xs)
  unfolding for_each
  Always-for_each body [] p = Always-pure P tt
  Always-for_each body (x ∷ xs) p = Always-bind P (body x) _ (p x) (λ _. Always-for_each body xs p)

  pub Always-if : (b : Bool) (m k : Io A) → Always P m → Always P k → Always P (if b then m else k)
  Always-if true m k p q = p
  Always-if false m k p q = q

-- Where the test is known to fail, the first branch may do anything.
pub Always-if_false :
    (P : Call → Type 0) {A : Type 0} (b : Bool) (m k : Io A)
    → b ≡ false
    → Always P k
    → Always P (if b then m else k)
Always-if_false P b m k e q h = rw e (q h)

pub ruleset always = (
  Always-bind, Always-perform, Always-pure, Always-fail, Always-of_res, Always-attempt,
  Always-context, Always-on_result, Always-now, Always-ignore, Always-for_each, Always-if,
)
