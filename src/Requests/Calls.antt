-- ===== src/Requests/Calls.antt =====
-- Every request of a program, by its parts.
use tfbuddy.Prelude.{
  ◌≡◌, refl, Bool, true, false, List, [], ◌∷◌, ◌++◌, All, All-append, if◌then◌else◌,
}
use tfbuddy.Errors.{Error}
use tfbuddy.Effects.{Res, ok, err}
use tfbuddy.Requests.{
  Req, continue, ◌>>=◌, each, pure, fail, query, receive, map_error, relabel, finally,
}

module _ {C A : Type 0} (g : Error → Error) where
  pub relabel-calls : (r : Res A × List C) → (relabel g r).1 ≡ r.1
  relabel-calls (ok a, w) = refl
  relabel-calls (err e, w) = refl

  pub relabel-ok : (r : Res A × List C) (a : A) → (relabel g r).0 ≡ ok a → r.0 ≡ ok a
  relabel-ok (ok b, w) a e = e
  relabel-ok (err x, w) a e = cc

module _ {C : Type 0} (P : C → Type 0) where
  continue-All :
      {A B : Type 0} (r : Res A × List C) (f : A → Req C B) (h : List C)
      → All P r.1
      → ((a : A) → r.0 ≡ ok a → (k : List C) → All P (f a k).1)
      → All P (continue r f h).1
  continue-All (ok a, w) f h p q = All-append P w _ p (q a refl (h ++ w))
  continue-All (err e, w) f h p q = p

  pub bind-All :
      {A B : Type 0} (m : Req C A) (f : A → Req C B) (h : List C)
      → All P (m h).1
      → ((a : A) → (m h).0 ≡ ok a → (k : List C) → All P (f a k).1)
      → All P ((m >>= f) h).1
  unfolding ◌>>=◌
  bind-All m f h p q = continue-All (m h) f h p q

  pub each-All :
      {A : Type 0} (body : A → Req C (Unit {0})) (xs : List A) (h : List C)
      → All (λ x. (k : List C) → All P (body x k).1) xs
      → All P (each body xs h).1
  unfolding each pure
  each-All body [] h q = tt
  each-All body (x ∷ xs) h (q, qs) = bind-All (body x) _ h (q h) (λ a e k. each-All body xs k qs)

  pub if-All :
      {A : Type 0} (b : Bool) (m k : Req C A) (h : List C)
      → (b ≡ true → All P (m h).1)
      → All P (k h).1
      → All P ((if b then m else k) h).1
  if-All true m k h p q = p refl
  if-All false m k h p q = q

  pub map_error-All :
      {A : Type 0} (g : Error → Error) (m : Req C A) (h : List C)
      → All P (m h).1
      → All P (map_error g m h).1
  unfolding map_error
  map_error-All g m h p = rw (relabel-calls g (m h)) p

  pub finally-All :
      {A : Type 0} (last : Req C (Unit {0})) (m : Req C A) (h : List C)
      → All P (m h).1
      → ((k : List C) → All P (last k).1)
      → All P (finally last m h).1
  unfolding finally
  finally-All last m h p q = All-append P (m h).1 _ p (q (h ++ (m h).1))

-- Every request of `m` has the property.
abbrev pub Sends : {C A : Type 0} → (C → Type 0) → Req C A → Type 0
Sends P m = (h : List _) → All P (m h).1

module _ {C : Type 0} (P : C → Type 0) where
  pub Sends-bind :
      {A B : Type 0} (m : Req C A) (f : A → Req C B)
      → Sends P m
      → ((a : A) → Sends P (f a))
      → Sends P (m >>= f)
  Sends-bind m f p q h = bind-All P m f h (p h) (λ a e. q a)

  pub Sends-map_error :
      {A : Type 0} (g : Error → Error) (m : Req C A) → Sends P m → Sends P (map_error g m)
  Sends-map_error g m p h = map_error-All P g m h (p h)

  pub Sends-finally :
      {A : Type 0} (last : Req C (Unit {0})) (m : Req C A)
      → Sends P last
      → Sends P m
      → Sends P (finally last m)
  Sends-finally last m p q h = finally-All P last m h (q h) p

  pub Sends-query : {A : Type 0} (ask : List C → C → Res A) (c : C) → P c → Sends P (query ask c)
  unfolding query
  Sends-query ask c p h = (p, tt)

  pub Sends-receive : {R : Type 0} (ask : List C → C → R) (c : C) → P c → Sends P (receive ask c)
  unfolding receive
  Sends-receive ask c p h = (p, tt)

  pub Sends-pure : {A : Type 0} (a : A) → Sends P (pure a)
  unfolding pure
  Sends-pure a h = tt

  pub Sends-fail : (A : Type 0) (e : Error) → Sends P (fail {A = A} e)
  unfolding fail
  Sends-fail A e h = tt

  pub Sends-if :
      {A : Type 0} (b : Bool) (m k : Req C A) → Sends P m → Sends P k → Sends P (if b then m else k)
  Sends-if true m k p q = p
  Sends-if false m k p q = q

pub ruleset sends = (
  Sends-bind, Sends-map_error, Sends-finally, Sends-query, Sends-receive, Sends-pure, Sends-fail,
  Sends-if,
)
