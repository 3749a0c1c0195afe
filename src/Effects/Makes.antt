-- ===== src/Effects/Makes.antt =====
-- Calls that a program makes whatever the world answers.
use tfbuddy.Prelude.{
  ◌≡◌, refl, false, arith, List, ◌++◌, Any, Any-append_left, Any-append_right, inl,
}
use tfbuddy.Effects.{
  Call, Res, ok, err, History, Answers, Io, after, ◌>>=◌, pure, perform, attempt, on_result,
}
use tfbuddy.Effects.Laws.{is_err}
use tfbuddy.Errors.{Error}

-- A call that a program makes whatever the world answers.
abbrev pub Makes : {A : Type 0} → (Call → Type 0) → Io A → Type 0
Makes Q m = (h : History) → Any Q (m h).1

module _ (Q : Call → Type 0) {A B : Type 0} where
  pub Makes-attempt :
      (m : Io A) (f : Res A → Io B) → ((r : Res A) → Makes Q (f r)) → Makes Q (attempt m >>= f)
  unfolding ◌>>=◌ attempt
  Makes-attempt m f q h = Any-append_right Q (m h).1 _ (q (m h).0 (h ++ (m h).1))

  first-Any :
      (o : Res A × List Call) (f : A → Io B) (h : History) → Any Q o.1 → Any Q (after o f h).1
  first-Any (ok a, v) f h q = Any-append_left Q v (f a (h ++ v)).1 q
  first-Any (err e, v) f h q = q

  pub Makes-first : (m : Io A) (f : A → Io B) → Makes Q m → Makes Q (m >>= f)
  unfolding ◌>>=◌
  Makes-first m f q h = first-Any (m h) f h (q h)

module _ (Q : Call → Type 0) {A : Type 0} where
  pub Makes-perform : (ans : Answers A) (c : Call) → Q c → Makes Q (attempt (perform ans c))
  unfolding attempt perform
  Makes-perform ans c q h = inl q

-- A program that returns no error, whatever the world answers.
abbrev pub Succeeds : {A : Type 0} → Io A → Type 0
Succeeds m = (h : History) → is_err (m h).0 ≡ false

module _ {A B : Type 0} where
  after-Succeeds :
      (o : Res A × List Call) (f : A → Io B) (h : History)
      → is_err o.0 ≡ false
      → ((a : A) → Succeeds (f a))
      → is_err (after o f h).0 ≡ false
  after-Succeeds (ok a, v) f h e p = p a (h ++ v)
  after-Succeeds (err x, v) f h e p = absurd (ground (arith, e))

  pub Succeeds-bind :
      (m : Io A) (f : A → Io B) → Succeeds m → ((a : A) → Succeeds (f a)) → Succeeds (m >>= f)
  unfolding ◌>>=◌
  Succeeds-bind m f p q h = after-Succeeds (m h) f h (p h) q

  pub Succeeds-on_result :
      (f : Error → Io B) (g : A → Io B) (r : Res A)
      → ((e : Error) → Succeeds (f e))
      → ((a : A) → Succeeds (g a))
      → Succeeds (on_result f g r)
  unfolding on_result
  Succeeds-on_result f g (err e) p q = p e
  Succeeds-on_result f g (ok a) p q = q a

  after-Any :
      (Q : Call → Type 0) (o : Res A × List Call) (f : A → Io B) (h : History)
      → is_err o.0 ≡ false
      → ((a : A) → Makes Q (f a))
      → Any Q (after o f h).1
  after-Any Q (ok a, v) f h e p = Any-append_right Q v (f a (h ++ v)).1 (p a (h ++ v))
  after-Any Q (err x, v) f h e p = absurd (ground (arith, e))

  pub Makes-second :
      (Q : Call → Type 0) (m : Io A) (f : A → Io B)
      → Succeeds m
      → ((a : A) → Makes Q (f a))
      → Makes Q (m >>= f)
  unfolding ◌>>=◌
  Makes-second Q m f p q h = after-Any Q (m h) f h (p h) q

module _ {A : Type 0} where
  pub Succeeds-pure : (a : A) → Succeeds (pure a)
  unfolding pure
  Succeeds-pure a h = refl

  pub Succeeds-attempt : (m : Io A) → Succeeds (attempt m)
  unfolding attempt
  Succeeds-attempt m h = refl
