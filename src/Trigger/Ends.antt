-- ===== src/Trigger/Ends.antt =====
-- In what state a program leaves the tags of a workspace, where it succeeds and where it fails.
use tfbuddy.Prelude.{subst, List, [], ◌++◌}
use tfbuddy.Text.{Text}
use tfbuddy.Errors.{Error, wrap}
use tfbuddy.Effects.{
  Call, Answers, Res, ok, err, History, Io, after, ◌>>=◌, context, on_result, rewrap,
}
use tfbuddy.Trigger.Tags.{replay}
use mathlib.Core.List.{append_assoc}

-- Values and tags.
abbrev pub Post : Type 0 → Type 1
Post A = A → List Text → Type 0

module _ (units : Answers (Unit {0})) (id : Text) (tags : List Text) where
  abbrev pub tags_at : History → List Text
  tags_at h = replay units id [] tags h

  -- A run from `h` ends in `P` with its value, or in `E` with an error.
  abbrev pub Ends :
      {A : Type 0} → Post A → (List Text → Type 0) → Res A × List Call → History → Type 0
  Ends P E (ok a, cs) h = P a (tags_at (h ++ cs))
  Ends P E (err e, cs) h = E (tags_at (h ++ cs))

  module _ {A : Type 0} (P : Post A) (E : List Text → Type 0) where
    Ends-shift :
        (r : Res A × List Call) (h v : History) → Ends P E r (h ++ v) → Ends P E (r.0, v ++ r.1) h
    Ends-shift (ok a, cs) h v p = subst (λ k. P a (tags_at k)) (append_assoc h v cs) p
    Ends-shift (err e, cs) h v p = subst (λ k. E (tags_at k)) (append_assoc h v cs) p

    Ends-rewrap :
        (g : Error → Error) (r : Res A × List Call) (h : History)
        → Ends P E r h
        → Ends P E (rewrap g r) h
    Ends-rewrap g (ok a, cs) h p = p
    Ends-rewrap g (err e, cs) h p = p

    pub Ends-context :
        (t : Text) (m : Io A) (h : History) → Ends P E (m h) h → Ends P E (context t m h) h
    unfolding context
    Ends-context t m h p = Ends-rewrap (wrap t) (m h) h p

    pub Ends-weaken :
        (Q : Post A) (F : List Text → Type 0) (r : Res A × List Call) (h : History)
        → ((a : A) (ts : List Text) → P a ts → Q a ts)
        → ((ts : List Text) → E ts → F ts)
        → Ends P E r h
        → Ends Q F r h
    Ends-weaken Q F (ok a, cs) h f g p = f a _ p
    Ends-weaken Q F (err e, cs) h f g p = g _ p

  module _ {A B : Type 0} (Q : Post B) (E : List Text → Type 0) where
    pub Ends-on_result :
        (f : Error → Io B) (g : A → Io B) (r : Res A) (h : History)
        → ((x : Error) → Ends Q E (f x h) h)
        → ((a : A) → Ends Q E (g a h) h)
        → Ends Q E (on_result f g r h) h
    unfolding on_result
    Ends-on_result f g (ok a) h p q = q a
    Ends-on_result f g (err x) h p q = p x

  module _ {A B : Type 0} (P : Post A) (Q : Post B) (E : List Text → Type 0) where
    after-Ends :
        (r : Res A × List Call) (f : A → Io B) (h : History)
        → Ends P E r h
        → ((a : A) (k : History) → P a (tags_at k) → Ends Q E (f a k) k)
        → Ends Q E (after r f h) h
    after-Ends (ok a, v) f h p q = Ends-shift Q E (f a (h ++ v)) h v (q a (h ++ v) p)
    after-Ends (err e, v) f h p q = p

    pub Ends-bind :
        (m : Io A) (f : A → Io B) (h : History)
        → Ends P E (m h) h
        → ((a : A) (k : History) → P a (tags_at k) → Ends Q E (f a k) k)
        → Ends Q E ((m >>= f) h) h
    unfolding ◌>>=◌
    Ends-bind m f h p q = after-Ends (m h) f h p q

  module _ {A : Type 0} (P : List Text → Type 0) where
    -- What holds at the end whatever the result.
    pub Ends_always :
        (r : Res A × List Call) (h : History) → Ends (λ _. P) P r h → P (tags_at (h ++ r.1))
    Ends_always (ok a, cs) h p = p
    Ends_always (err e, cs) h p = p

    pub always_Ends :
        (r : Res A × List Call) (h : History) → P (tags_at (h ++ r.1)) → Ends (λ _. P) P r h
    always_Ends (ok a, cs) h p = p
    always_Ends (err e, cs) h p = p
