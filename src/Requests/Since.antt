-- ===== src/Requests/Since.antt =====
-- What must come before a request, with the requests before it in view, and so with its reply.
use tfbuddy.Prelude.{◌≡◌, refl, subst, sym, ◌⊎◌, inl, inr, List, [], ◌∷◌, ◌++◌, All}
use tfbuddy.Effects.{Res, ok, err}
use tfbuddy.Requests.{Req, continue, ◌>>=◌, finally}
use mathlib.Core.List.{append_assoc, append-nil}

-- Each request with `Q` has one with `P` before it. `P` is told what was sent before.
abbrev pub Since : {C : Type 0} → (List C → C → Type 0) → (C → Type 0) → List C → List C → Type 0
Since P Q h [] = Unit
Since P Q h (c ∷ cs) = P h c ⊎ ((¬ Q c) × Since P Q (h ++ c ∷ []) cs)

abbrev pub Seen : {C : Type 0} → (List C → C → Type 0) → List C → List C → Type 0
Seen P h [] = ⊥
Seen P h (c ∷ cs) = P h c ⊎ Seen P (h ++ c ∷ []) cs

module _ {C : Type 0} (P : List C → C → Type 0) (Q : C → Type 0) where
  pub Since-All : (cs h : List C) → All (λ c. ¬ Q c) cs → Since P Q h cs
  Since-All [] h q = tt
  Since-All (c ∷ cs) h (n, q) = inr (n, Since-All cs (h ++ c ∷ []) q)

  pub Since-append :
      (u v h : List C) → All (λ c. ¬ Q c) u → Since P Q (h ++ u) v → Since P Q h (u ++ v)
  Since-append [] v h q s = subst (λ k. Since P Q k v) (append-nil h) s
  Since-append (c ∷ u) v h (n, q) s = inr (
    n,
    Since-append u v (h ++ c ∷ []) q
        (subst (λ k. Since P Q k v) (sym (append_assoc h (c ∷ []) u)) s),
  )

  Since-before : (u v h : List C) → Since P Q h u → All (λ c. ¬ Q c) v → Since P Q h (u ++ v)
  Since-before [] v h s q = Since-All v h q
  Since-before (c ∷ u) v h (inl p) q = inl p
  Since-before (c ∷ u) v h (inr (n, s)) q = inr (n, Since-before u v (h ++ c ∷ []) s q)

  pub Since-Seen : (u v h : List C) → All (λ c. ¬ Q c) u → Seen P h u → Since P Q h (u ++ v)
  Since-Seen [] v h q s = absurd s
  Since-Seen (c ∷ u) v h (n, q) (inl p) = inl p
  Since-Seen (c ∷ u) v h (n, q) (inr s) = inr (n, Since-Seen u v (h ++ c ∷ []) q s)

  pub Seen-append : (u v h : List C) → Seen P (h ++ u) v → Seen P h (u ++ v)
  Seen-append [] v h s = subst (λ k. Seen P k v) (append-nil h) s
  Seen-append (c ∷ u) v h s =
      inr (
        Seen-append u v (h ++ c ∷ []) (subst (λ k. Seen P k v) (sym (append_assoc h (c ∷ []) u)) s))

  module _ {A B : Type 0} where
    continue-Seen :
        (r : Res A × List C) (f : A → Req C B) (h : List C) (b : B)
        → ((a : A) (k : List C) → r.0 ≡ ok a → (f a k).0 ≡ ok b → Seen P k (f a k).1)
        → (continue r f h).0 ≡ ok b
        → Seen P h (continue r f h).1
    continue-Seen (ok a, w) f h b q e = Seen-append w _ h (q a (h ++ w) refl e)
    continue-Seen (err x, w) f h b q e = cc

    -- The last part of a program that gives the value has sent a request with `P`.
    pub bind-Seen :
        (m : Req C A) (f : A → Req C B) (h : List C) (b : B)
        → ((a : A) (k : List C) → (m h).0 ≡ ok a → (f a k).0 ≡ ok b → Seen P k (f a k).1)
        → ((m >>= f) h).0 ≡ ok b
        → Seen P h ((m >>= f) h).1
    unfolding ◌>>=◌
    bind-Seen m f h b q e = continue-Seen (m h) f h b q e

    continue-Since :
        (r : Res A × List C) (f : A → Req C B) (h : List C)
        → All (λ c. ¬ Q c) r.1
        → ((a : A) → r.0 ≡ ok a → Seen P h r.1 ⊎ ((k : List C) → Since P Q k (f a k).1))
        → Since P Q h (continue r f h).1
    continue-Since (ok a, w) f h q s = elim (s a refl) [
      | inl seen ↦ Since-Seen w _ h q seen
      | inr later ↦ Since-append w _ h q (later (h ++ w))
    ]
    continue-Since (err e, w) f h q s = Since-All w h q

    -- A program without requests with `Q`: either it has one with `P` when it succeeds, or what follows
    -- has one where it must.
    pub bind-Since :
        (m : Req C A) (f : A → Req C B) (h : List C)
        → All (λ c. ¬ Q c) (m h).1
        → ((a : A) → (m h).0 ≡ ok a → Seen P h (m h).1 ⊎ ((k : List C) → Since P Q k (f a k).1))
        → Since P Q h ((m >>= f) h).1
    unfolding ◌>>=◌
    bind-Since m f h q s = continue-Since (m h) f h q s

  pub finally-Since :
      {A : Type 0} (last : Req C (Unit {0})) (m : Req C A) (h : List C)
      → Since P Q h (m h).1
      → ((k : List C) → All (λ c. ¬ Q c) (last k).1)
      → Since P Q h (finally last m h).1
  unfolding finally
  finally-Since last m h s q = Since-before (m h).1 _ h s (q (h ++ (m h).1))
