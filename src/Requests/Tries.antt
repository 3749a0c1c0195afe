-- ===== src/Requests/Tries.antt =====
-- What the code relies on of package backoff, and what follows for a request that is retried.
use tfbuddy.Prelude.{◌≡◌, refl, sym, ◌∙◌, ap, subst, List, ◌++◌, All, All-append}
use tfbuddy.Errors.{Error}
use tfbuddy.Effects.{Res, ok, err}
use tfbuddy.Requests.{Asks, Req, Backoff, result_of, send}

-- The operation runs, and runs again only after a failure; the result is that of the last run. When the
-- retries stop is left open: the policy counts them and limits their time.
pub data Tries {C A : Type 0} (m : Req C A) : List C → Res A → List C → Type 0 where
  last : {h : List C} {r : Res A} {v : List C} → m h ≡ (r, v) → Tries m h r v
  again :
      {h : List C} {r : Res A} {v v' : List C} (e : Error)
      → m h ≡ (err e, v)
      → Tries m (h ++ v) r v'
      → Tries m h r (v ++ v')

abbrev pub IsBackoff : {C : Type 0} → Backoff C → Type 1
IsBackoff {C} backoff =
    (A : Type 0) (m : Req C A) (h : List C) → Tries m h (backoff A m h).0 (backoff A m h).1

-- An operation that succeeds is not run again.
pub Tries-ok :
    {C A : Type 0} (m : Req C A) (h : List C) (r : Res A) (v : List C) (a : A)
    → Tries m h r v
    → (m h).0 ≡ ok a
    → r ≡ ok a
Tries-ok m h r v a (last e) f = sym (ap (λ x. x.0) e) ∙ f
Tries-ok m h r v a (again x e t) f = let g : err x ≡ ok a = sym (ap (λ o. o.0) e) ∙ f in cc

module _ {C A : Type 0} (ask : Asks C A) (c : C) where
  -- Only the request is sent.
  pub send-All :
      (h : List C) (r : Res A) (v : List C) → Tries (send ask c) h r v → All (λ d. d ≡ c) v
  unfolding send
  send-All h r v (last e) = subst (All (λ d. d ≡ c)) (ap (λ x. x.1) e) (refl, tt)
  send-All h r _ (again x e t) =
      All-append (λ d. d ≡ c) _ _ (subst (All (λ d. d ≡ c)) (ap (λ o. o.1) e) (refl, tt))
        (send-All _ r _ t)

  -- The value that a request gives is that of one of its replies.
  pub send-replied :
      (h : List C) (r : Res A) (v : List C) (a : A)
      → Tries (send ask c) h r v
      → r ≡ ok a
      → (k : List C) × (result_of (ask k c) ≡ ok a)
  unfolding send
  send-replied h r v a (last e) f = (h, ap (λ x. x.0) e ∙ f)
  send-replied h r _ a (again x e t) f = send-replied _ r _ a t f
