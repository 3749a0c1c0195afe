-- ===== src/Trigger/Exclusion.antt =====
-- The lock of a workspace excludes: of the applies that run one after the other, whatever fails.
use tfbuddy.Prelude.{
  ℕ, ◌≡◌, ◌∙◌, subst, ◌⊎◌, inl, inr, Option, none, some, List, ◌++◌, if◌then◌else◌, Option-cases,
  Bool-cases, ◌==◌, ==_iff,
}
use tfbuddy.Text.{Text, lit, itoa, atoi}
use tfbuddy.Types.{Workspace, DetailedMr}
use tfbuddy.Locks.Laws.{lock_tag, itoa-full}
use tfbuddy.TfcClient
use tfbuddy.Trigger.{TfcTrigger}
use tfbuddy.Trigger.Runs.{
  get_locking_mr, clear_stale_lock, acquire_lock, is_closed_state, locked_by, refusal,
}
use tfbuddy.Trigger.Tags.{KeepsTags}
use tfbuddy.Trigger.Owner.{OwnedBy, locker}
use tfbuddy.Trigger.Ends.{Ends, Ends-bind, Ends-context, Ends-weaken, Ends-on_result}
use tfbuddy.Effects.{World, History, context, fail, perform, attempt, get_merge_request}
use tfbuddy.Trigger.TagSteps.{
  now_at, IsReady, get_locking_mr-Ends, add_tags-Ends, remove-Ends, fail-Ends, pure-Ends, read-Ends,
}

module _ (w : World) (t : TfcTrigger) (ws : Workspace) (tags : List Text)
    (keeps : KeepsTags w ws.id tags) where
  -- What is done with the owner's MR, which was read.
  closed-Ends :
      (n : ℕ) (d : DetailedMr) (h : History)
      → OwnedBy (some n) (now_at w t ws tags keeps h)
      → Ends w.units ws.id tags
          (λ _. IsReady w t ws tags keeps)
          (OwnedBy (some n))
          ((if is_closed_state d.state
              then context
                  (lit "failed to auto-clean stale lock tag from MR " ++ d.web_url ++ lit ": ")
                  (TfcClient.remove_tags_by_query w ws.id (lock_tag n))
              else fail (locked_by d.web_url))
            h)
          h
  closed-Ends n d h own = elim (Bool-cases (is_closed_state d.state)) [
    | inl closed ↦ rw closed (
        Ends-context w.units ws.id tags (λ _. IsReady w t ws tags keeps) (OwnedBy (some n)) _ _ h
          (Ends-weaken w.units ws.id tags (λ _ ts. OwnedBy none ts) (OwnedBy (some n))
            (λ _. IsReady w t ws tags keeps) (OwnedBy (some n))
            (TfcClient.remove_tags_by_query w ws.id (lock_tag n) h) h (λ _ ts. inl) (λ ts q. q)
            (remove-Ends w t ws tags keeps n h own)))
    | inr open_mr ↦
        rw open_mr
          (fail-Ends w t ws tags keeps (λ _. IsReady w t ws tags keeps) (OwnedBy (some n)) _ h own)
  ]

  -- The owner is the MR of this number.
  stale-Ends :
      (n : ℕ) (h : History)
      → OwnedBy (some n) (now_at w t ws tags keeps h)
      → Ends w.units ws.id tags
          (λ _. IsReady w t ws tags keeps)
          (OwnedBy (some n))
          (clear_stale_lock w t ws.id (itoa n) h)
          h
  unfolding clear_stale_lock
  stale-Ends n h own = elim (Option-cases (atoi (itoa n))) [
    | inl e ↦
        rw (itoa-full n, e)
          (fail-Ends w t ws tags keeps (λ _. IsReady w t ws tags keeps) (OwnedBy (some n)) _ h own)
    | inr (iid, e) ↦
        rw (itoa-full n, e)
          (Ends-bind w.units ws.id tags (λ _. OwnedBy (some n)) (λ _. IsReady w t ws tags keeps)
            (OwnedBy (some n))
            (attempt
              (perform w.merge_requests (get_merge_request iid t.cfg.project_name_with_namespace)))
            _ h (read-Ends w t ws tags keeps (some n) (OwnedBy (some n)) iid h own)
            (λ r k own'.
              Ends-on_result w.units ws.id tags (λ _. IsReady w t ws tags keeps) (OwnedBy (some n))
                _ _ r k
                (λ x.
                  fail-Ends w t ws tags keeps (λ _. IsReady w t ws tags keeps) (OwnedBy (some n)) _
                    k own')
                (λ d. closed-Ends n d k own')))
  ]

  named-Ends :
      (n : ℕ) (mr : Text) (h : History)
      → OwnedBy (some n) (now_at w t ws tags keeps h)
      → mr ≡ itoa n
      → Ends w.units ws.id tags
          (λ _. IsReady w t ws tags keeps)
          (OwnedBy (some n))
          (clear_stale_lock w t ws.id mr h)
          h
  named-Ends n mr h own e = rw e (stale-Ends n h own)

  clear_stale_lock-Ends :
      (o : Option ℕ) (mr : Text) (h : History)
      → OwnedBy o (now_at w t ws tags keeps h)
      → mr ≡ locker o t.cfg.merge_request_iid
      → Ends w.units ws.id tags
          (λ _. IsReady w t ws tags keeps)
          (OwnedBy o)
          (clear_stale_lock w t ws.id mr h)
          h
  unfolding clear_stale_lock
  clear_stale_lock-Ends none mr h own e =
      rw e (pure-Ends w t ws tags keeps (IsReady w t ws tags keeps) (OwnedBy none) h (inl own))
  clear_stale_lock-Ends (some n) mr h own e = elim (Bool-cases (n == t.cfg.merge_request_iid)) [
    | inl same ↦ rw e (
        rw same (
          pure-Ends w t ws tags keeps (IsReady w t ws tags keeps) (OwnedBy (some n)) h (
            inr (
              subst (λ k. OwnedBy (some k) (now_at w t ws tags keeps h))
                ((==_iff n t.cfg.merge_request_iid).0 same) own))))
    | inr other ↦ named-Ends n mr h own (e ∙ rw other)
  ]

  -- The MR has the lock, or it is where it was, or it is free.
  abbrev pub Blocked : Option ℕ → List Text → Type 0
  Blocked o ts = OwnedBy o ts ⊎ (OwnedBy none ts ⊎ OwnedBy (some t.cfg.merge_request_iid) ts)

  guarded-Ends :
      (o : Option ℕ) (mr : Text) (h : History)
      → OwnedBy o (now_at w t ws tags keeps h)
      → mr ≡ locker o t.cfg.merge_request_iid
      → Ends w.units ws.id tags
          (λ _. IsReady w t ws tags keeps)
          (Blocked o)
          ((if ws.locked then fail (refusal w t mr) else clear_stale_lock w t ws.id mr) h)
          h
  guarded-Ends o mr h own e = elim (Bool-cases ws.locked) [
    | inl l ↦ rw l (
        fail-Ends w t ws tags keeps (λ _. IsReady w t ws tags keeps) (Blocked o) (refusal w t mr) h
          (inl own))
    | inr l ↦ rw l (
        Ends-weaken w.units ws.id tags (λ _. IsReady w t ws tags keeps) (OwnedBy o)
          (λ _. IsReady w t ws tags keeps) (Blocked o) (clear_stale_lock w t ws.id mr h) h
          (λ _ _ p. p) (λ ts. inl) (clear_stale_lock-Ends o mr h own e))
  ]

  pub acquire_lock-Ends :
      (o : Option ℕ) (h : History)
      → OwnedBy o (now_at w t ws tags keeps h)
      → Ends w.units ws.id tags
          (λ _. OwnedBy (some t.cfg.merge_request_iid))
          (Blocked o)
          (acquire_lock w t ws h)
          h
  unfolding acquire_lock
  acquire_lock-Ends o h own =
      Ends-bind w.units ws.id tags (λ mr ts. OwnedBy o ts × (mr ≡ locker o t.cfg.merge_request_iid))
        (λ _. OwnedBy (some t.cfg.merge_request_iid)) (Blocked o) (get_locking_mr w t ws.id) _ h
        (get_locking_mr-Ends w t ws tags keeps o (Blocked o) h own)
        (λ mr k (own', e).
          Ends-bind w.units ws.id tags (λ _. IsReady w t ws tags keeps)
            (λ _. OwnedBy (some t.cfg.merge_request_iid)) (Blocked o)
            (if ws.locked then fail (refusal w t mr) else clear_stale_lock w t ws.id mr) _ k
            (guarded-Ends o mr k own' e)
            (λ u j ready.
              Ends-context w.units ws.id tags (λ _. OwnedBy (some t.cfg.merge_request_iid))
                (Blocked o) _ _ j
                (add_tags-Ends w t ws tags keeps (Blocked o) j (λ ts. inr) ready)))
