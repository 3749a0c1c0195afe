-- ===== src/Trigger/Mutex.antt =====
-- The lock of a workspace as its users see it, and what `triggerRunForWorkspace` makes of it.
use tfbuddy.Prelude.{
  ℕ, ◌≡◌, refl, sym, subst, ◌∙◌, inl, inr, Bool, true, false, not, ◌||◌, Option, none, some, List,
  [], ◌∷◌, ◌++◌, if◌then◌else◌, arith, All, Bool-cases, ◌==◌, ◌<◌,
}
use tfbuddy.Text.{Text}
use tfbuddy.Text.Laws.{atoi-itoa}
use tfbuddy.Types.{Workspace, DetailedMr, TfcWorkspace, apply}
use tfbuddy.Locks.{tf_prefix}
use tfbuddy.Locks.Laws.{itoa-full}
use tfbuddy.TfcClient
use tfbuddy.Trigger.{TfcTrigger}
use tfbuddy.Trigger.Runs.{get_locking_mr, clear_stale_lock, acquire_lock, act_on, is_closed_state}
use tfbuddy.Trigger.Tags.{KeepsTags, IsQuiet, replay-append, replay-IsQuiet}
use tfbuddy.Trigger.Owner.{OwnedBy, locker, find_locking_mr-OwnedBy}
use tfbuddy.Trigger.Ends.{tags_at, Ends}
use tfbuddy.Trigger.LockFirst.{list_locks, act_on-vcs, act_on-apply}
use tfbuddy.Trigger.Exclusion.{Blocked, acquire_lock-Ends}
use tfbuddy.Effects.{World, Call, Res, fail, ◌>>=◌, ok, err, History, all_steps, get_merge_request}
use tfbuddy.Effects.Kinds.{kind, reading}
use tfbuddy.Effects.Laws.{is_err}

-- The lock as its users see it: the owner, and an MR that asks for it. It gets a free lock, its own,
-- and that of an MR that is merged or closed.
unfoldable pub acquired : (ℕ → Bool) → ℕ → Option ℕ → Option ℕ × Bool
acquired closed this_mr none = (some this_mr, true)
acquired closed this_mr (some n) =
    if n == this_mr || closed n then (some this_mr, true) else (some n, false)

module _ (w : World) (t : TfcTrigger) (ws : Workspace) (tags : List Text)
    (keeps : KeepsTags w ws.id tags) where
  locking :
      (o : Option ℕ) (h : History)
      → OwnedBy o (tags_at w.units ws.id tags h)
      → get_locking_mr w t ws.id h ≡ (ok (locker o t.cfg.merge_request_iid), list_locks ws ∷ [])
  unfolding get_locking_mr TfcClient.get_tags_by_query all_steps
  locking o h own = rw (keeps h tf_prefix, find_locking_mr-OwnedBy o t.cfg.merge_request_iid _ own)

  other_owner :
      (n : ℕ) (h : History) (d : DetailedMr)
      → OwnedBy (some n) (tags_at w.units ws.id tags h)
      → (n == t.cfg.merge_request_iid) ≡ false
      → w.merge_requests
          (h ++ list_locks ws ∷ [])
          (get_merge_request n t.cfg.project_name_with_namespace)
        ≡ ok d
      → is_closed_state d.state ≡ false
      → (is_err (acquire_lock w t ws h).0 ≡ true)
        × All (λ c. kind c ≡ reading) (acquire_lock w t ws h).1
  unfolding acquire_lock clear_stale_lock all_steps
  other_owner n h d own other e open_mr =
      ground (arith, locking (some n) h own, atoi-itoa n, itoa-full n)

  -- Every write of tags succeeds.
  abbrev pub Writes : Type 0
  Writes = (h : History) (c : Call) → is_err (w.units h c) ≡ false

  free_succeeds :
      (o : Option ℕ) (h : History)
      → OwnedBy o (tags_at w.units ws.id tags h)
      → ws.locked ≡ false
      → Writes
      → locker o t.cfg.merge_request_iid ≡ []
      → is_err (acquire_lock w t ws h).0 ≡ false
  unfolding acquire_lock clear_stale_lock TfcClient.add_tags all_steps
  free_succeeds o h own l writes e = grind (arith, locking o h own, writes)

  stale_succeeds :
      (n : ℕ) (h : History) (d : DetailedMr)
      → OwnedBy (some n) (tags_at w.units ws.id tags h)
      → ws.locked ≡ false
      → Writes
      → n < 9223372036854775808
      → (n == t.cfg.merge_request_iid) ≡ false
      → w.merge_requests
          (h ++ list_locks ws ∷ [])
          (get_merge_request n t.cfg.project_name_with_namespace)
        ≡ ok d
      → is_closed_state d.state ≡ true
      → is_err (acquire_lock w t ws h).0 ≡ false
  unfolding acquire_lock clear_stale_lock TfcClient.add_tags TfcClient.remove_tags_by_query
      TfcClient.get_tags_by_query all_steps
  stale_succeeds n h d own l writes fits other e closed =
      grind (arith, locking (some n) h own, writes, atoi-itoa n, itoa-full n, keeps)

  -- The VCS answers for every MR, and always says the same of whether it is closed.
  abbrev pub Knows : (ℕ → Bool) → Type 0
  Knows closed =
      (h : History) (n : ℕ)
      → (d : DetailedMr) × (w.merge_requests h
            (get_merge_request n t.cfg.project_name_with_namespace)
          ≡ ok d)
        × (is_closed_state d.state ≡ closed n)

  -- The number of the owner fits an `int`.
  abbrev pub Fits : Option ℕ → Type 0
  Fits none = Unit
  Fits (some n) = n < 9223372036854775808

  abbrev pub owner_after : History → List Text
  owner_after h = tags_at w.units ws.id tags (h ++ (acquire_lock w t ws h).1)

  got :
      (o : Option ℕ) (r : Res (Unit {0}) × List Call) (h : History)
      → Ends w.units ws.id tags
          (λ _. OwnedBy (some t.cfg.merge_request_iid))
          (Blocked w t ws tags keeps o)
          r
          h
      → is_err r.0 ≡ false
      → OwnedBy (some t.cfg.merge_request_iid) (tags_at w.units ws.id tags (h ++ r.1))
  got o (ok u, cs) h p e = p
  got o (err x, cs) h p e = cc

  reads-IsQuiet : (cs : List Call) → All (λ c. kind c ≡ reading) cs → All (λ c. IsQuiet (kind c)) cs
  reads-IsQuiet [] q = tt
  reads-IsQuiet (c ∷ cs) (q, qs) = (subst IsQuiet (sym q) tt, reads-IsQuiet cs qs)

  reads-OwnedBy :
      (o : Option ℕ) (h : History) (cs : List Call)
      → OwnedBy o (tags_at w.units ws.id tags h)
      → All (λ c. kind c ≡ reading) cs
      → OwnedBy o (tags_at w.units ws.id tags (h ++ cs))
  reads-OwnedBy o h cs own q =
      subst (OwnedBy o)
        (sym (
          replay-append w.units ws.id [] tags h cs
          ∙ replay-IsQuiet w.units ws.id h _ cs (reads-IsQuiet cs q)))
        own

  abbrev Refined : (ℕ → Bool) → Option ℕ → History → Type 0
  Refined closed o h =
      (is_err (acquire_lock w t ws h).0 ≡ not (acquired closed t.cfg.merge_request_iid o).1)
      × OwnedBy (acquired closed t.cfg.merge_request_iid o).0 (owner_after h)

  got_lock :
      (closed : ℕ → Bool) (o : Option ℕ) (h : History)
      → OwnedBy o (tags_at w.units ws.id tags h)
      → acquired closed t.cfg.merge_request_iid o ≡ (some t.cfg.merge_request_iid, true)
      → is_err (acquire_lock w t ws h).0 ≡ false
      → Refined closed o h
  got_lock closed o h own a e = rw a (e, got o _ h (acquire_lock-Ends w t ws tags keeps o h own) e)

  -- Where Terraform Cloud keeps the tags of the workspace, answers each query for them and has not
  -- locked it, no write fails, and the VCS says of each MR whether it is closed, acquiring the lock does
  -- what the lock that its users see does: it succeeds or fails as that one, and leaves the owner that
  -- that one has. The number of the owner fits an int.
  pub acquire_lock-Refines :
      (closed : ℕ → Bool) (o : Option ℕ) (h : History)
      → OwnedBy o (tags_at w.units ws.id tags h)
      → ws.locked ≡ false
      → Writes
      → Knows closed
      → Fits o
      → (is_err (acquire_lock w t ws h).0 ≡ not (acquired closed t.cfg.merge_request_iid o).1)
        × OwnedBy (acquired closed t.cfg.merge_request_iid o).0 (owner_after h)
  unfolding acquired
  acquire_lock-Refines closed none h own l writes knows fits =
      got_lock closed none h own refl (free_succeeds none h own l writes refl)
  acquire_lock-Refines closed (some n) h own l writes knows fits =
      let (d, read, state) = knows (h ++ list_locks ws ∷ []) n in
      elim (Bool-cases (n == t.cfg.merge_request_iid)) [
        | inl same ↦
            got_lock closed (some n) h own (rw same)
              (free_succeeds (some n) h own l writes (rw same))
        | inr other ↦ elim (Bool-cases (closed n)) [
          | inl gone ↦
              got_lock closed (some n) h own (rw (other, gone))
                (stale_succeeds n h d own l writes fits other read (state ∙ gone))
          | inr there ↦
              let (e, q) = other_owner n h d own other read (state ∙ there) in
              rw (other, there) (e, reads-OwnedBy (some n) h _ own q)
        ]
      ]

module _ (w : World) (t : TfcTrigger) (cfg_ws : TfcWorkspace) (ws : Workspace) (mr : DetailedMr)
    (dir : Text) (tags : List Text) where
  act_on-refuses :
      (h : History)
      → t.cfg.action ≡ apply
      → (is_err (acquire_lock w t ws h).0 ≡ true)
        × All (λ c. kind c ≡ reading) (acquire_lock w t ws h).1
      → (is_err (act_on w t cfg_ws ws mr dir h).0 ≡ true)
        × All (λ c. kind c ≡ reading) (act_on w t cfg_ws ws mr dir h).1
  unfolding ◌>>=◌ fail
  act_on-refuses h a p = elim (Bool-cases ws.has_vcs_repo) [
    | inl v ↦ rw (act_on-vcs w t cfg_ws ws mr dir a v) (refl, tt)
    | inr v ↦ rw (act_on-apply w t cfg_ws ws mr dir a v) (ground (arith, p))
  ]

  -- Where Terraform Cloud keeps the tags of a workspace and answers each query for them, and another MR
  -- owns its lock and is read as neither merged nor closed, an apply is refused: it fails, it only
  -- reads, and the owner keeps the lock.
  pub act_on-Excludes :
      (n : ℕ) (h : History) (d : DetailedMr)
      → KeepsTags w ws.id tags
      → t.cfg.action ≡ apply
      → OwnedBy (some n) (tags_at w.units ws.id tags h)
      → (n == t.cfg.merge_request_iid) ≡ false
      → w.merge_requests
          (h ++ list_locks ws ∷ [])
          (get_merge_request n t.cfg.project_name_with_namespace)
        ≡ ok d
      → is_closed_state d.state ≡ false
      → (is_err (act_on w t cfg_ws ws mr dir h).0 ≡ true)
        × All (λ c. kind c ≡ reading) (act_on w t cfg_ws ws mr dir h).1
        × OwnedBy (some n) (tags_at w.units ws.id tags (h ++ (act_on w t cfg_ws ws mr dir h).1))
  act_on-Excludes n h d keeps a own other e open_mr =
      let (f, q) = act_on-refuses h a (other_owner w t ws tags keeps n h d own other e open_mr) in
      (f, q, reads-OwnedBy w t ws tags keeps (some n) h _ own q)
