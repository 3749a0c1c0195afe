-- ===== src/Trigger/LockFirst.antt =====
-- The lock that an apply takes before it starts a run.
use tfbuddy.Prelude.{
  ℕ, ◌≡◌, refl, ◌⊎◌, inl, inr, true, false, ◌||◌, some, List, [], ◌∷◌, ◌++◌, arith, All,
  Option-cases, Bool-cases,
}
use tfbuddy.Text.{Text, lit, itoa, atoi}
use tfbuddy.Types.{TfcWorkspace, DetailedMr, Workspace, apply}
use tfbuddy.Locks.{tf_prefix, tag_name, find_locking_mr}
use tfbuddy.TfcClient
use tfbuddy.Trigger.{TfcTrigger}
use tfbuddy.Trigger.Runs.{
  get_locking_mr, clear_stale_lock, acquire_lock, launch, package_dir, start_run, act_on,
  vcs_refusal, is_closed_state,
}
use tfbuddy.Trigger.Made.{acquire_lock-Made}
use tfbuddy.Trigger.Safety.{is_run_create, is_running}
use tfbuddy.Effects.{
  Call, World, Io, context, Res, ok, err, History, after, ◌>>=◌, ◌>>◌, fail, all_steps,
  get_merge_request, workspaces_add_tags, workspaces_list_tags,
}
use tfbuddy.Effects.Kinds.{kind, reading}
use tfbuddy.Effects.Laws.{is_err, Res-cases}
use tfbuddy.Requests.Since.{Since, Seen, Seen-append, Since-All, Since-Seen}

-- The MR is named by its number, and is merged or closed.
abbrev pub IsStale : World → TfcTrigger → Text → History → Type 0
IsStale w t locking_mr h =
    (iid : ℕ) × (d : DetailedMr) × (atoi locking_mr ≡ some iid)
    × (w.merge_requests h (get_merge_request iid t.cfg.project_name_with_namespace) ≡ ok d)
    × (is_closed_state d.state ≡ true)

abbrev pub list_locks : Workspace → Call
list_locks ws = workspaces_list_tags ws.id tf_prefix

-- The workspace is not locked in Terraform Cloud, and the MR that its tags name, if they are known and
-- name one, is stale.
abbrev pub IsFree : World → TfcTrigger → Workspace → History → Type 0
IsFree w t ws h =
    (ws.locked ≡ false)
    × ((names : List Text)
        → w.text_lists h (list_locks ws) ≡ ok names
        → let mr = find_locking_mr names (itoa t.cfg.merge_request_iid) in
          (mr ≡ []) ⊎ IsStale w t mr (h ++ list_locks ws ∷ []))

module _ (w : World) (t : TfcTrigger) (ws : Workspace) where
  -- The call that tags the workspace for this MR, and has succeeded.
  abbrev pub Locked : History → Call → Type 0
  Locked h c =
      (c ≡ workspaces_add_tags ws.id (tag_name tf_prefix (itoa t.cfg.merge_request_iid) ∷ []))
      × (w.units h c ≡ ok tt)

  after-Locked :
      {A B : Type 0} (r : Res A × List Call) (f : A → Io B) (h : History) (b : B)
      → ((a : A) (k : History) → (f a k).0 ≡ ok b → Seen Locked k (f a k).1)
      → (after r f h).0 ≡ ok b
      → Seen Locked h (after r f h).1
  after-Locked (ok a, v) f h b q e = Seen-append Locked (λ c. ⊥) v _ h (q a (h ++ v) e)
  after-Locked (err x, v) f h b q e = cc

  add_tags-Locked :
      (h : History) (u : Unit {0})
      → (context
          (lit "error adding tags to workspace. ")
          (TfcClient.add_tags w ws.id tf_prefix (itoa t.cfg.merge_request_iid))
          h).0
        ≡ ok u
      → Seen Locked h
          (context
            (lit "error adding tags to workspace. ")
            (TfcClient.add_tags w ws.id tf_prefix (itoa t.cfg.merge_request_iid))
            h).1
  unfolding TfcClient.add_tags all_steps
  add_tags-Locked h u e = ground arith

  pub acquire_lock-tags :
      (h : History) (u : Unit {0})
      → (acquire_lock w t ws h).0 ≡ ok u
      → Seen Locked h (acquire_lock w t ws h).1
  unfolding acquire_lock ◌>>=◌
  acquire_lock-tags h u e =
      after-Locked (get_locking_mr w t ws.id h) _ h u
        (λ mr k f. after-Locked _ _ k u (λ _ k' g. add_tags-Locked k' u g) f) e

  clear_stale_lock-IsStale :
      (h : History) (mr : Text) (u : Unit {0})
      → (clear_stale_lock w t ws.id mr h).0 ≡ ok u
      → (mr ≡ []) ⊎ IsStale w t mr h
  unfolding clear_stale_lock all_steps
  clear_stale_lock-IsStale h [] u e = inl refl
  clear_stale_lock-IsStale h (c ∷ mr) u e = elim (Option-cases (atoi (c ∷ mr))) [
    | inl n ↦ ground (arith, n)
    | inr (iid, f) ↦
        elim (Res-cases
          (w.merge_requests h (get_merge_request iid t.cfg.project_name_with_namespace))) [
            | inl (d, g) ↦
                let closed : is_closed_state d.state ≡ true = ground (arith, f, g) in
                inr (iid, d, f, g, closed)
            | inr (x, g) ↦ ground (arith, f, g)
          ]
  ]

  acquire_lock-unlocked :
      (h : History) (u : Unit {0}) → (acquire_lock w t ws h).0 ≡ ok u → ws.locked ≡ false
  unfolding acquire_lock get_locking_mr TfcClient.get_tags_by_query all_steps
  acquire_lock-unlocked h u e = ground arith

  acquire_lock-clears :
      (h : History) (u : Unit {0}) (names : List Text)
      → (acquire_lock w t ws h).0 ≡ ok u
      → w.text_lists h (list_locks ws) ≡ ok names
      → (clear_stale_lock w t ws.id
          (find_locking_mr names (itoa t.cfg.merge_request_iid))
          (h ++ list_locks ws ∷ [])).0
        ≡ ok u
  unfolding acquire_lock get_locking_mr TfcClient.get_tags_by_query all_steps
  acquire_lock-clears h u names e f = ground arith

  -- A lock is acquired only on a workspace that Terraform Cloud has not locked, and, where the query of
  -- its tags is answered, only if the tags name no other MR or the first one that they name is merged
  -- or closed.
  pub acquire_lock-IsFree :
      (h : History) (u : Unit {0}) → (acquire_lock w t ws h).0 ≡ ok u → IsFree w t ws h
  acquire_lock-IsFree h u e = (
    acquire_lock-unlocked h u e,
    λ names f. clear_stale_lock-IsStale _ _ u (acquire_lock-clears h u names e f),
  )

module _ (w : World) (t : TfcTrigger) (cfg_ws : TfcWorkspace) (ws : Workspace) (mr : DetailedMr)
    (clone_dir : Text) where
  abbrev IsRunCreate : Call → Type 0
  IsRunCreate c = is_run_create c ≡ true

  pub act_on-vcs :
      t.cfg.action ≡ apply
      → ws.has_vcs_repo ≡ true
      → act_on w t cfg_ws ws mr clone_dir ≡ fail vcs_refusal
  unfolding act_on
  act_on-vcs e v = rw (e, v) refl

  pub act_on-apply :
      t.cfg.action ≡ apply
      → ws.has_vcs_repo ≡ false
      → act_on w t cfg_ws ws mr clone_dir
        ≡ (acquire_lock w t ws >> launch w t cfg_ws mr (package_dir w t cfg_ws ws clone_dir))
  unfolding act_on start_run
  act_on-apply e v = rw (e, v) refl

  -- What follows a successful step that has seen the lock may create runs.
  Locked-first :
      (r : Res (Unit {0}) × List Call) (k : History → Res (Unit {0}) × List Call) (h : History)
      → All (λ c. ¬ IsRunCreate c) r.1
      → ((u : Unit {0}) → r.0 ≡ ok u → Seen (Locked w t ws) h r.1)
      → Since (Locked w t ws) IsRunCreate h (after r (λ _. k) h).1
  Locked-first (ok u, v) k h q s = Since-Seen (Locked w t ws) IsRunCreate v _ h q (s u refl)
  Locked-first (err e, v) k h q s = Since-All (Locked w t ws) IsRunCreate v h q

  acquire-first :
      (h : History)
      → Since
          (Locked w t ws)
          IsRunCreate
          h
          ((acquire_lock w t ws >> launch w t cfg_ws mr (package_dir w t cfg_ws ws clone_dir)) h).1
  unfolding ◌>>=◌
  acquire-first h =
      Locked-first (acquire_lock w t ws h) _ h
        (acquire_lock-Made (λ k. ¬ (is_running k ≡ true)) w t (λ x. ground arith) ws
          (λ x. ground arith) (λ x. ground arith) h)
        (acquire_lock-tags w t ws h)

  -- An apply creates a run only behind the call that tags the workspace as locked by its MR, and only
  -- if that call has succeeded.
  pub act_on-Since :
      (h : History)
      → t.cfg.action ≡ apply
      → Since (Locked w t ws) IsRunCreate h (act_on w t cfg_ws ws mr clone_dir h).1
  unfolding fail
  act_on-Since h e = elim (Bool-cases ws.has_vcs_repo) [
    | inl v ↦ rw (act_on-vcs e v) tt
    | inr v ↦ rw (act_on-apply e v) (acquire-first h)
  ]

  acquire-locked :
      (h : History)
      → ws.locked ≡ true
      → (is_err (acquire_lock w t ws h).0 ≡ true)
        × All (λ c. kind c ≡ reading) (acquire_lock w t ws h).1
  unfolding acquire_lock get_locking_mr TfcClient.get_tags_by_query all_steps
  acquire-locked h f = ground arith

  -- An apply to a workspace that Terraform Cloud has locked, or that has a VCS repository, is refused,
  -- and only reads.
  pub act_on-refused :
      (h : History)
      → t.cfg.action ≡ apply
      → (ws.has_vcs_repo || ws.locked) ≡ true
      → (is_err (act_on w t cfg_ws ws mr clone_dir h).0 ≡ true)
        × All (λ c. kind c ≡ reading) (act_on w t cfg_ws ws mr clone_dir h).1
  unfolding ◌>>=◌ fail
  act_on-refused h e f = elim (Bool-cases ws.has_vcs_repo) [
    | inl v ↦ rw (act_on-vcs e v) (refl, tt)
    | inr v ↦ rw (act_on-apply e v) (ground (arith, acquire-locked h))
  ]
