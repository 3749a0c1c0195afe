-- ===== src/CiJobs/Scheduling.antt =====
-- When a CI job creates a scheduled run, and when it cancels one.
use tfbuddy.Prelude.{
  ◌≡◌, refl, ap, sym, ◌∙◌, ◌⊎◌, inl, inr, true, false, Option, none, some, List, [], ◌++◌,
  Bool-cases,
}
use tfbuddy.Text.{Text}
use tfbuddy.Effects.{Res, ok, err}
use tfbuddy.Effects.Laws.{Res-cases}
use tfbuddy.Requests.{◌>>=◌, pure, fail, receive}
use tfbuddy.Requests.Calls.{Sends, sends}
use tfbuddy.Requests.Since.{Since, Seen, bind-Since, bind-Seen}
use tfbuddy.CiJobs.{
  CiApi, CiCall, read_workspace, read_run, cancel_run, create_run, CiRun, CiWorkspace,
  is_unfinished_run, can_cancel_run, is_scheduled, should_schedule_new_run, run_or_nil, or_nil,
  org_name, print_run_info, found_workspace, get_workspace, read_current, get_current_run,
  queue_run, start_scheduled_run,
}

-- A call that creates or cancels a run.
abbrev pub Acts : CiCall → Type 0
Acts (cancel_run id) = Unit
Acts (create_run ws message) = Unit
Acts _ = ⊥

-- The run is finished, or it is a scheduled one that can be cancelled.
abbrev pub MayFollow : CiRun → Type 0
MayFollow run =
    (is_unfinished_run (some run) ≡ false)
    ⊎ ((is_scheduled (some run) ≡ true) × (can_cancel_run (some run) ≡ true))

module _ (api : CiApi) (name : Text) where
  -- A run that a reply names as the current one of the workspace.
  abbrev IsCurrent : Text → Type 0
  IsCurrent id =
      (k : List CiCall) × (ws : CiWorkspace) × (api.workspaces k (read_workspace org_name name)
        ≡ ok (some ws))
      × (ws.current_run ≡ some id)

  abbrev Reads : CiRun → List CiCall → CiCall → Type 0
  Reads run h c = (id : Text) × IsCurrent id × (c ≡ read_run id) × (api.runs h c ≡ ok run)

  -- The current run was read, and a new one may follow it.
  abbrev pub Cleared : List CiCall → CiCall → Type 0
  Cleared h c = (run : CiRun) × Reads run h c × MayFollow run

  found_workspace-Reads :
      (ws : Option CiWorkspace) → Sends (λ c. ¬ Acts c) (found_workspace name ws)
  unfolding found_workspace
  found_workspace-Reads none = search sends
  found_workspace-Reads (some ws) = search sends

  get_workspace-Reads : Sends (λ c. ¬ Acts c) (get_workspace api name)
  unfolding get_workspace
  get_workspace-Reads = search (sends, found_workspace-Reads)

  read_current-Reads : (id : Option Text) → Sends (λ c. ¬ Acts c) (read_current api id)
  unfolding read_current
  read_current-Reads none = search sends
  read_current-Reads (some id) = search sends

  get_current_run-Reads : Sends (λ c. ¬ Acts c) (get_current_run api name)
  unfolding get_current_run
  get_current_run-Reads = search (sends, get_workspace-Reads, read_current-Reads)

  workspace_reply :
      (r : Res (Option CiWorkspace)) (k : List CiCall) (ws : CiWorkspace)
      → (found_workspace name (or_nil r) k).0 ≡ ok ws
      → r ≡ ok (some ws)
  unfolding found_workspace fail pure
  workspace_reply (ok none) k ws e = cc
  workspace_reply (ok (some v)) k ws e = cc
  workspace_reply (err x) k ws e = cc

  get_workspace-replied :
      (h : List CiCall) (ws : CiWorkspace)
      → (get_workspace api name h).0 ≡ ok ws
      → api.workspaces h (read_workspace org_name name) ≡ ok (some ws)
  unfolding get_workspace receive ◌>>=◌
  get_workspace-replied h ws e = workspace_reply _ _ ws e

  module _ (run : CiRun) (p : MayFollow run) where
    reply-Cleared :
        (id : Text) (k : List CiCall)
        → IsCurrent id
        → run_or_nil (api.runs k (read_run id)) ≡ some run
        → Cleared k (read_run id)
    reply-Cleared id k c e = elim (Res-cases (api.runs k (read_run id))) [
      | inl (r, f) ↦ (run, (id, c, refl, f ∙ ap ok (same r (sym (ap run_or_nil f) ∙ e))), p)
      | inr (x, f) ↦ absurd (none_is_not (sym (ap run_or_nil f) ∙ e))
    ]
      where
        same : (r : CiRun) → some r ≡ some run → r ≡ run
        same r e = cc

        none_is_not : ¬ (none ≡ some run)
        none_is_not e = cc

    read_current-Seen :
        (id : Option Text) (k : List CiCall)
        → ((i : Text) → id ≡ some i → IsCurrent i)
        → (read_current api id k).0 ≡ ok (some run)
        → Seen Cleared k (read_current api id k).1
    unfolding read_current ◌>>=◌ pure receive
    read_current-Seen none k c e = cc
    read_current-Seen (some id) k c e = inl (reply-Cleared id k (c id refl) cc)

    get_current_run-Seen :
        (h : List CiCall)
        → (get_current_run api name h).0 ≡ ok (some run)
        → Seen Cleared h (get_current_run api name h).1
    unfolding get_current_run
    get_current_run-Seen h e =
        bind-Seen Cleared (λ c. ⊥) (get_workspace api name) _ h (some run)
          (λ ws k f.
            read_current-Seen ws.current_run k (λ i g. (h, ws, get_workspace-replied h ws f, g)))
          e

  -- Without such a run nothing is done.
  queue_run-none :
      (run : CiRun)
      → (MayFollow run) ⊎ ((h : List CiCall) → queue_run api name (some run) h ≡ (ok tt, []))
  unfolding queue_run should_schedule_new_run pure
  queue_run-none run = elim (Bool-cases (is_unfinished_run (some run))) [
    | inl u ↦ elim (Bool-cases (is_scheduled (some run))) [
      | inl s ↦ elim (Bool-cases (can_cancel_run (some run))) [
        | inl c ↦ inl (inr (s, c))
        | inr c ↦ inr (λ h. rw (u, s, c) refl)
      ]
      | inr s ↦ inr (λ h. rw (u, s) refl)
    ]
    | inr u ↦ inl (inl u)
  ]

  -- A job cancels or creates a run only after it has read the current run of the workspace, and
  -- this one is finished, or was scheduled by a job and can be cancelled.
  pub start_scheduled_run-Since :
      (h : List CiCall) → Since Cleared Acts h (start_scheduled_run api name h).1
  unfolding start_scheduled_run print_run_info fail pure ◌>>=◌
  start_scheduled_run-Since h =
      bind-Since Cleared Acts (get_current_run api name) _ h (get_current_run-Reads h) after
    where
      after :
          (current : Option CiRun)
          → (get_current_run api name h).0 ≡ ok current
          → Seen Cleared h (get_current_run api name h).1
            ⊎ ((k : List CiCall)
                → Since Cleared Acts k
                    ((print_run_info current >>= λ _. queue_run api name current) k).1)
      after none e = inr (λ k. tt)
      after (some run) e = elim (queue_run-none run) [
        | inl p ↦ inl (get_current_run-Seen run p h e)
        | inr q ↦ inr (λ k. rw (q (k ++ [])) tt)
      ]
