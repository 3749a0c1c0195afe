-- ===== src/Trigger/Dispatch.antt =====
-- What a dispatch runs, reports and calls.
use tfbuddy.Prelude.{
  ◌≡◌, refl, ◌∙◌, true, false, List, [], ◌∷◌, ◌++◌, append_assoc, append-nil, any, Bool-cases, inl,
  inr,
}
use tfbuddy.Text.{Text, text_eq}
use tfbuddy.Errors.{Error, error_text}
use tfbuddy.Config.{Config}
use tfbuddy.Types.{TfcWorkspace}
use tfbuddy.AllowList.{is_workspace_allowed}
use tfbuddy.Trigger.Dispatching.{
  ErroredWorkspace, TriggeredTfcWorkspaces, add_errored, add_result, ignored_message,
  blocked_message, dispatch_from, dispatch_workspaces, no_workspaces,
}
use tfbuddy.Effects.{Call, Io, Res, ok, err, History, after, caught, ◌>>=◌, pure, attempt}
use tfbuddy.Effects.Laws.{Always, Always-bind, Always-attempt, Always-pure}

-- The workspace passes the allow and deny lists, and is not blocked.
abbrev pub MayRun : Config → List Text → TfcWorkspace → Type 0
MayRun cfg blocked ws =
    (is_workspace_allowed cfg ws.name ws.organization ≡ true)
    × (any (text_eq ws.name) blocked ≡ false)

-- What becomes of the workspaces, in order: each is reported once, and is handed to the dispatch only
-- if it may run. The lists are the errors, the names of the executed workspaces, and the calls.
module _ (cfg : Config) (blocked : List Text) (dispatch : TfcWorkspace → Io (Unit {0})) where
  pub data Dispatched
      : List TfcWorkspace → History → List ErroredWorkspace → List Text → List Call → Type 0 where
    finished : {h : History} → Dispatched [] h [] [] []
    ignored :
        {wss : List TfcWorkspace} {h : History} {es : List ErroredWorkspace} {xs : List Text}
        {cs : List Call} (ws : TfcWorkspace)
        → is_workspace_allowed cfg ws.name ws.organization ≡ false
        → Dispatched wss h es xs cs
        → Dispatched (ws ∷ wss) h (record { name = ws.name; error = ignored_message } ∷ es) xs cs
    held_back :
        {wss : List TfcWorkspace} {h : History} {es : List ErroredWorkspace} {xs : List Text}
        {cs : List Call} (ws : TfcWorkspace)
        → is_workspace_allowed cfg ws.name ws.organization ≡ true
        → any (text_eq ws.name) blocked ≡ true
        → Dispatched wss h es xs cs
        → Dispatched (ws ∷ wss) h (record { name = ws.name; error = blocked_message ws } ∷ es) xs cs
    failed :
        {wss : List TfcWorkspace} {h : History} {es : List ErroredWorkspace} {xs : List Text}
        {cs v : List Call} (ws : TfcWorkspace) (e : Error)
        → MayRun cfg blocked ws
        → dispatch ws h ≡ (err e, v)
        → Dispatched wss (h ++ v) es xs cs
        → Dispatched
            (ws ∷ wss)
            h
            (record { name = ws.name; error = error_text e } ∷ es)
            xs
            (v ++ cs)
    ran :
        {wss : List TfcWorkspace} {h : History} {es : List ErroredWorkspace} {xs : List Text}
        {cs v : List Call} (ws : TfcWorkspace)
        → MayRun cfg blocked ws
        → dispatch ws h ≡ (ok tt, v)
        → Dispatched wss (h ++ v) es xs cs
        → Dispatched (ws ∷ wss) h es (ws.name ∷ xs) (v ++ cs)

module _ (cfg : Config) (blocked : List Text) (dispatch : TfcWorkspace → Io (Unit {0})) where
  -- The result adds the reports of the workspaces to the status so far.
  abbrev Adds :
      List TfcWorkspace
      → TriggeredTfcWorkspaces
      → History
      → Res TriggeredTfcWorkspaces × List Call
      → Type 0
  Adds wss status h r =
      (es : List ErroredWorkspace) × (xs : List Text) × (r.0
        ≡ ok (record { errored = status.errored ++ es; executed = status.executed ++ xs }))
      × Dispatched cfg blocked dispatch wss h es xs r.1

  skip :
      (wss wss' : List TfcWorkspace) (status : TriggeredTfcWorkspaces) (name error : Text)
      (h : History) (r : Res TriggeredTfcWorkspaces × List Call)
      → ((es : List ErroredWorkspace) (xs : List Text)
          → Dispatched cfg blocked dispatch wss h es xs r.1
          → Dispatched cfg blocked dispatch wss' h
              (record { name = name; error = error } ∷ es)
              xs
              r.1)
      → Adds wss (add_errored status name error) h r
      → Adds wss' status h r
  skip wss wss' status name error h r more (es, xs, e, d) = (
    record { name = name; error = error } ∷ es,
    xs,
    e ∙ simp (append_assoc status.errored (record { name = name; error = error } ∷ []) es) refl,
    more es xs d,
  )

  run :
      (ws : TfcWorkspace) (wss : List TfcWorkspace) (status : TriggeredTfcWorkspaces) (h : History)
      → MayRun cfg blocked ws
      → (o : Res (Unit {0}) × List Call) → dispatch ws h ≡ o
      → ((s : TriggeredTfcWorkspaces) (h' : History)
          → Adds wss s h' (dispatch_from cfg blocked dispatch wss s h'))
      → Adds (ws ∷ wss) status h (
          after
            (caught o)
            (λ r. dispatch_from cfg blocked dispatch wss (add_result status ws.name r))
            h)
  run ws wss status h may (ok u, v) f ih =
      let (es, xs, e, d) = ih _ (h ++ v) in
      (
        es,
        ws.name ∷ xs,
        e ∙ simp (append_assoc status.executed (ws.name ∷ []) xs) refl,
        Dispatched.ran ws may f d,
      )
  run ws wss status h may (err x, v) f ih =
      let (es, xs, e, d) = ih _ (h ++ v) in
      (
        record { name = ws.name; error = error_text x } ∷ es,
        xs,
        e
            ∙ simp
                (append_assoc status.errored (record { name = ws.name; error = error_text x } ∷ [])
                  es)
                refl,
        Dispatched.failed ws x may f d,
      )

  dispatch_from-Adds :
      (wss : List TfcWorkspace) (status : TriggeredTfcWorkspaces) (h : History)
      → Adds wss status h (dispatch_from cfg blocked dispatch wss status h)
  unfolding dispatch_from ◌>>=◌ pure attempt
  dispatch_from-Adds [] status h = (
    [],
    [],
    simp (append-nil status.errored, append-nil status.executed) refl,
    Dispatched.finished,
  )
  dispatch_from-Adds (ws ∷ wss) status h =
      elim (Bool-cases (is_workspace_allowed cfg ws.name ws.organization)) [
        | inr denied ↦ rw denied (
            skip wss (ws ∷ wss) status ws.name ignored_message h _
              (λ es xs. Dispatched.ignored ws denied) (dispatch_from-Adds wss _ h))
        | inl allowed ↦ elim (Bool-cases (any (text_eq ws.name) blocked)) [
          | inl b ↦
              rw (allowed, b)
                (skip wss (ws ∷ wss) status ws.name (blocked_message ws) h _
                  (λ es xs. Dispatched.held_back ws allowed b) (dispatch_from-Adds wss _ h))
          | inr b ↦
              rw (allowed, b)
                (run ws wss status h (allowed, b) (dispatch ws h) refl (dispatch_from-Adds wss))
        ]
      ]

  -- A dispatch succeeds. Each workspace is reported once, in order: as ignored, if the allow and deny
  -- lists stop it; as blocked, if they let it pass and it is one of the blocked; and otherwise it is
  -- handed on, once, and is reported as executed if that succeeds and by its error if not. The calls are
  -- those of the workspaces handed on, and no others.
  pub dispatch_workspaces-Dispatched :
      (wss : List TfcWorkspace) (h : History)
      → (es : List ErroredWorkspace) × (xs : List Text) × ((dispatch_workspaces cfg wss blocked
            dispatch h).0
          ≡ ok (record { errored = es; executed = xs }))
        × Dispatched cfg blocked dispatch wss h es xs
            (dispatch_workspaces cfg wss blocked dispatch h).1
  dispatch_workspaces-Dispatched wss h = dispatch_from-Adds wss no_workspaces h

  module _ (P : Call → Type 0)
      (each : (ws : TfcWorkspace) → MayRun cfg blocked ws → Always P (dispatch ws)) where
    pub dispatch_from-Always :
        (wss : List TfcWorkspace) (status : TriggeredTfcWorkspaces)
        → Always P (dispatch_from cfg blocked dispatch wss status)
    unfolding dispatch_from
    dispatch_from-Always [] status = Always-pure P status
    dispatch_from-Always (ws ∷ wss) status =
        elim (Bool-cases (is_workspace_allowed cfg ws.name ws.organization)) [
          | inr denied ↦ rw denied (dispatch_from-Always wss _)
          | inl allowed ↦ elim (Bool-cases (any (text_eq ws.name) blocked)) [
            | inl b ↦ rw (allowed, b) (dispatch_from-Always wss _)
            | inr b ↦
                rw (allowed, b)
                  (Always-bind P _ _ (Always-attempt P _ (each ws (allowed, b)))
                    (λ r. dispatch_from-Always wss _))
          ]
        ]
