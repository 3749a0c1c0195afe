-- ===== src/Trigger/Turns.antt =====
-- The applies, plans and clean-ups of a workspace that follow one another, and its lock.
use tfbuddy.Prelude.{
  ℕ, ◌≡◌, subst, sym, ◌⊎◌, inl, inr, true, Option, none, some, List, [], ◌∷◌, ◌++◌, All, Bool-cases,
  arith,
}
use tfbuddy.Text.{Text, text_eq}
use tfbuddy.Text.Laws.{text_eq_sound}
use tfbuddy.Types.{TriggerAction, apply, TfcWorkspace, DetailedMr, Workspace}
use tfbuddy.Project.{Glob, Decoder}
use tfbuddy.Trigger.{TfcTrigger, is_apply}
use tfbuddy.Trigger.Runs.{act_on, acquire_lock, launch, package_dir}
use tfbuddy.Trigger.Cleanup.{
  Releases, RemovesOnly, read_mr, trigger_cleanup_event, trigger_cleanup_event-Releases,
}
use tfbuddy.Trigger.LockFirst.{act_on-vcs, act_on-apply}
use tfbuddy.Trigger.EventSafety.{TouchesNothing}
use tfbuddy.Trigger.Tags.{KeepsTags, replay-append}
use tfbuddy.Trigger.Owner.{OwnedBy}
use tfbuddy.Trigger.Ends.{tags_at, Ends, Ends-bind, Ends-weaken, Ends_always, always_Ends}
use tfbuddy.Trigger.Exclusion.{Blocked, acquire_lock-Ends}
use tfbuddy.Trigger.Harmless.{
  HasOneOwner, Harmless, replay-HasOneOwner, launch-Harmless, act_on-Harmless, AddsNone,
  AddsNone-Harmless,
}
use tfbuddy.Effects.{Call, World, History, fail, ◌>>◌, ok}
use tfbuddy.Effects.Kinds.{kind}

blocked :
    (o p : Option ℕ) (ts : List Text)
    → OwnedBy o ts ⊎ (OwnedBy none ts ⊎ OwnedBy p ts)
    → HasOneOwner ts
blocked o p ts (inl q) = (o, q)
blocked o p ts (inr (inl q)) = (none, q)
blocked o p ts (inr (inr q)) = (p, q)

module _ (w : World) (tags : List Text) where
  harmless-HasOneOwner :
      (id : Text) (h : History) (cs : List Call)
      → HasOneOwner (tags_at w.units id tags h)
      → All (Harmless id) cs
      → HasOneOwner (tags_at w.units id tags (h ++ cs))
  harmless-HasOneOwner id h cs own q =
      subst HasOneOwner (sym (replay-append w.units id [] tags h cs))
        (replay-HasOneOwner w.units id h _ cs q own)

  module _ (t : TfcTrigger) (cfg_ws : TfcWorkspace) (ws : Workspace) (mr : DetailedMr)
      (dir : Text) where
    locked-HasOneOwner :
        (h : History)
        → KeepsTags w ws.id tags
        → HasOneOwner (tags_at w.units ws.id tags h)
        → Ends w.units ws.id tags
            (λ (_ : Unit {0}). HasOneOwner)
            HasOneOwner
            ((acquire_lock w t ws >> launch w t cfg_ws mr (package_dir w t cfg_ws ws dir)) h)
            h
    locked-HasOneOwner h keeps (o, own) =
        Ends-bind w.units ws.id tags (λ _. HasOneOwner) (λ _. HasOneOwner) HasOneOwner
          (acquire_lock w t ws) _ h
          (Ends-weaken w.units ws.id tags (λ _. OwnedBy (some t.cfg.merge_request_iid))
            (Blocked w t ws tags keeps o) (λ _. HasOneOwner) HasOneOwner (acquire_lock w t ws h) h
            (λ _ ts p. (some t.cfg.merge_request_iid, p)) (blocked o (some t.cfg.merge_request_iid))
            (acquire_lock-Ends w t ws tags keeps o h own))
          (λ u k one. always_Ends w.units ws.id tags HasOneOwner _ k (
            harmless-HasOneOwner ws.id k _ one
              (launch-Harmless ws.id w t cfg_ws mr (package_dir w t cfg_ws ws dir) k)))

    apply-HasOneOwner :
        (h : History)
        → t.cfg.action ≡ apply
        → KeepsTags w ws.id tags
        → HasOneOwner (tags_at w.units ws.id tags h)
        → HasOneOwner (tags_at w.units ws.id tags (h ++ (act_on w t cfg_ws ws mr dir h).1))
    unfolding fail
    apply-HasOneOwner h e keeps one = elim (Bool-cases ws.has_vcs_repo) [
      | inl v ↦ rw (act_on-vcs w t cfg_ws ws mr dir e v) (harmless-HasOneOwner ws.id h [] one tt)
      | inr v ↦
          rw (act_on-apply w t cfg_ws ws mr dir e v)
            (Ends_always w.units ws.id tags HasOneOwner _ h (locked-HasOneOwner h keeps one))
    ]

is_apply_sound : (a : TriggerAction) → is_apply a ≡ true → a ≡ apply
is_apply_sound a e = ground arith

TouchesNothing-Harmless : (id : Text) (c : Call) → TouchesNothing (kind c) → Harmless id c
TouchesNothing-Harmless id c p = ground (arith, p)

RemovesOnly-Harmless : (id tag : Text) (c : Call) → RemovesOnly tag c → Harmless id c
RemovesOnly-Harmless id tag c p = ground (arith, p)

Releases-Harmless : (id tag : Text) (cs : List Call) → All (Releases tag) cs → All (Harmless id) cs
Releases-Harmless id tag [] q = tt
Releases-Harmless id tag (c ∷ cs) (inl q, qs) =
    (TouchesNothing-Harmless id c q, Releases-Harmless id tag cs qs)
Releases-Harmless id tag (c ∷ cs) (inr q, qs) =
    (RemovesOnly-Harmless id tag c q, Releases-Harmless id tag cs qs)

adds_none : (id : Text) (cs : List Call) → All (λ c. AddsNone (kind c)) cs → All (Harmless id) cs
adds_none id [] q = tt
adds_none id (c ∷ cs) (q, qs) = (AddsNone-Harmless id c q, adds_none id cs qs)

module _ (glob : Glob) (decoder : Decoder) (w : World) where
  -- One turn: an action of any MR on any workspace, the clean-up of a merged MR, or a program that
  -- adds no tags.
  pub data Turn : History → History → Type 0 where
    acts :
        (t : TfcTrigger) (cfg_ws : TfcWorkspace) (ws : Workspace) (mr : DetailedMr) (dir : Text)
        (h : History)
        → Turn h (h ++ (act_on w t cfg_ws ws mr dir h).1)
    cleans :
        (t : TfcTrigger) (mr : DetailedMr) (h : History)
        → w.merge_requests h (read_mr glob decoder w t) ≡ ok mr
        → Turn h (h ++ (trigger_cleanup_event glob decoder w t h).1)
    others : (cs : List Call) (h : History) → All (λ c. AddsNone (kind c)) cs → Turn h (h ++ cs)

  pub data Turns : History → Type 0 where
    start : Turns []
    next : {h k : History} → Turns h → Turn h k → Turns k

  module _ (id : Text) (tags : List Text) (keeps : KeepsTags w id tags) where
    here-HasOneOwner :
        (t : TfcTrigger) (cfg_ws : TfcWorkspace) (ws : Workspace) (mr : DetailedMr) (dir : Text)
        (h : History)
        → t.cfg.action ≡ apply
        → ws.id ≡ id
        → HasOneOwner (tags_at w.units id tags h)
        → HasOneOwner (tags_at w.units id tags (h ++ (act_on w t cfg_ws ws mr dir h).1))
    here-HasOneOwner t cfg_ws ws mr dir h a e one =
        subst (λ i. HasOneOwner (tags_at w.units i tags (h ++ (act_on w t cfg_ws ws mr dir h).1))) e
          (apply-HasOneOwner w tags t cfg_ws ws mr dir h a
            (subst (λ i. KeepsTags w i tags) (sym e) keeps)
            (subst (λ i. HasOneOwner (tags_at w.units i tags h)) (sym e) one))

    Turn-HasOneOwner :
        {h k : History}
        → Turn h k
        → HasOneOwner (tags_at w.units id tags h)
        → HasOneOwner (tags_at w.units id tags k)
    Turn-HasOneOwner (acts t cfg_ws ws mr dir h) one = elim (Bool-cases (is_apply t.cfg.action)) [
      | inl a ↦ elim (Bool-cases (text_eq ws.id id)) [
        | inl e ↦
            here-HasOneOwner t cfg_ws ws mr dir h (is_apply_sound t.cfg.action a)
              (text_eq_sound ws.id id e) one
        | inr e ↦
            harmless-HasOneOwner w tags id h _ one
              (act_on-Harmless id w t cfg_ws ws mr dir (inr e) h)
      ]
      | inr a ↦
          harmless-HasOneOwner w tags id h _ one (act_on-Harmless id w t cfg_ws ws mr dir (inl a) h)
    ]
    Turn-HasOneOwner (cleans t mr h e) one =
        harmless-HasOneOwner w tags id h _ one
          (Releases-Harmless id _ _ (trigger_cleanup_event-Releases glob decoder w t h mr e))
    Turn-HasOneOwner (others cs h q) one =
        harmless-HasOneOwner w tags id h cs one (adds_none id cs q)

    -- Where Terraform Cloud keeps the tags of a workspace and answers each query for them, and at first
    -- no lock tag or one is there, then after any turns of MRs, whatever else fails in them, at most one
    -- MR has its lock tag there. A turn is an action of any MR on any workspace, the clean-up of an MR
    -- that was read, or a program that adds no tags.
    pub Turns-HasOneOwner :
        {h : History} → HasOneOwner tags → Turns h → HasOneOwner (tags_at w.units id tags h)
    Turns-HasOneOwner one start = one
    Turns-HasOneOwner one (next r turn) = Turn-HasOneOwner turn (Turns-HasOneOwner one r)
