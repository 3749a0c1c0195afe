-- ===== src/Trigger/Harmless.antt =====
-- Calls that make no second owner of a workspace's lock: all but the tag of another lock on it.
use tfbuddy.Prelude.{
  ℕ, ◌≡◌, refl, ◌∙◌, ◌⊎◌, inl, inr, Bool, true, false, Option, none, some, List, [], ◌∷◌, ◌++◌,
  if◌then◌else◌, keep, arith, All, Bool-cases, ◌==◌, append-nil,
}
use tfbuddy.Text.{Text, lit, text_eq, contains, has_prefix, is_digit, itoa}
use tfbuddy.Text.Laws.{IsDigit, itoa-All}
use tfbuddy.Types.{TfcWorkspace, DetailedMr, Workspace}
use tfbuddy.Locks.{tf_prefix, tag_name}
use tfbuddy.Locks.Laws.{lock_tag}
use tfbuddy.TfcClient
use tfbuddy.Trigger.{TfcTrigger, is_apply}
use tfbuddy.Trigger.Tags.{after_call, replay, is_missing}
use tfbuddy.Trigger.Owner.{OwnedBy, is_lock_tag, lock_tags, keep_comm, keep-append}
use tfbuddy.Trigger.Runs.{
  lock_unlock_workspace, lock_result, change_lock, launch, start_run, act_on, acquire_lock,
  get_locking_mr, clear_stale_lock,
}
use tfbuddy.Trigger.Made.{get_locking_mr-Made, clear_stale_lock-Made, launch-Made}
use tfbuddy.Effects.{
  Call, World, Answers, Res, ok, err, History, perform, workspaces_add_tags, workspaces_remove_tags,
}
use tfbuddy.Effects.Kinds.{Kind, kind, tagging}
use tfbuddy.Effects.Laws.{Always, always, Always-weaken, Always-if_false}

-- Nobody owns the lock, or one MR does, by one tag.
abbrev pub HasOneOwner : List Text → Type 0
HasOneOwner tags = (o : Option ℕ) × OwnedBy o tags

abbrev pub IsNoLock : Text → Type 0
IsNoLock tag = is_lock_tag tag ≡ false

abbrev pub Harmless : Text → Call → Type 0
Harmless id (workspaces_add_tags i names) = (text_eq i id ≡ false) ⊎ All IsNoLock names
Harmless id _ = Unit

keep-lock_tags :
    (q : Text → Bool) (o : Option ℕ) → (p : Option ℕ) × (keep q (lock_tags o) ≡ lock_tags p)
keep-lock_tags q none = (none, refl)
keep-lock_tags q (some n) = elim (Bool-cases (q (lock_tag n))) [
  | inl e ↦ (some n, rw e)
  | inr e ↦ (none, rw e)
]

-- No removal makes a second owner.
keep-HasOneOwner :
    (q : Text → Bool) (tags : List Text) → HasOneOwner tags → HasOneOwner (keep q tags)
keep-HasOneOwner q tags (o, own) =
    let (p, e) = keep-lock_tags q o in (p, keep_comm is_lock_tag q tags ∙ rw own e)

no_locks :
    (q : Text → Bool) (names : List Text)
    → All IsNoLock names
    → keep is_lock_tag (keep q names) ≡ []
no_locks q [] h = refl
no_locks q (n ∷ names) (h, hs) = ground (arith, h, no_locks q names hs)

add-HasOneOwner :
    (q : Text → Bool) (tags names : List Text)
    → HasOneOwner tags
    → All IsNoLock names
    → HasOneOwner (tags ++ keep q names)
add-HasOneOwner q tags names (o, own) h =
    (o, keep-append is_lock_tag tags (keep q names) ∙ rw (no_locks q names h) (rw append-nil own))

either :
    (b : Bool) (xs ys : List Text)
    → HasOneOwner xs
    → HasOneOwner ys
    → HasOneOwner (if b then xs else ys)
either true xs ys p q = p
either false xs ys p q = q

module _ (units : Answers (Unit {0})) (id : Text) where
  after_call-HasOneOwner :
      (h : History) (c : Call) (tags : List Text)
      → Harmless id c
      → HasOneOwner tags
      → HasOneOwner (after_call units id h c tags)
  after_call-HasOneOwner h (workspaces_add_tags i names) tags (inl e) own = rw e own
  after_call-HasOneOwner h (workspaces_add_tags i names) tags (inr e) own =
      either _ _ _ (add-HasOneOwner (is_missing tags) tags names own e) own
  after_call-HasOneOwner h (workspaces_remove_tags i names) tags e own =
      either _ _ _ (keep-HasOneOwner (is_missing names) tags own) own
  after_call-HasOneOwner h _ tags e own = own

  pub replay-HasOneOwner :
      (h : History) (tags : List Text) (cs : List Call)
      → All (Harmless id) cs
      → HasOneOwner tags
      → HasOneOwner (replay units id h tags cs)
  replay-HasOneOwner h tags [] q own = own
  replay-HasOneOwner h tags (c ∷ cs) (q, qs) own =
      replay-HasOneOwner (h ++ c ∷ []) _ cs qs (after_call-HasOneOwner h c tags q own)

-- A text without a "t" is no lock tag.
without_t : (s : Text) → All (λ c. (c == b't') ≡ false) s → IsNoLock s
unfolding contains has_prefix lit
without_t [] h = refl
without_t (c ∷ s) (h, hs) = ground (arith, h, without_t s hs)

digit-not_t : (s : Text) → All IsDigit s → All (λ c. (c == b't') ≡ false) s
unfolding is_digit
digit-not_t [] h = tt
digit-not_t (c ∷ s) (d, h) = (ground (arith, d), digit-not_t s h)

gl_lock-IsNoLock : (n : ℕ) → IsNoLock (tag_name (lit "gl-lock") (lit "mr-" ++ itoa n))
unfolding lit
gl_lock-IsNoLock n = without_t _ (ground (arith, digit-not_t (itoa n) (itoa-All n)))

-- A kind of calls that add no tags.
abbrev pub AddsNone : Kind → Type 0
AddsNone tagging = ⊥
AddsNone _ = Unit

pub AddsNone-Harmless : (id : Text) (c : Call) → AddsNone (kind c) → Harmless id c
AddsNone-Harmless id c p = ground (arith, p)

module _ (id : Text) (w : World) (t : TfcTrigger) where
  get_locking-Harmless : (ws : Text) → Always (Harmless id) (get_locking_mr w t ws)
  get_locking-Harmless ws =
      Always-weaken (λ c. AddsNone (kind c)) (Harmless id) (get_locking_mr w t ws)
        (AddsNone-Harmless id) (get_locking_mr-Made AddsNone w t tt ws)

  clear-Harmless : (ws mr : Text) → Always (Harmless id) (clear_stale_lock w t ws mr)
  clear-Harmless ws mr =
      Always-weaken (λ c. AddsNone (kind c)) (Harmless id) (clear_stale_lock w t ws mr)
        (AddsNone-Harmless id) (clear_stale_lock-Made AddsNone w t tt ws mr tt)

  pub launch-Harmless :
      (cfg_ws : TfcWorkspace) (mr : DetailedMr) (dir : Text)
      → Always (Harmless id) (launch w t cfg_ws mr dir)
  launch-Harmless cfg_ws mr dir =
      Always-weaken (λ c. AddsNone (kind c)) (Harmless id) (launch w t cfg_ws mr dir)
        (AddsNone-Harmless id) (launch-Made AddsNone w t tt cfg_ws mr dir tt tt tt tt)

  remove-Harmless : (ws q : Text) → Always (Harmless id) (TfcClient.remove_tags_by_query w ws q)
  unfolding TfcClient.remove_tags_by_query TfcClient.get_tags_by_query
  remove-Harmless ws q = search always

  gl_tag-Harmless :
      (ws : Text) (n : ℕ)
      → Always (Harmless id) (TfcClient.add_tags w ws (lit "gl-lock") (lit "mr-" ++ itoa n))
  unfolding TfcClient.add_tags perform
  gl_tag-Harmless ws n h = (inr (gl_lock-IsNoLock n, tt), tt)

  client_lock-Harmless :
      (ws reason : Text) (n : ℕ) (b : Bool)
      → Always (Harmless id) (TfcClient.lock_unlock_workspace w ws reason (lit "mr-" ++ itoa n) b)
  unfolding TfcClient.lock_unlock_workspace
  client_lock-Harmless ws reason n true = search (always, gl_tag-Harmless)
  client_lock-Harmless ws reason n false = search (always, remove-Harmless)

  workspace_lock-Harmless :
      (ws : Workspace) (mr : DetailedMr) (b : Bool)
      → Always (Harmless id) (lock_unlock_workspace w t ws mr b)
  unfolding lock_unlock_workspace
  workspace_lock-Harmless ws mr b = search (always, client_lock-Harmless)

  lock_result-Harmless : (r : Res (Unit {0})) → Always (Harmless id) (lock_result w t r)
  lock_result-Harmless (ok u) = search always
  lock_result-Harmless (err e) = search always

  change_lock-Harmless :
      (cfg_ws : TfcWorkspace) (ws : Workspace) (mr : DetailedMr)
      → Always (Harmless id) (change_lock w t cfg_ws ws mr)
  unfolding change_lock
  change_lock-Harmless cfg_ws ws mr =
      search (always, workspace_lock-Harmless, lock_result-Harmless, remove-Harmless) depth 12

  module _ (cfg_ws : TfcWorkspace) (ws : Workspace) (mr : DetailedMr) (dir : Text) where
    plan-Harmless :
        is_apply t.cfg.action ≡ false → Always (Harmless id) (start_run w t cfg_ws ws mr dir)
    unfolding start_run
    plan-Harmless e = Always-if_false (Harmless id) _ _ _ e (search (always, launch-Harmless))

    add-Harmless :
        (n : Text)
        → text_eq ws.id id ≡ false
        → Always (Harmless id) (TfcClient.add_tags w ws.id tf_prefix n)
    unfolding TfcClient.add_tags perform
    add-Harmless n e h = (inl e, tt)

    acquire-Harmless : text_eq ws.id id ≡ false → Always (Harmless id) (acquire_lock w t ws)
    unfolding acquire_lock
    acquire-Harmless e = search (always, add-Harmless, get_locking-Harmless, clear-Harmless) depth 9

    elsewhere-Harmless :
        text_eq ws.id id ≡ false → Always (Harmless id) (start_run w t cfg_ws ws mr dir)
    unfolding start_run
    elsewhere-Harmless e = search (always, launch-Harmless, acquire-Harmless) depth 9

    -- Any action but an apply to this workspace.
    pub act_on-Harmless :
        is_apply t.cfg.action ≡ false ⊎ text_eq ws.id id ≡ false
        → Always (Harmless id) (act_on w t cfg_ws ws mr dir)
    unfolding act_on
    act_on-Harmless (inl e) = search (always, plan-Harmless, change_lock-Harmless)
    act_on-Harmless (inr e) = search (always, elsewhere-Harmless, change_lock-Harmless)
