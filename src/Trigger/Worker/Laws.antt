-- ===== src/Trigger/Worker/Laws.antt =====
-- What the worker promises: a message is handled once, its error reaches the merge request, and its
-- clone is removed.
use tfbuddy.Prelude.{
  ◌≡◌, refl, sym, ap, subst, ◌∙◌, ◌≤◌, inl, true, false, List, [], ◌∷◌, ◌++◌, append_assoc, any,
  is_empty, arith, Any, Any-append_right, tally,
}
use tfbuddy.Text.{Text, text_eq}
use tfbuddy.Errors.{Error}
use tfbuddy.Config.{Config}
use tfbuddy.Types.{DetailedMr, WorkspaceTriggerMsg}
use tfbuddy.AllowList.Capitals.{HasNoSlash, tail_eq}
use tfbuddy.Project.{Glob, Decoder}
use tfbuddy.Trigger.Events.{clone_git_repo}
use tfbuddy.Trigger.EventSafety.{clone-Made}
use tfbuddy.Trigger.Safety.{is_run_create, is_running, trigger_run-AtMost}
use tfbuddy.Trigger.Worker.{
  get_id, trigger_of, workspace_error, post_workspace_error, run_in_clone, run_workspace,
  handle_msg,
}
use tfbuddy.Effects.{
  Call, World, Io, Res, ok, err, History, after, caught, ◌>>=◌, pure, perform, attempt, on_result,
  remove_all, create_merge_request_comment,
}
use tfbuddy.Effects.Laws.{Always, always}
use tfbuddy.Effects.Makes.{Makes-attempt, Makes-first, Makes-perform}
use tfbuddy.Effects.Order.{AtMost, AtMost-skip, AtMost-last, AtMost-none, AtMost-if, AtMost-attempt}

-- A call that follows an error.
module _ (Q : Call → Type 0) {A B : Type 0} where
  after_error :
      (o : Res A × List Call) (f : Res A → Io B) (h : History) (e : Error)
      → o.0 ≡ err e
      → ((h' : History) → Any Q (f (err e) h').1)
      → Any Q (after (caught o) f h).1
  after_error (r, v) f h e same q =
      Any-append_right Q v (f r (h ++ v)).1
        (subst (λ x. Any Q (f x (h ++ v)).1) (sym same) (q (h ++ v)))

module _ (glob : Glob) (decoder : Decoder) (w : World) (app_cfg : Config)
    (providers : List Text) where
  clone-None :
      (msg : WorkspaceTriggerMsg) (mr : DetailedMr)
      → Always
          (λ c. is_run_create c ≡ false)
          (clone_git_repo glob decoder w (trigger_of glob decoder w app_cfg providers msg) mr)
  clone-None msg mr = clone-Made (λ k. is_running k ≡ false) glob decoder w _ refl mr

  run_in_clone-AtMost :
      (msg : WorkspaceTriggerMsg) (mr : DetailedMr) (dir : Text)
      → AtMost is_run_create 1 (run_in_clone glob decoder w app_cfg providers msg mr dir)
  unfolding run_in_clone
  run_in_clone-AtMost msg mr dir =
      search (AtMost-last, AtMost-attempt, trigger_run-AtMost, always) depth 9

  run_workspace-AtMost :
      (msg : WorkspaceTriggerMsg)
      → AtMost is_run_create 1 (run_workspace glob decoder w app_cfg providers msg)
  unfolding run_workspace
  run_workspace-AtMost msg = search (AtMost-skip, clone-None, run_in_clone-AtMost, always) depth 9

  handle_msg-AtMost :
      (msg : WorkspaceTriggerMsg)
      → AtMost is_run_create 1 (handle_msg glob decoder w app_cfg providers msg)
  unfolding handle_msg post_workspace_error
  handle_msg-AtMost msg =
      search (AtMost-if, AtMost-none, AtMost-last, AtMost-attempt, run_workspace-AtMost, always)
        depth 9

  handle_msg-ok :
      (msg : WorkspaceTriggerMsg) (h : History)
      → (handle_msg glob decoder w app_cfg providers msg h).0 ≡ ok tt
  unfolding handle_msg post_workspace_error ◌>>=◌ attempt pure on_result perform
  handle_msg-ok msg h = ground arith

  -- A message is acknowledged whatever happens, so that it is not delivered again, and it creates at
  -- most one run.
  pub handle_msg-once :
      (msg : WorkspaceTriggerMsg) (h : History)
      → ((handle_msg glob decoder w app_cfg providers msg h).0 ≡ ok tt)
        × (tally is_run_create (handle_msg glob decoder w app_cfg providers msg h).1 ≤ 1)
  handle_msg-once msg h = (handle_msg-ok msg h, handle_msg-AtMost msg h)

  -- The call that posts the error.
  abbrev pub PostsError : WorkspaceTriggerMsg → Error → Call → Type 0
  PostsError msg e c =
      c
      ≡ create_merge_request_comment msg.opts.merge_request_iid msg.opts.project_name_with_namespace
          (workspace_error glob decoder w app_cfg providers msg.workspace.name e)

  -- The error of a message whose provider has a client is posted to its merge request.
  pub handle_msg-posts :
      (msg : WorkspaceTriggerMsg) (h : History) (e : Error)
      → any (text_eq msg.opts.vcs_provider) providers ≡ true
      → (run_workspace glob decoder w app_cfg providers msg h).0 ≡ err e
      → Any (PostsError msg e) (handle_msg glob decoder w app_cfg providers msg h).1
  unfolding handle_msg post_workspace_error ◌>>=◌ attempt pure on_result perform
  handle_msg-posts msg h e known f = rw known (
      after_error (PostsError msg e) (run_workspace glob decoder w app_cfg providers msg h)
        (on_result
          (λ x. post_workspace_error glob decoder w app_cfg providers msg.opts msg.workspace.name x)
          (λ _. pure tt))
        h e f (λ h'. inl refl))

  -- The clone is removed, also when the run fails.
  pub run_in_clone-removes :
      (msg : WorkspaceTriggerMsg) (mr : DetailedMr) (dir : Text) (h : History)
      → Any (λ c. c ≡ remove_all dir) (run_in_clone glob decoder w app_cfg providers msg mr dir h).1
  unfolding run_in_clone
  run_in_clone-removes msg mr dir = search (Makes-attempt, Makes-first, Makes-perform) depth 9

-- What stands before the first slash is determined.
first_part :
    (p q x y : Text)
    → HasNoSlash p
    → HasNoSlash q
    → p ++ b'/' ∷ x ≡ q ++ b'/' ∷ y
    → (p ≡ q) × (x ≡ y)
first_part [] [] x y hp hq e = (refl, cc)
first_part [] (d ∷ q) x y hp hq e = absurd (hq.0 cc)
first_part (c ∷ p) [] x y hp hq e = absurd (hp.0 cc)
first_part (c ∷ p) (d ∷ q) x y hp hq e = let (f, g) = first_part p q x y hp.1 hq.1 cc in (cc, g)

append_cancel : (p x y : Text) → p ++ x ≡ p ++ y → x ≡ y
append_cancel [] x y e = e
append_cancel (c ∷ p) x y e = append_cancel p x y cc

abbrev name_and_organization : WorkspaceTriggerMsg → Text
name_and_organization m = m.workspace.name ++ b'/' ∷ m.workspace.organization

get_id-delivery :
    (sha : WorkspaceTriggerMsg → Text) (m : WorkspaceTriggerMsg)
    → is_empty m.opts.delivery_id ≡ false
    → get_id sha m ≡ m.opts.delivery_id ++ b'/' ∷ name_and_organization m
unfolding get_id
get_id-delivery sha m e =
    rw e
      (append_assoc m.opts.delivery_id (b'/' ∷ m.workspace.name) (b'/' ∷ m.workspace.organization))

-- Two messages of one delivery have one key only if they are about one workspace of one organization,
-- as far as no workspace name holds a slash.
pub get_id_injective :
    (sha : WorkspaceTriggerMsg → Text) (m n : WorkspaceTriggerMsg)
    → is_empty m.opts.delivery_id ≡ false
    → m.opts.delivery_id ≡ n.opts.delivery_id
    → HasNoSlash m.workspace.name
    → HasNoSlash n.workspace.name
    → get_id sha m ≡ get_id sha n
    → (m.workspace.name ≡ n.workspace.name) × (m.workspace.organization ≡ n.workspace.organization)
get_id_injective sha m n some_id same hm hn e =
    let other_id : is_empty n.opts.delivery_id ≡ false = rw (sym same) some_id in
    let keys =
      sym (get_id-delivery sha m some_id)
      ∙ e
      ∙ get_id-delivery sha n other_id
      ∙ ap (λ d. d ++ b'/' ∷ name_and_organization n) (sym same) in
    let behind = append_cancel m.opts.delivery_id _ _ keys in
    first_part m.workspace.name n.workspace.name m.workspace.organization n.workspace.organization
      hm hn (tail_eq b'/' b'/' (name_and_organization m) (name_and_organization n) behind)
