-- ===== src/Effects.antt =====
-- The outside world and programs that call it. A call of the version control client, of the
-- Terraform Cloud client, of the streams or of the file system is a value; what it answers is a
-- function of the calls made before it, so that nothing is assumed of the services. A program
-- returns its result, or the error that it returns, with the calls that it made, in order.
pub mod Laws
pub mod Kinds
pub mod Order
pub mod Makes
use tfbuddy.Prelude.{Option, true, Bool, ℕ, Bool, List, [], ◌∷◌, ◌++◌}
use tfbuddy.Text.{Text}
use tfbuddy.Errors.{Error, wrap}
use tfbuddy.Types.{
  DetailedMr, MrDiscussionNotes, ProjectPipeline, CommitStatusOptions, Workspace,
  ConfigurationVersion, RunCreateOptions, Run, TfRunMetadata, TfRunEvent, PollingTask,
  WorkspaceTriggerMsg,
}

pub data Call : Type 0 where
  -- vcs.GitClient
  get_merge_request : ℕ → Text → Call
  get_merge_request_approvals : ℕ → Text → Call
  get_merge_request_modified_files : ℕ → Text → Call
  get_repo_file : Text → Text → Text → Call
  clone_merge_request : Text → DetailedMr → Text → Call
  create_merge_request_comment : ℕ → Text → Text → Call
  create_merge_request_discussion : ℕ → Text → Text → Call
  update_merge_request_discussion_note : ℕ → ℕ → Text → Text → Text → Call
  resolve_merge_request_discussion : Text → ℕ → Text → Call
  add_merge_request_discussion_reply : ℕ → Text → Text → Text → Call
  set_commit_status : Text → Text → CommitStatusOptions → Call
  get_pipelines_for_commit : Text → Text → Call
  get_old_run_urls : ℕ → Text → ℕ → Text → Text → Call
  merge_mr : ℕ → Text → Call
  -- vcs.GitRepo
  fetch_upstream_branch : Text → Call
  get_merge_base : Text → Text → Call
  get_modified_file_names_between_commits : Text → Text → Call
  -- package os
  mkdir_temp : Text → Call
  remove_all : Text → Call
  -- go-tfe
  workspaces_read : Text → Text → Call
  workspaces_lock : Text → Text → Call
  workspaces_unlock : Text → Call
  workspaces_add_tags : Text → List Text → Call
  workspaces_remove_tags : Text → List Text → Call
  workspaces_list_tags : Text → Text → Call
  configuration_versions_create : Text → Bool → Call
  configuration_versions_upload : Text → Text → Call
  configuration_versions_read : Text → Call
  runs_create : RunCreateOptions → Call
  runs_read : Text → Call
  plans_read_json_output : Text → Call
  -- the key-value stores and the streams of NATS
  metadata_create : Text → TfRunMetadata → Call
  metadata_get : Text → Call
  polling_create : Text → PollingTask → Call
  polling_update : Text → PollingTask → ℕ → Call
  polling_delete : Text → Call
  polling_keys : Call
  polling_get : Text → Call
  publish_polling_task : PollingTask → Call
  publish_run_event : Text → TfRunEvent → Call
  publish_workspace_trigger : WorkspaceTriggerMsg → Call
  get_time : Call

pub data Res {ℓ} (A : Type ℓ) : Type ℓ where
  ok : A → Res A
  err : Error → Res A

-- Calls in the order in which they were made.
abbrev pub History : Type 0
History = List Call

-- What each call answers, given the calls before it.
abbrev pub Answers : Type 0 → Type 0
Answers A = History → Call → Res A

pub record World : Type 0 where
  pub units : Answers (Unit {0})
  pub merge_requests : Answers DetailedMr
  pub texts : Answers Text
  pub text_lists : Answers (List Text)
  pub flags : Answers Bool
  pub numbers : Answers ℕ
  pub discussions : Answers MrDiscussionNotes
  pub pipelines : Answers (List ProjectPipeline)
  pub workspaces : Answers Workspace
  pub versions : Answers ConfigurationVersion
  pub runs : Answers Run
  pub metadata : Answers TfRunMetadata
  -- `none` is an entry that is no task.
  pub tasks : Answers (Option PollingTask)
  pub clock : History → ℕ

abbrev pub Io : Type 0 → Type 0
Io A = History → Res A × List Call

-- The program `f` after a result and the calls that led to it.
abbrev pub after : {A B : Type 0} → Res A × List Call → (A → Io B) → Io B
after (ok a, w) f h = let (r, w') = f a (h ++ w) in (r, w ++ w')
after (err e, w) f h = (err e, w)

-- `if err != nil { return err }`
infixl 5 ◌>>=◌ ◌>>◌
unfoldable pub ◌>>=◌ : {A B : Type 0} → Io A → (A → Io B) → Io B
◌>>=◌ m f h = after (m h) f h

abbrev pub ◌>>◌ : {B : Type 0} → Io (Unit {0}) → Io B → Io B
m >> k = m >>= λ _. k

unfoldable pub pure : {A : Type 0} → A → Io A
pure a h = (ok a, [])

unfoldable pub fail : {A : Type 0} → Error → Io A
fail e h = (err e, [])

unfoldable pub perform : {A : Type 0} → Answers A → Call → Io A
perform ans c h = (ans h c, c ∷ [])

abbrev pub caught : {A : Type 0} → Res A × List Call → Res (Res A) × List Call
caught (r, w) = (ok r, w)

-- The result of `m` as a value: its error is handled, and not returned at once.
unfoldable pub attempt : {A : Type 0} → Io A → Io (Res A)
attempt m h = caught (m h)

abbrev pub rewrap : {A : Type 0} → (Error → Error) → Res A × List Call → Res A × List Call
rewrap g (ok a, w) = (ok a, w)
rewrap g (err e, w) = (err (g e), w)

-- What is done with an error that is caught, and without one.
unfoldable pub on_result : {A B : Type 0} → (Error → Io B) → (A → Io B) → Res A → Io B
on_result f g (err e) = f e
on_result f g (ok a) = g a

-- `return fmt.Errorf("t%w", err)` where `m` fails.
unfoldable pub context : {A : Type 0} → Text → Io A → Io A
context t m h = rewrap (wrap t) (m h)

-- An error that is only logged, or dropped.
abbrev pub ignore : {A : Type 0} → Io A → Io (Unit {0})
ignore m = attempt m >>= λ _. pure tt

abbrev pub of_res : {A : Type 0} → Res A → Io A
of_res (ok a) = pure a
of_res (err e) = fail e

-- `time.Now()`, in seconds.
unfoldable pub now : World → Io ℕ
now w h = (ok (w.clock h), get_time ∷ [])

-- A loop over a list for its calls.
unfoldable pub for_each : {A : Type 0} → (A → Io (Unit {0})) → List A → Io (Unit {0})
for_each body [] = pure tt
for_each body (x ∷ xs) = body x >> for_each body xs

-- What opens all steps of a program at once.
unfoldable pub all_steps : Bool
unfolding ◌>>=◌ pure fail perform attempt on_result context now
all_steps = true
