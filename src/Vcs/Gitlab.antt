-- ===== src/Vcs/Gitlab.antt =====
-- pkg/vcs/gitlab/client.go: the client of GitLab, over the calls of gogitlab.
pub mod Paging
pub mod Pruning
use tfbuddy.Prelude.{
  ℕ, zero, suc, Bool, true, false, none, some, List, [], ◌∷◌, ◌++◌, if◌then◌else◌, is_empty, ◌==◌,
}
use tfbuddy.Text.{Text, lit}
use tfbuddy.Errors.{Error, plain, create_permanent_error}
use tfbuddy.Types.{DetailedMr, MrDiscussionNotes, ProjectPipeline, CommitStatusOptions}
use tfbuddy.Marker.{format_status}
use tfbuddy.Vcs.OldRuns.{Note, scan, old_runs_text}
use tfbuddy.Requests.{
  Reply, Asks, Req, ◌>>=◌, ◌>>◌, pure, fail, send, receive, give, Backoff, ignored, map_error, each,
}

pub data GitlabCall : Type 0 where
  list_discussions : Text → ℕ → GitlabCall
  current_user : GitlabCall
  delete_note : Text → ℕ → ℕ → GitlabCall
  create_note : Text → ℕ → Text → GitlabCall
  create_discussion : Text → ℕ → Text → GitlabCall
  update_discussion_note : Text → ℕ → Text → ℕ → Text → GitlabCall
  add_discussion_note : Text → ℕ → Text → Text → GitlabCall
  resolve_discussion : Text → ℕ → Text → Bool → GitlabCall
  set_status : Text → Text → CommitStatusOptions → GitlabCall
  get_statuses : Text → Text → GitlabCall
  accept_merge_request : Text → ℕ → GitlabCall
  get_raw_file : Text → Text → Text → GitlabCall
  list_diffs : Text → ℕ → ℕ → GitlabCall
  get_mr : Text → ℕ → GitlabCall
  get_approvals : Text → ℕ → GitlabCall
  list_pipelines : Text → Text → GitlabCall

-- What the code reads of a `gogitlab.MergeRequestDiff`.
pub record FileDiff : Type 0 where
  pub new_path : Text
  pub old_path : Text
  pub renamed_file : Bool

-- A page of the diffs, and `resp.NextPage`.
pub record DiffPage : Type 0 where
  pub diffs : List FileDiff
  pub next_page : ℕ

-- The replies of GitLab to each kind of call.
pub record GitlabApi : Type 0 where
  pub done : Asks GitlabCall (Unit {0})
  pub discussions : Asks GitlabCall (List (List Note))
  pub user : Asks GitlabCall Text
  pub discussion : Asks GitlabCall MrDiscussionNotes
  pub note : Asks GitlabCall ℕ
  pub merge_request : Asks GitlabCall DetailedMr
  pub approved : Asks GitlabCall Bool
  pub page : Asks GitlabCall DiffPage
  pub file : Asks GitlabCall Text
  pub pipelines : Asks GitlabCall (List ProjectPipeline)
  pub statuses : Asks GitlabCall (List Text)

abbrev pub comment_is_empty : Error
comment_is_empty = plain (lit "comment is empty")

-- The files of a page: a file that was renamed counts under both of its names.
unfoldable pub changed_paths : List FileDiff → List Text
changed_paths [] = []
changed_paths (f ∷ diffs) =
    f.new_path ∷ (if f.renamed_file then f.old_path ∷ [] else []) ++ changed_paths diffs

-- What a round of the loop over the pages does with its reply; `rest` is the loop from the next page.
unfoldable pub turn_page :
    (ℕ → List Text → Req GitlabCall (List Text))
    → List Text
    → Reply DiffPage
    → Req GitlabCall (List Text)
turn_page rest files reply = elim reply.error [
  | some e ↦ give [] reply.status e
  | none ↦ elim (reply.value.next_page == 0) [
    | true ↦ pure (files ++ changed_paths reply.value.diffs)
    | false ↦ rest reply.value.next_page (files ++ changed_paths reply.value.diffs)
  ]
]

-- `backoff` is how package backoff retries an operation with the policy of the client.
module _ (api : GitlabApi) (backoff : Backoff GitlabCall) where
  abbrev request : {A : Type 0} → Asks GitlabCall A → GitlabCall → Req GitlabCall A
  request ask c = backoff _ (send ask c)

  unfoldable pub resolve_merge_request_discussion : Text → ℕ → Text → Req GitlabCall (Unit {0})
  resolve_merge_request_discussion project mr_iid discussion_id =
      request api.done (resolve_discussion project mr_iid discussion_id true)

  unfoldable pub resolve_merge_request_discussion_reply :
      ℕ → Text → Text → Bool → Req GitlabCall (Unit {0})
  resolve_merge_request_discussion_reply mr_iid project discussion_id resolved =
      request api.done (resolve_discussion project mr_iid discussion_id resolved)

  unfoldable pub set_commit_status : Text → Text → CommitStatusOptions → Req GitlabCall (Unit {0})
  set_commit_status project commit_sha status =
      request api.done (set_status project commit_sha status)

  -- The program ends where the statuses cannot be read: an error.
  unfoldable pub get_commit_statuses : Text → Text → Req GitlabCall (List Text)
  get_commit_statuses project commit_sha = request api.statuses (get_statuses project commit_sha)

  unfoldable pub merge_mr : ℕ → Text → Req GitlabCall (Unit {0})
  merge_mr mr_iid project = request api.done (accept_merge_request project mr_iid)

  -- A note that cannot be deleted is passed over.
  unfoldable pub delete_notes : ℕ → Text → List ℕ → Req GitlabCall (Unit {0})
  delete_notes mr_iid project note_ids =
      each (λ note. ignored (request api.done (delete_note project mr_iid note))) note_ids

  -- What follows when the discussions and the user are read.
  unfoldable pub prune :
      Bool → ℕ → Text → ℕ → Text → Text → List (List Note) → Text → Req GitlabCall Text
  prune delete_old_comments mr_iid project root_note_id workspace action discussions user =
      let (found, to_delete) =
        scan format_status user workspace action root_note_id discussions
          (record { old_run_urls = []; old_run_block = [] }) in
      (if delete_old_comments then each (delete_notes mr_iid project) to_delete else pure tt)
      >> pure (old_runs_text found)

  unfoldable pub get_old_run_urls : Bool → ℕ → Text → ℕ → Text → Text → Req GitlabCall Text
  get_old_run_urls delete_old_comments mr_iid project root_note_id workspace action =
      map_error create_permanent_error (request api.discussions (list_discussions project mr_iid))
      >>= λ discussions.
          map_error create_permanent_error (request api.user current_user) >>= λ user.
          prune delete_old_comments mr_iid project root_note_id workspace action discussions user

  unfoldable pub create_merge_request_comment : ℕ → Text → Text → Req GitlabCall (Unit {0})
  create_merge_request_comment mr_iid project comment =
      if is_empty comment
      then fail (create_permanent_error comment_is_empty)
      else request api.done (create_note project mr_iid comment)

  unfoldable pub create_merge_request_discussion :
      ℕ → Text → Text → Req GitlabCall MrDiscussionNotes
  create_merge_request_discussion mr_iid project comment =
      if is_empty comment
      then fail comment_is_empty
      else request api.discussion (create_discussion project mr_iid comment)

  unfoldable pub update_merge_request_discussion_note :
      ℕ → ℕ → Text → Text → Text → Req GitlabCall ℕ
  update_merge_request_discussion_note mr_iid note_id project discussion_id comment =
      if is_empty comment
      then fail (create_permanent_error comment_is_empty)
      else request api.note (update_discussion_note project mr_iid discussion_id note_id comment)

  unfoldable pub add_merge_request_discussion_reply : ℕ → Text → Text → Text → Req GitlabCall ℕ
  add_merge_request_discussion_reply mr_iid project discussion_id comment =
      if is_empty comment
      then fail (create_permanent_error comment_is_empty)
      else request api.note (add_discussion_note project mr_iid discussion_id comment)

  unfoldable pub get_repo_file : Text → Text → Text → Req GitlabCall Text
  get_repo_file project file ref =
      request api.file (get_raw_file project file (if is_empty ref then lit "HEAD" else ref))

  -- The loop over the pages, from the page `next`; the fuel is the number of pages that are read.
  unfoldable pub list_pages : ℕ → ℕ → Text → ℕ → List Text → Req GitlabCall (List Text)
  unfolding turn_page
  list_pages zero mr_iid project next files = fail (plain (lit "out of fuel"))
  list_pages (suc fuel) mr_iid project next files =
      receive api.page (list_diffs project mr_iid next)
      >>= turn_page (list_pages fuel mr_iid project) files

  unfoldable pub get_merge_request_modified_files : ℕ → ℕ → Text → Req GitlabCall (List Text)
  get_merge_request_modified_files fuel mr_iid project =
      backoff _ (list_pages fuel mr_iid project 1 [])

  unfoldable pub get_merge_request : ℕ → Text → Req GitlabCall DetailedMr
  get_merge_request mr_iid project = request api.merge_request (get_mr project mr_iid)

  unfoldable pub get_merge_request_approvals : ℕ → Text → Req GitlabCall Bool
  get_merge_request_approvals mr_iid project = request api.approved (get_approvals project mr_iid)

  unfoldable pub get_pipelines_for_commit : Text → Text → Req GitlabCall (List ProjectPipeline)
  get_pipelines_for_commit project commit_sha = backoff _ (
      receive api.pipelines (list_pipelines project commit_sha) >>= λ reply. elim reply.error [
        | some e ↦ give [] reply.status e
        | none ↦ pure reply.value
      ])
