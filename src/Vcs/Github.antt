-- ===== src/Vcs/Github.antt =====
-- pkg/vcs/github/client.go: the client of GitHub, over the calls of gogithub. The clone of a pull
-- request is go-git's work, and is not modelled.
pub mod Pruning
use tfbuddy.Prelude.{
  ℕ, Bool, not, ◌&&◌, Option, none, some, List, [], ◌∷◌, if◌then◌else◌, is_empty, ltb, ◌==◌,
}
use tfbuddy.Text.{Text, lit, text_eq, split}
use tfbuddy.Errors.{Error, sentinel, wrap, permanent, create_permanent_error}
use tfbuddy.Types.{DetailedMr}
use tfbuddy.Effects.{Res, ok, err}
use tfbuddy.Vcs.OldRuns.{Note, Collected, collect_note, is_marked, old_runs_text}
use tfbuddy.Requests.{
  Asks, Req, ◌>>=◌, ◌>>◌, pure, fail, send, receive, give, Backoff, map_error, each,
}

-- The owner and the name of the repository come first.
pub data GithubCall : Type 0 where
  merge_pull_request : Text → Text → ℕ → GithubCall
  list_comments : Text → Text → ℕ → GithubCall
  get_user : GithubCall
  delete_comment : Text → Text → ℕ → GithubCall
  create_comment : Text → Text → ℕ → Text → GithubCall
  create_review_comment : Text → Text → ℕ → Text → GithubCall
  get_contents : Text → Text → Text → Text → GithubCall
  list_files : Text → Text → ℕ → GithubCall
  get_issue_call : Text → Text → ℕ → GithubCall
  get_pull : Text → Text → ℕ → GithubCall

pub record PullRequest : Type 0 where
  pub details : DetailedMr
  pub changed_files : ℕ

-- The replies of GitHub to each kind of call. The content of a file may fail to decode.
pub record GithubApi : Type 0 where
  pub done : Asks GithubCall (Unit {0})
  pub comments : Asks GithubCall (List Note)
  pub user : Asks GithubCall Text
  pub comment_id : Asks GithubCall ℕ
  pub pull : Asks GithubCall PullRequest
  pub content : Asks GithubCall (Res Text)
  pub files : Asks GithubCall (List Text)

pub record Owner : Type 0 where
  pub name : Option Text
  pub login : Option Text

unfoldable pub resolve_owner_name : Owner → Res Text
resolve_owner_name owner = elim owner.name [
  | some name ↦ ok name
  | none ↦ elim owner.login [
    | some login ↦ ok login
    | none ↦ err (wrap (lit "owner name/login is nil. ") (sentinel permanent))
  ]
]

abbrev pub invalid_repo : Error
invalid_repo = wrap (lit "github client: invalid repo format. ") (sentinel permanent)

-- `len(parts) != 2`
abbrev pub two_parts : List Text → Res (Text × Text)
two_parts (owner ∷ repo ∷ []) = ok (owner, repo)
two_parts _ = err invalid_repo

unfoldable pub split_full_name : Text → Res (Text × Text)
split_full_name full_name = two_parts (split b'/' full_name)

-- `parts, err := ...; if err != nil { return nil, err }`
unfoldable pub given : {A : Type 0} → Res A → Req GithubCall A
given (ok a) = pure a
given (err e) = fail e

-- The comments of the user about the workspace and the action: what is collected, and the comments to
-- delete.
module _ (user workspace action : Text) (root_comment_id : ℕ) where
  abbrev pub is_our_comment : Note → Bool
  is_our_comment note = text_eq note.author user && is_marked workspace action note

  unfoldable pub scan_comments : List Note → Collected → Collected × List ℕ
  scan_comments [] c = (c, [])
  scan_comments (note ∷ notes) c =
      let (found, matching) =
        scan_comments notes (if is_our_comment note then collect_note (λ s. s) note c else c) in
      (
        found,
        if is_our_comment note && not (note.note_id == root_comment_id)
            then note.note_id ∷ matching
            else matching,
      )

-- `backoff` is how package backoff retries an operation with the policy of the client.
module _ (api : GithubApi) (backoff : Backoff GithubCall) where
  abbrev ask_for : {A : Type 0} → Asks GithubCall A → GithubCall → Req GithubCall A
  ask_for ask c = backoff _ (send ask c)

  unfoldable pub get_pull_request : Text → ℕ → Req GithubCall PullRequest
  get_pull_request full_name pr_id = given (split_full_name full_name) >>= λ (owner, repo).
      ask_for api.pull (get_pull owner repo pr_id)

  unfoldable pub get_merge_request : ℕ → Text → Req GithubCall DetailedMr
  get_merge_request pr_id full_name = get_pull_request full_name pr_id >>= λ pr. pure pr.details

  unfoldable pub get_merge_request_approvals : ℕ → Text → Req GithubCall Bool
  get_merge_request_approvals pr_id full_name =
      get_pull_request full_name pr_id >>= λ pr. pure pr.details.approved

  unfoldable pub merge_mr : ℕ → Text → Req GithubCall (Unit {0})
  merge_mr pr_id full_name =
      map_error create_permanent_error (given (split_full_name full_name)) >>= λ (owner, repo).
      ask_for api.done (merge_pull_request owner repo pr_id)

  -- A comment that cannot be deleted ends the program with its error.
  unfoldable pub prune_comments :
      Bool → Text → Text → ℕ → Text → Text → List Note → Text → Req GithubCall Text
  prune_comments delete_old_comments owner repo root_comment_id workspace action comments user =
      let (found, matching) =
        scan_comments user workspace action root_comment_id comments
          (record { old_run_urls = []; old_run_block = [] }) in
      (if delete_old_comments
        then each (λ id. ask_for api.done (delete_comment owner repo id)) matching
        else pure tt)
      >> pure (old_runs_text found)

  unfoldable pub get_old_run_urls : Bool → ℕ → Text → ℕ → Text → Text → Req GithubCall Text
  get_old_run_urls delete_old_comments pr_id full_name root_comment_id workspace action =
      map_error create_permanent_error (given (split_full_name full_name)) >>= λ (owner, repo).
      ask_for api.comments (list_comments owner repo pr_id) >>= λ comments.
      ask_for api.user get_user >>= λ user.
      prune_comments delete_old_comments owner repo root_comment_id workspace action comments user

  unfoldable pub post_issue_comment : ℕ → Text → Text → Req GithubCall ℕ
  post_issue_comment pr_id full_name body =
      map_error create_permanent_error (given (split_full_name full_name)) >>= λ (owner, repo).
      ask_for api.comment_id (create_comment owner repo pr_id body)

  unfoldable pub create_merge_request_comment : ℕ → Text → Text → Req GithubCall (Unit {0})
  create_merge_request_comment pr_id full_name comment =
      post_issue_comment pr_id full_name comment >>= λ _. pure tt

  -- GitHub has no threads: a discussion and a reply are comments.
  unfoldable pub create_merge_request_discussion : ℕ → Text → Text → Req GithubCall ℕ
  create_merge_request_discussion pr_id full_name comment =
      post_issue_comment pr_id full_name comment

  unfoldable pub add_merge_request_discussion_reply : ℕ → Text → Text → Text → Req GithubCall ℕ
  add_merge_request_discussion_reply pr_id full_name discussion_id comment =
      post_issue_comment pr_id full_name comment

  unfoldable pub post_pull_request_comment : Text → Text → ℕ → Text → Req GithubCall (Unit {0})
  post_pull_request_comment owner repo pr_id body =
      ask_for api.done (create_review_comment owner repo pr_id body)

  unfoldable pub get_issue : Owner → Text → ℕ → Req GithubCall (Unit {0})
  get_issue owner repo issue_id =
      map_error create_permanent_error (given (resolve_owner_name owner)) >>= λ name.
      ask_for api.done (get_issue_call name repo issue_id)

  -- The reply to a request for a file: its error, or its content.
  unfoldable pub get_repo_file : Text → Text → Text → Req GithubCall Text
  get_repo_file full_name file ref = given (split_full_name full_name) >>= λ (owner, repo).
      backoff _ (
        receive api.content
          (get_contents owner repo file (if is_empty ref then lit "HEAD" else ref))
        >>= λ reply. elim reply.error [
          | some e ↦ give [] reply.status e
          | none ↦ map_error create_permanent_error (given reply.value)
        ])

  -- One page of the files is read.
  unfoldable pub get_merge_request_modified_files : ℕ → Text → Req GithubCall (List Text)
  get_merge_request_modified_files pr_id full_name = get_pull_request full_name pr_id >>= λ pr.
      if ltb 0 pr.changed_files
      then backoff _ (
          map_error create_permanent_error (given (split_full_name full_name)) >>= λ (owner, repo).
          receive api.files (list_files owner repo pr_id) >>= λ reply. elim reply.error [
            | some e ↦ give [] reply.status e
            | none ↦ pure reply.value
          ])
      else pure []

  -- What is not implemented for GitHub does nothing.
  unfoldable pub update_merge_request_discussion_note :
      ℕ → ℕ → Text → Text → Text → Req GithubCall (Option ℕ)
  update_merge_request_discussion_note pr_id note_id project discussion_id comment = pure none

  unfoldable pub resolve_merge_request_discussion : Text → ℕ → Text → Req GithubCall (Unit {0})
  resolve_merge_request_discussion project pr_id discussion_id = pure tt
