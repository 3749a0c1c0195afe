-- ===== src/Vcs/Github/Pruning.antt =====
-- What `GetOldRunUrls` of the client of GitHub deletes.
use tfbuddy.Prelude.{
  ℕ, ◌≡◌, refl, subst, sym, ◌⊎◌, inl, inr, Bool, true, false, List, [], ◌∷◌, ◌++◌, All, Any,
  Bool-cases, ◌==◌,
}
use tfbuddy.Text.{Text}
use tfbuddy.Effects.{ok}
use tfbuddy.Vcs.OldRuns.{Note, Collected}
use tfbuddy.Vcs.OldRuns.Laws.{All-weaken}
use tfbuddy.Requests.Tries.{IsBackoff, send-All, send-replied}
use tfbuddy.Requests.Calls.{bind-All, each-All, if-All}
use tfbuddy.Requests.{Asks, ◌>>=◌, result_of, map_error, pure, send, Backoff}
use tfbuddy.Vcs.Github.{
  GithubCall, list_comments, get_user, delete_comment, GithubApi, split_full_name, given,
  is_our_comment, scan_comments, prune_comments, get_old_run_urls,
}

module _ (user workspace action : Text) (root_comment_id : ℕ) where
  -- The comment is the user's, is marked with the workspace and the action, and is not the root.
  abbrev pub IsOld : ℕ → Note → Type 0
  IsOld id note =
      (note.note_id ≡ id)
      × (is_our_comment user workspace action root_comment_id note ≡ true)
      × ((note.note_id == root_comment_id) ≡ false)

  scan_comments-IsOld :
      (notes : List Note) (c : Collected)
      → All
          (λ id. Any (IsOld id) notes)
          (scan_comments user workspace action root_comment_id notes c).1
  unfolding scan_comments
  scan_comments-IsOld [] c = tt
  scan_comments-IsOld (note ∷ notes) c =
      elim (Bool-cases (is_our_comment user workspace action root_comment_id note)) [
        | inl e ↦ elim (Bool-cases (note.note_id == root_comment_id)) [
          | inl f ↦ rw (e, f) (All-weaken _ _ _ (λ id. inr) (scan_comments-IsOld notes _))
          | inr f ↦
              rw (e, f)
                (inl (refl, refl, refl), All-weaken _ _ _ (λ id. inr) (scan_comments-IsOld notes _))
        ]
        | inr e ↦ rw e (All-weaken _ _ _ (λ id. inr) (scan_comments-IsOld notes _))
      ]

module _ (api : GithubApi) (backoff : Backoff GithubCall) (law : IsBackoff backoff)
    (delete_old_comments : Bool) (pr_id : ℕ) (owner repo : Text) (root_comment_id : ℕ)
    (workspace action : Text) where
  -- The deletion of an old comment, where deletions are wanted.
  abbrev pub DeletesOld : List Note → Text → GithubCall → Type 0
  DeletesOld comments user c =
      (delete_old_comments ≡ true)
      × ((id : ℕ) × (c ≡ delete_comment owner repo id)
          × Any (IsOld user workspace action root_comment_id id) comments)

  prune_comments-DeletesOld :
      (comments : List Note) (user : Text) (h : List GithubCall)
      → All
          (DeletesOld comments user)
          (prune_comments api backoff delete_old_comments owner repo root_comment_id workspace
            action comments user h).1
  unfolding prune_comments pure
  prune_comments-DeletesOld comments user h =
      bind-All (DeletesOld comments user) _ _ h
        (if-All (DeletesOld comments user) delete_old_comments _ _ h
          (λ on. each-All (DeletesOld comments user) _ _ h (
            All-weaken _ _ _
              (λ id p k.
                All-weaken _ _ _ (λ c e. (on, (id, e, p)))
                  (send-All api.done (delete_comment owner repo id) k _ _
                    (law _ (send api.done (delete_comment owner repo id)) k)))
              (scan_comments-IsOld user workspace action root_comment_id comments _)))
          tt)
        (λ u e k. tt)

  -- The comments and the user are those of a reply.
  abbrev pub Deletes : GithubCall → Type 0
  Deletes c =
      (comments : List Note) × (user : Text) × ((k : List GithubCall) × (result_of
            (api.comments k (list_comments owner repo pr_id))
          ≡ ok comments))
      × ((k : List GithubCall) × (result_of (api.user k get_user) ≡ ok user))
      × DeletesOld comments user c

  abbrev pub Allowed : GithubCall → Type 0
  Allowed c = (c ≡ list_comments owner repo pr_id) ⊎ ((c ≡ get_user) ⊎ Deletes c)

  asked-All :
      {A : Type 0} (ask : Asks GithubCall A) (c : GithubCall) (h : List GithubCall)
      → Allowed c
      → All Allowed (backoff _ (send ask c) h).1
  asked-All ask c h p =
      All-weaken _ Allowed _ (λ d e. subst Allowed (sym e) p)
        (send-All ask c h _ _ (law _ (send ask c) h))

  named-Allowed :
      (h : List GithubCall)
      → All Allowed
          ((backoff _ (send api.comments (list_comments owner repo pr_id)) >>= λ comments.
              backoff _ (send api.user get_user) >>= λ user.
              prune_comments api backoff delete_old_comments owner repo root_comment_id workspace
                action comments user)
            h).1
  named-Allowed h = bind-All Allowed _ _ h (asked-All api.comments _ h (inl refl)) (λ comments e k.
      bind-All Allowed _ _ k (asked-All api.user _ k (inr (inl refl))) (λ user f j.
        All-weaken _ Allowed _
          (λ c p. inr (
            inr (
              comments,
              user,
              send-replied api.comments _ h _ _ comments (law _ _ h) e,
              send-replied api.user _ k _ _ user (law _ _ k) f,
              p,
            )))
          (prune_comments-DeletesOld comments user j)))

  -- Where package backoff runs an operation again only after a failure, and gives its last result,
  -- getting the old run URLs of a pull request of a repository with an owner asks for its comments and
  -- for the user, and deletes, only where deletions are wanted, comments of the user that are marked
  -- with the workspace and the action and are not the root comment. The comments and the user are
  -- those of a reply.
  pub pull_request_old_urls-Allowed :
      (full_name : Text) (h : List GithubCall)
      → split_full_name full_name ≡ ok (owner, repo)
      → All Allowed
          (get_old_run_urls api backoff delete_old_comments pr_id full_name root_comment_id
            workspace action h).1
  unfolding get_old_run_urls map_error given pure ◌>>=◌
  pull_request_old_urls-Allowed full_name h s = rw s (named-Allowed (h ++ []))
