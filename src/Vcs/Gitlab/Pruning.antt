-- ===== src/Vcs/Gitlab/Pruning.antt =====
-- What `GetOldRunUrls` of the client of GitLab deletes.
use tfbuddy.Prelude.{ℕ, ◌≡◌, refl, subst, sym, ◌⊎◌, inl, inr, Bool, true, List, All}
use tfbuddy.Text.{Text}
use tfbuddy.Errors.{create_permanent_error}
use tfbuddy.Marker.{format_status}
use tfbuddy.Effects.{ok}
use tfbuddy.Vcs.OldRuns.{Note}
use tfbuddy.Vcs.OldRuns.Laws.{Deletable, scan-Deletable, All-weaken}
use tfbuddy.Requests.Tries.{IsBackoff, send-All, send-replied}
use tfbuddy.Requests.Calls.{relabel-calls, relabel-ok, bind-All, each-All, if-All}
use tfbuddy.Requests.{Reply, result_of, send, Backoff, ignored, map_error, pure}
use tfbuddy.Vcs.Gitlab.{
  GitlabCall, list_discussions, current_user, delete_note, GitlabApi, delete_notes, prune,
  get_old_run_urls,
}

module _ (api : GitlabApi) (backoff : Backoff GitlabCall) (law : IsBackoff backoff)
    (delete_old_comments : Bool) (mr_iid : ℕ) (project : Text) (root_note_id : ℕ)
    (workspace action : Text) where
  -- The deletion of an old note, where deletions are wanted.
  abbrev pub DeletesOld : List (List Note) → Text → GitlabCall → Type 0
  DeletesOld discussions user c =
      (delete_old_comments ≡ true)
      × ((id : ℕ) × (c ≡ delete_note project mr_iid id)
          × Deletable format_status user workspace action root_note_id discussions id)

  delete_notes-DeletesOld :
      (discussions : List (List Note)) (user : Text) (ids : List ℕ) (h : List GitlabCall)
      → delete_old_comments ≡ true
      → All (Deletable format_status user workspace action root_note_id discussions) ids
      → All (DeletesOld discussions user) (delete_notes api backoff mr_iid project ids h).1
  unfolding delete_notes ignored
  delete_notes-DeletesOld discussions user ids h on q =
      each-All (DeletesOld discussions user) _ ids h (
        All-weaken _ _ ids
          (λ id p k.
            All-weaken _ _ _ (λ c e. (on, (id, e, p)))
              (send-All api.done (delete_note project mr_iid id) k _ _
                (law _ (send api.done (delete_note project mr_iid id)) k)))
          q)

  prune-DeletesOld :
      (discussions : List (List Note)) (user : Text) (h : List GitlabCall)
      → All
          (DeletesOld discussions user)
          (prune api backoff delete_old_comments mr_iid project root_note_id workspace action
            discussions user h).1
  unfolding prune pure
  prune-DeletesOld discussions user h =
      bind-All (DeletesOld discussions user) _ _ h
        (if-All (DeletesOld discussions user) delete_old_comments _ _ h
          (λ on. each-All (DeletesOld discussions user) _ _ h (
            All-weaken _ _ _ (λ ids q k. delete_notes-DeletesOld discussions user ids k on q)
              (scan-Deletable format_status user workspace action root_note_id discussions _)))
          tt)
        (λ u e k. tt)

  -- The discussions and the user are those of a reply.
  abbrev pub Deletes : GitlabCall → Type 0
  Deletes c =
      (discussions : List (List Note)) × (user : Text) × ((k : List GitlabCall) × (result_of
            (api.discussions k (list_discussions project mr_iid))
          ≡ ok discussions))
      × ((k : List GitlabCall) × (result_of (api.user k current_user) ≡ ok user))
      × DeletesOld discussions user c

  abbrev pub Allowed : GitlabCall → Type 0
  Allowed c = (c ≡ list_discussions project mr_iid) ⊎ ((c ≡ current_user) ⊎ Deletes c)

  asked-All :
      {A : Type 0} (P : GitlabCall → Type 0) (ask : List GitlabCall → GitlabCall → Reply A)
      (c : GitlabCall) (h : List GitlabCall)
      → P c
      → All P (map_error create_permanent_error (backoff _ (send ask c)) h).1
  unfolding map_error
  asked-All P ask c h p =
      rw (relabel-calls create_permanent_error (backoff _ (send ask c) h))
        (All-weaken _ P _ (λ d e. subst P (sym e) p) (send-All ask c h _ _ (law _ (send ask c) h)))

  asked-replied :
      {A : Type 0} (ask : List GitlabCall → GitlabCall → Reply A) (c : GitlabCall)
      (h : List GitlabCall) (a : A)
      → (map_error create_permanent_error (backoff _ (send ask c)) h).0 ≡ ok a
      → (k : List GitlabCall) × (result_of (ask k c) ≡ ok a)
  unfolding map_error
  asked-replied ask c h a e =
      send-replied ask c h _ _ a (law _ _ h) (relabel-ok create_permanent_error _ a e)

  -- Where package backoff runs an operation again only after a failure, and gives its last result,
  -- getting the old run URLs of a GitLab MR asks for its discussions and for the user, and deletes,
  -- only where deletions are wanted, notes of discussions that the user began, whose first note is
  -- marked with the workspace and the action and is not the root note. The discussions and the user
  -- are those of a reply.
  pub get_old_run_urls-Allowed :
      (h : List GitlabCall)
      → All Allowed
          (get_old_run_urls api backoff delete_old_comments mr_iid project root_note_id workspace
            action h).1
  unfolding get_old_run_urls
  get_old_run_urls-Allowed h =
      bind-All Allowed _ _ h (asked-All Allowed api.discussions _ h (inl refl)) (λ ds e k.
        bind-All Allowed _ _ k (asked-All Allowed api.user _ k (inr (inl refl))) (λ user f j.
          All-weaken _ Allowed _
            (λ c p. inr (
              inr (
                ds,
                user,
                asked-replied api.discussions _ h ds e,
                asked-replied api.user _ k user f,
                p,
              )))
            (prune-DeletesOld ds user j)))
