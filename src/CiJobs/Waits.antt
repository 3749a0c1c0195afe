-- ===== src/CiJobs/Waits.antt =====
-- How a CI job waits for a run.
use tfbuddy.Prelude.{
  ℕ, zero, suc, ◌≡◌, refl, ◌<◌, true, false, some, List, [], ◌∷◌, ◌++◌, arith, is_empty, ◌∙◌,
}
use tfbuddy.Text.{Text, lit, atoi}
use tfbuddy.Effects.{Res, ok}
use tfbuddy.Requests.{◌>>=◌, pure, receive, query, ignored}
use mathlib.Core.List.{append_assoc, append-nil}
use tfbuddy.CiJobs.Monitor.{
  CiEnv, MonitorApi, MonitorCall, get_run, PlannedRun, run_is_running, Wait, print_run, wait_rounds,
  comment, post_run_summary, post_summary_of, post_description, post_comment_body, mr_comment,
  mr_run_details, description_of, or_zero, wait_for_run_completion_or_failure,
}

module _ (env : CiEnv) (api : MonitorApi) (wait : Wait) where
  -- The run is under way at each of `n` reads, and then it is not.
  pub data Stops : ℕ → List MonitorCall → Type 0 where
    stopped :
        {h : List MonitorCall} (run : PlannedRun)
        → api.runs h (get_run wait.run_id) ≡ ok run
        → run_is_running (some run) ≡ false
        → Stops 0 h
    runs_on :
        {n : ℕ} {h : List MonitorCall} (run : PlannedRun)
        → api.runs h (get_run wait.run_id) ≡ ok run
        → run_is_running (some run) ≡ true
        → Stops n (h ++ get_run wait.run_id ∷ [])
        → Stops (suc n) h

  abbrev pub run_reads : ℕ → List MonitorCall
  run_reads zero = []
  run_reads (suc n) = get_run wait.run_id ∷ run_reads n

  -- The summary after `n + 1` reads.
  abbrev summarised : ℕ → List MonitorCall → Res (Unit {0}) × List MonitorCall
  summarised n h =
      let (r, w) =
        post_run_summary env api wait.commit_status wait.ws_name wait.run_id
          (h ++ run_reads (suc n)) in
      (r, run_reads (suc n) ++ w)

  wait_rounds-Stops :
      (rounds n : ℕ) (h : List MonitorCall)
      → Stops n h
      → n < rounds
      → wait_rounds env api rounds wait h ≡ summarised n h
  unfolding wait_rounds print_run ◌>>=◌ pure receive
  wait_rounds-Stops zero n h s lt = absurd (omega arith)
  wait_rounds-Stops (suc rounds) zero h (stopped run e q) lt =
      rw (e, q, append-nil (h ++ get_run wait.run_id ∷ [])) refl
  wait_rounds-Stops (suc rounds) (suc n) h (runs_on run e q s) lt =
      rw
        (
          e,
          q,
          append-nil (h ++ get_run wait.run_id ∷ []),
          wait_rounds-Stops rounds n (h ++ get_run wait.run_id ∷ []) s (omega arith),
          append_assoc h (get_run wait.run_id ∷ []) (run_reads (suc n)),
        )
        refl

  -- The comment on the MR that tells the status of the run with the description `d`.
  abbrev pub summary : PlannedRun → Text → MonitorCall
  summary run d =
      comment (or_zero (atoi env.ci_merge_request_iid)) env.ci_project_id
        (mr_comment (mr_run_details wait.ws_name run.status wait.commit_status.target_url d))

  is_shown :
      (run : PlannedRun) (d : Text)
      → is_empty (mr_run_details wait.ws_name run.status wait.commit_status.target_url d) ≡ false
  unfolding mr_run_details lit
  is_shown run d = refl

  posted :
      (h : List MonitorCall) (run : PlannedRun) (d : Text)
      → api.runs h (get_run wait.run_id) ≡ ok run
      → description_of run ≡ some d
      → post_run_summary env api wait.commit_status wait.ws_name wait.run_id h
        ≡ (ok tt, get_run wait.run_id ∷ summary run d ∷ [])
  unfolding post_run_summary post_summary_of post_description post_comment_body ◌>>=◌ receive query
      ignored
  posted h run d e f = rw (e, f, is_shown run d) refl

  -- Where a run is under way at each of fewer than 360 reads, then at the next one is not, and can be
  -- read once more, as a run that has a description, the wait succeeds, and its requests are these reads
  -- and then one comment on the MR, with the status and the description that the last read gave. Whether
  -- the comment is stored is not asked.
  pub wait_for_run_completion_or_failure-Posts :
      (n : ℕ) (h : List MonitorCall) (run : PlannedRun) (d : Text)
      → Stops n h
      → n < 360
      → api.runs (h ++ run_reads (suc n)) (get_run wait.run_id) ≡ ok run
      → description_of run ≡ some d
      → wait_for_run_completion_or_failure env api wait h
        ≡ (ok tt, run_reads (suc n) ++ get_run wait.run_id ∷ summary run d ∷ [])
  unfolding wait_for_run_completion_or_failure
  wait_for_run_completion_or_failure-Posts n h run d s lt e f =
      wait_rounds-Stops 360 n h s lt ∙ rw (posted (h ++ run_reads (suc n)) run d e f) refl
