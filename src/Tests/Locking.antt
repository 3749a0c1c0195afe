-- ===== src/Tests/Locking.antt =====
-- Examples of the lock of a workspace, with Terraform Cloud as the keeper of its tags.
use tfbuddy.Prelude.{◌≡◌, refl, true, false, not, some, List, [], ◌∷◌, ◌++◌, keep, All, arith}
use tfbuddy.Text.{Text, lit, text_eq, contains, has_prefix, itoa}
use tfbuddy.Types.{apply, plan, DetailedMr}
use tfbuddy.Trigger.Runs.{acquire_lock, act_on}
use tfbuddy.Trigger.Tags.{KeepsTags, replay}
use tfbuddy.Trigger.Owner.{OwnedBy}
use tfbuddy.Trigger.Ends.{tags_at}
use tfbuddy.Trigger.Harmless.{HasOneOwner}
use tfbuddy.Trigger.Mutex.{acquired, acquire_lock-Refines, act_on-Excludes}
use tfbuddy.Trigger.Turns.{Turn, Turns, Turns-HasOneOwner}
use tfbuddy.Effects.{World, Answers, ok, workspaces_list_tags}
use tfbuddy.Effects.Kinds.{kind, reading}
use tfbuddy.Effects.Laws.{is_err}
use tfbuddy.Tests.Samples.{
  sample_world, sample_trigger, sample_mr, sample_glob, sample_decoder, dev, remote,
}

abbrev all_done : Answers (Unit {0})
all_done h c = ok tt

-- What the queries on the workspace "ws-1" answer, which had `tags` at first.
abbrev listed : List Text → Answers (List Text)
listed tags h (workspaces_list_tags ws query) =
    ok (keep (λ tag. contains tag query) (replay all_done (lit "ws-1") [] tags h))
listed tags h _ = ok []

abbrev mr_in : Text → DetailedMr
mr_in state = record sample_mr { state = state }

-- All MRs are in one state.
abbrev keeper : Text → List Text → World
keeper state tags = record sample_world {
  units = all_done;
  text_lists = listed tags;
  merge_requests = λ h c. ok (mr_in state);
}

-- MR 6 has the lock.
abbrev held : List Text
held = lit "gl-lock-mr-4" ∷ lit "tfbuddylock-6" ∷ []

held_by_6 : OwnedBy (some 6) held
unfolding lit contains has_prefix itoa
held_by_6 = refl

keeps_held : (state : Text) → KeepsTags (keeper state held) (lit "ws-1") held
keeps_held state h query = refl

-- MR 5 asks for the lock while MR 6 is open.
excluded_example :
    (is_err
        (act_on
          (keeper (lit "opened") held)
          (sample_trigger apply false)
          dev
          (remote false)
          sample_mr
          (lit "/tmp/clone")
          []).0
      ≡ true)
    × All
        (λ c. kind c ≡ reading)
        (act_on
          (keeper (lit "opened") held)
          (sample_trigger apply false)
          dev
          (remote false)
          sample_mr
          (lit "/tmp/clone")
          []).1
    × OwnedBy (some 6) (
        tags_at all_done
          (lit "ws-1")
          held
          (act_on
            (keeper (lit "opened") held)
            (sample_trigger apply false)
            dev
            (remote false)
            sample_mr
            (lit "/tmp/clone")
            []).1)
excluded_example =
    act_on-Excludes (keeper (lit "opened") held) (sample_trigger apply false) dev (remote false)
      sample_mr (lit "/tmp/clone") held 6 [] (mr_in (lit "opened")) (keeps_held (lit "opened")) refl
      held_by_6 refl refl (unfold text_eq lit in refl)

-- MR 5 asks for the lock, and MR 6 is merged.
refined_example :
    (is_err
        (acquire_lock (keeper (lit "merged") held) (sample_trigger apply false) (remote false) []).0
      ≡ not (acquired (λ n. true) 5 (some 6)).1)
    × OwnedBy (acquired (λ n. true) 5 (some 6)).0 (
        tags_at all_done
          (lit "ws-1")
          held
          (acquire_lock
            (keeper (lit "merged") held)
            (sample_trigger apply false)
            (remote false)
            []).1)
refined_example =
    acquire_lock-Refines (keeper (lit "merged") held) (sample_trigger apply false) (remote false)
      held (keeps_held (lit "merged")) (λ n. true) (some 6) [] held_by_6 refl (λ h c. refl)
      (λ h n. (mr_in (lit "merged"), refl, unfold text_eq lit in refl)) (omega arith)

-- An apply of MR 5 after a plan.
turns_example : HasOneOwner (
    tags_at all_done (lit "ws-1") held (
      (act_on
        (keeper (lit "merged") held)
        (sample_trigger plan false)
        dev
        (remote false)
        sample_mr
        (lit "/tmp/clone")
        []).1
      ++ (act_on
          (keeper (lit "merged") held)
          (sample_trigger apply false)
          dev
          (remote false)
          sample_mr
          (lit "/tmp/clone")
          (act_on
            (keeper (lit "merged") held)
            (sample_trigger plan false)
            dev
            (remote false)
            sample_mr
            (lit "/tmp/clone")
            []).1).1))
turns_example =
    Turns-HasOneOwner sample_glob sample_decoder (keeper (lit "merged") held) (lit "ws-1") held
      (keeps_held (lit "merged")) (some 6, held_by_6)
      (Turns.next
        (Turns.next Turns.start (
          Turn.acts (sample_trigger plan false) dev (remote false) sample_mr (lit "/tmp/clone") []))
        (Turn.acts (sample_trigger apply false) dev (remote false) sample_mr (lit "/tmp/clone")
          (act_on (keeper (lit "merged") held) (sample_trigger plan false) dev (remote false)
            sample_mr (lit "/tmp/clone") []).1))
