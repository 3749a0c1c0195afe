-- ===== src/Tests/Providers.antt =====
-- Examples of the clients of GitLab and GitHub, and of the presentation of a plan.
use tfbuddy.Prelude.{
  ℕ, zero, suc, List, ◌++◌, ◌≡◌, refl, true, false, none, some, [], ◌∷◌, map, keep, All, ◌==◌,
  if◌then◌else◌, arith,
}
use tfbuddy.Text.{lit, split}
use tfbuddy.Effects.{Res, ok, err}
use tfbuddy.Requests.{Asks, Req, Backoff}
use tfbuddy.Requests.Tries.{Tries, IsBackoff}
use tfbuddy.Vcs.OldRuns.{Note}
use tfbuddy.Vcs.Gitlab.{
  GitlabCall, list_diffs, GitlabApi, DiffPage, FileDiff, get_old_run_urls,
  get_merge_request_modified_files,
}
use tfbuddy.Vcs.Gitlab.Pruning.{Allowed, get_old_run_urls-Allowed}
use tfbuddy.Vcs.Gitlab.Paging.{served, all_names, get_merge_request_modified_files-Serves}
use tfbuddy.Vcs.Github
use tfbuddy.Vcs.Github.{GithubApi, split_full_name}
use tfbuddy.Vcs.Github.Pruning
use tfbuddy.Plan.{
  ResourceChange, create, update, null, object, ActionTests, process_changes, present_change,
  present_changes, no_changes, PlanTemplateData,
}
use tfbuddy.Plan.Laws.{
  old_row, is_shown, process_changes-update, creates, deletes, is_imported, addresses, IsCounted,
  present_changes-lists,
}
use tfbuddy.Tests.Samples.{sample_mr}

-- A reply without an error.
abbrev fine : {C A : Type 0} → A → Asks C A
fine a h c = record { value = a; status = 200; error = none }

-- An operation that is retried three times at most.
abbrev once_more : {C A : Type 0} → Res A × List C → Req C A → Req C A
once_more (ok a, v) m h = (ok a, v)
once_more (err e, v) m h = let (r, v') = m (h ++ v) in (r, v ++ v')

abbrev up_to : {C A : Type 0} → ℕ → Req C A → Req C A
up_to zero m h = m h
up_to (suc n) m h = once_more (m h) (up_to n m) h

abbrev thrice : {C : Type 0} → Backoff C
thrice A m = up_to 3 m

once_more-Tries :
    {C A : Type 0} (m again : Req C A) (h : List C) (o : Res A × List C)
    → m h ≡ o
    → ((k : List C) → Tries m k (again k).0 (again k).1)
    → Tries m h (once_more o again h).0 (once_more o again h).1
once_more-Tries m again h (ok a, v) e t = Tries.last e
once_more-Tries m again h (err x, v) e t = Tries.again x e (t (h ++ v))

up_to-Tries :
    {C A : Type 0} (n : ℕ) (m : Req C A) (h : List C) → Tries m h (up_to n m h).0 (up_to n m h).1
up_to-Tries zero m h = Tries.last refl
up_to-Tries (suc n) m h = once_more-Tries m (up_to n m) h (m h) refl (up_to-Tries n m)

thrice-IsBackoff : {C : Type 0} → IsBackoff (thrice {C = C})
thrice-IsBackoff A m h = up_to-Tries 3 m h

abbrev old_note : Note
old_note = record {
  note_id = 11;
  author = lit "bot";
  body = lit "<!-- tfbuddy:ws=dev:action=plan -->";
  created_at = lit "today";
}

abbrev moved : FileDiff
moved = record { new_path = lit "dev/b.tf"; old_path = lit "dev/a.tf"; renamed_file = true }

abbrev pages : Asks GitlabCall DiffPage
pages h (list_diffs project iid page) = if page == 1 then served (moved ∷ []) 2 else served [] 0
pages h _ = served [] 0

abbrev sample_gitlab : GitlabApi
sample_gitlab = record {
  done = fine tt;
  discussions = fine ((old_note ∷ []) ∷ []);
  user = fine (lit "bot");
  discussion = fine (record { discussion_id = lit "d"; notes = [] });
  note = fine 1;
  merge_request = fine sample_mr;
  approved = fine true;
  page = pages;
  file = fine [];
  pipelines = fine [];
  statuses = fine [];
}

old_urls_example :
    All
      (Allowed sample_gitlab thrice thrice-IsBackoff true 5
        (lit "infra/network")
        12
        (lit "dev")
        (lit "plan"))
      (get_old_run_urls sample_gitlab thrice true 5
        (lit "infra/network")
        12
        (lit "dev")
        (lit "plan")
        []).1
old_urls_example =
    get_old_run_urls-Allowed sample_gitlab thrice thrice-IsBackoff true 5 (lit "infra/network") 12
      (lit "dev") (lit "plan") []

files_example :
    (get_merge_request_modified_files sample_gitlab thrice 2 5 (lit "infra/network") []).0
    ≡ ok (all_names ((moved ∷ []) ∷ [] ∷ []))
files_example =
    get_merge_request_modified_files-Serves sample_gitlab thrice thrice-IsBackoff
      (lit "infra/network") 5 2 (moved ∷ []) ([] ∷ []) [] ((λ h. refl), ((λ h. refl), tt))
      (omega arith)

abbrev sample_github : GithubApi
sample_github = record {
  done = fine tt;
  comments = fine (old_note ∷ []);
  user = fine (lit "bot");
  comment_id = fine 1;
  pull = fine (record { details = sample_mr; changed_files = 1 });
  content = fine (ok []);
  files = fine [];
}

comments_example :
    All
      (Github.Pruning.Allowed sample_github thrice thrice-IsBackoff true 5
        (lit "zapier")
        (lit "tfbuddy")
        12
        (lit "dev")
        (lit "plan"))
      (Github.get_old_run_urls sample_github thrice true 5
        (lit "zapier/tfbuddy")
        12
        (lit "dev")
        (lit "plan")
        []).1
comments_example =
    Github.Pruning.pull_request_old_urls-Allowed sample_github thrice thrice-IsBackoff true 5
      (lit "zapier") (lit "tfbuddy") 12 (lit "dev") (lit "plan") (lit "zapier/tfbuddy") []
      (unfold split_full_name split lit in refl)

abbrev updated : ResourceChange
updated = record {
  address = lit "aws_vpc.main";
  actions = update ∷ [];
  importing = true;
  before = object ((lit "cidr", lit "10.0.0.0/16") ∷ []);
  after = object ((lit "cidr", lit "10.0.0.0/8") ∷ []);
  after_unknown = object [];
  after_sensitive = null;
}

update_example :
    process_changes updated
    ≡ some (map old_row (keep (is_shown [] []) ((lit "cidr", lit "10.0.0.0/16") ∷ [])))
update_example =
    process_changes-update updated ((lit "cidr", lit "10.0.0.0/16") ∷ [])
      ((lit "cidr", lit "10.0.0.0/8") ∷ []) [] [] refl refl refl refl refl

abbrev sample_tests : ActionTests
sample_tests = record {
  is_no_op = λ acts. false;
  is_create = λ acts. elim acts [ create ∷ [] ↦ true | _ ↦ false ];
  is_update = λ acts. elim acts [ update ∷ [] ↦ true | _ ↦ false ];
  is_delete = λ acts. false;
  is_replacement = λ acts. false;
}

abbrev created : ResourceChange
created = record updated { address = lit "aws_subnet.a"; actions = create ∷ []; importing = false }

abbrev presented : PlanTemplateData
presented = record (no_changes sample_tests []) {
  addition_count = 1;
  additions = lit "aws_subnet.a" ∷ [];
}

lists_example :
    (presented.additions ≡ addresses sample_tests (creates sample_tests) (created ∷ []))
    × (presented.destructions ≡ addresses sample_tests (deletes sample_tests) (created ∷ []))
    × (presented.imports ≡ addresses sample_tests (is_imported sample_tests) (created ∷ []))
    × IsCounted sample_tests presented
lists_example =
    present_changes-lists sample_tests (created ∷ []) [] presented
      (unfold present_changes present_change in refl)
