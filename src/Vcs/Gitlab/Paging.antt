-- ===== src/Vcs/Gitlab/Paging.antt =====
-- The loop over the pages of the diffs of a merge request.
use tfbuddy.Prelude.{
  ℕ, zero, suc, ◌<◌, ◌≡◌, refl, ◌∙◌, sym, ap, false, none, List, [], ◌∷◌, ◌++◌, append_assoc,
  append-nil, arith, ◌==◌, length, if◌then◌else◌, Bool-cases, inl, inr,
}
use tfbuddy.Text.{Text}
use tfbuddy.Effects.{ok}
use tfbuddy.Requests.{Reply, Req, ◌>>=◌, pure, receive, Backoff}
use tfbuddy.Requests.Tries.{IsBackoff, Tries-ok}
use tfbuddy.Vcs.Gitlab.{
  GitlabCall, list_diffs, FileDiff, DiffPage, GitlabApi, changed_paths, turn_page, list_pages,
  get_merge_request_modified_files,
}

-- A file's names: the new one, and the old one as well for a file that was renamed.
abbrev pub names_of : FileDiff → List Text
names_of f = if f.renamed_file then f.new_path ∷ f.old_path ∷ [] else f.new_path ∷ []

abbrev pub names : List FileDiff → List Text
names [] = []
names (f ∷ diffs) = names_of f ++ names diffs

-- The names in all pages, in order.
abbrev pub all_names : List (List FileDiff) → List Text
all_names [] = []
all_names (page ∷ pages) = names page ++ all_names pages

changed_paths-names : (diffs : List FileDiff) → changed_paths diffs ≡ names diffs
unfolding changed_paths
changed_paths-names [] = refl
changed_paths-names (f ∷ diffs) = elim (Bool-cases f.renamed_file) [
  | inl r ↦ simp (r, changed_paths-names diffs) refl
  | inr r ↦ simp (r, changed_paths-names diffs) refl
]

-- The number of the page behind `first`, or 0 where `first` is the last one.
abbrev pub next_of : ℕ → List (List FileDiff) → ℕ
next_of first [] = 0
next_of first (page ∷ pages) = suc first

abbrev pub served : List FileDiff → ℕ → Reply DiffPage
served page next = record {
  value = record { diffs = page; next_page = next };
  status = 200;
  error = none;
}

-- GitLab serves `pages` from the page `first` on: each with the number of the next, the last with 0.
abbrev pub Serves : GitlabApi → Text → ℕ → ℕ → List (List FileDiff) → Type 0
Serves api project mr_iid first [] = Unit
Serves api project mr_iid first (page ∷ pages) =
    ((h : List GitlabCall)
      → api.page h (list_diffs project mr_iid first) ≡ served page (next_of first pages))
    × Serves api project mr_iid (suc first) pages

module _ (rest : ℕ → List Text → Req GitlabCall (List Text)) (files : List Text)
    (page : List FileDiff) where
  turn_page-last : turn_page rest files (served page 0) ≡ pure (files ++ names page)
  unfolding turn_page
  turn_page-last = simp (changed_paths-names page) refl

  turn_page-goes :
      (n : ℕ)
      → turn_page rest files (served page (suc n)) ≡ rest (suc n) (files ++ changed_paths page)
  unfolding turn_page
  turn_page-goes n = let e : (suc n == 0) ≡ false = ground arith in rw (e, turn_page)

  turn_page-next :
      (n : ℕ) → turn_page rest files (served page (suc n)) ≡ rest (suc n) (files ++ names page)
  turn_page-next n =
      turn_page-goes n ∙ ap (λ ns. rest (suc n) (files ++ ns)) (changed_paths-names page)

module _ (api : GitlabApi) (backoff : Backoff GitlabCall) (law : IsBackoff backoff) (project : Text)
    (mr_iid : ℕ) where
  list_pages-Serves :
      (fuel first : ℕ) (page : List FileDiff) (pages : List (List FileDiff)) (files : List Text)
      (h : List GitlabCall)
      → Serves api project mr_iid (suc first) (page ∷ pages)
      → length pages < fuel
      → (list_pages api backoff fuel mr_iid project (suc first) files h).0
        ≡ ok (files ++ all_names (page ∷ pages))
  unfolding list_pages receive ◌>>=◌
  list_pages-Serves zero first page pages files h s lt = elim lt [ ]
  list_pages-Serves (suc fuel) first page [] files h (s, _) lt = rw (s h) (
      rw (turn_page-last (list_pages api backoff fuel mr_iid project) files page)
        (unfold pure in ap (λ fs. ok (files ++ fs)) (sym (append-nil (names page)))))
  list_pages-Serves (suc fuel) first page (p ∷ pages) files h (s, ss) lt = rw (s h) (
      rw (turn_page-next (list_pages api backoff fuel mr_iid project) files page (suc first)) (
        list_pages-Serves fuel (suc first) p pages (files ++ names page) _ ss (omega arith)
        ∙ ap ok (append_assoc files (names page) (all_names (p ∷ pages)))))

  -- Where GitLab serves a merge request's diffs as pages of any number, one at least, each with the
  -- number of the next, and package backoff runs an operation again only after a failure, and gives
  -- its last result, the loop ends, and the modified files are the names in all pages, in order: the
  -- new name of each file, followed by its old name if it was renamed. The fuel is the number of the
  -- pages, or more.
  pub get_merge_request_modified_files-Serves :
      (fuel : ℕ) (page : List FileDiff) (pages : List (List FileDiff)) (h : List GitlabCall)
      → Serves api project mr_iid 1 (page ∷ pages)
      → length pages < fuel
      → (get_merge_request_modified_files api backoff fuel mr_iid project h).0
        ≡ ok (all_names (page ∷ pages))
  unfolding get_merge_request_modified_files
  get_merge_request_modified_files-Serves fuel page pages h s lt =
      Tries-ok (list_pages api backoff fuel mr_iid project 1 []) h _ _ _ (law _ _ h)
        (list_pages-Serves fuel 0 page pages [] h s lt)
