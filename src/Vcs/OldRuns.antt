-- ===== src/Vcs/OldRuns.antt =====
-- What `GetOldRunUrls` of either client reads from the notes of earlier runs, and what it deletes.
pub mod Laws
use tfbuddy.Prelude.{
  ℕ, Bool, false, not, ◌&&◌, none, some, List, [], ◌∷◌, ◌++◌, map, reverse, if◌then◌else◌, is_empty,
  ◌==◌,
}
use tfbuddy.Text.{Text, lit, text_eq, split, join, trim_space}
use tfbuddy.Marker.{capture_substring, parse_tfbuddy_marker}

-- What the code reads of a note, and of a comment of an issue.
pub record Note : Type 0 where
  pub note_id : ℕ
  pub author : Text
  pub body : Text
  pub created_at : Text

abbrev pub id_of : Note → ℕ
id_of n = n.note_id

abbrev pub url_run_prefix : Text
url_run_prefix = lit "**Run URL**: "

abbrev pub url_run_suffix : Text
url_run_suffix = lit "<br>"

abbrev pub url_run_group_prefix : Text
url_run_group_prefix =
    lit
      "<details><summary>\n\n### Previous TFC Urls:\n\n</summary>\n\n| Run ID | Status | Created at |\n| ------ | ------ | ---------- |"

abbrev pub url_run_group_suffix : Text
url_run_group_suffix = lit "</details>"

abbrev pub url_run_status_prefix : Text
url_run_status_prefix = lit "**Status**: "

abbrev pub last_part : List Text → Text
last_part [] = []
last_part (p ∷ []) = p
last_part (p ∷ q ∷ ps) = last_part (q ∷ ps)

-- The rows that were collected, and the last block of older rows.
pub record Collected : Type 0 where
  pub old_run_urls : List Text
  pub old_run_block : Text

abbrev pub run_url_of : Note → Text
run_url_of note = capture_substring note.body url_run_prefix url_run_suffix

abbrev pub run_status_of : Note → Text
run_status_of note = capture_substring note.body url_run_status_prefix url_run_suffix

-- `strings.Split` never gives an empty slice, so that the branch for a malformed URL is dead.
unfoldable pub row_of : (Text → Text) → Note → Text
row_of show_status note =
    let run_url_raw = capture_substring (run_url_of note) (lit "[") (lit "]") in
    lit "|["
    ++ last_part (split b'/' run_url_raw)
    ++ lit "]("
    ++ run_url_raw
    ++ lit ")|"
    ++ show_status (run_status_of note)
    ++ lit "|"
    ++ note.created_at
    ++ lit "|"

unfoldable pub collect_note : (Text → Text) → Note → Collected → Collected
collect_note show_status note c =
    let block = capture_substring note.body url_run_group_prefix url_run_group_suffix in
    record {
      old_run_urls =
          if not (is_empty (run_url_of note)) && not (is_empty (run_status_of note))
          then c.old_run_urls ++ row_of show_status note ∷ []
          else c.old_run_urls;
      old_run_block = if is_empty block then c.old_run_block else block;
    }

unfoldable pub is_marked : Text → Text → Note → Bool
is_marked workspace action note = elim (parse_tfbuddy_marker note.body) [
  | none ↦ false
  | some (ws, act) ↦ text_eq ws workspace && text_eq act action
]

-- The text that is returned.
unfoldable pub old_runs_text : Collected → Text
old_runs_text c =
    if is_empty c.old_run_urls
    then (if is_empty (trim_space c.old_run_block) then [] else c.old_run_block)
    else url_run_group_prefix
      ++ (if is_empty c.old_run_block then lit "\n" else c.old_run_block)
      ++ join (lit "\n") c.old_run_urls
      ++ lit "\n"
      ++ url_run_group_suffix

-- The notes of a discussion that the current user has written.
unfoldable pub collect_own : (Text → Text) → Text → List Note → Collected → Collected
collect_own show_status user [] c = c
collect_own show_status user (note ∷ notes) c =
    collect_own show_status user notes
      (if text_eq note.author user then collect_note show_status note c else c)

module _ (show_status : Text → Text) (user workspace action : Text) (root_note_id : ℕ) where
  -- The discussion is the user's, and about the workspace and the action.
  abbrev pub is_ours : List Note → Bool
  is_ours [] = false
  is_ours (root ∷ notes) = text_eq root.author user && is_marked workspace action root

  abbrev pub is_root : List Note → Bool
  is_root [] = false
  is_root (root ∷ notes) = root.note_id == root_note_id

  -- The loop over the discussions: what is collected, and the notes to delete, thread by thread, each
  -- from its last note to its first.
  unfoldable pub scan : List (List Note) → Collected → Collected × List (List ℕ)
  scan [] c = (c, [])
  scan (notes ∷ discussions) c =
      let (found, to_delete) =
        scan discussions (if is_ours notes then collect_own show_status user notes c else c) in
      (
        found,
        if is_ours notes && not (is_root notes)
            then reverse (map id_of notes) ∷ to_delete
            else to_delete,
      )
