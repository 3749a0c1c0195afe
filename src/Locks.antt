-- ===== src/Locks.antt =====
-- The lock tags of pkg/tfc_trigger/tfc_trigger.go: an MR that applies tags the workspace
-- "tfbuddylock-<number>", and `FindLockingMR` reads the tags back.
pub mod Laws
use tfbuddy.Prelude.{Option, none, some, List, [], ◌∷◌, ◌++◌, if◌then◌else◌, is_empty, length}
use tfbuddy.Text.{Text, lit, text_eq, has_prefix, drop, trim_space, is_digit}

abbrev pub tf_prefix : Text
tf_prefix = lit "tfbuddylock"

abbrev pub dash : Text
dash = b'-' ∷ []

-- The tag that `AddTags` writes for a prefix and a value.
abbrev pub tag_name : Text → Text → Text
tag_name prefix value = prefix ++ b'-' ∷ value

-- `\d+` takes as many digits as there are.
unfoldable pub take_digits : Text → Text
unfolding is_digit
take_digits [] = []
take_digits (c ∷ s) = let rest = take_digits s in if is_digit c then c ∷ rest else []

-- The group of a match of `tfbuddylock\-(\d+)` at the beginning of the text.
unfoldable pub match_here : Text → Option Text
unfolding take_digits
match_here s =
    let digits = take_digits (drop (length (tf_prefix ++ dash)) s) in
    if has_prefix s (tf_prefix ++ dash)
    then (if is_empty digits then none else some digits)
    else none

-- `tagRegex.FindStringSubmatch(tag)[1]`: the leftmost match counts. The regular expression is
-- anchored nowhere.
unfoldable pub find_submatch : Text → Option Text
unfolding match_here
find_submatch [] = none
find_submatch (c ∷ s) =
    let later = find_submatch s in
    elim (match_here (c ∷ s)) [ some digits ↦ some digits | none ↦ later ]

unfoldable pub find_locking_mr : List Text → Text → Text
find_locking_mr [] this_mr = []
find_locking_mr (tag ∷ tags) this_mr =
    let rest = find_locking_mr tags this_mr in
    elim (find_submatch (trim_space tag)) [
      | none ↦ rest
      | some locking_mr ↦ if text_eq locking_mr this_mr then rest else locking_mr
    ]
