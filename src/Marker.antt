-- ===== src/Marker.antt =====
-- pkg/utils/formatter.go: the marker that tags a note with its workspace and action, and the text
-- of a status.
pub mod Laws
use tfbuddy.Prelude.{
  Option, none, some, ◌++◌, ◌||◌, if◌then◌else◌, is_empty, ◌==◌, [], ◌∷◌, reverse,
}
use tfbuddy.Text.{Text, lit, text_eq, cut}

abbrev pub marker_prefix : Text
marker_prefix = lit "<!-- tfbuddy:ws="

abbrev pub marker_suffix : Text
marker_suffix = lit " -->"

abbrev pub action_sep : Text
action_sep = lit ":action="

unfoldable pub format_tfbuddy_marker : Text → Text → Text
format_tfbuddy_marker workspace action =
    marker_prefix ++ workspace ++ action_sep ++ action ++ marker_suffix

abbrev pub before_suffix : Option (Text × Text) → Text
before_suffix none = []
before_suffix (some (captured, _)) = captured

abbrev pub behind_prefix : Text → Option (Text × Text) → Text
behind_prefix suffix none = []
behind_prefix suffix (some (_, sub_body)) = before_suffix (cut sub_body suffix)

unfoldable pub capture_substring : Text → Text → Text → Text
capture_substring body prefix suffix = behind_prefix suffix (cut body prefix)

-- The two parts of `strings.SplitN(raw, ":action=", 2)`, of which neither may be empty.
abbrev pub marker_parts : Option (Text × Text) → Option (Text × Text)
marker_parts none = none
marker_parts (some (workspace, action)) =
    if is_empty workspace || is_empty action then none else some (workspace, action)

-- `none` is `found = false`.
unfoldable pub parse_tfbuddy_marker : Text → Option (Text × Text)
parse_tfbuddy_marker body =
    let raw = capture_substring body marker_prefix marker_suffix in
    if is_empty raw then none else marker_parts (cut raw action_sep)

-- `strings.Trim(status, "`")`
unfoldable pub trim_ticks_left : Text → Text
trim_ticks_left [] = []
trim_ticks_left (c ∷ s) = if c == b'`' then trim_ticks_left s else c ∷ s

unfoldable pub trim_ticks : Text → Text
trim_ticks s = reverse (trim_ticks_left (reverse (trim_ticks_left s)))

unfoldable pub format_status : Text → Text
format_status given =
    let status = trim_ticks given in
    if text_eq status (lit "applied")
    then lit "✅ Applied"
    else (if text_eq status (lit "planned")
        then lit "📝 Planned"
        else (if text_eq status (lit "policy_checked")
            then lit "📝 Policy Checked"
            else (if text_eq status (lit "policy_soft_failed")
                then lit "📝 Policy Soft Failed"
                else (if text_eq status (lit "errored")
                    then lit "❌ Errored"
                    else (if text_eq status (lit "canceled")
                        then lit "❌ Canceled"
                        else (if text_eq status (lit "discarded")
                            then lit "❌ Discarded"
                            else (if text_eq status (lit "planned_and_finished")
                                then lit "📝 Planned and Finished"
                                else b'`' ∷ status ++ b'`' ∷ [])))))))
