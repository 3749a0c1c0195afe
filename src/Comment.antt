-- ===== src/Comment.antt =====
-- pkg/comment_actions/parsing.go: the command in a comment.
use tfbuddy.Prelude.{Bool, true, false, Option, none, some, List, [], ◌∷◌, ◌||◌, if◌then◌else◌}
use tfbuddy.Text.{Text, lit, text_eq, trim_space, to_lower, fields}
use tfbuddy.Errors.{
  Error, sentinel, wrap, permanent, no_note_passed, other_tf_tool, not_tfc_command, invalid_action,
}
use tfbuddy.Types.{TriggerAction, invalid, TfcTriggerOptions}
use tfbuddy.Trigger.{check_trigger_action}
use tfbuddy.Effects.{Res, ok, err}

-- `CommentOpts`: the options with the positional arguments that are read.
pub record CommentOpts : Type 0 where
  pub trigger_opts : TfcTriggerOptions
  pub agent : Text
  pub command : Text

-- Third-party: `flags.ParseArgs` of go-flags, into options that are empty. `none` is its error.
abbrev pub ArgsParser : Type 0
ArgsParser = List Text → Option CommentOpts

-- `ErrPermanent`
abbrev pub err_permanent : Error
err_permanent = wrap (lit "could not parse comment as command. ") (sentinel permanent)

abbrev pub is_invalid : TriggerAction → Bool
is_invalid invalid = true
is_invalid _ = false

-- The options that were parsed, with the action that the command names.
abbrev pub with_action : CommentOpts → Res CommentOpts
with_action opts =
    let action = check_trigger_action opts.command in
    if is_invalid action
    then err (sentinel invalid_action)
    else ok (record opts { trigger_opts = record (opts.trigger_opts) { action = action } })

module _ (parse_args : ArgsParser) where
  abbrev pub parsed : Option CommentOpts → Res CommentOpts
  parsed none = err err_permanent
  parsed (some opts) = with_action opts

  -- The words of a comment, with the first one taken apart.
  abbrev pub parse_words : List Text → Res CommentOpts
  parse_words [] = err (sentinel no_note_passed)
  parse_words (word ∷ words) =
      if text_eq word (lit "tfc")
      then parsed (parse_args (word ∷ words))
      else (if text_eq word (lit "terraform") || text_eq word (lit "atlantis")
          then err (sentinel other_tf_tool)
          else err (sentinel not_tfc_command))

  unfoldable pub parse_comment_command : Text → Res CommentOpts
  parse_comment_command note_body = parse_words (fields (trim_space (to_lower note_body)))
