-- ===== src/Errors.antt =====
-- Go errors as the program uses them, and the helpers of pkg/utils/error.go.
use tfbuddy.Prelude.{
  ℕ, ◌≤◌, ◌≡◌, refl, Bool, true, false, Option, none, some, ◌++◌, arith, ltb, ◌==◌, ◌||◌,
  if◌then◌else◌,
}
use tfbuddy.Text.{Text, lit}

-- The errors that are compared by identity: the package variables.
pub data Sentinel : Type 0 where
  permanent : Sentinel
  workspace_not_defined no_changes_detected workspace_locked workspace_unlocked : Sentinel
  not_tfc_command other_tf_tool no_note_passed invalid_action : Sentinel
  no_pipeline_status : Sentinel

pub Sentinel-discrete : Discrete Sentinel
Sentinel-discrete = hlevel

abbrev pub sentinel_text : Sentinel → Text
sentinel_text permanent = lit "permanent error. cannot be retried"
sentinel_text workspace_not_defined = lit "the workspace is not defined in .tfbuddy.yaml"
sentinel_text no_changes_detected = lit "no changes detected for configured Terraform directories"
sentinel_text workspace_locked = lit "workspace is already locked"
sentinel_text workspace_unlocked = lit "workspace is already unlocked"
sentinel_text not_tfc_command = lit "not a TFC command"
sentinel_text other_tf_tool = lit "use 'tfc' to interact with tfbuddy"
sentinel_text no_note_passed = lit "no notes passed in note block"
sentinel_text invalid_action = lit "invalid tfc action"
sentinel_text no_pipeline_status = lit "nil pipeline status"

-- `wrap s e` is `fmt.Errorf("s%w", e)`: every `%w` of the program stands last.
pub data Error : Type 0 where
  sentinel : Sentinel → Error
  plain : Text → Error
  wrap : Text → Error → Error

-- `err.Error()`
unfoldable pub error_text : Error → Text
error_text (sentinel s) = sentinel_text s
error_text (plain t) = t
error_text (wrap t e) = t ++ error_text e

abbrev pub same_sentinel : Sentinel → Sentinel → Bool
same_sentinel s t = elim (Sentinel-discrete s t) [ yes p ↦ true | no p ↦ false ]

-- `errors.Is(err, ErrX)`
unfoldable pub is_error : Error → Sentinel → Bool
unfolding Sentinel-discrete
is_error (sentinel s) x = same_sentinel s x
is_error (plain t) x = false
is_error (wrap t e) x = is_error e x

-- `err == ErrX`
abbrev pub eq_error : Error → Sentinel → Bool
eq_error (sentinel s) x = same_sentinel s x
eq_error _ x = false

unfoldable pub create_permanent_error : Error → Error
create_permanent_error e = wrap (error_text e ++ lit " ") (sentinel permanent)

-- TooManyRequests, BadGateway, ServiceUnavailable, GatewayTimeout
abbrev pub is_retryable : ℕ → Bool
is_retryable status = status == 429 || status == 502 || status == 503 || status == 504

-- `none` is the nil error.
unfoldable pub create_permanent_http_error : ℕ → Option Error → Option Error
unfolding create_permanent_error
create_permanent_http_error status none = none
create_permanent_http_error status (some e) =
    if ltb status 400
    then none
    else (if is_retryable status then some e else some (create_permanent_error e))

-- The handler only logs, so that what is left is the error that is returned.
unfoldable pub emit_permanent_error : Option Error → Option Error
unfolding is_error
emit_permanent_error none = none
emit_permanent_error (some e) = if is_error e permanent then none else some e

create_permanent_error-Is : (e : Error) → is_error (create_permanent_error e) permanent ≡ true
unfolding create_permanent_error is_error
create_permanent_error-Is e = refl

-- A failed request is retried exactly when its status is one of the four retryable ones or its
-- error was not permanent before: the other failures are not handed back to the stream.
pub emit-create_permanent_http :
    (status : ℕ) (e : Error)
    → 400 ≤ status
    → emit_permanent_error (create_permanent_http_error status (some e))
      ≡ (if is_retryable status then emit_permanent_error (some e) else none)
unfolding emit_permanent_error create_permanent_http_error
emit-create_permanent_http status e h = ground arith
