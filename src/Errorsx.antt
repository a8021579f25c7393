-- ===== src/Errorsx.antt =====
-- Errors that tell whether a retry may help, internal/pkg/errorsx. An error is one of the package's
-- two, another with its text, or the join of two.
use my_go.Common.{String, Option, none, some, Bool, true, false, ◌||◌}

pub data Err : Type 0 where
  retryable permanent : Err
  other_error : String → Err
  joined : Err → Err → Err

unfoldable pub wrap_retryable : Option Err → Option Err
wrap_retryable none = none
wrap_retryable (some e) = some (joined retryable e)

unfoldable pub wrap_permanent : Option Err → Option Err
wrap_permanent none = none
wrap_permanent (some e) = some (joined permanent e)

-- `errors.Is`, which looks into both parts of a join, for the two targets.
unfoldable pub has_retryable : Err → Bool
has_retryable retryable = true
has_retryable permanent = false
has_retryable (other_error t) = false
has_retryable (joined a b) = has_retryable a || has_retryable b

unfoldable pub has_permanent : Err → Bool
has_permanent retryable = false
has_permanent permanent = true
has_permanent (other_error t) = false
has_permanent (joined a b) = has_permanent a || has_permanent b

unfoldable pub is_retryable : Option Err → Bool
is_retryable none = false
is_retryable (some e) = has_retryable e

unfoldable pub is_permanent : Option Err → Bool
is_permanent none = false
is_permanent (some e) = has_permanent e
