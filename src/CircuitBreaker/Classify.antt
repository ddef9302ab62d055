-- ===== src/CircuitBreaker/Classify.antt =====
-- `classify_llm_error` and `is_retryable_category` of circuit_breaker.py. The arguments are the
-- message and the class name of the exception after `.lower()`, which is Python's own.
use text.Mathlib.Text.{find?}
use agent_langraph.Prelude.{
  String, ◌≡◌, Bool, true, false, ◌&&◌, ◌||◌, List, [], ◌∷◌, arith, if◌then◌else◌, is_some,
}

pub data LlmErrorCategory : Type 0 where
  rate_limit server_error auth_error context_too_long content_filter timeout unknown :
      LlmErrorCategory

-- `needle in message`
unfoldable pub contains : String → String → Bool
contains needle message = is_some (find? message needle)

unfoldable pub contains_any : List String → String → Bool
contains_any [] message = false
contains_any (code ∷ rest) message = contains code message || contains_any rest message

unfoldable pub is_auth : String → String → Bool
is_auth message name =
    contains "auth" message
    || (contains "401" message || (contains "403" message || contains "authentication" name))

unfoldable pub is_content_filter : String → Bool
is_content_filter message =
    contains "content" message && (contains "filter" message || contains "policy" message)

unfoldable pub is_context_too_long : String → Bool
is_context_too_long message =
    contains "context" message
    && (contains "length" message || (contains "too long" message || contains "token" message))

unfoldable pub is_timeout : String → Bool
is_timeout message = contains "timeout" message || contains "timed out" message

unfoldable pub is_rate_limit : String → Bool
is_rate_limit message =
    contains "429" message || (contains "rate" message || contains "limit" message)

unfoldable pub is_disconnect : String → Bool
is_disconnect message =
    contains "incomplete chunked" message
    || (contains "peer closed" message
        || (contains "connection reset" message || contains "broken pipe" message))

unfoldable pub is_server_error : String → Bool
is_server_error message = contains_any ("500" ∷ "502" ∷ "503" ∷ "529" ∷ "server error" ∷ []) message

unfoldable pub classify_llm_error : String → String → LlmErrorCategory
classify_llm_error message name =
    if is_auth message name
    then auth_error
    else if is_content_filter message
    then content_filter
    else if is_context_too_long message
    then context_too_long
    else if is_timeout message
    then timeout
    else if is_rate_limit message
    then rate_limit
    else if is_disconnect message
    then server_error
    else if is_server_error message
    then server_error
    else unknown

unfoldable pub is_retryable_category : LlmErrorCategory → Bool
is_retryable_category rate_limit = true
is_retryable_category server_error = true
is_retryable_category timeout = true
is_retryable_category _ = false

-- An error is retried exactly if it speaks of a timeout, a limit, a lost connection or a server
-- error, and of no failed authentication, content filter or overlong context.
pub retryable_iff :
    (message name : String)
    → is_retryable_category (classify_llm_error message name) ≡ (
        if is_auth message name || (is_content_filter message || is_context_too_long message)
        then false
        else is_timeout message
          || (is_rate_limit message || (is_disconnect message || is_server_error message)))
unfolding classify_llm_error is_retryable_category
retryable_iff message name = ground arith
