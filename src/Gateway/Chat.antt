-- ===== src/Gateway/Chat.antt =====
-- The types of backend/ai/gateway/chat.py, and the errors of a provider of
-- backend/core/exceptions.py. The role of a message is its text.
use lumina_ai.Prelude.{ℕ, Bool, true, false, List, Option}
use lumina_ai.Prelude.Int.{ℤ, ◌+ℤ◌}
use lumina_ai.Prelude.Texts.{Text}

-- The subclasses of `ProviderError`; what their message says is left out.
pub data ProviderError : Type 0 where
  timeout unavailable rate_limited dimension_mismatch request_rejected auth model_not_enabled :
      ProviderError

unfoldable pub is_retryable : ProviderError → Bool
is_retryable timeout = true
is_retryable unavailable = true
is_retryable rate_limited = true
is_retryable dimension_mismatch = false
is_retryable request_rejected = false
is_retryable auth = false
is_retryable model_not_enabled = false

pub data Effort : Type 0 where
  off low medium high : Effort

pub record ChatMessage : Type 0 where
  pub role : Text
  pub content : Text

-- A response format is only handed on, so it is a text here; a temperature is in hundredths.
pub record ChatRequest : Type 0 where
  pub messages : List ChatMessage
  pub model : Text
  pub temperature : Option ℕ
  pub max_output_tokens : Option ℕ
  pub reasoning_effort : Effort
  pub response_format : Option Text

-- In microseconds.
pub record ChatTimeouts : Type 0 where
  pub connect : ℕ
  pub ttft : ℕ
  pub total : ℕ

pub data CallStatus : Type 0 where
  running done failed : CallStatus

pub record ToolCall : Type 0 where
  pub call_id : Text
  pub name : Text
  pub arguments : Text
  pub status : CallStatus

pub record Usage : Type 0 where
  pub prompt_tokens : ℤ
  pub completion_tokens : ℤ
  pub model : Text
  pub provider : Text
  pub reasoning_tokens : ℤ
  pub estimated : Bool

unfoldable pub billable_output_tokens : Usage → ℤ
billable_output_tokens u = u.completion_tokens +ℤ u.reasoning_tokens

unfoldable pub total_tokens : Usage → ℤ
unfolding billable_output_tokens
total_tokens u = u.prompt_tokens +ℤ billable_output_tokens u

-- `ProviderDelta`, and `Delta`, which has the error besides.
pub data ProviderDelta : Type 0 where
  text_delta : Text → ProviderDelta
  tool_call_delta : ToolCall → ProviderDelta
  usage_delta : Usage → ProviderDelta
  done_delta : Text → ProviderDelta

-- The code of an error is always that of an interrupted stream, and it can be retried.
pub data Delta : Type 0 where
  passed : ProviderDelta → Delta
  error_delta : ProviderError → Delta
