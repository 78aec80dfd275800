-- ===== src/Gateway/Sse.antt =====
-- `_parse_stream` and `OpenAICompatibleChatProvider.stream_chat` of
-- backend/ai/gateway/providers/openai_compatible.py, on the lines of the response.
pub mod Events
pub mod Whole
use lumina_ai.Prelude.{
  ℕ, Bool, true, false, not, ◌&&◌, ◌||◌, Option, none, some, List, [], ◌∷◌, ◌++◌, map, drop, take,
  ltb, leb, ◌==◌, if◌then◌else◌,
}
use mathlib.Core.Option
use lumina_ai.Prelude.Int.{ℤ, pos, pos_part, neg_part}
use lumina_ai.Prelude.Texts.{Text, codes, is_empty, same_text, strip}
use lumina_ai.Gateway.Json.{
  Json, str, arr, obj, Items, nil, cons, Fields, end, Python, get, to_int, to_text, is_truthy,
  text_or,
}
use lumina_ai.Gateway.Chat.{
  ProviderError, timeout, unavailable, rate_limited, auth, model_not_enabled, ProviderDelta,
  text_delta, tool_call_delta, usage_delta, done_delta, ToolCall, done, Usage,
}
use lumina_ai.Gateway.Stream.{Next, stop, breaks, fails}

-- How the lines end: the response is over, or the client raises a timeout or another error.
pub data LinesEnd : Type 0 where
  over timed_out broken : LinesEnd

-- What the generator yields and what it does then.
pub record Parsed : Type 0 where
  pub deltas : List ProviderDelta
  pub finish : Next

-- The local variables of the loop.
pub record Parser : Type 0 where
  pub tool_calls : List (ℤ × ToolCall)
  pub usage : Option Fields
  pub finish_reason : Option Text
  pub model : Text

abbrev pub starting : Parser
starting = record { tool_calls = []; usage = none; finish_reason = none; model = [] }

-- `raw.rstrip("\r")`.
abbrev only_returns : Text → Bool
only_returns [] = true
only_returns (c ∷ t) = c == 13 && only_returns t

unfoldable pub rstrip_returns : Text → Text
rstrip_returns [] = []
rstrip_returns (c ∷ t) =
    let rest = rstrip_returns t in if only_returns (c ∷ t) then [] else c ∷ rest

pub data Line : Type 0 where
  skipped done_mark : Line
  event : Fields → Line

abbrev as_event : Option Json → Line
as_event (some (obj fs)) = event fs
as_event _ = skipped

-- The object of an optional value, and the first of a list.
abbrev pub as_object : Option Json → Option Fields
as_object (some (obj fs)) = some fs
as_object _ = none

abbrev pub first_object : Option Json → Option Fields
first_object (some (arr (cons x xs))) = as_object (some x)
first_object _ = none

-- `setdefault` at an index that is not there.
abbrev empty_call : ToolCall
empty_call = record { call_id = []; name = []; arguments = []; status = done }

abbrev pub same_int : ℤ → ℤ → Bool
same_int a b = pos_part a == pos_part b && neg_part a == neg_part b

-- The entry of an index is changed, or added at the end.
unfoldable pub change_call : ℤ → (ToolCall → ToolCall) → List (ℤ × ToolCall) → List (ℤ × ToolCall)
change_call index f [] = (index, f empty_call) ∷ []
change_call index f ((i, c) ∷ calls) =
    let rest = change_call index f calls in
    if same_int i index then (i, f c) ∷ calls else (i, c) ∷ rest

-- `finish_reason or "stop"`.
abbrev pub reason_of : Option Text → Text
reason_of none = codes "stop"
reason_of (some reason) = if is_empty reason then codes "stop" else reason

abbrev pub calls_of : List (ℤ × ToolCall) → List ToolCall
calls_of = map (λ c. c.1)

abbrev pub reported : Option Usage → List ProviderDelta
reported none = []
reported (some u) = usage_delta u ∷ []

abbrev pub whole : List ToolCall → Option Usage → Text → Parsed
whole calls usage reason = record {
  deltas = map tool_call_delta calls ++ (reported usage ++ done_delta reason ∷ []);
  finish = stop;
}

-- The tool calls are out when a count of the usage turns out to be no number.
abbrev pub with_usage : List ToolCall → Text → Option Usage → Parsed
with_usage calls reason none = record { deltas = map tool_call_delta calls; finish = breaks }
with_usage calls reason (some u) = whole calls (some u) reason

abbrev usage_of : Text → Text → Option ℤ → Option ℤ → Option Usage
usage_of vendor model (some prompt) (some completion) = some (record {
  prompt_tokens = prompt;
  completion_tokens = completion;
  model = model;
  provider = vendor;
  reasoning_tokens = pos 0;
  estimated = false;
})
usage_of vendor model _ _ = none

abbrev pub put_texts : List Text → Parsed → Parsed
put_texts ts r = record r { deltas = map text_delta ts ++ r.deltas }

module _ (py : Python) where
  unfoldable pub line_of : Text → Line
  unfolding rstrip_returns strip
  line_of raw =
      let line = rstrip_returns raw in
      let payload = strip (drop 5 line) in
      if is_empty line || same_text (take 1 line) (codes ":")
      then skipped
      else if not (same_text (take 5 line) (codes "data:"))
      then skipped
      else if same_text payload (codes "[DONE]")
      then done_mark
      else as_event (py.loads payload)

  -- `int(fragment.get("index", 0))`.
  unfoldable pub int_field : Text → Fields → Option ℤ
  unfolding get to_int
  int_field key fs = elim (get key fs) [ none ↦ some (pos 0) | some v ↦ to_int py v ]

  abbrev set_id : Option Json → ToolCall → ToolCall
  set_id none c = c
  set_id (some v) c = if is_truthy py (some v) then record c { call_id = to_text py v } else c

  abbrev set_name : Option Json → ToolCall → ToolCall
  set_name none c = c
  set_name (some v) c = if is_truthy py (some v) then record c { name = to_text py v } else c

  abbrev add_arguments : Option Json → ToolCall → ToolCall
  add_arguments (some (str t)) c = record c { arguments = c.arguments ++ t }
  add_arguments _ c = c

  abbrev set_function : Option Fields → ToolCall → ToolCall
  set_function none c = c
  set_function (some fs) c =
      add_arguments (get (codes "arguments") fs) (set_name (get (codes "name") fs) c)

  -- `_accumulate_tool_calls`: `none` is an exception.
  unfoldable pub accumulate : Items → List (ℤ × ToolCall) → Option (List (ℤ × ToolCall))
  unfolding get int_field change_call is_truthy to_text
  accumulate nil calls = some calls
  accumulate (cons (obj fs) rest) calls = elim (int_field (codes "index") fs) [
    | none ↦ none
    | some index ↦ accumulate rest (
        change_call index
          (λ c.
            set_function (as_object (get (codes "function") fs)) (set_id (get (codes "id") fs) c))
          calls)
  ]
  accumulate (cons _ rest) calls = accumulate rest calls

  abbrev pub accumulate_field : Option Json → List (ℤ × ToolCall) → Option (List (ℤ × ToolCall))
  accumulate_field (some (arr items)) calls = accumulate items calls
  accumulate_field _ calls = some calls

  -- An event up to its choice: the model and the usage.
  unfoldable pub note_event : Fields → Parser → Parser
  unfolding get text_or
  note_event fs p =
      let usage = as_object (get (codes "usage") fs) in
      record p {
        model = text_or py (get (codes "model") fs) p.model;
        usage = elim usage [ none ↦ p.usage | some u ↦ some u ];
      }

  abbrev pub note_reason : Option Json → Parser → Parser
  note_reason none p = p
  note_reason (some v) p =
      if is_truthy py (some v) then record p { finish_reason = some (to_text py v) } else p

  abbrev pub content_of : Option Json → List Text
  content_of (some (str t)) = if is_empty t then [] else t ∷ []
  content_of _ = []

  unfoldable pub finish_whole : Text → Parser → Parsed
  unfolding int_field
  finish_whole vendor p = elim p.usage [
    | none ↦ whole (calls_of p.tool_calls) none (reason_of p.finish_reason)
    | some u ↦ with_usage (calls_of p.tool_calls) (reason_of p.finish_reason) (
        usage_of vendor p.model (int_field (codes "prompt_tokens") u)
          (int_field (codes "completion_tokens") u))
  ]

  unfoldable pub finish_open : Text → Parser → Parsed
  unfolding finish_whole
  finish_open vendor p = elim p.finish_reason [
    | none ↦ record { deltas = []; finish = fails unavailable }
    | some reason ↦ finish_whole vendor p
  ]

  -- The handlers of `stream_chat` for an error of the client.
  abbrev finish_lines : Text → LinesEnd → Parser → Parsed
  finish_lines vendor over p = finish_open vendor p
  finish_lines vendor timed_out p = record { deltas = []; finish = fails timeout }
  finish_lines vendor broken p = record { deltas = []; finish = fails unavailable }

  -- What one event changes; the calls are `none` after an exception.
  abbrev pub texts_of : Fields → List Text
  texts_of fs = elim (first_object (get (codes "choices") fs)) [
    | none ↦ []
    | some choice ↦ elim (as_object (get (codes "delta") choice)) [
      | none ↦ []
      | some delta ↦ content_of (get (codes "content") delta)
    ]
  ]

  -- The rest of an event, by its first choice and by the delta of that.
  abbrev pub after_delta : Option Fields → Parser → Option Parser
  after_delta none p = some p
  after_delta (some delta) p =
      Option.map (λ calls. record p { tool_calls = calls })
        (accumulate_field (get (codes "tool_calls") delta) p.tool_calls)

  abbrev pub after_choice : Option Fields → Parser → Option Parser
  after_choice none p = some p
  after_choice (some choice) p =
      after_delta (as_object (get (codes "delta") choice))
        (note_reason (get (codes "finish_reason") choice) p)

  unfoldable pub after_event : Fields → Parser → Option Parser
  unfolding note_event get is_truthy to_text accumulate
  after_event fs p = after_choice (first_object (get (codes "choices") fs)) (note_event fs p)

  -- `_parse_stream`, with the handlers around it.
  unfoldable pub parse_lines : Text → Parser → List Text → LinesEnd → Parsed
  unfolding finish_whole finish_open after_event line_of
  parse_lines vendor p [] lines_end = finish_lines vendor lines_end p
  parse_lines vendor p (raw ∷ rest) lines_end = elim (line_of raw) [
    | skipped ↦ parse_lines vendor p rest lines_end
    | done_mark ↦ finish_whole vendor p
    | event fs ↦ put_texts (texts_of fs) (elim (after_event fs p) [
      | none ↦ record { deltas = []; finish = breaks }
      | some p' ↦ parse_lines vendor p' rest lines_end
    ])
  ]

-- `_error_for`: the status of a response that is not a success.
unfoldable pub error_for : ℕ → ProviderError
error_for status =
    if status == 429
    then rate_limited
    else if status == 401 || status == 403
    then auth
    else if status == 404 || status == 400
    then model_not_enabled
    else unavailable

-- What a request comes to: an error of the client before the response, or a response.
pub data Response : Type 0 where
  connect_timed_out connect_failed : Response
  response : ℕ → List Text → LinesEnd → Response

unfoldable pub stream_response : Python → Text → Response → Parsed
unfolding parse_lines error_for
stream_response py vendor connect_timed_out = record { deltas = []; finish = fails timeout }
stream_response py vendor connect_failed = record { deltas = []; finish = fails unavailable }
stream_response py vendor (response status lines lines_end) =
    if leb 400 status
    then record { deltas = []; finish = fails (error_for status) }
    else parse_lines py vendor starting lines lines_end
