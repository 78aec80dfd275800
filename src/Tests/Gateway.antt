-- ===== src/Tests/Gateway.antt =====
-- The gateway to the model providers.
use lumina_ai.Prelude.{
  ℕ, zero, suc, ap, ◌≤◌, ◌≡◌, refl, true, none, some, List, [], ◌∷◌, length, if◌then◌else◌,
}
use lumina_ai.Prelude.Texts.{Text, codes, same_text}
use lumina_ai.Gateway.Chat.{unavailable, ChatRequest, off, text_delta, ProviderDelta}
use lumina_ai.Gateway.Json.{Json, null, str, arr, obj, nil, cons, end, field, Python}
use lumina_ai.Gateway.Sse.{
  Response, response, over, connect_failed, stream_response, parse_lines, starting,
}
use lumina_ai.Gateway.Stream.{
  Answer, Next, item, stop, breaks, fails, ChatGateway, stream_chat, iterate,
}
use lumina_ai.Gateway.Stream.Guarantees.{Kept}
use lumina_ai.Gateway.Stream.Retries.{
  told, AskedInOrder, FromOneCall, stream_chat-AskedInOrder, stream_chat-FromOneCall,
  iterate_bounds,
}
use lumina_ai.Gateway.Stream.Attempts.{schedule}
use lumina_ai.Gateway.Adapter.{item_then, items, adapter_stream_lem}

abbrev hello_event : Json
hello_event = obj (
    field (codes "model") (str (codes "m1")) (
      field (codes "choices")
        (arr (
          cons
            (obj (field (codes "delta") (obj (field (codes "content") (str (codes "hi")) end)) end))
            nil))
        end))

-- A usage whose count is null, after the answer.
abbrev null_usage_event : Json
null_usage_event = obj (
    field (codes "usage") (obj (field (codes "prompt_tokens") null end))
      (field (codes "choices") (arr nil) end))

abbrev pub plain_python : Python
plain_python = record {
  loads = λ t.
      if same_text t (codes "hello")
      then some hello_event
      else if same_text t (codes "null-usage")
      then some null_usage_event
      else none;
  int_of_float = λ t. none;
  int_of_text = λ t. none;
  is_nonzero = λ t. true;
  shown = λ v. [];
}

abbrev pub request : ChatRequest
request = record {
  messages = record { role = codes "user"; content = codes "hello" } ∷ [];
  model = codes "m1";
  temperature = none;
  max_output_tokens = none;
  reasoning_effort = off;
  response_format = none;
}

abbrev whole_lines : List Text
whole_lines = codes ": ping" ∷ codes "data: hello" ∷ [] ∷ codes "data: [DONE]" ∷ []

abbrev null_lines : List Text
null_lines = codes "data: hello" ∷ codes "data: null-usage" ∷ codes "data: [DONE]" ∷ []

-- The first call finds no connection, the others answer.
abbrev pub responses : ℕ → ChatRequest → Response
responses zero q = connect_failed
responses (suc k) q = response 200 whole_lines over

abbrev answer : Next → Answer
answer next = record { gap = 10; wait = 1000; next = next }

abbrev pub play : List ProviderDelta → Next → List Answer
play [] last = answer last ∷ []
play (d ∷ ds) last = answer (item d) ∷ play ds last

pub items-play :
    (ds : List ProviderDelta) (last : Next) → item_then last [] ≡ [] → items (play ds last) ≡ ds
items-play [] last closes = closes
items-play (d ∷ ds) last closes = ap (λ l. d ∷ l) (items-play ds last closes)

abbrev pub last_of : ℕ → Next
last_of zero = fails unavailable
last_of (suc k) = stop

pub last_closes : (k : ℕ) → item_then (last_of k) [] ≡ []
last_closes zero = refl
last_closes (suc k) = refl

abbrev pub vendor : Text
vendor = codes "openai"

abbrev pub provider : ℕ → ChatRequest → List Answer
provider k q = play (stream_response plain_python vendor (responses k q)).deltas (last_of k)

abbrev pub gateway : ChatGateway
gateway = record {
  chat = some (vendor, provider);
  chat_timeouts = record { connect = 1000; ttft = 5000; total = 60000 };
  chat_fallback_models = codes "m2" ∷ [];
  backoff = 1000 ∷ [];
}

adapter_stream_lem_example :
    Kept (stream_chat gateway request).deltas (stream_chat gateway request).ending
adapter_stream_lem_example =
    adapter_stream_lem plain_python gateway request vendor provider responses refl (λ k q.
      items-play (stream_response plain_python vendor (responses k q)).deltas (last_of k)
        (last_closes k))

stream_chat-AskedInOrder_example :
    AskedInOrder (schedule (1000 ∷ []) (codes "m1" ∷ codes "m2" ∷ [])) (stream_chat gateway request)
stream_chat-AskedInOrder_example = stream_chat-AskedInOrder gateway request vendor provider refl

stream_chat-FromOneCall_example :
    FromOneCall provider gateway.chat_timeouts request 0 (stream_chat gateway request)
stream_chat-FromOneCall_example = stream_chat-FromOneCall gateway request vendor provider refl

-- One call fails and is retried; the second one is told, and its usage is estimated.
second_call_told :
    ((stream_chat gateway request).asked ≡ codes "m1" ∷ codes "m1" ∷ [])
    × ((stream_chat gateway request).slept ≡ 1000 ∷ [])
    × (told (stream_chat gateway request).deltas ≡ text_delta (codes "hi") ∷ [])
    × (length (stream_chat gateway request).deltas ≡ 3)
unfolding stream_chat stream_response
second_call_told = (refl, refl, refl, refl)

iterate_bounds_example :
    (iterate
      (record { connect = 1; ttft = 500; total = 2500 })
      true
      0
      (play (text_delta (codes "a") ∷ text_delta (codes "b") ∷ []) stop)).waited
    ≤ 2500
iterate_bounds_example =
    iterate_bounds (record { connect = 1; ttft = 500; total = 2500 })
      (play (text_delta (codes "a") ∷ text_delta (codes "b") ∷ []) stop)

-- A count that is null breaks the stream once the whole answer is out.
null_usage_breaks :
    parse_lines plain_python vendor starting null_lines over
    ≡ record { deltas = text_delta (codes "hi") ∷ []; finish = breaks }
unfolding parse_lines
null_usage_breaks = refl
