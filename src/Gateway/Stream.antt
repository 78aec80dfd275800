-- ===== src/Gateway/Stream.antt =====
-- `AIGateway.stream_chat` of backend/ai/gateway/__init__.py.
--
-- A generator is what it yields, in order, and how it ends; a caller that leaves early sees a
-- beginning of it. What the provider does is a list of answers to `__anext__`, each with the
-- time that the caller took before it asked and the time that the provider then takes, in
-- microseconds; after the last one it is silent. An answer just at the limit is in time.
pub mod Attempts
pub mod Guarantees
pub mod Retries
use lumina_ai.Prelude.{
  ℕ, zero, suc, ◌+◌, ◌-◌, ◌/◌, max, Bool, true, false, not, Option, none, some, List, [], ◌∷◌, ◌++◌,
  map, length, ltb, ◌==◌, if◌then◌else◌,
}
use lumina_ai.Prelude.Int.{pos}
use lumina_ai.Prelude.Texts.{Text, is_empty}
use lumina_ai.Gateway.Chat.{
  ProviderError, timeout, unavailable, is_retryable, ChatRequest, ChatMessage, ChatTimeouts, Usage,
  ProviderDelta, text_delta, tool_call_delta, usage_delta, done_delta, Delta, passed, error_delta,
}

-- A delta, `StopAsyncIteration`, a bare `TimeoutError`, another exception, a `ProviderError`.
pub data Next : Type 0 where
  item : ProviderDelta → Next
  stop times_out breaks : Next
  fails : ProviderError → Next

pub record Answer : Type 0 where
  pub gap : ℕ
  pub wait : ℕ
  pub next : Next

pub data Ending : Type 0 where
  ended : Ending
  raised : ProviderError → Ending

-- What a generator of the provider's deltas did, and for how long the provider was waited for.
pub record Iteration : Type 0 where
  pub deltas : List ProviderDelta
  pub ending : Ending
  pub waited : ℕ

abbrev pub stopped : ℕ → Ending → Iteration
stopped waited ending = record { deltas = []; ending = ending; waited = waited }

-- `budget`: the time to the first delta, then what is left of the whole.
abbrev pub budget_of : ChatTimeouts → Bool → ℕ → ℕ
budget_of timeouts true asked = timeouts.ttft
budget_of timeouts false asked = timeouts.total - asked

abbrev pub heard : Next → ℕ → Iteration → Iteration
heard (item d) wait more = record {
  deltas = d ∷ more.deltas;
  ending = more.ending;
  waited = wait + more.waited;
}
heard stop wait more = stopped wait ended
heard times_out wait more = stopped wait (raised timeout)
heard breaks wait more = stopped wait (raised unavailable)
heard (fails e) wait more = stopped wait (raised e)

-- `_iterate`; `spent` is the time since the start.
unfoldable pub iterate : ChatTimeouts → Bool → ℕ → List Answer → Iteration
iterate timeouts first spent [] = stopped (budget_of timeouts first spent) (raised timeout)
iterate timeouts first spent (a ∷ rest) =
    let asked = spent + a.gap in
    let budget = budget_of timeouts first asked in
    let more = iterate timeouts false (asked + a.wait) rest in
    if budget == 0
    then stopped 0 (raised timeout)
    else if ltb budget a.wait
    then stopped budget (raised timeout)
    else heard a.next a.wait more

-- `_StreamState`, without the request.
pub record StreamState : Type 0 where
  pub provider : Text
  pub model : Text
  pub started : Bool
  pub usage_seen : Bool
  pub completion_chars : ℕ

abbrev pub chars_per_token : ℕ
chars_per_token = 4

abbrev pub sum_chars : List ChatMessage → ℕ
sum_chars [] = 0
sum_chars (m ∷ ms) = length m.content + sum_chars ms

unfoldable pub estimated_usage : ChatRequest → StreamState → Usage
estimated_usage request st = record {
  prompt_tokens = pos (max 1 (sum_chars request.messages / chars_per_token));
  completion_tokens = pos (max 1 (st.completion_chars / chars_per_token));
  model = if is_empty st.model then request.model else st.model;
  provider = st.provider;
  reasoning_tokens = pos 0;
  estimated = true;
}

abbrev pub estimate_unless_seen : ChatRequest → StreamState → List Delta
estimate_unless_seen request st =
    if st.usage_seen then [] else passed (usage_delta (estimated_usage request st)) ∷ []

unfoldable pub interrupted : ChatRequest → StreamState → ProviderError → List Delta
interrupted request st e = estimate_unless_seen request st ++ error_delta e ∷ []

pub record Attempt : Type 0 where
  pub deltas : List Delta
  pub state : StreamState
  pub ending : Ending

-- What `_attempt` writes down about a delta that it hands on.
abbrev pub noted : ProviderDelta → StreamState → StreamState
noted (text_delta t) st = record st {
  started = true;
  completion_chars = st.completion_chars + length t;
}
noted (usage_delta u) st = record st { started = true; usage_seen = true }
noted _ st = record st { started = true }

-- The end of a stream without `done`.
abbrev pub broken_off : Ending → Ending
broken_off ended = raised unavailable
broken_off (raised e) = raised e

-- `_attempt`, on the deltas of `_iterate`.
unfoldable pub attempt : ChatRequest → StreamState → List ProviderDelta → Ending → Attempt
attempt request st [] ending = record { deltas = []; state = st; ending = broken_off ending }
attempt request st (done_delta reason ∷ rest) ending = record {
  deltas = estimate_unless_seen request st ++ passed (done_delta reason) ∷ [];
  state = record st { started = true };
  ending = ended;
}
attempt request st (text_delta t ∷ rest) ending =
    let more = attempt request (noted (text_delta t) st) rest ending in
    record more { deltas = passed (text_delta t) ∷ more.deltas }
attempt request st (tool_call_delta c ∷ rest) ending =
    let more = attempt request (noted (tool_call_delta c) st) rest ending in
    record more { deltas = passed (tool_call_delta c) ∷ more.deltas }
attempt request st (usage_delta u ∷ rest) ending =
    let more = attempt request (noted (usage_delta u) st) rest ending in
    record more { deltas = passed (usage_delta u) ∷ more.deltas }

-- What a call of `stream_chat` yields and how it ends, the models it asked and how long it slept.
pub record Streamed : Type 0 where
  pub deltas : List Delta
  pub ending : Ending
  pub asked : List Text
  pub slept : List ℕ

abbrev pub slept_for : ℕ → List ℕ → List ℕ
slept_for delay rest = if delay == 0 then rest else delay ∷ rest

abbrev pub failed_with : ProviderError → Streamed
failed_with e = record { deltas = []; ending = raised e; asked = []; slept = [] }

abbrev pub after_retry : Text → ℕ → List Delta → Streamed → Streamed
after_retry model delay deltas rest = record {
  deltas = deltas ++ rest.deltas;
  ending = rest.ending;
  asked = model ∷ rest.asked;
  slept = slept_for delay rest.slept;
}

-- The handler of a failed attempt; `retry` is the rest of the loops.
abbrev pub after_failure :
    ChatRequest → Text → ℕ → Attempt → (ProviderError → Streamed) → ProviderError → Streamed
after_failure request model delay a retry e =
    if a.state.started
    then record {
      deltas = a.deltas ++ interrupted request a.state e;
      ending = ended;
      asked = model ∷ [];
      slept = [];
    }
    else if is_retryable e
    then after_retry model delay a.deltas (retry e)
    else record { deltas = a.deltas; ending = raised e; asked = model ∷ []; slept = [] }

unfoldable pub conclude : ChatRequest → Text → ℕ → Attempt → (ProviderError → Streamed) → Streamed
unfolding interrupted is_retryable
conclude request model delay a retry = elim a.ending [
  | ended ↦ record { deltas = a.deltas; ending = ended; asked = model ∷ []; slept = [] }
  | raised e ↦ after_failure request model delay a retry e
]

-- The provider's answers to the calls, by the number of the call and the request.
module _ (provider : ℕ → ChatRequest → List Answer) (timeouts : ChatTimeouts)
    (request : ChatRequest) where
  abbrev pub heard_from : ℕ → Text → Iteration
  heard_from k model = iterate timeouts true 0 (provider k (record request { model = model }))

  abbrev pub call : StreamState → ℕ → Text → Attempt
  call st k model =
      let heard = heard_from k model in
      attempt (record request { model = model }) (record st { model = model }) heard.deltas
        heard.ending

  -- The loop over the attempts with one model: after the last one, `next_model` goes on.
  unfoldable pub try_model :
      Text → (StreamState → ℕ → ProviderError → Streamed) → List ℕ → StreamState → ℕ → Streamed
  unfolding attempt iterate conclude
  try_model model next_model [] st k =
      let a = call st k model in conclude request model 0 a (next_model a.state (suc k))
  try_model model next_model (delay ∷ delays) st k =
      let a = call st k model in
      conclude request model delay a (λ e. try_model model next_model delays a.state (suc k))

  -- The loop over the other models: after the last one the error is raised.
  unfoldable pub try_models : List ℕ → List Text → StreamState → ℕ → ProviderError → Streamed
  unfolding try_model
  try_models backoff [] st k e = failed_with e
  try_models backoff (m ∷ ms) st k e = try_model m (try_models backoff ms) backoff st k

abbrev pub fresh_state : Text → StreamState
fresh_state name = record {
  provider = name;
  model = [];
  started = false;
  usage_seen = false;
  completion_chars = 0;
}

pub record ChatGateway : Type 0 where
  pub chat : Option (Text × (ℕ → ChatRequest → List Answer))
  pub chat_timeouts : ChatTimeouts
  pub chat_fallback_models : List Text
  pub backoff : List ℕ

unfoldable pub stream_chat : ChatGateway → ChatRequest → Streamed
unfolding try_model try_models
stream_chat g request = elim g.chat [
  | none ↦ failed_with unavailable
  | some (name, provider) ↦
      try_model provider g.chat_timeouts request request.model
        (try_models provider g.chat_timeouts request g.backoff g.chat_fallback_models) g.backoff
        (fresh_state name) 0
]
