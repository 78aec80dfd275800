-- ===== src/Conversation/Turn.antt =====
-- `ChatService.generate` of backend/services/conversation/chat.py: an answer is streamed into the
-- buffer of its events, saved and paid for.
--
-- The deltas of the gateway come with the moments at which they arrive, and with what happens to
-- the turn then. A task is cancelled once at most, and not during the call of `_persist`. The traces,
-- the statistics and the items of the citations, the model and the version of the prompt are left out.
pub mod Finished
pub mod Saving
pub mod Streamed
use lumina_ai.Prelude.{
  ℕ, zero, suc, ◌+◌, Bool, true, false, Option, none, some, List, [], ◌∷◌, ◌++◌, leb, if◌then◌else◌,
}
use lumina_ai.Prelude.Int.{ℤ, pos}
use lumina_ai.Prelude.Texts.{Text, codes, is_empty}
use lumina_ai.Etl.Tokens.{estimate_tokens}
use lumina_ai.Gateway.Chat.{
  ProviderError, rate_limited, model_not_enabled, ChatMessage, ProviderDelta, text_delta,
  tool_call_delta, usage_delta, done_delta, Delta, passed, error_delta, billable_output_tokens,
  Usage,
}
use lumina_ai.Gateway.Stream.{Ending, ended, raised}

-- The codes of core/exceptions.py that a turn ends with.
pub data Code : Type 0 where
  provider_unavailable rate_limit model_missing stream_interrupted internal_error : Code

unfoldable pub code_of : ProviderError → Code
code_of rate_limited = rate_limit
code_of model_not_enabled = model_missing
code_of _ = provider_unavailable

-- The usage of a message: an empty one is `none`.
pub record Counts : Type 0 where
  pub prompt_tokens : ℤ
  pub completion_tokens : ℤ
  pub estimated : Bool

pub data Status : Type 0 where
  completed interrupted failed : Status

-- What `_persist` writes.
pub record Saved : Type 0 where
  pub status : Status
  pub content : Text
  pub usage : Option Counts
  pub error : Option Code

pub data Event : Type 0 where
  meta citations : Event
  delta : Text → Event
  usage_event : Counts → Event
  tool_call : Text → Event
  closed : Text → Event
  error_event : Code → Event

-- What the turn has done; `tries` counts the calls of `_persist`.
pub record Run : Type 0 where
  pub text : List Text
  pub usage : Option Counts
  pub checked_at : ℕ
  pub events : List Event
  pub rows : List Saved
  pub recorded : List Counts
  pub settled : List (Option Counts)
  pub tries : ℕ
  pub released : ℕ

pub record Prepared : Type 0 where
  pub messages : List ChatMessage
  pub retrieved : Bool

-- Where the steps after the message is saved break off, if they do.
pub data Stage : Type 0 where
  nothing_raises settle_raises citations_raise last_event_raises : Stage

-- Which calls of `_persist` succeed, where the steps after them break off, and whether it is a
-- cancellation that breaks them off.
pub record Env : Type 0 where
  pub persists : ℕ → Bool
  pub stage : ℕ → Stage
  pub cancels : ℕ → Bool

-- What happens to a round: nothing, a cancellation while the delta is awaited, or its event is not
-- written.
pub data Fault : Type 0 where
  fine cancelled append_raises append_cancelled : Fault

-- `stop_requested` is what the flag reads as, `none` when reading it raises.
pub record Tick : Type 0 where
  pub delta : Delta
  pub now : ℕ
  pub stop_requested : Option Bool
  pub fault : Fault

-- How the body of the `try` goes on: it returns, an exception or a cancellation leaves it.
pub data Body : Type 0 where
  returned threw cancelled_at : Run → Body
  provider_threw : ProviderError → Run → Body

-- In microseconds.
abbrev pub stop_poll : ℕ
stop_poll = 200000

abbrev pub concat : List Text → Text
concat [] = []
concat (t ∷ ts) = t ++ concat ts

abbrev pub emit : Event → Run → Run
emit e r = record r { events = r.events ++ e ∷ [] }

abbrev pub usage_or : Option Counts → Option Counts → Option Counts
usage_or none other = other
usage_or (some u) other = some u

abbrev sum_estimates : List ChatMessage → ℕ
sum_estimates [] = 0
sum_estimates (m ∷ ms) = estimate_tokens m.content + sum_estimates ms

abbrev any_text : List Text → Bool
any_text [] = false
any_text (t ∷ ts) = if is_empty t then any_text ts else true

-- `_estimated_usage`.
unfoldable pub estimated_usage : Option Prepared → List Text → Option Counts
unfolding estimate_tokens
estimated_usage none text = none
estimated_usage (some p) text =
    if any_text text
    then some (record {
      prompt_tokens = pos (sum_estimates p.messages);
      completion_tokens = pos (estimate_tokens (concat text));
      estimated = true;
    })
    else none

-- `_emit_citations`.
abbrev pub emit_citations : Option Prepared → Run → Run
emit_citations none r = r
emit_citations (some p) r = if p.retrieved then emit citations r else r

abbrev pub settle : Option Counts → Run → Run
settle usage r = record r { settled = usage ∷ r.settled }

-- The guarded steps after the message is saved.
abbrev pub close_with : Stage → Option Prepared → Option Counts → Event → Run → Run
close_with nothing_raises p usage last r = emit last (emit_citations p (settle usage r))
close_with settle_raises p usage last r = r
close_with citations_raise p usage last r = settle usage r
close_with last_event_raises p usage last r = emit_citations p (settle usage r)

abbrev pub record_usage : Option Counts → Run → Run
record_usage none r = r
record_usage (some u) r = record r { recorded = u ∷ r.recorded }

-- `_persist` and the steps after it: an exception in these goes no further, a cancellation does.
abbrev pub persist : Env → Saved → (Run → Run) → Run → Body
persist env row after r =
    if env.persists r.tries
    then (if env.cancels r.tries
        then cancelled_at (after (record r { rows = row ∷ r.rows; tries = suc r.tries }))
        else returned (after (record r { rows = row ∷ r.rows; tries = suc r.tries })))
    else threw (record r { tries = suc r.tries })

abbrev pub row_of : Status → Option Counts → Option Code → Run → Saved
row_of status usage error r = record {
  status = status;
  content = concat r.text;
  usage = usage;
  error = error;
}

abbrev pub after_complete : Stage → Option Prepared → Text → Option Counts → Run → Run
after_complete stage p reason usage r =
    close_with stage p usage (closed reason) (record_usage usage r)

abbrev pub after_fail : Stage → Option Prepared → Code → Run → Run
after_fail stage p code r = close_with stage p r.usage (error_event code) r

unfoldable pub complete : Env → Option Prepared → Text → Status → Option Counts → Run → Body
complete env p reason status usage r =
    persist env (row_of status usage none r) (after_complete (env.stage r.tries) p reason usage) r

unfoldable pub fail : Env → Option Prepared → Code → Status → Run → Body
fail env p code status r =
    persist env (row_of status r.usage (some code) r) (after_fail (env.stage r.tries) p code) r

abbrev pub counts_of : Usage → Counts
counts_of u = record {
  prompt_tokens = u.prompt_tokens;
  completion_tokens = billable_output_tokens u;
  estimated = false;
}

-- What is kept of a delta before its event is written, and the event.
abbrev pub kept : ProviderDelta → Run → Run
kept (text_delta t) r = record r { text = r.text ++ t ∷ [] }
kept (usage_delta u) r = record r { usage = some (counts_of u) }
kept _ r = r

abbrev pub event_of : ProviderDelta → Event
event_of (text_delta t) = delta t
event_of (usage_delta u) = usage_event (counts_of u)
event_of (tool_call_delta c) = tool_call c.name
event_of (done_delta reason) = closed reason

abbrev pub write_event : Fault → ProviderDelta → Run → (Run → Body) → Body
write_event append_raises d r go_on = threw (kept d r)
write_event append_cancelled d r go_on = cancelled_at (kept d r)
write_event _ d r go_on = go_on (emit (event_of d) (kept d r))

-- One round of the loop, after the poll.
abbrev pub take_delta : Env → Option Prepared → Delta → Fault → Run → (Run → Body) → Body
take_delta env p (error_delta e) fault r go_on = fail env p stream_interrupted interrupted r
take_delta env p (passed (done_delta reason)) fault r go_on =
    complete env p reason completed r.usage r
take_delta env p (passed (text_delta t)) fault r go_on = write_event fault (text_delta t) r go_on
take_delta env p (passed (usage_delta u)) fault r go_on = write_event fault (usage_delta u) r go_on
take_delta env p (passed (tool_call_delta c)) fault r go_on =
    write_event fault (tool_call_delta c) r go_on

abbrev pub stop : Env → Option Prepared → Run → Body
stop env p r =
    complete env p (codes "stopped") interrupted (usage_or r.usage (estimated_usage p r.text)) r

abbrev pub after_poll : Env → Option Prepared → Option Bool → Tick → Run → (Run → Body) → Body
after_poll env p none t r go_on = threw r
after_poll env p (some true) t r go_on = stop env p r
after_poll env p (some false) t r go_on = take_delta env p t.delta t.fault r go_on

-- The poll of the flag: at most one in `stop_poll`.
abbrev pub polled : Env → Option Prepared → Tick → Run → (Run → Body) → Body
polled env p t r go_on =
    if leb (r.checked_at + stop_poll) t.now
    then after_poll env p t.stop_requested t (record r { checked_at = t.now }) go_on
    else take_delta env p t.delta t.fault r go_on

abbrev pub tick : Env → Option Prepared → Tick → Fault → Run → (Run → Body) → Body
tick env p t cancelled r go_on = cancelled_at r
tick env p t _ r go_on = polled env p t r go_on

abbrev pub after_stream : Ending → Run → Body
after_stream ended r = returned r
after_stream (raised e) r = provider_threw e r

unfoldable pub stream : Env → Option Prepared → List Tick → Ending → Run → Body
unfolding complete fail estimated_usage
stream env p [] ending r = after_stream ending r
stream env p (t ∷ ts) ending r = tick env p t t.fault r (λ s. stream env p ts ending s)

abbrev pub run_of : Body → Run
run_of (returned r) = r
run_of (threw r) = r
run_of (cancelled_at r) = r
run_of (provider_threw e r) = r

-- The handlers of `_generate`; an exception in a handler goes out, and so does the cancellation.
unfoldable pub handled : Env → Option Prepared → Body → Run
unfolding fail code_of
handled env p (returned r) = r
handled env p (threw r) = run_of (fail env p internal_error failed r)
handled env p (cancelled_at r) = run_of (fail env p stream_interrupted interrupted r)
handled env p (provider_threw e r) = run_of (fail env p (code_of e) failed r)

-- What comes of `compose` and of the first event.
pub data Composed : Type 0 where
  composed meta_raises meta_cancelled : Prepared → Composed
  not_composed compose_cancelled : Composed
  provider_refused : ProviderError → Composed

abbrev pub release : Run → Run
release r = record r { released = suc r.released }

unfoldable pub generate : Env → Composed → ℕ → List Tick → Ending → Run → Run
unfolding handled stream
generate env (composed p) started ticks ending r = release (
    handled env (some p)
      (stream env (some p) ticks ending (record (emit meta r) { checked_at = started })))
generate env (meta_raises p) started ticks ending r = release (handled env (some p) (threw r))
generate env (meta_cancelled p) started ticks ending r =
    release (handled env (some p) (cancelled_at r))
generate env not_composed started ticks ending r = release (handled env none (threw r))
generate env compose_cancelled started ticks ending r = release (handled env none (cancelled_at r))
generate env (provider_refused e) started ticks ending r =
    release (handled env none (provider_threw e r))

abbrev pub new_run : Run
new_run = record {
  text = [];
  usage = none;
  checked_at = 0;
  events = [];
  rows = [];
  recorded = [];
  settled = [];
  tries = 0;
  released = 0;
}
