-- ===== src/Gateway/Adapter.antt =====
-- `stream_chat` of backend/ai/gateway/__init__.py over the adapter of
-- backend/ai/gateway/providers/openai_compatible.py.
use lumina_ai.Prelude.{
  ℕ, ◌+◌, ◌≤◌, ◌≡◌, inl, inr, Bool, true, false, some, List, [], ◌∷◌, arith, Bool-cases, ltb, ◌==◌,
}
use lumina_ai.Prelude.Texts.{Text}
use lumina_ai.Gateway.Chat.{
  ChatRequest, ChatTimeouts, ProviderDelta, text_delta, tool_call_delta, usage_delta, done_delta,
}
use lumina_ai.Gateway.Json.{Python}
use lumina_ai.Gateway.Sse.{Response, stream_response}
use lumina_ai.Gateway.Sse.Whole.{stream_response_usages}
use lumina_ai.Gateway.Stream.{
  Answer, Next, item, stop, times_out, breaks, fails, Iteration, heard, budget_of, iterate,
  stream_chat, ChatGateway,
}
use lumina_ai.Gateway.Stream.Attempts.{reported_usages}
use lumina_ai.Gateway.Stream.Guarantees.{Kept, stream_chat_lem}

abbrev pub item_then : Next → List ProviderDelta → List ProviderDelta
item_then (item d) rest = d ∷ rest
item_then _ rest = []

-- What a provider yields, at whatever times.
abbrev pub items : List Answer → List ProviderDelta
items [] = []
items (a ∷ rest) = item_then a.next (items rest)

heard_usages :
    (next : Next) (wait : ℕ) (more : Iteration) (ds : List ProviderDelta)
    → reported_usages more.deltas ≤ reported_usages ds
    → reported_usages (heard next wait more).deltas ≤ reported_usages (item_then next ds)
heard_usages (item (text_delta t)) wait more ds le = le
heard_usages (item (tool_call_delta t)) wait more ds le = le
heard_usages (item (usage_delta t)) wait more ds le = omega arith
heard_usages (item (done_delta r)) wait more ds le = omega arith
heard_usages stop wait more ds le = omega arith
heard_usages times_out wait more ds le = omega arith
heard_usages breaks wait more ds le = omega arith
heard_usages (fails e) wait more ds le = omega arith

iterate_usages :
    (timeouts : ChatTimeouts) (first : Bool) (spent : ℕ) (answers : List Answer)
    → reported_usages (iterate timeouts first spent answers).deltas
      ≤ reported_usages (items answers)
unfolding iterate
iterate_usages timeouts first spent [] = omega arith
iterate_usages timeouts first spent (a ∷ rest) =
    let asked = spent + a.gap in
    let more = iterate timeouts false (asked + a.wait) rest in
    let some_usages =
      heard_usages a.next a.wait more (items rest)
        (iterate_usages timeouts false (asked + a.wait) rest) in
    elim (Bool-cases (budget_of timeouts first asked == 0)) [
      | inl none_left ↦ rw (none_left, iterate) (omega arith)
      | inr left ↦ elim (Bool-cases (ltb (budget_of timeouts first asked) a.wait)) [
        | inl late ↦ rw (left, late, iterate) (omega arith)
        | inr in_time ↦ rw (left, in_time, iterate) some_usages
      ]
    ]

-- Over the adapter, whatever the responses, the times and the failures: a call of `stream_chat` either
-- raises an error and has yielded nothing, or it ends and has yielded exactly one usage, and its last
-- delta is the only one that is `done` or an error.
pub adapter_stream_lem :
    (py : Python) (g : ChatGateway) (request : ChatRequest) (vendor : Text)
    (provider : ℕ → ChatRequest → List Answer) (responses : ℕ → ChatRequest → Response)
    → g.chat ≡ some (vendor, provider)
    → ((k : ℕ) (q : ChatRequest)
        → items (provider k q) ≡ (stream_response py vendor (responses k q)).deltas)
    → Kept (stream_chat g request).deltas (stream_chat g request).ending
adapter_stream_lem py g request vendor provider responses found same =
    stream_chat_lem g request vendor provider found (λ k model.
      let q : ChatRequest = record request { model = model } in
      let le = iterate_usages g.chat_timeouts true 0 (provider k q) in
      let one = stream_response_usages py vendor (responses k q) in
      ground (arith, le, one, same k q))
