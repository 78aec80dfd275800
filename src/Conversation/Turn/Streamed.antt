-- ===== src/Conversation/Turn/Streamed.antt =====
-- A turn of backend/services/conversation/chat.py over the gateway of backend/ai/gateway and its
-- adapter.
use lumina_ai.Prelude.{ℕ, ◌≡◌, false, refl, ap, ◌∙◌, true, some, List, length, map}
use lumina_ai.Prelude.Texts.{Text}
use lumina_ai.Gateway.Chat.{ChatRequest, Delta}
use lumina_ai.Gateway.Json.{Python}
use lumina_ai.Gateway.Sse.{Response, stream_response}
use lumina_ai.Gateway.Stream.{Answer, ChatGateway, stream_chat, Ending, ended, raised}
use lumina_ai.Gateway.Stream.Attempts.{is_closed}
use lumina_ai.Gateway.Stream.Guarantees.{Kept}
use lumina_ai.Gateway.Adapter.{items, adapter_stream_lem}
use lumina_ai.Conversation.Turn.{Env, Prepared, composed, Tick, generate, new_run}
use lumina_ai.Conversation.Turn.Finished.{is_whole, generate_lem}

Kept-is_whole :
    (deltas : List Delta) (ending : Ending) (ticks : List Tick)
    → Kept deltas ending
    → map (λ t. t.delta) ticks ≡ deltas
    → is_whole ticks ending ≡ true
Kept-is_whole deltas ended ticks kept same = ap is_closed same ∙ kept.0
Kept-is_whole deltas (raised e) ticks kept same = refl

-- A composed turn whose stream comes from the gateway over its adapter saves its message exactly once
-- if the first attempt to save it succeeds and no cancellation comes after it is saved, whatever the responses of the vendor, the moments at
-- which the deltas arrive, the stops, the cancellations and the events that are not written.
pub streamed_turn_is_saved :
    (py : Python) (g : ChatGateway) (request : ChatRequest) (vendor : Text)
    (provider : ℕ → ChatRequest → List Answer) (responses : ℕ → ChatRequest → Response) (env : Env)
    (p : Prepared) (started : ℕ) (ticks : List Tick)
    → g.chat ≡ some (vendor, provider)
    → ((k : ℕ) (q : ChatRequest)
        → items (provider k q) ≡ (stream_response py vendor (responses k q)).deltas)
    → map (λ t. t.delta) ticks ≡ (stream_chat g request).deltas
    → env.persists 0 ≡ true
    → ((k : ℕ) → env.cancels k ≡ false)
    → length (generate env (composed p) started ticks (stream_chat g request).ending new_run).rows
      ≡ 1
streamed_turn_is_saved py g request vendor provider responses env p started ticks found same told
      first calm =
    let kept = adapter_stream_lem py g request vendor provider responses found same in
    let whole = Kept-is_whole _ (stream_chat g request).ending ticks kept told in
    (generate_lem env (composed p) started ticks (stream_chat g request).ending calm).5 first whole
