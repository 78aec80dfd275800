-- ===== src/Gateway/Stream/Guarantees.antt =====
-- What the callers of `stream_chat` of backend/ai/gateway/__init__.py rely on.
use lumina_ai.Prelude.{
  ℕ, ◌+◌, ◌≤◌, ◌≡◌, inl, inr, refl, ◌∙◌, true, false, some, List, [], arith, Bool-cases,
}
use lumina_ai.Prelude.Texts.{Text}
use lumina_ai.Gateway.Chat.{ProviderError, is_retryable, ChatRequest, ChatTimeouts, Delta}
use lumina_ai.Gateway.Stream.{
  Answer, Ending, ended, raised, StreamState, Attempt, Streamed, interrupted, conclude, call,
  stream_chat, ChatGateway, heard_from, fresh_state, estimated_usage,
}
use lumina_ai.Gateway.Stream.Attempts.{
  Fresh, Handed, seen, is_closed, usages, reported_usages, attempt-Handed, attempt_unstarted,
  loops_induction,
}

-- A stream that ended well has one usage and is closed; one that raised has nothing.
abbrev pub Kept : List Delta → Ending → Type 0
Kept deltas ended = (is_closed deltas ≡ true) × (usages deltas ≡ 1)
Kept deltas (raised e) = deltas ≡ []

-- No call of the provider reports more than one usage before it is done.
abbrev pub ReportsOnce : (ℕ → ChatRequest → List Answer) → ChatTimeouts → ChatRequest → Type 0
ReportsOnce provider timeouts request =
    (k : ℕ) (model : Text)
    → reported_usages (heard_from provider timeouts request k model).deltas ≤ 1

interrupted_tail :
    (request : ChatRequest) (st : StreamState) (e : ProviderError)
    → (is_closed (interrupted request st e) ≡ true)
      × (usages (interrupted request st e) + seen st ≡ 1)
unfolding interrupted
interrupted_tail request st e = ground arith

conclude-Kept :
    (request : ChatRequest) (m : Text) (delay : ℕ) (st : StreamState) (a : Attempt)
    (retry : ProviderError → Streamed)
    → st.usage_seen ≡ false
    → Handed st a a.ending
    → (a.state.started ≡ false → a.deltas ≡ [])
    → (a.state.started ≡ false
        → (e : ProviderError) → is_retryable e ≡ true
        → Kept (retry e).deltas (retry e).ending)
    → Kept (conclude request m delay a retry).deltas (conclude request m delay a retry).ending
unfolding conclude interrupted estimated_usage
conclude-Kept request m delay st a retry unseen handed quiet kept = go a.ending refl handed
  where
    go :
        (ending : Ending)
        → a.ending ≡ ending
        → Handed st a ending
        → Kept (conclude request m delay a retry).deltas (conclude request m delay a retry).ending
    go ended e h = rw (e, conclude) (h.0, ground (arith, h.1, unseen))
    go (raised x) e h = elim (Bool-cases a.state.started) [
      | inl on ↦
          rw (e, on, conclude)
            (let (closed, one) = interrupted_tail request a.state x in
              let (same, counted) = h (interrupted request a.state x) in
              (same ∙ closed, ground (arith, counted, one, unseen)))
      | inr off ↦ elim (Bool-cases (is_retryable x)) [
        | inl again ↦ rw (e, off, again, quiet off, conclude) (kept off x again)
        | inr final ↦ rw (e, off, final, quiet off, conclude) refl
      ]
    ]

module _ (provider : ℕ → ChatRequest → List Answer) (timeouts : ChatTimeouts)
    (request : ChatRequest) (once : ReportsOnce provider timeouts request) where
  call-Kept :
      (m : Text) (ms : List Text) (k : ℕ) (st : StreamState) (delay : ℕ)
      (retry : ProviderError → Streamed)
      → Fresh st
      → ((call provider timeouts request st k m).state.started ≡ false
          → (e : ProviderError) → is_retryable e ≡ true
          → Kept (retry e).deltas (retry e).ending)
      → Kept
          (conclude request m delay (call provider timeouts request st k m) retry).deltas
          (conclude request m delay (call provider timeouts request st k m) retry).ending
  call-Kept m ms k st delay retry fresh kept =
      let heard = heard_from provider timeouts request k m in
      let asked : ChatRequest = record request { model = m } in
      let st' : StreamState = record st { model = m } in
      conclude-Kept request m delay st' (call provider timeouts request st k m) retry fresh.1
        (attempt-Handed asked st' heard.deltas heard.ending (ground (arith, once k m, fresh.1)))
        (λ off. (attempt_unstarted asked st' heard.deltas heard.ending off).0) kept

-- Whatever the answers of a provider none of whose calls reports its usage twice before it is
-- done: a call of `stream_chat` either raises an error and has yielded nothing, or it ends and has
-- yielded exactly one usage, its last delta is the only one that is `done` or an error.
pub stream_chat_lem :
    (g : ChatGateway) (request : ChatRequest) (name : Text)
    (provider : ℕ → ChatRequest → List Answer)
    → g.chat ≡ some (name, provider)
    → ReportsOnce provider g.chat_timeouts request
    → Kept (stream_chat g request).deltas (stream_chat g request).ending
unfolding stream_chat
stream_chat_lem g request name provider found once =
    rw (found, stream_chat)
      (loops_induction provider g.chat_timeouts request g.backoff
        (λ left k r. Kept r.deltas r.ending) (λ k e again. refl)
        (call-Kept provider g.chat_timeouts request once) request.model g.chat_fallback_models
        (fresh_state name) (refl, refl))
