-- ===== src/Gateway/Stream/Retries.antt =====
-- Which calls `stream_chat` of backend/ai/gateway/__init__.py makes, and for how long `_iterate`
-- waits for one.
use lumina_ai.Prelude.{
  ℕ, suc, ◌+◌, ◌-◌, ◌≤◌, ◌≡◌, inl, inr, refl, ap, ◌∙◌, true, false, some, List, [], ◌∷◌, ◌++◌,
  length, get_elem?, arith, Bool-cases, max,
}
use lumina_ai.Prelude.Texts.{Text}
use lumina_ai.Gateway.Chat.{
  ProviderError, is_retryable, ChatRequest, ChatTimeouts, ProviderDelta, text_delta,
  tool_call_delta, usage_delta, done_delta, Delta, passed, error_delta,
}
use lumina_ai.Gateway.Stream.{
  Answer, item, stop, times_out, breaks, fails, Ending, ended, raised, StreamState, Attempt,
  attempt, Streamed, interrupted, conclude, call, stream_chat, ChatGateway, heard_from, fresh_state,
  estimated_usage, iterate, noted, Next, Iteration, heard,
}
use lumina_ai.Gateway.Stream.Attempts.{attempt_unstarted, loops_induction, schedule}

-- The calls are a beginning of the schedule, and an error that can be retried is raised only at its
-- end.
abbrev pub AskedInOrder : List Text → Streamed → Type 0
AskedInOrder scheduled r =
    (rest : List Text) × (scheduled ≡ r.asked ++ rest)
    × ((e : ProviderError) → r.ending ≡ raised e → is_retryable e ≡ true → rest ≡ [])

conclude-AskedInOrder :
    (request : ChatRequest) (m : Text) (ms : List Text) (delay : ℕ) (a : Attempt)
    (retry : ProviderError → Streamed)
    → (a.state.started ≡ false
        → (e : ProviderError) → is_retryable e ≡ true
        → AskedInOrder ms (retry e))
    → AskedInOrder (m ∷ ms) (conclude request m delay a retry)
unfolding conclude
conclude-AskedInOrder request m ms delay a retry kept = go a.ending refl
  where
    go :
        (ending : Ending)
        → a.ending ≡ ending
        → AskedInOrder (m ∷ ms) (conclude request m delay a retry)
    go ended e = rw (e, conclude) (ms, refl, λ x raised_x again. cc)
    go (raised x) e = elim (Bool-cases a.state.started) [
      | inl on ↦ rw (e, on, conclude) (ms, refl, λ x raised_x again. cc)
      | inr off ↦ elim (Bool-cases (is_retryable x)) [
        | inl again ↦
            let (rest, split, last) = kept off x again in
            rw (e, off, again, conclude) (rest, ap (λ l. m ∷ l) split, last)
        | inr final ↦ rw (e, off, final, conclude) (ms, refl, λ y raised_y again. cc)
      ]
    ]

-- The calls of `stream_chat` are a beginning of the schedule: each model as often as there are delays
-- and once more, the fallback models after the requested one. An error that can be retried is raised
-- only if the calls are the whole schedule.
pub stream_chat-AskedInOrder :
    (g : ChatGateway) (request : ChatRequest) (name : Text)
    (provider : ℕ → ChatRequest → List Answer)
    → g.chat ≡ some (name, provider)
    → AskedInOrder
        (schedule g.backoff (request.model ∷ g.chat_fallback_models))
        (stream_chat g request)
unfolding stream_chat
stream_chat-AskedInOrder g request name provider found =
    rw (found, stream_chat)
      (loops_induction provider g.chat_timeouts request g.backoff (λ left k r. AskedInOrder left r)
        (λ k e again. ([], refl, λ x raised_x again. refl))
        (λ m ms k st delay retry fresh kept.
          conclude-AskedInOrder request m ms delay (call provider g.chat_timeouts request st k m)
            retry kept)
        request.model g.chat_fallback_models (fresh_state name) (refl, refl))

-- What a provider says before it is done: its texts and tool calls.
abbrev pub spoken : List ProviderDelta → List ProviderDelta
spoken [] = []
spoken (done_delta r ∷ ds) = []
spoken (text_delta t ∷ ds) = text_delta t ∷ spoken ds
spoken (tool_call_delta t ∷ ds) = tool_call_delta t ∷ spoken ds
spoken (usage_delta t ∷ ds) = spoken ds

-- What the caller is told.
abbrev pub told : List Delta → List ProviderDelta
told [] = []
told (passed (text_delta t) ∷ ds) = text_delta t ∷ told ds
told (passed (tool_call_delta t) ∷ ds) = tool_call_delta t ∷ told ds
told (passed (usage_delta u) ∷ ds) = told ds
told (passed (done_delta r) ∷ ds) = told ds
told (error_delta e ∷ ds) = told ds

told-append : (ds es : List Delta) → told es ≡ [] → told (ds ++ es) ≡ told ds
told-append [] es none_told = none_told
told-append (passed (text_delta t) ∷ ds) es none_told = rw (told-append ds es none_told)
told-append (passed (tool_call_delta t) ∷ ds) es none_told = rw (told-append ds es none_told)
told-append (passed (usage_delta u) ∷ ds) es none_told = told-append ds es none_told
told-append (passed (done_delta r) ∷ ds) es none_told = told-append ds es none_told
told-append (error_delta e ∷ ds) es none_told = told-append ds es none_told

told-interrupted :
    (request : ChatRequest) (st : StreamState) (e : ProviderError)
    → told (interrupted request st e) ≡ []
unfolding interrupted
told-interrupted request st e = ground arith

told-attempt :
    (request : ChatRequest) (st : StreamState) (ds : List ProviderDelta) (ending : Ending)
    → told (attempt request st ds ending).deltas ≡ spoken ds
unfolding attempt
told-attempt request st [] ending = refl
told-attempt request st (done_delta r ∷ ds) ending = ground arith
told-attempt request st (text_delta t ∷ ds) ending =
    rw (told-attempt request (noted (text_delta t) st) ds ending)
told-attempt request st (tool_call_delta t ∷ ds) ending =
    rw (told-attempt request (noted (tool_call_delta t) st) ds ending)
told-attempt request st (usage_delta t ∷ ds) ending =
    told-attempt request (noted (usage_delta t) st) ds ending

-- Of the calls from number `k` on, the last one alone is what the caller is told.
abbrev pub FromOneCall :
    (ℕ → ChatRequest → List Answer) → ChatTimeouts → ChatRequest → ℕ → Streamed → Type 0
FromOneCall provider timeouts request k r =
    r.ending ≡ ended
    → (j : ℕ) × (m : Text) × (suc j ≡ length r.asked)
      × (get_elem? r.asked j ≡ some m)
      × (told r.deltas ≡ spoken (heard_from provider timeouts request (k + j) m).deltas)

module _ (provider : ℕ → ChatRequest → List Answer) (timeouts : ChatTimeouts)
    (request : ChatRequest) where
  conclude-FromOneCall :
      (m : Text) (k delay : ℕ) (a : Attempt) (retry : ProviderError → Streamed)
      → told a.deltas ≡ spoken (heard_from provider timeouts request k m).deltas
      → (a.state.started ≡ false → a.deltas ≡ [])
      → (a.state.started ≡ false
          → (e : ProviderError) → is_retryable e ≡ true
          → FromOneCall provider timeouts request (suc k) (retry e))
      → FromOneCall provider timeouts request k (conclude request m delay a retry)
  unfolding conclude interrupted estimated_usage
  conclude-FromOneCall m k delay a retry said quiet kept = go a.ending refl
    where
      from_here :
          (ds : List Delta)
          → told ds ≡ told a.deltas
          → told ds ≡ spoken (heard_from provider timeouts request (k + 0) m).deltas
      from_here ds same =
          let same_k : k ≡ k + 0 = omega arith in
          same ∙ said ∙ ap (λ n. spoken (heard_from provider timeouts request n m).deltas) same_k

      go :
          (ending : Ending)
          → a.ending ≡ ending
          → FromOneCall provider timeouts request k (conclude request m delay a retry)
      go ended e = rw (e, conclude) (λ done. (0, m, refl, refl, from_here a.deltas refl))
      go (raised x) e = elim (Bool-cases a.state.started) [
        | inl on ↦
            rw (e, on, conclude)
              (λ done. (
                0,
                m,
                refl,
                refl,
                from_here (a.deltas ++ interrupted request a.state x) (
                    told-append a.deltas (interrupted request a.state x)
                      (told-interrupted request a.state x)),
              ))
        | inr off ↦ elim (Bool-cases (is_retryable x)) [
          | inl again ↦
              rw (e, off, again, quiet off, conclude)
                (λ done.
                  let (j, m', counted, at_j, same) = kept off x again done in
                  let next : suc k + j ≡ k + suc j = omega arith in
                  (
                    suc j,
                    m',
                    ap suc counted,
                    at_j,
                    same ∙ ap (λ n. spoken (heard_from provider timeouts request n m').deltas) next,
                  ))
          | inr final ↦ rw (e, off, final, conclude) (λ done. cc)
        ]
      ]

-- A stream that does not raise tells its caller, between the first and the last delta, the texts
-- and the tool calls of one call of the provider, the last one: nothing of an earlier one.
pub stream_chat-FromOneCall :
    (g : ChatGateway) (request : ChatRequest) (name : Text)
    (provider : ℕ → ChatRequest → List Answer)
    → g.chat ≡ some (name, provider)
    → FromOneCall provider g.chat_timeouts request 0 (stream_chat g request)
unfolding stream_chat
stream_chat-FromOneCall g request name provider found =
    rw (found, stream_chat)
      (loops_induction provider g.chat_timeouts request g.backoff
        (λ left k r. FromOneCall provider g.chat_timeouts request k r) (λ k e again done. cc)
        (λ m ms k st delay retry fresh kept.
          let heard = heard_from provider g.chat_timeouts request k m in
          let asked : ChatRequest = record request { model = m } in
          let st' : StreamState = record st { model = m } in
          conclude-FromOneCall provider g.chat_timeouts request m k delay
            (call provider g.chat_timeouts request st k m) retry
            (told-attempt asked st' heard.deltas heard.ending)
            (λ off. (attempt_unstarted asked st' heard.deltas heard.ending off).0) kept)
        request.model g.chat_fallback_models (fresh_state name) (refl, refl))

heard_waits :
    (next : Next) (wait : ℕ) (more : Iteration) → (heard next wait more).waited ≤ wait + more.waited
heard_waits (item d) wait more = omega arith
heard_waits stop wait more = omega arith
heard_waits times_out wait more = omega arith
heard_waits breaks wait more = omega arith
heard_waits (fails e) wait more = omega arith

iterate_waits :
    (timeouts : ChatTimeouts) (spent : ℕ) (answers : List Answer)
    → (iterate timeouts false spent answers).waited ≤ timeouts.total - spent
unfolding iterate
iterate_waits timeouts spent [] = omega arith
iterate_waits timeouts spent (a ∷ rest) =
    let more = iterate timeouts false (spent + a.gap + a.wait) rest in
    ground
      (arith, heard_waits a.next a.wait more, iterate_waits timeouts (spent + a.gap + a.wait) rest)

-- The waits for the deltas of one call add up to at most the longer of the time to the first delta
-- and the time for the whole, however long the caller takes in between.
pub iterate_bounds :
    (timeouts : ChatTimeouts) (answers : List Answer)
    → (iterate timeouts true 0 answers).waited ≤ max timeouts.ttft timeouts.total
unfolding iterate
iterate_bounds timeouts [] = omega arith
iterate_bounds timeouts (a ∷ rest) =
    let more = iterate timeouts false (0 + a.gap + a.wait) rest in
    ground (arith, heard_waits a.next a.wait more, iterate_waits timeouts (0 + a.gap + a.wait) rest)
