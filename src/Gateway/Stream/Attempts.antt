-- ===== src/Gateway/Stream/Attempts.antt =====
-- One attempt of `stream_chat`: what it hands on, and the loops over the attempts.
use lumina_ai.Prelude.{
  ℕ, suc, ◌+◌, ◌≤◌, ◌≡◌, refl, ap, ◌∙◌, Bool, true, false, List, [], ◌∷◌, ◌++◌, length, arith,
  if◌then◌else◌, replicate,
}
use lumina_ai.Prelude.Texts.{Text, is_empty}
use lumina_ai.Gateway.Chat.{
  ProviderError, is_retryable, ChatRequest, ChatTimeouts, ProviderDelta, text_delta,
  tool_call_delta, usage_delta, done_delta, Delta, passed, error_delta,
}
use lumina_ai.Gateway.Stream.{
  Answer, Ending, ended, raised, StreamState, Attempt, attempt, Streamed, failed_with, conclude,
  call, heard_from, try_model, try_models, noted,
}

abbrev pub is_closing : Delta → Bool
is_closing (passed (done_delta reason)) = true
is_closing (passed _) = false
is_closing (error_delta e) = true

-- The last delta is the first that is `done` or an error.
abbrev pub is_closed : List Delta → Bool
is_closed [] = false
is_closed (d ∷ ds) = if is_closing d then is_empty ds else is_closed ds

abbrev pub is_usage : ProviderDelta → ℕ
is_usage (usage_delta u) = 1
is_usage _ = 0

abbrev pub usages : List Delta → ℕ
usages [] = 0
usages (passed d ∷ ds) = is_usage d + usages ds
usages (error_delta e ∷ ds) = usages ds

-- The usages that a provider reports before it is done.
abbrev pub reported_usages : List ProviderDelta → ℕ
reported_usages [] = 0
reported_usages (done_delta r ∷ ds) = 0
reported_usages (usage_delta u ∷ ds) = suc (reported_usages ds)
reported_usages (_ ∷ ds) = reported_usages ds

abbrev pub Fresh : StreamState → Type 0
Fresh st = (st.started ≡ false) × (st.usage_seen ≡ false)

abbrev pub seen : StreamState → ℕ
seen st = if st.usage_seen then 1 else 0

-- What an attempt has handed on: either it is whole, or nothing closes it yet.
abbrev pub Handed : StreamState → Attempt → Ending → Type 0
Handed st a ended = (is_closed a.deltas ≡ true) × (usages a.deltas + seen st ≡ 1)
Handed st a (raised e) =
    (d : List Delta)
    → (is_closed (a.deltas ++ d) ≡ is_closed d)
      × (usages (a.deltas ++ d) + seen st ≡ seen a.state + usages d)

Handed-cons :
    (p : ProviderDelta) (st st' : StreamState) (a : Attempt) (ending : Ending)
    → is_closing (passed p) ≡ false
    → is_usage p + seen st ≡ seen st'
    → Handed st' a ending
    → Handed st (record a { deltas = passed p ∷ a.deltas }) ending
Handed-cons p st st' a ended open_delta counted (closed, one) = (rw open_delta closed, omega arith)
Handed-cons p st st' a (raised e) open_delta counted handed =
    λ d. (rw open_delta (handed d).0, omega (arith, (handed d).1))

pub attempt-Handed :
    (request : ChatRequest) (st : StreamState) (ds : List ProviderDelta) (ending : Ending)
    → reported_usages ds + seen st ≤ 1
    → Handed st (attempt request st ds ending) (attempt request st ds ending).ending
unfolding attempt
attempt-Handed request st [] ended one = λ d. (refl, omega arith)
attempt-Handed request st [] (raised e) one = λ d. (refl, omega arith)
attempt-Handed request st (done_delta r ∷ ds) ending one = ground arith
attempt-Handed request st (text_delta t ∷ ds) ending one =
    Handed-cons (text_delta t) st (noted (text_delta t) st)
      (attempt request (noted (text_delta t) st) ds ending) _ refl (omega arith)
      (attempt-Handed request (noted (text_delta t) st) ds ending one)
attempt-Handed request st (tool_call_delta t ∷ ds) ending one =
    Handed-cons (tool_call_delta t) st (noted (tool_call_delta t) st)
      (attempt request (noted (tool_call_delta t) st) ds ending) _ refl (omega arith)
      (attempt-Handed request (noted (tool_call_delta t) st) ds ending one)
attempt-Handed request st (usage_delta t ∷ ds) ending one =
    Handed-cons (usage_delta t) st (noted (usage_delta t) st)
      (attempt request (noted (usage_delta t) st) ds ending) _ refl (ground arith)
      (attempt-Handed request (noted (usage_delta t) st) ds ending (omega arith))

attempt_stays_started :
    (request : ChatRequest) (st : StreamState) (ds : List ProviderDelta) (ending : Ending)
    → st.started ≡ true
    → (attempt request st ds ending).state.started ≡ true
unfolding attempt
attempt_stays_started request st [] ending on = on
attempt_stays_started request st (done_delta r ∷ ds) ending on = refl
attempt_stays_started request st (text_delta t ∷ ds) ending on =
    attempt_stays_started request (noted (text_delta t) st) ds ending refl
attempt_stays_started request st (tool_call_delta t ∷ ds) ending on =
    attempt_stays_started request (noted (tool_call_delta t) st) ds ending refl
attempt_stays_started request st (usage_delta t ∷ ds) ending on =
    attempt_stays_started request (noted (usage_delta t) st) ds ending refl

-- An attempt that has not started has handed nothing on and changed nothing.
pub attempt_unstarted :
    (request : ChatRequest) (st : StreamState) (ds : List ProviderDelta) (ending : Ending)
    → (attempt request st ds ending).state.started ≡ false
    → ((attempt request st ds ending).deltas ≡ []) × ((attempt request st ds ending).state ≡ st)
unfolding attempt
attempt_unstarted request st [] ending off = (refl, refl)
attempt_unstarted request st (done_delta r ∷ ds) ending off = cc
attempt_unstarted request st (text_delta t ∷ ds) ending off =
    cc (attempt_stays_started request (noted (text_delta t) st) ds ending refl)
attempt_unstarted request st (tool_call_delta t ∷ ds) ending off =
    cc (attempt_stays_started request (noted (tool_call_delta t) st) ds ending refl)
attempt_unstarted request st (usage_delta t ∷ ds) ending off =
    cc (attempt_stays_started request (noted (usage_delta t) st) ds ending refl)

-- The models in the order in which they are asked.
abbrev pub schedule : List ℕ → List Text → List Text
schedule backoff [] = []
schedule backoff (m ∷ ms) = replicate (suc (length backoff)) m ++ schedule backoff ms

module _ (provider : ℕ → ChatRequest → List Answer) (timeouts : ChatTimeouts)
    (request : ChatRequest) (backoff : List ℕ) (P : List Text → ℕ → Streamed → Type 0)
    (base : (k : ℕ) (e : ProviderError) → is_retryable e ≡ true → P [] k (failed_with e))
    (step : (m : Text) (ms : List Text) (k : ℕ) (st : StreamState) (delay : ℕ)
        (retry : ProviderError → Streamed)
      → Fresh st
      → ((call provider timeouts request st k m).state.started ≡ false
          → (e : ProviderError) → is_retryable e ≡ true
          → P ms (suc k) (retry e))
      → P (m ∷ ms) k (conclude request m delay (call provider timeouts request st k m) retry)) where
  Fresh-again :
      (m : Text) (k : ℕ) (st : StreamState)
      → Fresh st
      → (call provider timeouts request st k m).state.started ≡ false
      → Fresh (call provider timeouts request st k m).state
  Fresh-again m k st fresh off =
      let heard = heard_from provider timeouts request k m in
      let same =
        (attempt_unstarted (record request { model = m }) (record st { model = m }) heard.deltas
          heard.ending off).1 in
      (off, ap (λ s. s.usage_seen) same ∙ fresh.1)

  try_model_induction :
      (m : Text) (ms : List Text) (next_model : StreamState → ℕ → ProviderError → Streamed)
      (delays : List ℕ) (k : ℕ) (st : StreamState)
      → Fresh st
      → ((k : ℕ) (st : StreamState) (e : ProviderError)
          → Fresh st
          → is_retryable e ≡ true
          → P ms k (next_model st k e))
      → P
          (replicate (suc (length delays)) m ++ ms)
          k
          (try_model provider timeouts request m next_model delays st k)
  unfolding try_model
  try_model_induction m ms next_model [] k st fresh next =
      step m ms k st 0 _ fresh
        (λ off e again. next (suc k) _ e (Fresh-again m k st fresh off) again)
  try_model_induction m ms next_model (d ∷ ds) k st fresh next =
      step m _ k st d _ fresh (λ off e again.
        try_model_induction m ms next_model ds (suc k) _ (Fresh-again m k st fresh off) next)

  try_models_induction :
      (ms : List Text) (k : ℕ) (st : StreamState) (e : ProviderError)
      → Fresh st
      → is_retryable e ≡ true
      → P (schedule backoff ms) k (try_models provider timeouts request backoff ms st k e)
  unfolding try_models
  try_models_induction [] k st e fresh again = base k e again
  try_models_induction (m ∷ ms) k st e fresh again =
      try_model_induction m (schedule backoff ms) (try_models provider timeouts request backoff ms)
        backoff k st fresh (λ k st e fresh again. try_models_induction ms k st e fresh again)

  -- What holds of each attempt and of the last error holds of all the loops.
  pub loops_induction :
      (m : Text) (ms : List Text) (st : StreamState)
      → Fresh st
      → P (schedule backoff (m ∷ ms)) 0 (
          try_model provider timeouts request m
            (try_models provider timeouts request backoff ms)
            backoff
            st
            0)
  loops_induction m ms st fresh =
      try_model_induction m (schedule backoff ms) (try_models provider timeouts request backoff ms)
        backoff 0 st fresh (λ k st e fresh again. try_models_induction ms k st e fresh again)
