-- ===== src/Gateway/Embed.antt =====
-- `AIGateway.embed` of backend/ai/gateway/__init__.py. What the adapter does in the call number `k`
-- is a parameter: a reply or an exception, and how long it took.
pub mod Calls
use lumina_ai.Prelude.{
  ℕ, zero, suc, ◌+◌, Bool, true, false, not, ◌||◌, Option, none, some, List, [], ◌∷◌, length, ltb,
  ◌==◌, if◌then◌else◌,
}
use lumina_ai.Prelude.Texts.{Text, is_empty}
use lumina_ai.Gateway.Stream.{slept_for}
use lumina_ai.Gateway.Chat.{ProviderError, timeout, unavailable, dimension_mismatch, is_retryable}

-- `ProviderEmbedding`; the vectors are of a type of floats.
pub record Embedding (Float : Type 0) : Type 0 where
  pub vectors : List (List Float)
  pub model : Text
  pub prompt_tokens : ℕ

-- A reply, a `ProviderError`, a bare `TimeoutError`, another exception.
pub data Reply (Float : Type 0) : Type 0 where
  replied : Embedding Float → Reply Float
  failed : ProviderError → Reply Float
  timed_out crashed : Reply Float

pub record Timed (Float : Type 0) : Type 0 where
  pub reply : Reply Float
  pub elapsed : ℕ

pub data Result {ℓ} (A : Type ℓ) : Type ℓ where
  ok : A → Result A
  raised : ProviderError → Result A

-- `EmbedResult`, without the name of the provider.
pub record EmbedResult (Float : Type 0) : Type 0 where
  pub vectors : List (List Float)
  pub model : Text
  pub usage : ℕ

-- `_classify`.
unfoldable pub classify : ℕ → ℕ → Bool → ProviderError
classify limit elapsed is_timeout = if ltb limit elapsed || is_timeout then timeout else unavailable

-- The result of the loop over the attempts, the number of calls and how long it slept.
pub record Retried (Float : Type 0) : Type 0 where
  pub result : Result (Embedding Float)
  pub calls : ℕ
  pub slept : List ℕ

-- The number of a call says when it is made.
pub record EmbedGateway (Float : Type 0) : Type 0 where
  pub provider : Option (List Text → Text → ℕ → Timed Float)
  pub timeout_seconds : ℕ
  pub backoff : List ℕ
  pub dimensions : ℕ

module _ {Float : Type 0} where
  -- `_call_once`.
  unfoldable pub call_once : ℕ → Timed Float → Result (Embedding Float)
  unfolding classify
  call_once limit t = elim t.reply [
    | replied e ↦ ok e
    | failed e ↦ raised e
    | timed_out ↦ raised (classify limit t.elapsed true)
    | crashed ↦ raised (classify limit t.elapsed false)
  ]

  abbrev pub once_more : ℕ → Retried Float → Retried Float
  once_more delay rest = record {
    result = rest.result;
    calls = suc rest.calls;
    slept = slept_for delay rest.slept;
  }

  abbrev pub settled : Result (Embedding Float) → Retried Float
  settled r = record { result = r; calls = 1; slept = [] }

  abbrev pub retry_after : ℕ → Result (Embedding Float) → Retried Float → Retried Float
  retry_after delay (ok e) rest = settled (ok e)
  retry_after delay (raised x) rest =
      if is_retryable x then once_more delay rest else settled (raised x)

  -- `_call_with_retry`, from the call number `k` on.
  unfoldable pub call_with_retry : ℕ → (ℕ → Timed Float) → List ℕ → ℕ → Retried Float
  unfolding call_once is_retryable
  call_with_retry limit provider [] k = settled (call_once limit (provider k))
  call_with_retry limit provider (delay ∷ delays) k =
      retry_after delay (call_once limit (provider k))
        (call_with_retry limit provider delays (suc k))

  -- `_check_dimensions`.
  unfoldable pub all_of_size : ℕ → List (List Float) → Bool
  all_of_size expected [] = true
  all_of_size expected (v ∷ vs) =
      let rest = all_of_size expected vs in if length v == expected then rest else false

  abbrev pub checked : ℕ → Result (Embedding Float) → Result (EmbedResult Float)
  checked expected (raised e) = raised e
  checked expected (ok e) =
      if all_of_size expected e.vectors
      then ok (record { vectors = e.vectors; model = e.model; usage = e.prompt_tokens })
      else raised dimension_mismatch

  abbrev pub embed_with :
      EmbedGateway Float
      → (List Text → Text → ℕ → Timed Float)
      → List Text
      → Text
      → Result (EmbedResult Float)
  embed_with g provider [] model = ok (record { vectors = []; model = model; usage = 0 })
  embed_with g provider (t ∷ ts) model =
      checked g.dimensions
        (call_with_retry g.timeout_seconds (provider (t ∷ ts) model) g.backoff 0).result

  unfoldable pub embed : EmbedGateway Float → List Text → Text → Result (EmbedResult Float)
  unfolding call_with_retry all_of_size
  embed g texts model = elim g.provider [
    | none ↦ raised unavailable
    | some provider ↦ embed_with g provider texts model
  ]
