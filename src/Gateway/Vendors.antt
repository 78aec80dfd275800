-- ===== src/Gateway/Vendors.antt =====
-- The table of vendors and the requests of backend/ai/gateway/providers/openai_compatible.py, and
-- `build_gateway` of backend/ai/gateway/__init__.py.
pub mod Requests
use lumina_ai.Prelude.{
  ℕ, Bool, true, false, not, ◌&&◌, ◌||◌, Option, none, some, List, [], ◌∷◌, ◌++◌, map,
  if◌then◌else◌,
}
use lumina_ai.Prelude.Texts.{Text, codes, is_empty, same_text, strip, split_on}
use lumina_ai.Gateway.Chat.{
  ProviderError, unavailable, ChatRequest, ChatMessage, Effort, off, low, medium, high,
}
use lumina_ai.Gateway.Embed.{Result, ok, raised}

pub record VendorSpec : Type 0 where
  pub base_url : Text
  pub requires_api_key : Bool
  pub supports_dimensions : Bool
  pub supports_reasoning_effort : Bool
  pub supports_response_format : Bool

abbrev plain_spec : Text → Bool → Bool → VendorSpec
plain_spec base_url requires_api_key supports_dimensions = record {
  base_url = base_url;
  requires_api_key = requires_api_key;
  supports_dimensions = supports_dimensions;
  supports_reasoning_effort = false;
  supports_response_format = false;
}

-- `VENDORS`.
unfoldable pub vendor_spec : Text → Option VendorSpec
vendor_spec name =
    if same_text name (codes "gemini")
    then some
        (plain_spec (codes "https://generativelanguage.googleapis.com/v1beta/openai") true true)
    else if same_text name (codes "openai")
    then some (record (plain_spec (codes "https://api.openai.com/v1") true true) {
      supports_reasoning_effort = true;
      supports_response_format = true;
    })
    else if same_text name (codes "openrouter")
    then some (plain_spec (codes "https://openrouter.ai/api/v1") true true)
    else if same_text name (codes "nvidia")
    then some (plain_spec (codes "https://integrate.api.nvidia.com/v1") true false)
    else if same_text name (codes "vllm")
    then some (plain_spec (codes "http://127.0.0.1:8000/v1") false false)
    else if same_text name (codes "tei")
    then some (plain_spec (codes "http://127.0.0.1:8081/v1") false false)
    else none

-- The settings that `build_gateway` reads.
pub record AiSettings : Type 0 where
  pub embedding_provider : Text
  pub embedding_api_key : Option Text
  pub embedding_base_url : Option Text
  pub embedding_dimensions : ℕ
  pub chat_provider : Text
  pub chat_api_key : Option Text
  pub chat_base_url : Option Text
  pub chat_fallback_models : Text
  pub rerank_provider : Text
  pub rerank_api_key : Option Text
  pub rerank_base_url : Option Text

-- A truthy text.
abbrev pub filled : Option Text → Option Text
filled none = none
filled (some t) = if is_empty t then none else some t

abbrev pub is_filled : Option Text → Bool
is_filled none = false
is_filled (some t) = not (is_empty t)

-- The adapters that the factories build, with what they are given.
pub data Adapter : Type 0 where
  mock : Adapter
  openai_compatible : (vendor : Text) (api_key : Option Text) (base_url : Text) → Adapter
  tei_rerank : (base_url : Option Text) → Adapter
  jina_rerank : (api_key : Text) (base_url : Option Text) → Adapter

-- `base_url or spec.base_url`.
abbrev pub url_or : Option Text → Text → Text
url_or none url = url
url_or (some t) url = if is_empty t then url else t

abbrev pub compatible_with : Text → Option Text → Option Text → Option VendorSpec → Result Adapter
compatible_with name key base_url none = raised unavailable
compatible_with name key base_url (some spec) =
    if spec.requires_api_key && not (is_filled key)
    then raised unavailable
    else ok (openai_compatible name key (url_or base_url spec.base_url))

-- `_chat_provider` and `_embedding_provider`.
unfoldable pub compatible_provider : Text → Option Text → Option Text → Result Adapter
unfolding vendor_spec
compatible_provider name key base_url =
    if same_text name (codes "mock")
    then ok mock
    else compatible_with name key base_url (vendor_spec name)

abbrev pub jina_with : Option Text → Option Text → Result Adapter
jina_with base_url none = raised unavailable
jina_with base_url (some key) = ok (jina_rerank key base_url)

unfoldable pub rerank_provider : Text → Option Text → Option Text → Result Adapter
rerank_provider name key base_url =
    if same_text name (codes "mock")
    then ok mock
    else if same_text name (codes "tei")
    then ok (tei_rerank (filled base_url))
    else if same_text name (codes "jina")
    then jina_with (filled base_url) (filled key)
    else raised unavailable

-- `_fallback_models`.
abbrev pub keep_filled : List Text → List Text
keep_filled [] = []
keep_filled (t ∷ ts) = if is_empty t then keep_filled ts else t ∷ keep_filled ts

unfoldable pub fallback_models : Text → List Text
unfolding split_on strip
fallback_models raw = keep_filled (map strip (split_on b',' raw))

pub record Built : Type 0 where
  pub embedding : Adapter
  pub chat : Adapter
  pub rerank : Adapter
  pub chat_fallback_models : List Text

abbrev pub then_do {ℓ κ} : {A : Type ℓ} {B : Type κ} → Result A → (A → Result B) → Result B
then_do (raised e) f = raised e
then_do (ok a) f = f a

unfoldable pub build_gateway : AiSettings → Result Built
unfolding compatible_provider rerank_provider fallback_models
build_gateway s =
    then_do (compatible_provider s.embedding_provider s.embedding_api_key s.embedding_base_url)
      (λ e. then_do (compatible_provider s.chat_provider s.chat_api_key s.chat_base_url) (λ c.
        then_do (rerank_provider s.rerank_provider s.rerank_api_key s.rerank_base_url) (λ r.
          ok (record {
            embedding = e;
            chat = c;
            rerank = r;
            chat_fallback_models = fallback_models s.chat_fallback_models;
          }))))

-- The value of a field of a request.
pub data Value : Type 0 where
  text : Text → Value
  texts : List Text → Value
  number : ℕ → Value
  flag : Bool → Value
  messages : List ChatMessage → Value

abbrev pub Payload : Type 0
Payload = List (Text × Value)

abbrev pub effort_name : Effort → Text
effort_name off = codes "off"
effort_name low = codes "low"
effort_name medium = codes "medium"
effort_name high = codes "high"

abbrev pub is_off : Effort → Bool
is_off off = true
is_off _ = false

abbrev pub optional_number : Text → Option ℕ → Payload
optional_number key none = []
optional_number key (some n) = (key, number n) ∷ []

abbrev pub optional_format : Bool → Option Text → Payload
optional_format supported none = []
optional_format supported (some t) =
    if supported then (codes "response_format", text t) ∷ [] else []

-- `_payload`. `stream_options` always asks for the usage.
unfoldable pub payload : VendorSpec → ChatRequest → Payload
payload spec r =
    (codes "model", text r.model)
    ∷ (codes "messages", messages r.messages)
    ∷ (codes "stream", flag true)
    ∷ (codes "stream_options.include_usage", flag true)
    ∷ (optional_number (codes "temperature") r.temperature
        ++ (optional_number (codes "max_tokens") r.max_output_tokens
            ++ ((if not (is_off r.reasoning_effort) && spec.supports_reasoning_effort
                  then (codes "reasoning_effort", text (effort_name r.reasoning_effort)) ∷ []
                  else [])
                ++ optional_format spec.supports_response_format r.response_format)))

-- The payload of `OpenAICompatibleProvider.embed`.
abbrev pub optional_dimensions : Bool → Option ℕ → Payload
optional_dimensions supported none = []
optional_dimensions supported (some n) =
    if supported then (codes "dimensions", number n) ∷ [] else []

unfoldable pub embed_payload : VendorSpec → Option ℕ → List Text → Text → Payload
embed_payload spec dimensions inputs model =
    (codes "model", text model)
    ∷ (codes "input", texts inputs)
    ∷ optional_dimensions spec.supports_dimensions dimensions

abbrev authorization : Option Text → List (Text × Text)
authorization none = []
authorization (some key) = (codes "Authorization", codes "Bearer " ++ key) ∷ []

-- `_headers`: the key is sent if there is one.
unfoldable pub headers : Option Text → List (Text × Text)
headers key = (codes "Content-Type", codes "application/json") ∷ authorization (filled key)
