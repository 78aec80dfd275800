-- ===== src/Gateway/Vendors/Requests.antt =====
-- The requests that the adapters of backend/ai/gateway/providers/openai_compatible.py send for the
-- vendor that `build_gateway` chose.
use lumina_ai.Prelude.{
  ℕ, ◌≡◌, inl, inr, refl, Bool, true, false, not, ◌&&◌, ◌||◌, Option, none, some, List, [], ◌∷◌,
  ◌++◌, map, arith, Bool-cases, if◌then◌else◌,
}
use lumina_ai.Prelude.Texts.{Text, codes, is_empty, same_text, strip, split_on}
use lumina_ai.Gateway.Chat.{ChatRequest, unavailable}
use lumina_ai.Gateway.Embed.{Result, ok, raised}
use lumina_ai.Gateway.Vendors.{
  VendorSpec, vendor_spec, AiSettings, Adapter, mock, openai_compatible, tei_rerank, jina_rerank,
  is_filled, compatible_provider, compatible_with, rerank_provider, fallback_models, keep_filled,
  jina_with, filled, optional_format, optional_number, text, effort_name, Value, build_gateway,
  Built, payload, is_off, Payload, then_do,
}

-- What a chosen adapter needs: a vendor of the table and a key wherever the vendor wants one.
abbrev pub CanCall : Adapter → Type 0
CanCall mock = Unit {0}
CanCall (openai_compatible vendor key url) =
    (spec : VendorSpec) × (vendor_spec vendor ≡ some spec)
    × ((not spec.requires_api_key || is_filled key) ≡ true)
CanCall (tei_rerank url) = Unit {0}
CanCall (jina_rerank key url) = is_empty key ≡ false

abbrev pub AdapterOk : Result Adapter → Type 0
AdapterOk (raised e) = e ≡ unavailable
AdapterOk (ok a) = CanCall a

compatible_with-CanCall :
    (name : Text) (key base_url : Option Text) (spec : Option VendorSpec)
    → vendor_spec name ≡ spec
    → AdapterOk (compatible_with name key base_url spec)
compatible_with-CanCall name key base_url none found = refl
compatible_with-CanCall name key base_url (some spec) found =
    elim (Bool-cases (spec.requires_api_key && not (is_filled key))) [
      | inl missing ↦ rw missing refl
      | inr complete ↦ rw complete (spec, found, ground (arith, complete))
    ]

compatible_provider-CanCall :
    (name : Text) (key base_url : Option Text) → AdapterOk (compatible_provider name key base_url)
unfolding compatible_provider
compatible_provider-CanCall name key base_url = elim (Bool-cases (same_text name (codes "mock"))) [
  | inl is_mock ↦ rw (is_mock, compatible_provider) tt
  | inr real ↦
      rw (real, compatible_provider)
        (compatible_with-CanCall name key base_url (vendor_spec name) refl)
]

jina_with-CanCall : (url key : Option Text) → AdapterOk (jina_with url (filled key))
jina_with-CanCall url none = refl
jina_with-CanCall url (some t) = elim (Bool-cases (is_empty t)) [
  | inl empty ↦ rw empty refl
  | inr full ↦ rw full full
]

rerank_provider-CanCall :
    (name : Text) (key base_url : Option Text) → AdapterOk (rerank_provider name key base_url)
unfolding rerank_provider
rerank_provider-CanCall name key base_url = elim (Bool-cases (same_text name (codes "mock"))) [
  | inl is_mock ↦ rw (is_mock, rerank_provider) tt
  | inr not_mock ↦ elim (Bool-cases (same_text name (codes "tei"))) [
    | inl is_tei ↦ rw (not_mock, is_tei, rerank_provider) tt
    | inr not_tei ↦ elim (Bool-cases (same_text name (codes "jina"))) [
      | inl is_jina ↦
          rw (not_mock, not_tei, is_jina, rerank_provider) (jina_with-CanCall (filled base_url) key)
      | inr unknown ↦ rw (not_mock, not_tei, unknown, rerank_provider) refl
    ]
  ]
]

abbrev pub AllFilled : List Text → Type 0
AllFilled [] = Unit {0}
AllFilled (t ∷ ts) = (is_empty t ≡ false) × AllFilled ts

keep_filled-AllFilled : (ts : List Text) → AllFilled (keep_filled ts)
keep_filled-AllFilled [] = tt
keep_filled-AllFilled (t ∷ ts) = elim (Bool-cases (is_empty t)) [
  | inl empty ↦ rw empty (keep_filled-AllFilled ts)
  | inr full ↦ rw full (full, keep_filled-AllFilled ts)
]

abbrev pub IsComplete : Result Built → Type 0
IsComplete (raised e) = e ≡ unavailable
IsComplete (ok b) =
    CanCall b.embedding × CanCall b.chat × CanCall b.rerank × AllFilled b.chat_fallback_models

built-IsComplete :
    (e c r : Result Adapter) (ms : List Text)
    → AdapterOk e
    → AdapterOk c
    → AdapterOk r
    → AllFilled ms
    → IsComplete (
        then_do e (λ e'. then_do c (λ c'. then_do r (λ r'.
          ok (record { embedding = e'; chat = c'; rerank = r'; chat_fallback_models = ms })))))
built-IsComplete (raised x) c r ms e_ok c_ok r_ok filled_ms = e_ok
built-IsComplete (ok e) (raised x) r ms e_ok c_ok r_ok filled_ms = c_ok
built-IsComplete (ok e) (ok c) (raised x) ms e_ok c_ok r_ok filled_ms = r_ok
built-IsComplete (ok e) (ok c) (ok r) ms e_ok c_ok r_ok filled_ms = (e_ok, c_ok, r_ok, filled_ms)

-- Whatever the settings, `build_gateway` fails as unavailable, or each adapter that it builds is a mock,
-- or one of the table or a self-hosted one, with a key that is not empty wherever its vendor wants one,
-- and no fallback model is empty.
pub build_gateway-IsComplete : (s : AiSettings) → IsComplete (build_gateway s)
unfolding build_gateway fallback_models
build_gateway-IsComplete s =
    built-IsComplete _ _ _ _
      (compatible_provider-CanCall s.embedding_provider s.embedding_api_key s.embedding_base_url)
      (compatible_provider-CanCall s.chat_provider s.chat_api_key s.chat_base_url)
      (rerank_provider-CanCall s.rerank_provider s.rerank_api_key s.rerank_base_url)
      (keep_filled-AllFilled (map strip (split_on b',' s.chat_fallback_models)))

-- Whether a payload has a field.
abbrev pub has : Text → Payload → Bool
has key [] = false
has key ((k, v) ∷ fields) = same_text k key || has key fields

abbrev pub is_some {ℓ} : {A : Type ℓ} → Option A → Bool
is_some none = false
is_some (some a) = true

has-append : (key : Text) (xs ys : Payload) → has key (xs ++ ys) ≡ (has key xs || has key ys)
has-append key [] ys = refl
has-append key ((k, v) ∷ xs) ys = ground (arith, has-append key xs ys)

has-number :
    (key name : Text) (n : Option ℕ)
    → has key (optional_number name n) ≡ (is_some n && same_text name key)
has-number key name none = refl
has-number key name (some n) = ground arith

has-format :
    (key : Text) (supported : Bool) (t : Option Text)
    → has key (optional_format supported t)
      ≡ (is_some t && supported && same_text (codes "response_format") key)
has-format key supported none = refl
has-format key supported (some t) = ground arith

has-effort :
    (sent : Bool) (v : Value) (key : Text)
    → has key (if sent then (codes "reasoning_effort", v) ∷ [] else [])
      ≡ (sent && same_text (codes "reasoning_effort") key)
has-effort sent v key = ground arith

-- The optional fields of a chat request are sent exactly if they are asked for and the vendor's
-- entry of the table says that it knows them; the usage is always asked for.
pub payload_lem :
    (spec : VendorSpec) (r : ChatRequest)
    → (has (codes "reasoning_effort") (payload spec r)
        ≡ not (is_off r.reasoning_effort) && spec.supports_reasoning_effort)
      × (has (codes "response_format") (payload spec r)
          ≡ is_some r.response_format && spec.supports_response_format)
      × (has (codes "temperature") (payload spec r) ≡ is_some r.temperature)
      × (has (codes "max_tokens") (payload spec r) ≡ is_some r.max_output_tokens)
      × (has (codes "stream_options.include_usage") (payload spec r) ≡ true)
unfolding payload
payload_lem spec r =
    let effort : Bool = not (is_off r.reasoning_effort) && spec.supports_reasoning_effort in
    let value : Value = text (effort_name r.reasoning_effort) in
    let sent = has-effort effort value in
    (
      simp (has-append, has-number, has-format, sent) (ground arith),
      simp (has-append, has-number, has-format, sent) (ground arith),
      simp (has-append, has-number, has-format, sent) (ground arith),
      simp (has-append, has-number, has-format, sent) (ground arith),
      refl,
    )
