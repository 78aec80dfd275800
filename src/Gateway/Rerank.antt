-- ===== src/Gateway/Rerank.antt =====
-- The adapters of backend/ai/gateway/providers/rerank.py, and `AIGateway.rerank` of
-- backend/ai/gateway/__init__.py. A score is a float that is not NaN.
pub mod Ranking
pub mod Rows
use lumina_ai.Prelude.{
  ℕ, Bool, true, false, not, ◌&&◌, ◌||◌, Option, none, some, List, [], ◌∷◌, length, take, ltb, leb,
  ◌==◌, if◌then◌else◌,
}
use lumina_ai.Prelude.Int.{ℤ, pos, negsuc}
use lumina_ai.Prelude.Texts.{Text, codes}
use lumina_ai.Rag.Chunk.{Floats}
use lumina_ai.Gateway.Chat.{
  ProviderError, timeout, unavailable, rate_limited, auth, request_rejected,
}
use lumina_ai.Gateway.Embed.{Result, ok, raised}
use lumina_ai.Gateway.Json.{Json, arr, obj, Items, nil, cons, Fields, Python, get, to_int, text_or}

pub data Vendor : Type 0 where
  tei jina : Vendor

-- What `httpx` comes to: a timeout, another error, or a status with a body, which is JSON or not.
pub data Reply : Type 0 where
  no_answer no_connection : Reply
  answered : ℕ → Option Json → Reply

unfoldable pub error_for : ℕ → ProviderError
error_for status =
    if status == 429
    then rate_limited
    else if status == 401 || status == 403
    then auth
    else if status == 400 || status == 413 || status == 422
    then request_rejected
    else unavailable

-- `_post`.
abbrev json_or : Option Json → Result Json
json_or none = raised unavailable
json_or (some body) = ok body

unfoldable pub post : Reply → Result Json
unfolding error_for
post no_answer = raised timeout
post no_connection = raised unavailable
post (answered status body) = if leb 400 status then raised (error_for status) else json_or body

abbrev pub contains : ℕ → List ℕ → Bool
contains n [] = false
contains n (m ∷ ms) = n == m || contains n ms

module _ (f : Floats) where
  open f use {Float, leq}

  pub record RerankedDocument : Type 0 where
    pub index : ℕ
    pub score : Float

  pub record RerankResult : Type 0 where
    pub documents : List RerankedDocument
    pub model : Text

  -- `(-a.score, a.index) <= (-b.score, b.index)`.
  abbrev pub not_after : RerankedDocument → RerankedDocument → Bool
  not_after a b =
      if leq b.score a.score
      then (if leq a.score b.score then leb a.index b.index else true)
      else false

  unfoldable pub insert : RerankedDocument → List RerankedDocument → List RerankedDocument
  insert d [] = d ∷ []
  insert d (e ∷ es) = let rest = insert d es in if not_after d e then d ∷ e ∷ es else e ∷ rest

  unfoldable pub sort : List RerankedDocument → List RerankedDocument
  unfolding insert
  sort [] = []
  sort (d ∷ ds) = insert d (sort ds)

  -- `float(row[key])` of a value that is there; `none` is a `TypeError` or a `ValueError`.
  module _ (py : Python) (to_float : Json → Option Float) where
    abbrev read_index : Option Json → Option ℤ
    read_index none = none
    read_index (some v) = to_int py v

    abbrev read_score : Option Json → Option Float
    read_score none = none
    read_score (some v) = to_float v

    -- A row whose index is a number of the list and has not been seen.
    abbrev pub checked : ℕ → List ℕ → Option ℤ → Option Float → Option RerankedDocument
    checked count seen (some (pos i)) (some s) =
        if ltb i count && not (contains i seen)
        then some (record { index = i; score = s })
        else none
    checked count seen _ _ = none

    abbrev pub read_row : ℕ → Text → List ℕ → Json → Option RerankedDocument
    read_row count score_key seen (obj row) =
        checked count seen (read_index (get (codes "index") row)) (read_score (get score_key row))
    read_row count score_key seen _ = none

    -- The loop of `_documents`; `none` is `ProviderUnavailableError`.
    unfoldable pub read_rows : ℕ → Text → List ℕ → Items → Option (List RerankedDocument)
    unfolding get to_int
    read_rows count score_key seen nil = some []
    read_rows count score_key seen (cons row rest) = elim (read_row count score_key seen row) [
      | none ↦ none
      | some d ↦ elim (read_rows count score_key (d.index ∷ seen) rest) [
        | none ↦ none
        | some ds ↦ some (d ∷ ds)
      ]
    ]

    abbrev pub sorted_or : Option (List RerankedDocument) → Result (List RerankedDocument)
    sorted_or none = raised unavailable
    sorted_or (some ds) = ok (sort ds)

    unfoldable pub documents_of : Json → ℕ → Text → Result (List RerankedDocument)
    unfolding read_rows sort
    documents_of (arr rows) count score_key = sorted_or (read_rows count score_key [] rows)
    documents_of _ count score_key = raised unavailable

    abbrev pub named : Text → Result (List RerankedDocument) → Result RerankResult
    named model (ok ds) = ok (record { documents = ds; model = model })
    named model (raised e) = raised e

    -- `TeiRerankProvider.rerank`, after the request.
    unfoldable pub read_tei : List Text → Text → Result Json → Result RerankResult
    unfolding documents_of
    read_tei documents model (raised e) = raised e
    read_tei documents model (ok body) =
        named model (documents_of body (length documents) (codes "score"))

    -- `JinaRerankProvider.rerank`, after the request.
    abbrev pub read_results : List Text → Text → Fields → Option Json → Result RerankResult
    read_results documents model body none = raised unavailable
    read_results documents model body (some results) =
        named (text_or py (get (codes "model") body) model)
          (documents_of results (length documents) (codes "relevance_score"))

    unfoldable pub read_jina : List Text → Text → Result Json → Result RerankResult
    unfolding documents_of get text_or
    read_jina documents model (raised e) = raised e
    read_jina documents model (ok (obj body)) =
        read_results documents model body (get (codes "results") body)
    read_jina documents model (ok _) = raised unavailable

    -- The provider's answer to the query and the documents is a parameter.
    unfoldable pub provider_rerank :
        Vendor → (Text → List Text → Reply) → Text → List Text → Text → Result RerankResult
    unfolding post read_tei read_jina
    provider_rerank vendor ask query [] model = ok (record { documents = []; model = model })
    provider_rerank tei ask query (d ∷ ds) model =
        read_tei (d ∷ ds) model (post (ask query (d ∷ ds)))
    provider_rerank jina ask query (d ∷ ds) model =
        read_jina (d ∷ ds) model (post (ask query (d ∷ ds)))

    abbrev pub cut : ℕ → Result RerankResult → Result RerankResult
    cut top_n (ok r) = ok (record r { documents = take top_n r.documents })
    cut top_n (raised e) = raised e

    -- `AIGateway.rerank`.
    unfoldable pub rerank :
        Vendor → (Text → List Text → Reply) → Text → List Text → Text → ℕ → Result RerankResult
    unfolding provider_rerank
    rerank vendor ask query [] model top_n = ok (record { documents = []; model = model })
    rerank vendor ask query (d ∷ ds) model top_n =
        cut top_n (provider_rerank vendor ask query (d ∷ ds) model)
