-- ===== src/Gateway/Rerank/Rows.antt =====
-- What `_documents` of backend/ai/gateway/providers/rerank.py accepts, and what `rerank` of
-- backend/ai/gateway/__init__.py returns.
use lumina_ai.Prelude.{ℕ, ◌<◌, ◌≡◌, false, Option, none, some, List, [], ◌∷◌, take}
use lumina_ai.Prelude.Int.{pos}
use lumina_ai.Prelude.Texts.{codes}
use lumina_ai.Rag.Chunk.{Floats}
use lumina_ai.Gateway.Embed.{Result, ok, raised}
use lumina_ai.Gateway.Json.{Json, int, obj, Items, nil, cons, end, field, Python}
use lumina_ai.Gateway.Rerank.{RerankedDocument, RerankResult, contains}
use lumina_ai.Gateway.Rerank.Ranking.{indices, NoRepeat, AllBelow, IsRanking}

module _ (f : Floats) where
  open f use {Float}

  -- No index of the list has been seen.
  abbrev AllNew : List ℕ → List ℕ → Type 0
  AllNew seen [] = Unit {0}
  AllNew seen (n ∷ ns) = (contains n seen ≡ false) × AllNew seen ns

  module _ (py : Python) (to_float : Json → Option Float) where
    abbrev IsNew : ℕ → List ℕ → Option (RerankedDocument f) → Type 0
    IsNew count seen none = Unit {0}
    IsNew count seen (some d) = (d.index < count) × (contains d.index seen ≡ false)

    abbrev AreNew : ℕ → List ℕ → Option (List (RerankedDocument f)) → Type 0
    AreNew count seen none = Unit {0}
    AreNew count seen (some ds) =
        NoRepeat f (indices f ds) × AllBelow f count (indices f ds) × AllNew seen (indices f ds)

    abbrev pub Ranked : ℕ → Result (List (RerankedDocument f)) → Type 0
    Ranked count (raised e) = Unit {0}
    Ranked count (ok ds) = IsRanking f count ds

    abbrev pub RankedResult : ℕ → Result (RerankResult f) → Type 0
    RankedResult count (raised e) = Unit {0}
    RankedResult count (ok r) = IsRanking f count r.documents

    -- What is handed on is the beginning of a ranking of the candidates.
    abbrev pub HasBest : ℕ → ℕ → Result (RerankResult f) → Type 0
    HasBest count top_n (raised e) = Unit {0}
    HasBest count top_n (ok r) =
        (all : List (RerankedDocument f)) × IsRanking f count all × (r.documents ≡ take top_n all)

    module _ (of_float : Float → Json)
        (float_read : (s : Float) → to_float (of_float s) ≡ some s) where
      -- A well-formed answer of TEI.
      abbrev pub encode : List (RerankedDocument f) → Items
      encode [] = nil
      encode (d ∷ ds) =
          cons
            (obj (
              field (codes "index") (int (pos d.index))
                (field (codes "score") (of_float d.score) end)))
            (encode ds)
