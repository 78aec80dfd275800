-- ===== src/Rag/Chunk.antt =====
-- A retrieved chunk (backend/rag/retrievers/vector.py) and the floats of its score. A UUID is its
-- 128-bit number, whose order is that of its text. The floats are a parameter: the sum, the
-- product, the reciprocal of a whole number and the comparison, which is total and transitive on
-- the scores that occur (none of them is a NaN).
use lumina_ai.Prelude.{ℕ, ◌≡◌, ◌⊎◌, Bool, true, not, Option, List, ◌&&◌}
use lumina_ai.Prelude.Texts.{Text, strip}

pub record Floats : Type 1 where
  pub Float : Type 0
  pub zero_float : Float
  pub add : Float → Float → Float
  pub mul : Float → Float → Float
  pub reciprocal : ℕ → Float
  pub leq : Float → Float → Bool
  pub leq_total : (a b : Float) → (leq a b ≡ true) ⊎ (leq b a ≡ true)
  pub leq_trans : (a b c : Float) → leq a b ≡ true → leq b c ≡ true → leq a c ≡ true

module _ (f : Floats) where
  open f use {Float, leq}

  pub record RetrievedChunk : Type 0 where
    pub chunk_id : ℕ
    pub document_id : ℕ
    pub content : Text
    pub score : Float
    pub page : Option ℕ
    pub heading_path : List Text
    pub document_name : Text
    pub doc_version : ℕ

  -- `a < b` and `a == b`.
  abbrev pub less : Float → Float → Bool
  less a b = not (leq b a)

  abbrev pub equal : Float → Float → Bool
  equal a b = leq a b && leq b a

unfoldable pub normalise_query : Text → Text
normalise_query query = strip query
