-- ===== src/Rag/Select.antt =====
-- `build_search_query`, the two gates and `select_context` of backend/rag/pipeline.py.
pub mod Context
use lumina_ai.Prelude.{
  ℕ, zero, suc, ◌+◌, ◌-◌, Bool, true, false, ◌||◌, List, [], ◌∷◌, ◌++◌, map, ltb, leb, ◌==◌, take,
  drop, length, not, ◌&&◌, if◌then◌else◌,
}
use lumina_ai.Prelude.Texts.{Text, is_empty, strip, join, codes}
use lumina_ai.Etl.Tokens.{estimate_tokens}
use lumina_ai.Rag.Chunk.{Floats, RetrievedChunk, normalise_query}

abbrev pub keep_texts : List Text → List Text
keep_texts [] = []
keep_texts (t ∷ ts) = let rest = keep_texts ts in if is_empty t then rest else t ∷ rest

-- `previous[-n:]` for a positive `n`: the last `n`.
abbrev pub last {ℓ} : {A : Type ℓ} → ℕ → List A → List A
last n xs = drop (length xs - n) xs

abbrev pub newline : Text
newline = 10 ∷ []

unfoldable pub build_search_query : Text → List Text → ℕ → Text
build_search_query question previous_questions history_turns =
    let current = normalise_query question in
    let recent = map normalise_query (last history_turns previous_questions) in
    if history_turns == 0 then current else strip (join newline (keep_texts recent ++ current ∷ []))

module _ (f : Floats) where
  open f use {Float, zero_float, mul, leq}

  abbrev Chunk : Type 0
  Chunk = RetrievedChunk f

  -- Those with a score of at least the floor.
  abbrev pub at_least : Float → List Chunk → List Chunk
  at_least floor [] = []
  at_least floor (c ∷ cs) =
      let rest = at_least floor cs in if leq floor c.score then c ∷ rest else rest

  unfoldable pub gate_by_score : List Chunk → Float → List Chunk
  gate_by_score [] min_score_ratio = []
  gate_by_score (c ∷ cs) min_score_ratio =
      if leq min_score_ratio zero_float || leq c.score zero_float
      then c ∷ cs
      else c ∷ at_least (mul c.score min_score_ratio) cs

  unfoldable pub gate_by_absolute_score : List Chunk → Float → List Chunk
  gate_by_absolute_score candidates threshold =
      if leq threshold zero_float then candidates else at_least threshold candidates

  -- The loop of `select_context` once something is selected, with what it has used.
  pub select_more : ℕ → ℕ → List Chunk → List Chunk
  select_more used token_budget [] = []
  select_more used token_budget (c ∷ cs) =
      let cost = estimate_tokens c.content in
      let rest = select_more (used + cost) token_budget cs in
      if ltb token_budget (used + cost) then [] else c ∷ rest

  -- The first candidate is selected whatever it costs.
  abbrev pub select_first : ℕ → List Chunk → List Chunk
  select_first token_budget [] = []
  select_first token_budget (c ∷ cs) = c ∷ select_more (estimate_tokens c.content) token_budget cs

  unfoldable pub select_context : List Chunk → ℕ → ℕ → List Chunk
  unfolding select_more
  select_context candidates max_chunks token_budget =
      select_first token_budget (take max_chunks candidates)
