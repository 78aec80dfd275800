-- ===== src/Rag/Select/Context.antt =====
-- What `select_context` and the gates let through.
use lumina_ai.Prelude.{
  ℕ, zero, suc, ◌+◌, ◌≤◌, ◌<◌, ◌≡◌, ◌⊎◌, inl, inr, refl, some, List, [], ◌∷◌, ap, ◌∙◌, arith, ltb,
  take, length, length-take, get_elem?, Bool-cases,
}
use lumina_ai.Etl.Tokens.{estimate_tokens}
use lumina_ai.Rag.Chunk.{Floats, RetrievedChunk}
use lumina_ai.Rag.Select.{select_more, select_context}

take-take {ℓ} : {A : Type ℓ} (m n : ℕ) (xs : List A) → m ≤ n → take m (take n xs) ≡ take m xs
take-take zero n xs h = refl
take-take (suc m) (suc n) [] h = refl
take-take (suc m) (suc n) (x ∷ xs) h = ap (λ r. x ∷ r) (take-take m n xs (omega (arith, h)))
take-take (suc m) zero xs h = absurd (omega (arith, h))

module _ (f : Floats) where
  abbrev pub cost : List (RetrievedChunk f) → ℕ
  cost [] = 0
  cost (c ∷ cs) = estimate_tokens c.content + cost cs

  select_more-prefix :
      (used budget : ℕ) (cs : List (RetrievedChunk f))
      → (select_more f used budget cs ≡ take (length (select_more f used budget cs)) cs)
        × (length (select_more f used budget cs) ≤ length cs)
  unfolding select_more
  select_more-prefix used budget [] = (refl, omega arith)
  select_more-prefix used budget (c ∷ cs) =
      let ih = select_more-prefix (used + estimate_tokens c.content) budget cs in
      elim (Bool-cases (ltb budget (used + estimate_tokens c.content))) [
        | inl over ↦ rw over (refl, omega arith)
        | inr within ↦ rw within (ap (λ r. c ∷ r) ih.0, omega (arith, ih.1))
      ]

  select_more-cost :
      (used budget : ℕ) (cs : List (RetrievedChunk f))
      → (select_more f used budget cs ≡ []) ⊎ (used + cost (select_more f used budget cs) ≤ budget)
  unfolding select_more
  select_more-cost used budget [] = inl refl
  select_more-cost used budget (c ∷ cs) =
      ground (arith, select_more-cost (used + estimate_tokens c.content) budget cs)

  select_more-maximal :
      (used budget : ℕ) (cs : List (RetrievedChunk f)) (next : RetrievedChunk f)
      → get_elem? cs (length (select_more f used budget cs)) ≡ some next
      → budget < used + cost (select_more f used budget cs) + estimate_tokens next.content
  unfolding select_more
  select_more-maximal used budget [] next e = cc
  select_more-maximal used budget (c ∷ cs) next e =
      let spent = used + estimate_tokens c.content in
      elim (Bool-cases (ltb budget spent)) [
        | inl over ↦ ground (arith, over, e)
        | inr within ↦
            rw within (omega (arith, select_more-maximal spent budget cs next (rw within at e)))
      ]

  -- The selection is a beginning of the candidates with at most `max_chunks` chunks, and its
  -- estimated tokens stay within the budget unless it is a single chunk.
  pub select_context_lem :
      (candidates : List (RetrievedChunk f)) (max_chunks budget : ℕ)
      → (select_context f candidates max_chunks budget
          ≡ take (length (select_context f candidates max_chunks budget)) candidates)
        × (length (select_context f candidates max_chunks budget) ≤ max_chunks)
        × ((length (select_context f candidates max_chunks budget) ≤ 1)
            ⊎ (cost (select_context f candidates max_chunks budget) ≤ budget))
  unfolding select_context
  select_context_lem candidates zero budget = (refl, omega arith, inl (omega arith))
  select_context_lem [] (suc n) budget = (refl, omega arith, inl (omega arith))
  select_context_lem (c ∷ cs) (suc n) budget =
      let used = estimate_tokens c.content in
      let p = select_more-prefix used budget (take n cs) in
      (
        ap (λ r. c ∷ r)
            (p.0
              ∙ take-take (length (select_more f used budget (take n cs))) n cs
                  (omega (arith, p.1, length-take n cs))),
        omega (arith, p.1, length-take n cs),
        ground (arith, select_more-cost used budget (take n cs)),
      )

  -- When a candidate among the first `max_chunks` follows the selection, the selection is not
  -- empty, and taking that candidate too would exceed the budget.
  pub select_context_maximal :
      (candidates : List (RetrievedChunk f)) (max_chunks budget : ℕ) (next : RetrievedChunk f)
      → get_elem?
          (take max_chunks candidates)
          (length (select_context f candidates max_chunks budget))
        ≡ some next
      → (1 ≤ length (select_context f candidates max_chunks budget))
        × (budget
            < cost (select_context f candidates max_chunks budget) + estimate_tokens next.content)
  unfolding select_context
  select_context_maximal candidates zero budget next e = cc
  select_context_maximal [] (suc n) budget next e = cc
  select_context_maximal (c ∷ cs) (suc n) budget next e =
      let used = estimate_tokens c.content in
      (omega arith, omega (arith, select_more-maximal used budget (take n cs) next e))
