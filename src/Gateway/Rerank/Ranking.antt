-- ===== src/Gateway/Rerank/Ranking.antt =====
-- The ranking that `rerank` of backend/ai/gateway/__init__.py returns.
use lumina_ai.Prelude.{
  ℕ, ◌<◌, ◌≡◌, inl, inr, refl, ap, ◌∙◌, true, false, ◌||◌, List, [], ◌∷◌, map, ◌==◌, arith,
  Bool-cases,
}
use lumina_ai.Rag.Chunk.{Floats}
use lumina_ai.Gateway.Rerank.{RerankedDocument, not_after, insert, sort, contains}

module _ (f : Floats) where
  open f use {Float, leq, leq_total, leq_trans}

  abbrev pub indices : List (RerankedDocument f) → List ℕ
  indices = map (λ d. d.index)

  -- No index stands twice, none is out of range, and the scores descend, in the order of the indices
  -- where they are equal.
  abbrev pub NoRepeat : List ℕ → Type 0
  NoRepeat [] = Unit {0}
  NoRepeat (n ∷ ns) = (contains n ns ≡ false) × NoRepeat ns

  abbrev pub AllBelow : ℕ → List ℕ → Type 0
  AllBelow count [] = Unit {0}
  AllBelow count (n ∷ ns) = (n < count) × AllBelow count ns

  abbrev pub Leads : RerankedDocument f → List (RerankedDocument f) → Type 0
  Leads d [] = Unit {0}
  Leads d (e ∷ es) = (not_after f d e ≡ true) × Leads d es

  abbrev pub Descends : List (RerankedDocument f) → Type 0
  Descends [] = Unit {0}
  Descends (d ∷ ds) = Leads d ds × Descends ds

  contains-insert :
      (n : ℕ) (d : RerankedDocument f) (es : List (RerankedDocument f))
      → contains n (indices (insert f d es)) ≡ (n == d.index || contains n (indices es))
  unfolding insert
  contains-insert n d [] = refl
  contains-insert n d (e ∷ es) = ground (arith, contains-insert n d es)

  insert-NoRepeat :
      (d : RerankedDocument f) (es : List (RerankedDocument f))
      → contains d.index (indices es) ≡ false
      → NoRepeat (indices es)
      → NoRepeat (indices (insert f d es))
  unfolding insert
  insert-NoRepeat d [] new distinct = ground arith
  insert-NoRepeat d (e ∷ es) new distinct = elim (Bool-cases (not_after f d e)) [
    | inl first ↦ rw (first, insert) (new, distinct)
    | inr later ↦
        rw (later, insert)
          (
            ground (arith, contains-insert e.index d es, new, distinct.0),
            insert-NoRepeat d es (ground (arith, new)) distinct.1,
          )
  ]

  insert-AllBelow :
      (count : ℕ) (d : RerankedDocument f) (es : List (RerankedDocument f))
      → d.index < count
      → AllBelow count (indices es)
      → AllBelow count (indices (insert f d es))
  unfolding insert
  insert-AllBelow count d [] below all = (below, tt)
  insert-AllBelow count d (e ∷ es) below all = elim (Bool-cases (not_after f d e)) [
    | inl first ↦ rw (first, insert) (below, all)
    | inr later ↦ rw (later, insert) (all.0, insert-AllBelow count d es below all.1)
  ]

  not_after_total : (a b : RerankedDocument f) → not_after f a b ≡ false → not_after f b a ≡ true
  not_after_total a b after = ground (arith, after, leq_total a.score b.score)

  not_after_trans :
      (a b c : RerankedDocument f)
      → not_after f a b ≡ true
      → not_after f b c ≡ true
      → not_after f a c ≡ true
  not_after_trans a b c ab bc = ground (
    arith,
    ab,
    bc,
    leq_trans c.score b.score a.score,
    leq_trans a.score b.score c.score,
    leq_trans a.score c.score b.score,
    leq_trans b.score a.score c.score,
    leq_trans b.score c.score a.score,
    leq_trans c.score a.score b.score,
  )

  Leads-trans :
      (a b : RerankedDocument f) (es : List (RerankedDocument f))
      → not_after f a b ≡ true
      → Leads b es
      → Leads a es
  Leads-trans a b [] ab leads = tt
  Leads-trans a b (e ∷ es) ab leads =
      (not_after_trans a b e ab leads.0, Leads-trans a b es ab leads.1)

  insert-Leads :
      (a d : RerankedDocument f) (es : List (RerankedDocument f))
      → not_after f a d ≡ true
      → Leads a es
      → Leads a (insert f d es)
  unfolding insert
  insert-Leads a d [] first leads = (first, tt)
  insert-Leads a d (e ∷ es) first leads = elim (Bool-cases (not_after f d e)) [
    | inl before ↦ rw (before, insert) (first, leads)
    | inr later ↦ rw (later, insert) (leads.0, insert-Leads a d es first leads.1)
  ]

  insert-Descends :
      (d : RerankedDocument f) (es : List (RerankedDocument f))
      → Descends es
      → Descends (insert f d es)
  unfolding insert
  insert-Descends d [] down = (tt, tt)
  insert-Descends d (e ∷ es) down = elim (Bool-cases (not_after f d e)) [
    | inl first ↦ rw (first, insert) ((first, Leads-trans d e es first down.0), down)
    | inr later ↦
        rw (later, insert)
          (insert-Leads e d es (not_after_total d e later) down.0, insert-Descends d es down.1)
  ]

  abbrev pub IsRanking : ℕ → List (RerankedDocument f) → Type 0
  IsRanking count ds = NoRepeat (indices ds) × AllBelow count (indices ds) × Descends ds

  contains-sort :
      (n : ℕ) (ds : List (RerankedDocument f))
      → contains n (indices (sort f ds)) ≡ contains n (indices ds)
  unfolding sort
  contains-sort n [] = refl
  contains-sort n (d ∷ ds) =
      contains-insert n d (sort f ds) ∙ ap (λ b. n == d.index || b) (contains-sort n ds)

  pub sort-IsRanking :
      (count : ℕ) (ds : List (RerankedDocument f))
      → NoRepeat (indices ds)
      → AllBelow count (indices ds)
      → IsRanking count (sort f ds)
  unfolding sort
  sort-IsRanking count [] distinct below = (tt, tt, tt)
  sort-IsRanking count (d ∷ ds) distinct below =
      let (distinct', below', down) = sort-IsRanking count ds distinct.1 below.1 in
      (
        insert-NoRepeat d (sort f ds) (contains-sort d.index ds ∙ distinct.0) distinct',
        insert-AllBelow count d (sort f ds) below.0 below',
        insert-Descends d (sort f ds) down,
      )
