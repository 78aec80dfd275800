-- ===== src/Rag/Fusion/Order.antt =====
-- The order of the fused list.
use lumina_ai.Prelude.{
  none, length, length-map, length-take, ltb, ◌==◌, ◌<◌, ◌≤◌, ◌⊎◌, ◌∙◌, ℕ, zero, suc, ◌+◌, ◌≡◌,
  refl, ap, arith, false, true, List, [], ◌∷◌, map, take, Bool-cases, inl, inr,
}
use lumina_ai.Rag.Chunk.{Floats, RetrievedChunk}
use lumina_ai.Rag.Fusion.{
  contains, Entry, before, insert, sort, rescored, fuse_groups, fuse_candidates,
}
use lumina_ai.Redis.{is_some}
use lumina_ai.Rag.Fusion.Scores.{
  All, All-insert, Distinct, ids, find, find-fuse_groups, contains-sort, chunk_ids, IsScored,
  score_of, fused_scores,
}

module _ (f : Floats) where
  take-map-take :
      (n m : ℕ) (es : List (Entry f))
      → take n (map (rescored f) (take (n + m) es)) ≡ map (rescored f) (take n es)
  take-map-take zero m es = refl
  take-map-take (suc n) m [] = let e : suc n + m ≡ suc (n + m) = omega arith in rw e
  take-map-take (suc n) m (x ∷ es) =
      let e : suc n + m ≡ suc (n + m) = omega arith in
      rw e (ap (λ cs. rescored f x ∷ cs) (take-map-take n m es))

  -- Not standing after is transitive: `before` is the strict part of a total order.
  before_trans :
      (a b c : Entry f) → before f b a ≡ false → before f c b ≡ false → before f c a ≡ false
  before_trans a b c h k = ground (
    arith,
    f.leq_trans a.total b.total c.total,
    f.leq_trans b.total c.total a.total,
    f.leq_trans c.total a.total b.total,
    f.leq_trans c.total b.total a.total,
    f.leq_trans b.total a.total c.total,
    f.leq_trans a.total c.total b.total,
    f.leq_total a.total b.total,
    f.leq_total b.total c.total,
    f.leq_total a.total c.total,
  )

  before-asymm : (a b : Entry f) → before f a b ≡ true → before f b a ≡ false
  before-asymm a b h = ground (arith, f.leq_total a.total b.total)

  leq_of_not_before : (a b : Entry f) → before f b a ≡ false → f.leq b.total a.total ≡ true
  leq_of_not_before a b h = ground (arith, f.leq_total a.total b.total)

  -- Each entry stands before or level with all that follow it.
  abbrev Sorted : List (Entry f) → Type 0
  Sorted [] = Unit
  Sorted (e ∷ es) = All (λ y. before f y e ≡ false) es × Sorted es

  All-behind :
      (e x : Entry f) (es : List (Entry f))
      → before f x e ≡ false
      → All (λ y. before f y x ≡ false) es
      → All (λ y. before f y e ≡ false) es
  All-behind e x [] h all = tt
  All-behind e x (y ∷ es) h all = (before_trans e x y h all.0, All-behind e x es h all.1)

  Sorted-insert : (e : Entry f) (es : List (Entry f)) → Sorted es → Sorted (insert f e es)
  unfolding insert
  Sorted-insert e [] h = (tt, tt)
  Sorted-insert e (x ∷ es) h = elim (Bool-cases (before f x e)) [
    | inl behind ↦ rw behind (
      All-insert f (λ y. before f y x ≡ false) e es (before-asymm x e behind) h.0,
      Sorted-insert e es h.1,
    )
    | inr front ↦ rw front ((front, All-behind e x es front h.0), h)
  ]

  Sorted-sort : (es : List (Entry f)) → Sorted (sort f es)
  unfolding sort
  Sorted-sort [] = tt
  Sorted-sort (e ∷ es) = Sorted-insert e (sort f es) (Sorted-sort es)

  -- No chunk has a higher score than one before it.
  abbrev pub Descending : List (RetrievedChunk f) → Type 0
  Descending [] = Unit
  Descending (c ∷ cs) =
      All (λ (d : RetrievedChunk f). f.leq d.score c.score ≡ true) cs × Descending cs

  All-leq :
      (n : ℕ) (e : Entry f) (es : List (Entry f))
      → All (λ y. before f y e ≡ false) es
      → All (λ (d : RetrievedChunk f). f.leq d.score e.total ≡ true) (map (rescored f) (take n es))
  All-leq zero e es h = tt
  All-leq (suc n) e [] h = tt
  All-leq (suc n) e (y ∷ es) h = (leq_of_not_before e y h.0, All-leq n e es h.1)

  Descending-take :
      (n : ℕ) (es : List (Entry f)) → Sorted es → Descending (map (rescored f) (take n es))
  Descending-take zero es h = tt
  Descending-take (suc n) [] h = tt
  Descending-take (suc n) (e ∷ es) h = (All-leq n e es h.0, Descending-take n es h.1)

  -- The fused list is in descending order of score, whatever the routes and the limit: a shorter
  -- limit gives the beginning of the list that a longer one gives.
  fuse_candidates-Descending :
      (groups : List (List (RetrievedChunk f))) (k limit more : ℕ)
      → Descending (fuse_candidates f groups k limit)
        × (take limit (fuse_candidates f groups k (limit + more))
            ≡ fuse_candidates f groups k limit)
  unfolding fuse_candidates
  fuse_candidates-Descending groups k limit more =
      let es = sort f (fuse_groups f k 0 groups []) in
      (
        Descending-take limit es (Sorted-sort (fuse_groups f k 0 groups [])),
        take-map-take limit more es,
      )

  contains_found :
      (es : List (Entry f)) (key : ℕ)
      → is_some (find f key es) ≡ true
      → contains (ids f es) key ≡ true
  contains_found [] key h = cc
  contains_found (e ∷ es) key h = ground (arith, contains_found es key)

  contains-take_all :
      (n key : ℕ) (es : List (Entry f))
      → length (map (rescored f) (take n es)) < n
      → contains (ids f es) key ≡ true
      → contains (chunk_ids f (map (rescored f) (take n es))) key ≡ true
  contains-take_all zero key es short h = absurd (omega (arith, short))
  contains-take_all (suc n) key [] short h = h
  contains-take_all (suc n) key (e ∷ es) short h = elim (Bool-cases (e.chunk.chunk_id == key)) [
    | inl here ↦ ground (arith, here)
    | inr other ↦ ground (arith, other, h, contains-take_all n key es (omega (arith, short)))
  ]

  -- Every chunk of a route is in the list.
  abbrev pub HasAll : ℕ → List (List (RetrievedChunk f)) → List (RetrievedChunk f) → Type 0
  HasAll k groups cs =
      (key : ℕ)
      → is_some (score_of f k groups key none) ≡ true
      → contains (chunk_ids f cs) key ≡ true

  fused_all :
      (groups : List (List (RetrievedChunk f))) (k limit : ℕ)
      → (length (fuse_candidates f groups k limit) ≡ limit)
        ⊎ HasAll k groups (fuse_candidates f groups k limit)
  unfolding fuse_candidates
  fused_all groups k limit =
      let es = fuse_groups f k 0 groups [] in
      elim (Bool-cases (ltb (length (map (rescored f) (take limit (sort f es)))) limit)) [
        | inl short ↦ inr (λ key scored.
            contains-take_all limit key (sort f es) (ground (arith, short)) (
              contains-sort f es key
              ∙ contains_found es key (ap is_some (find-fuse_groups f k 0 groups [] key) ∙ scored)))
        | inr full ↦ inl (
            ground (
              arith,
              full,
              length-map (take limit (sort f es)) (rescored f),
              length-take limit (sort f es),
            ))
      ]

  -- The fused list has each chunk once, with the sum of the reciprocals of `k` plus its first rank in
  -- each route that has it, added in the routes' order. It descends by these scores and is the
  -- beginning of the list that a longer limit gives; it is as long as the limit or has every chunk of
  -- the routes.
  pub fuse_candidates_lem :
      (groups : List (List (RetrievedChunk f))) (k limit more : ℕ)
      → All (IsScored f k groups) (fuse_candidates f groups k limit)
        × Distinct (chunk_ids f (fuse_candidates f groups k limit))
        × (length (fuse_candidates f groups k limit) ≤ limit)
        × Descending (fuse_candidates f groups k limit)
        × (take limit (fuse_candidates f groups k (limit + more))
            ≡ fuse_candidates f groups k limit)
        × ((length (fuse_candidates f groups k limit) ≡ limit)
            ⊎ HasAll k groups (fuse_candidates f groups k limit))
  fuse_candidates_lem groups k limit more =
      let (scored, distinct, within) = fused_scores f groups k limit in
      let (descending, beginning) = fuse_candidates-Descending groups k limit more in
      (scored, distinct, within, descending, beginning, fused_all groups k limit)
