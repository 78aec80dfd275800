-- ===== src/Rag/Fusion/Scores.antt =====
-- What fusion gives each chunk: one entry, and the sum of its reciprocal ranks.
use mathlib.Core.Path.{subst, fun_ext}
use lumina_ai.Prelude.{
  ℕ, zero, suc, ◌+◌, ◌≤◌, ◌≡◌, refl, true, false, ◌||◌, Option, none, some, List, [], ◌∷◌, map,
  arith, ◌==◌, take, length, length-take, length-map, Bool-cases, inl, inr, if◌then◌else◌, ap, ◌∙◌,
}
use lumina_ai.Rag.Chunk.{Floats, RetrievedChunk}
use lumina_ai.Rag.Fusion.{
  Entry, put, contains, fuse_group, fuse_groups, before, insert, sort, rescored, fuse_candidates,
}

abbrev pub All {ℓ} : {A : Type ℓ} → (A → Type 0) → List A → Type 0
All P [] = Unit
All P (x ∷ xs) = P x × All P xs

abbrev pub Distinct : List ℕ → Type 0
Distinct [] = Unit
Distinct (x ∷ xs) = (contains xs x ≡ false) × Distinct xs

module _ (f : Floats) where
  open f use {Float, zero_float, add, reciprocal}

  abbrev pub ids : List (Entry f) → List ℕ
  ids [] = []
  ids (e ∷ es) = e.chunk.chunk_id ∷ ids es

  -- The total of a key among the entries.
  abbrev pub find : ℕ → List (Entry f) → Option Float
  find key [] = none
  find key (e ∷ es) = if e.chunk.chunk_id == key then some e.total else find key es

  -- The specification: the first rank of a key in a route, and the sum over the routes.
  abbrev pub rank_in : ℕ → List (RetrievedChunk f) → ℕ → Option ℕ
  rank_in rank [] key = none
  rank_in rank (c ∷ cs) key = if c.chunk_id == key then some rank else rank_in (suc rank) cs key

  abbrev pub or_zero : Option Float → Float
  or_zero none = zero_float
  or_zero (some x) = x

  abbrev pub gain : ℕ → Option ℕ → Option Float → Option Float
  gain k none so_far = so_far
  gain k (some rank) so_far = some (add (or_zero so_far) (reciprocal (k + rank)))

  abbrev pub score_of : ℕ → List (List (RetrievedChunk f)) → ℕ → Option Float → Option Float
  score_of k [] key so_far = so_far
  score_of k (g ∷ gs) key so_far = score_of k gs key (gain k (rank_in 1 g key) so_far)

  find-put :
      (k route rank : ℕ) (c : RetrievedChunk f) (es : List (Entry f)) (key : ℕ)
      → find key (put f k route rank c es)
        ≡ (if c.chunk_id == key then gain k (some rank) (find key es) else find key es)
  unfolding put
  find-put k route rank c [] key = ground arith
  find-put k route rank c (e ∷ es) key = ground (arith, find-put k route rank c es key)

  find-fuse_group :
      (k route rank : ℕ) (seen : List ℕ) (g : List (RetrievedChunk f)) (es : List (Entry f))
      (key : ℕ)
      → find key (fuse_group f k route rank seen g es)
        ≡ (if contains seen key then find key es else gain k (rank_in rank g key) (find key es))
  unfolding fuse_group
  find-fuse_group k route rank seen [] es key = ground arith
  find-fuse_group k route rank seen (c ∷ cs) es key = ground (
    arith,
    find-fuse_group k route (suc rank) seen cs es key,
    find-fuse_group k route (suc rank) (c.chunk_id ∷ seen) cs (put f k route rank c es) key,
    find-put k route rank c es key,
  )

  pub find-fuse_groups :
      (k route : ℕ) (gs : List (List (RetrievedChunk f))) (es : List (Entry f)) (key : ℕ)
      → find key (fuse_groups f k route gs es) ≡ score_of k gs key (find key es)
  unfolding fuse_groups
  find-fuse_groups k route [] es key = refl
  find-fuse_groups k route (g ∷ gs) es key =
      find-fuse_groups k (suc route) gs (fuse_group f k route 1 [] g es) key
      ∙ ap (score_of k gs key) (find-fuse_group k route 1 [] g es key)

  contains-put :
      (k route rank : ℕ) (c : RetrievedChunk f) (es : List (Entry f)) (key : ℕ)
      → contains (ids (put f k route rank c es)) key ≡ (contains (ids es) key || c.chunk_id == key)
  unfolding put
  contains-put k route rank c [] key = ground arith
  contains-put k route rank c (e ∷ es) key = ground (arith, contains-put k route rank c es key)

  Distinct-put :
      (k route rank : ℕ) (c : RetrievedChunk f) (es : List (Entry f))
      → Distinct (ids es)
      → Distinct (ids (put f k route rank c es))
  unfolding put
  Distinct-put k route rank c [] h = (refl, tt)
  Distinct-put k route rank c (e ∷ es) h =
      ground
        (arith, Distinct-put k route rank c es h.1, contains-put k route rank c es e.chunk.chunk_id)

  Distinct-fuse_group :
      (k route rank : ℕ) (seen : List ℕ) (g : List (RetrievedChunk f)) (es : List (Entry f))
      → Distinct (ids es)
      → Distinct (ids (fuse_group f k route rank seen g es))
  unfolding fuse_group
  Distinct-fuse_group k route rank seen [] es h = h
  Distinct-fuse_group k route rank seen (c ∷ cs) es h =
      elim (Bool-cases (contains seen c.chunk_id)) [
        | inl again ↦ rw again (Distinct-fuse_group k route (suc rank) seen cs es h)
        | inr first ↦ rw first (
            Distinct-fuse_group k route (suc rank) (c.chunk_id ∷ seen) cs (put f k route rank c es)
              (Distinct-put k route rank c es h))
      ]

  Distinct-fuse_groups :
      (k route : ℕ) (gs : List (List (RetrievedChunk f))) (es : List (Entry f))
      → Distinct (ids es)
      → Distinct (ids (fuse_groups f k route gs es))
  unfolding fuse_groups
  Distinct-fuse_groups k route [] es h = h
  Distinct-fuse_groups k route (g ∷ gs) es h =
      Distinct-fuse_groups k (suc route) gs (fuse_group f k route 1 [] g es)
        (Distinct-fuse_group k route 1 [] g es h)

  -- Sorting keeps the entries: each key has the total that it had, and the keys stay distinct.
  contains-insert :
      (e : Entry f) (es : List (Entry f)) (key : ℕ)
      → contains (ids (insert f e es)) key ≡ contains (ids (e ∷ es)) key
  unfolding insert
  contains-insert e [] key = refl
  contains-insert e (x ∷ es) key = elim (Bool-cases (before f x e)) [
    | inl behind ↦ rw behind (ground (arith, contains-insert e es key))
    | inr front ↦ rw front
  ]

  pub contains-sort :
      (es : List (Entry f)) (key : ℕ) → contains (ids (sort f es)) key ≡ contains (ids es) key
  unfolding sort
  contains-sort [] key = refl
  contains-sort (e ∷ es) key =
      contains-insert e (sort f es) key
      ∙ ap (λ b. e.chunk.chunk_id == key || b) (contains-sort es key)

  Distinct-insert :
      (e : Entry f) (es : List (Entry f)) → Distinct (ids (e ∷ es)) → Distinct (ids (insert f e es))
  unfolding insert
  Distinct-insert e [] h = h
  Distinct-insert e (x ∷ es) h = elim (Bool-cases (before f x e)) [
    | inl behind ↦
        rw behind (
          ground
            (arith, contains-insert e es x.chunk.chunk_id, Distinct-insert e es (ground arith)))
    | inr front ↦ rw front h
  ]

  Distinct-sort : (es : List (Entry f)) → Distinct (ids es) → Distinct (ids (sort f es))
  unfolding sort
  Distinct-sort [] h = h
  Distinct-sort (e ∷ es) h =
      Distinct-insert e (sort f es) (contains-sort es e.chunk.chunk_id ∙ h.0, Distinct-sort es h.1)

  -- What holds of every entry holds of every sorted one.
  module _ (P : Entry f → Type 0) where
    pub All-insert : (e : Entry f) (es : List (Entry f)) → P e → All P es → All P (insert f e es)
    unfolding insert
    All-insert e [] p h = (p, tt)
    All-insert e (x ∷ es) p h = elim (Bool-cases (before f x e)) [
      | inl behind ↦ rw behind (h.0, All-insert e es p h.1)
      | inr front ↦ rw front (p, h)
    ]

    All-sort : (es : List (Entry f)) → All P es → All P (sort f es)
    unfolding sort
    All-sort [] h = tt
    All-sort (e ∷ es) h = All-insert e (sort f es) h.0 (All-sort es h.1)

  abbrev TotalIs : (ℕ → Option Float) → Entry f → Type 0
  TotalIs s e = s e.chunk.chunk_id ≡ some e.total

  All-total :
      (all es : List (Entry f))
      → ((key : ℕ) → contains (ids es) key ≡ true → find key all ≡ find key es)
      → Distinct (ids es)
      → All (TotalIs (λ key. find key all)) es
  All-total all [] same h = tt
  All-total all (e ∷ es) same h = (
    ground (arith, same e.chunk.chunk_id),
    All-total all es (λ key c. ground (arith, same key)) h.1,
  )

  -- A chunk's score is the sum of its reciprocal ranks over the routes.
  abbrev pub IsScored : ℕ → List (List (RetrievedChunk f)) → RetrievedChunk f → Type 0
  IsScored k groups c = score_of k groups c.chunk_id none ≡ some c.score

  abbrev pub chunk_ids : List (RetrievedChunk f) → List ℕ
  chunk_ids [] = []
  chunk_ids (c ∷ cs) = c.chunk_id ∷ chunk_ids cs

  All-take-rescored :
      (s : ℕ → Option Float) (n : ℕ) (es : List (Entry f))
      → All (TotalIs s) es
      → All (λ (c : RetrievedChunk f). s c.chunk_id ≡ some c.score) (map (rescored f) (take n es))
  All-take-rescored s zero es h = tt
  All-take-rescored s (suc n) [] h = tt
  All-take-rescored s (suc n) (e ∷ es) h = (h.0, All-take-rescored s n es h.1)

  contains-take :
      (n key : ℕ) (es : List (Entry f))
      → contains (ids es) key ≡ false
      → contains (chunk_ids (map (rescored f) (take n es))) key ≡ false
  contains-take zero key es h = refl
  contains-take (suc n) key [] h = refl
  contains-take (suc n) key (e ∷ es) h = ground (arith, contains-take n key es)

  Distinct-take :
      (n : ℕ) (es : List (Entry f))
      → Distinct (ids es)
      → Distinct (chunk_ids (map (rescored f) (take n es)))
  Distinct-take zero es h = tt
  Distinct-take (suc n) [] h = tt
  Distinct-take (suc n) (e ∷ es) h =
      (contains-take n e.chunk.chunk_id es h.0, Distinct-take n es h.1)

  fused_totals :
      (groups : List (List (RetrievedChunk f))) (k : ℕ)
      → All (TotalIs (λ key. score_of k groups key none)) (sort f (fuse_groups f k 0 groups []))
  fused_totals groups k =
      let es = fuse_groups f k 0 groups [] in
      All-sort (TotalIs (λ key. score_of k groups key none)) es (
        subst (λ s. All (TotalIs s) es) (fun_ext (find-fuse_groups k 0 groups []))
          (All-total es es (λ key c. refl) (Distinct-fuse_groups k 0 groups [] tt)))

  -- The fused list has each chunk once, at most `limit` of them, and each with the sum of the
  -- reciprocals of `k` plus its first rank in each route that has it, added in the routes' order.
  pub fused_scores :
      (groups : List (List (RetrievedChunk f))) (k limit : ℕ)
      → All (IsScored k groups) (fuse_candidates f groups k limit)
        × Distinct (chunk_ids (fuse_candidates f groups k limit))
        × (length (fuse_candidates f groups k limit) ≤ limit)
  unfolding fuse_candidates
  fused_scores groups k limit =
      let es = sort f (fuse_groups f k 0 groups []) in
      (
        All-take-rescored (λ key. score_of k groups key none) limit es (fused_totals groups k),
        Distinct-take limit es
            (Distinct-sort (fuse_groups f k 0 groups []) (Distinct-fuse_groups k 0 groups [] tt)),
        omega (arith, length-map (take limit es) (rescored f), length-take limit es),
      )
