-- ===== src/Rag/Fusion.antt =====
-- `fuse_candidates` of backend/rag/pipeline.py: reciprocal rank fusion of several routes.
pub mod Scores
pub mod Order
use lumina_ai.Prelude.{
  ℕ, zero, suc, ◌+◌, Bool, true, false, ◌&&◌, ◌||◌, Option, none, some, List, [], ◌∷◌, ◌++◌, map,
  ltb, leb, ◌==◌, take, if◌then◌else◌,
}
use lumina_ai.Rag.Chunk.{Floats, RetrievedChunk, less, equal}

-- `key in seen_in_group`.
abbrev pub contains : List ℕ → ℕ → Bool
contains [] key = false
contains (x ∷ xs) key = x == key || contains xs key

module _ (f : Floats) where
  open f use {Float, zero_float, add, reciprocal, leq}

  abbrev Chunk : Type 0
  Chunk = RetrievedChunk f

  -- The entries of the dictionaries `scores`, `chunks` and `best` under one key, which are always
  -- written together; the list is in the order of insertion.
  pub record Entry : Type 0 where
    pub chunk : Chunk
    pub total : Float
    pub rank : ℕ
    pub route : ℕ

  -- `min((rank, index), …)` on pairs.
  abbrev pub pair_less : ℕ → ℕ → ℕ → ℕ → Bool
  pair_less a b c d = ltb a c || (a == c && ltb b d)

  abbrev pub improve : Entry → ℕ → ℕ → Float → Entry
  improve e rank route gain =
      if pair_less rank route e.rank e.route
      then record e { total = add e.total gain; rank = rank; route = route }
      else record e { total = add e.total gain }

  -- One chunk at a rank of a route.
  pub put : ℕ → ℕ → ℕ → Chunk → List Entry → List Entry
  put k route rank chunk [] =
      record {
        chunk = chunk;
        total = add zero_float (reciprocal (k + rank));
        rank = rank;
        route = route;
      }
      ∷ []
  put k route rank chunk (e ∷ es) =
      if e.chunk.chunk_id == chunk.chunk_id
      then improve e rank route (reciprocal (k + rank)) ∷ es
      else e ∷ put k route rank chunk es

  -- The inner loop: a chunk that the route has had already is passed over, its rank is used up.
  pub fuse_group : ℕ → ℕ → ℕ → List ℕ → List Chunk → List Entry → List Entry
  fuse_group k route rank seen [] es = es
  fuse_group k route rank seen (c ∷ cs) es =
      let again = fuse_group k route (suc rank) seen cs es in
      let first = fuse_group k route (suc rank) (c.chunk_id ∷ seen) cs (put k route rank c es) in
      if contains seen c.chunk_id then again else first

  pub fuse_groups : ℕ → ℕ → List (List Chunk) → List Entry → List Entry
  fuse_groups k route [] es = es
  fuse_groups k route (g ∷ gs) es = fuse_groups k (suc route) gs (fuse_group k route 1 [] g es)

  -- The sort key `(-score, best, str(key))`: does `a` stand strictly before `b`?
  abbrev pub before : Entry → Entry → Bool
  before a b =
      less f b.total a.total
      || (equal f a.total b.total
          && (pair_less a.rank a.route b.rank b.route
              || (a.rank == b.rank && a.route == b.route && ltb a.chunk.chunk_id b.chunk.chunk_id)))

  -- `sorted` is stable: an entry goes behind those that do not stand strictly after it.
  pub insert : Entry → List Entry → List Entry
  insert e [] = e ∷ []
  insert e (x ∷ xs) = if before x e then x ∷ insert e xs else e ∷ x ∷ xs

  pub sort : List Entry → List Entry
  sort [] = []
  sort (e ∷ es) = insert e (sort es)

  abbrev pub rescored : Entry → Chunk
  rescored e = record e.chunk { score = e.total }

  pub fuse_candidates : List (List Chunk) → ℕ → ℕ → List Chunk
  unfolding fuse_groups fuse_group put sort insert
  fuse_candidates groups k limit = map rescored (take limit (sort (fuse_groups k 0 groups [])))
