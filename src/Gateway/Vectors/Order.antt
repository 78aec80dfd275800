-- ===== src/Gateway/Vectors/Order.antt =====
-- The vectors that `embed` of backend/ai/gateway/providers/openai_compatible.py returns belong to
-- the texts that were sent, in their order.
use mathlib.Core.List.{Perm}
use mathlib.Core.List.Perm as Permutation
use mathlib.Core.Option
use lumina_ai.Prelude.{
  ℕ, suc, ◌≡◌, ◌⊎◌, inl, inr, refl, sym, ap, ◌∙◌, true, false, Option, none, some, List, [], ◌∷◌,
  map, length, length-map, ◌==◌, arith, Bool-cases,
}
use lumina_ai.Prelude.Int.{ℤ, pos, leb_ℤ}
use lumina_ai.Prelude.Texts.{Text, codes}
use lumina_ai.Gateway.Embed.{Embedding, Result, ok, raised}
use lumina_ai.Gateway.Json.{
  Json, null, bool, int, float, str, arr, obj, Items, nil, cons, Fields, Python, get,
}
use lumina_ai.Gateway.Rerank.{Reply}
use lumina_ai.Gateway.Vectors.{
  FloatOps, objects, count_items, any_index, insert, sort, is_range, index_or_zero, pair_with,
  resolved, ordered_or, ordered, read_vectors, both, read_vector, parse, parse_rows, vectors_of,
  embedding_or, embed_batch, parse_reply, post, ◌>>=◌,
}

module _ {A : Type 0} where
  insert-Perm : (p : ℤ × A) (qs : List (ℤ × A)) → Perm (insert p qs) (p ∷ qs)
  unfolding insert
  insert-Perm p [] = Permutation.refl (p ∷ [])
  insert-Perm p (q ∷ qs) = elim (Bool-cases (leb_ℤ p.0 q.0)) [
    | inl first ↦ rw (first, insert) (Permutation.refl (p ∷ q ∷ qs))
    | inr later ↦
        rw (later, insert)
          (Permutation.trans (Permutation.cons q (insert-Perm p qs)) (Permutation.swap p q qs))
  ]

  sort-Perm : (ps : List (ℤ × A)) → Perm (sort ps) ps
  unfolding sort
  sort-Perm [] = Permutation.refl []
  sort-Perm (p ∷ ps) =
      Permutation.trans (insert-Perm p (sort ps)) (Permutation.cons p (sort-Perm ps))

module _ (py : Python) where
  -- The index that a row has, 0 if it has none.
  abbrev pub index_of : Fields → Option ℤ
  index_of row = index_or_zero py (get (codes "index") row)

  -- The rows have the indices from `i` on, in this order.
  abbrev pub Numbered : ℕ → List Fields → Type 0
  Numbered i [] = Unit {0}
  Numbered i (row ∷ rows) = (index_of row ≡ some (pos i)) × Numbered (suc i) rows

  abbrev Keyed : List (ℤ × Fields) → Type 0
  Keyed [] = Unit {0}
  Keyed ((i, row) ∷ pairs) = (index_of row ≡ some i) × Keyed pairs

  insert-Keyed :
      (i : ℤ) (row : Fields) (pairs : List (ℤ × Fields))
      → index_of row ≡ some i
      → Keyed pairs
      → Keyed (insert (i, row) pairs)
  unfolding insert
  insert-Keyed i row [] e keyed = (e, tt)
  insert-Keyed i row ((j, other) ∷ pairs) e keyed = elim (Bool-cases (leb_ℤ i j)) [
    | inl first ↦ rw (first, insert) (e, keyed)
    | inr later ↦ rw (later, insert) (keyed.0, insert-Keyed i row pairs e keyed.1)
  ]

  sort-Keyed : (pairs : List (ℤ × Fields)) → Keyed pairs → Keyed (sort pairs)
  unfolding sort
  sort-Keyed [] keyed = tt
  sort-Keyed ((i, row) ∷ pairs) keyed =
      insert-Keyed i row (sort pairs) keyed.0 (sort-Keyed pairs keyed.1)

  range-Numbered :
      (i : ℕ) (pairs : List (ℤ × Fields))
      → Keyed pairs
      → is_range i (map (λ p. p.0) pairs) ≡ true
      → Numbered i (map (λ p. p.1) pairs)
  unfolding is_range
  range-Numbered i [] keyed e = tt
  range-Numbered i ((j, row) ∷ pairs) keyed e = (
    keyed.0 ∙ ap some (ground (arith, e)),
    range-Numbered (suc i) pairs keyed.1 (ground (arith, e)),
  )

  abbrev IsResolved : List Fields → Option (List (ℤ × Fields)) → Type 0
  IsResolved rows none = Unit {0}
  IsResolved rows (some pairs) = Keyed pairs × (map (λ p. p.1) pairs ≡ rows)

  resolved-IsResolved : (rows : List Fields) → IsResolved rows (resolved py rows)
  unfolding resolved
  resolved-IsResolved [] = (tt, refl)
  resolved-IsResolved (row ∷ rows) =
      paired (index_of row) refl (resolved py rows) (resolved-IsResolved rows)
    where
      paired :
          (i : Option ℤ)
          → index_of row ≡ i
          → (more : Option (List (ℤ × Fields))) → IsResolved rows more
          → IsResolved (row ∷ rows) (pair_with py row i more)
      paired none e more rest = tt
      paired (some i) e none rest = tt
      paired (some i) e (some pairs) (keyed, same) = ((e, keyed), ap (λ l. row ∷ l) same)

  -- What `_ordered` returns: the rows by their indices 0, 1 and so on; or the rows as they came, if
  -- none of them has an index.
  abbrev pub IsInOrder : List Fields → Option (List Fields) → Type 0
  IsInOrder rows none = Unit {0}
  IsInOrder rows (some in_order) =
      Perm in_order rows × (Numbered 0 in_order ⊎ ((any_index rows ≡ false) × (in_order ≡ rows)))

  ordered-IsInOrder : (rows : List Fields) → IsInOrder rows (ordered py rows)
  unfolding ordered
  ordered-IsInOrder rows = sorted_rows (resolved py rows) (resolved-IsResolved rows)
    where
      sorted_rows :
          (r : Option (List (ℤ × Fields)))
          → IsResolved rows r
          → IsInOrder rows (ordered_or py rows r)
      sorted_rows none found = tt
      sorted_rows (some pairs) (keyed, same) =
          elim (Bool-cases (is_range 0 (map (λ p. p.0) (sort pairs)))) [
            | inl whole ↦ rw whole (
              rw (← same) (Permutation.map (λ p. p.1) (sort-Perm pairs)),
              inl (range-Numbered 0 (sort pairs) (sort-Keyed pairs keyed) whole),
            )
            | inr gaps ↦ elim (Bool-cases (any_index rows)) [
              | inl explicit ↦ rw (gaps, explicit) tt
              | inr plain ↦ rw (gaps, plain) (Permutation.refl rows, inr (plain, refl))
            ]
          ]

-- How many there are, if there are any.
abbrev Counts : {A : Type 0} → ℕ → Option (List A) → Type 0
Counts n none = Unit {0}
Counts n (some xs) = length xs ≡ n

module _ {A : Type 0} where
  insert-length : (p : ℤ × A) (qs : List (ℤ × A)) → length (insert p qs) ≡ suc (length qs)
  unfolding insert
  insert-length p [] = refl
  insert-length p (q ∷ qs) = ground (arith, insert-length p qs)

  sort-length : (ps : List (ℤ × A)) → length (sort ps) ≡ length ps
  unfolding sort
  sort-length [] = refl
  sort-length (p ∷ ps) = insert-length p (sort ps) ∙ ap suc (sort-length ps)

ordered-Counts : (py : Python) (rows : List Fields) → Counts (length rows) (ordered py rows)
unfolding ordered
ordered-Counts py rows = sorted_rows (resolved py rows) (resolved-IsResolved py rows)
  where
    sorted_rows :
        (r : Option (List (ℤ × Fields)))
        → IsResolved py rows r
        → Counts (length rows) (ordered_or py rows r)
    sorted_rows none found = tt
    sorted_rows (some pairs) (keyed, same) =
        let as_many : length pairs ≡ length rows =
          sym (length-map pairs (λ p. p.1)) ∙ ap length same in
        let sorted_many : length (map (λ p. p.1) (sort pairs)) ≡ length rows =
          length-map (sort pairs) (λ p. p.1) ∙ sort-length pairs ∙ as_many in
        elim (Bool-cases (is_range 0 (map (λ p. p.0) (sort pairs)))) [
          | inl whole ↦ rw whole sorted_many
          | inr gaps ↦ elim (Bool-cases (any_index rows)) [
            | inl explicit ↦ rw (gaps, explicit) tt
            | inr plain ↦ rw (gaps, plain) refl
          ]
        ]

module _ (o : FloatOps) (py : Python) where
  -- The vectors are those of the rows of the response, as many as the texts, in order.
  abbrev pub Belongs : List Text → Result Fields → Result (Embedding o.Float) → Type 0
  Belongs texts reply (raised e) = Unit {0}
  Belongs texts (raised e') (ok e) = ⊥
  Belongs texts (ok body) (ok e) =
      (length e.vectors ≡ length texts)
      × (rows : Items) × (get (codes "data") body ≡ some (arr rows))
      × (found : List Fields) × (objects rows ≡ some found)
      × (length found ≡ length texts)
      × (in_order : List Fields) × IsInOrder py found (some in_order)
      × (read_vectors o in_order ≡ some e.vectors)

  objects-Counts : (rows : Items) → Counts (count_items rows) (objects rows)
  unfolding objects count_items
  objects-Counts nil = refl
  objects-Counts (cons (obj fs) rest) = one_more (objects rest) (objects-Counts rest)
    where
      one_more :
          (r : Option (List Fields))
          → Counts (count_items rest) r
          → Counts (suc (count_items rest)) (Option.map (λ l. fs ∷ l) r)
      one_more none counted = tt
      one_more (some l) counted = ap suc counted
  objects-Counts (cons null rest) = tt
  objects-Counts (cons (bool b) rest) = tt
  objects-Counts (cons (int n) rest) = tt
  objects-Counts (cons (float t) rest) = tt
  objects-Counts (cons (str t) rest) = tt
  objects-Counts (cons (arr xs) rest) = tt

  read_vectors-Counts : (rows : List Fields) → Counts (length rows) (read_vectors o rows)
  unfolding read_vectors
  read_vectors-Counts [] = refl
  read_vectors-Counts (row ∷ rows) =
      one_more (read_vector o row) (read_vectors o rows) (read_vectors-Counts rows)
    where
      one_more :
          (v : Option (List o.Float)) (r : Option (List (List o.Float)))
          → Counts (length rows) r
          → Counts (suc (length rows)) (both v r)
      one_more none r counted = tt
      one_more (some v) none counted = tt
      one_more (some v) (some l) counted = ap suc counted

  rows-Belongs :
      (body : Fields) (texts : List Text) (model : Text) (rows : Items)
      → get (codes "data") body ≡ some (arr rows)
      → count_items rows ≡ length texts
      → Belongs texts (ok body) (embedding_or o py body texts model (vectors_of o py rows))
  rows-Belongs body texts model rows sent many =
      with_objects (objects rows) refl (objects-Counts rows)
    where
      with_vectors :
          (found in_order : List Fields) (vs : Option (List (List o.Float)))
          → read_vectors o in_order ≡ vs
          → length found ≡ length texts
          → IsInOrder py found (some in_order)
          → Counts (length found) (some in_order)
          → Counts (length in_order) vs
          → objects rows ≡ some found
          → Belongs texts (ok body) (embedding_or o py body texts model vs)
      with_vectors found in_order none e n order m k f = tt
      with_vectors found in_order (some vs) e n order m k f =
          (k ∙ m ∙ n, rows, sent, found, f, n, in_order, order, e)

      with_order :
          (found : List Fields) (r : Option (List Fields))
          → length found ≡ length texts
          → IsInOrder py found r
          → Counts (length found) r
          → objects rows ≡ some found
          → Belongs texts (ok body) (embedding_or o py body texts model (r >>= read_vectors o))
      with_order found none n order m f = tt
      with_order found (some in_order) n order m f =
          with_vectors found in_order (read_vectors o in_order) refl n order m
            (read_vectors-Counts in_order) f

      with_objects :
          (r : Option (List Fields))
          → objects rows ≡ r
          → Counts (count_items rows) r
          → Belongs texts (ok body) (
              embedding_or o py body texts model
                (r >>= λ found. ordered py found >>= read_vectors o))
      with_objects none f n = tt
      with_objects (some found) f n =
          with_order found (ordered py found) (n ∙ many) (ordered-IsInOrder py found)
            (ordered-Counts py found) f

  parse_reply-Belongs :
      (texts : List Text) (model : Text) (r : Result Fields)
      → Belongs texts r (parse_reply o py texts model r)
  unfolding parse
  parse_reply-Belongs texts model (raised e) = tt
  parse_reply-Belongs texts model (ok body) = with_data (get (codes "data") body) refl
    where
      with_data :
          (d : Option Json)
          → get (codes "data") body ≡ d
          → Belongs texts (ok body) (parse_rows o py body texts model d)
      with_data (some (arr rows)) sent = elim (Bool-cases (count_items rows == length texts)) [
        | inl many ↦ rw many (rows-Belongs body texts model rows sent (ground (arith, many)))
        | inr few ↦ rw few tt
      ]
      with_data none sent = tt
      with_data (some null) sent = tt
      with_data (some (bool b)) sent = tt
      with_data (some (int n)) sent = tt
      with_data (some (float t)) sent = tt
      with_data (some (str t)) sent = tt
      with_data (some (obj fs)) sent = tt

  -- Whatever is replied to a batch that is not empty: if `embed` returns vectors, the rows under `data`
  -- of the reply and the vectors are as many as the texts, and the vector at a place is read from the
  -- row with that index, each row being used once; if no row has an index, from the row at that place.
  pub embed_batch-Belongs :
      (ask : List Text → Text → Reply) (t : Text) (ts : List Text) (model : Text)
      → Belongs (t ∷ ts) (post (ask (t ∷ ts) model)) (embed_batch o py ask (t ∷ ts) model)
  unfolding embed_batch
  embed_batch-Belongs ask t ts model =
      parse_reply-Belongs (t ∷ ts) model (post (ask (t ∷ ts) model))
