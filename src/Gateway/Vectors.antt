-- ===== src/Gateway/Vectors.antt =====
-- `OpenAICompatibleProvider.embed` of backend/ai/gateway/providers/openai_compatible.py, after the
-- request. The operations on floats are parameters.
pub mod Order
use mathlib.Core.Option
use lumina_ai.Prelude.{
  ℕ, zero, suc, ◌+◌, ◌/◌, max, Bool, true, false, not, ◌&&◌, ◌||◌, Option, none, some, List, [],
  ◌∷◌, map, length, ltb, leb, ◌==◌, if◌then◌else◌,
}
use lumina_ai.Prelude.Int.{ℤ, pos, negsuc, leb_ℤ}
use lumina_ai.Prelude.Texts.{Text, codes}
use lumina_ai.Gateway.Chat.{ProviderError, timeout, unavailable}
use lumina_ai.Gateway.Stream.{chars_per_token}
use lumina_ai.Gateway.Embed.{Embedding, Result, ok, raised}
use lumina_ai.Gateway.Json.{
  Json, null, bool, int, float, str, arr, obj, Items, nil, cons, Fields, end, field, Python, get,
  to_int, is_truthy, text_or,
}
use lumina_ai.Gateway.Sse.{same_int, error_for}
use lumina_ai.Gateway.Rerank.{Reply, no_answer, no_connection, answered}

pub record FloatOps : Type 1 where
  pub Float : Type 0
  pub zero_float : Float
  pub add : Float → Float → Float
  pub mul : Float → Float → Float
  pub div : Float → Float → Float
  pub sqrt : Float → Float
  pub is_zero : Float → Bool
  pub to_float : Json → Option Float

-- `_post`: the body is an object, or the call fails.
abbrev pub object_or : Option Json → Result Fields
object_or (some (obj fs)) = ok fs
object_or _ = raised unavailable

unfoldable pub post : Reply → Result Fields
unfolding error_for
post no_answer = raised timeout
post no_connection = raised unavailable
post (answered status body) = if leb 400 status then raised (error_for status) else object_or body

-- The rows, if all are objects.
unfoldable pub objects : Items → Option (List Fields)
objects nil = some []
objects (cons (obj fs) rest) = Option.map (λ r. fs ∷ r) (objects rest)
objects (cons _ rest) = none

unfoldable pub count_items : Items → ℕ
count_items nil = 0
count_items (cons x xs) = suc (count_items xs)

abbrev is_there : Option Json → Bool
is_there none = false
is_there (some v) = true

unfoldable pub any_index : List Fields → Bool
unfolding get
any_index [] = false
any_index (row ∷ rows) = is_there (get (codes "index") row) || any_index rows

-- A stable insertion by key, and `sorted`.
module _ {A : Type 0} where
  unfoldable pub insert : ℤ × A → List (ℤ × A) → List (ℤ × A)
  insert p [] = p ∷ []
  insert p (q ∷ qs) = let rest = insert p qs in if leb_ℤ p.0 q.0 then p ∷ q ∷ qs else q ∷ rest

  unfoldable pub sort : List (ℤ × A) → List (ℤ × A)
  unfolding insert
  sort [] = []
  sort (p ∷ ps) = insert p (sort ps)

-- `resolved == list(range(n))`, from `i` on.
unfoldable pub is_range : ℕ → List ℤ → Bool
is_range i [] = true
is_range i (n ∷ ns) = same_int n (pos i) && is_range (suc i) ns

module _ (py : Python) where
  -- `int(row.get("index", 0))`.
  abbrev pub index_or_zero : Option Json → Option ℤ
  index_or_zero none = some (pos 0)
  index_or_zero (some v) = to_int py v

  abbrev pub pair_with : Fields → Option ℤ → Option (List (ℤ × Fields)) → Option (List (ℤ × Fields))
  pair_with row (some i) (some pairs) = some ((i, row) ∷ pairs)
  pair_with row _ _ = none

  -- `zip(resolved, rows)`.
  unfoldable pub resolved : List Fields → Option (List (ℤ × Fields))
  unfolding get to_int
  resolved [] = some []
  resolved (row ∷ rows) = pair_with row (index_or_zero (get (codes "index") row)) (resolved rows)

  -- The keys of the sorted pairs are the sorted numbers.
  abbrev pub ordered_pairs : List Fields → List (ℤ × Fields) → Option (List Fields)
  ordered_pairs rows sorted =
      if is_range 0 (map (λ p. p.0) sorted)
      then some (map (λ p. p.1) sorted)
      else if any_index rows
      then none
      else some rows

  abbrev pub ordered_or : List Fields → Option (List (ℤ × Fields)) → Option (List Fields)
  ordered_or rows none = none
  ordered_or rows (some pairs) = ordered_pairs rows (sort pairs)

  -- `_ordered`; `none` is an error.
  unfoldable pub ordered : List Fields → Option (List Fields)
  unfolding resolved sort is_range any_index
  ordered rows = ordered_or rows (resolved rows)

  -- `usage.get("prompt_tokens") or usage.get("total_tokens")`.
  abbrev first_truthy : Option Json → Option Json → Option Json
  first_truthy a b = if is_truthy py a then a else b

  abbrev positive_or : ℕ → Option Json → ℕ
  positive_or guess (some (int (pos n))) = if n == 0 then guess else n
  positive_or guess (some (bool true)) = 1
  positive_or guess _ = guess

  abbrev sum_chars : List Text → ℕ
  sum_chars [] = 0
  sum_chars (t ∷ ts) = length t + sum_chars ts

  abbrev usage_or : ℕ → Option Json → ℕ
  usage_or guess (some (obj u)) =
      positive_or guess
        (first_truthy (get (codes "prompt_tokens") u) (get (codes "total_tokens") u))
  usage_or guess _ = guess

  unfoldable pub usage_tokens : Fields → List Text → ℕ
  unfolding get is_truthy
  usage_tokens body texts =
      usage_or (max 1 (sum_chars texts / chars_per_token)) (get (codes "usage") body)

-- What a loop over a value yields: the characters of a text, the keys of an object.
unfoldable pub characters : Text → List Json
characters [] = []
characters (c ∷ t) = str (c ∷ []) ∷ characters t

unfoldable pub elements : Items → List Json
elements nil = []
elements (cons x xs) = x ∷ elements xs

unfoldable pub field_names : Fields → List Json
field_names end = []
field_names (field k v rest) = str k ∷ field_names rest

unfoldable pub iterated : Json → Option (List Json)
unfolding characters elements field_names
iterated (arr xs) = some (elements xs)
iterated (str t) = some (characters t)
iterated (obj fs) = some (field_names fs)
iterated _ = none

abbrev pub both {ℓ} : {A : Type ℓ} → Option A → Option (List A) → Option (List A)
both (some x) (some xs) = some (x ∷ xs)
both _ _ = none

infixl 5 ◌>>=◌
abbrev pub ◌>>=◌ {ℓ κ} : {A : Type ℓ} {B : Type κ} → Option A → (A → Option B) → Option B
none >>= f = none
some a >>= f = f a

module _ (o : FloatOps) where
  open o use {Float, zero_float, add, mul, div, sqrt, is_zero, to_float}

  -- `sum(value * value for value in vector)`, from a total on.
  unfoldable pub sum_squares : Float → List Float → Float
  sum_squares total [] = total
  sum_squares total (v ∷ vs) = sum_squares (add total (mul v v)) vs

  -- `_unit`.
  unfoldable pub unit : List Float → List Float
  unfolding sum_squares
  unit vector =
      let norm = sqrt (sum_squares zero_float vector) in
      if is_zero norm then vector else map (λ v. div v norm) vector

  unfoldable pub floats : List Json → Option (List Float)
  floats [] = some []
  floats (x ∷ xs) = both (to_float x) (floats xs)

  abbrev pub read_vector : Fields → Option (List Float)
  read_vector row = do
    value ← get (codes "embedding") row
    values ← iterated value
    vector ← floats values
    some (unit vector)

  -- The vectors of the rows; `none` is an error.
  unfoldable pub read_vectors : List Fields → Option (List (List Float))
  unfolding get iterated floats unit
  read_vectors [] = some []
  read_vectors (row ∷ rows) = both (read_vector row) (read_vectors rows)

  module _ (py : Python) where
    abbrev pub embedding_or :
        Fields → List Text → Text → Option (List (List Float)) → Result (Embedding Float)
    embedding_or body texts model none = raised unavailable
    embedding_or body texts model (some vectors) = ok (record {
      vectors = vectors;
      model = text_or py (get (codes "model") body) model;
      prompt_tokens = usage_tokens py body texts;
    })

    abbrev pub vectors_of : Items → Option (List (List Float))
    vectors_of rows = do found ← objects rows; in_order ← ordered py found; read_vectors in_order

    abbrev pub parse_rows : Fields → List Text → Text → Option Json → Result (Embedding Float)
    parse_rows body texts model (some (arr rows)) =
        if count_items rows == length texts
        then embedding_or body texts model (vectors_of rows)
        else raised unavailable
    parse_rows body texts model _ = raised unavailable

    -- `_parse`.
    unfoldable pub parse : Fields → List Text → Text → Result (Embedding Float)
    unfolding get objects ordered read_vectors count_items usage_tokens text_or
    parse body texts model = parse_rows body texts model (get (codes "data") body)

    abbrev pub parse_reply : List Text → Text → Result Fields → Result (Embedding Float)
    parse_reply texts model (raised e) = raised e
    parse_reply texts model (ok body) = parse body texts model

    -- `embed`: an empty batch is not sent.
    unfoldable pub embed_batch :
        (List Text → Text → Reply) → List Text → Text → Result (Embedding Float)
    unfolding parse post
    embed_batch ask [] model = ok (record { vectors = []; model = model; prompt_tokens = 0 })
    embed_batch ask (t ∷ ts) model = parse_reply (t ∷ ts) model (post (ask (t ∷ ts) model))
