-- ===== src/Etl/Sentences.antt =====
-- `_sentences` and `_hard_split` of backend/etl/chunk.py: a text as sentences, and a sentence as
-- slices.
pub mod Lossless
use lumina_ai.Prelude.{
  ℕ, zero, suc, ◌+◌, Bool, true, false, ◌||◌, List, [], ◌∷◌, ◌++◌, ◌==◌, length, take, drop, max,
  if◌then◌else◌,
}
use lumina_ai.Prelude.Texts.{Text, is_space, is_blank, is_empty, push_first}

-- What stands before a position of the text: a full stop that ends a sentence by itself, one that
-- needs a space after it, or anything else; or the separator that the position is in.
pub data Mode : Type 0 where
  hard soft plain spaces newlines : Mode

-- `[。！？；!?;]` and `[.!?]`; the latter's `!` and `?` are in the former.
abbrev pub after : ℕ → Mode
after c =
    if c == 0x3002 || c == 0xff01 || c == 0xff1f || c == 0xff1b || c == 33 || c == 63 || c == 59
    then hard
    else if c == 46
    then soft
    else plain

-- `_SENTENCE_BOUNDARY.split`: sentences and separators in turn. The first text of the result is the
-- rest of the one that the position is in.
pub split_at_boundaries : Mode → Text → List Text
split_at_boundaries hard [] = [] ∷ [] ∷ [] ∷ []
split_at_boundaries soft [] = [] ∷ []
split_at_boundaries plain [] = [] ∷ []
split_at_boundaries spaces [] = [] ∷ [] ∷ []
split_at_boundaries newlines [] = [] ∷ [] ∷ []
split_at_boundaries hard (c ∷ t) =
    let in_spaces = push_first c (split_at_boundaries spaces t) in
    let in_text = push_first c (split_at_boundaries (after c) t) in
    if is_space c then [] ∷ in_spaces else [] ∷ [] ∷ in_text
split_at_boundaries soft (c ∷ t) =
    let in_spaces = push_first c (split_at_boundaries spaces t) in
    let in_text = push_first c (split_at_boundaries (after c) t) in
    if is_space c then [] ∷ in_spaces else in_text
split_at_boundaries plain (c ∷ t) =
    let in_newlines = push_first c (split_at_boundaries newlines t) in
    let in_text = push_first c (split_at_boundaries (after c) t) in
    if c == 10 then [] ∷ in_newlines else in_text
split_at_boundaries spaces (c ∷ t) =
    let in_spaces = push_first c (split_at_boundaries spaces t) in
    let in_text = push_first c (split_at_boundaries (after c) t) in
    if is_space c then in_spaces else [] ∷ in_text
split_at_boundaries newlines (c ∷ t) =
    let in_newlines = push_first c (split_at_boundaries newlines t) in
    let in_text = push_first c (split_at_boundaries (after c) t) in
    if c == 10 then in_newlines else [] ∷ in_text

-- `parts[-1] += piece`.
abbrev pub add_to_last : List Text → Text → List Text
add_to_last [] piece = []
add_to_last (p ∷ []) piece = (p ++ piece) ∷ []
add_to_last (p ∷ q ∷ ps) piece = p ∷ add_to_last (q ∷ ps) piece

-- What the loop leaves, with its text when there is nothing.
abbrev pub finish_sentences : Text → List Text → Text → List Text
finish_sentences text [] [] = text ∷ []
finish_sentences text [] (c ∷ pending) = (c ∷ pending) ∷ []
finish_sentences text (p ∷ ps) [] = p ∷ ps
finish_sentences text (p ∷ ps) (c ∷ pending) = add_to_last (p ∷ ps) (c ∷ pending)

-- The loop, with `parts` and `pending`.
pub merge_pieces : Text → List Text → Text → List Text → List Text
merge_pieces text parts pending [] = finish_sentences text parts pending
merge_pieces text parts pending (piece ∷ pieces) =
    if is_empty piece
    then merge_pieces text parts pending pieces
    else if is_blank piece
    then (if is_empty parts
        then merge_pieces text parts (pending ++ piece) pieces
        else merge_pieces text (add_to_last parts piece) pending pieces)
    else merge_pieces text (parts ++ (pending ++ piece) ∷ []) [] pieces

unfoldable pub sentences : Text → List Text
unfolding split_at_boundaries merge_pieces
sentences text = merge_pieces text [] [] (split_at_boundaries plain text)

-- The slices of `step` characters, as many as `fuel` at most.
pub slices : ℕ → ℕ → Text → List Text
slices zero step t = []
slices (suc fuel) step [] = []
slices (suc fuel) step (c ∷ t) = take step (c ∷ t) ∷ slices fuel step (drop step (c ∷ t))

-- `int(budget / (max(count, 1) / len(text)))` is computed on floats, which are a parameter; a step
-- is at least 1, so a text has no more slices than characters.
unfoldable pub hard_split : (ℕ → ℕ → ℕ → ℕ) → (Text → ℕ) → ℕ → Text → List Text
unfolding slices
hard_split scaled count budget text =
    slices (length text) (max (scaled budget (max (count text) 1) (length text)) 1) text
