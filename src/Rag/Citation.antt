-- ===== src/Rag/Citation.antt =====
-- backend/rag/citation.py: the citations of an answer, and the markers that match no passage.
pub mod Found
pub mod Markers
use lumina_ai.Prelude.{
  ℕ, zero, suc, ◌+◌, Bool, true, false, ◌||◌, Option, none, some, List, [], ◌∷◌, ◌++◌, leb, ◌==◌,
  length, take, if◌then◌else◌,
}
use lumina_ai.Prelude.Texts.{Text, codes, is_space, same_text, strip, decimal}
use lumina_ai.Rag.Chunk.{Floats, RetrievedChunk}

abbrev pub snippet_max_chars : ℕ
snippet_max_chars = 240

-- The marker of the passage at an index.
unfoldable pub marker_for : ℕ → Text
marker_for index = codes (decimal (index + 1))

-- `[^\]\s]*` up to a closing bracket: what the brackets enclose, where they do.
pub until_close : Text → Option Text
until_close [] = none
until_close (c ∷ t) =
    let rest = until_close t in
    if c == 93
    then some []
    else if is_space c
    then none
    else elim rest [ none ↦ none | some m ↦ some (c ∷ m) ]

pub not_empty : Option Text → Option Text
not_empty (some (c ∷ m)) = some (c ∷ m)
not_empty _ = none

-- A match of `\[c:([^\]\s]+)\]` at the beginning of the text.
abbrev pub after_prefix : Text → Option Text
after_prefix (a ∷ b ∷ c ∷ t) =
    if a == 91 then (if b == 99 then (if c == 58 then some t else none) else none) else none
after_prefix _ = none

pub marker_at : Text → Option Text
unfolding until_close not_empty
marker_at t = elim (after_prefix t) [ none ↦ none | some rest ↦ not_empty (until_close rest) ]

-- `findall`: matches do not overlap, so the rest of a match is skipped.
pub find_markers : ℕ → Text → List Text
unfolding marker_at
find_markers skip [] = []
find_markers zero (c ∷ t) = elim (marker_at (c ∷ t)) [
  | none ↦ find_markers zero t
  | some m ↦ m ∷ find_markers (3 + length m) t
]
find_markers (suc skip) (c ∷ t) = find_markers skip t

unfoldable pub extract_markers : Text → List Text
unfolding find_markers
extract_markers text = find_markers zero text

-- `_snippet`.
unfoldable pub snippet_of : Text → Text
snippet_of content =
    let text = strip content in
    if leb (length text) snippet_max_chars then text else take snippet_max_chars text ++ 0x2026 ∷ []

-- `marker in markers`.
abbrev pub is_in : List Text → Text → Bool
is_in [] marker = false
is_in (m ∷ ms) marker = same_text m marker || is_in ms marker

module _ (f : Floats) where
  pub record Citation : Type 0 where
    pub marker : Text
    pub chunk_id : ℕ
    pub doc_id : ℕ
    pub doc_name : Text
    pub doc_version : ℕ
    pub page : Option ℕ
    pub heading_path : List Text
    pub score : f.Float
    pub snippet : Text

  pub record CitationResult : Type 0 where
    pub citations : List Citation
    pub dropped_markers : List Text

  -- The dictionary from markers to chunks, from an index on: a later entry replaces an earlier one
  -- under the same key.
  abbrev pub by_marker : ℕ → List (RetrievedChunk f) → Text → Option (RetrievedChunk f)
  by_marker index [] marker = none
  by_marker index (c ∷ cs) marker = elim (by_marker (suc index) cs marker) [
    | some later ↦ some later
    | none ↦ if same_text (marker_for index) marker then some c else none
  ]

  -- `_citation`.
  unfoldable pub citation_of : Text → RetrievedChunk f → Citation
  citation_of marker chunk = record {
    marker = marker;
    chunk_id = chunk.chunk_id;
    doc_id = chunk.document_id;
    doc_name = chunk.document_name;
    doc_version = chunk.doc_version;
    page = chunk.page;
    heading_path = chunk.heading_path;
    score = chunk.score;
    snippet = snippet_of chunk.content;
  }

  -- The loop, with `citations`, `dropped` and `used`.
  pub collect :
      (Text → Option (RetrievedChunk f))
      → List Text
      → List Citation
      → List Text
      → List Text
      → CitationResult
  collect find [] citations dropped used = record {
    citations = citations;
    dropped_markers = dropped;
  }
  collect find (m ∷ ms) citations dropped used = elim (find m) [
    | none ↦ collect find ms citations (if is_in dropped m then dropped else dropped ++ m ∷ []) used
    | some chunk ↦
        if is_in used m
        then collect find ms citations dropped used
        else collect find ms (citations ++ citation_of m chunk ∷ []) dropped (used ++ m ∷ [])
  ]

  unfoldable pub assemble_citations : Text → List (RetrievedChunk f) → CitationResult
  unfolding collect
  assemble_citations text chunks = collect (by_marker 0 chunks) (extract_markers text) [] [] []
