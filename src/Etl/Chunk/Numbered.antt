-- ===== src/Etl/Chunk/Numbered.antt =====
-- The chunks of a document: their numbers, their token counts, and that none is empty.
use lumina_ai.Prelude.{
  ℕ, suc, ◌+◌, ◌≡◌, refl, ◌∙◌, inl, inr, Bool, true, false, Option, List, [], ◌∷◌, ◌++◌, arith,
  length, Bool-cases, if◌then◌else◌,
}
use lumina_ai.Prelude.Texts.{Text, is_empty, is_blank, strip}
use lumina_ai.Etl.Chunk.{
  Block, heading, table, code, paragraph, caption, ChunkConfig, TextChunk, Builder, emit, flush,
  start_section, add_atomic, add_pieces, add_text, add_of_kind, BlockType, add_blocks,
  empty_builder, chunk_document, joined, fits, append_part, or_page, split_to_fit, budget_for_body,
  block_to_markdown,
}

module _ (count : Text → ℕ) (scaled : ℕ → ℕ → ℕ → ℕ) (config : ChunkConfig) where
  -- The chunks are numbered from `n`, none of them is empty, and each has the count of its text.
  abbrev pub IsNumbered : ℕ → List TextChunk → Type 0
  IsNumbered n [] = Unit
  IsNumbered n (c ∷ cs) =
      (c.seq ≡ n)
      × (c.token_count ≡ count c.text)
      × (is_empty c.text ≡ false)
      × IsNumbered (suc n) cs

  IsNumbered-append :
      (n : ℕ) (cs : List TextChunk) (c : TextChunk)
      → IsNumbered n cs
      → c.seq ≡ n + length cs
      → c.token_count ≡ count c.text
      → is_empty c.text ≡ false
      → IsNumbered n (cs ++ c ∷ [])
  IsNumbered-append n [] c h s t e = (s ∙ omega arith, t, e, tt)
  IsNumbered-append n (x ∷ cs) c h s t e =
      (h.0, h.1, h.2, IsNumbered-append (suc n) cs c h.3 (s ∙ omega arith) t e)

  abbrev Good : Builder → Type 0
  Good b = IsNumbered 0 b.chunks

  Good-if : (t : Bool) (x y : Builder) → Good x → Good y → Good (if t then x else y)
  Good-if true x y h k = h
  Good-if false x y h k = k

  emit-IsNumbered :
      (text : Text) (page : Option ℕ) (b : Builder)
      → Good b
      → Good (emit count scaled config text page b)
  unfolding emit
  emit-IsNumbered text page b h = elim (Bool-cases (is_empty (strip text))) [
    | inl blank ↦ rw blank h
    | inr inked ↦ rw inked (IsNumbered-append 0 b.chunks _ h (omega arith) refl inked)
  ]

  flush-IsNumbered : (b : Builder) → Good b → Good (flush count scaled config b)
  unfolding flush
  flush-IsNumbered b h = elim (Bool-cases (is_empty b.parts)) [
    | inl nothing ↦ rw nothing h
    | inr something ↦ rw something (emit-IsNumbered _ b.page _ h)
  ]

  add_pieces-IsNumbered :
      (page : Option ℕ) (pieces : List Text) (b : Builder)
      → Good b
      → Good (add_pieces count scaled config page pieces b)
  unfolding add_pieces
  add_pieces-IsNumbered page [] b h = h
  add_pieces-IsNumbered page (piece ∷ pieces) b h =
      let paged = record b { page = or_page b.page page } in
      add_pieces-IsNumbered page pieces _ (
        Good-if
          (fits count scaled config (joined count scaled config paged (b.parts ++ piece ∷ []))) _ _
          h (flush-IsNumbered paged h))

  add_text-IsNumbered :
      (block : Block) (b : Builder) → Good b → Good (add_text count scaled config block b)
  unfolding add_text
  add_text-IsNumbered block b h =
      let text = block_to_markdown block in
      let paged = record b { page = or_page b.page block.page } in
      let flushed = flush count scaled config paged in
      let pieces =
        split_to_fit count scaled config (budget_for_body count scaled config flushed) text in
      let room =
        fits count scaled config (joined count scaled config paged (b.parts ++ text ∷ [])) in
      let kept = append_part count scaled config text paged in
      let split = add_pieces count scaled config block.page pieces flushed in
      Good-if (is_blank text) b (if room then kept else split) h (
        Good-if room kept split h
          (add_pieces-IsNumbered block.page pieces flushed (flush-IsNumbered paged h)))

  start_section-IsNumbered :
      (block : Block) (b : Builder) → Good b → Good (start_section count scaled config block b)
  unfolding start_section
  start_section-IsNumbered block b h = flush-IsNumbered b h

  add_atomic-IsNumbered :
      (block : Block) (b : Builder) → Good b → Good (add_atomic count scaled config block b)
  unfolding add_atomic
  add_atomic-IsNumbered block b h = emit-IsNumbered _ _ _ (flush-IsNumbered b h)

  add_of_kind-IsNumbered :
      (k : BlockType) (block : Block) (b : Builder)
      → Good b
      → Good (add_of_kind count scaled config k block b)
  unfolding add_of_kind
  add_of_kind-IsNumbered heading = start_section-IsNumbered
  add_of_kind-IsNumbered table = add_atomic-IsNumbered
  add_of_kind-IsNumbered code = add_atomic-IsNumbered
  add_of_kind-IsNumbered paragraph = add_text-IsNumbered
  add_of_kind-IsNumbered caption = add_text-IsNumbered

  add_blocks-IsNumbered :
      (blocks : List Block) (b : Builder) → Good b → Good (add_blocks count scaled config blocks b)
  unfolding add_blocks
  add_blocks-IsNumbered [] b h = h
  add_blocks-IsNumbered (block ∷ blocks) b h =
      add_blocks-IsNumbered blocks _ (add_of_kind-IsNumbered block.kind block b h)

  -- The chunks of a document are numbered from 0 in order, each has the token count of its own
  -- text, and none is empty.
  pub chunk_document-IsNumbered :
      (blocks : List Block) → IsNumbered 0 (chunk_document count scaled config blocks)
  unfolding chunk_document
  chunk_document-IsNumbered blocks =
      flush-IsNumbered _ (add_blocks-IsNumbered blocks (empty_builder count scaled config) tt)
