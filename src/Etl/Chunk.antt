-- ===== src/Etl/Chunk.antt =====
-- backend/etl/chunk.py, with the blocks of backend/etl/extract/model.py and their Markdown
-- (`block_to_markdown` of backend/etl/extract/markdown.py): a document as chunks.
pub mod Numbered
pub mod Pieces
use lumina_ai.Prelude.{
  ℕ, zero, suc, ◌+◌, ◌-◌, Bool, true, false, ◌||◌, not, Option, none, some, List, [], ◌∷◌, ◌++◌,
  leb, ltb, length, map, min, max, replicate, if◌then◌else◌,
}
use lumina_ai.Prelude.Texts.{Text, codes, is_blank, is_empty, strip, rstrip, join}
use lumina_ai.Etl.Sentences.{sentences, hard_split}

pub data BlockType : Type 0 where
  paragraph heading table code caption : BlockType

pub record Block : Type 0 where
  pub kind : BlockType
  pub text : Text
  pub page : Option ℕ
  pub heading_path : List Text

abbrev fence : Text
fence = codes "```"

unfoldable pub block_to_markdown : Block → Text
block_to_markdown b = elim b.kind [
  | heading ↦ replicate (min (length b.heading_path + 1) 6) 35 ++ (32 ∷ b.text)
  | table ↦ b.text
  | code ↦ fence ++ (10 ∷ b.text) ++ (10 ∷ fence)
  | caption ↦ 42 ∷ (b.text ++ 42 ∷ [])
  | paragraph ↦ b.text
]

pub record ChunkConfig : Type 0 where
  pub target_tokens : ℕ
  pub overlap_tokens : ℕ

pub record TextChunk : Type 0 where
  pub seq : ℕ
  pub text : Text
  pub token_count : ℕ
  pub page : Option ℕ
  pub heading_path : List Text

-- `_Builder`: a heading or a carry that is missing is the empty text, which the code treats alike.
pub record Builder : Type 0 where
  pub chunks : List TextChunk
  pub heading_markdown : Text
  pub heading_path : List Text
  pub parts : List Text
  pub page : Option ℕ
  pub carry : Text

abbrev pub separator : Text
separator = 10 ∷ 10 ∷ []

abbrev pub if_any : Text → List Text
if_any [] = []
if_any (c ∷ t) = (c ∷ t) ∷ []

abbrev pub or_page : Option ℕ → Option ℕ → Option ℕ
or_page none page = page
or_page (some p) page = some p

-- The pieces that are not blank, without their trailing space.
abbrev pub trimmed : List Text → List Text
trimmed [] = []
trimmed (p ∷ ps) = let rest = trimmed ps in if is_blank p then rest else rstrip p ∷ rest

-- `count_tokens`, and the float computation of `_hard_split`.
module _ (count : Text → ℕ) (scaled : ℕ → ℕ → ℕ → ℕ) (config : ChunkConfig) where
  joined : Builder → List Text → Text
  joined b parts = join separator (if_any b.heading_markdown ++ (if_any b.carry ++ parts))

  fits : Text → Bool
  fits text = leb (count text) config.target_tokens

  pub emit : Text → Option ℕ → Builder → Builder
  emit text page b =
      let body = strip text in
      if is_empty body then b else record b {
        chunks =
            b.chunks
            ++ record {
              seq = length b.chunks;
              text = body;
              token_count = count body;
              page = page;
              heading_path = b.heading_path;
            }
              ∷ [];
      }

  -- The loop of `_tail` over the sentences from the last on; `picked` is joined already.
  pick : Text → List Text → Text
  pick picked [] = picked
  pick picked (s ∷ ss) =
      if ltb config.overlap_tokens (count (s ++ picked)) then picked else pick (s ++ picked) ss

  reversed : List Text → List Text → List Text
  reversed done [] = done
  reversed done (t ∷ ts) = reversed (t ∷ done) ts

  tail : Text → Text
  unfolding pick reversed
  tail text =
      if leb config.overlap_tokens 0 then [] else strip (pick [] (reversed [] (sentences text)))

  pub flush : Builder → Builder
  unfolding emit joined tail
  flush b =
      if is_empty b.parts
      then b
      else let emitted =
          emit (joined b b.parts) b.page
            record b { carry = tail (join separator b.parts); parts = [] } in
        record emitted { page = none }

  budget_for_body : Builder → ℕ
  unfolding joined
  budget_for_body b =
      let overhead =
        if is_empty b.heading_markdown
        then (if is_empty b.carry then 0 else count (joined b []))
        else count (joined b []) in
      max (config.target_tokens - overhead) 1

  -- The loop of `_split_to_fit`, with `buffer`; the pieces it makes, in order.
  pub fill : ℕ → Text → List Text → List Text
  fill budget buffer [] = if_any buffer
  fill budget buffer (s ∷ ss) =
      let longer = fill budget (buffer ++ s) ss in
      let restarted = if_any buffer ++ fill budget s ss in
      let sliced = if_any buffer ++ (hard_split scaled count budget s ++ fill budget [] ss) in
      if leb (count (buffer ++ s)) budget
      then longer
      else if leb (count s) budget
      then restarted
      else sliced

  unfoldable pub split_to_fit : ℕ → Text → List Text
  unfolding fill
  split_to_fit budget text = trimmed (fill budget [] (sentences text))

  start_section : Block → Builder → Builder
  unfolding flush
  start_section block b =
      let flushed = flush b in
      record flushed {
        carry = [];
        heading_markdown = block_to_markdown block;
        heading_path = block.heading_path ++ block.text ∷ [];
        page = block.page;
      }

  add_atomic : Block → Builder → Builder
  unfolding flush emit
  add_atomic block b = emit (block_to_markdown block) block.page (record (flush b) { carry = [] })

  append_part : Text → Builder → Builder
  append_part text b = record b { parts = b.parts ++ text ∷ [] }

  -- The loop of `add_text` over the pieces.
  pub add_pieces : Option ℕ → List Text → Builder → Builder
  unfolding joined fits flush append_part
  add_pieces page [] b = b
  add_pieces page (piece ∷ pieces) b =
      let paged = record b { page = or_page b.page page } in
      let flushed = flush paged in
      add_pieces page pieces (
        if fits (joined paged (paged.parts ++ piece ∷ []))
        then append_part piece paged
        else append_part piece (record flushed { page = page }))

  add_text : Block → Builder → Builder
  unfolding add_pieces joined fits flush append_part budget_for_body split_to_fit
  add_text block b =
      let text = block_to_markdown block in
      let paged = record b { page = or_page b.page block.page } in
      let flushed = flush paged in
      if is_blank text
      then b
      else if fits (joined paged (paged.parts ++ text ∷ []))
      then append_part text paged
      else add_pieces block.page (split_to_fit (budget_for_body flushed) text) flushed

  -- The body of the loop of `chunk_document`.
  pub add_of_kind : BlockType → Block → Builder → Builder
  unfolding start_section add_atomic add_text
  add_of_kind heading block b = start_section block b
  add_of_kind table block b = add_atomic block b
  add_of_kind code block b = add_atomic block b
  add_of_kind paragraph block b = add_text block b
  add_of_kind caption block b = add_text block b

  abbrev pub empty_builder : Builder
  empty_builder = record {
    chunks = [];
    heading_markdown = [];
    heading_path = [];
    parts = [];
    page = none;
    carry = [];
  }

  pub add_blocks : List Block → Builder → Builder
  unfolding add_of_kind
  add_blocks [] b = b
  add_blocks (block ∷ blocks) b = add_blocks blocks (add_of_kind block.kind block b)

  unfoldable pub chunk_document : List Block → List TextChunk
  unfolding add_blocks flush
  chunk_document blocks = (flush (add_blocks blocks empty_builder)).chunks
