-- ===== src/Etl/Clean.antt =====
-- backend/etl/clean.py: the blocks of an extracted document without headers, footers and noise.
pub mod Normal
pub mod Stats
pub mod Visible
use lumina_ai.Prelude.{
  ℕ, zero, suc, ◌+◌, ◌-◌, ◌*◌, String, Bool, true, false, ◌&&◌, ◌||◌, not, Option, none, some, List,
  [], ◌∷◌, ◌++◌, ltb, leb, ◌==◌, length, map, take, if◌then◌else◌,
}
use lumina_ai.Prelude.Texts.{Text, is_blank, is_empty, same_text, join}
use lumina_ai.Etl.Tokens.{estimate_tokens}
use lumina_ai.Etl.Chunk.{Block, BlockType, table}
use lumina_ai.Etl.Clean.Normal.{normalize_for_match, normalize}

abbrev pub header_max_tokens : ℕ
header_max_tokens = 16

abbrev pub header_min_pages : ℕ
header_min_pages = 3

abbrev pub sample_chars : ℕ
sample_chars = 2000

abbrev pub is_table : Block → Bool
is_table b = elim b.kind [ table ↦ true | _ ↦ false ]

abbrev pub has_page : ℕ → List ℕ → Bool
has_page p [] = false
has_page p (q ∷ qs) = p == q || has_page p qs

-- `set.add`, and `pages_by_text.setdefault(text, set()).add(page)`.
abbrev pub add_page : ℕ → List ℕ → List ℕ
add_page p pages = if has_page p pages then pages else p ∷ pages

unfoldable pub put_page : Text → ℕ → List (Text × List ℕ) → List (Text × List ℕ)
put_page text page [] = (text, page ∷ []) ∷ []
put_page text page ((t, pages) ∷ rest) =
    let later = put_page text page rest in
    if same_text text t then (t, add_page page pages) ∷ rest else (t, pages) ∷ later

-- One block of the loop of `_repeated_page_texts`: a short text on a page, no table, is noted.
unfoldable pub note_block : Block → List (Text × List ℕ) → List (Text × List ℕ)
unfolding normalize_for_match estimate_tokens put_page
note_block b noted = elim b.page [
  | none ↦ noted
  | some page ↦
      let text = normalize_for_match b.text in
      if is_table b || is_empty text || ltb header_max_tokens (estimate_tokens text)
      then noted
      else put_page text page noted
]

unfoldable pub note_blocks : List Block → List (Text × List ℕ) → List (Text × List ℕ)
unfolding note_block
note_blocks [] noted = noted
note_blocks (b ∷ bs) noted = note_blocks bs (note_block b noted)

-- `text in headers`: it was noted on enough pages.
unfoldable pub is_header : List (Text × List ℕ) → Text → Bool
is_header [] text = false
is_header ((t, pages) ∷ rest) text =
    (same_text text t && leb header_min_pages (length pages)) || is_header rest text

unfoldable pub repeated_page_texts : List Block → List (Text × List ℕ)
unfolding note_blocks
repeated_page_texts blocks = note_blocks blocks []

-- A kept block with its `order`.
pub record Ordered : Type 0 where
  pub order : ℕ
  pub block : Block

pub record CleanStats : Type 0 where
  pub total_blocks : ℕ
  pub dropped_blocks : ℕ
  pub removed_headers : ℕ
  pub language : String

-- `drop_rate > 0.2`, as fractions.
unfoldable pub quality_warning : CleanStats → Bool
quality_warning s = if s.total_blocks == 0 then false else ltb s.total_blocks (5 * s.dropped_blocks)

-- What becomes of a block: a header is removed, an empty or garbled one is dropped.
pub data Fate : Type 0 where
  keep : Block → Fate
  drop_it remove_it : Fate

-- `unicodedata.category(char)` is `Cc` or `Cn`; and what py3langid says of a sample, with whether
-- its confidence is at least one half.
module _ (is_control : ℕ → Bool) (classify : Text → String × Bool) where
  abbrev pub count_bad : Text → ℕ
  count_bad [] = 0
  count_bad (c ∷ t) = (if c == 0xfffd || is_control c then 1 else 0) + count_bad t

  -- `bad / len(text) > 0.3`, as fractions.
  unfoldable pub is_garbled : Text → Bool
  is_garbled text = is_empty text || ltb (3 * length text) (10 * count_bad text)

  unfoldable pub fate : List (Text × List ℕ) → Block → Fate
  unfolding is_header normalize_for_match normalize is_garbled
  fate headers b =
      if is_header headers (normalize_for_match b.text)
      then remove_it
      else (let text = if is_table b then b.text else normalize b.text in
          if is_blank text
          then drop_it
          else if not (is_table b) && is_garbled text
          then drop_it
          else keep (record b { text = text }))

  -- The loop of `clean`: the blocks kept, how many were dropped, how many removed.
  unfoldable pub clean_blocks :
      List (Text × List ℕ) → List Block → List Ordered → ℕ → ℕ → List Ordered × (ℕ × ℕ)
  unfolding fate
  clean_blocks headers [] kept dropped removed = (kept, (dropped, removed))
  clean_blocks headers (b ∷ bs) kept dropped removed = elim (fate headers b) [
    | remove_it ↦ clean_blocks headers bs kept dropped (suc removed)
    | drop_it ↦ clean_blocks headers bs kept (suc dropped) removed
    | keep k ↦
        clean_blocks headers bs (kept ++ (record { order = length kept; block = k } ∷ [])) dropped
          removed
  ]

  abbrev pub any_between : ℕ → ℕ → Text → Bool
  any_between low high [] = false
  any_between low high (c ∷ t) = (leb low c && leb c high) || any_between low high t

  unfoldable pub detect_language : List Ordered → String
  unfolding join
  detect_language kept =
      let sample = take sample_chars (join (32 ∷ []) (map (λ o. o.block.text) kept)) in
      if is_blank sample
      then "und"
      else if any_between 0x3040 0x30ff sample
      then "ja"
      else if any_between 0xac00 0xd7af sample
      then "ko"
      else (let (language, confident) = classify sample in if confident then language else "und")

  unfoldable pub clean : List Block → List Ordered × CleanStats
  unfolding repeated_page_texts clean_blocks detect_language
  clean blocks =
      let (kept, (dropped, removed)) = clean_blocks (repeated_page_texts blocks) blocks [] 0 0 in
      (
        kept,
        record {
          total_blocks = length blocks - removed;
          dropped_blocks = dropped;
          removed_headers = removed;
          language = detect_language kept;
        },
      )
