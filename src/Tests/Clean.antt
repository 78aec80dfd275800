-- ===== src/Tests/Clean.antt =====
-- The cleaning of a document.
use lumina_ai.Prelude.{
  ℕ, ◌+◌, ◌≡◌, refl, String, Bool, true, false, Option, none, some, List, [], ◌∷◌, length,
}
use lumina_ai.Prelude.Texts.{Text, codes}
use lumina_ai.Etl.Chunk.{Block, paragraph}
use lumina_ai.Etl.Clean.{clean, repeated_page_texts}
use lumina_ai.Etl.Clean.Stats.{KeptInOrder, number, clean_lem}

abbrev para : String → Option ℕ → Block
para s page = record { kind = paragraph; text = codes s; page = page; heading_path = [] }

-- A report of three pages, each under the same line.
abbrev report : List Block
report =
    para "Annual report" (some 1)
    ∷ para "One" (some 1)
    ∷ para "Annual  report" (some 2)
    ∷ para "  " (some 2)
    ∷ para "Annual report" (some 3)
    ∷ para "Two  " (some 3)
    ∷ []

abbrev list_items : List Block
list_items = para "item" none ∷ para "item" none ∷ para "item" none ∷ []

abbrev plain : ℕ → Bool
plain c = false

abbrev english : Text → String × Bool
english t = ("en", true)

cleaned_report :
    (clean plain english report).0
    ≡ record { order = 0; block = para "One" (some 1) }
      ∷ record { order = 1; block = para "Two" (some 3) }
      ∷ []
unfolding clean
cleaned_report = refl

cleaned_stats :
    (clean plain english report).1
    ≡ record { total_blocks = 3; dropped_blocks = 1; removed_headers = 3; language = "en" }
unfolding clean
cleaned_stats = refl

clean_lem_example :
    (ks : List Block) × ((clean plain english report).0 ≡ number 0 ks)
    × KeptInOrder plain english (repeated_page_texts report) report ks
    × (length (clean plain english report).0 + (clean plain english report).1.dropped_blocks
        ≡ (clean plain english report).1.total_blocks)
    × ((clean plain english report).1.total_blocks + (clean plain english report).1.removed_headers
        ≡ 6)
clean_lem_example = clean_lem plain english report
