-- ===== src/Tests/Etl.antt =====
-- Documents: a report with a heading, a paragraph and a table, and the reindexing of a knowledge base.
use lumina_ai.Prelude.{ℕ, ◌*◌, ◌/◌, ◌<◌, ◌≡◌, ◌≢◌, ◌⊎◌, none, some, List, [], ◌∷◌, true, false, not}
use lumina_ai.Prelude.Texts.{Text, codes}
use lumina_ai.Etl.Tokens.{estimate_tokens}
use lumina_ai.Etl.Sentences.Lossless.{concat}
use lumina_ai.Etl.Chunk.{
  Block, heading, paragraph, table, ChunkConfig, chunk_document, split_to_fit,
}
use lumina_ai.Etl.Chunk.Numbered.{IsNumbered, chunk_document-IsNumbered}
use lumina_ai.Etl.Chunk.Pieces.{letters, letters-split_to_fit}
use lumina_ai.Knowledge.ReindexPlan.{
  pending, embedding, completed, is_active, is_terminal, next_status, Request, Progress,
}
use lumina_ai.Knowledge.ReindexPlan.Machine.{rank, run, next_status_progress}

abbrev by_halves : ℕ → ℕ → ℕ → ℕ
by_halves budget count size = budget * size / count

abbrev small : ChunkConfig
small = record { target_tokens = 8; overlap_tokens = 2 }

abbrev passage : Text
passage = codes "Leave is granted. Requests are filed a week before."

abbrev report : List Block
report =
    record { kind = heading; text = codes "Leave"; page = some 1; heading_path = [] }
    ∷ record { kind = paragraph; text = passage; page = some 1; heading_path = codes "Leave" ∷ [] }
    ∷ record { kind = table; text = codes "|a|"; page = some 2; heading_path = codes "Leave" ∷ [] }
    ∷ []

abbrev request : Request
request = record {
  current_model = codes "m1";
  current_embedding_version = 1;
  knowledge_version = 2;
  indexed_knowledge_version = 1;
  target_model = none;
  rechunk = none;
}

abbrev five : ℕ
five = 5

abbrev finished : Progress
finished = record { total_chunks = 5; embedded_chunks = 5 }

chunk_document-IsNumbered_example :
    IsNumbered estimate_tokens by_halves small 0
      (chunk_document estimate_tokens by_halves small report)
chunk_document-IsNumbered_example = chunk_document-IsNumbered estimate_tokens by_halves small report

letters-split_to_fit_example :
    letters (concat (split_to_fit estimate_tokens by_halves small 4 passage)) ≡ letters passage
letters-split_to_fit_example = letters-split_to_fit estimate_tokens by_halves small 4 passage

next_status_progress_example :
    (is_active pending ≡ not (is_terminal pending))
    × (((is_terminal pending ≡ true) × (next_status pending true ≡ pending))
        ⊎ ((is_terminal pending ≡ false)
            × (rank (next_status pending true) < rank pending)
            × (run 3 pending true ≡ completed)
            × ((next_status pending true ≢ completed) ⊎ (pending ≡ embedding))))
next_status_progress_example = next_status_progress pending true
