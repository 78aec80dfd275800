-- ===== src/Knowledge/Reindex.antt =====
-- backend/services/knowledge/reindex.py: `KbReindexService`, which rebuilds the vectors of a
-- knowledge base as a job that a worker advances.
pub mod Advance
pub mod Counting
pub mod Coverage
pub mod Completion
pub mod RowStatus
pub mod Moves
pub mod Refinement
pub mod AdvanceMoves
use lumina_ai.Prelude.{
  ℕ, zero, suc, ◌+◌, Bool, true, false, not, ◌&&◌, ◌||◌, Option, none, some, List, [], ◌∷◌, ◌++◌,
  map, ltb, min, take, drop, length, if◌then◌else◌,
}
use lumina_ai.Prelude.Texts.{Text, is_empty, same_text}
use lumina_ai.Knowledge.DocumentStatus as Doc
use lumina_ai.Knowledge.ReindexPlan as Job
use lumina_ai.Knowledge.ReindexPlan.{
  Progress, make_progress, next_status, ready_to_switch, pending, rechunking, embedding, completed,
  failed,
}
use lumina_ai.Knowledge.Tables.{
  KnowledgeBase, Document, Chunk, ReindexJob, Db, UsageEvent, filter, get_job, update_kb,
  update_job, for_retrieval, count_active_for_kb, for_kb_after, count_in_statuses_for_kb,
  lacks_embedding, count_for_kb_version, upsert_row,
}
use lumina_ai.Knowledge.Reingest.{reingest, restarted, conflict, not_found}

abbrev pub rechunk_batch_size : ℕ
rechunk_batch_size = 50

abbrev pub embed_batch_size : ℕ
embed_batch_size = 64

-- What the gateway answers: the vectors in order, the model's name as the provider reports it
-- (empty if it does not), and the tokens used.
pub record EmbedReply : Type 0 where
  pub vectors : List ℕ
  pub model : Text
  pub total_tokens : ℕ

-- `zip(batch, vectors, strict=True)`: the two must be of one length.
unfoldable pub zip_strict {ℓ κ} :
    {A : Type ℓ} {B : Type κ} → List A → List B → Option (List (A × B))
zip_strict [] [] = some []
zip_strict (x ∷ xs) (y ∷ ys) = elim (zip_strict xs ys) [
  | none ↦ none
  | some rest ↦ some ((x, y) ∷ rest)
]
zip_strict _ _ = none

-- A call that ends in a view of the job, which is its row, or in an exception.
pub data Advanced : Type 0 where
  view : ReindexJob → Advanced
  raised : Advanced

unfoldable pub load : ℕ → Db → Db × Advanced
unfolding get_job
load job_id db = elim (get_job job_id db) [ none ↦ (db, raised) | some job ↦ (db, view job) ]

-- `upsert` of a batch.
unfoldable pub upsert : Text → ℕ → List (Chunk × ℕ) → Db → Db
unfolding upsert_row
upsert model version [] db = db
upsert model version ((c, vector) ∷ rows) db =
    upsert model version rows (upsert_row model version c.id vector db)

abbrev pub reported : EmbedReply → Text → Text
reported reply model = if is_empty reply.model then model else reply.model

abbrev pub is_renamed : EmbedReply → Text → Bool
is_renamed reply model = not (is_empty reply.model) && not (same_text reply.model model)

-- One batch in its transaction: the vectors are stored under the reported name, and a job whose
-- model has another name takes that one. Nothing stays if the job is gone.
unfoldable pub store_batch :
    ℕ → ReindexJob → EmbedReply → List (Chunk × ℕ) → Db → Option (Db × ReindexJob)
unfolding upsert update_job get_job
store_batch now job reply rows db =
    let stored = upsert (reported reply job.target_model) job.target_embedding_version rows db in
    elim (is_renamed reply job.target_model) [
      | false ↦ some (stored, job)
      | true ↦
          let renamed =
            update_job now job.id (λ j. record j { target_model = reply.model }) stored in
          elim (get_job job.id renamed) [ none ↦ none | some again ↦ some (renamed, again) ]
    ]

-- `_switch`: the knowledge base takes the three values in one update, and the job is completed.
unfoldable pub switch : ℕ → ReindexJob → Text → Db → Db
unfolding update_kb update_job
switch now job model db =
    update_job now job.id
      (λ j. record j { status = completed; switched_at = some now; finished_at = some now })
      (update_kb job.kb_id
        (λ k. record k {
          embedding_model = model;
          embedding_version = job.target_embedding_version;
          indexed_knowledge_version = job.target_knowledge_version;
        })
        db)

-- The second transaction of `_advance_embedding`: the progress is counted, and a complete one
-- switches. `min` keeps `ReindexProgress` from refusing.
unfoldable pub finish_embedding : ℕ → ReindexJob → Db → Option Db
unfolding count_active_for_kb count_for_kb_version make_progress update_job ready_to_switch switch
finish_embedding now job db =
    let total = count_active_for_kb job.kb_id db in
    let done = count_for_kb_version job.kb_id job.target_model job.target_embedding_version db in
    elim (make_progress total (min done total)) [
      | none ↦ none
      | some progress ↦
          let counted =
            update_job now job.id
              (λ j. record j { total_chunks = total; embedded_chunks = progress.embedded_chunks })
              db in
          some (
            if ready_to_switch embedding progress
            then switch now job job.target_model counted
            else counted)
    ]

unfoldable pub record_usage : ReindexJob → ℕ → Db → Db
record_usage job tokens db =
    if ltb 0 tokens
    then record db {
      usage =
          db.usage
          ++ (record { request_job = job.id; model = job.target_model; prompt_tokens = tokens }
              ∷ []);
    }
    else db

-- What `_advance_embedding` does once the missing vectors are there, or an exception is raised.
unfoldable pub after_missing : ℕ → ReindexJob → Db × Option ℕ → Db × Advanced
unfolding record_usage finish_embedding load
after_missing now job (embedded, none) = (embedded, raised)
after_missing now job (embedded, some tokens) =
    let recorded = record_usage job tokens embedded in
    elim (finish_embedding now job recorded) [
      | none ↦ (recorded, raised)
      | some finished ↦ load job.id finished
    ]

module _ (embed : List Text → Text → Option EmbedReply) where
  -- The loop of `_embed_missing` over the chunks left: the tokens used, or an exception. Every
  -- batch has a chunk, so as much fuel as there are chunks is enough.
  unfoldable pub embed_batches : ℕ → ℕ → ReindexJob → List Chunk → ℕ → Db → Db × Option ℕ
  unfolding zip_strict store_batch
  embed_batches fuel now job [] tokens db = (db, some tokens)
  embed_batches zero now job (c ∷ cs) tokens db = (db, none)
  embed_batches (suc fuel) now job (c ∷ cs) tokens db =
      let batch = take embed_batch_size (c ∷ cs) in
      elim (embed (map (λ chunk. chunk.content) batch) job.target_model) [
        | none ↦ (db, none)
        | some reply ↦ elim (zip_strict batch reply.vectors) [
          | none ↦ (db, none)
          | some rows ↦ elim (store_batch now job reply rows db) [
            | none ↦ (db, none)
            | some (stored, again) ↦
                embed_batches fuel now again (drop embed_batch_size (c ∷ cs))
                  (tokens + reply.total_tokens) stored
          ]
        ]
      ]

  unfoldable pub missing_chunks : ReindexJob → Db → List Chunk
  unfolding for_retrieval filter lacks_embedding
  missing_chunks job db =
      filter (lacks_embedding job.target_model job.target_embedding_version)
        (for_retrieval job.kb_id db)

  unfoldable pub embed_missing : ℕ → ReindexJob → Db → Db × Option ℕ
  unfolding embed_batches missing_chunks
  embed_missing now job db =
      let missing = missing_chunks job db in embed_batches (length missing) now job missing 0 db

  unfoldable pub advance_embedding : ℕ → ReindexJob → Db → Db × Advanced
  unfolding embed_missing after_missing
  advance_embedding now job db = after_missing now job (embed_missing now job db)
