-- ===== src/Tests/Reindex.antt =====
-- The rebuild of a knowledge base.
use lumina_ai.Prelude.{
  ◌+◌, ◌<◌, ◌≤◌, ℕ, ◌≤◌, ◌<◌, ◌≡◌, ◌⊎◌, refl, Bool, true, false, not, Option, none, some, List, [],
  ◌∷◌, map, length, length-map, arith,
}
use lumina_ai.Prelude.Texts.{Text, codes}
use lumina_ai.Knowledge.DocumentStatus as Doc
use lumina_ai.Knowledge.ReindexPlan.{pending, embedding, completed, failed}
use lumina_ai.Knowledge.ReindexPlan as Job
use lumina_ai.Knowledge.Tables.{
  Document, Chunk, Embedding, ReindexJob, Db, get_job, get_document, filter, for_retrieval, count,
  get_kb, reindex_job, ingest_document, count_for_kb_version,
}
use lumina_ai.Knowledge.Cleanup.{purge_switched}
use lumina_ai.Knowledge.Cleanup.Current.{purge_switched_lem}
use lumina_ai.Knowledge.Rescue.{rescue_jobs, rescue_documents}
use lumina_ai.Knowledge.Rescue.Unblocked.{waits_since, is_half_way_since, rescue_jobs_lem}
use mathlib.Core.List
use lumina_ai.Knowledge.Reingest.{reingest, restarted, conflict}
use lumina_ai.Knowledge.Reingest.Hidden.{IsWritten, IsAtRest, is_chunk_of, reingest_lem}
use lumina_ai.Knowledge.Reindex.{
  EmbedReply, view, raised, finish_embedding, switch, advance_embedding,
}
use lumina_ai.Knowledge.Reindex.Counting.{
  is_uncovered, uncovered, stale, counted, finish_embedding_lem,
}
use lumina_ai.Knowledge.Reindex.Coverage.{Answers}
use lumina_ai.Knowledge.Reindex.Completion.{switched, advance_embedding_completes}
use lumina_ai.Knowledge.Reindex.Advance.{advance}
use lumina_ai.Knowledge.Reindex.Moves.{MovedTo}
use lumina_ai.Knowledge.Reindex.Refinement.{advance-MovedTo}

abbrev old_model : Text
old_model = codes "old"

abbrev new_model : Text
new_model = codes "new"

abbrev row_of_version : Text → ℕ → Embedding
row_of_version model version = record { model = model; embedding_version = version; vector = 1 }

abbrev chunk : ℕ → Bool → List Embedding → Chunk
chunk id superseded embeddings = record {
  id = id;
  document_id = 5;
  kb_id = 1;
  superseded = superseded;
  token_count = 10;
  content = codes "text";
  embeddings = embeddings;
}

abbrev paper : Document
paper = record { id = 5; kb_id = 1; status = Doc.ready; doc_version = 1; updated_at = 100 }

abbrev job_at : Job.Status → ReindexJob
job_at status = record {
  id = 9;
  kb_id = 1;
  status = status;
  target_model = new_model;
  target_embedding_version = 2;
  target_knowledge_version = 3;
  rechunk = false;
  total_chunks = 0;
  embedded_chunks = 0;
  total_documents = 1;
  rechunked_documents = 0;
  rechunk_cursor = none;
  started_at = none;
  switched_at = none;
  purged_at = none;
  finished_at = none;
  updated_at = 0;
  error = false;
}

abbrev db_with : Job.Status → List Chunk → Db
db_with status chunks = record {
  knowledge_bases =
      record {
        id = 1;
        embedding_model = old_model;
        embedding_version = 1;
        knowledge_version = 3;
        indexed_knowledge_version = 3;
      }
      ∷ [];
  documents = paper ∷ [];
  chunks = chunks;
  jobs = job_at status ∷ [];
  sent = [];
  usage = [];
}

-- Two active chunks, one of them without a vector of the new version.
abbrev half_done : Db
half_done = db_with embedding (
    chunk 1 false (row_of_version new_model 2 ∷ [])
    ∷ chunk 2 false (row_of_version old_model 1 ∷ [])
    ∷ [])

-- An active chunk without a vector of the new version, beside a superseded one that has it.
abbrev with_stale : Db
with_stale = db_with embedding (
    chunk 1 true (row_of_version new_model 2 ∷ [])
    ∷ chunk 2 false (row_of_version old_model 1 ∷ [])
    ∷ [])

abbrev echo : List Text → Text → Option EmbedReply
echo texts model =
    some (record { vectors = map (λ t. 7) texts; model = []; total_tokens = length texts })

abbrev silent : List Text → Text → Option EmbedReply
silent texts model = none

echo-Answers : Answers echo new_model
echo-Answers texts = (
  record { vectors = map (λ t. 7) texts; model = []; total_tokens = length texts },
  (refl, length-map texts (λ t. 7), refl),
)

-- The switch with an active chunk that search no longer finds.
switches_uncovered :
    (uncovered (job_at embedding) with_stale ≡ 1)
    × (finish_embedding 200 (job_at embedding) with_stale
        ≡ some
            (switch 200 (job_at embedding) new_model (counted 200 (job_at embedding) with_stale)))
unfolding finish_embedding uncovered is_uncovered
switches_uncovered = (refl, refl)

fails_without_answer :
    (advance silent 200 600 9 (db_with pending (chunk 1 false [] ∷ []))).1 ≡ raised
unfolding advance
fails_without_answer = refl

finish_embedding_lem_example :
    ((uncovered (job_at embedding) half_done ≤ stale (job_at embedding) half_done)
      × (finish_embedding 200 (job_at embedding) half_done
          ≡ some
              (switch 200 (job_at embedding) new_model (counted 200 (job_at embedding) half_done))))
    ⊎ ((stale (job_at embedding) half_done < uncovered (job_at embedding) half_done)
        × (finish_embedding 200 (job_at embedding) half_done
            ≡ some (counted 200 (job_at embedding) half_done)))
unfolding count
finish_embedding_lem_example =
    finish_embedding_lem 200 (job_at embedding) half_done (omega arith, (omega arith, tt))

advance_embedding_completes_example :
    (final : Db) × ((done : ReindexJob) × ((advance_embedding echo 200 (job_at embedding) half_done
          ≡ (final, view done))
        × (get_job 9 final ≡ some done)
        × (done.status ≡ completed)
        × (final.knowledge_bases ≡ switched (job_at embedding) half_done.knowledge_bases)
        × (uncovered (job_at embedding) final ≡ 0)))
unfolding get_job
advance_embedding_completes_example =
    advance_embedding_completes echo 200 (job_at embedding) half_done echo-Answers refl

advance-MovedTo_example :
    MovedTo 9 false pending (advance silent 200 600 9 (db_with pending (chunk 1 false [] ∷ []))).0
unfolding get_job
advance-MovedTo_example =
    advance-MovedTo silent 9 200 600 (db_with pending (chunk 1 false [] ∷ [])) (job_at pending) refl

reingest_lem_example :
    (IsWritten paper.status
      × (200 < paper.updated_at + 600)
      × (reingest 200 600 5 half_done ≡ conflict))
    ⊎ ((IsAtRest paper.status ⊎ (paper.updated_at + 600 ≤ 200))
        × ((next : Db) × ((reingest 200 600 5 half_done ≡ restarted next)
              × (next.jobs ≡ half_done.jobs)
              × (get_document 5 next
                  ≡ some
                      (record paper { doc_version = 2; status = Doc.uploaded; updated_at = 200 }))
              × (for_retrieval 1 next
                  ≡ filter (λ c. not (is_chunk_of 5 c)) (for_retrieval 1 half_done)))))
unfolding get_document
reingest_lem_example = reingest_lem 200 600 5 1 half_done paper refl

rescue_jobs_lem_example :
    (filter (is_half_way_since 100) (rescue_jobs 200 100 half_done).0.jobs ≡ [])
    × ((rescue_jobs 200 100 half_done).0.sent
        ≡ List.◌++◌ half_done.sent
            (map (λ j. reindex_job j.id) (filter (waits_since 100) half_done.jobs)))
rescue_jobs_lem_example = rescue_jobs_lem 200 100 half_done

stalled_fails :
    get_job 9 (rescue_jobs 200 100 half_done).0
    ≡ some (record (job_at failed) { error = true; finished_at = some 200; updated_at = 200 })
unfolding get_job rescue_jobs
stalled_fails = refl

uploaded_starts_over :
    (rescue_documents 300
      (record half_done { documents = record paper { status = Doc.uploaded } ∷ [] })).0.sent
    ≡ ingest_document 5 ∷ []
unfolding rescue_documents
uploaded_starts_over = refl

-- An earlier rebuild switched long ago and the next one is under way.
abbrev rebuilt_again : Db
rebuilt_again = record half_done {
  jobs = record (job_at completed) { id = 8; switched_at = some 10 } ∷ job_at embedding ∷ [];
}

purge_switched_lem_example :
    count_for_kb_version 1 old_model 1 (purge_switched 200 100 20 rebuilt_again)
    ≡ count_for_kb_version 1 old_model 1 rebuilt_again
unfolding get_kb
purge_switched_lem_example =
    purge_switched_lem 1 200 100 20
      (record {
        id = 1;
        embedding_model = old_model;
        embedding_version = 1;
        knowledge_version = 3;
        indexed_knowledge_version = 3;
      })
      old_model rebuilt_again refl refl

-- The vectors that the rebuild under way has computed go as well.
purge_undoes_rebuild :
    (count_for_kb_version 1 new_model 2 rebuilt_again ≡ 1)
    × (count_for_kb_version 1 new_model 2 (purge_switched 200 100 20 rebuilt_again) ≡ 0)
unfolding purge_switched count_for_kb_version
purge_undoes_rebuild = (refl, refl)
