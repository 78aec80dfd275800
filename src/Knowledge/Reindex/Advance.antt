-- ===== src/Knowledge/Reindex/Advance.antt =====
-- `start`, `advance` and `_advance_rechunk` of backend/services/knowledge/reindex.py.
use lumina_ai.Prelude.{
  ℕ, zero, suc, ◌+◌, Bool, true, false, Option, none, some, List, [], ◌∷◌, if◌then◌else◌,
}
use lumina_ai.Prelude.Texts.{Text, is_empty}
use lumina_ai.Quota.Service as Quota
use lumina_ai.Knowledge.DocumentStatus as Doc
use lumina_ai.Knowledge.ReindexPlan.{
  Status, Plan, PlanError, plan_reindex, value_error, next_status, is_active, is_terminal, pending,
  rechunking, embedding, failed,
}
use lumina_ai.Knowledge.ReindexPlan as Job
use lumina_ai.Knowledge.Tables.{
  Document, ReindexJob, Db, reindex_job, get_kb, get_job, update_job, count_active_for_kb,
  count_for_kb, for_kb_after, count_in_statuses_for_kb, token_total_for_kb, active_for_kb, send,
}
use lumina_ai.Knowledge.Reingest.{reingest, restarted, conflict, not_found}
use lumina_ai.Knowledge.Reindex.{
  EmbedReply, Advanced, view, raised, load, rechunk_batch_size, advance_embedding,
}

-- `model_for`: a knowledge base without a model uses the default one.
unfoldable pub model_for : Text → Text → Text
model_for default_model model = if is_empty model then default_model else model

pub data Started : Type 0 where
  started : ReindexJob → Started
  over_quota : Quota.Details → Started
  invalid : PlanError → Started
  already_running no_such_kb : Started

abbrev pub new_job : ℕ → ℕ → Plan → ℕ → ℕ → ℕ → ReindexJob
new_job job_id kb_id plan total_chunks total_documents now = record {
  id = job_id;
  kb_id = kb_id;
  status = pending;
  target_model = plan.target_model;
  target_embedding_version = plan.target_embedding_version;
  target_knowledge_version = plan.target_knowledge_version;
  rechunk = plan.rechunk;
  total_chunks = total_chunks;
  embedded_chunks = 0;
  total_documents = total_documents;
  rechunked_documents = 0;
  rechunk_cursor = none;
  started_at = none;
  switched_at = none;
  purged_at = none;
  finished_at = none;
  updated_at = now;
  error = false;
}

-- `start`: the check of the active jobs and the partial unique index of the table are one here,
-- since the transaction is. `headroom` is `check_headroom` of the monthly tokens.
unfoldable pub start :
    Text → (ℕ → Quota.Result (Unit {0})) → ℕ → ℕ → ℕ → Option Text → Option Bool → Db → Db × Started
unfolding get_kb model_for plan_reindex token_total_for_kb active_for_kb is_active
    count_active_for_kb count_for_kb send
start default_model headroom now job_id kb_id target_model rechunk db = elim (get_kb kb_id db) [
  | none ↦ (db, no_such_kb)
  | some kb ↦
      elim (plan_reindex (record {
        current_model = model_for default_model kb.embedding_model;
        current_embedding_version = kb.embedding_version;
        knowledge_version = kb.knowledge_version;
        indexed_knowledge_version = kb.indexed_knowledge_version;
        target_model = target_model;
        rechunk = rechunk;
      })) [
        | value_error e ↦ (db, invalid e)
        | Job.ok plan ↦ elim (headroom (token_total_for_kb kb_id db)) [
          | Quota.quota_exceeded details ↦ (db, over_quota details)
          | Quota.ok _ ↦ elim (active_for_kb kb_id is_active db) [
            | some _ ↦ (db, already_running)
            | none ↦
                let job =
                  new_job job_id kb_id plan (count_active_for_kb kb_id db) (count_for_kb kb_id db)
                    now in
                (send (reindex_job job_id) (record db { jobs = job ∷ db.jobs }), started job)
          ]
        ]
      ]
]

-- What the loop of `_advance_rechunk` comes to: how many documents started over and the last of
-- them, or an exception. A busy document ends it.
pub data Rechunked : Type 0 where
  processed : ℕ → Option ℕ → Rechunked
  failed_loop : Rechunked

unfoldable pub rechunk_batch : ℕ → ℕ → List Document → ℕ → Option ℕ → Db → Db × Rechunked
unfolding reingest
rechunk_batch now stale [] n last db = (db, processed n last)
rechunk_batch now stale (d ∷ ds) n last db = elim (reingest now stale d.id db) [
  | conflict ↦ (db, processed n last)
  | not_found ↦ (db, failed_loop)
  | restarted next ↦ rechunk_batch now stale ds (suc n) (some d.id) next
]

abbrev pub cursor_of : ℕ → Db → Option ℕ
unfolding get_job
cursor_of job_id db = elim (get_job job_id db) [ none ↦ none | some stored ↦ stored.rechunk_cursor ]

-- The exception handler of `advance`.
unfoldable pub or_failed : ℕ → ReindexJob → Db × Advanced → Db × Advanced
unfolding update_job
or_failed now job (next, view v) = (next, view v)
or_failed now job (next, raised) = (
  update_job now job.id (λ j. record j { status = failed; error = true; finished_at = some now })
      next,
  raised,
)

module _ (embed : List Text → Text → Option EmbedReply) where
  -- No document is left: wait for those that are still processed, then embed.
  unfoldable pub after_rechunk : ℕ → ReindexJob → Db → Db × Advanced
  unfolding count_in_statuses_for_kb Doc.is_still_processing update_job count_active_for_kb load
      advance_embedding
  after_rechunk now job db = elim (count_in_statuses_for_kb job.kb_id Doc.is_still_processing db) [
    | suc _ ↦ (update_job now job.id (λ j. j) db, view job)
    | zero ↦
        let moved =
          update_job now job.id
            (λ j. record j { status = embedding; total_chunks = count_active_for_kb job.kb_id db })
            db in
        elim (get_job job.id moved) [
          | none ↦ (moved, raised)
          | some again ↦ advance_embedding embed now again moved
        ]
  ]

  -- `_advance_rechunk` once the batch is sent: what started over is written with the cursor; a batch
  -- of which nothing did is a heartbeat.
  unfoldable pub after_batch : ℕ → ReindexJob → List Document → Db × Rechunked → Db × Advanced
  unfolding update_job load after_rechunk
  after_batch now job batch (next, failed_loop) = (next, raised)
  after_batch now job batch (next, processed (suc n) last) = load job.id (
      update_job now job.id
        (λ j. record j {
          rechunk_cursor = last;
          rechunked_documents = job.rechunked_documents + suc n;
        })
        next)
  after_batch now job (_ ∷ _) (next, processed zero last) =
      (update_job now job.id (λ j. j) next, view job)
  after_batch now job [] (next, processed zero last) = after_rechunk now job next

  unfoldable pub advance_rechunk : ℕ → ℕ → ReindexJob → Db → Db × Advanced
  unfolding for_kb_after rechunk_batch after_batch
  advance_rechunk now stale job db =
      let batch = for_kb_after job.kb_id (cursor_of job.id db) rechunk_batch_size db in
      after_batch now job batch (rechunk_batch now stale batch 0 none db)

  -- The body of `advance` that may fail, and then the exception handler around it.
  unfoldable pub advance_stage : ℕ → ℕ → ReindexJob → Db → Db × Advanced
  unfolding advance_rechunk advance_embedding
  advance_stage now stale job db = elim job.status [
    | rechunking ↦ advance_rechunk now stale job db
    | _ ↦ advance_embedding embed now job db
  ]

  unfoldable pub advance_guarded : ℕ → ℕ → ReindexJob → Db → Db × Advanced
  unfolding advance_stage or_failed
  advance_guarded now stale job db = or_failed now job (advance_stage now stale job db)

  unfoldable pub advance_job : ℕ → ℕ → ReindexJob → Db → Db × Advanced
  unfolding is_terminal next_status update_job get_job advance_guarded
  advance_job now stale job db =
      if is_terminal job.status then (db, view job) else elim job.status [
        | pending ↦
            let moved =
              update_job now job.id
                (λ j. record j { status = next_status pending job.rechunk; started_at = some now })
                db in
            elim (get_job job.id moved) [
              | none ↦ (moved, raised)
              | some again ↦ advance_guarded now stale again moved
            ]
        | _ ↦ advance_guarded now stale job db
      ]

  unfoldable pub advance : ℕ → ℕ → ℕ → Db → Db × Advanced
  unfolding get_job advance_job
  advance now stale job_id db = elim (get_job job_id db) [
    | none ↦ (db, raised)
    | some job ↦ advance_job now stale job db
  ]
