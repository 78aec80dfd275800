-- ===== src/Knowledge/Cleanup.antt =====
-- `OldEmbeddingCleanupService.purge_switched` of backend/services/knowledge/cleanup.py: the vectors
-- of earlier versions go when a switch is old enough. The number of the vectors that went, which it
-- returns for the log, is left out.
pub mod Current
use lumina_ai.Prelude.{ℕ, Option, none, some, List, [], ◌∷◌}
use lumina_ai.Knowledge.Tables.{
  ReindexJob, Db, get_kb, update_job, purge_other_versions, switched_before,
}

abbrev pub mark_purged : ℕ → ReindexJob → Db → Db
mark_purged now job db = update_job now job.id (λ j. record j { purged_at = some now }) db

-- One job: a knowledge base that is gone is only marked.
unfoldable pub purge_job : ℕ → ReindexJob → Db → Db
unfolding get_kb purge_other_versions update_job
purge_job now job db = elim (get_kb job.kb_id db) [
  | none ↦ mark_purged now job db
  | some kb ↦
      mark_purged now job (purge_other_versions kb.id kb.embedding_model kb.embedding_version db)
]

unfoldable pub purge_jobs : ℕ → List ReindexJob → Db → Db
unfolding purge_job
purge_jobs now [] db = db
purge_jobs now (j ∷ js) db = purge_jobs now js (purge_job now j db)

unfoldable pub purge_switched : ℕ → ℕ → ℕ → Db → Db
unfolding purge_jobs switched_before
purge_switched now cutoff limit db = purge_jobs now (switched_before cutoff limit db) db
