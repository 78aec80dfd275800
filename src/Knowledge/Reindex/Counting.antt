-- ===== src/Knowledge/Reindex/Counting.antt =====
-- What the two counts of `_advance_embedding` of backend/services/knowledge/reindex.py say: the
-- rows of a version against the active chunks of the knowledge base.
use lumina_ai.Prelude.{
  ℕ, ◌+◌, ◌≤◌, ◌<◌, ◌⊎◌, ◌≡◌, refl, Bool, not, ◌&&◌, some, List, [], ◌∷◌, ◌==◌, leb, min, arith,
  if◌then◌else◌,
}
use lumina_ai.Prelude.Texts.{Text}
use lumina_ai.Knowledge.ReindexPlan.{make_progress, ready_to_switch, is_complete}
use lumina_ai.Knowledge.Tables.{
  Chunk, ReindexJob, Db, count, is_version, is_active_chunk, lacks_embedding, count_versions,
  count_active_for_kb, count_for_kb_version, update_job,
}
use lumina_ai.Knowledge.Reindex.{finish_embedding, switch}

-- An active chunk that search cannot find under the version.
unfoldable pub is_uncovered : ℕ → Text → ℕ → Chunk → Bool
unfolding lacks_embedding
is_uncovered kb_id model version c = is_active_chunk kb_id c && lacks_embedding model version c

-- A superseded chunk that has a vector of the version.
unfoldable pub is_stale : ℕ → Text → ℕ → Chunk → Bool
unfolding lacks_embedding
is_stale kb_id model version c =
    c.kb_id == kb_id && c.superseded && not (lacks_embedding model version c)

-- The unique index of the embeddings: a chunk has at most one row of a model and version.
abbrev pub IsUnique : Text → ℕ → List Chunk → Type 0
IsUnique model version [] = Unit {0}
IsUnique model version (c ∷ cs) =
    (count (is_version model version) c.embeddings ≤ 1) × IsUnique model version cs

-- The rows counted and the chunks not covered make up the active chunks and the stale ones.
pub count_versions_balance :
    (kb_id version : ℕ) (model : Text) (chunks : List Chunk)
    → IsUnique model version chunks
    → count_versions kb_id model version chunks + count (is_uncovered kb_id model version) chunks
      ≡ count (is_active_chunk kb_id) chunks + count (is_stale kb_id model version) chunks
unfolding count_versions count is_uncovered is_stale lacks_embedding
count_versions_balance kb_id version model [] h = refl
count_versions_balance kb_id version model (c ∷ cs) h =
    let rest = count_versions_balance kb_id version model cs h.1 in let here = h.0 in ground arith

unfoldable pub uncovered : ReindexJob → Db → ℕ
uncovered job db =
    count (is_uncovered job.kb_id job.target_model job.target_embedding_version) db.chunks

unfoldable pub stale : ReindexJob → Db → ℕ
stale job db = count (is_stale job.kb_id job.target_model job.target_embedding_version) db.chunks

-- The job's row with the progress written.
abbrev pub counted : ℕ → ReindexJob → Db → Db
counted now job db =
    let total = count_active_for_kb job.kb_id db in
    update_job now job.id
      (λ j. record j {
        total_chunks = total;
        embedded_chunks =
            min (count_for_kb_version job.kb_id job.target_model job.target_embedding_version db)
              total;
      })
      db

pub finish_by_counts :
    (now : ℕ) (job : ReindexJob) (db : Db)
    → finish_embedding now job db
      ≡ some (
          if leb
            (count_active_for_kb job.kb_id db)
            (count_for_kb_version job.kb_id job.target_model job.target_embedding_version db)
          then switch now job job.target_model (counted now job db)
          else counted now job db)
unfolding finish_embedding make_progress ready_to_switch is_complete
finish_by_counts now job db = ground arith

-- A round of embedding ends in the switch exactly when the active chunks that have no vector of the
-- target version are at most as many as the superseded ones that have one; otherwise only the
-- progress is written. No chunk has two rows of the target version.
pub finish_embedding_lem :
    (now : ℕ) (job : ReindexJob) (db : Db)
    → IsUnique job.target_model job.target_embedding_version db.chunks
    → ((uncovered job db ≤ stale job db)
        × (finish_embedding now job db
            ≡ some (switch now job job.target_model (counted now job db))))
      ⊎ ((stale job db < uncovered job db)
          × (finish_embedding now job db ≡ some (counted now job db)))
unfolding uncovered stale count_active_for_kb count_for_kb_version
finish_embedding_lem now job db unique =
    let balance =
      count_versions_balance job.kb_id job.target_embedding_version job.target_model db.chunks
        unique in
    let e = finish_by_counts now job db in ground arith
