-- ===== src/Knowledge/Reindex/Completion.antt =====
-- A round of `_advance_embedding` of backend/services/knowledge/reindex.py, end to end.
use lumina_ai.Prelude.{
  ℕ, ◌≤◌, ◌≡◌, refl, sym, ap, ◌∙◌, Option, some, List, [], ◌∷◌, length, min, arith, ◌==◌,
}
use mathlib.Core.Path.{subst}
use lumina_ai.Prelude.Texts.{Text}
use lumina_ai.Knowledge.ReindexPlan.{completed}
use lumina_ai.Knowledge.Tables.{
  Chunk, KnowledgeBase, ReindexJob, Db, count, is_active_chunk, count_versions, lacks_embedding,
  get_job, update_job, update_where, update_kb, count_active_for_kb, count_for_kb_version,
}
use lumina_ai.Knowledge.Tables.Rows.{get_job-update_job}
use lumina_ai.Knowledge.Reindex.{
  EmbedReply, view, embed_missing, advance_embedding, finish_embedding, switch, load, record_usage,
  after_missing, missing_chunks,
}
use lumina_ai.Knowledge.Reindex.Counting.{is_uncovered, uncovered, counted, finish_by_counts}
use lumina_ai.Knowledge.Reindex.Coverage.{
  Answers, CoveredBut, KeepsOthers, embed_batches_cover, CoveredBut-missing,
}

none_uncovered :
    (kb_id version : ℕ) (model : Text) (cs : List Chunk)
    → CoveredBut kb_id version model [] cs
    → (count (is_uncovered kb_id model version) cs ≡ 0)
      × (count (is_active_chunk kb_id) cs ≤ count_versions kb_id model version cs)
unfolding count count_versions is_uncovered lacks_embedding
none_uncovered kb_id version model [] h = (refl, omega arith)
none_uncovered kb_id version model (c ∷ cs) h =
    let rest = none_uncovered kb_id version model cs h.1 in
    (ground (arith, h.0, rest.0), ground (arith, h.0, rest.1))

embed_missing_cover :
    (embed : List Text → Text → Option EmbedReply) (now : ℕ) (job : ReindexJob) (db : Db)
    → Answers embed job.target_model
    → (next : Db) × ((used : ℕ) × ((embed_missing embed now job db ≡ (next, some used))
          × CoveredBut job.kb_id job.target_embedding_version job.target_model [] next.chunks
          × KeepsOthers db next))
unfolding embed_missing missing_chunks
embed_missing_cover embed now job db answers =
    let missing = missing_chunks embed job db in
    embed_batches_cover embed now job answers (length missing) missing 0 db (omega arith)
      (CoveredBut-missing job.kb_id job.target_embedding_version job.target_model db.chunks)

pub record_usage-same :
    (job : ReindexJob) (tokens : ℕ) (db : Db)
    → ((record_usage job tokens db).chunks ≡ db.chunks)
      × KeepsOthers db (record_usage job tokens db)
unfolding record_usage
record_usage-same job tokens db = (ground arith, (ground arith, ground arith))

-- The knowledge bases after the switch of the job.
abbrev pub switched : ReindexJob → List KnowledgeBase → List KnowledgeBase
switched job kbs =
    update_where (λ k. k.id == job.kb_id)
      (λ k. record k {
        embedding_model = job.target_model;
        embedding_version = job.target_embedding_version;
        indexed_knowledge_version = job.target_knowledge_version;
      })
      kbs

-- With no uncovered chunk left the second transaction switches.
finish_covered :
    (now : ℕ) (job : ReindexJob) (db : Db)
    → CoveredBut job.kb_id job.target_embedding_version job.target_model [] db.chunks
    → finish_embedding now job db ≡ some (switch now job job.target_model (counted now job db))
unfolding count_active_for_kb count_for_kb_version
finish_covered now job db covered =
    let (_, enough) =
      none_uncovered job.kb_id job.target_embedding_version job.target_model db.chunks covered in
    let e = finish_by_counts now job db in ground arith

advance_by_steps :
    (embed : List Text → Text → Option EmbedReply) (now used : ℕ) (job done : ReindexJob)
    (db next finished : Db)
    → embed_missing embed now job db ≡ (next, some used)
    → finish_embedding now job (record_usage job used next) ≡ some finished
    → get_job job.id finished ≡ some done
    → advance_embedding embed now job db ≡ (finished, view done)
unfolding advance_embedding after_missing load
advance_by_steps embed now used job done db next finished embedded finish found =
    rw (embedded, advance_embedding) (rw (finish, after_missing) (rw (found, load) refl))

-- The job's row after the progress and the switch.
switched_row :
    (now : ℕ) (job : ReindexJob) (db : Db)
    → get_job job.id db ≡ some job
    → (done : ReindexJob) × ((get_job job.id (switch now job job.target_model (counted now job db))
          ≡ some done)
        × (done.status ≡ completed))
unfolding switch update_kb get_job
switched_row now job db found =
    let at_counts =
      get_job-update_job now
        (λ j. record j {
          total_chunks = count_active_for_kb job.kb_id db;
          embedded_chunks =
              min (count_for_kb_version job.kb_id job.target_model job.target_embedding_version db)
                (count_active_for_kb job.kb_id db);
        })
        job.id db job (λ k. refl) found in
    (
      _,
      (
        get_job-update_job now
            (λ j. record j { status = completed; switched_at = some now; finished_at = some now })
            job.id
            (update_kb job.kb_id
              (λ k. record k {
                embedding_model = job.target_model;
                embedding_version = job.target_embedding_version;
                indexed_knowledge_version = job.target_knowledge_version;
              })
              (counted now job db))
            _ (λ k. refl) at_counts,
        refl,
      ),
    )

-- A round of embedding with a provider that answers every request, one vector for each text, under
-- the name it was asked for: the job is completed, the knowledge base holds the job's model and
-- versions, and no active chunk of it is without a vector of that model and version.
pub advance_embedding_completes :
    (embed : List Text → Text → Option EmbedReply) (now : ℕ) (job : ReindexJob) (db : Db)
    → Answers embed job.target_model
    → get_job job.id db ≡ some job
    → (final : Db) × ((done : ReindexJob) × ((advance_embedding embed now job db
            ≡ (final, view done))
          × (get_job job.id final ≡ some done)
          × (done.status ≡ completed)
          × (final.knowledge_bases ≡ switched job db.knowledge_bases)
          × (uncovered job final ≡ 0)))
unfolding switch update_kb update_job uncovered get_job
advance_embedding_completes embed now job db answers found =
    let (next, (used, (embedded, covered, (jobs, kbs)))) =
      embed_missing_cover embed now job db answers in
    let recorded = record_usage job used next in
    let (same_chunks, (same_jobs, same_kbs)) = record_usage-same job used next in
    let recorded_covered =
      subst (CoveredBut job.kb_id job.target_embedding_version job.target_model [])
        (sym same_chunks) covered in
    let recorded_found : get_job job.id recorded ≡ some job = rw (same_jobs, jobs, get_job) found in
    let (done, (row, status)) = switched_row now job recorded recorded_found in
    (
      switch now job job.target_model (counted now job recorded),
      (
        done,
        (
          advance_by_steps embed now used job done db next
              (switch now job job.target_model (counted now job recorded)) embedded
              (finish_covered now job recorded recorded_covered) row,
          row,
          status,
          ap (switched job) (same_kbs ∙ kbs),
          (none_uncovered job.kb_id job.target_embedding_version job.target_model recorded.chunks
              recorded_covered).0,
        ),
      ),
    )
