-- ===== src/Knowledge/Reindex/Moves.antt =====
-- `advance` of backend/services/knowledge/reindex.py against the state machine of
-- backend/services/knowledge/reindex_plan.py: no call moves a job in another way.
use lumina_ai.Prelude.{
  ℕ, ◌≡◌, inl, inr, refl, sym, ap, ◌∙◌, Bool, false, Option, none, some, List, leb, min, length,
  arith, Bool-cases, Option-cases,
}
use lumina_ai.Prelude.Texts.{Text}
use lumina_ai.Knowledge.ReindexPlan.{Status, embedding, completed, failed, next_status, is_terminal}
use lumina_ai.Knowledge.Tables.{
  ReindexJob, Db, get_job, update_kb, count_active_for_kb, count_for_kb_version,
}
use lumina_ai.Knowledge.Reindex.{
  EmbedReply, load, embed_missing, missing_chunks, record_usage, finish_embedding, switch,
  after_missing, advance_embedding,
}
use lumina_ai.Knowledge.Reindex.Counting.{counted, finish_by_counts}
use lumina_ai.Knowledge.Reindex.Completion.{record_usage-same}
use lumina_ai.Knowledge.Reindex.RowStatus.{
  status_of, status_in, status_of-update_job, status_of-set_at, embed_batches_status,
}

-- What the machine allows: to stay, to take its steps while the job is not at rest, and to fail.
pub data Moves (rechunk : Bool) : Status → Status → Type 0 where
  stays : {s : Status} → Moves rechunk s s
  steps :
      {s t : Status}
      → is_terminal s ≡ false
      → Moves rechunk (next_status s rechunk) t
      → Moves rechunk s t
  fails : {s : Status} → is_terminal s ≡ false → Moves rechunk s failed

-- The row of the job has moved from `s` as the machine allows.
abbrev pub MovedTo : ℕ → Bool → Status → Db → Type 0
MovedTo i r s db = (t : Status) × ((status_of i db ≡ some (t, r)) × Moves r s t)

pub load_same : (i : ℕ) (db : Db) → (load i db).0 ≡ db
unfolding load
load_same i db = elim (Option-cases (get_job i db)) [
  | inl gone ↦ rw (gone, load) refl
  | inr (j, there) ↦ rw (there, load) refl
]

finish_embedding-MovedTo :
    (i now : ℕ) (job : ReindexJob) (r : Bool) (db next : Db)
    → job.id ≡ i
    → status_of i db ≡ some (embedding, r)
    → finish_embedding now job db ≡ some next
    → MovedTo i r embedding next
unfolding switch update_kb next_status is_terminal
finish_embedding-MovedTo i now job r db next same found finished =
    let e = sym (finish_by_counts now job db) ∙ finished in
    let total = count_active_for_kb job.kb_id db in
    let done = count_for_kb_version job.kb_id job.target_model job.target_embedding_version db in
    let at_counts : status_of i (counted now job db) ≡ some (embedding, r) =
      status_of-update_job i now job.id
        (λ j. record j { total_chunks = total; embedded_chunks = min done total }) db
        (λ j. (refl, refl, refl))
      ∙ found in
    elim (Bool-cases (leb total done)) [
      | inl enough ↦
          let en : next ≡ switch now job job.target_model (counted now job db) =
            ground (arith, e, enough) in
          (
            completed,
            (
              ap (status_of i) en
                  ∙ status_of-set_at i now job.id
                      (λ j. record j {
                        status = completed;
                        switched_at = some now;
                        finished_at = some now;
                      })
                      (update_kb job.kb_id
                        (λ k. record k {
                          embedding_model = job.target_model;
                          embedding_version = job.target_embedding_version;
                          indexed_knowledge_version = job.target_knowledge_version;
                        })
                        (counted now job db))
                      embedding completed r same (λ j. (refl, refl, refl)) at_counts,
              steps refl stays,
            ),
          )
      | inr short ↦
          let en : next ≡ counted now job db = ground (arith, e, short) in
          (embedding, (ap (status_of i) en ∙ at_counts, stays))
    ]

after_missing-MovedTo :
    (i now : ℕ) (job : ReindexJob) (r : Bool) (embedded : Db) (result : Option ℕ)
    → job.id ≡ i
    → status_of i embedded ≡ some (embedding, r)
    → MovedTo i r embedding (after_missing now job (embedded, result)).0
unfolding after_missing
after_missing-MovedTo i now job r embedded none same found = (embedding, (found, stays))
after_missing-MovedTo i now job r embedded (some tokens) same found =
    let recorded = record_usage job tokens embedded in
    let (_, (same_jobs, _)) = record_usage-same job tokens embedded in
    let found' : status_of i recorded ≡ some (embedding, r) = ap (status_in i) same_jobs ∙ found in
    elim (Option-cases (finish_embedding now job recorded)) [
      | inl raised_error ↦ rw (raised_error, after_missing) (embedding, (found', stays))
      | inr (next, finished) ↦
          rw (finished, after_missing)
            (rw (load_same job.id next)
              (finish_embedding-MovedTo i now job r recorded next same found' finished))
    ]

module _ (embed : List Text → Text → Option EmbedReply) where
  pub advance_embedding-MovedTo :
      (i now : ℕ) (job : ReindexJob) (r : Bool) (db : Db)
      → job.id ≡ i
      → status_of i db ≡ some (embedding, r)
      → MovedTo i r embedding (advance_embedding embed now job db).0
  unfolding advance_embedding embed_missing
  advance_embedding-MovedTo i now job r db same found =
      let missing = missing_chunks embed job db in
      after_missing-MovedTo i now job r (embed_missing embed now job db).0
        (embed_missing embed now job db).1 same
        (embed_batches_status embed i (length missing) now job missing 0 db ∙ found)
