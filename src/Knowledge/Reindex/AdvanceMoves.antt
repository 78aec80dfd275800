-- ===== src/Knowledge/Reindex/AdvanceMoves.antt =====
-- `_advance_rechunk` and `advance` of backend/services/knowledge/reindex.py: every call moves the
-- job as the machine of backend/services/knowledge/reindex_plan.py allows.
use lumina_ai.Prelude.{
  ℕ, zero, suc, ◌+◌, ◌≡◌, ◌⊎◌, inl, inr, refl, ap, ◌∙◌, Bool, Option, none, some, List, [], ◌∷◌,
  arith, Bool-cases, Option-cases,
}
use lumina_ai.Prelude.Texts.{Text}
use lumina_ai.Knowledge.ReindexPlan.{
  Status, pending, rechunking, embedding, completed, failed, next_status, is_terminal,
}
use lumina_ai.Knowledge.DocumentStatus as Doc
use lumina_ai.Knowledge.Tables.{
  Document, ReindexJob, Db, get_job, update_job, count_active_for_kb, count_in_statuses_for_kb,
  for_kb_after, supersede_for_document, start_new_version, send, ingest_document, get_document,
}
use lumina_ai.Knowledge.Reingest.{Reingested, reingest, is_busy, restarted, conflict, not_found}
use lumina_ai.Knowledge.Reindex.{EmbedReply, rechunk_batch_size}
use lumina_ai.Knowledge.Reindex.RowStatus.{
  status_of, status_in, status_of-update_job, status_of-set_at, get_job-id,
}
use lumina_ai.Knowledge.Reindex.Advance.{
  Rechunked, processed, failed_loop, rechunk_batch, cursor_of, after_rechunk, after_batch,
  advance_rechunk, advance_stage,
}
use lumina_ai.Knowledge.Reindex.Moves.{stays, steps, MovedTo, load_same, advance_embedding-MovedTo}

reingest_jobs :
    (now stale_after document_id : ℕ) (db next : Db)
    → reingest now stale_after document_id db ≡ restarted next
    → next.jobs ≡ db.jobs
unfolding reingest supersede_for_document start_new_version send
reingest_jobs now stale_after document_id db next e =
    elim (Option-cases (get_document document_id db)) [
      | inl missing ↦
          let none_such : reingest now stale_after document_id db ≡ not_found =
            rw (missing, reingest) refl in
          ground (arith, none_such, e)
      | inr (d, there) ↦ elim (Bool-cases (is_busy now stale_after d)) [
        | inl busy ↦
            let refused : reingest now stale_after document_id db ≡ conflict =
              rw (there, reingest) (rw busy refl) in
            ground (arith, refused, e)
        | inr idle ↦
            let done : reingest now stale_after document_id db
                ≡ restarted (
                    send (ingest_document document_id) (
                      start_new_version now document_id (suc d.doc_version)
                        (supersede_for_document document_id db))) =
              rw (there, reingest) (rw idle refl) in
            let en : next
                ≡ send (ingest_document document_id) (
                    start_new_version now document_id (suc d.doc_version)
                      (supersede_for_document document_id db)) =
              ground (arith, done, e) in
            ap (λ x. x.jobs) en
      ]
    ]

Reingested-cases :
    (x : Reingested) → ((next : Db) × (x ≡ restarted next)) ⊎ (x ≡ conflict) ⊎ (x ≡ not_found)
Reingested-cases (restarted next) = inl (next, refl)
Reingested-cases conflict = inr (inl refl)
Reingested-cases not_found = inr (inr refl)

rechunk_batch_status :
    (i now stale_after : ℕ) (ds : List Document) (n : ℕ) (last : Option ℕ) (db : Db)
    → status_of i (rechunk_batch now stale_after ds n last db).0 ≡ status_of i db
unfolding rechunk_batch
rechunk_batch_status i now stale_after [] n last db = refl
rechunk_batch_status i now stale_after (d ∷ ds) n last db =
    elim (Reingested-cases (reingest now stale_after d.id db)) [
      | inl (next, done) ↦
          rw (done, rechunk_batch)
            (rechunk_batch_status i now stale_after ds (suc n) (some d.id) next
              ∙ ap (status_in i) (reingest_jobs now stale_after d.id db next done))
      | inr (inl busy) ↦ rw (busy, rechunk_batch) refl
      | inr (inr missing) ↦ rw (missing, rechunk_batch) refl
    ]

ℕ-cases : (n : ℕ) → (n ≡ 0) ⊎ ((m : ℕ) × (n ≡ suc m))
ℕ-cases zero = inl refl
ℕ-cases (suc m) = inr (m, refl)

module _ (embed : List Text → Text → Option EmbedReply) where
  after_rechunk-MovedTo :
      (i now : ℕ) (job : ReindexJob) (r : Bool) (db : Db)
      → job.id ≡ i
      → status_of i db ≡ some (rechunking, r)
      → MovedTo i r rechunking (after_rechunk embed now job db).0
  unfolding next_status is_terminal after_rechunk
  after_rechunk-MovedTo i now job r db same found =
      elim (ℕ-cases (count_in_statuses_for_kb job.kb_id Doc.is_still_processing db)) [
        | inr (m, waiting) ↦
            rw (waiting, after_rechunk)
              (
                rechunking,
                (
                  status_of-update_job i now job.id (λ j. j) db (λ j. (refl, refl, refl)) ∙ found,
                  stays,
                ),
              )
        | inl none_left ↦
            let f : ReindexJob → ReindexJob = λ j. record j {
              status = embedding;
              total_chunks = count_active_for_kb job.kb_id db;
            } in
            let moved = update_job now job.id f db in
            let at_moved =
              status_of-set_at i now job.id f db rechunking embedding r same
                (λ j. (refl, refl, refl)) found in
            elim (Option-cases (get_job job.id moved)) [
              | inl gone ↦
                  rw (none_left, after_rechunk) (rw gone (embedding, (at_moved, steps refl stays)))
              | inr (again, there) ↦
                  let (t, (row, moves)) =
                    advance_embedding-MovedTo embed i now again r moved
                      ((get_job-id job.id moved again there).0 ∙ same) at_moved in
                  rw (none_left, after_rechunk) (rw there (t, (row, steps refl moves)))
            ]
      ]

  after_batch-MovedTo :
      (i now : ℕ) (job : ReindexJob) (r : Bool) (batch : List Document) (next : Db)
      (outcome : Rechunked)
      → job.id ≡ i
      → status_of i next ≡ some (rechunking, r)
      → MovedTo i r rechunking (after_batch embed now job batch (next, outcome)).0
  unfolding after_batch
  after_batch-MovedTo i now job r batch next failed_loop same found = (rechunking, (found, stays))
  after_batch-MovedTo i now job r batch next (processed (suc n) last) same found =
      let f : ReindexJob → ReindexJob = λ j. record j {
        rechunk_cursor = last;
        rechunked_documents = job.rechunked_documents + suc n;
      } in
      rw (load_same job.id (update_job now job.id f next)) (
        rechunking,
        (status_of-update_job i now job.id f next (λ j. (refl, refl, refl)) ∙ found, stays),
      )
  after_batch-MovedTo i now job r (d ∷ ds) next (processed zero last) same found = (
    rechunking,
    (status_of-update_job i now job.id (λ j. j) next (λ j. (refl, refl, refl)) ∙ found, stays),
  )
  after_batch-MovedTo i now job r [] next (processed zero last) same found =
      after_rechunk-MovedTo i now job r next same found

  -- A job that is being rebuilt, by its stage.
  pub stage-MovedTo :
      (i now stale_after : ℕ) (job : ReindexJob) (r : Bool) (s : Status) (db : Db)
      → job.id ≡ i
      → job.status ≡ s
      → (s ≡ rechunking) ⊎ (s ≡ embedding)
      → status_of i db ≡ some (s, r)
      → MovedTo i r s (advance_stage embed now stale_after job db).0
  unfolding advance_stage advance_rechunk
  stage-MovedTo i now stale_after job r rechunking db same is_s which found =
      let batch = for_kb_after job.kb_id (cursor_of job.id db) rechunk_batch_size db in
      let sent = rechunk_batch now stale_after batch 0 none db in
      rw (is_s, advance_stage)
        (after_batch-MovedTo i now job r batch sent.0 sent.1 same
          (rechunk_batch_status i now stale_after batch 0 none db ∙ found))
  stage-MovedTo i now stale_after job r embedding db same is_s which found =
      rw (is_s, advance_stage) (advance_embedding-MovedTo embed i now job r db same found)
  stage-MovedTo i now stale_after job r pending db same is_s which found = ground arith
  stage-MovedTo i now stale_after job r completed db same is_s which found = ground arith
  stage-MovedTo i now stale_after job r failed db same is_s which found = ground arith
