-- ===== src/Knowledge/Rescue.antt =====
-- backend/services/knowledge/rescue.py: documents and rebuilds that nothing has moved for too long.
pub mod Unblocked
use lumina_ai.Prelude.{ℕ, ◌+◌, Bool, true, false, some, List, [], ◌∷◌, length}
use lumina_ai.Knowledge.DocumentStatus as Doc
use lumina_ai.Knowledge.ReindexPlan.{Status, pending, rechunking, embedding, failed}
use lumina_ai.Knowledge.Tables.{
  Document, ReindexJob, Db, Message, ingest_document, embed_document, reindex_job, stuck_documents,
  stuck_jobs, update_job, send,
}

-- `_enqueue_for`: a document that was only uploaded starts at the beginning.
unfoldable pub message_for : Document → Message
message_for d = elim d.status [ Doc.uploaded ↦ ingest_document d.id | _ ↦ embed_document d.id ]

unfoldable pub send_documents : List Document → Db → Db
unfolding message_for send
send_documents [] db = db
send_documents (d ∷ ds) db = send_documents ds (send (message_for d) db)

-- `StuckDocumentRescueService.rescue_tenant`, with the threshold as an instant.
unfoldable pub rescue_documents : ℕ → Db → Db × ℕ
unfolding stuck_documents Doc.is_rescuable send_documents
rescue_documents threshold db =
    let stuck = stuck_documents Doc.is_rescuable threshold db in
    (send_documents stuck db, length stuck)

-- `_REQUEUE_STATUSES` and `_FAIL_STATUSES`.
unfoldable pub is_requeued : Status → Bool
is_requeued pending = true
is_requeued _ = false

unfoldable pub is_failed_when_stuck : Status → Bool
is_failed_when_stuck rechunking = true
is_failed_when_stuck embedding = true
is_failed_when_stuck _ = false

unfoldable pub fail_job : ℕ → ReindexJob → ReindexJob
fail_job now j = record j { status = failed; error = true; finished_at = some now }

unfoldable pub fail_jobs : ℕ → List ReindexJob → Db → Db
unfolding update_job fail_job
fail_jobs now [] db = db
fail_jobs now (j ∷ js) db = fail_jobs now js (update_job now j.id (fail_job now) db)

unfoldable pub send_jobs : List ReindexJob → Db → Db
unfolding send
send_jobs [] db = db
send_jobs (j ∷ js) db = send_jobs js (send (reindex_job j.id) db)

-- `StuckReindexRescueService.rescue_tenant`: both lists are read before any row is written.
unfoldable pub rescue_jobs : ℕ → ℕ → Db → Db × ℕ
unfolding stuck_jobs is_requeued is_failed_when_stuck fail_jobs send_jobs
rescue_jobs now threshold db =
    let requeued = stuck_jobs is_requeued threshold db in
    let stalled = stuck_jobs is_failed_when_stuck threshold db in
    (send_jobs requeued (fail_jobs now stalled db), length requeued + length stalled)
