-- ===== src/Knowledge/Reingest.antt =====
-- `DocumentService.reingest` of backend/services/knowledge/documents.py: a document starts over.
pub mod Hidden
use lumina_ai.Prelude.{ℕ, suc, ◌+◌, Bool, true, false, ◌&&◌, Option, none, some, ltb, if◌then◌else◌}
use lumina_ai.Knowledge.DocumentStatus as Doc
use lumina_ai.Knowledge.Tables.{
  Document, Db, Message, ingest_document, get_document, supersede_for_document, start_new_version,
  send,
}

pub data Reingested : Type 0 where
  restarted : Db → Reingested
  conflict not_found : Reingested

-- A document that a job is writing is left alone, unless nothing has moved for `stale` seconds.
unfoldable pub is_busy : ℕ → ℕ → Document → Bool
unfolding Doc.is_in_progress
is_busy now stale d = Doc.is_in_progress d.status && ltb now (d.updated_at + stale)

unfoldable pub reingest : ℕ → ℕ → ℕ → Db → Reingested
unfolding get_document is_busy supersede_for_document start_new_version send
reingest now stale document_id db = elim (get_document document_id db) [
  | none ↦ not_found
  | some d ↦
      if is_busy now stale d
      then conflict
      else restarted (
          send (ingest_document document_id) (
            start_new_version now document_id (suc d.doc_version)
              (supersede_for_document document_id db)))
]
