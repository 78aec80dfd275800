-- ===== src/Knowledge/Reingest/Hidden.antt =====
-- What search sees of a document that starts over, by `reingest` of
-- backend/services/knowledge/documents.py.
use lumina_ai.Prelude.{
  ltb, ◌+◌, ◌<◌, ◌≤◌, ℕ, suc, ◌≡◌, ◌⊎◌, refl, Bool, true, false, not, ◌&&◌, some, List, [], ◌∷◌,
  ◌==◌, arith, Bool-cases, inl, inr,
}
use lumina_ai.Knowledge.DocumentStatus as Doc
use lumina_ai.Knowledge.Tables.{
  Document, Chunk, Db, filter, update_where, is_active_chunk, for_retrieval, get_document,
  supersede_for_document, start_new_version, update_document, send, ingest_document,
}
use lumina_ai.Knowledge.Tables.Rows.{first-update_where}
use lumina_ai.Knowledge.Reingest.{reingest, is_busy, restarted, conflict}

abbrev pub is_chunk_of : ℕ → Chunk → Bool
is_chunk_of document_id c = c.document_id == document_id

superseded_filter :
    (kb_id document_id : ℕ) (cs : List Chunk)
    → filter (is_active_chunk kb_id) (
        update_where
          (λ c. c.document_id == document_id && not c.superseded)
          (λ c. record c { superseded = true })
          cs)
      ≡ filter (λ c. not (is_chunk_of document_id c)) (filter (is_active_chunk kb_id) cs)
unfolding filter update_where
superseded_filter kb_id document_id [] = refl
superseded_filter kb_id document_id (c ∷ cs) =
    let rest = superseded_filter kb_id document_id cs in ground arith

-- The statuses under which a job writes the document.
abbrev pub IsWritten : Doc.Status → Type 0
IsWritten s = (s ≡ Doc.parsing) ⊎ (s ≡ Doc.cleaned) ⊎ (s ≡ Doc.embedding)

abbrev pub IsAtRest : Doc.Status → Type 0
IsAtRest s = (s ≡ Doc.uploaded) ⊎ (s ≡ Doc.chunked) ⊎ (s ≡ Doc.ready) ⊎ (s ≡ Doc.failed)

is_in_progress_lem :
    (s : Doc.Status)
    → (IsWritten s × (Doc.is_in_progress s ≡ true)) ⊎ (IsAtRest s × (Doc.is_in_progress s ≡ false))
unfolding Doc.is_in_progress
is_in_progress_lem s = ground arith

is_busy_lem :
    (now stale : ℕ) (d : Document)
    → ((is_busy now stale d ≡ true) × IsWritten d.status × (now < d.updated_at + stale))
      ⊎ ((is_busy now stale d ≡ false) × (IsAtRest d.status ⊎ (d.updated_at + stale ≤ now)))
unfolding is_busy
is_busy_lem now stale d = elim (is_in_progress_lem d.status) [
  | inl (written, e) ↦ elim (Bool-cases (ltb now (d.updated_at + stale))) [
    | inl fresh ↦ inl (ground (arith, e, fresh), written, ground (arith, fresh))
    | inr old ↦ inr (ground (arith, e, old), inr (ground (arith, old)))
  ]
  | inr (rests, e) ↦ inr (ground (arith, e), inl rests)
]

-- A document is refused if its status is parsing, cleaned or embedding and its row moved less than
-- `stale_after` seconds ago. Otherwise it starts over: its row is back at `uploaded` with the next version, the jobs stay, and
-- the chunks that search may use lose those of the document at once, and no others.
pub reingest_lem :
    (now stale_after document_id kb_id : ℕ) (db : Db) (d : Document)
    → get_document document_id db ≡ some d
    → (IsWritten d.status
        × (now < d.updated_at + stale_after)
        × (reingest now stale_after document_id db ≡ conflict))
      ⊎ ((IsAtRest d.status ⊎ (d.updated_at + stale_after ≤ now))
          × ((next : Db) × ((reingest now stale_after document_id db ≡ restarted next)
                × (next.jobs ≡ db.jobs)
                × (get_document document_id next
                    ≡ some (record d {
                      doc_version = suc d.doc_version;
                      status = Doc.uploaded;
                      updated_at = now;
                    }))
                × (for_retrieval kb_id next
                    ≡ filter (λ c. not (is_chunk_of document_id c)) (for_retrieval kb_id db)))))
unfolding supersede_for_document start_new_version send for_retrieval update_document get_document
    reingest
reingest_lem now stale_after document_id kb_id db d there = elim (is_busy_lem now stale_after d) [
  | inl (busy, written, fresh) ↦ inl (written, fresh, rw (there, reingest) (rw busy refl))
  | inr (idle, why) ↦ inr (
    why,
    (
      send (ingest_document document_id) (
          start_new_version now document_id (suc d.doc_version)
            (supersede_for_document document_id db)),
      (
        rw (there, reingest) (rw idle refl),
        refl,
        first-update_where (λ k. k.id) document_id
            (λ k. record k {
              doc_version = suc d.doc_version;
              status = Doc.uploaded;
              updated_at = now;
            })
            db.documents d (λ k. refl) there,
        superseded_filter kb_id document_id db.chunks,
      ),
    ),
  )
]
