-- ===== src/Knowledge/Tables.antt =====
-- The rows of a tenant's knowledge bases and the queries of backend/repositories/knowledge.py that
-- a rebuild uses. A query sees one tenant, so the tables hold one, without the deleted documents.
-- An id is a number, as a UUID is.
pub mod Rows
pub mod Sweep
use lumina_ai.Prelude.{
  ℕ, zero, suc, ◌+◌, Bool, true, false, not, ◌&&◌, Option, none, some, List, [], ◌∷◌, ◌++◌, map,
  ltb, leb, ◌==◌, take, if◌then◌else◌,
}
use lumina_ai.Prelude.Texts.{Text, same_text}
use lumina_ai.Knowledge.DocumentStatus as Doc
use lumina_ai.Knowledge.ReindexPlan as Job

pub record KnowledgeBase : Type 0 where
  pub id : ℕ
  pub embedding_model : Text
  pub embedding_version : ℕ
  pub knowledge_version : ℕ
  pub indexed_knowledge_version : ℕ

pub record Document : Type 0 where
  pub id : ℕ
  pub kb_id : ℕ
  pub status : Doc.Status
  pub doc_version : ℕ
  pub updated_at : ℕ

-- A vector is only stored, so it is a number here.
pub record Embedding : Type 0 where
  pub model : Text
  pub embedding_version : ℕ
  pub vector : ℕ

-- The rows of the embedding table hang on their chunk, which they name by a foreign key.
pub record Chunk : Type 0 where
  pub id : ℕ
  pub document_id : ℕ
  pub kb_id : ℕ
  pub superseded : Bool
  pub token_count : ℕ
  pub content : Text
  pub embeddings : List Embedding

-- Of the error only that there is one is kept.
pub record ReindexJob : Type 0 where
  pub id : ℕ
  pub kb_id : ℕ
  pub status : Job.Status
  pub target_model : Text
  pub target_embedding_version : ℕ
  pub target_knowledge_version : ℕ
  pub rechunk : Bool
  pub total_chunks : ℕ
  pub embedded_chunks : ℕ
  pub total_documents : ℕ
  pub rechunked_documents : ℕ
  pub rechunk_cursor : Option ℕ
  pub started_at : Option ℕ
  pub switched_at : Option ℕ
  pub purged_at : Option ℕ
  pub finished_at : Option ℕ
  pub updated_at : ℕ
  pub error : Bool

-- What is put on the queues of backend/core/tasks.
pub data Message : Type 0 where
  ingest_document embed_document reindex_job : ℕ → Message

-- What backend/services/platform/usage.py is given to record.
pub record UsageEvent : Type 0 where
  pub request_job : ℕ
  pub model : Text
  pub prompt_tokens : ℕ

-- The tables in the order in which their queries return the rows: documents by id, chunks by seq.
pub record Db : Type 0 where
  pub knowledge_bases : List KnowledgeBase
  pub documents : List Document
  pub chunks : List Chunk
  pub jobs : List ReindexJob
  pub sent : List Message
  pub usage : List UsageEvent

unfoldable pub filter {ℓ} : {A : Type ℓ} → (A → Bool) → List A → List A
filter p [] = []
filter p (x ∷ xs) = let rest = filter p xs in if p x then x ∷ rest else rest

unfoldable pub first {ℓ} : {A : Type ℓ} → (A → Bool) → List A → Option A
first p [] = none
first p (x ∷ xs) = let rest = first p xs in if p x then some x else rest

unfoldable pub count {ℓ} : {A : Type ℓ} → (A → Bool) → List A → ℕ
count p [] = 0
count p (x ∷ xs) = let rest = count p xs in if p x then suc rest else rest

-- `queryset.filter(...).update(...)`.
unfoldable pub update_where {ℓ} : {A : Type ℓ} → (A → Bool) → (A → A) → List A → List A
update_where p f [] = []
update_where p f (x ∷ xs) = let rest = update_where p f xs in (if p x then f x else x) ∷ rest

abbrev pub is_active_chunk : ℕ → Chunk → Bool
is_active_chunk kb_id c = c.kb_id == kb_id && not c.superseded

abbrev pub is_version : Text → ℕ → Embedding → Bool
is_version model version e = same_text e.model model && e.embedding_version == version

-- `get_by_id` of the knowledge bases, the documents and the jobs.
unfoldable pub get_kb : ℕ → Db → Option KnowledgeBase
unfolding first
get_kb kb_id db = first (λ k. k.id == kb_id) db.knowledge_bases

unfoldable pub get_document : ℕ → Db → Option Document
unfolding first
get_document document_id db = first (λ d. d.id == document_id) db.documents

unfoldable pub get_job : ℕ → Db → Option ReindexJob
unfolding first
get_job job_id db = first (λ j. j.id == job_id) db.jobs

unfoldable pub update_kb : ℕ → (KnowledgeBase → KnowledgeBase) → Db → Db
unfolding update_where
update_kb kb_id f db = record db {
  knowledge_bases = update_where (λ k. k.id == kb_id) f db.knowledge_bases;
}

unfoldable pub update_document : ℕ → (Document → Document) → Db → Db
unfolding update_where
update_document document_id f db = record db {
  documents = update_where (λ d. d.id == document_id) f db.documents;
}

-- Every update of a job moves its `updated_at`.
unfoldable pub update_job : ℕ → ℕ → (ReindexJob → ReindexJob) → Db → Db
unfolding update_where
update_job now job_id f db = record db {
  jobs = update_where (λ j. j.id == job_id) (λ j. record (f j) { updated_at = now }) db.jobs;
}

unfoldable pub send : Message → Db → Db
send message db = record db { sent = db.sent ++ (message ∷ []) }

unfoldable pub for_retrieval : ℕ → Db → List Chunk
unfolding filter
for_retrieval kb_id db = filter (is_active_chunk kb_id) db.chunks

unfoldable pub count_active_for_kb : ℕ → Db → ℕ
unfolding count
count_active_for_kb kb_id db = count (is_active_chunk kb_id) db.chunks

unfoldable pub sum_tokens : List Chunk → ℕ
sum_tokens [] = 0
sum_tokens (c ∷ cs) = c.token_count + sum_tokens cs

unfoldable pub token_total_for_kb : ℕ → Db → ℕ
unfolding for_retrieval sum_tokens
token_total_for_kb kb_id db = sum_tokens (for_retrieval kb_id db)

unfoldable pub count_for_kb : ℕ → Db → ℕ
unfolding count
count_for_kb kb_id db = count (λ d. d.kb_id == kb_id) db.documents

abbrev pub is_after : Option ℕ → Document → Bool
is_after none d = true
is_after (some cursor) d = ltb cursor d.id

unfoldable pub for_kb_after : ℕ → Option ℕ → ℕ → Db → List Document
unfolding filter
for_kb_after kb_id cursor limit db =
    take limit (filter (λ d. d.kb_id == kb_id && is_after cursor d) db.documents)

unfoldable pub count_in_statuses_for_kb : ℕ → (Doc.Status → Bool) → Db → ℕ
unfolding count
count_in_statuses_for_kb kb_id is_in db =
    count (λ d. d.kb_id == kb_id && is_in d.status) db.documents

-- One chunk of `chunks_without_embedding`.
unfoldable pub lacks_embedding : Text → ℕ → Chunk → Bool
unfolding count
lacks_embedding model version c = count (is_version model version) c.embeddings == 0

-- `count_for_kb_version` counts the rows of all chunks of the knowledge base.
unfoldable pub count_versions : ℕ → Text → ℕ → List Chunk → ℕ
unfolding count
count_versions kb_id model version [] = 0
count_versions kb_id model version (c ∷ cs) =
    (if c.kb_id == kb_id then count (is_version model version) c.embeddings else 0)
    + count_versions kb_id model version cs

unfoldable pub count_for_kb_version : ℕ → Text → ℕ → Db → ℕ
unfolding count_versions
count_for_kb_version kb_id model version db = count_versions kb_id model version db.chunks

-- `upsert` of one row: a row of the same model and version is overwritten.
unfoldable pub upsert_embedding : Text → ℕ → ℕ → List Embedding → List Embedding
upsert_embedding model version vector [] =
    record { model = model; embedding_version = version; vector = vector } ∷ []
upsert_embedding model version vector (e ∷ es) =
    let rest = upsert_embedding model version vector es in
    if is_version model version e then record e { vector = vector } ∷ es else e ∷ rest

unfoldable pub upsert_row : Text → ℕ → ℕ → ℕ → Db → Db
unfolding update_where upsert_embedding
upsert_row model version chunk_id vector db = record db {
  chunks =
      update_where (λ c. c.id == chunk_id)
        (λ c. record c { embeddings = upsert_embedding model version vector c.embeddings })
        db.chunks;
}

-- `purge_other_versions`: the rows of the kept version stay.
unfoldable pub purge_other_versions : ℕ → Text → ℕ → Db → Db
unfolding update_where filter
purge_other_versions kb_id model version db = record db {
  chunks =
      update_where (λ c. c.kb_id == kb_id)
        (λ c. record c { embeddings = filter (is_version model version) c.embeddings }) db.chunks;
}

unfoldable pub supersede_for_document : ℕ → Db → Db
unfolding update_where
supersede_for_document document_id db = record db {
  chunks =
      update_where (λ c. c.document_id == document_id && not c.superseded)
        (λ c. record c { superseded = true }) db.chunks;
}

unfoldable pub start_new_version : ℕ → ℕ → ℕ → Db → Db
unfolding update_document
start_new_version now document_id doc_version db =
    update_document document_id
      (λ d. record d { doc_version = doc_version; status = Doc.uploaded; updated_at = now }) db

unfoldable pub active_for_kb : ℕ → (Job.Status → Bool) → Db → Option ReindexJob
unfolding first
active_for_kb kb_id is_in db = first (λ j. j.kb_id == kb_id && is_in j.status) db.jobs

-- `stuck_in` of the documents and of the jobs, without the order by `updated_at`.
unfoldable pub stuck_documents : (Doc.Status → Bool) → ℕ → Db → List Document
unfolding filter
stuck_documents is_in threshold db =
    filter (λ d. is_in d.status && ltb d.updated_at threshold) db.documents

unfoldable pub stuck_jobs : (Job.Status → Bool) → ℕ → Db → List ReindexJob
unfolding filter
stuck_jobs is_in threshold db = filter (λ j. is_in j.status && ltb j.updated_at threshold) db.jobs

abbrev pub is_completed : Job.Status → Bool
is_completed Job.completed = true
is_completed _ = false

abbrev pub is_unset : Option ℕ → Bool
is_unset none = true
is_unset (some at) = false

abbrev pub is_before : Option ℕ → ℕ → Bool
is_before none cutoff = false
is_before (some at) cutoff = ltb at cutoff

-- Whether a switch is earlier than another.
abbrev pub switches_first : Option ℕ → Option ℕ → Bool
switches_first none at = false
switches_first (some at) none = true
switches_first (some at) (some at') = leb at at'

unfoldable pub insert_by_switch : ReindexJob → List ReindexJob → List ReindexJob
insert_by_switch j [] = j ∷ []
insert_by_switch j (k ∷ ks) =
    let rest = insert_by_switch j ks in
    if switches_first j.switched_at k.switched_at then j ∷ k ∷ ks else k ∷ rest

unfoldable pub by_switch : List ReindexJob → List ReindexJob
unfolding insert_by_switch
by_switch [] = []
by_switch (j ∷ js) = insert_by_switch j (by_switch js)

unfoldable pub switched_before : ℕ → ℕ → Db → List ReindexJob
unfolding filter by_switch
switched_before cutoff limit db = take limit (
    by_switch (
      filter (λ j. is_completed j.status && is_unset j.purged_at && is_before j.switched_at cutoff)
        db.jobs))
