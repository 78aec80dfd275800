-- ===== src/Knowledge/Cleanup/Current.antt =====
-- What the clean-up of backend/services/knowledge/cleanup.py leaves to search.
use lumina_ai.Prelude.{
  ℕ, ◌≡◌, refl, sym, ◌∙◌, inl, inr, Bool, false, some, List, [], ◌∷◌, ◌==◌, arith, Bool-cases,
  Option-cases,
}
use mathlib.Core.Path.{subst}
use lumina_ai.Prelude.Texts.{Text}
use lumina_ai.Knowledge.Tables.{
  Chunk, Embedding, KnowledgeBase, ReindexJob, Db, first, filter, count, update_where, is_version,
  count_versions, count_for_kb_version, get_kb, update_job, purge_other_versions, switched_before,
}
use lumina_ai.Knowledge.Cleanup.{purge_job, purge_jobs, purge_switched}

count-filter : (p : Embedding → Bool) (es : List Embedding) → count p (filter p es) ≡ count p es
unfolding count filter
count-filter p [] = refl
count-filter p (e ∷ es) = ground (arith, count-filter p es)

-- The rows of the kept version, and those of another knowledge base.
purge_same :
    (kb_id version : ℕ) (model : Text) (cs : List Chunk)
    → count_versions kb_id model version (
        update_where
          (λ c. c.kb_id == kb_id)
          (λ c. record c { embeddings = filter (is_version model version) c.embeddings })
          cs)
      ≡ count_versions kb_id model version cs
unfolding count_versions update_where
purge_same kb_id version model [] = refl
purge_same kb_id version model (c ∷ cs) =
    ground (
      arith,
      purge_same kb_id version model cs,
      count-filter (is_version model version) c.embeddings,
    )

purge_other :
    (i kb_id version kept_version : ℕ) (model kept_model : Text) (cs : List Chunk)
    → (kb_id == i) ≡ false
    → count_versions i model version (
        update_where
          (λ c. c.kb_id == kb_id)
          (λ c. record c { embeddings = filter (is_version kept_model kept_version) c.embeddings })
          cs)
      ≡ count_versions i model version cs
unfolding count_versions update_where
purge_other i kb_id version kept_version model kept_model [] other = refl
purge_other i kb_id version kept_version model kept_model (c ∷ cs) other =
    ground (arith, other, purge_other i kb_id version kept_version model kept_model cs other)

first-id :
    (i : ℕ) (ks : List KnowledgeBase) (k : KnowledgeBase)
    → first (λ b. b.id == i) ks ≡ some k
    → k.id ≡ i
unfolding first
first-id i [] k found = ground arith
first-id i (b ∷ bs) k found = elim (Bool-cases (b.id == i)) [
  | inl here ↦ ground (arith, here, found)
  | inr elsewhere ↦
      let found' : first (λ b. b.id == i) bs ≡ some k = ground (arith, found, elsewhere) in
      first-id i bs k found'
]

-- The vectors of the version of a knowledge base that queries read.
abbrev pub current_vectors : KnowledgeBase → Db → ℕ
current_vectors k db = count_for_kb_version k.id k.embedding_model k.embedding_version db

get_kb-purge_job :
    (i now : ℕ) (j : ReindexJob) (db : Db) → get_kb i (purge_job now j db) ≡ get_kb i db
unfolding get_kb purge_job update_job purge_other_versions
get_kb-purge_job i now j db = elim (Option-cases (get_kb j.kb_id db)) [
  | inl gone ↦ rw (gone, purge_job) refl
  | inr (kb, found) ↦ rw (found, purge_job) refl
]

purge_other_versions_current :
    (a b : ℕ) (kb k : KnowledgeBase) (db : Db)
    → get_kb a db ≡ some kb
    → get_kb b db ≡ some k
    → current_vectors k (purge_other_versions kb.id kb.embedding_model kb.embedding_version db)
      ≡ current_vectors k db
unfolding get_kb count_for_kb_version purge_other_versions
purge_other_versions_current a b kb k db found_kb found_k = elim (Bool-cases (kb.id == k.id)) [
  | inl same_id ↦
      let ids : kb.id ≡ k.id = ground (arith, same_id) in
      let ab : a ≡ b =
        sym (first-id a db.knowledge_bases kb found_kb)
        ∙ ids
        ∙ first-id b db.knowledge_bases k found_k in
      let same : kb ≡ k = ground (arith, ab, found_kb, found_k) in
      subst
        (λ x.
          current_vectors k (purge_other_versions x.id x.embedding_model x.embedding_version db)
          ≡ current_vectors k db)
        (sym same) (purge_same k.id k.embedding_version k.embedding_model db.chunks)
  | inr other ↦
      purge_other k.id kb.id k.embedding_version kb.embedding_version k.embedding_model
        kb.embedding_model db.chunks other
]

purge_job_current :
    (i now : ℕ) (j : ReindexJob) (k : KnowledgeBase) (db : Db)
    → get_kb i db ≡ some k
    → current_vectors k (purge_job now j db) ≡ current_vectors k db
unfolding purge_job update_job count_for_kb_version
purge_job_current i now j k db found = elim (Option-cases (get_kb j.kb_id db)) [
  | inl gone ↦ rw (gone, purge_job) refl
  | inr (kb, found_kb) ↦
      rw (found_kb, purge_job) (purge_other_versions_current j.kb_id i kb k db found_kb found)
]

purge_jobs_current :
    (i now : ℕ) (js : List ReindexJob) (k : KnowledgeBase) (db : Db)
    → get_kb i db ≡ some k
    → current_vectors k (purge_jobs now js db) ≡ current_vectors k db
unfolding purge_jobs
purge_jobs_current i now [] k db found = refl
purge_jobs_current i now (j ∷ js) k db found =
    purge_jobs_current i now js k (purge_job now j db) (get_kb-purge_job i now j db ∙ found)
    ∙ purge_job_current i now j k db found

-- If a knowledge base of the table is searched under the model that its row names, the clean-up keeps
-- each vector of that model and of the version of its row, whichever jobs it goes through. The row of
-- a knowledge base that uses the default model names none, and nothing is said of it.
pub purge_switched_lem :
    (i now cutoff limit : ℕ) (k : KnowledgeBase) (searched : Text) (db : Db)
    → get_kb i db ≡ some k
    → k.embedding_model ≡ searched
    → count_for_kb_version k.id searched k.embedding_version (purge_switched now cutoff limit db)
      ≡ count_for_kb_version k.id searched k.embedding_version db
unfolding purge_switched
purge_switched_lem i now cutoff limit k searched db found names =
    subst
      (λ m.
        count_for_kb_version k.id m k.embedding_version (purge_switched now cutoff limit db)
        ≡ count_for_kb_version k.id m k.embedding_version db)
      names (purge_jobs_current i now (switched_before cutoff limit db) k db found)
