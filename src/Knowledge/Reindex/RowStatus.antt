-- ===== src/Knowledge/Reindex/RowStatus.antt =====
-- The status of a job's row under the operations of backend/services/knowledge/reindex.py.
use lumina_ai.Prelude.{
  ℕ, zero, suc, ◌+◌, ◌≡◌, inl, inr, refl, sym, ap, ◌∙◌, Bool, Option, none, some, List, [], ◌∷◌,
  ◌==◌, map, take, drop, arith, Bool-cases, Option-cases,
}
use mathlib.Core.Path.{subst}
use lumina_ai.Prelude.Texts.{Text}
use lumina_ai.Knowledge.ReindexPlan.{Status}
use lumina_ai.Knowledge.Tables.{Chunk, ReindexJob, Db, first, update_where, get_job, update_job}
use lumina_ai.Knowledge.Reindex.{
  EmbedReply, embed_batch_size, zip_strict, upsert, reported, is_renamed, store_batch,
  embed_batches,
}
use lumina_ai.Knowledge.Reindex.Coverage.{upsert-KeepsOthers}

-- The status of the job and whether it rechunks, if there is such a job.
abbrev pub row_of : Option ReindexJob → Option (Status × Bool)
row_of none = none
row_of (some j) = some (j.status, j.rechunk)

abbrev pub status_in : ℕ → List ReindexJob → Option (Status × Bool)
status_in i jobs = row_of (first (λ k. k.id == i) jobs)

abbrev pub status_of : ℕ → Db → Option (Status × Bool)
status_of i db = status_in i db.jobs

status_in_kept :
    (i k : ℕ) (g : ReindexJob → ReindexJob) (jobs : List ReindexJob)
    → ((j : ReindexJob)
        → ((g j).id ≡ j.id) × ((g j).status ≡ j.status) × ((g j).rechunk ≡ j.rechunk))
    → status_in i (update_where (λ j. j.id == k) g jobs) ≡ status_in i jobs
unfolding first update_where
status_in_kept i k g [] keeps = refl
status_in_kept i k g (j ∷ js) keeps =
    let rest = status_in_kept i k g js keeps in let (a, b, c) = keeps j in ground arith

status_in_set :
    (i : ℕ) (g : ReindexJob → ReindexJob) (jobs : List ReindexJob) (s t : Status) (r : Bool)
    → ((j : ReindexJob) → ((g j).id ≡ j.id) × ((g j).status ≡ t) × ((g j).rechunk ≡ j.rechunk))
    → status_in i jobs ≡ some (s, r)
    → status_in i (update_where (λ j. j.id == i) g jobs) ≡ some (t, r)
unfolding first update_where
status_in_set i g [] s t r sets found = ground arith
status_in_set i g (j ∷ js) s t r sets found =
    let (a, b, c) = sets j in
    elim (Bool-cases (j.id == i)) [
      | inl here ↦ ground (arith, here, found)
      | inr elsewhere ↦
          let found' : status_in i js ≡ some (s, r) = ground (arith, found, elsewhere) in
          let rest = status_in_set i g js s t r sets found' in ground (arith, elsewhere)
    ]

-- An update that writes neither the status nor the option.
pub status_of-update_job :
    (i now k : ℕ) (f : ReindexJob → ReindexJob) (db : Db)
    → ((j : ReindexJob)
        → ((f j).id ≡ j.id) × ((f j).status ≡ j.status) × ((f j).rechunk ≡ j.rechunk))
    → status_of i (update_job now k f db) ≡ status_of i db
unfolding update_job
status_of-update_job i now k f db keeps =
    status_in_kept i k (λ j. record (f j) { updated_at = now }) db.jobs keeps

-- An update of the job that writes the status.
pub status_of-set :
    (i now : ℕ) (f : ReindexJob → ReindexJob) (db : Db) (s t : Status) (r : Bool)
    → ((j : ReindexJob) → ((f j).id ≡ j.id) × ((f j).status ≡ t) × ((f j).rechunk ≡ j.rechunk))
    → status_of i db ≡ some (s, r)
    → status_of i (update_job now i f db) ≡ some (t, r)
unfolding update_job
status_of-set i now f db s t r sets found =
    status_in_set i (λ j. record (f j) { updated_at = now }) db.jobs s t r sets found

pub get_job-id :
    (i : ℕ) (db : Db) (j : ReindexJob)
    → get_job i db ≡ some j
    → (j.id ≡ i) × (status_of i db ≡ some (j.status, j.rechunk))
unfolding get_job first
get_job-id i db j found = (first_id db.jobs found, ap row_of found)
  where
    first_id : (jobs : List ReindexJob) → first (λ k. k.id == i) jobs ≡ some j → j.id ≡ i
    first_id [] e = ground arith
    first_id (k ∷ ks) e = elim (Bool-cases (k.id == i)) [
      | inl here ↦
          let same : k ≡ j = ground (arith, e, here) in
          let k_id : k.id ≡ i = ground (arith, here) in sym (ap (λ x. x.id) same) ∙ k_id
      | inr elsewhere ↦ first_id ks (ground (arith, e, elsewhere))
    ]

store_batch_status :
    (i now : ℕ) (job again : ReindexJob) (reply : EmbedReply) (rows : List (Chunk × ℕ))
    (db stored : Db)
    → store_batch now job reply rows db ≡ some (stored, again)
    → (status_of i stored ≡ status_of i db) × (again.id ≡ job.id)
unfolding store_batch
store_batch_status i now job again reply rows db stored e =
    let next = upsert (reported reply job.target_model) job.target_embedding_version rows db in
    let (same, _) =
      upsert-KeepsOthers (reported reply job.target_model) job.target_embedding_version rows db in
    elim (Bool-cases (is_renamed reply job.target_model)) [
      | inl renamed ↦
          let f : ReindexJob → ReindexJob = λ j. record j { target_model = reply.model } in
          let written = update_job now job.id f next in
          elim (Option-cases (get_job job.id written)) [
            | inl gone ↦
                let nothing : store_batch now job reply rows db ≡ none =
                  rw (renamed, store_batch) (rw gone refl) in
                ground (arith, nothing, e)
            | inr (j, there) ↦
                let e' : some (written, j) ≡ some (stored, again) =
                  sym (rw (renamed, store_batch) (rw there refl)) ∙ e in
                let es : stored ≡ written = ground (arith, e') in
                let ej : again ≡ j = ground (arith, e') in
                (
                  ap (status_of i) es
                      ∙ status_of-update_job i now job.id f next (λ k. (refl, refl, refl))
                      ∙ ap (status_in i) same,
                  ap (λ x. x.id) ej ∙ (get_job-id job.id written j there).0,
                )
          ]
      | inr kept ↦
          let e' : some (next, job) ≡ some (stored, again) =
            sym (rw (kept, store_batch) refl) ∙ e in
          let es : stored ≡ next = ground (arith, e') in
          let ej : again ≡ job = ground (arith, e') in
          (ap (status_of i) es ∙ ap (status_in i) same, ap (λ x. x.id) ej)
    ]

module _ (embed : List Text → Text → Option EmbedReply) where
  pub embed_batches_status :
      (i fuel now : ℕ) (job : ReindexJob) (todo : List Chunk) (tokens : ℕ) (db : Db)
      → status_of i (embed_batches embed fuel now job todo tokens db).0 ≡ status_of i db
  unfolding embed_batches
  embed_batches_status i fuel now job [] tokens db = refl
  embed_batches_status i zero now job (c ∷ cs) tokens db = refl
  embed_batches_status i (suc fuel) now job (c ∷ cs) tokens db =
      let batch = take embed_batch_size (c ∷ cs) in
      elim (Option-cases (embed (map (λ chunk. chunk.content) batch) job.target_model)) [
        | inl failed ↦ rw (failed, embed_batches) refl
        | inr (reply, answered) ↦ elim (Option-cases (zip_strict batch reply.vectors)) [
          | inl unequal ↦ rw (answered, unequal, embed_batches) refl
          | inr (rows, zipped) ↦ elim (Option-cases (store_batch now job reply rows db)) [
            | inl gone ↦ rw (answered, zipped, gone, embed_batches) refl
            | inr ((stored, again), kept) ↦
                rw (answered, zipped, kept, embed_batches)
                  (embed_batches_status i fuel now again (drop embed_batch_size (c ∷ cs))
                      (tokens + reply.total_tokens) stored
                    ∙ (store_batch_status i now job again reply rows db stored kept).0)
          ]
        ]
      ]

pub status_of-set_at :
    (i now k : ℕ) (f : ReindexJob → ReindexJob) (db : Db) (s t : Status) (r : Bool)
    → k ≡ i
    → ((j : ReindexJob) → ((f j).id ≡ j.id) × ((f j).status ≡ t) × ((f j).rechunk ≡ j.rechunk))
    → status_of i db ≡ some (s, r)
    → status_of i (update_job now k f db) ≡ some (t, r)
status_of-set_at i now k f db s t r same sets found =
    subst (λ n. status_of i (update_job now n f db) ≡ some (t, r)) (sym same)
      (status_of-set i now f db s t r sets found)
