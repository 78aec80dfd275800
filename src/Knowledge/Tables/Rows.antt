-- ===== src/Knowledge/Tables/Rows.antt =====
-- A row of a job after an update, for the tables of backend/repositories/knowledge.py.
use lumina_ai.Prelude.{ℕ, ◌≡◌, ap, true, some, List, [], ◌∷◌, ◌==◌, arith, Bool-cases, inl, inr}
use lumina_ai.Knowledge.Tables.{ReindexJob, Db, first, update_where, get_job, update_job}

pub first-update_where {ℓ} :
    {A : Type ℓ} (id_of : A → ℕ) (i : ℕ) (g : A → A) (rows : List A) (j : A)
    → ((k : A) → id_of (g k) ≡ id_of k)
    → first (λ k. id_of k == i) rows ≡ some j
    → first (λ k. id_of k == i) (update_where (λ k. id_of k == i) g rows) ≡ some (g j)
unfolding first update_where
first-update_where id_of i g [] j keeps found = ground arith
first-update_where id_of i g (k ∷ ks) j keeps found = elim (Bool-cases (id_of k == i)) [
  | inl here ↦
      let same : k ≡ j = ground (arith, found, here) in
      let kept : (id_of (g k) == i) ≡ true = rw (keeps k) here in
      rw (here, kept) (ap (λ x. some (g x)) same)
  | inr elsewhere ↦
      rw elsewhere
        (rw elsewhere (first-update_where id_of i g ks j keeps (ground (arith, found, elsewhere))))
]

-- After an update that keeps the ids, the row of the job is the updated one.
pub get_job-update_job :
    (now : ℕ) (f : ReindexJob → ReindexJob) (i : ℕ) (db : Db) (j : ReindexJob)
    → ((k : ReindexJob) → (f k).id ≡ k.id)
    → get_job i db ≡ some j
    → get_job i (update_job now i f db) ≡ some (record (f j) { updated_at = now })
unfolding get_job update_job
get_job-update_job now f i db j keeps found =
    first-update_where (λ k. k.id) i (λ k. record (f k) { updated_at = now }) db.jobs j keeps found
