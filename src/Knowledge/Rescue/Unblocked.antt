-- ===== src/Knowledge/Rescue/Unblocked.antt =====
-- After `StuckReindexRescueService` of backend/services/knowledge/rescue.py no rebuild blocks its
-- knowledge base by standing still half way.
use lumina_ai.Prelude.{
  ℕ, ◌≡◌, refl, sym, ap, ◌∙◌, Bool, false, arith, ◌&&◌, List, [], ◌∷◌, ◌++◌, ltb, map,
}
use mathlib.Core.Path.{fun_ext}
use lumina_ai.Knowledge.ReindexPlan.{Status, pending, rechunking, embedding}
use lumina_ai.Knowledge.Tables.{ReindexJob, Db, reindex_job, filter, stuck_jobs, update_job, send}
use lumina_ai.Knowledge.Tables.Sweep.{BadOnlyIn, bad_only_filter, bad_only_update, filter_none}
use lumina_ai.Knowledge.Rescue.{
  is_requeued, is_failed_when_stuck, fail_job, fail_jobs, send_jobs, rescue_jobs,
}

abbrev is_stalled : ℕ → ReindexJob → Bool
is_stalled threshold j = is_failed_when_stuck j.status && ltb j.updated_at threshold

fail_jobs_sweep :
    (now threshold : ℕ) (todo : List ReindexJob) (db : Db)
    → BadOnlyIn (λ j. j.id) (is_stalled threshold) todo db.jobs
    → BadOnlyIn (λ j. j.id) (is_stalled threshold) [] (fail_jobs now todo db).jobs
unfolding fail_jobs update_job fail_job is_failed_when_stuck
fail_jobs_sweep now threshold [] db h = h
fail_jobs_sweep now threshold (d ∷ todo) db h =
    fail_jobs_sweep now threshold todo (update_job now d.id (fail_job now) db) (
      bad_only_update (λ j. j.id) (is_stalled threshold)
        (λ j. record (fail_job now j) { updated_at = now }) d todo db.jobs (λ j. refl) h)

send_jobs_jobs : (js : List ReindexJob) (db : Db) → (send_jobs js db).jobs ≡ db.jobs
unfolding send_jobs send
send_jobs_jobs [] db = refl
send_jobs_jobs (j ∷ js) db = send_jobs_jobs js (send (reindex_job j.id) db)

append_assoc {ℓ} : {A : Type ℓ} (xs ys zs : List A) → (xs ++ ys) ++ zs ≡ xs ++ (ys ++ zs)
append_assoc [] ys zs = refl
append_assoc (x ∷ xs) ys zs = ap (λ r. x ∷ r) (append_assoc xs ys zs)

append_nil {ℓ} : {A : Type ℓ} (xs : List A) → xs ++ [] ≡ xs
append_nil [] = refl
append_nil (x ∷ xs) = ap (λ r. x ∷ r) (append_nil xs)

send_jobs_sent :
    (js : List ReindexJob) (db : Db)
    → (send_jobs js db).sent ≡ db.sent ++ map (λ j. reindex_job j.id) js
unfolding send_jobs send
send_jobs_sent [] db = sym (append_nil db.sent)
send_jobs_sent (j ∷ js) db =
    send_jobs_sent js (send (reindex_job j.id) db)
    ∙ append_assoc db.sent (reindex_job j.id ∷ []) (map (λ k. reindex_job k.id) js)

fail_jobs_sent : (now : ℕ) (js : List ReindexJob) (db : Db) → (fail_jobs now js db).sent ≡ db.sent
unfolding fail_jobs update_job
fail_jobs_sent now [] db = refl
fail_jobs_sent now (j ∷ js) db = fail_jobs_sent now js (update_job now j.id (fail_job now) db)

-- The job waits, or is half way, and nothing has moved it since the threshold.
abbrev pub waits_since : ℕ → ReindexJob → Bool
waits_since threshold j =
    let old = ltb j.updated_at threshold in elim j.status [ pending ↦ old | _ ↦ false ]

abbrev pub is_half_way_since : ℕ → ReindexJob → Bool
is_half_way_since threshold j =
    let old = ltb j.updated_at threshold in
    elim j.status [ rechunking ↦ old | embedding ↦ old | _ ↦ false ]

stuck_jobs-waits :
    (threshold : ℕ) (db : Db)
    → stuck_jobs is_requeued threshold db ≡ filter (waits_since threshold) db.jobs
unfolding stuck_jobs is_requeued
stuck_jobs-waits threshold db =
    ap (λ p. filter p db.jobs) (fun_ext (λ j. same j.status (ltb j.updated_at threshold)))
  where
    same : (s : Status) (old : Bool) → (is_requeued s && old) ≡ elim s [ pending ↦ old | _ ↦ false ]
    same s old = ground arith

stuck_jobs-half_way :
    (threshold : ℕ) (db : Db)
    → stuck_jobs is_failed_when_stuck threshold db ≡ filter (is_half_way_since threshold) db.jobs
unfolding stuck_jobs is_failed_when_stuck
stuck_jobs-half_way threshold db =
    ap (λ p. filter p db.jobs) (fun_ext (λ j. same j.status (ltb j.updated_at threshold)))
  where
    same :
        (s : Status) (old : Bool)
        → (is_failed_when_stuck s && old)
          ≡ elim s [ rechunking ↦ old | embedding ↦ old | _ ↦ false ]
    same s old = ground arith

sweep_and_send :
    (now threshold : ℕ) (db : Db)
    → (stuck_jobs is_failed_when_stuck threshold (rescue_jobs now threshold db).0 ≡ [])
      × ((rescue_jobs now threshold db).0.sent
          ≡ db.sent ++ map (λ j. reindex_job j.id) (stuck_jobs is_requeued threshold db))
unfolding rescue_jobs stuck_jobs
sweep_and_send now threshold db =
    let requeued = stuck_jobs is_requeued threshold db in
    let stalled = stuck_jobs is_failed_when_stuck threshold db in
    (
      ap (filter (is_stalled threshold)) (send_jobs_jobs requeued (fail_jobs now stalled db))
          ∙ filter_none (λ j. j.id) (is_stalled threshold) (fail_jobs now stalled db).jobs
              (fail_jobs_sweep now threshold stalled db
                (bad_only_filter (λ j. j.id) (is_stalled threshold) db.jobs)),
      send_jobs_sent requeued (fail_jobs now stalled db)
          ∙ ap (λ s. s ++ map (λ j. reindex_job j.id) requeued) (fail_jobs_sent now stalled db),
    )

-- After a rescue no job is left rechunking or embedding that nothing has moved since the threshold,
-- and one message was given to the queue for each job that was pending so long, and none besides.
pub rescue_jobs_lem :
    (now threshold : ℕ) (db : Db)
    → (filter (is_half_way_since threshold) (rescue_jobs now threshold db).0.jobs ≡ [])
      × ((rescue_jobs now threshold db).0.sent
          ≡ db.sent ++ map (λ j. reindex_job j.id) (filter (waits_since threshold) db.jobs))
rescue_jobs_lem now threshold db =
    let (swept, sent) = sweep_and_send now threshold db in
    (
      sym (stuck_jobs-half_way threshold (rescue_jobs now threshold db).0) ∙ swept,
      sent
          ∙ ap (λ js. db.sent ++ map (λ (j : ReindexJob). reindex_job j.id) js)
              (stuck_jobs-waits threshold db),
    )
