-- ===== src/Knowledge/Reindex/Refinement.antt =====
-- `advance` of backend/services/knowledge/reindex.py as a refinement of the state machine of
-- backend/services/knowledge/reindex_plan.py.
use lumina_ai.Prelude.{
  ℕ, ◌≡◌, ◌⊎◌, inl, inr, refl, sym, ◌∙◌, Bool, true, false, Option, some, List, arith, Option-cases,
}
use mathlib.Core.Path.{subst}
use lumina_ai.Prelude.Texts.{Text}
use lumina_ai.Knowledge.ReindexPlan.{
  Status, pending, rechunking, embedding, completed, failed, next_status, is_terminal,
}
use lumina_ai.Knowledge.Tables.{ReindexJob, Db, get_job, update_job}
use lumina_ai.Knowledge.Reindex.{EmbedReply, Advanced, view, raised}
use lumina_ai.Knowledge.Reindex.RowStatus.{status_of, status_of-set_at, get_job-id}
use lumina_ai.Knowledge.Reindex.Advance.{
  or_failed, advance_stage, advance_guarded, advance_job, advance,
}
use lumina_ai.Knowledge.Reindex.Moves.{stays, steps, fails, MovedTo}
use lumina_ai.Knowledge.Reindex.AdvanceMoves.{stage-MovedTo}

status_eq :
    {s t : Status} {r q : Bool}
    → ◌≡◌ {A = Option (Status × Bool)} (some (s, r)) (some (t, q))
    → s ≡ t
status_eq e = ground (arith, e)

module _ (embed : List Text → Text → Option EmbedReply) where
  or_failed-MovedTo :
      (i now : ℕ) (job : ReindexJob) (r : Bool) (s : Status) (next : Db) (outcome : Advanced)
      → job.id ≡ i
      → is_terminal s ≡ false
      → MovedTo i r s next
      → MovedTo i r s (or_failed now job (next, outcome)).0
  unfolding or_failed
  or_failed-MovedTo i now job r s next (view v) same active moved = moved
  or_failed-MovedTo i now job r s next raised same active (t, (row, moves)) = (
    failed,
    (
      status_of-set_at i now job.id
          (λ j. record j { status = failed; error = true; finished_at = some now }) next t failed r
          same (λ j. (refl, refl, refl)) row,
      fails active,
    ),
  )

  guarded-MovedTo :
      (i now stale_after : ℕ) (job : ReindexJob) (r : Bool) (s : Status) (db : Db)
      → job.id ≡ i
      → job.status ≡ s
      → is_terminal s ≡ false
      → (s ≡ rechunking) ⊎ (s ≡ embedding)
      → status_of i db ≡ some (s, r)
      → MovedTo i r s (advance_guarded embed now stale_after job db).0
  unfolding advance_guarded
  guarded-MovedTo i now stale_after job r s db same is_s active which found =
      let stage = advance_stage embed now stale_after job db in
      or_failed-MovedTo i now job r s stage.0 stage.1 same active
        (stage-MovedTo embed i now stale_after job r s db same is_s which found)

  next_of_pending :
      (r : Bool) → (next_status pending r ≡ rechunking) ⊎ (next_status pending r ≡ embedding)
  unfolding next_status
  next_of_pending true = inl refl
  next_of_pending false = inr refl

  active_next : (r : Bool) → is_terminal (next_status pending r) ≡ false
  unfolding next_status is_terminal
  active_next true = refl
  active_next false = refl

  job-MovedTo :
      (i now stale_after : ℕ) (job : ReindexJob) (s : Status) (db : Db)
      → job.id ≡ i
      → job.status ≡ s
      → status_of i db ≡ some (s, job.rechunk)
      → MovedTo i job.rechunk s (advance_job embed now stale_after job db).0
  unfolding advance_job is_terminal
  job-MovedTo i now stale_after job completed db same is_s found =
      rw (is_s, advance_job) (completed, (found, stays))
  job-MovedTo i now stale_after job failed db same is_s found =
      rw (is_s, advance_job) (failed, (found, stays))
  job-MovedTo i now stale_after job rechunking db same is_s found =
      rw (is_s, advance_job)
        (guarded-MovedTo i now stale_after job job.rechunk rechunking db same is_s refl (inl refl)
          found)
  job-MovedTo i now stale_after job embedding db same is_s found =
      rw (is_s, advance_job)
        (guarded-MovedTo i now stale_after job job.rechunk embedding db same is_s refl (inr refl)
          found)
  job-MovedTo i now stale_after job pending db same is_s found =
      let r = job.rechunk in
      let f : ReindexJob → ReindexJob =
        λ j. record j { status = next_status pending job.rechunk; started_at = some now } in
      let moved = update_job now job.id f db in
      let at_moved =
        status_of-set_at i now job.id f db pending (next_status pending r) r same
          (λ j. (refl, refl, refl)) found in
      elim (Option-cases (get_job job.id moved)) [
        | inl gone ↦
            rw (is_s, advance_job) (rw gone (next_status pending r, (at_moved, steps refl stays)))
        | inr (again, there) ↦
            let (again_id, again_row) = get_job-id job.id moved again there in
            let pairs : ◌≡◌ {A = Option (Status × Bool)} (some (again.status, again.rechunk))
                (some (next_status pending r, r)) =
              sym
                (subst (λ n. status_of n moved ≡ some (again.status, again.rechunk)) same again_row)
              ∙ at_moved in
            let again_status : again.status ≡ next_status pending r = status_eq pairs in
            let (t, (row, moves)) =
              guarded-MovedTo i now stale_after again r (next_status pending r) moved
                (again_id ∙ same) again_status (active_next r) (next_of_pending r) at_moved in
            rw (is_s, advance_job) (rw there (t, (row, steps refl moves)))
      ]

-- Whatever the gateway answers or fails to, a call of `advance` leaves the job's row with a status
-- that the state machine reaches from the one before: by its steps, or by failing while the job is
-- not at rest; and the option to rechunk as it was.
pub advance-MovedTo :
    (embed : List Text → Text → Option EmbedReply) (i now stale_after : ℕ) (db : Db)
    (job : ReindexJob)
    → get_job i db ≡ some job
    → MovedTo i job.rechunk job.status (advance embed now stale_after i db).0
unfolding advance
advance-MovedTo embed i now stale_after db job there =
    let (same, row) = get_job-id i db job there in
    rw (there, advance) (job-MovedTo embed i now stale_after job job.status db same refl row)
