-- ===== src/Conversation/Turn/Saving.antt =====
-- A turn is saved and closed: `_complete`, `_fail` and `_persist` of
-- backend/services/conversation/chat.py.
use lumina_ai.Prelude.{
  inl, inr, ℕ, suc, ◌+◌, ◌≤◌, ◌≡◌, refl, Bool, Bool-cases, true, false, Option, none, some, List,
  [], ◌∷◌, ◌++◌, length, arith, if◌then◌else◌,
}
use lumina_ai.Prelude.Texts.{Text}
use lumina_ai.Conversation.Turn.{
  Code, Counts, Status, Saved, Event, citations, closed, error_event, Run, Prepared, Stage,
  nothing_raises, settle_raises, citations_raise, last_event_raises, Env, Body, returned, threw,
  cancelled_at, provider_threw, emit, emit_citations, settle, close_with, record_usage, persist,
  complete, fail, run_of, row_of, after_complete, after_fail,
}

abbrev pub is_end : Event → ℕ
is_end (closed reason) = 1
is_end (error_event code) = 1
is_end _ = 0

-- The events after which a client reads no further.
abbrev pub ends : List Event → ℕ
ends [] = 0
ends (e ∷ es) = is_end e + ends es

-- Nothing is paid for, recorded or told as finished beyond the messages that are saved.
abbrev pub Held : Run → Type 0
Held r =
    (length r.settled ≤ length r.rows)
    × (length r.recorded ≤ length r.rows)
    × (ends r.events ≤ length r.rows)
    × (r.released ≡ 0)

-- The turn is not finished, and no cancellation comes between the saving and the end of the turn.
abbrev pub Open : Env → Run → Type 0
Open env r =
    Held r
    × (length r.rows ≡ 0)
    × (env.persists 0 ≡ true → env.persists r.tries ≡ true)
    × ((k : ℕ) → env.cancels k ≡ false)

abbrev SavedOnce : Run → Type 0
SavedOnce r = Held r × (length r.rows ≡ 1)

pub ends-++ : (es : List Event) (e : Event) → ends (es ++ e ∷ []) ≡ ends es + is_end e
ends-++ [] e = omega arith
ends-++ (d ∷ es) e = omega (arith, ends-++ es e)

-- The message is saved, and nothing else yet.
abbrev JustSaved : Run → Type 0
JustSaved r =
    (length r.rows ≡ 1)
    × (length r.settled ≡ 0)
    × (length r.recorded ≤ 1)
    × (ends r.events ≡ 0)
    × (r.released ≡ 0)

emit_citations_lem :
    (p : Option Prepared) (r : Run)
    → (length (emit_citations p r).rows ≡ length r.rows)
      × (length (emit_citations p r).settled ≡ length r.settled)
      × (length (emit_citations p r).recorded ≡ length r.recorded)
      × (ends (emit_citations p r).events ≡ ends r.events)
      × ((emit_citations p r).released ≡ r.released)
emit_citations_lem none r = (refl, refl, refl, refl, refl)
emit_citations_lem (some p) r = by_retrieved p.retrieved
  where
    by_retrieved :
        (b : Bool)
        → (length (if b then emit citations r else r).rows ≡ length r.rows)
          × (length (if b then emit citations r else r).settled ≡ length r.settled)
          × (length (if b then emit citations r else r).recorded ≡ length r.recorded)
          × (ends (if b then emit citations r else r).events ≡ ends r.events)
          × ((if b then emit citations r else r).released ≡ r.released)
    by_retrieved true = (refl, refl, refl, omega (arith, ends-++ r.events citations), refl)
    by_retrieved false = (refl, refl, refl, refl, refl)

close_with-SavedOnce :
    (stage : Stage) (p : Option Prepared) (usage : Option Counts) (last : Event) (r : Run)
    → is_end last ≡ 1
    → JustSaved r
    → SavedOnce (close_with stage p usage last r)
close_with-SavedOnce nothing_raises p usage last r is_last
      (one, unpaid, recorded, quiet, unreleased) =
    let (a, b, c, d, g) = emit_citations_lem p (settle usage r) in
    (
      (
        omega arith,
        omega arith,
        omega (arith, ends-++ (emit_citations p (settle usage r)).events last),
        omega arith,
      ),
      omega arith,
    )
close_with-SavedOnce settle_raises p usage last r is_last
      (one, unpaid, recorded, quiet, unreleased) =
    ((omega arith, omega arith, omega arith, unreleased), one)
close_with-SavedOnce citations_raise p usage last r is_last
      (one, unpaid, recorded, quiet, unreleased) =
    ((omega arith, omega arith, omega arith, unreleased), one)
close_with-SavedOnce last_event_raises p usage last r is_last
      (one, unpaid, recorded, quiet, unreleased) =
    let (a, b, c, d, g) = emit_citations_lem p (settle usage r) in
    ((omega arith, omega arith, omega arith, omega arith), omega arith)

-- A finished turn is saved at most once, and is saved if the first attempt to save it succeeds and
-- the stream was whole.
abbrev pub Finished : Env → Bool → Run → Type 0
Finished env whole r =
    Held r × (length r.rows ≤ 1) × (env.persists 0 ≡ true → whole ≡ true → length r.rows ≡ 1)

abbrev pub Left : Env → Bool → Body → Type 0
Left env whole (returned r) = Finished env whole r
Left env whole (threw r) = Open env r
Left env whole (cancelled_at r) = Open env r
Left env whole (provider_threw e r) = Open env r

record_usage-JustSaved :
    (usage : Option Counts) (r : Run)
    → JustSaved r
    → length r.recorded ≡ 0
    → JustSaved (record_usage usage r)
record_usage-JustSaved none r saved unrecorded = saved
record_usage-JustSaved (some u) r (one, unpaid, recorded, quiet, unreleased) unrecorded =
    (one, unpaid, omega arith, quiet, unreleased)

-- A call of `_persist` in an open turn finishes the turn or leaves it open; it leaves it open only
-- if the call fails.
persist-Left :
    (env : Env) (whole : Bool) (row : Saved) (after : Run → Run) (r : Run)
    → ((s : Run) → JustSaved s → length s.recorded ≡ 0 → SavedOnce (after s))
    → Open env r
    → Left env whole (persist env row after r)
      × (env.persists r.tries ≡ true → length (run_of (persist env row after r)).rows ≡ 1)
persist-Left env whole row after r closes
      ((paid, recorded, told, unreleased), unsaved, again, calm) =
    elim (Bool-cases (env.persists r.tries)) [
      | inl good ↦
          let saved = record r { rows = row ∷ r.rows; tries = suc r.tries } in
          let (held, one) =
            closes saved (omega arith, omega arith, omega arith, omega arith, unreleased)
              (omega arith) in
          rw (good, calm r.tries) ((held, omega arith, λ first all. one), λ good'. one)
      | inr bad ↦ rw bad (
        (
          (omega arith, omega arith, omega arith, unreleased),
          unsaved,
          λ first. cc (again first),
          calm,
        ),
        λ good. cc,
      )
    ]

pub complete-Left :
    (env : Env) (whole : Bool) (p : Option Prepared) (reason : Text) (status : Status)
    (usage : Option Counts) (r : Run)
    → Open env r
    → Left env whole (complete env p reason status usage r)
unfolding complete
complete-Left env whole p reason status usage r unfinished =
    (persist-Left env whole (row_of status usage none r)
      (after_complete (env.stage r.tries) p reason usage) r
      (λ s saved unrecorded.
        close_with-SavedOnce (env.stage r.tries) p usage (closed reason) (record_usage usage s) refl
          (record_usage-JustSaved usage s saved unrecorded))
      unfinished).0

pub fail-Left :
    (env : Env) (whole : Bool) (p : Option Prepared) (code : Code) (status : Status) (r : Run)
    → Open env r
    → Left env whole (fail env p code status r)
      × (env.persists r.tries ≡ true → length (run_of (fail env p code status r)).rows ≡ 1)
unfolding fail
fail-Left env whole p code status r unfinished =
    persist-Left env whole (row_of status r.usage (some code) r)
      (after_fail (env.stage r.tries) p code) r
      (λ s saved unrecorded.
        close_with-SavedOnce (env.stage r.tries) p s.usage (error_event code) s refl saved)
      unfinished
