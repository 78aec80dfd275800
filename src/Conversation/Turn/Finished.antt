-- ===== src/Conversation/Turn/Finished.antt =====
-- A turn is finished once: the run of `ChatService.generate` of
-- backend/services/conversation/chat.py, whatever is raised in it.
use lumina_ai.Prelude.{
  leb, ℕ, ◌+◌, ◌≤◌, ◌≡◌, refl, Bool, true, false, Option, none, some, List, [], ◌∷◌, length, arith,
  if◌then◌else◌, map,
}
use lumina_ai.Prelude.Texts.{codes}
use lumina_ai.Gateway.Chat.{
  ProviderDelta, text_delta, tool_call_delta, usage_delta, done_delta, Delta, passed, error_delta,
}
use lumina_ai.Gateway.Stream.{Ending, ended, raised}
use lumina_ai.Gateway.Stream.Attempts.{is_closed, is_closing}
use lumina_ai.Conversation.Turn.{
  Code, code_of, Status, completed, interrupted, failed, Event, meta, Run, Prepared, Env, Fault,
  fine, cancelled, append_raises, append_cancelled, Tick, Body, returned, threw, cancelled_at,
  provider_threw, stop_poll, emit, usage_or, estimated_usage, fail, kept, event_of, write_event,
  take_delta, after_poll, polled, tick, after_stream, stream, run_of, handled, Composed, composed,
  meta_raises, meta_cancelled, not_composed, compose_cancelled, provider_refused,
  stream_interrupted, internal_error, release, generate, new_run,
}
use lumina_ai.Conversation.Turn.Saving.{
  is_end, ends, Open, Finished, Left, ends-++, complete-Left, fail-Left,
}

kept-Open : (env : Env) (d : ProviderDelta) (r : Run) → Open env r → Open env (kept d r)
kept-Open env (text_delta t) r unfinished = unfinished
kept-Open env (usage_delta u) r unfinished = unfinished
kept-Open env (tool_call_delta c) r unfinished = unfinished
kept-Open env (done_delta reason) r unfinished = unfinished

emit-Open : (env : Env) (e : Event) (r : Run) → is_end e ≡ 0 → Open env r → Open env (emit e r)
emit-Open env e r harmless ((paid, recorded, told, unreleased), unsaved, again, calm) =
    ((paid, recorded, omega (arith, ends-++ r.events e), unreleased), unsaved, again, calm)

-- A delta that closes nothing: its event is written, or something is raised.
write_event-Left :
    (env : Env) (whole : Bool) (fault : Fault) (d : ProviderDelta) (r : Run) (go_on : Run → Body)
    → is_end (event_of d) ≡ 0
    → ((s : Run) → Open env s → Left env whole (go_on s))
    → Open env r
    → Left env whole (write_event fault d r go_on)
write_event-Left env whole append_raises d r go_on harmless rest unfinished =
    kept-Open env d r unfinished
write_event-Left env whole append_cancelled d r go_on harmless rest unfinished =
    kept-Open env d r unfinished
write_event-Left env whole fine d r go_on harmless rest unfinished =
    rest _ (emit-Open env (event_of d) (kept d r) harmless (kept-Open env d r unfinished))
write_event-Left env whole cancelled d r go_on harmless rest unfinished =
    rest _ (emit-Open env (event_of d) (kept d r) harmless (kept-Open env d r unfinished))

-- `rest` is only used for a delta that closes nothing.
take_delta-Left :
    (env : Env) (whole : Bool) (p : Option Prepared) (d : Delta) (fault : Fault) (r : Run)
    (go_on : Run → Body)
    → (is_closing d ≡ false → (s : Run) → Open env s → Left env whole (go_on s))
    → Open env r
    → Left env whole (take_delta env p d fault r go_on)
take_delta-Left env whole p (error_delta e) fault r go_on rest unfinished =
    (fail-Left env whole p stream_interrupted interrupted r unfinished).0
take_delta-Left env whole p (passed (done_delta reason)) fault r go_on rest unfinished =
    complete-Left env whole p reason completed r.usage r unfinished
take_delta-Left env whole p (passed (text_delta t)) fault r go_on rest unfinished =
    write_event-Left env whole fault (text_delta t) r go_on refl (rest refl) unfinished
take_delta-Left env whole p (passed (usage_delta u)) fault r go_on rest unfinished =
    write_event-Left env whole fault (usage_delta u) r go_on refl (rest refl) unfinished
take_delta-Left env whole p (passed (tool_call_delta c)) fault r go_on rest unfinished =
    write_event-Left env whole fault (tool_call_delta c) r go_on refl (rest refl) unfinished

after_poll-Left :
    (env : Env) (whole : Bool) (p : Option Prepared) (flag : Option Bool) (t : Tick) (r : Run)
    (go_on : Run → Body)
    → (is_closing t.delta ≡ false → (s : Run) → Open env s → Left env whole (go_on s))
    → Open env r
    → Left env whole (after_poll env p flag t r go_on)
after_poll-Left env whole p none t r go_on rest unfinished = unfinished
after_poll-Left env whole p (some true) t r go_on rest unfinished =
    complete-Left env whole p (codes "stopped") interrupted
      (usage_or r.usage (estimated_usage p r.text)) r unfinished
after_poll-Left env whole p (some false) t r go_on rest unfinished =
    take_delta-Left env whole p t.delta t.fault r go_on rest unfinished

polled-Left :
    (env : Env) (whole : Bool) (p : Option Prepared) (t : Tick) (r : Run) (go_on : Run → Body)
    → (is_closing t.delta ≡ false → (s : Run) → Open env s → Left env whole (go_on s))
    → Open env r
    → Left env whole (polled env p t r go_on)
polled-Left env whole p t r go_on rest unfinished = by_clock (leb (r.checked_at + stop_poll) t.now)
  where
    by_clock :
        (due : Bool)
        → Left env whole (
            if due
            then after_poll env p t.stop_requested t (record r { checked_at = t.now }) go_on
            else take_delta env p t.delta t.fault r go_on)
    by_clock true =
        after_poll-Left env whole p t.stop_requested t (record r { checked_at = t.now }) go_on rest
          unfinished
    by_clock false = take_delta-Left env whole p t.delta t.fault r go_on rest unfinished

tick-Left :
    (env : Env) (whole : Bool) (p : Option Prepared) (t : Tick) (fault : Fault) (r : Run)
    (go_on : Run → Body)
    → (is_closing t.delta ≡ false → (s : Run) → Open env s → Left env whole (go_on s))
    → Open env r
    → Left env whole (tick env p t fault r go_on)
tick-Left env whole p t cancelled r go_on rest unfinished = unfinished
tick-Left env whole p t fine r go_on rest unfinished =
    polled-Left env whole p t r go_on rest unfinished
tick-Left env whole p t append_raises r go_on rest unfinished =
    polled-Left env whole p t r go_on rest unfinished
tick-Left env whole p t append_cancelled r go_on rest unfinished =
    polled-Left env whole p t r go_on rest unfinished

-- Whether the stream closes itself, or is ended by an error.
abbrev pub is_whole : List Tick → Ending → Bool
is_whole ticks ended = is_closed (map (λ t. t.delta) ticks)
is_whole ticks (raised e) = true

is_whole-∷ :
    (t : Tick) (ts : List Tick) (ending : Ending)
    → is_closing t.delta ≡ false
    → is_whole (t ∷ ts) ending ≡ is_whole ts ending
is_whole-∷ t ts ended closes_nothing = rw closes_nothing refl
is_whole-∷ t ts (raised e) closes_nothing = refl

after_stream-Left :
    (env : Env) (ending : Ending) (r : Run)
    → Open env r
    → Left env (is_whole [] ending) (after_stream ending r)
after_stream-Left env ended r (held, unsaved, again, calm) = (held, omega arith, λ first all. cc)
after_stream-Left env (raised e) r unfinished = unfinished

stream-Left :
    (env : Env) (p : Option Prepared) (ticks : List Tick) (ending : Ending) (r : Run)
    → Open env r
    → Left env (is_whole ticks ending) (stream env p ticks ending r)
unfolding stream
stream-Left env p [] ending r unfinished = after_stream-Left env ending r unfinished
stream-Left env p (t ∷ ts) ending r unfinished =
    tick-Left env (is_whole (t ∷ ts) ending) p t t.fault r (λ s. stream env p ts ending s)
      (λ closes_nothing s going.
        rw (is_whole-∷ t ts ending closes_nothing) (stream-Left env p ts ending s going))
      unfinished

-- A failure finishes a turn that was left open, if the message can be saved.
fail-Finished :
    (env : Env) (whole : Bool) (p : Option Prepared) (code : Code) (status : Status) (r : Run)
    → Open env r
    → Finished env whole (run_of (fail env p code status r))
fail-Finished env whole p code status r unfinished =
    by_left (fail env p code status r) (fail-Left env whole p code status r unfinished)
  where
    by_left :
        (b : Body)
        → Left env whole b × (env.persists r.tries ≡ true → length (run_of b).rows ≡ 1)
        → Finished env whole (run_of b)
    by_left (returned s) (finished, saved) = finished
    by_left (threw s) ((held, unsaved, again, calm), saved) =
        (held, omega arith, λ first all. saved (unfinished.2 first))
    by_left (cancelled_at s) ((held, unsaved, again, calm), saved) =
        (held, omega arith, λ first all. saved (unfinished.2 first))
    by_left (provider_threw e s) ((held, unsaved, again, calm), saved) =
        (held, omega arith, λ first all. saved (unfinished.2 first))

handled-Finished :
    (env : Env) (whole : Bool) (p : Option Prepared) (b : Body)
    → Left env whole b
    → Finished env whole (handled env p b)
unfolding handled
handled-Finished env whole p (returned r) finished = finished
handled-Finished env whole p (threw r) unfinished =
    fail-Finished env whole p internal_error failed r unfinished
handled-Finished env whole p (cancelled_at r) unfinished =
    fail-Finished env whole p stream_interrupted interrupted r unfinished
handled-Finished env whole p (provider_threw e r) unfinished =
    fail-Finished env whole p (code_of e) failed r unfinished

new_run-Open : (env : Env) → ((k : ℕ) → env.cancels k ≡ false) → Open env new_run
new_run-Open env calm = ((omega arith, omega arith, omega arith, refl), refl, λ first. first, calm)

-- Whether a turn that was composed is followed to the end of its stream.
abbrev pub comes_whole : Composed → List Tick → Ending → Bool
comes_whole (composed p) ticks ending = is_whole ticks ending
comes_whole _ ticks ending = true

abbrev pub ReleasedOnce : Env → Bool → Run → Type 0
ReleasedOnce env whole r =
    (r.released ≡ 1)
    × (length r.rows ≤ 1)
    × (length r.settled ≤ length r.rows)
    × (length r.recorded ≤ length r.rows)
    × (ends r.events ≤ length r.rows)
    × (env.persists 0 ≡ true → whole ≡ true → length r.rows ≡ 1)

release-handled :
    (env : Env) (whole : Bool) (p : Option Prepared) (b : Body)
    → Left env whole b
    → ReleasedOnce env whole (release (handled env p b))
release-handled env whole p b left =
    let ((paid, recorded, told, unreleased), once, saved) = handled-Finished env whole p b left in
    (omega arith, once, paid, recorded, told, saved)

-- If no cancellation comes between the saving of the message and the end of the turn: a turn gives
-- its slot back once and saves its message at most once. Its tokens are settled, its usage is recorded
-- and a closing event is written at most once each, and only if the message is saved. The message is
-- saved if the first attempt to save it succeeds and the stream of the gateway either ends with its
-- only closing delta or is ended by an error, wherever a cancellation or an exception leaves the turn.
pub generate_lem :
    (env : Env) (c : Composed) (started : ℕ) (ticks : List Tick) (ending : Ending)
    → ((k : ℕ) → env.cancels k ≡ false)
    → ReleasedOnce env (comes_whole c ticks ending) (generate env c started ticks ending new_run)
unfolding generate
generate_lem env (composed p) started ticks ending calm =
    release-handled env (is_whole ticks ending) (some p) _ (
      stream-Left env (some p) ticks ending (record (emit meta new_run) { checked_at = started })
        (new_run-Open env calm))
generate_lem env (meta_raises p) started ticks ending calm =
    release-handled env true (some p) (threw new_run) (new_run-Open env calm)
generate_lem env (meta_cancelled p) started ticks ending calm =
    release-handled env true (some p) (cancelled_at new_run) (new_run-Open env calm)
generate_lem env not_composed started ticks ending calm =
    release-handled env true none (threw new_run) (new_run-Open env calm)
generate_lem env compose_cancelled started ticks ending calm =
    release-handled env true none (cancelled_at new_run) (new_run-Open env calm)
generate_lem env (provider_refused e) started ticks ending calm =
    release-handled env true none (provider_threw e new_run) (new_run-Open env calm)
