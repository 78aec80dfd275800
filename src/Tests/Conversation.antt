-- ===== src/Tests/Conversation.antt =====
-- Turns of a conversation.
use lumina_ai.Prelude.{
  ◌==◌, ℕ, zero, suc, ◌+◌, ap, ◌≡◌, refl, Bool, true, false, Option, none, some, List, [], ◌∷◌, map,
  length,
}
use lumina_ai.Prelude.Texts.{Text, codes}
use lumina_ai.Gateway.Chat.{text_delta, done_delta, Delta, passed}
use lumina_ai.Gateway.Sse.{stream_response}
use lumina_ai.Gateway.Stream.{ended, stream_chat}
use lumina_ai.Tests.Gateway.{
  plain_python, request, responses, vendor, provider, gateway, items-play, last_of, last_closes,
}
use lumina_ai.Conversation.Turn.{
  Env, Prepared, composed, completed, Tick, Fault, fine, cancelled, Stage, nothing_raises,
  settle_raises, Status, interrupted, Run, generate, new_run,
}
use lumina_ai.Conversation.Turn.Finished.{ReleasedOnce, generate_lem}
use lumina_ai.Conversation.Turn.Streamed.{streamed_turn_is_saved}

abbrev prepared : Prepared
prepared = record { messages = request.messages; retrieved = true }

abbrev first_only : ℕ → Bool
first_only zero = true
first_only (suc k) = false

abbrev saving : Stage → Env
saving stage = record { persists = first_only; stage = λ k. stage; cancels = λ k. false }

abbrev tick_at : ℕ → Option Bool → Fault → Delta → Tick
tick_at now flag fault d = record { delta = d; now = now; stop_requested = flag; fault = fault }

abbrev arriving : ℕ → List Delta → List Tick
arriving now [] = []
arriving now (d ∷ ds) = tick_at now (some false) fine d ∷ arriving (now + 250000) ds

arriving_deltas : (now : ℕ) (ds : List Delta) → map (λ t. t.delta) (arriving now ds) ≡ ds
arriving_deltas now [] = refl
arriving_deltas now (d ∷ ds) = ap (λ l. d ∷ l) (arriving_deltas (now + 250000) ds)

streamed_turn_is_saved_example :
    length
      (generate
        (saving nothing_raises)
        (composed prepared)
        0
        (arriving 10 (stream_chat gateway request).deltas)
        (stream_chat gateway request).ending
        new_run).rows
    ≡ 1
streamed_turn_is_saved_example =
    streamed_turn_is_saved plain_python gateway request vendor provider responses
      (saving nothing_raises) prepared 0 (arriving 10 (stream_chat gateway request).deltas) refl
      (λ k q.
        items-play (stream_response plain_python vendor (responses k q)).deltas (last_of k)
          (last_closes k))
      (arriving_deltas 10 (stream_chat gateway request).deltas) refl (λ k. refl)

-- The turn is cancelled after its first text.
abbrev shutdown : List Tick
shutdown =
    tick_at 10 none fine (passed (text_delta (codes "hi")))
    ∷ tick_at 20 none cancelled (passed (done_delta (codes "stop")))
    ∷ []

-- The user stops the turn after its first text.
abbrev stopped : List Tick
stopped =
    tick_at 10 none fine (passed (text_delta (codes "hi")))
    ∷ tick_at 300000 (some true) fine (passed (text_delta (codes "ho")))
    ∷ []

generate_lem_example :
    ReleasedOnce
      (saving settle_raises)
      true
      (generate (saving settle_raises) (composed prepared) 0 shutdown ended new_run)
generate_lem_example =
    generate_lem (saving settle_raises) (composed prepared) 0 shutdown ended (λ k. refl)

abbrev texts_saved : Run → List (Text × Status)
texts_saved r = map (λ s. (s.content, s.status)) r.rows

shutdown_saves_half :
    texts_saved (generate (saving nothing_raises) (composed prepared) 0 shutdown ended new_run)
    ≡ (codes "hi", interrupted) ∷ []
unfolding generate
shutdown_saves_half = refl

-- The stop estimates the usage, and settles it.
stop_saves_half :
    (texts_saved (generate (saving nothing_raises) (composed prepared) 0 stopped ended new_run)
      ≡ (codes "hi", interrupted) ∷ [])
    × (length
          (generate (saving nothing_raises) (composed prepared) 0 stopped ended new_run).recorded
        ≡ 1)
unfolding generate
stop_saves_half = (refl, refl)

-- A whole answer, and a cancellation after it is saved.
abbrev answered : List Tick
answered = tick_at 10 none fine (passed (done_delta (codes "stop"))) ∷ []

abbrev late_cancellation : Env
late_cancellation = record {
  persists = λ k. true;
  stage = λ k. nothing_raises;
  cancels = λ k. k == 0;
}

saved_twice :
    (texts_saved (generate late_cancellation (composed prepared) 0 answered ended new_run)
      ≡ ([], interrupted) ∷ ([], completed) ∷ [])
    × (length (generate late_cancellation (composed prepared) 0 answered ended new_run).settled ≡ 2)
unfolding generate
saved_twice = (refl, refl)
