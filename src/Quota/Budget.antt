-- ===== src/Quota/Budget.antt =====
-- `TurnBudget` of backend/services/conversation/budget.py: the reservations of one question and
-- their settlement. Each call reads the clock anew, so the three reservations have three moments.
pub mod AllOrNothing
use lumina_ai.Prelude.{ℕ, ◌+◌, Option, none, some, List, [], ◌∷◌, ◌++◌, ◌≡◌}
use lumina_ai.Prelude.Texts.{Text}
use lumina_ai.Redis.{Counters}
use lumina_ai.Etl.Tokens.{estimate_tokens}
use lumina_ai.Quota.Resource.{Resource, messages_day, tokens_month, streams}
use lumina_ai.Quota.Period.{Moment}
use lumina_ai.Quota.Service.{
  Site, World, Reservation, Result, ok, quota_exceeded, check_and_reserve, commit, release,
}

-- `token_reserve_for`: the configured estimate and the question's own.
unfoldable pub token_reserve_for : ℕ → Text → ℕ
token_reserve_for reserve_estimate question = reserve_estimate + estimate_tokens question

pub record TurnReservations : Type 0 where
  pub all : List Reservation
  pub tokens : Option Reservation
  pub stream : Option Reservation

-- `if reservation: acquired.append(reservation)`.
abbrev pub append_some : List Reservation → Option Reservation → List Reservation
append_some acquired none = acquired
append_some acquired (some v) = acquired ++ (v ∷ [])

pub record Moments : Type 0 where
  pub first : Moment
  pub second : Moment
  pub third : Moment

-- What a provider reported: no usage at all, or its two counts.
pub data Usage : Type 0 where
  empty : Usage
  counts : ℕ → ℕ → Usage

module _ (r : Counters) where
  -- `release`: every reservation in turn.
  unfoldable pub release_all : List Reservation → World r → World r
  release_all [] w = w
  release_all (v ∷ vs) w = release_all vs (release r v w)

  -- The rest of `reserve` after each of its three calls; `acquired` is what the calls before got.
  after_stream :
      List Reservation
      → Option Reservation
      → Result (Option Reservation) × World r
      → Result TurnReservations × World r
  after_stream acquired tokens (quota_exceeded d, w) = (quota_exceeded d, release_all acquired w)
  after_stream acquired tokens (ok stream, w) =
      (ok (record { all = append_some acquired stream; tokens = tokens; stream = stream }), w)

  after_tokens :
      Site
      → List Reservation
      → Moment
      → Result (Option Reservation) × World r
      → Result TurnReservations × World r
  after_tokens c acquired now (quota_exceeded d, w) = (quota_exceeded d, release_all acquired w)
  after_tokens c acquired now (ok tokens, w) =
      after_stream (append_some acquired tokens) tokens (check_and_reserve r c streams 1 now w)

  after_messages :
      Site → ℕ → Moments → Result (Option Reservation) × World r → Result TurnReservations × World r
  after_messages c amount at (quota_exceeded d, w) = (quota_exceeded d, release_all [] w)
  after_messages c amount at (ok messages, w) =
      after_tokens c (append_some [] messages) at.third
        (check_and_reserve r c tokens_month amount at.second w)

  pub reserve : Site → ℕ → Text → Moments → World r → Result TurnReservations × World r
  unfolding after_messages after_tokens after_stream
  reserve c reserve_estimate question at w =
      after_messages c (token_reserve_for reserve_estimate question) at
        (check_and_reserve r c messages_day 1 at.first w)

  -- `settle_tokens`: correct the reservation to what was used, or give it back.
  pub settle_tokens : Option Reservation → Usage → World r → World r
  settle_tokens none usage w = w
  settle_tokens (some v) (counts prompt completion) w = commit r v (some (prompt + completion)) w
  settle_tokens (some v) empty w = release r v w

  pub release_stream : Option Reservation → World r → World r
  release_stream none w = w
  release_stream (some v) w = release r v w
