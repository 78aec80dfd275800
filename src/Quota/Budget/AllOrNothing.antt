-- ===== src/Quota/Budget/AllOrNothing.antt =====
-- A question that is turned away has used no quota.
use text.Mathlib.Text.{◌==◌}
use lumina_ai.Prelude.{
  refl, ℕ, ◌+◌, ◌<◌, String, ◌≡◌, Option, none, some, List, [], ◌∷◌, arith, eq_iff, ap, ◌∙◌,
  if◌then◌else◌, ◌++◌,
}
use lumina_ai.Prelude.Int.{pos, ◌-ℤ◌, clamp, +ℤ_parts, -ℤ_parts}
use lumina_ai.Prelude.Texts.{Text}
use lumina_ai.Redis.{Counters}
use lumina_ai.Quota.Resource.{Resource, messages_day, tokens_month, streams}
use lumina_ai.Quota.Period.{Moment, IsMoment, key_of}
use lumina_ai.Etl.Tokens.{estimate_tokens}
use lumina_ai.Quota.Service.{
  Site, World, Reservation, Result, ok, quota_exceeded, check_and_reserve, release, count,
}
use lumina_ai.Quota.Service.Reserve.{
  Granted, GrantedIf, check_and_reserve-Granted, Effect, check_and_reserve-Effect,
}
use lumina_ai.Quota.Service.Settle.{release_settles}
use lumina_ai.Quota.Budget.{
  TurnReservations, append_some, Moments, release_all, reserve, after_stream, after_tokens,
  after_messages, token_reserve_for,
}

-- What the reservations add to one key.
abbrev held : List Reservation → String → ℕ
held [] j = 0
held (v ∷ vs) j = (if v.key == j then v.amount else 0) + held vs j

abbrev Lives : List Reservation → Type 0
Lives [] = Unit
Lives (v ∷ vs) = (0 < v.ttl_seconds) × Lives vs

held-append :
    (vs : List Reservation) (v : Reservation) (j : String)
    → held (vs ++ v ∷ []) j ≡ held vs j + (if v.key == j then v.amount else 0)
held-append [] v j = omega arith
held-append (u ∷ vs) v j = omega (arith, held-append vs v j)

Lives-append :
    (vs : List Reservation) (v : Reservation) → Lives vs → 0 < v.ttl_seconds → Lives (vs ++ v ∷ [])
Lives-append [] v h l = (l, tt)
Lives-append (u ∷ vs) v h l = (h.0, Lives-append vs v h.1 l)

module _ (r : Counters) where
  count-release :
      (v : Reservation) (w : World r) (j : String)
      → 0 < v.ttl_seconds
      → count r (release r v w).store j ≡ (
          if v.key == j then pos (clamp (count r w.store j -ℤ pos v.amount)) else count r w.store j)
  count-release v w j lives = ground (arith, eq_iff v.key j, (release_settles r v w lives j).0)

  -- Giving back what is held leaves the counter as it was before.
  count-release_all :
      (vs : List Reservation) (w : World r) (j : String) (n : ℕ)
      → Lives vs
      → count r w.store j ≡ pos (n + held vs j)
      → count r (release_all r vs w).store j ≡ pos n
  unfolding release_all
  count-release_all [] w j n lives e = rw e (ap pos (omega arith))
  count-release_all (v ∷ vs) w j n lives e =
      count-release_all vs (release r v w) j n lives.1
        (ground (arith, count-release v w j lives.0, -ℤ_parts (count r w.store j) (pos v.amount)))

  -- What the reservations hold of a key has been added to the `n` that it stood at.
  abbrev Holds : ℕ → String → List Reservation → World r → Type 0
  Holds n j vs w = Lives vs × (count r w.store j ≡ pos (n + held vs j))

  append_some-Holds :
      (o : Option Reservation) (n : ℕ) (j : String) (vs : List Reservation) (w w' : World r)
      → Holds n j vs w
      → Effect r w j (ok o, w')
      → Holds n j (append_some vs o) w'
  append_some-Holds none n j vs w w' h e = (h.0, e ∙ h.1)
  append_some-Holds (some v) n j vs w w' h e = (
    Lives-append vs v h.0 e.1,
    ground (arith, e.0, h.1, held-append vs v j, +ℤ_parts (count r w.store j) (pos v.amount)),
  )

  -- Refused: the counter stands at `n` again. Granted: what is held has been added.
  abbrev pub Outcome : ℕ → String → Result TurnReservations × World r → Type 0
  Outcome n j (quota_exceeded d, w) = count r w.store j ≡ pos n
  Outcome n j (ok t, w) = count r w.store j ≡ pos (n + held t.all j)

  after_stream-Outcome :
      (tokens : Option Reservation) (n : ℕ) (j : String) (vs : List Reservation) (w : World r)
      (res : Result (Option Reservation) × World r)
      → Holds n j vs w
      → Effect r w j res
      → Outcome n j (after_stream r vs tokens res)
  unfolding after_stream
  after_stream-Outcome tokens n j vs w (quota_exceeded d, w') h e =
      count-release_all vs w' j n h.0 (e ∙ h.1)
  after_stream-Outcome tokens n j vs w (ok o, w') h e = (append_some-Holds o n j vs w w' h e).1

  -- A granted question has taken one message, its estimated tokens and one stream.
  abbrev pub Taken : Site → ℕ → Moments → Result TurnReservations × World r → Type 0
  Taken c amount at (quota_exceeded d, w) = Unit {0}
  Taken c amount at (ok t, w) =
      (m : Option Reservation) × (t.all
        ≡ append_some (append_some (append_some [] m) t.tokens) t.stream)
      × Granted r c messages_day 1 at.first m
      × Granted r c tokens_month amount at.second t.tokens
      × Granted r c streams 1 at.third t.stream

  after_stream-Taken :
      (c : Site) (amount : ℕ) (at : Moments) (m tokens : Option Reservation)
      (res : Result (Option Reservation) × World r)
      → Granted r c messages_day 1 at.first m
      → Granted r c tokens_month amount at.second tokens
      → GrantedIf r c streams 1 at.third res
      → Taken c amount at (after_stream r (append_some (append_some [] m) tokens) tokens res)
  unfolding after_stream
  after_stream-Taken c amount at m tokens (quota_exceeded d, w) h k l = tt
  after_stream-Taken c amount at m tokens (ok o, w) h k l = (m, refl, h, k, l)

  after_tokens-Taken :
      (c : Site) (amount : ℕ) (at : Moments) (m : Option Reservation)
      (res : Result (Option Reservation) × World r)
      → Granted r c messages_day 1 at.first m
      → GrantedIf r c tokens_month amount at.second res
      → Taken c amount at (after_tokens r c (append_some [] m) at.third res)
  unfolding after_tokens
  after_tokens-Taken c amount at m (quota_exceeded d, w) h k = tt
  after_tokens-Taken c amount at m (ok o, w) h k =
      after_stream-Taken c amount at m o (check_and_reserve r c streams 1 at.third w) h k
        (check_and_reserve-Granted r c streams 1 at.third w refl)

  after_messages-Taken :
      (c : Site) (amount : ℕ) (at : Moments) (res : Result (Option Reservation) × World r)
      → GrantedIf r c messages_day 1 at.first res
      → Taken c amount at (after_messages r c amount at res)
  unfolding after_messages
  after_messages-Taken c amount at (quota_exceeded d, w) h = tt
  after_messages-Taken c amount at (ok o, w) h =
      after_tokens-Taken c amount at o (check_and_reserve r c tokens_month amount at.second w) h
        (check_and_reserve-Granted r c tokens_month amount at.second w refl)

  module _ (c : Site) (p : Resource) (later : Moment) where
    abbrev key : String
    key = key_of c.tenant_id p later

    after_tokens-Outcome :
        (n : ℕ) (vs : List Reservation) (now : Moment) (w : World r)
        (res : Result (Option Reservation) × World r)
        → IsMoment now
        → Holds n key vs w
        → Effect r w key res
        → Outcome n key (after_tokens r c vs now res)
    unfolding after_tokens
    after_tokens-Outcome n vs now w (quota_exceeded d, w') valid h e =
        count-release_all vs w' key n h.0 (e ∙ h.1)
    after_tokens-Outcome n vs now w (ok o, w') valid h e =
        after_stream-Outcome o n key (append_some vs o) w' (check_and_reserve r c streams 1 now w')
          (append_some-Holds o n key vs w w' h e)
          (check_and_reserve-Effect r c streams p now later 1 w' valid)

    after_messages-Outcome :
        (amount : ℕ) (at : Moments) (n : ℕ) (w : World r)
        (res : Result (Option Reservation) × World r)
        → IsMoment at.second
        → IsMoment at.third
        → Holds n key [] w
        → Effect r w key res
        → Outcome n key (after_messages r c amount at res)
    unfolding after_messages
    after_messages-Outcome amount at n w (quota_exceeded d, w') v2 v3 h e =
        count-release_all [] w' key n tt (e ∙ h.1)
    after_messages-Outcome amount at n w (ok o, w') v2 v3 h e =
        after_tokens-Outcome n (append_some [] o) at.third w'
          (check_and_reserve r c tokens_month amount at.second w') v3
          (append_some-Holds o n key [] w w' h e)
          (check_and_reserve-Effect r c tokens_month p at.second later amount w' v2)

    -- At valid moments a question takes all three quotas or none: one message, the configured
    -- estimate with that of the question in tokens, and one stream, each under its key unless the
    -- plan has no limit for it. At every counter of the tenant that stood at some `n` of at least 0, a
    -- refused question leaves `n`, and a granted one leaves `n` and what its reservations hold there.
    pub reserve_all_or_nothing :
        (reserve_estimate : ℕ) (question : Text) (at : Moments) (w : World r) (n : ℕ)
        → IsMoment at.first
        → IsMoment at.second
        → IsMoment at.third
        → count r w.store key ≡ pos n
        → Outcome n key (reserve r c reserve_estimate question at w)
          × Taken c
              (reserve_estimate + estimate_tokens question)
              at
              (reserve r c reserve_estimate question at w)
    unfolding reserve token_reserve_for
    reserve_all_or_nothing reserve_estimate question at w n v1 v2 v3 e = (
      after_messages-Outcome (token_reserve_for reserve_estimate question) at n w
          (check_and_reserve r c messages_day 1 at.first w) v2 v3 (tt, e ∙ ap pos (omega arith))
          (check_and_reserve-Effect r c messages_day p at.first later 1 w v1),
      after_messages-Taken c (token_reserve_for reserve_estimate question) at
          (check_and_reserve r c messages_day 1 at.first w)
          (check_and_reserve-Granted r c messages_day 1 at.first w refl),
    )
