-- ===== src/Tests/Quota.antt =====
-- The quotas of a tenant.
use lumina_ai.Prelude.{◌+◌, ◌+◌, ◌≤◌, ◌≡◌, refl, String, [], ◌∷◌, arith}
use lumina_ai.Prelude.Int.{pos, ◌+ℤ◌}
use lumina_ai.Prelude.Texts.{Text, codes}
use lumina_ai.Redis.Memory.{counters}
use lumina_ai.Quota.Resource.{streams, messages_day}
use lumina_ai.Quota.Period.{IsMoment, key_of}
use lumina_ai.Quota.Service.{check_and_reserve}
use lumina_ai.Quota.Service.Reserve.{Effect, check_and_reserve-Effect}
use lumina_ai.Quota.Budget.{Moments, reserve}
use lumina_ai.Etl.Tokens.{estimate_tokens}
use lumina_ai.Quota.Budget.AllOrNothing.{Taken, Outcome, reserve_all_or_nothing}
use lumina_ai.Quota.Slots.{keep, active, enter, is_over}
use lumina_ai.Quota.Slots.Interleaving.{
  admitted, keeps_in, credits, idle, holding, Queue, IsSound, Reach, here, next, enters, holders,
  debts, Reach-holders,
}
use lumina_ai.Tests.Values.{tenant, noon, fresh_world}

noon-IsMoment : IsMoment noon
noon-IsMoment = record {
  is_date = record {
    year_pos = omega arith;
    month_pos = omega arith;
    month_le = omega arith;
    day_pos = omega arith;
    day_le = omega arith;
  };
  micros_lt = omega arith;
}

abbrev question : Text
question = codes "Who grants leave?"

abbrev clock : Moments
clock = record { first = noon; second = noon; third = noon }

abbrev slots : String
slots = "t:acme:slots:ocr"

abbrev empty_queue : Queue counters slots 2
empty_queue = record { store = fresh_world.store; phases = idle ∷ idle ∷ [] }

-- One worker holds a slot, and the other has sent INCR.
abbrev two_slots : Queue counters slots 2
two_slots = record {
  store = enter counters slots (keep counters slots (enter counters slots fresh_world.store));
  phases = holding ∷ admitted ∷ [];
}

empty_queue-IsSound : IsSound counters slots 2 empty_queue
empty_queue-IsSound = record { counts = refl; within = omega arith; not_below = refl }

reached : Reach counters slots 2 empty_queue two_slots
unfolding is_over enter keep ◌+ℤ◌
reached =
    next (next (next here (enters 0 refl (refl, refl))) (keeps_in 0 (refl, refl)))
      (enters 1 refl (refl, refl))

reserve_all_or_nothing_example :
    Outcome counters 0
      (key_of "acme" messages_day noon)
      (reserve counters tenant 100 question clock fresh_world)
    × Taken counters tenant
        (100 + estimate_tokens question)
        clock
        (reserve counters tenant 100 question clock fresh_world)
reserve_all_or_nothing_example =
    reserve_all_or_nothing counters tenant messages_day noon 100 question clock fresh_world 0
      noon-IsMoment noon-IsMoment noon-IsMoment refl

Reach-holders_example :
    (holders two_slots.phases ≤ 2)
    × (active counters slots two_slots.store
        ≡ pos (holders two_slots.phases + debts two_slots.phases))
    × (credits two_slots.phases ≡ 0)
Reach-holders_example = Reach-holders counters slots 2 empty_queue-IsSound reached

check_and_reserve-Effect_example :
    Effect counters fresh_world
      (key_of tenant.tenant_id streams noon)
      (check_and_reserve counters tenant streams 1 noon fresh_world)
check_and_reserve-Effect_example =
    check_and_reserve-Effect counters tenant streams streams noon noon 1 fresh_world noon-IsMoment
