-- ===== src/Tests/Reconcile.antt =====
-- The reconciliation of a tenant's counters.
use lumina_ai.Prelude.{◌≡◌, [], arith, if◌then◌else◌}
use lumina_ai.Prelude.Int.{pos}
use lumina_ai.Redis.Memory.{counters}
use lumina_ai.Quota.Resource.{tokens_month, messages_day}
use lumina_ai.Quota.Period.{IsMoment, key_of}
use lumina_ai.Quota.Service.{count}
use lumina_ai.Quota.Service.Reconcile.{Usage, reconcile_tenant, reconcile_tenant_lem}
use lumina_ai.Tests.Values.{tenant, noon, busy_world}
use text.Mathlib.Text.{◌==◌}

abbrev usage : Usage
usage = record {
  llm_token_total = 900;
  assistant_count = 12;
  active_count = 3;
  active_size_bytes = 4000;
}

valid_noon : IsMoment noon
valid_noon = record {
  is_date = record {
    year_pos = omega arith;
    month_pos = omega arith;
    month_le = omega arith;
    day_pos = omega arith;
    day_le = omega arith;
  };
  micros_lt = omega arith;
}

reconcile_tenant_lem_example :
    count counters
      (reconcile_tenant counters tenant noon.date noon usage ([], busy_world)).1.store
      "t:acme:quota:messages_day:2026-12-31"
    ≡ (if key_of tenant.tenant_id tokens_month noon == "t:acme:quota:messages_day:2026-12-31"
        then pos 900
        else if key_of tenant.tenant_id messages_day noon == "t:acme:quota:messages_day:2026-12-31"
        then pos 12
        else count counters busy_world.store "t:acme:quota:messages_day:2026-12-31")
reconcile_tenant_lem_example =
    reconcile_tenant_lem counters tenant noon.date noon usage [] busy_world
      "t:acme:quota:messages_day:2026-12-31" valid_noon
