-- ===== src/Quota/Service/Notify.antt =====
-- What a quota notice touches: its guard key, and no counter.
use Prim.Native.Char.{code}
use lumina_ai.Prelude.{ℕ, ◌≡◌, ◌≢◌, ap, arith, eq_iff}
use lumina_ai.Prelude.Int.{ℤ, pos}
use lumina_ai.Redis.{Counters}
use lumina_ai.Redis.Keys.{tenant_key-ne}
use lumina_ai.Quota.Resource.{Resource, tokens_month}
use lumina_ai.Quota.Period.{Moment, key_of}
use lumina_ai.Quota.Service.{Site, World, guard_key, maybe_notify, notify_guard_ttl_seconds}

-- A guard is not the key of a counter.
key_of-ne-guard_key :
    (r : Counters) (c : Site) (q p : Resource) (now later : Moment) (used : ℤ) (limit : ℕ)
    → guard_key r c p now used limit ≢ key_of c.tenant_id q later
unfolding key_of
key_of-ne-guard_key r c tokens_month p now later used limit =
    tenant_key-ne _ _ _ _ _ _ _ _ (λ e. omega (arith, ap code e))
key_of-ne-guard_key r c _ p now later used limit =
    tenant_key-ne _ _ _ _ _ _ _ _ (λ e. omega (arith, ap code e))

module _ (r : Counters) (c : Site) (q p : Resource) (now later : Moment) where
  open r use {cache.{get}}

  -- No counter is changed by a notice.
  pub get-maybe_notify :
      (used : ℤ) (limit : ℕ) (w : World r)
      → get (maybe_notify r c p used limit now w).store (key_of c.tenant_id q later)
        ≡ get w.store (key_of c.tenant_id q later)
  unfolding maybe_notify
  get-maybe_notify used limit w =
      let guard = guard_key r c p now used limit in
      ground (
        arith,
        r.cache.get_set_nx w.store guard (pos 1) notify_guard_ttl_seconds
            (key_of c.tenant_id q later),
        eq_iff guard (key_of c.tenant_id q later),
        key_of-ne-guard_key r c q p now later used limit,
      )
