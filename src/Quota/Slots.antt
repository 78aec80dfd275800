-- ===== src/Quota/Slots.antt =====
-- `TenantSlotLimiter` of backend/services/platform/fairness.py: the gate of a tenant's slots in a
-- queue, as one worker runs it, and as many workers interleave their commands.
pub mod Interleaving
use Prim.Native.String.{◌++◌}
use lumina_ai.Prelude.{ℕ, String, Bool, true, false, [], ◌∷◌, if◌then◌else◌}
use lumina_ai.Prelude.Int.{ℤ, pos, negsuc, ◌+ℤ◌, ltb_ℤ}
use lumina_ai.Redis.{Counters, or_zero, tenant_key}

abbrev pub slot_ttl_seconds : ℕ
slot_ttl_seconds = 3600

-- `_key`.
unfoldable pub slot_key : String → String → String
slot_key tenant_id kind = tenant_key tenant_id ("slots" ∷ kind ∷ [])

module _ (r : Counters) (key : String) where
  open r use {incrby, cache.{Store, get, expire}}

  abbrev pub active : Store → ℤ
  active s = or_zero (get s key)

  -- INCR; the worker looks at the value that it returned when it has sent EXPIRE.
  unfoldable pub enter : Store → Store
  enter s = incrby s key (pos 1)

  -- EXPIRE.
  unfoldable pub keep : Store → Store
  keep s = expire s key slot_ttl_seconds

  unfoldable pub is_over : ℕ → Store → Bool
  is_over cap s = ltb_ℤ (pos cap) (active s)

  -- DECR of a worker that was turned away, and the first command of `release`.
  unfoldable pub leave : Store → Store
  leave s = incrby s key (negsuc 0)

  unfoldable pub is_below : Store → Bool
  is_below s = ltb_ℤ (active s) (pos 0)

  -- INCR of a release that came below 0.
  unfoldable pub restore : Store → Store
  restore s = incrby s key (pos 1)

  pub acquire : ℕ → Store → Bool × Store
  unfolding enter keep is_over leave
  acquire cap s =
      let entered = enter s in
      let kept = keep entered in if is_over cap entered then (false, leave kept) else (true, kept)

  pub release : Store → Store
  unfolding leave is_below restore
  release s = let left = leave s in if is_below left then restore left else left
