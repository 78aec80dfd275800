-- ===== src/Api/RateLimit/Window.antt =====
-- The requests that one window of backend/api/middleware/rate_limit.py lets pass.
use text.Mathlib.Text.{◌==◌}
use text.Mathlib.TextPositions.{eq_refl}
use mathlib.Core.Path.{subst}
use lumina_ai.Prelude.{
  ℕ, suc, ◌+◌, ◌-◌, ◌≤◌, ◌<◌, ◌≡◌, ◌⊎◌, inl, inr, refl, sym, String, false, ◌&&◌, none, some, List,
  [], ◌∷◌, min, leb, arith, if◌then◌else◌, Bool-cases, eq_iff,
}
use lumina_ai.Prelude.Int.{ℤ, pos, ◌+ℤ◌}
use lumina_ai.Redis.{Counters}
use lumina_ai.Api.RateLimit.{within, key_ttl}

module _ (r : Counters) (key : String) where
  open r use {
    incrby,
    get_incrby,
    ttl_incrby,
    cache.{Store, get, ttl, expire, elapse, get_expire, ttl_expire, get_elapse, ttl_elapse},
  }

  -- `n` requests were counted under the key, which lives for more than `left` seconds.
  abbrev pub Counted : ℕ → ℕ → Store → Type 0
  Counted n left s =
      ((n ≡ 0) × (get s key ≡ none) × (left < key_ttl))
      ⊎ ((0 < n) × ((get s key ≡ some (pos n)) × ((t : ℕ) × ((ttl s key ≡ some t) × (left < t)))))

  Counted-elapse :
      (n left d : ℕ) (s : Store) → d ≤ left → Counted n left s → Counted n (left - d) (elapse s d)
  Counted-elapse n left d s short (inl (zero_n, missing, small)) =
      inl (zero_n, ground (arith, get_elapse s d key, missing), omega arith)
  Counted-elapse n left d s short (inr (some_n, (there, (t, (life, long))))) = inr (
    some_n,
    (
      ground (arith, get_elapse s d key, there, life),
      (t - d, (ground (arith, ttl_elapse s d key, life), omega arith)),
    ),
  )

  -- A request of another key.
  Counted-other :
      (n left : ℕ) (k : String) (limit : ℤ) (s : Store)
      → (k == key) ≡ false
      → Counted n left s
      → Counted n left (within r k limit s).1
  unfolding within
  Counted-other n left k limit s other (inl (zero_n, missing, small)) = inl (
    zero_n,
    ground (arith, get_incrby s k (pos 1) key, get_expire (incrby s k (pos 1)) k key_ttl key),
    small,
  )
  Counted-other n left k limit s other (inr (some_n, (there, (t, (life, long))))) = inr (
    some_n,
    (
      ground (arith, get_incrby s k (pos 1) key, get_expire (incrby s k (pos 1)) k key_ttl key),
      (
        t,
        (
          ground (arith, ttl_incrby s k (pos 1) key, ttl_expire (incrby s k (pos 1)) k key_ttl key),
          long,
        ),
      ),
    ),
  )

  -- A request of the key itself.
  Counted-own :
      (n left limit : ℕ) (s : Store)
      → Counted n left s
      → ((within r key (pos limit) s).0 ≡ leb (suc n) limit)
        × Counted (suc n) left (within r key (pos limit) s).1
  unfolding within ◌+ℤ◌
  Counted-own n left limit s (inl (zero_n, missing, small)) =
      let counted = incrby s key (pos 1) in
      let value = get_incrby s key (pos 1) key in
      let same = eq_refl key in
      (
        ground (arith, value, same),
        inr (
          omega arith,
          (
            ground (arith, value, same, get_expire counted key key_ttl key),
            (key_ttl, (ground (arith, value, same, ttl_expire counted key key_ttl key), small)),
          ),
        ),
      )
  Counted-own n left limit s (inr (some_n, (there, (t, (life, long))))) =
      let counted = incrby s key (pos 1) in
      let value = get_incrby s key (pos 1) key in
      let same = eq_refl key in
      (
        ground (arith, value, same),
        inr (
          omega arith,
          (
            ground (arith, value, same, get_expire counted key key_ttl key),
            (
              t,
              (
                ground (
                  arith,
                  value,
                  same,
                  ttl_incrby s key (pos 1) key,
                  ttl_expire counted key key_ttl key,
                ),
                long,
              ),
            ),
          ),
        ),
      )

  -- Requests in their order, each so many seconds after the one before, with its key: how many of
  -- those of the key pass.
  unfoldable pub passes : ℤ → List (ℕ × String) → Store → ℕ
  unfolding within
  passes limit [] s = 0
  passes limit ((d, k) ∷ hits) s =
      let (allowed, next) = within r k limit (elapse s d) in
      (if k == key && allowed then 1 else 0) + passes limit hits next

abbrev pub seconds : List (ℕ × String) → ℕ
seconds [] = 0
seconds ((d, k) ∷ hits) = d + seconds hits

abbrev pub hits_of : String → List (ℕ × String) → ℕ
hits_of key [] = 0
hits_of key ((d, k) ∷ hits) = (if k == key then 1 else 0) + hits_of key hits

module _ (r : Counters) (key : String) (limit : ℕ) where
  open r use {cache.{Store, get, elapse}}

  passes_from :
      (n left : ℕ) (hits : List (ℕ × String)) (s : Store)
      → Counted r key n left s
      → seconds hits ≤ left
      → passes r key (pos limit) hits s ≡ min (limit - n) (hits_of key hits)
  unfolding passes
  passes_from n left [] s counted short = omega arith
  passes_from n left ((d, k) ∷ hits) s counted short =
      let then_counted = Counted-elapse r key n left d s (omega arith) counted in
      elim (Bool-cases (k == key)) [
        | inl own ↦
            let same : k ≡ key = (eq_iff k key).0 own in
            let (allowed, next_counted) =
              Counted-own r key n (left - d) limit (elapse s d) then_counted in
            let next = (within r key (pos limit) (elapse s d)).1 in
            let rest = passes_from (suc n) (left - d) hits next next_counted (omega arith) in
            let itself = eq_refl key in
            subst
              (λ x.
                passes r key (pos limit) ((d, x) ∷ hits) s
                ≡ min (limit - n) (hits_of key ((d, x) ∷ hits)))
              (sym same) (ground (arith, itself, allowed, rest))
        | inr other ↦
            let next_counted =
              Counted-other r key n (left - d) k (pos limit) (elapse s d) other then_counted in
            let next = (within r k (pos limit) (elapse s d)).1 in
            let rest = passes_from n (left - d) hits next next_counted (omega arith) in
            ground (arith, other, rest)
      ]

  -- From a key that was never counted on, requests that arrive within 120 seconds, such as those of
  -- one window, pass as long as there are no more than the limit: of those of the key exactly the
  -- limit passes if there are more, whatever requests of other keys come between.
  pub passes_exact :
      (hits : List (ℕ × String)) (s : Store)
      → get s key ≡ none
      → seconds hits < key_ttl
      → passes r key (pos limit) hits s ≡ min limit (hits_of key hits)
  passes_exact hits s unused short =
      let e = passes_from 0 (seconds hits) hits s (inl (refl, unused, short)) (omega arith) in
      omega (arith, e)
