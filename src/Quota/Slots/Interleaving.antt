-- ===== src/Quota/Slots/Interleaving.antt =====
-- Workers that interleave the commands of `acquire` and `release`, each command a step of its own:
-- never more holders than the cap, while the key of the slots does not run out.
use text.Mathlib.TextPositions.{eq_refl}
use lumina_ai.Prelude.{
  none, ap, ℕ, zero, suc, ◌+◌, ◌≤◌, String, ◌≡◌, true, false, some, List, [], ◌∷◌, arith, get_elem?,
  set, ltb, ◌-◌, if◌then◌else◌, Bool-cases, inl, inr,
}
use lumina_ai.Prelude.Int.{pos, negsuc, ◌+ℤ◌, +ℤ_parts}
use lumina_ai.Redis.{Counters, expires_within}
use lumina_ai.Quota.Slots.{
  active, enter, is_over, leave, acquire, release, slot_ttl_seconds, keep, is_below, restore,
}

-- Where a worker stands: `admitted` and `rejected` have sent INCR and not yet EXPIRE, `refused` has
-- to send DECR, and `below` the INCR of a release that came below 0.
pub data Phase : Type 0 where
  idle admitted rejected holding refused below : Phase

abbrev pub slot_of : Phase → ℕ
slot_of admitted = 1
slot_of holding = 1
slot_of _ = 0

abbrev pub debt_of : Phase → ℕ
debt_of rejected = 1
debt_of refused = 1
debt_of _ = 0

abbrev pub credit_of : Phase → ℕ
credit_of below = 1
credit_of _ = 0

abbrev pub tally : (Phase → ℕ) → List Phase → ℕ
tally weight [] = 0
tally weight (p ∷ ps) = weight p + tally weight ps

abbrev pub holders : List Phase → ℕ
holders = tally slot_of

abbrev pub debts : List Phase → ℕ
debts = tally debt_of

abbrev pub credits : List Phase → ℕ
credits = tally credit_of

tally-set :
    (weight : Phase → ℕ) (ps : List Phase) (i : ℕ) (p q : Phase)
    → get_elem? ps i ≡ some p
    → tally weight (set ps i q) + weight p ≡ tally weight ps + weight q
tally-set weight [] i p q e = cc
tally-set weight (x ∷ ps) zero p q e =
    let same : weight x ≡ weight p = ap weight (some_injective e) in omega (arith, same)
  where
    some_injective : {a b : Phase} → some a ≡ some b → a ≡ b
    some_injective {a} h = ap (λ o. elim o [ none ↦ a | some v ↦ v ]) h
tally-set weight (x ∷ ps) (suc i) p q e = omega (arith, tally-set weight ps i p q e)

module _ (r : Counters) (key : String) (cap : ℕ) where
  open r use {incrby, cache.{Store, ttl, elapse}}

  pub record Queue : Type 0 where
    pub store : Store
    pub phases : List Phase

  -- A worker in a phase sends its command and goes on to the next phase.
  abbrev Moves : Queue → ℕ → Phase → Store → Phase → Queue → Type 0
  Moves s i p store q t =
      (get_elem? s.phases i ≡ some p) × (t ≡ record { store = store; phases = set s.phases i q })

  -- One command of one worker, or the passing of time in which the key of the slots does not run out.
  pub data Step (s : Queue) (t : Queue) : Type 0 where
    enters :
        (i : ℕ)
        → is_over r key cap (enter r key s.store) ≡ false
        → Moves s i idle (enter r key s.store) admitted t
        → Step s t
    is_turned_away :
        (i : ℕ)
        → is_over r key cap (enter r key s.store) ≡ true
        → Moves s i idle (enter r key s.store) rejected t
        → Step s t
    keeps_in : (i : ℕ) → Moves s i admitted (keep r key s.store) holding t → Step s t
    keeps_out : (i : ℕ) → Moves s i rejected (keep r key s.store) refused t → Step s t
    takes_back : (i : ℕ) → Moves s i refused (leave r key s.store) idle t → Step s t
    releases :
        (i : ℕ)
        → is_below r key (leave r key s.store) ≡ false
        → Moves s i holding (leave r key s.store) idle t
        → Step s t
    comes_below :
        (i : ℕ)
        → is_below r key (leave r key s.store) ≡ true
        → Moves s i holding (leave r key s.store) below t
        → Step s t
    restores : (i : ℕ) → Moves s i below (restore r key s.store) idle t → Step s t
    waits :
        (d : ℕ)
        → expires_within (ttl s.store key) d ≡ false
        → t ≡ record { store = elapse s.store d; phases = s.phases }
        → Step s t

  pub data Reach (s : Queue) : Queue → Type 0 where
    here : Reach s s
    next : {t u : Queue} → Reach s t → Step t u → Reach s u

  -- The counter counts the holders and those who have yet to take their count back.
  pub record IsSound (s : Queue) : Type 0 where
    pub counts : active r key s.store ≡ pos (holders s.phases + debts s.phases)
    pub within : holders s.phases ≤ cap
    pub not_below : credits s.phases ≡ 0

  active-enter : (s : Store) → active r key (enter r key s) ≡ active r key s +ℤ pos 1
  unfolding enter
  active-enter s = rw (r.get_incrby s key (pos 1) key, eq_refl key)

  active-keep : (s : Store) → active r key (keep r key s) ≡ active r key s
  unfolding keep
  active-keep s = rw (r.cache.get_expire s key slot_ttl_seconds key (omega arith))

  active-leave : (s : Store) → active r key (leave r key s) ≡ active r key s +ℤ negsuc 0
  unfolding leave
  active-leave s = rw (r.get_incrby s key (negsuc 0) key, eq_refl key)

  active-restore : (s : Store) → active r key (restore r key s) ≡ active r key s +ℤ pos 1
  unfolding restore
  active-restore s = rw (r.get_incrby s key (pos 1) key, eq_refl key)

  active-elapse :
      (s : Store) (d : ℕ)
      → expires_within (ttl s key) d ≡ false
      → active r key (elapse s d) ≡ active r key s
  active-elapse s d alive = rw (r.cache.get_elapse s d key, alive)

  -- How the phases of a queue count after a worker has moved.
  abbrev Recounted : List Phase → ℕ → Phase → Phase → Type 0
  Recounted ps i p q =
      (holders (set ps i q) + slot_of p ≡ holders ps + slot_of q)
      × (debts (set ps i q) + debt_of p ≡ debts ps + debt_of q)
      × (credits (set ps i q) + credit_of p ≡ credits ps + credit_of q)

  recount : (ps : List Phase) (i : ℕ) (p q : Phase) → get_elem? ps i ≡ some p → Recounted ps i p q
  recount ps i p q was = (
    tally-set slot_of ps i p q was,
    tally-set debt_of ps i p q was,
    tally-set credit_of ps i p q was,
  )

  Step-IsSound : {s t : Queue} → Step s t → IsSound s → IsSound t
  unfolding is_over is_below
  Step-IsSound {s} (enters i room (was, e)) h = rw e (
      ground (
        arith,
        h.counts,
        active-enter s.store,
        +ℤ_parts (active r key s.store) (pos 1),
        recount s.phases i idle admitted was,
      ))
  Step-IsSound {s} (is_turned_away i over (was, e)) h = rw e (
      ground (
        arith,
        h.counts,
        active-enter s.store,
        +ℤ_parts (active r key s.store) (pos 1),
        recount s.phases i idle rejected was,
      ))
  Step-IsSound {s} (keeps_in i (was, e)) h =
      rw e (ground (arith, h.counts, active-keep s.store, recount s.phases i admitted holding was))
  Step-IsSound {s} (keeps_out i (was, e)) h =
      rw e (ground (arith, h.counts, active-keep s.store, recount s.phases i rejected refused was))
  Step-IsSound {s} (takes_back i (was, e)) h = rw e (
      ground (
        arith,
        h.counts,
        active-leave s.store,
        +ℤ_parts (active r key s.store) (negsuc 0),
        recount s.phases i refused idle was,
      ))
  Step-IsSound {s} (releases i level (was, e)) h = rw e (
      ground (
        arith,
        h.counts,
        active-leave s.store,
        +ℤ_parts (active r key s.store) (negsuc 0),
        recount s.phases i holding idle was,
      ))
  Step-IsSound {s} (comes_below i low (was, e)) h = ground (
    arith,
    h.counts,
    active-leave s.store,
    +ℤ_parts (active r key s.store) (negsuc 0),
    recount s.phases i holding idle was,
  )
  Step-IsSound {s} (restores i (was, e)) h =
      absurd (omega (arith, h.not_below, (recount s.phases i below idle was).2))
  Step-IsSound {s} (waits d alive e) h =
      rw e (ground (arith, h.counts, active-elapse s.store d alive))

  Reach-IsSound : {s t : Queue} → IsSound s → Reach s t → IsSound t
  Reach-IsSound h here = h
  Reach-IsSound h (next p st) = Step-IsSound st (Reach-IsSound h p)

  -- However the workers interleave their commands, as long as the key of the slots does not run out:
  -- from a sound queue there are never more holders than the cap, the counter is the number of the
  -- holders and of those yet to take their count back, and no release comes below 0.
  pub Reach-holders :
      {s t : Queue}
      → IsSound s
      → Reach s t
      → (holders t.phases ≤ cap)
        × (active r key t.store ≡ pos (holders t.phases + debts t.phases))
        × (credits t.phases ≡ 0)
  Reach-holders h p = let v = Reach-IsSound h p in (v.within, v.counts, v.not_below)

  -- One worker alone, at a counter of at least 0, gets a slot exactly when the counter is below the
  -- cap; a refusal leaves the counter as it was, a release after a grant restores it, and one after
  -- a refusal lowers it, but not below 0.
  pub acquire_exact :
      (s : Store) (n : ℕ)
      → active r key s ≡ pos n
      → ((acquire r key cap s).0 ≡ ltb n cap)
        × (active r key (acquire r key cap s).1 ≡ pos (if ltb n cap then n + 1 else n))
        × (active r key (release r key (acquire r key cap s).1)
            ≡ pos (if ltb n cap then n else n - 1))
  unfolding acquire release is_over is_below
  acquire_exact s n e =
      let entered = enter r key s in
      let kept = keep r key entered in
      let back = leave r key kept in
      let facts : active r key entered ≡ pos (n + 1) =
        ground (arith, e, active-enter s, +ℤ_parts (active r key s) (pos 1)) in
      let returned : active r key back ≡ pos n = ground (
        arith,
        facts,
        active-keep entered,
        active-leave kept,
        +ℤ_parts (active r key kept) (negsuc 0),
      ) in
      elim (Bool-cases (ltb n cap)) [
        | inl room ↦ ground (arith, facts, active-keep entered, returned, room)
        | inr full ↦ ground (
          arith,
          facts,
          returned,
          full,
          active-leave back,
          +ℤ_parts (active r key back) (negsuc 0),
          active-keep entered,
          active-restore (leave r key back),
          +ℤ_parts (active r key (leave r key back)) (pos 1),
        )
      ]
