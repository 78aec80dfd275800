-- ===== src/Identity/Rotation/Grace.antt =====
-- Requests that present one refresh token: one of them rotates it, those within the grace window
-- get the token of that one, and a later one ends the family.
use Prim.Native.Char.{code}
use text.Mathlib.TextPositions.{eq_refl}
use lumina_ai.Prelude.{
  ℕ, ◌≤◌, ◌<◌, String, ◌≡◌, ◌≢◌, refl, none, some, ltb, arith, eq_iff, if◌then◌else◌, ap, suc,
  length, replicate, ◌⊎◌, inl, inr, List, [], ◌∷◌,
}
use lumina_ai.Redis.{Cache}
use lumina_ai.Redis.Keys.{tenant_key-ne_first}
use lumina_ai.Identity.Tokens.{IssuedToken, token_revoked, Checked, ok, raised}
use lumina_ai.Identity.Rotation.{family_key, rotated_key, seconds_until, rotate, rotate_family}

family_key-ne : (tenant family jti : String) → family_key tenant family ≢ rotated_key tenant jti
family_key-ne tenant family jti =
    tenant_key-ne_first tenant "refresh-" "f" "r" "amily" "otated" (family ∷ []) (jti ∷ [])
      (λ e. omega (arith, ap code e))

module _ (c : Cache String) where
  open c use {Store, get, ttl, set, elapse}

  -- The store after a rotation and `d` more seconds, within the life of the new token.
  module _ (k rk p fresh token : String) (life seconds d : ℕ) (s : Store)
      (current : get s k ≡ some p) (apart : k ≢ rk) (alive : d < life) where
    abbrev after : Store
    after = elapse (rotate c k rk p fresh life token seconds s).0 d

    after-family : get after k ≡ some fresh
    unfolding rotate
    after-family = ground (
      arith,
      current,
      eq_refl p,
      eq_iff k rk,
      eq_iff rk k,
      eq_refl k,
      c.get_set s k fresh life k (omega (arith, alive)),
      c.ttl_set s k fresh life k (omega (arith, alive)),
      c.get_set (set s k fresh life) rk token seconds k,
      c.ttl_set (set s k fresh life) rk token seconds k,
      c.get_elapse (rotate c k rk p fresh life token seconds s).0 d k,
    )

    after-record :
        get s rk ≡ none ⊎ (d < seconds)
        → get after rk ≡ (if ltb d seconds then some token else none)
    unfolding rotate
    after-record h = ground (
      arith,
      current,
      eq_refl p,
      eq_iff k rk,
      eq_refl rk,
      h,
      c.get_set s k fresh life rk (omega (arith, alive)),
      c.get_set (set s k fresh life) rk token seconds rk,
      c.ttl_set (set s k fresh life) rk token seconds rk,
      c.get_elapse (rotate c k rk p fresh life token seconds s).0 d rk,
    )

  -- The holder of the current token rotates it.
  pub rotate_family_current :
      (now seconds : ℕ) (tenant family jti : String) (issued : IssuedToken) (s : Store)
      → get s (family_key tenant family) ≡ some jti
      → (rotate_family c now seconds tenant family jti issued s).1 ≡ ok issued.token
  unfolding rotate_family rotate
  rotate_family_current now seconds tenant family jti issued s e = ground (arith, e, eq_refl jti)

  -- After a rotation to a token with a new identifier, a second request with the old token that
  -- arrives within the grace window and the life of the new token gets the new token, and changes
  -- nothing.
  rotate_family_grace :
      (now seconds d later : ℕ) (tenant family jti : String) (first second : IssuedToken)
      (s : Store)
      → get s (family_key tenant family) ≡ some jti
      → first.jti ≢ jti
      → d < seconds
      → d < seconds_until now first.expires_at
      → let s1 = elapse (rotate_family c now seconds tenant family jti first s).0 d in
        rotate_family c later seconds tenant family jti second s1 ≡ (s1, ok first.token)
  unfolding rotate_family rotate
  rotate_family_grace now seconds d later tenant family jti first second s e fresh window alive =
      let k = family_key tenant family in
      let rk = rotated_key tenant jti in
      let life = seconds_until now first.expires_at in
      let f =
        after-family k rk jti first.jti first.token life seconds d s e
          (family_key-ne tenant family jti) alive in
      let g =
        after-record k rk jti first.jti first.token life seconds d s e
          (family_key-ne tenant family jti) alive (inr window) in
      ground (arith, f, g, fresh, eq_iff first.jti jti)

  -- After a rotation to a token with a new identifier, of a token with no record of an exchange
  -- before, the old token presented again at the end of the grace window or later, within the life
  -- of the new token, is refused and ends the family: the new token is refused as well.
  pub rotate_family_replay :
      (now seconds d later : ℕ) (tenant family jti : String) (first second third : IssuedToken)
      (s : Store)
      → get s (family_key tenant family) ≡ some jti
      → first.jti ≢ jti
      → get s (rotated_key tenant jti) ≡ none
      → seconds ≤ d
      → d < seconds_until now first.expires_at
      → let s1 = elapse (rotate_family c now seconds tenant family jti first s).0 d in
        let s2 = rotate_family c later seconds tenant family jti second s1 in
        (s2.1 ≡ raised token_revoked)
        × (get s2.0 (family_key tenant family) ≡ none)
        × ((rotate_family c later seconds tenant family first.jti third s2.0).1
            ≡ raised token_revoked)
  unfolding rotate_family rotate
  rotate_family_replay now seconds d later tenant family jti first second third s e fresh unrecorded
        late alive =
      let k = family_key tenant family in
      let rk = rotated_key tenant jti in
      let life = seconds_until now first.expires_at in
      let s1 =
        after k rk jti first.jti first.token life seconds d s e (family_key-ne tenant family jti)
          alive in
      let f =
        after-family k rk jti first.jti first.token life seconds d s e
          (family_key-ne tenant family jti) alive in
      let g =
        after-record k rk jti first.jti first.token life seconds d s e
          (family_key-ne tenant family jti) alive (inl unrecorded) in
      ground (arith, f, g, fresh, late, eq_iff first.jti jti, eq_refl k, c.get_delete s1 k k)

  -- Requests that present the same token one after the other, each with the token minted for it.
  abbrev pub race :
      (now seconds : ℕ) (tenant family jti : String)
      → List IssuedToken
      → Store
      → List (Checked String)
  race now seconds tenant family jti [] s = []
  race now seconds tenant family jti (t ∷ ts) s =
      let answer = rotate_family c now seconds tenant family jti t s in
      answer.1 ∷ race now seconds tenant family jti ts answer.0

  race-settled :
      (now seconds : ℕ) (tenant family jti fresh token : String) (ts : List IssuedToken) (s : Store)
      → get s (family_key tenant family) ≡ some fresh
      → fresh ≢ jti
      → get s (rotated_key tenant jti) ≡ some token
      → race now seconds tenant family jti ts s ≡ replicate (length ts) (ok token)
  unfolding rotate_family rotate
  race-settled now seconds tenant family jti fresh token [] s e n g = refl
  race-settled now seconds tenant family jti fresh token (t ∷ ts) s e n g = ground (
    arith,
    e,
    g,
    n,
    eq_iff fresh jti,
    race-settled now seconds tenant family jti fresh token ts s e n g,
  )

  -- Requests that present the current token of a family at the same moment, with a grace window:
  -- all of them are handed the token minted for the first, whose identifier is a new one.
  pub rotate_family_race :
      (now seconds : ℕ) (tenant family jti : String) (first : IssuedToken)
      (others : List IssuedToken) (s : Store)
      → get s (family_key tenant family) ≡ some jti
      → first.jti ≢ jti
      → 0 < seconds
      → race now seconds tenant family jti (first ∷ others) s
        ≡ replicate (suc (length others)) (ok first.token)
  unfolding rotate_family rotate
  rotate_family_race now seconds tenant family jti first others s e fresh window =
      let k = family_key tenant family in
      let rk = rotated_key tenant jti in
      let s0 = (rotate_family c now seconds tenant family jti first s).0 in
      let life = seconds_until now first.expires_at in
      let alive : 0 < life = omega arith in
      ground (
        arith,
        e,
        eq_refl jti,
        race-settled now seconds tenant family jti first.jti first.token others s0
            (ground (
              arith,
              e,
              window,
              eq_refl jti,
              eq_refl k,
              family_key-ne tenant family jti,
              eq_iff rk k,
              c.get_set s k first.jti life k alive,
              c.get_set (set s k first.jti life) rk first.token seconds k window,
            ))
            fresh
            (ground (
              arith,
              e,
              window,
              eq_refl jti,
              eq_refl rk,
              c.get_set (set s k first.jti life) rk first.token seconds rk window,
            )),
      )
