-- ===== src/Identity/Rotation.antt =====
-- The script `_ROTATE_LUA` and the part of `_rotate_family` around it, in
-- backend/services/identity/auth.py: the refresh tokens of one family.
pub mod Grace
use text.Mathlib.Text.{◌==◌}
use lumina_ai.Prelude.{ℕ, ◌-◌, String, Option, none, some, [], ◌∷◌, ltb, max, if◌then◌else◌}
use lumina_ai.Redis.{Cache, tenant_key}
use lumina_ai.Identity.Tokens.{IssuedToken, AuthError, token_revoked, Checked, ok, raised}

abbrev pub family_key : String → String → String
family_key tenant_id family_id = tenant_key tenant_id ("refresh-family" ∷ family_id ∷ [])

abbrev pub rotated_key : String → String → String
rotated_key tenant_id jti = tenant_key tenant_id ("refresh-rotated" ∷ jti ∷ [])

-- `_seconds_until`.
abbrev pub seconds_until : ℕ → ℕ → ℕ
seconds_until now moment = max (moment - now) 1

-- What the script returns.
pub data Rotation : Type 0 where
  rotated replay revoked : Rotation
  grace : String → Rotation

module _ (c : Cache String) where
  open c use {Store, get, set, delete}

  keep_for_grace : String → String → ℕ → Store → Store
  keep_for_grace record_key token seconds s =
      if ltb 0 seconds then set s record_key token seconds else s

  -- KEYS[1], KEYS[2], ARGV[1] … ARGV[5], on the store.
  unfoldable pub rotate :
      (family record_key presented fresh : String) → ℕ → String → ℕ → Store → Store × Rotation
  unfolding keep_for_grace
  rotate family record_key presented fresh life token seconds s = elim (get s family) [
    | none ↦ (s, revoked)
    | some current ↦
        if current == presented
        then (keep_for_grace record_key token seconds (set s family fresh life), rotated)
        else elim (get s record_key) [
          | some handed_out ↦ (s, grace handed_out)
          | none ↦ (delete s family, replay)
        ]
  ]

  -- `_rotate_family`: the token to hand out.
  handed : String → Rotation → Checked String
  handed token rotated = ok token
  handed token (grace handed_out) = ok handed_out
  handed token revoked = raised token_revoked
  handed token replay = raised token_revoked

  unfoldable pub rotate_family :
      (now grace_seconds : ℕ) (tenant_id family_id presented : String)
      → IssuedToken
      → Store
      → Store × Checked String
  unfolding rotate handed
  rotate_family now grace_seconds tenant_id family_id presented issued s =
      let outcome =
        rotate (family_key tenant_id family_id) (rotated_key tenant_id presented) presented
          issued.jti (seconds_until now issued.expires_at) issued.token grace_seconds s in
      (outcome.0, handed issued.token outcome.1)
