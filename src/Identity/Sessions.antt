-- ===== src/Identity/Sessions.antt =====
-- `AuthService` of backend/services/identity/auth.py: login, refresh, logout, revocation and the
-- check of an access token, on the users of Identity.Users. The hashing of
-- passwords (backend/common/passwords.py calls a library for it) is a parameter.
pub mod Revocation
pub mod Login
use text.Mathlib.Text.{◌==◌}
use lumina_ai.Prelude.{
  ℕ, suc, ◌+◌, ◌-◌, String, Bool, true, false, ◌||◌, not, Option, none, some, List, [], ◌∷◌, ltb,
  if◌then◌else◌,
}
use lumina_ai.Prelude.Int.{ℤ, pos, ltb_ℤ}
use lumina_ai.Redis.{Cache, Counters, tenant_key, is_some}
use lumina_ai.Identity.Tokens.{
  Jwt, TokenCodec, issue_access, issue_refresh, decode, decode_refresh, AccessClaims, RefreshClaims,
  IssuedToken, AuthError, Checked, ok, raised, invalid_credentials, token_revoked, account_locked,
  access_ttl,
}
use lumina_ai.Identity.Users.{User, get_by_email, is_user, get_by_id, update_user, bump_version}
use lumina_ai.Identity.Rotation.{rotate_family, family_key, seconds_until}
use lumina_ai.Identity.Attempts.{
  LoginLimits, ensure_not_locked, record_password_failure, clear_password_failures,
}

pub record Passwords : Type 0 where
  pub verify_password : String → String → Bool
  pub hash_password : String → String
  pub needs_rehash : String → Bool

pub data Outcome : Type 0 where
  succeeded failed : Outcome

-- A row of the audit log for `auth.login`.
pub record LoginAudit : Type 0 where
  pub tenant_id : String
  pub actor_id : Option String
  pub outcome : Outcome

pub record TokenPair : Type 0 where
  pub access_token : String
  pub refresh_token : String
  pub expires_at : ℕ

abbrev pub denied_key : String → String → String
denied_key tenant_id jti = tenant_key tenant_id ("jti-denied" ∷ jti ∷ [])

abbrev pub minimum_key : String → String → String
minimum_key tenant_id user_id = tenant_key tenant_id ("min-token-version" ∷ user_id ∷ [])

module _ (jwt : Jwt) (c : Cache String) (r : Counters) (pw : Passwords) where
  -- The keys with texts and those with numbers stand apart; `users` and `audit` are tables.
  pub record World : Type 0 where
    pub texts : c.Store
    pub numbers : r.cache.Store
    pub users : List User
    pub audit : List LoginAudit

  -- What a service is set up with, and the settings it reads.
  pub record Site : Type 0 where
    pub codec : TokenCodec jwt
    pub login_limits : LoginLimits
    pub grace_seconds : ℕ

  audit_login : String → Option String → Outcome → World → World
  audit_login tenant_id actor_id outcome w = record w {
    audit = record { tenant_id = tenant_id; actor_id = actor_id; outcome = outcome } ∷ w.audit;
  }

  -- `_issue_pair`, with the identifiers that `uuid4` draws.
  unfoldable pub issue_pair :
      Site
      → (now : ℕ) (access_jti refresh_jti tenant_id user_id : String) → List String
      → ℕ
      → String
      → World
      → World × TokenPair
  issue_pair site now access_jti refresh_jti tenant_id user_id roles token_version family_id w =
      let access =
        issue_access jwt site.codec now access_jti user_id tenant_id roles token_version in
      let refresh =
        issue_refresh jwt site.codec now refresh_jti user_id tenant_id family_id token_version in
      (
        record w {
          texts =
              c.set w.texts (family_key tenant_id family_id) refresh.jti
                (seconds_until now refresh.expires_at);
        },
        record {
          access_token = access.token;
          refresh_token = refresh.token;
          expires_at = access.expires_at;
        },
      )

  -- A missing user is checked against a dummy hash, and refused like a wrong password.
  dummy_hash : String
  dummy_hash = pw.hash_password "timing-equalizer-not-a-real-password"

  is_authentic : Option User → String → Bool
  unfolding dummy_hash
  is_authentic none password = let checked = pw.verify_password password dummy_hash in false
  is_authentic (some u) password =
      if pw.verify_password password u.password_hash then u.status == "active" else false

  user_id_of : Option User → Option String
  user_id_of none = none
  user_id_of (some u) = some u.id

  -- The two updates of a login that succeeds.
  unfoldable pub logged_in : ℕ → String → User → User
  logged_in now password u =
      let seen = record u { last_login_at = some now } in
      if pw.needs_rehash u.password_hash
      then record seen { password_hash = pw.hash_password password }
      else seen

  refuse_login : Site → String → String → Option User → World → World × Checked TokenPair
  unfolding audit_login user_id_of
  refuse_login site tenant_id email user w = (
    audit_login tenant_id (user_id_of user) failed record w {
      numbers = record_password_failure r site.login_limits tenant_id email w.numbers;
    },
    raised invalid_credentials,
  )

  accept_login :
      Site
      → ℕ
      → (access_jti refresh_jti family_id tenant_id email password : String) → User
      → World
      → World × Checked TokenPair
  unfolding audit_login issue_pair logged_in
  accept_login site now access_jti refresh_jti family_id tenant_id email password u w =
      let w1 = record w {
        users = update_user tenant_id u.id (logged_in now password) w.users;
        numbers = clear_password_failures r tenant_id email w.numbers;
      } in
      let w2 = audit_login tenant_id (some u.id) succeeded w1 in
      let issued =
        issue_pair site now access_jti refresh_jti tenant_id u.id u.roles u.token_version family_id
          w2 in
      (issued.0, ok issued.1)

  unfoldable pub login :
      Site
      → ℕ
      → (access_jti refresh_jti family_id tenant_id email password : String) → World
      → World × Checked TokenPair
  unfolding refuse_login accept_login is_authentic
  login site now access_jti refresh_jti family_id tenant_id email password w =
      let user = get_by_email tenant_id email w.users in
      elim (ensure_not_locked r site.login_limits tenant_id email w.numbers) [
        | some seconds ↦ (w, raised (account_locked seconds))
        | none ↦ elim user [
          | none ↦ refuse_login site tenant_id email none w
          | some u ↦
              if is_authentic (some u) password
              then accept_login site now access_jti refresh_jti family_id tenant_id email password u
                  w
              else refuse_login site tenant_id email (some u) w
        ]
      ]

  refresh_user :
      Site
      → ℕ
      → (access_jti refresh_jti : String) → RefreshClaims
      → User
      → World
      → World × Checked TokenPair
  refresh_user site now access_jti refresh_jti claims user w =
      let access =
        issue_access jwt site.codec now access_jti claims.sub claims.tenant_id user.roles
          user.token_version in
      let issued =
        issue_refresh jwt site.codec now refresh_jti claims.sub claims.tenant_id claims.family_id
          user.token_version in
      let rotation =
        rotate_family c now site.grace_seconds claims.tenant_id claims.family_id claims.jti issued
          w.texts in
      let w1 = record w { texts = rotation.0 } in
      elim rotation.1 [
        | raised e ↦ (w1, raised e)
        | ok token ↦ (
          w1,
          ok record {
            access_token = access.token;
            refresh_token = token;
            expires_at = access.expires_at;
          },
        )
      ]

  refresh_claims :
      Site
      → ℕ
      → (access_jti refresh_jti : String) → RefreshClaims
      → World
      → World × Checked TokenPair
  unfolding refresh_user
  refresh_claims site now access_jti refresh_jti claims w =
      let family = family_key claims.tenant_id claims.family_id in
      elim (c.get w.texts family) [
        | none ↦ (w, raised token_revoked)
        | some current ↦ elim (get_by_id claims.tenant_id claims.sub w.users) [
          | none ↦ (w, raised token_revoked)
          | some user ↦
              if not (user.status == "active")
              then (w, raised token_revoked)
              else if ltb user.token_version claims.token_version
                  || ltb claims.token_version user.token_version
              then (record w { texts = c.delete w.texts family }, raised token_revoked)
              else refresh_user site now access_jti refresh_jti claims user w
        ]
      ]

  unfoldable pub refresh :
      Site → ℕ → (access_jti refresh_jti token : String) → World → World × Checked TokenPair
  unfolding refresh_claims
  refresh site now access_jti refresh_jti token w = elim (decode_refresh jwt site.codec now token) [
    | raised e ↦ (w, raised e)
    | ok claims ↦ refresh_claims site now access_jti refresh_jti claims w
  ]

  -- The access token is denied for the rest of its life; an undecodable refresh token is ignored.
  end_family : Site → ℕ → Option String → World → World
  end_family site now none w = w
  end_family site now (some token) w = elim (decode_refresh jwt site.codec now token) [
    | raised e ↦ w
    | ok claims ↦ record w {
      texts = c.delete w.texts (family_key claims.tenant_id claims.family_id);
    }
  ]

  -- `begun` are the seconds that have begun: `int` drops the part of a second that is left over.
  deny : ℕ → String → String → ℕ → World → World
  deny begun tenant_id jti access_expires_at w =
      if ltb begun access_expires_at
      then record w {
        texts = c.set w.texts (denied_key tenant_id jti) "1" (access_expires_at - begun);
      }
      else w

  -- `partial` says that the clock stands between two seconds.
  unfoldable pub logout :
      Site → ℕ → Bool → (tenant_id jti : String) → ℕ → Option String → World → World
  unfolding deny end_family
  logout site now partial tenant_id jti access_expires_at refresh_token w =
      end_family site now refresh_token
        (deny (now + (if partial then 1 else 0)) tenant_id jti access_expires_at w)

  version_or_one : Option User → ℕ
  version_or_one none = 1
  version_or_one (some u) = u.token_version

  unfoldable pub bump_token_version : (tenant_id user_id : String) → World → World
  bump_token_version tenant_id user_id w = record w {
    users = update_user tenant_id user_id bump_version w.users;
  }

  unfoldable pub revoke_all_sessions : (tenant_id user_id : String) → World → World
  unfolding bump_token_version version_or_one
  revoke_all_sessions tenant_id user_id w =
      let bumped = bump_token_version tenant_id user_id w in
      let minimum = version_or_one (get_by_id tenant_id user_id bumped.users) in
      record bumped {
        numbers = r.cache.set w.numbers (minimum_key tenant_id user_id) (pos minimum) access_ttl;
      }

  below : ℕ → Option ℤ → Bool
  below version none = false
  below version (some minimum) = ltb_ℤ (pos version) minimum

  unfoldable pub describe_access_token : Site → ℕ → String → World → Checked AccessClaims
  unfolding below
  describe_access_token site now token w = elim (decode jwt site.codec now token) [
    | raised e ↦ raised e
    | ok claims ↦
        if is_some (c.get w.texts (denied_key claims.tenant_id claims.jti))
        then raised token_revoked
        else if below claims.token_version
            (r.cache.get w.numbers (minimum_key claims.tenant_id claims.sub))
        then raised token_revoked
        else ok claims
  ]

  -- The passing of time on the server.
  abbrev pub later : ℕ → World → World
  later d w = record w { texts = c.elapse w.texts d; numbers = r.cache.elapse w.numbers d }
