-- ===== src/Identity/Sessions/Login.antt =====
-- Login: its refusals, and the session that it opens.
use text.Mathlib.Text.{◌==◌}
use text.Mathlib.TextPositions.{eq_refl}
use lumina_ai.Prelude.{
  ℕ, ◌+◌, ◌<◌, String, ◌≡◌, inl, inr, refl, Option, none, some, Bool, true, false, ◌&&◌, Bool-cases,
  ◌∙◌, arith,
}
use lumina_ai.Redis.{Cache, Counters}
use lumina_ai.Identity.Tokens.{
  Jwt, issue_access, issue_refresh, public_key_of, ok, raised, invalid_credentials, refresh_ttl,
  refresh_payload, decode_refresh-issue_refresh,
}
use lumina_ai.Identity.Rotation.{family_key, seconds_until}
use lumina_ai.Identity.Rotation.Grace.{rotate_family_current}
use lumina_ai.Identity.Attempts.{ensure_not_locked, record_password_failure}
use lumina_ai.Identity.Sessions.{
  Passwords, logged_in, TokenPair, World, Site, login, refresh, later,
}
use lumina_ai.Identity.Users.{User, get_by_email, is_user, get_by_id}
use lumina_ai.Identity.Sessions.Revocation.{get_by_id-is_user, get_by_id-update_user}

module _ (jwt : Jwt) (c : Cache String) (r : Counters) (pw : Passwords) where
  -- Is this a known, active user with the right password?
  abbrev pub has_access : String → Option User → Bool
  has_access password none = false
  has_access password (some u) = pw.verify_password password u.password_hash && u.status == "active"

  -- On an account that is not locked, an unknown email, a wrong password and a user who is not
  -- active are refused alike: the same error, one more failure counted, and no change to the users
  -- or the sessions.
  login_refused :
      (site : Site jwt c r pw) (now : ℕ) (a b family tenant email password : String)
      (w : World jwt c r pw)
      → ensure_not_locked r site.login_limits tenant email w.numbers ≡ none
      → has_access password (get_by_email tenant email w.users) ≡ false
      → let result = login jwt c r pw site now a b family tenant email password w in
        (result.1 ≡ raised invalid_credentials)
        × (result.0.numbers ≡ record_password_failure r site.login_limits tenant email w.numbers)
        × (result.0.users ≡ w.users)
        × (result.0.texts ≡ w.texts)
  unfolding login
  login_refused site now a b family tenant email password w unlocked denied =
      ground (arith, unlocked, denied)

  logged_in-keeps :
      (now : ℕ) (password tenant user : String) (u : User)
      → let seen = logged_in jwt c r pw now password u in
        (is_user tenant user seen ≡ is_user tenant user u)
        × (seen.status ≡ u.status)
        × (seen.token_version ≡ u.token_version)
        × (seen.roles ≡ u.roles)
  unfolding logged_in
  logged_in-keeps now password tenant user u = elim (Bool-cases (pw.needs_rehash u.password_hash)) [
    | inl e ↦ rw e (refl, refl, refl, refl)
    | inr e ↦ rw e (refl, refl, refl, refl)
  ]

  -- A login of an active user, who is found by the email and by the id, with the right password and
  -- no lock is granted, and the refresh
  -- token it hands out can be exchanged once its moment has come and until it expires, when the
  -- codec has the public half of its active key and the payload of the token serialises.
  pub refresh-login :
      (site : Site jwt c r pw) (now d : ℕ)
      (a b x y family tenant email password public_key : String) (u : User) (w : World jwt c r pw)
      → ensure_not_locked r site.login_limits tenant email w.numbers ≡ none
      → get_by_email tenant email w.users ≡ some u
      → get_by_id tenant u.id w.users ≡ some u
      → pw.verify_password password u.password_hash ≡ true
      → (u.status == "active") ≡ true
      → public_key_of site.codec.public_keys site.codec.active_kid ≡ some public_key
      → jwt.Pair site.codec.private_key_pem public_key
      → jwt.Serialises (refresh_payload jwt now b u.id tenant family u.token_version)
      → d < refresh_ttl
      → let opened = login jwt c r pw site now a b family tenant email password w in
        (pair : TokenPair) × (opened.1 ≡ ok pair)
        × ((next : TokenPair) × ((refresh jwt c r pw site
                (now + d)
                x
                y
                pair.refresh_token
                (later jwt c r pw d opened.0)).1
              ≡ ok next))
  unfolding login refresh issue_refresh
  refresh-login site now d a b x y family tenant email password public_key u w unlocked found same
        right active known pair serialises alive =
      let fam = family_key tenant family in
      let life = seconds_until now (now + refresh_ttl) in
      let s1 = c.set w.texts fam b life in
      let claims =
        (decode_refresh-issue_refresh jwt site.codec public_key now (now + d) b u.id tenant family
          u.token_version known pair serialises (omega arith)).0 in
      let first = issue_refresh jwt site.codec now b u.id tenant family u.token_version in
      let access = issue_access jwt site.codec now a u.id tenant u.roles u.token_version in
      let second = issue_refresh jwt site.codec (now + d) y u.id tenant family u.token_version in
      let access2 = issue_access jwt site.codec (now + d) x u.id tenant u.roles u.token_version in
      let here : c.get (c.elapse s1 d) fam ≡ some b = ground (
        arith,
        alive,
        eq_refl fam,
        c.get_set w.texts fam b life fam (omega arith),
        c.ttl_set w.texts fam b life fam (omega arith),
        c.get_elapse s1 d fam,
      ) in
      let kept = logged_in-keeps now password tenant u.id u in
      let user =
        get_by_id-update_user tenant u.id (logged_in jwt c r pw now password) w.users u same
          (kept.0 ∙ get_by_id-is_user tenant u.id w.users u same) in
      let rotated =
        rotate_family_current c (now + d) site.grace_seconds tenant family b second (c.elapse s1 d)
          here in
      (
        record {
          access_token = access.token;
          refresh_token = first.token;
          expires_at = access.expires_at;
        },
        ground (arith, unlocked, found, right, active),
        (
          record {
            access_token = access2.token;
            refresh_token = second.token;
            expires_at = access2.expires_at;
          },
          ground (
            arith, unlocked, found, right, active, claims, alive, here, user, kept.1, kept.2,
            kept.3, rotated,
          ),
        ),
      )
