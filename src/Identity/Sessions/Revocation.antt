-- ===== src/Identity/Sessions/Revocation.antt =====
-- What ends a session: logout, and the revocation of all sessions of a user.
use text.Mathlib.TextPositions.{eq_refl}
use lumina_ai.Prelude.{ℕ, suc, ◌≤◌, ◌<◌, String, ◌≡◌, some, true, List, [], ◌∷◌, arith}
use lumina_ai.Prelude.Int.{pos}
use lumina_ai.Redis.{Cache, Counters}
use lumina_ai.Identity.Tokens.{
  Jwt, decode, decode_refresh, AccessClaims, RefreshClaims, ok, raised, token_revoked, access_ttl,
}
use lumina_ai.Identity.Sessions.{
  Passwords, minimum_key, World, Site, refresh, revoke_all_sessions, describe_access_token, later,
}
use lumina_ai.Identity.Users.{User, is_user, get_by_id, update_user, bump_version}

pub get_by_id-is_user :
    (tenant user : String) (us : List User) (u : User)
    → get_by_id tenant user us ≡ some u
    → is_user tenant user u ≡ true
get_by_id-is_user tenant user [] u e = cc
get_by_id-is_user tenant user (x ∷ us) u e = ground (arith, get_by_id-is_user tenant user us u)

pub get_by_id-update_user :
    (tenant user : String) (change : User → User) (us : List User) (u : User)
    → get_by_id tenant user us ≡ some u
    → is_user tenant user (change u) ≡ true
    → get_by_id tenant user (update_user tenant user change us) ≡ some (change u)
get_by_id-update_user tenant user change [] u e same = cc
get_by_id-update_user tenant user change (x ∷ us) u e same =
    ground (arith, get_by_id-update_user tenant user change us u)

module _ (jwt : Jwt) (c : Cache String) (r : Counters) (pw : Passwords) where
  -- After all sessions of a user are revoked: for the seconds that an access token is issued for, an
  -- access token with the version the user had before, or an older one, is refused, and a refresh
  -- token with such a version is refused. Nothing is said of the leeway after these seconds.
  pub revoke_all_sessions_ends :
      (site : Site jwt c r pw) (now d : ℕ) (user : User) (access token a b : String)
      (described : AccessClaims) (claims : RefreshClaims) (w : World jwt c r pw)
      → get_by_id described.tenant_id described.sub w.users ≡ some user
      → decode jwt site.codec now access ≡ ok described
      → described.token_version ≤ user.token_version
      → d < access_ttl
      → decode_refresh jwt site.codec now token ≡ ok claims
      → claims.tenant_id ≡ described.tenant_id
      → claims.sub ≡ described.sub
      → claims.token_version ≤ user.token_version
      → let w1 =
          later jwt c r pw d (revoke_all_sessions jwt c r pw described.tenant_id described.sub w) in
        (describe_access_token jwt c r pw site now access w1 ≡ raised token_revoked)
        × ((refresh jwt c r pw site now a b token w1).1 ≡ raised token_revoked)
  unfolding revoke_all_sessions describe_access_token refresh
  revoke_all_sessions_ends site now d user access token a b described claims w found decoded old
        alive presented tenant same old2 =
      let key = minimum_key described.tenant_id described.sub in
      let s1 = r.cache.set w.numbers key (pos (suc user.token_version)) access_ttl in
      let bumped =
        get_by_id-update_user described.tenant_id described.sub bump_version w.users user found
          (get_by_id-is_user described.tenant_id described.sub w.users user found) in
      ground (
        arith,
        found,
        decoded,
        old,
        alive,
        presented,
        tenant,
        same,
        old2,
        bumped,
        eq_refl key,
        r.cache.get_set w.numbers key (pos (suc user.token_version)) access_ttl key,
        r.cache.ttl_set w.numbers key (pos (suc user.token_version)) access_ttl key,
        r.cache.get_elapse s1 d key,
      )
