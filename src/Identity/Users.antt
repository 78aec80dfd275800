-- ===== src/Identity/Users.antt =====
-- The table of users, as `UserRepository` of backend/repositories/identity.py reads and updates it.
use text.Mathlib.Text.{◌==◌}
use lumina_ai.Prelude.{
  ℕ, suc, String, Bool, false, Option, none, some, List, [], ◌∷◌, if◌then◌else◌,
}

pub record User : Type 0 where
  pub id : String
  pub tenant_id : String
  pub email : String
  pub password_hash : String
  pub status : String
  pub token_version : ℕ
  pub roles : List String
  pub last_login_at : Option ℕ

-- The first user of the tenant with this email or this id (`get_by_email`, `get_by_id`).
abbrev pub get_by_email : String → String → List User → Option User
get_by_email tenant_id email [] = none
get_by_email tenant_id email (u ∷ us) =
    if u.tenant_id == tenant_id
    then (if u.email == email then some u else get_by_email tenant_id email us)
    else get_by_email tenant_id email us

abbrev pub is_user : String → String → User → Bool
is_user tenant_id user_id u = if u.tenant_id == tenant_id then u.id == user_id else false

abbrev pub get_by_id : String → String → List User → Option User
get_by_id tenant_id user_id [] = none
get_by_id tenant_id user_id (u ∷ us) =
    if is_user tenant_id user_id u then some u else get_by_id tenant_id user_id us

-- An update of the rows with this id (`bump_token_version` and its like).
abbrev pub update_user : String → String → (User → User) → List User → List User
update_user tenant_id user_id change [] = []
update_user tenant_id user_id change (u ∷ us) =
    (if is_user tenant_id user_id u then change u else u) ∷ update_user tenant_id user_id change us

abbrev pub bump_version : User → User
bump_version u = record u { token_version = suc u.token_version }
