-- ===== src/Quota/Plan.antt =====
-- The limits of a tenant: `_parse_plan` and `resolve_limits` of
-- backend/services/platform/quota.py. `int(text)` is a parameter: `none` is its `ValueError`.
pub mod Entries
pub mod Overrides
use lumina_ai.Prelude.{
  ℕ, String, ◌≡◌, refl, Bool, Option, none, some, List, [], ◌∷◌, ◌++◌, ◌==◌, if◌then◌else◌,
}
use lumina_ai.Prelude.Int.{ℤ, pos, negsuc}
use lumina_ai.Prelude.Texts.{Text, is_empty, split_on, strip, same_text, codes}
use lumina_ai.Quota.Resource.{Resource, name, same, of_name}

-- `entry.partition(":")`: the parts before and after the first colon.
abbrev pub colon : ℕ
colon = b':'

abbrev pub semicolon : ℕ
semicolon = b';'

pub before_colon : Text → Text
before_colon [] = []
before_colon (c ∷ t) = if c == colon then [] else c ∷ before_colon t

pub after_colon : Text → Text
after_colon [] = []
after_colon (c ∷ t) = if c == colon then t else after_colon t

-- A dictionary of limits, newest entry first.
abbrev pub Table : Type 0
Table = List (Text × ℕ)

pub lookup : Text → Table → Option ℕ
lookup k [] = none
lookup k ((j, v) ∷ d) = if same_text j k then some v else lookup k d

-- What the JSON of a tenant's settings can hold for one resource.
pub data Json : Type 0 where
  null : Json
  bool : Bool → Json
  int : ℤ → Json
  other : Json

module _ (parse_int : Text → Option ℤ) where
  -- One entry of the plan; a bad one leaves the table as it is.
  add_entry : Table → Text → Table
  add_entry limits raw =
      let entry = strip raw in
      if is_empty entry then limits else elim (parse_int (strip (after_colon entry))) [
        | none ↦ limits
        | some (negsuc n) ↦ limits
        | some (pos value) ↦ (strip (before_colon entry), value) ∷ limits
      ]

  add_entries : Table → List Text → Table
  add_entries limits [] = limits
  add_entries limits (entry ∷ entries) = add_entries (add_entry limits entry) entries

  pub parse_plan : Text → Table
  parse_plan raw = add_entries [] (split_on semicolon raw)

-- `limits[name]` for each of the five resources; `none` is no limit.
abbrev pub Limits : Type 0
Limits = Resource → Option ℕ

-- What a value makes of a limit: null lifts it, an integer of at least 0 replaces it, and any
-- other value, a Boolean among them, keeps it.
unfoldable pub overridden : Json → Option ℕ → Option ℕ
overridden null limit = none
overridden (int (pos n)) limit = some n
overridden _ limit = limit

-- One override; the name of no resource is passed over.
unfoldable pub override_named : Limits → Option Resource → Json → Limits
override_named limits none value q = limits q
override_named limits (some r) value q = if same r q then overridden value (limits q) else limits q

pub override_all : Limits → List (String × Json) → Limits
override_all limits [] = limits
override_all limits ((key, value) ∷ os) =
    override_all (override_named limits (of_name key) value) os

unfoldable pub resolve_limits : Table → List (String × Json) → Limits
unfolding override_all override_named overridden
resolve_limits plan overrides = override_all (λ r. lookup (codes (name r)) plan) overrides
