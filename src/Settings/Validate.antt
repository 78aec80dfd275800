-- ===== src/Settings/Validate.antt =====
-- `validate_param_sections` of backend/services/knowledge/kb_config.py: a config as a whole, with
-- every error reported at once.
use lumina_ai.Prelude.{String, Option, none, some, List, [], ◌∷◌}
use Prim.Native.String
use mathlib.Core.List
use lumina_ai.Settings.Values.{Value, Outcome, ok, and_then}
use lumina_ai.Settings.Specs.{ParamSpec, Mapping, lookup, sections}
use lumina_ai.Settings.Write.{
  AppSettings, Reason, not_an_object, unknown_section, unknown_parameter, reject_reason,
}

pub record FieldError : Type 0 where
  pub field : String
  pub message : Reason

abbrev pub field_of : String → String → String
field_of prefix name = String.◌++◌ (String.◌++◌ prefix ".") name

abbrev pub error_if : String → Option Reason → List FieldError
error_if field none = []
error_if field (some message) = record { field = field; message = message } ∷ []

-- One key of `_validate_section`.
unfoldable pub validate_key :
    AppSettings
    → String
    → Mapping ParamSpec
    → Mapping Value
    → String
    → Value
    → Outcome (List FieldError)
unfolding lookup reject_reason and_then
validate_key settings prefix specs section key value = elim (lookup key specs) [
  | none ↦ ok (error_if (field_of prefix key) (some unknown_parameter))
  | some spec ↦
      and_then (reject_reason settings specs section spec value)
        (λ reason. ok (error_if (field_of prefix key) reason))
]

-- The loop of `_validate_section` over the entries left; `section` is the whole section, and the
-- prefix is that of the config with the section's name.
unfoldable pub validate_section :
    AppSettings
    → String
    → Mapping ParamSpec
    → Mapping Value
    → Mapping Value
    → Outcome (List FieldError)
unfolding validate_key and_then
validate_section settings prefix specs section [] = ok []
validate_section settings prefix specs section ((key, value) ∷ rest) =
    and_then (validate_key settings prefix specs section key value) (λ here.
      and_then (validate_section settings prefix specs section rest)
        (λ there. ok (List.◌++◌ here there)))

-- What stands under a section's name, and what is sent as a config.
pub data Section : Type 0 where
  object : Mapping Value → Section
  not_object : Section

pub data Config : Type 0 where
  no_config not_mapping : Config
  mapping : Mapping Section → Config

-- A config passes, or fails with every error at once.
pub data Validated : Type 0 where
  accepted : Mapping (Mapping Value) → Validated
  refused : List FieldError → Validated

-- The loop of `validate_param_sections`: the sections kept, and the errors.
unfoldable pub validate_entries :
    AppSettings → String → Mapping Section → Outcome (Mapping (Mapping Value) × List FieldError)
unfolding lookup sections validate_section and_then
validate_entries settings prefix [] = ok ([], [])
validate_entries settings prefix ((name, raw) ∷ rest) =
    let field = field_of prefix name in
    let there = validate_entries settings prefix rest in
    elim (lookup name sections) [
      | none ↦
          and_then there (λ p. ok (p.0, record { field = field; message = unknown_section } ∷ p.1))
      | some specs ↦ elim raw [
        | not_object ↦
            and_then there (λ p. ok (p.0, record { field = field; message = not_an_object } ∷ p.1))
        | object section ↦
            and_then (validate_section settings field specs section section)
              (λ errors. and_then there (λ p. ok ((name, section) ∷ p.0, List.◌++◌ errors p.1)))
      ]
    ]

abbrev pub outcome_of : Mapping (Mapping Value) × List FieldError → Validated
outcome_of (cleaned, []) = accepted cleaned
outcome_of (cleaned, e ∷ es) = refused (e ∷ es)

unfoldable pub validate_param_sections : AppSettings → String → Config → Outcome Validated
unfolding validate_entries and_then
validate_param_sections settings prefix no_config = ok (accepted [])
validate_param_sections settings prefix not_mapping =
    ok (refused (record { field = prefix; message = not_an_object } ∷ []))
validate_param_sections settings prefix (mapping config) =
    and_then (validate_entries settings prefix config) (λ p. ok (outcome_of p))

unfoldable pub validate_kb_config : AppSettings → Config → Outcome Validated
unfolding validate_param_sections
validate_kb_config settings config = validate_param_sections settings "config" config
