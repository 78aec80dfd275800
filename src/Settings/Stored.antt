-- ===== src/Settings/Stored.antt =====
-- A stored setting is the setting that is read: `validate_param_sections` and `read_param` of
-- backend/services/knowledge/kb_config.py composed.
use lumina_ai.Prelude.{
  ℕ, suc, ◌≡◌, refl, ◌∙◌, sym, String, Option, none, some, List, [], ◌∷◌, arith,
}
use lumina_ai.Prelude.Int.{ℤ, ◌≤ℤ◌}
use lumina_ai.Settings.Values.{Value, Outcome, int, number, ok, raised, and_then}
use lumina_ai.Settings.Specs.{ParamSpec, Mapping, lookup}
use lumina_ai.Settings.Write.{AppSettings, Reason, reject_reason, ceiling_written}
use lumina_ai.Settings.Validate.{error_if, field_of, validate_key, validate_section}
use lumina_ai.Settings.Read.{accept, ceiling_read, read_param}
use lumina_ai.Settings.Bounds.{int_spec, read_layers_accepted, read_param_found}
use lumina_ai.Settings.Agreement.{validate_section_key, accept_written}

no_error :
    (field : String) (o : Outcome (Option Reason))
    → and_then o (λ reason. ok (error_if field reason)) ≡ ok []
    → o ≡ ok none
unfolding and_then
no_error field raised e = ground arith
no_error field (ok none) e = refl
no_error field (ok (some r)) e = ground arith

pub key_passes :
    (settings : AppSettings) (prefix : String) (specs : Mapping ParamSpec) (section : Mapping Value)
    (key : String) (spec : ParamSpec) (value : Value)
    → validate_section settings prefix specs section section ≡ ok []
    → lookup key specs ≡ some spec
    → lookup key section ≡ some value
    → reject_reason settings specs section spec value ≡ ok none
unfolding validate_key
key_passes settings prefix specs section key spec value clean known found =
    no_error (field_of prefix key) (reject_reason settings specs section spec value) (
      sym (rw (known, validate_key) refl)
      ∙ validate_section_key settings prefix specs section section key value clean found)

-- The first layer's value, once it is accepted unchanged.
pub read_first :
    (depth : ℕ) (settings : AppSettings) (specs : Mapping ParamSpec) (key : String)
    (section : Mapping Value) (rest : List (Mapping Value)) (spec : ParamSpec) (value : Value)
    → lookup key specs ≡ some spec
    → lookup key section ≡ some value
    → accept (λ k. read_param depth settings specs k (section ∷ rest)) specs spec value
      ≡ ok (some value)
    → read_param (suc depth) settings specs key (section ∷ rest) ≡ ok value
read_first depth settings specs key section rest spec value known found accepted =
    read_param_found depth settings specs key (section ∷ rest) spec known
    ∙ read_layers_accepted (λ (k : String). read_param depth settings specs k (section ∷ rest))
        settings specs spec key section rest value value found accepted

-- In a section that passes validation, an int parameter with limits that no other parameter moves
-- is read as it was written, whatever the layers below hold; and it is within its limits.
pub stored_is_read :
    (depth : ℕ) (settings : AppSettings) (prefix : String) (specs : Mapping ParamSpec)
    (section : Mapping Value) (rest : List (Mapping Value)) (key attr : String) (low high : ℤ)
    (value : Value)
    → validate_section settings prefix specs section section ≡ ok []
    → lookup key specs ≡ some (int_spec attr low (some (int high)) none)
    → lookup key section ≡ some value
    → (read_param (suc depth) settings specs key (section ∷ rest) ≡ ok value)
      × ((z : ℤ) × ((value ≡ number (int z)) × (low ≤ℤ z) × (z ≤ℤ high)))
unfolding ceiling_written ceiling_read
stored_is_read depth settings prefix specs section rest key attr low high value clean known found =
    let spec = int_spec attr low (some (int high)) none in
    let (accepted, inside) =
      accept_written settings (λ (k : String). read_param depth settings specs k (section ∷ rest))
        specs section attr low high (some (int high)) none value
        (key_passes settings prefix specs section key spec value clean known found) refl refl in
    (read_first depth settings specs key section rest spec value known found accepted, inside)
