-- ===== src/Settings/Whole.antt =====
-- `validate_param_sections` of backend/services/knowledge/kb_config.py: a config passes as a whole
-- when each of its sections does.
use lumina_ai.Prelude.{
  ◌≡◌, refl, ◌∙◌, sym, ap, String, some, List, [], ◌∷◌, ◌++◌, arith, Bool-cases, inl, inr, eq_iff,
  Option-cases,
}
use lumina_ai.Settings.Values.{Value, Outcome, ok, raised, and_then}
use lumina_ai.Settings.Specs.{ParamSpec, Mapping, lookup, sections}
use lumina_ai.Settings.Write.{AppSettings, unknown_section, not_an_object}
use lumina_ai.Settings.Validate.{
  FieldError, Section, object, not_object, field_of, validate_section, validate_entries,
}
use lumina_ai.Settings.Agreement.{and_then-ok, append_empty}
use mathlib.Core.Path.{subst₂}
use text.Mathlib.Text.{◌==◌}

first_passes :
    (settings : AppSettings) (prefix : String) (rest : Mapping Section) (name : String)
    (section : Mapping Value) (specs : Mapping ParamSpec) (cleaned : Mapping (Mapping Value))
    → lookup name sections ≡ some specs
    → validate_entries settings prefix ((name, object section) ∷ rest) ≡ ok (cleaned, [])
    → validate_section settings (field_of prefix name) specs section section ≡ ok []
unfolding validate_entries and_then
first_passes settings prefix rest name section specs cleaned known clean =
    let (errors, (e, tail)) =
      and_then-ok (validate_section settings (field_of prefix name) specs section section)
        (λ (es : List FieldError).
          and_then (validate_entries settings prefix rest)
            (λ p. ok ((name, section) ∷ p.0, es ++ p.1)))
        (cleaned, []) (sym (rw (known, validate_entries) refl) ∙ clean) in
    let (p, (_, joined)) =
      and_then-ok (validate_entries settings prefix rest)
        (λ (p : Mapping (Mapping Value) × List FieldError).
          ok ((name, section) ∷ p.0, errors ++ p.1))
        (cleaned, []) tail in
    let (none_here, _) = append_empty errors p.1 (ground arith) in e ∙ ap ok none_here

abbrev Kept : Type 0
Kept = Mapping (Mapping Value) × List FieldError

tail_passes :
    (o : Outcome Kept) (f : Kept → Mapping (Mapping Value)) (errors : List FieldError)
    (cleaned : Mapping (Mapping Value))
    → and_then {B = Kept} o (λ p. ok (f p, errors ++ p.1)) ≡ ok (cleaned, [])
    → (there : Mapping (Mapping Value)) × (o ≡ ok (there, []))
unfolding and_then
tail_passes raised f errors cleaned e = ground arith
tail_passes (ok (there, later)) f errors cleaned e =
    (there, ap (λ es. ok (there, es)) (append_empty errors later (ground arith)).1)

-- The rest of a config without errors has none.
rest_passes :
    (settings : AppSettings) (prefix : String) (n : String) (raw : Section) (rest : Mapping Section)
    (cleaned : Mapping (Mapping Value))
    → validate_entries settings prefix ((n, raw) ∷ rest) ≡ ok (cleaned, [])
    → (there : Mapping (Mapping Value)) × (validate_entries settings prefix rest ≡ ok (there, []))
unfolding validate_entries and_then
rest_passes settings prefix n not_object rest cleaned clean =
    elim (Option-cases (lookup n sections)) [
      | inl unknown ↦
          tail_passes (validate_entries settings prefix rest) (λ p. p.0)
            (record { field = field_of prefix n; message = unknown_section } ∷ []) cleaned
            (sym (rw (unknown, validate_entries) refl) ∙ clean)
      | inr (specs, known) ↦
          tail_passes (validate_entries settings prefix rest) (λ p. p.0)
            (record { field = field_of prefix n; message = not_an_object } ∷ []) cleaned
            (sym (rw (known, validate_entries) refl) ∙ clean)
    ]
rest_passes settings prefix n (object section) rest cleaned clean =
    elim (Option-cases (lookup n sections)) [
      | inl unknown ↦
          tail_passes (validate_entries settings prefix rest) (λ p. p.0)
            (record { field = field_of prefix n; message = unknown_section } ∷ []) cleaned
            (sym (rw (unknown, validate_entries) refl) ∙ clean)
      | inr (specs, known) ↦
          let (errors, (_, tail)) =
            and_then-ok (validate_section settings (field_of prefix n) specs section section)
              (λ (es : List FieldError).
                and_then {B = Kept} (validate_entries settings prefix rest)
                  (λ p. ok ((n, section) ∷ p.0, es ++ p.1)))
              (cleaned, []) (sym (rw (known, validate_entries) refl) ∙ clean) in
          tail_passes (validate_entries settings prefix rest) (λ p. (n, section) ∷ p.0) errors
            cleaned tail
    ]

-- In a config without errors every known section has none.
pub section_passes :
    (settings : AppSettings) (prefix : String) (config : Mapping Section) (name : String)
    (section : Mapping Value) (specs : Mapping ParamSpec) (cleaned : Mapping (Mapping Value))
    → validate_entries settings prefix config ≡ ok (cleaned, [])
    → lookup name config ≡ some (object section)
    → lookup name sections ≡ some specs
    → validate_section settings (field_of prefix name) specs section section ≡ ok []
unfolding lookup
section_passes settings prefix [] name section specs cleaned clean found known = ground arith
section_passes settings prefix ((n, raw) ∷ rest) name section specs cleaned clean found known =
    elim (Bool-cases (n == name)) [
      | inl same ↦
          let name_same : n ≡ name = (eq_iff n name).0 same in
          let raw_same : raw ≡ object section = ground (arith, eq_iff n name) in
          first_passes settings prefix rest name section specs cleaned known (
            subst₂ (λ a b. validate_entries settings prefix ((a, b) ∷ rest) ≡ ok (cleaned, []))
              name_same raw_same clean)
      | inr differs ↦
          let (there, clean_rest) = rest_passes settings prefix n raw rest cleaned clean in
          section_passes settings prefix rest name section specs there clean_rest (ground arith)
            known
    ]

-- What a step over one entry comes to when the whole has no errors.
tail_known :
    (o : Outcome Kept) (f : Kept → Mapping (Mapping Value)) (errors : List FieldError)
    (cleaned : Mapping (Mapping Value))
    → and_then {B = Kept} o (λ p. ok (f p, errors ++ p.1)) ≡ ok (cleaned, [])
    → (p : Kept) × (o ≡ ok (p.0, [])) × (f p ≡ cleaned) × (errors ≡ [])
unfolding and_then
tail_known raised f errors cleaned e = ground arith
tail_known (ok (there, later)) f errors cleaned e =
    let (none_here, none_later) = append_empty errors later (ground arith) in
    ((there, later), ap (λ es. ok (there, es)) none_later, ground arith, none_here)

entry_kept :
    (settings : AppSettings) (prefix : String) (n : String) (raw : Section) (rest : Mapping Section)
    (cleaned : Mapping (Mapping Value))
    → validate_entries settings prefix ((n, raw) ∷ rest) ≡ ok (cleaned, [])
    → (section : Mapping Value) × (there : Mapping (Mapping Value)) × (raw ≡ object section)
      × (cleaned ≡ (n, section) ∷ there)
      × (validate_entries settings prefix rest ≡ ok (there, []))
unfolding validate_entries and_then
entry_kept settings prefix n not_object rest cleaned clean =
    elim (Option-cases (lookup n sections)) [
      | inl unknown ↦
          let (p, _, _, none_here) =
            tail_known (validate_entries settings prefix rest) (λ p. p.0)
              (record { field = field_of prefix n; message = unknown_section } ∷ []) cleaned
              (sym (rw (unknown, validate_entries) refl) ∙ clean) in
          cc none_here
      | inr (specs, known) ↦
          let (p, _, _, none_here) =
            tail_known (validate_entries settings prefix rest) (λ p. p.0)
              (record { field = field_of prefix n; message = not_an_object } ∷ []) cleaned
              (sym (rw (known, validate_entries) refl) ∙ clean) in
          cc none_here
    ]
entry_kept settings prefix n (object section) rest cleaned clean =
    elim (Option-cases (lookup n sections)) [
      | inl unknown ↦
          let (p, _, _, none_here) =
            tail_known (validate_entries settings prefix rest) (λ p. p.0)
              (record { field = field_of prefix n; message = unknown_section } ∷ []) cleaned
              (sym (rw (unknown, validate_entries) refl) ∙ clean) in
          cc none_here
      | inr (specs, known) ↦
          let (errors, (_, tail)) =
            and_then-ok (validate_section settings (field_of prefix n) specs section section)
              (λ (es : List FieldError).
                and_then {B = Kept} (validate_entries settings prefix rest)
                  (λ p. ok ((n, section) ∷ p.0, es ++ p.1)))
              (cleaned, []) (sym (rw (known, validate_entries) refl) ∙ clean) in
          let (p, there_e, joined, _) =
            tail_known (validate_entries settings prefix rest) (λ p. (n, section) ∷ p.0) errors
              cleaned tail in
          (section, p.0, refl, sym joined, there_e)
    ]

-- In a config without errors a section is kept as it is.
pub section_kept :
    (settings : AppSettings) (prefix : String) (config : Mapping Section) (name : String)
    (section : Mapping Value) (cleaned : Mapping (Mapping Value))
    → validate_entries settings prefix config ≡ ok (cleaned, [])
    → lookup name config ≡ some (object section)
    → lookup name cleaned ≡ some section
unfolding lookup
section_kept settings prefix [] name section cleaned clean found = ground arith
section_kept settings prefix ((n, raw) ∷ rest) name section cleaned clean found =
    let (kept, there, is_object, split, clean_rest) =
      entry_kept settings prefix n raw rest cleaned clean in
    elim (Bool-cases (n == name)) [
      | inl same ↦
          let raw_same : raw ≡ object section = ground (arith, found, same) in
          rw (split, same) (ap some (object_injective (sym is_object ∙ raw_same)))
      | inr differs ↦
          rw (split, differs)
            (section_kept settings prefix rest name section there clean_rest (ground arith))
    ]
  where
    object_injective : {a b : Mapping Value} → object a ≡ object b → a ≡ b
    object_injective {a} e = ap (λ x. elim x [ not_object ↦ a | object s ↦ s ]) e
