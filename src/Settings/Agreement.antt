-- ===== src/Settings/Agreement.antt =====
-- The two sides of backend/services/knowledge/kb_config.py agree: what a user may write is what is
-- read.
use lumina_ai.Prelude.{
  ◌≡◌, refl, inl, inr, ◌∙◌, ap, String, false, Option, none, some, List, [], ◌∷◌, ◌++◌, arith,
  Bool-cases, eq_iff,
}
use lumina_ai.Prelude.Int.{ℤ, ◌≤ℤ◌, ltb_ℤ, eq_of_parts}
use lumina_ai.Settings.Values.{
  Number, Value, Outcome, int, float, null, other, bool, number, str, ok, raised, and_then,
  ltb_number,
}
use lumina_ai.Settings.Specs.{ParamSpec, Mapping, lookup}
use lumina_ai.Settings.Write.{
  AppSettings, typed, reject_reason, ceiling_written, out_of_range, below_low, above_high,
}
use lumina_ai.Settings.Validate.{FieldError, validate_key, validate_section}
use lumina_ai.Settings.Read.{accept, ceiling_read}
use lumina_ai.Settings.Bounds.{int_spec, clamp_int, accept_clamped}
use text.Mathlib.Text.{◌==◌}

pub and_then-ok {ℓ κ} :
    {A : Type ℓ} {B : Type κ} (o : Outcome A) (k : A → Outcome B) (b : B)
    → and_then o k ≡ ok b
    → (a : A) × ((o ≡ ok a) × (k a ≡ ok b))
unfolding and_then
and_then-ok (ok a) k b e = (a, (refl, e))
and_then-ok raised k b e = ground arith

pub append_empty {ℓ} : {A : Type ℓ} (xs ys : List A) → xs ++ ys ≡ [] → (xs ≡ []) × (ys ≡ [])
append_empty [] ys e = (refl, e)
append_empty (x ∷ xs) ys e = ground arith

-- In a section without errors the entry of every key has none.
pub validate_section_key :
    (settings : AppSettings) (prefix : String) (specs : Mapping ParamSpec)
    (section entries : Mapping Value) (key : String) (value : Value)
    → validate_section settings prefix specs section entries ≡ ok []
    → lookup key entries ≡ some value
    → validate_key settings prefix specs section key value ≡ ok []
unfolding validate_section lookup
validate_section_key settings prefix specs section [] key value clean found = ground arith
validate_section_key settings prefix specs section ((k, v) ∷ rest) key value clean found =
    let (here, (e, tail)) =
      and_then-ok (validate_key settings prefix specs section k v)
        (λ (es : List FieldError).
          and_then (validate_section settings prefix specs section rest)
            (λ there. ok (es ++ there)))
        [] clean in
    let (there, (e', joined)) =
      and_then-ok (validate_section settings prefix specs section rest)
        (λ (es : List FieldError). ok (here ++ es)) [] tail in
    let (here_empty, there_empty) = append_empty here there (ground arith) in
    elim (Bool-cases (k == key)) [
      | inl same ↦
          let key_same : k ≡ key = (eq_iff k key).0 same in
          let value_same : v ≡ value = ground (arith, eq_iff k key) in cc
      | inr differs ↦
          validate_section_key settings prefix specs section rest key value (ground arith)
            (ground arith)
    ]

clamp_int_inside :
    (low high z : ℤ) → ltb_ℤ z low ≡ false → ltb_ℤ high z ≡ false → clamp_int low high z ≡ z
unfolding clamp_int
clamp_int_inside low high z l u = ground (arith, eq_of_parts low z, eq_of_parts high z)

-- An int in its range passes, and nothing else does.
in_range :
    (attr : String) (low high z : ℤ) (h : Option Number) (o : Option String)
    → out_of_range (int_spec attr low h o) (some (int high)) (int z) ≡ none
    → (ltb_ℤ z low ≡ false) × (ltb_ℤ high z ≡ false)
unfolding out_of_range below_low above_high ltb_number
in_range attr low high z h o passes = ground arith

-- What the writer lets pass under some limit the reader accepts unchanged under the same limit.
pub accept_written :
    (settings : AppSettings) (read : String → Outcome Value) (specs : Mapping ParamSpec)
    (section : Mapping Value) (attr : String) (low high : ℤ) (h : Option Number) (o : Option String)
    (value : Value)
    → reject_reason settings specs section (int_spec attr low h o) value ≡ ok none
    → ceiling_written settings specs section (int_spec attr low h o) ≡ ok (some (int high))
    → ceiling_read read specs (int_spec attr low h o) ≡ ok (some (int high))
    → (accept read specs (int_spec attr low h o) value ≡ ok (some value))
      × ((z : ℤ) × ((value ≡ number (int z)) × (low ≤ℤ z) × (z ≤ℤ high)))
unfolding reject_reason typed and_then
accept_written settings read specs section attr low high h o null passes w r = ground arith
accept_written settings read specs section attr low high h o other passes w r = ground arith
accept_written settings read specs section attr low high h o (bool b) passes w r = ground arith
accept_written settings read specs section attr low high h o (str s) passes w r = ground arith
accept_written settings read specs section attr low high h o (number (float x)) passes w r =
    ground arith
accept_written settings read specs section attr low high h o (number (int z)) passes w r =
    let (l, u) = in_range attr low high z h o (ground (arith, w, passes)) in
    (
      accept_clamped read specs attr low high z h o r
          ∙ ap (λ n. ok (some (number (int n)))) (clamp_int_inside low high z l u),
      (z, (refl, ground arith, ground arith)),
    )
