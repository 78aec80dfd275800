-- ===== src/Settings/Bounds.antt =====
-- What a parameter of backend/services/knowledge/kb_config.py can be when it is read: the limits
-- hold for whatever is stored.
use lumina_ai.Prelude.{
  ℕ, suc, ◌≡◌, refl, ◌⊎◌, inl, inr, ap, String, Option, none, some, List, [], ◌∷◌, arith,
  Option-cases, if◌then◌else◌,
}
use lumina_ai.Prelude.Int.{ℤ, ◌≤ℤ◌, ltb_ℤ}
use lumina_ai.Settings.Values.{
  Number, Value, Outcome, int, float, null, other, bool, number, str, ok, raised, and_then, to_int,
  ltb_number, max_number, min_number,
}
use lumina_ai.Settings.Specs.{ParamSpec, Mapping, lookup, int_kind}
use lumina_ai.Settings.Write.{AppSettings, typed}
use lumina_ai.Settings.Read.{
  read_param, read_layers, accept, clamped, ceiling_read, to_kind, at_least_low, at_most_high,
}

-- An int parameter with its limits.
abbrev pub int_spec : String → ℤ → Option Number → Option String → ParamSpec
int_spec attr low high high_of = record {
  default_attr = attr;
  kind = int_kind;
  low = some (int low);
  high = high;
  choices = [];
  high_of = high_of;
}

-- `z` is an int between the two limits.
abbrev pub Within : ℤ → ℤ → Outcome Value → Type 0
Within low high r = (z : ℤ) × ((r ≡ ok (number (int z))) × (low ≤ℤ z) × (z ≤ℤ high))

-- `min(high, max(low, z))` on ints.
unfoldable pub clamp_int : ℤ → ℤ → ℤ → ℤ
clamp_int low high z =
    let raised_to_low = if ltb_ℤ low z then z else low in
    if ltb_ℤ raised_to_low high then raised_to_low else high

pub clamp_int_bounds :
    (low high z : ℤ) → low ≤ℤ high → (low ≤ℤ clamp_int low high z) × (clamp_int low high z ≤ℤ high)
unfolding clamp_int
clamp_int_bounds low high z le = ground arith

pub clamped_int :
    (attr : String) (low high z : ℤ) (h : Option Number) (o : Option String)
    → clamped (int_spec attr low h o) (some (int high)) (int z)
      ≡ ok (number (int (clamp_int low high z)))
unfolding clamp_int clamped at_least_low at_most_high max_number min_number ltb_number to_kind
    to_int and_then
clamped_int attr low high z h o = ground arith

pub accept_clamped :
    (read : String → Outcome Value) (specs : Mapping ParamSpec) (attr : String) (low high z : ℤ)
    (h : Option Number) (o : Option String)
    → ceiling_read read specs (int_spec attr low h o) ≡ ok (some (int high))
    → accept read specs (int_spec attr low h o) (number (int z))
      ≡ ok (some (number (int (clamp_int low high z))))
unfolding accept typed to_kind to_int and_then
accept_clamped read specs attr low high z h o c = rw c (rw (clamped_int attr low high z h o) refl)

-- An int parameter accepts ints alone, and clamps them.
pub accept_int :
    (read : String → Outcome Value) (specs : Mapping ParamSpec) (attr : String) (low high : ℤ)
    (h : Option Number) (o : Option String) (value : Value)
    → ceiling_read read specs (int_spec attr low h o) ≡ ok (some (int high))
    → (accept read specs (int_spec attr low h o) value ≡ ok none)
      ⊎ ((z : ℤ) × ((value ≡ number (int z))
            × (accept read specs (int_spec attr low h o) value
                ≡ ok (some (number (int (clamp_int low high z)))))))
unfolding accept typed to_kind to_int and_then
accept_int read specs attr low high h o null c = inl refl
accept_int read specs attr low high h o other c = inl refl
accept_int read specs attr low high h o (bool b) c = inl refl
accept_int read specs attr low high h o (str s) c = inl refl
accept_int read specs attr low high h o (number (float x)) c = inl refl
accept_int read specs attr low high h o (number (int z)) c =
    inr (z, (refl, accept_clamped read specs attr low high z h o c))

module _ (read : String → Outcome Value) (settings : AppSettings) (specs : Mapping ParamSpec)
    (spec : ParamSpec) (key : String) (section : Mapping Value) (rest : List (Mapping Value)) where
  pub read_layers_missing :
      lookup key section ≡ none
      → read_layers read settings specs spec key (section ∷ rest)
        ≡ read_layers read settings specs spec key rest
  unfolding read_layers
  read_layers_missing missing = ground arith

  pub read_layers_refused :
      (value : Value)
      → lookup key section ≡ some value
      → accept read specs spec value ≡ ok none
      → read_layers read settings specs spec key (section ∷ rest)
        ≡ read_layers read settings specs spec key rest
  unfolding read_layers
  read_layers_refused value found refused = ground arith

  pub read_layers_accepted :
      (value v : Value)
      → lookup key section ≡ some value
      → accept read specs spec value ≡ ok (some v)
      → read_layers read settings specs spec key (section ∷ rest) ≡ ok v
  unfolding read_layers
  read_layers_accepted value v found accepted = ground arith

pub read_layers-Within :
    (read : String → Outcome Value) (settings : AppSettings) (specs : Mapping ParamSpec)
    (attr : String) (low high d : ℤ) (h : Option Number) (o : Option String) (key : String)
    (layers : List (Mapping Value))
    → ceiling_read read specs (int_spec attr low h o) ≡ ok (some (int high))
    → settings attr ≡ number (int d)
    → low ≤ℤ d
    → d ≤ℤ high
    → low ≤ℤ high
    → Within low high (read_layers read settings specs (int_spec attr low h o) key layers)
unfolding read_layers
read_layers-Within read settings specs attr low high d h o key [] c default l u le =
    (d, (rw default refl, l, u))
read_layers-Within read settings specs attr low high d h o key (section ∷ rest) c default l u le =
    let below =
      read_layers-Within read settings specs attr low high d h o key rest c default l u le in
    elim (Option-cases (lookup key section)) [
      | inl missing ↦
          rw
            (read_layers_missing read settings specs (int_spec attr low h o) key section rest
              missing)
            below
      | inr (value, found) ↦ elim (accept_int read specs attr low high h o value c) [
        | inl refused ↦
            rw
              (read_layers_refused read settings specs (int_spec attr low h o) key section rest
                value found refused)
              below
        | inr (z, (_, accepted)) ↦ (
          clamp_int low high z,
          (
            read_layers_accepted read settings specs (int_spec attr low h o) key section rest value
                (number (int (clamp_int low high z))) found accepted,
            (clamp_int_bounds low high z le).0,
            (clamp_int_bounds low high z le).1,
          ),
        )
      ]
    ]

pub read_param_found :
    (depth : ℕ) (settings : AppSettings) (specs : Mapping ParamSpec) (key : String)
    (layers : List (Mapping Value)) (spec : ParamSpec)
    → lookup key specs ≡ some spec
    → read_param (suc depth) settings specs key layers
      ≡ read_layers
          (λ other_key. read_param depth settings specs other_key layers)
          settings
          specs
          spec
          key
          layers
unfolding read_param read_layers
read_param_found depth settings specs key layers spec found = rw (found, read_param) refl

-- A parameter that no other one bounds does not depend on how others are read.
pub read_layers_plain :
    (read read' : String → Outcome Value) (settings : AppSettings) (specs : Mapping ParamSpec)
    (attr : String) (low : ℤ) (high : Option Number) (key : String) (layers : List (Mapping Value))
    → read_layers read settings specs (int_spec attr low high none) key layers
      ≡ read_layers read' settings specs (int_spec attr low high none) key layers
unfolding read_layers accept ceiling_read
read_layers_plain read read' settings specs attr low high key [] = refl
read_layers_plain read read' settings specs attr low high key (section ∷ rest) =
    let spec = int_spec attr low high none in
    ap
      (λ below. elim (lookup key section) [
        | none ↦ below
        | some value ↦ elim (accept read specs spec value) [
          | raised ↦ raised
          | ok none ↦ below
          | ok (some v) ↦ ok v
        ]
      ])
      (read_layers_plain read read' settings specs attr low high key rest)

-- Whatever is stored in the layers, a read of an int parameter with limits that no other
-- parameter moves returns an int within them, provided that the default is such an int.
pub read_param-Within :
    (depth : ℕ) (settings : AppSettings) (specs : Mapping ParamSpec) (key attr : String)
    (low high d : ℤ) (layers : List (Mapping Value))
    → lookup key specs ≡ some (int_spec attr low (some (int high)) none)
    → settings attr ≡ number (int d)
    → low ≤ℤ d
    → d ≤ℤ high
    → Within low high (read_param (suc depth) settings specs key layers)
unfolding ceiling_read
read_param-Within depth settings specs key attr low high d layers found default l u =
    let spec = int_spec attr low (some (int high)) none in
    rw (read_param_found depth settings specs key layers spec found) (
      read_layers-Within (λ other_key. read_param depth settings specs other_key layers) settings
        specs attr low high d (some (int high)) none key layers refl default l u (omega arith))
