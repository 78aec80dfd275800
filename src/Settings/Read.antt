-- ===== src/Settings/Read.antt =====
-- The side of backend/services/knowledge/kb_config.py that resolves a parameter at run time.
use lumina_ai.Prelude.{ℕ, zero, suc, String, Option, none, some, List, [], ◌∷◌, if◌then◌else◌}
use lumina_ai.Settings.Values.{
  Number, Value, Outcome, int, float, number, str, ok, raised, and_then, to_int, to_float,
  max_number, min_number,
}
use lumina_ai.Settings.Specs.{Kind, ParamSpec, Mapping, lookup, is_choice, float_kind}
use lumina_ai.Settings.Validate.{Config, mapping, object}
use lumina_ai.Settings.Write.{AppSettings, typed, is_number, is_text, wrong_type, below_value}

-- `section_of`: the section of a config; empty if it is no object.
unfoldable pub section_of : Config → String → Mapping Value
unfolding lookup
section_of (mapping config) name = elim (lookup name config) [
  | some (object section) ↦ section
  | _ ↦ []
]
section_of _ name = []

-- `layers_of`: the sections of that name that are not empty, the most specific first.
abbrev pub keep_layer : Mapping Value → List (Mapping Value) → List (Mapping Value)
keep_layer [] rest = rest
keep_layer (e ∷ es) rest = (e ∷ es) ∷ rest

unfoldable pub layers_of : String → List Config → List (Mapping Value)
unfolding section_of
layers_of name [] = []
layers_of name (c ∷ cs) = keep_layer (section_of c name) (layers_of name cs)

-- `_ceiling` with `settings`: the other parameter as it is read now, by `read`.
unfoldable pub ceiling_read :
    (String → Outcome Value) → Mapping ParamSpec → ParamSpec → Outcome (Option Number)
unfolding below_value and_then
ceiling_read read specs spec = elim spec.high_of [
  | none ↦ ok spec.high
  | some other_key ↦
      and_then (read other_key) (λ v. and_then (below_value v) (λ high. ok (some high)))
]

unfoldable pub at_least_low : Option Number → Number → Number
unfolding max_number
at_least_low none x = x
at_least_low (some low) x = max_number low x

unfoldable pub at_most_high : Option Number → Number → Number
unfolding min_number
at_most_high none x = x
at_most_high (some high) x = min_number high x

-- `float(value)` or `int(value)`, by the kind.
unfoldable pub to_kind : Kind → Number → Outcome Number
unfolding to_int to_float and_then
to_kind float_kind x = and_then (to_float x) (λ f. ok (float f))
to_kind _ x = and_then (to_int x) (λ z. ok (int z))

unfoldable pub clamped : ParamSpec → Option Number → Number → Outcome Value
unfolding at_least_low at_most_high to_kind and_then
clamped spec high x =
    and_then (to_kind spec.kind (at_most_high high (at_least_low spec.low x))) (λ y. ok (number y))

-- `_accept`: the value within its bounds, or nothing if its type does not fit.
unfoldable pub accept :
    (String → Outcome Value) → Mapping ParamSpec → ParamSpec → Value → Outcome (Option Value)
unfolding typed is_choice to_kind ceiling_read clamped and_then
accept read specs spec value = elim (typed spec.kind value) [
  | wrong_type ↦ ok none
  | is_text s ↦ ok (if is_choice s spec.choices then some (str s) else none)
  | is_number x ↦ and_then (to_kind spec.kind x) (λ y.
      and_then (ceiling_read read specs spec)
        (λ high. and_then (clamped spec high y) (λ v. ok (some v))))
]

-- The loop of `read_param` over the layers left: a value that is not accepted gives way to the
-- next layer, and the last resort is the default as it stands.
unfoldable pub read_layers :
    (String → Outcome Value)
    → AppSettings
    → Mapping ParamSpec
    → ParamSpec
    → String
    → List (Mapping Value)
    → Outcome Value
unfolding lookup accept
read_layers read settings specs spec key [] = ok (settings spec.default_attr)
read_layers read settings specs spec key (section ∷ rest) =
    let below = read_layers read settings specs spec key rest in
    elim (lookup key section) [
      | none ↦ below
      | some value ↦ elim (accept read specs spec value) [
        | raised ↦ raised
        | ok none ↦ below
        | ok (some v) ↦ ok v
      ]
    ]

-- `read_param`; `depth` bounds the chain of parameters that bound one another.
unfoldable pub read_param :
    ℕ → AppSettings → Mapping ParamSpec → String → List (Mapping Value) → Outcome Value
unfolding lookup read_layers
read_param zero settings specs key layers = raised
read_param (suc depth) settings specs key layers = elim (lookup key specs) [
  | none ↦ raised
  | some spec ↦
      read_layers (λ other_key. read_param depth settings specs other_key layers) settings specs
        spec key layers
]
