-- ===== src/Settings/Write.antt =====
-- The side of backend/services/knowledge/kb_config.py that checks what a user writes.
use lumina_ai.Prelude.{Bool, true, false, Option, none, some, List, if◌then◌else◌}
use lumina_ai.Prelude.Int.{pos, ◌-ℤ◌, clamp}
use Prim.Native.String.{String}
use lumina_ai.Settings.Values.{
  Number, Value, Outcome, int, bool, number, str, ok, raised, and_then, to_int, ltb_number,
}
use lumina_ai.Settings.Specs.{
  Kind, ParamSpec, Mapping, lookup, is_choice, int_kind, float_kind, choice_kind,
}

-- `get_app_settings()`: the attributes by name.
abbrev pub AppSettings : Type 0
AppSettings = String → Value

-- The reasons, without their wording.
pub data Reason : Type 0 where
  not_an_object unknown_section unknown_parameter not_an_integer not_a_number : Reason
  not_a_choice : List String → Reason
  not_between : Option Number → Option Number → Reason
  not_below : String → Number → Reason

-- `max(int(effective) - 1, 0)`. A value that is no number does not stand in an int parameter.
unfoldable pub below_value : Value → Outcome Number
unfolding to_int
below_value (number x) = and_then (to_int x) (λ z. ok (int (pos (clamp (z -ℤ pos 1)))))
below_value (bool true) = ok (int (pos 0))
below_value (bool false) = ok (int (pos 0))
below_value _ = raised

-- The value written next to it if that is an int, and the system's default otherwise.
unfoldable pub effective_written : AppSettings → ParamSpec → Option Value → Value
effective_written settings spec (some (number (int z))) = number (int z)
effective_written settings spec _ = settings spec.default_attr

-- `_ceiling` without `settings`.
unfoldable pub ceiling_written :
    AppSettings → Mapping ParamSpec → Mapping Value → ParamSpec → Outcome (Option Number)
unfolding below_value effective_written lookup
ceiling_written settings specs section spec = elim spec.high_of [
  | none ↦ ok spec.high
  | some other_key ↦ elim (lookup other_key specs) [
    | none ↦ raised
    | some other_spec ↦
        and_then (below_value (effective_written settings other_spec (lookup other_key section)))
          (λ high. ok (some high))
  ]
]

unfoldable pub below_low : Option Number → Number → Bool
unfolding ltb_number
below_low none x = false
below_low (some low) x = ltb_number x low

unfoldable pub above_high : Option Number → Number → Bool
unfolding ltb_number
above_high none x = false
above_high (some high) x = ltb_number high x

abbrev pub too_high : ParamSpec → Option Number → Reason
too_high spec none = not_between spec.low none
too_high spec (some high) = elim spec.high_of [
  | none ↦ not_between spec.low (some high)
  | some other_key ↦ not_below other_key high
]

unfoldable pub out_of_range : ParamSpec → Option Number → Number → Option Reason
unfolding below_low above_high
out_of_range spec high x =
    if below_low spec.low x
    then some (not_between spec.low high)
    else if above_high high x
    then some (too_high spec high)
    else none

abbrev pub not_numeric : Kind → Reason
not_numeric int_kind = not_an_integer
not_numeric _ = not_a_number

-- The type of a value against the kind of the parameter: the number it has, or what is wrong.
pub data Typed : Type 0 where
  is_number : Number → Typed
  is_text : String → Typed
  wrong_type : Typed

unfoldable pub typed : Kind → Value → Typed
typed choice_kind (str s) = is_text s
typed int_kind (number (int z)) = is_number (int z)
typed float_kind (number x) = is_number x
typed _ _ = wrong_type

abbrev pub wrong : ParamSpec → Reason
wrong spec = elim spec.kind [
  | choice_kind ↦ not_a_choice spec.choices
  | int_kind ↦ not_an_integer
  | float_kind ↦ not_a_number
]

-- `_reject_reason`.
unfoldable pub reject_reason :
    AppSettings → Mapping ParamSpec → Mapping Value → ParamSpec → Value → Outcome (Option Reason)
unfolding typed is_choice ceiling_written out_of_range and_then
reject_reason settings specs section spec value = elim (typed spec.kind value) [
  | wrong_type ↦ ok (some (wrong spec))
  | is_text s ↦ ok (if is_choice s spec.choices then none else some (not_a_choice spec.choices))
  | is_number x ↦
      and_then (ceiling_written settings specs section spec) (λ high. ok (out_of_range spec high x))
]
