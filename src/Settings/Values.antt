-- ===== src/Settings/Values.antt =====
-- The values that backend/services/knowledge/kb_config.py reads: JSON as Python holds it.
use lumina_ai.Prelude.{
  ℕ, zero, suc, ◌-◌, ◌*◌, ◌/◌, ◌%◌, ◌^◌, String, Bool, true, false, Option, none, some, leb, ltb,
  ◌==◌, ◌||◌, ◌&&◌, if◌then◌else◌,
}
use lumina_ai.Prelude.Int.{ℤ, pos, negsuc, ltb_ℤ}

-- Every finite double is a multiple of 2^-1074: `finite z` is z of them.
pub data Float : Type 0 where
  finite : ℤ → Float
  infinite minus_infinite nan : Float

pub data Number : Type 0 where
  int : ℤ → Number
  float : Float → Number

-- `other` is a list or an object: no parameter takes one, and only the type is looked at.
pub data Value : Type 0 where
  null other : Value
  bool : Bool → Value
  number : Number → Value
  str : String → Value

-- What a call returns that can end in an exception.
pub data Outcome {ℓ} (A : Type ℓ) : Type ℓ where
  ok : A → Outcome A
  raised : Outcome A

unfoldable pub and_then {ℓ κ} : {A : Type ℓ} {B : Type κ} → Outcome A → (A → Outcome B) → Outcome B
and_then (ok a) k = k a
and_then raised k = raised

unfoldable pub one : ℕ
one = 2 ^ 1074

unfoldable pub times_one : ℤ → ℤ
unfolding one
times_one (pos n) = pos (n * one)
times_one (negsuc n) = negsuc (suc n * one - 1)

-- `<` between an int and a float compares the exact values; with a NaN it is false.
unfoldable pub ltb_float : Float → Float → Bool
ltb_float nan _ = false
ltb_float _ nan = false
ltb_float (finite a) (finite b) = ltb_ℤ a b
ltb_float infinite _ = false
ltb_float _ minus_infinite = false
ltb_float _ _ = true

unfoldable pub exact : Number → Float
unfolding times_one
exact (int z) = finite (times_one z)
exact (float x) = x

unfoldable pub ltb_number : Number → Number → Bool
unfolding ltb_float exact
ltb_number (int a) (int b) = ltb_ℤ a b
ltb_number x y = ltb_float (exact x) (exact y)

-- `max(a, b)` and `min(a, b)` keep the first unless the second is strictly better.
unfoldable pub max_number : Number → Number → Number
unfolding ltb_number
max_number a b = if ltb_number a b then b else a

unfoldable pub min_number : Number → Number → Number
unfolding ltb_number
min_number a b = if ltb_number b a then b else a

bit_length : ℕ → ℕ → ℕ
bit_length zero n = 0
bit_length (suc fuel) n = let rest = bit_length fuel (n / 2) in if n == 0 then 0 else suc rest

-- `n` to a multiple of `2 ^ e`, ties to even.
round_to : ℕ → ℕ → ℕ
round_to e n =
    let q = n / 2 ^ e in
    let r = n % 2 ^ e in
    let half = 2 ^ (e - 1) in (if ltb half r || (r == half && q % 2 == 1) then suc q else q) * 2 ^ e

-- A magnitude below 2^1024 has at most 1024 bits; from halfway to 2^1024 on, `float` overflows.
unfoldable pub magnitude_to_float : ℕ → Option ℕ
unfolding bit_length round_to
magnitude_to_float n =
    if leb (2 ^ 1024 - 2 ^ 970) n
    then none
    else if leb (bit_length 1024 n) 53
    then some n
    else some (round_to (bit_length 1024 n - 53) n)

abbrev pub minus : ℕ → ℤ
minus zero = pos 0
minus (suc n) = negsuc n

abbrev pub signed : (ℕ → ℤ) → Option ℕ → Outcome Float
unfolding times_one
signed sign none = raised
signed sign (some n) = ok (finite (times_one (sign n)))

-- `float(x)`: the nearest double, or an `OverflowError`.
unfoldable pub to_float : Number → Outcome Float
unfolding magnitude_to_float
to_float (float x) = ok x
to_float (int (pos n)) = signed pos (magnitude_to_float n)
to_float (int (negsuc n)) = signed minus (magnitude_to_float (suc n))

-- `int(x)` cuts the fraction off; an infinite or a NaN raises.
unfoldable pub to_int : Number → Outcome ℤ
unfolding one
to_int (int z) = ok z
to_int (float (finite (pos n))) = ok (pos (n / one))
to_int (float (finite (negsuc n))) = ok (minus (suc n / one))
to_int (float _) = raised
