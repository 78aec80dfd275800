-- ===== src/Gateway/Json.antt =====
-- A value that `json.loads` returns, and what the adapters of backend/ai/gateway/providers use of
-- Python on it.
use lumina_ai.Prelude.{Bool, true, false, not, Option, none, some, ◌==◌, if◌then◌else◌}
use lumina_ai.Prelude.Int.{ℤ, pos, negsuc}
use lumina_ai.Prelude.Texts.{Text, is_empty, same_text}

-- A float is its literal.
mutual
  pub data Json : Type 0 where
    null : Json
    bool : Bool → Json
    int : ℤ → Json
    float str : Text → Json
    arr : Items → Json
    obj : Fields → Json

  pub data Items : Type 0 where
    nil : Items
    cons : Json → Items → Items

  pub data Fields : Type 0 where
    end : Fields
    field : Text → Json → Fields → Fields

-- `fields.get(key)`.
unfoldable pub get : Text → Fields → Option Json
get key end = none
get key (field k v rest) = if same_text k key then some v else get key rest

-- `json.loads`, and `int`, `bool` and `str` where they need more than the shape of a value.
pub record Python : Type 0 where
  pub loads : Text → Option Json
  pub int_of_float : Text → Option ℤ
  pub int_of_text : Text → Option ℤ
  pub is_nonzero : Text → Bool
  pub shown : Json → Text

abbrev is_zero : ℤ → Bool
is_zero (pos n) = n == 0
is_zero (negsuc n) = false

module _ (py : Python) where
  open py use {int_of_float, int_of_text, is_nonzero, shown}

  -- `int(value)`: `none` is a `TypeError` or a `ValueError`.
  unfoldable pub to_int : Json → Option ℤ
  to_int null = none
  to_int (bool true) = some (pos 1)
  to_int (bool false) = some (pos 0)
  to_int (int n) = some n
  to_int (float t) = int_of_float t
  to_int (str t) = int_of_text t
  to_int (arr xs) = none
  to_int (obj fs) = none

  -- `bool(value)`, for a key that may be missing.
  unfoldable pub is_truthy : Option Json → Bool
  is_truthy none = false
  is_truthy (some null) = false
  is_truthy (some (bool b)) = b
  is_truthy (some (int n)) = not (is_zero n)
  is_truthy (some (float t)) = is_nonzero t
  is_truthy (some (str t)) = not (is_empty t)
  is_truthy (some (arr nil)) = false
  is_truthy (some (arr (cons x xs))) = true
  is_truthy (some (obj end)) = false
  is_truthy (some (obj (field k v fs))) = true

  -- `str(value)`.
  unfoldable pub to_text : Json → Text
  to_text (str t) = t
  to_text other = shown other

  -- `str(value or other)` for a text.
  unfoldable pub text_or : Option Json → Text → Text
  unfolding is_truthy to_text
  text_or none other = other
  text_or (some v) other = if is_truthy (some v) then to_text v else other
