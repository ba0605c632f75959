-- ===== src/Gateway/Json.antt =====
-- Python's tests on a JSON value that may be missing. `is_zero` tells whether a number is false.
use guru_ji.Prelude.{Bool, true, false, not, Option, none, some, ◌==◌, string_eq}
use guru_ji.Domain.Values.{scalar, list, tuple, mapping, nil, end}
use guru_ji.Gateway.Spec.{null, boolean, number, text}
use guru_ji.Gateway.Types.{Json}

module _ {N : Type 0} (is_zero : N → Bool) where
  -- `not value`, where a missing key reads as None.
  unfoldable pub is_false : Option (Json N) → Bool
  is_false none = true
  is_false (some (scalar null)) = true
  is_false (some (scalar (boolean b))) = not b
  is_false (some (scalar (number n))) = is_zero n
  is_false (some (scalar (text t))) = t == ""
  is_false (some (list nil)) = true
  is_false (some (tuple nil)) = true
  is_false (some (mapping end)) = true
  is_false (some v) = false
