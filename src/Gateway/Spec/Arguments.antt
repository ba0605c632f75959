-- ===== src/Gateway/Spec/Arguments.antt =====
-- `_coerce`, `_check_bounds` and `validate_arguments` of spec.py.
pub mod Conforms
pub mod Validated
use guru_ji.Prelude.{
  ℕ, zero, suc, String, ◌≡◌, refl, Bool, true, false, not, ◌&&◌, ◌||◌, Option, none, some, List, [],
  ◌∷◌, map, ltb, if◌then◌else◌, ◌==◌, string_eq, contains, any, find, select,
}
use guru_ji.Domain.Text.{is_blank, strip, rstrip_percent, text_length, text_take, split_commas}
use guru_ji.Domain.Values.{
  Value, scalar, list, tuple, mapping, Items, nil, cons, Entries, end, entry, has_key, get,
}
use guru_ji.Gateway.Spec.{
  Numbers, Scalar, null, boolean, number, text, ParameterSpec, ParameterType, string, integer,
  number_type, boolean_type, array, object, unsupported, ItemsType, strings, objects, anything,
  ArgumentError, unknown_argument, missing_argument, not_a_string, too_long, not_in_enum,
  not_an_integer, not_a_number, not_a_boolean, not_an_array, too_many_items, items_not_strings,
  items_not_objects, not_an_object, too_many_keys, blank_key, nested_value, below_minimum,
  above_maximum, unsupported_type, Checked, ok, error, ◌>>=◌, ◌>>◌, reject_if,
}

module _ {S : Type 0} where
  unfoldable pub items_length : Items S → ℕ
  items_length nil = 0
  items_length (cons x xs) = suc (items_length xs)

  unfoldable pub entries_length : Entries S → ℕ
  entries_length end = 0
  entries_length (entry k v r) = suc (entries_length r)

module _ (n : Numbers) where
  open n use {Number, parse_int, parse_float, show, to_float, is_float, whole, less, lower}

  abbrev Argument : Type 0
  Argument = Value (Scalar Number)

  below : Number → Option Number → Bool
  below v none = false
  below v (some m) = less v m

  above : Number → Option Number → Bool
  above v none = false
  above v (some m) = less m v

  unfoldable pub check_bounds : ParameterSpec Number → Number → Checked (Unit {0})
  unfolding below above
  check_bounds s v = do
    reject_if (below v s.minimum) (below_minimum s.name)
    reject_if (above v s.maximum) (above_maximum s.name)

  -- What the `string` branch takes for the text: a number is printed.
  text_of : ParameterSpec Number → Argument → Checked String
  text_of s (scalar (number v)) = ok (show v)
  text_of s (scalar (text t)) = ok t
  text_of s v = error (not_a_string s.name)

  abbrev non_empty : List String → Bool
  non_empty [] = false
  non_empty (x ∷ xs) = true

  unfoldable pub in_enum : ParameterSpec Number → String → Bool
  in_enum s t = not (non_empty s.enum) || contains (map lower s.enum) (lower t)

  unfoldable pub coerce_string : ParameterSpec Number → Argument → Checked Argument
  unfolding text_of in_enum
  coerce_string s v = do
    raw ← text_of s v
    reject_if (ltb s.max_length (text_length (strip raw))) (too_long s.name)
    reject_if (not (in_enum s (strip raw))) (not_in_enum s.name)
    ok (scalar (text (strip raw)))

  or_error {ℓ} : {A : Type ℓ} → ArgumentError → Option A → Checked A
  or_error e none = error e
  or_error e (some a) = ok a

  abbrev or_else : Number → Option Number → Number
  or_else v none = v
  or_else v (some w) = w

  -- `int(value)` of a whole float; any other value is left as it is.
  as_integer : Number → Number
  as_integer v = if is_float v then or_else v (whole v) else v

  -- The number that the `integer` branch reads, before its bounds.
  integer_of : ParameterSpec Number → Argument → Checked Number
  unfolding or_error as_integer
  integer_of s (scalar (text t)) =
      or_error (not_an_integer s.name) (parse_int (rstrip_percent (strip t)))
  integer_of s (scalar (number v)) =
      if is_float (as_integer v) then error (not_an_integer s.name) else ok (as_integer v)
  integer_of s v = error (not_an_integer s.name)

  unfoldable pub coerce_integer : ParameterSpec Number → Argument → Checked Argument
  unfolding integer_of check_bounds
  coerce_integer s v = do w ← integer_of s v; check_bounds s w; ok (scalar (number w))

  number_of : ParameterSpec Number → Argument → Checked Number
  unfolding or_error
  number_of s (scalar (text t)) =
      or_error (not_a_number s.name) (parse_float (rstrip_percent (strip t)))
  number_of s (scalar (number v)) = ok v
  number_of s v = error (not_a_number s.name)

  unfoldable pub coerce_number : ParameterSpec Number → Argument → Checked Argument
  unfolding number_of check_bounds
  coerce_number s v = do
    w ← number_of s v
    check_bounds s (to_float w)
    ok (scalar (number (to_float w)))

  is_true_word : String → Bool
  is_true_word t = contains ("true" ∷ "yes" ∷ "1" ∷ []) (lower (strip t))

  is_false_word : String → Bool
  is_false_word t = contains ("false" ∷ "no" ∷ "0" ∷ []) (lower (strip t))

  unfoldable pub coerce_boolean : ParameterSpec Number → Argument → Checked Argument
  unfolding is_true_word is_false_word
  coerce_boolean s (scalar (boolean b)) = ok (scalar (boolean b))
  coerce_boolean s (scalar (text t)) =
      if is_true_word t
      then ok (scalar (boolean true))
      else if is_false_word t
      then ok (scalar (boolean false))
      else error (not_a_boolean s.name)
  coerce_boolean s v = error (not_a_boolean s.name)

  coerce_item : ParameterSpec Number → ItemsType → Argument → Checked Argument
  coerce_item s strings (scalar (number v)) = ok (scalar (text (text_take 500 (strip (show v)))))
  coerce_item s strings (scalar (text t)) = ok (scalar (text (text_take 500 (strip t))))
  coerce_item s strings v = error (items_not_strings s.name)
  coerce_item s objects (mapping es) = ok (mapping es)
  coerce_item s objects v = error (items_not_objects s.name)
  coerce_item s (anything t) v = ok v

  coerce_items : ParameterSpec Number → Items (Scalar Number) → Checked (Items (Scalar Number))
  unfolding coerce_item
  coerce_items s nil = ok nil
  coerce_items s (cons x xs) = do
    y ← coerce_item s s.items_type x
    ys ← coerce_items s xs
    ok (cons y ys)

  -- `[item.strip() for item in value.split(",") if item.strip()]`
  split_items : List String → Items (Scalar Number)
  split_items [] = nil
  split_items (w ∷ ws) =
      let rest = split_items ws in
      if strip w == "" then rest else cons (scalar (text (strip w))) rest

  items_of : ParameterSpec Number → Argument → Checked (Items (Scalar Number))
  unfolding split_items
  items_of s (scalar (text t)) = ok (split_items (split_commas t))
  items_of s (list xs) = ok xs
  items_of s (tuple xs) = ok xs
  items_of s v = error (not_an_array s.name)

  unfoldable pub coerce_array : ParameterSpec Number → Argument → Checked Argument
  unfolding items_of coerce_items
  coerce_array s v = do
    xs ← items_of s v
    reject_if (ltb s.max_length (items_length xs)) (too_many_items s.name)
    ys ← coerce_items s xs
    ok (list ys)

  abbrev pub is_scalar : Argument → Bool
  is_scalar (scalar s) = true
  is_scalar _ = false

  check_entries : ParameterSpec Number → Entries (Scalar Number) → Checked (Unit {0})
  check_entries s end = ok tt
  check_entries s (entry k v r) = do
    reject_if (is_blank k) (blank_key s.name)
    reject_if (not (is_scalar v)) (nested_value s.name)
    check_entries s r

  unfoldable pub coerce_object : ParameterSpec Number → Argument → Checked Argument
  unfolding check_entries
  coerce_object s (mapping es) = do
    reject_if (ltb s.max_length (entries_length es)) (too_many_keys s.name)
    check_entries s es
    ok (mapping es)
  coerce_object s v = error (not_an_object s.name)

  unfoldable pub coerce_as : ParameterType → ParameterSpec Number → Argument → Checked Argument
  coerce_as string s v = coerce_string s v
  coerce_as integer s v = coerce_integer s v
  coerce_as number_type s v = coerce_number s v
  coerce_as boolean_type s v = coerce_boolean s v
  coerce_as array s v = coerce_array s v
  coerce_as object s v = coerce_object s v
  coerce_as (unsupported t) s v = error (unsupported_type s.name)

  unfoldable pub coerce : ParameterSpec Number → Argument → Checked Argument
  unfolding coerce_as
  coerce s v = coerce_as s.kind s v

  -- `value is None or value == ""`
  abbrev is_missing : Option Argument → Bool
  is_missing none = true
  is_missing (some (scalar null)) = true
  is_missing (some (scalar (text t))) = t == ""
  is_missing (some v) = false

  -- `supplied.get(spec.name, spec.default)`
  supplied_or_default : ParameterSpec Number → Entries (Scalar Number) → Option Argument
  supplied_or_default s es = if has_key s.name es then get s.name es else s.default

  -- A parameter with no value: an error when it is required.
  skip_missing : ParameterSpec Number → Checked (Option Argument)
  skip_missing s = if s.required then error (missing_argument s.name) else ok none

  -- One round of the loop over the parameters.
  validate_one : ParameterSpec Number → Option Argument → Checked (Option Argument)
  unfolding skip_missing
  validate_one s none = skip_missing s
  validate_one s (some v) =
      if is_missing (some v) then skip_missing s else (do w ← coerce s v; ok (some w))

  abbrev add : String → Option Argument → Entries (Scalar Number) → Entries (Scalar Number)
  add k none r = r
  add k (some v) r = entry k v r

  validate_all :
      List (ParameterSpec Number) → Entries (Scalar Number) → Checked (Entries (Scalar Number))
  unfolding validate_one supplied_or_default
  validate_all [] es = ok end
  validate_all (s ∷ ss) es = do
    v ← validate_one s (supplied_or_default s es)
    r ← validate_all ss es
    ok (add s.name v r)

  -- `set(supplied) - set(known)`: the keys that no parameter names.
  all_known : List (ParameterSpec Number) → Entries (Scalar Number) → Bool
  all_known ss end = true
  all_known ss (entry k v r) = any (λ s. s.name == k) ss && all_known ss r

  unfoldable pub validate_arguments :
      String
      → List (ParameterSpec Number)
      → Entries (Scalar Number)
      → Checked (Entries (Scalar Number))
  unfolding all_known validate_all
  validate_arguments tool ss supplied = do
    reject_if (not (all_known ss supplied)) (unknown_argument tool)
    validate_all ss supplied
