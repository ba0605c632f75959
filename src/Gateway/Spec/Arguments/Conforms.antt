-- ===== src/Gateway/Spec/Arguments/Conforms.antt =====
-- What a value that `_coerce` returns satisfies, for each parameter type.
use guru_ji.Prelude.{
  ◌≤◌, suc, String, ◌≡◌, refl, sym, ap, ◌⊎◌, inl, inr, Bool, true, false, not, ◌||◌, none, some,
  Option, List, [], ◌∷◌, map, arith, ltb, Bool-cases, string_eq, contains,
}
use mathlib.Core.Path.{subst}
use guru_ji.Domain.Text.{text_length, strip, is_blank, rstrip_percent, text_length-text_take}
use guru_ji.Domain.Values.{Value, scalar, list, mapping, Items, nil, cons, Entries, end, entry}
use guru_ji.Gateway.Spec.{
  Numbers, Scalar, boolean, number, text, ParameterSpec, ParameterType, ArgumentError, string,
  integer, number_type, boolean_type, array, object, unsupported, ok, >>=-eq-ok, reject_if-ok,
  too_long, not_in_enum, ok-injective, ItemsType, strings, objects, anything, too_many_items,
  too_many_keys, blank_key, nested_value,
}
use guru_ji.Gateway.Spec.Arguments.{
  items_length, entries_length, check_bounds, text_of, non_empty, in_enum, coerce_string, or_error,
  as_integer, integer_of, coerce_integer, number_of, coerce_number, coerce_boolean, coerce_item,
  coerce_items, items_of, coerce_array, is_scalar, check_entries, coerce_object, coerce_as,
  is_true_word,
}

module _ (n : Numbers) where
  open n use {Number, parse_int, to_float, is_float, less, lower}

  -- What Python says of its numbers: `int(text)` is no float, and `float(number)` is one.
  pub record IsPython : Type 0 where
    pub is_float-parse_int : (t : String) (w : Number) → parse_int t ≡ some w → is_float w ≡ false
    pub is_float-to_float : (w : Number) → is_float (to_float w) ≡ true

  -- Within the bounds that the parameter states.
  abbrev pub InBounds : ParameterSpec Number → Number → Type 0
  InBounds s v =
      ((m : Number) → s.minimum ≡ some m → less v m ≡ false)
      × ((m : Number) → s.maximum ≡ some m → less m v ≡ false)

  abbrev pub ItemConforms : ItemsType → Value (Scalar Number) → Type 0
  ItemConforms strings (scalar (text t)) = text_length t ≤ 500
  ItemConforms strings v = ⊥
  ItemConforms objects (mapping es) = Unit
  ItemConforms objects v = ⊥
  ItemConforms (anything t) v = Unit

  abbrev pub AllItems : ItemsType → Items (Scalar Number) → Type 0
  AllItems i nil = Unit
  AllItems i (cons x xs) = ItemConforms i x × AllItems i xs

  abbrev pub AllScalars : Entries (Scalar Number) → Type 0
  AllScalars end = Unit
  AllScalars (entry k v r) = (is_scalar n v ≡ true) × AllScalars r

  -- A value of the parameter's type, within its length, its choices and its bounds.
  abbrev pub ConformsTo : ParameterType → ParameterSpec Number → Value (Scalar Number) → Type 0
  ConformsTo string s v =
      (t : String) × (v ≡ scalar (text t))
      × (text_length t ≤ s.max_length)
      × ((s.enum ≡ []) ⊎ (contains (map lower s.enum) (lower t) ≡ true))
  ConformsTo integer s v =
      (w : Number) × (v ≡ scalar (number w)) × (is_float w ≡ false) × InBounds s w
  ConformsTo number_type s v =
      (w : Number) × (v ≡ scalar (number w)) × (is_float w ≡ true) × InBounds s w
  ConformsTo boolean_type s v = (b : Bool) × (v ≡ scalar (boolean b))
  ConformsTo array s v =
      (xs : Items (Scalar Number)) × (v ≡ list xs)
      × (items_length xs ≤ s.max_length)
      × AllItems s.items_type xs
  ConformsTo object s v =
      (es : Entries (Scalar Number)) × (v ≡ mapping es)
      × (entries_length es ≤ s.max_length)
      × AllScalars es
  ConformsTo (unsupported t) s v = ⊥

  in_enum-choices :
      (s : ParameterSpec Number) (t : String)
      → in_enum n s t ≡ true
      → (s.enum ≡ []) ⊎ (contains (map lower s.enum) (lower t) ≡ true)
  unfolding in_enum
  in_enum-choices s t h = go s.enum h
    where
      go :
          (es : List String)
          → (not (non_empty n es) || contains (map lower es) (lower t)) ≡ true
          → (es ≡ []) ⊎ (contains (map lower es) (lower t) ≡ true)
      go [] k = inl refl
      go (e ∷ es) k = inr k

  string_conforms :
      (s : ParameterSpec Number) (v w : Value (Scalar Number))
      → coerce_string n s v ≡ ok w
      → ConformsTo string s w
  unfolding coerce_string
  string_conforms s v w h =
      let (raw, e, k) = >>=-eq-ok (text_of n s v) _ h in
      let (short, k') =
        reject_if-ok (ltb s.max_length (text_length (strip raw))) (too_long s.name) _ k in
      let (chosen, k'') = reject_if-ok (not (in_enum n s (strip raw))) (not_in_enum s.name) _ k' in
      (
        strip raw,
        sym (ok-injective k''),
        ground arith,
        in_enum-choices s (strip raw) (ground arith),
      )

  check_bounds-InBounds :
      (s : ParameterSpec Number) (v : Number) → check_bounds n s v ≡ ok tt → InBounds s v
  unfolding check_bounds
  check_bounds-InBounds s v h = (λ m e. ground arith, λ m e. ground arith)

  or_error-ok :
      (x : ArgumentError) (o : Option Number) (w : Number) → or_error n x o ≡ ok w → o ≡ some w
  unfolding or_error
  or_error-ok x none w h = absurd (cc)
  or_error-ok x (some v) w h = cc

  -- The number that the `integer` branch reads is no float.
  is_float-integer_of :
      (s : ParameterSpec Number) (v : Value (Scalar Number)) (w : Number)
      → IsPython
      → integer_of n s v ≡ ok w
      → is_float w ≡ false
  unfolding integer_of
  is_float-integer_of s (scalar (text t)) w p h =
      p.is_float-parse_int (rstrip_percent (strip t)) w (or_error-ok _ _ w h)
  is_float-integer_of s (scalar (number v)) w p h = elim (Bool-cases (is_float (as_integer n v))) [
    | inl e ↦ absurd (ground (arith, h, e))
    | inr e ↦
        let q : as_integer n v ≡ w = ok-injective (rw e at h) in subst (λ x. is_float x ≡ false) q e
  ]
  is_float-integer_of s _ w p h = absurd (cc)

  integer_conforms :
      (s : ParameterSpec Number) (v w : Value (Scalar Number))
      → IsPython
      → coerce_integer n s v ≡ ok w
      → ConformsTo integer s w
  unfolding coerce_integer
  integer_conforms s v w p h =
      let (i, e, k) = >>=-eq-ok (integer_of n s v) _ h in
      let (_, b, k') = >>=-eq-ok (check_bounds n s i) _ k in
      (i, sym (ok-injective k'), is_float-integer_of s v i p e, check_bounds-InBounds s i b)

  number_conforms :
      (s : ParameterSpec Number) (v w : Value (Scalar Number))
      → IsPython
      → coerce_number n s v ≡ ok w
      → ConformsTo number_type s w
  unfolding coerce_number
  number_conforms s v w p h =
      let (i, e, k) = >>=-eq-ok (number_of n s v) _ h in
      let (_, b, k') = >>=-eq-ok (check_bounds n s (to_float i)) _ k in
      (
        to_float i,
        sym (ok-injective k'),
        p.is_float-to_float i,
        check_bounds-InBounds s (to_float i) b,
      )

  boolean_conforms :
      (s : ParameterSpec Number) (v w : Value (Scalar Number))
      → coerce_boolean n s v ≡ ok w
      → ConformsTo boolean_type s w
  unfolding coerce_boolean
  boolean_conforms s (scalar (boolean b)) w h = (b, sym (ok-injective h))
  boolean_conforms s (scalar (text t)) w h = elim (Bool-cases (is_true_word n t)) [
    | inl e ↦ (true, ground arith)
    | inr e ↦ (false, ground arith)
  ]
  boolean_conforms s _ w h = absurd (cc)

  item_conforms :
      (s : ParameterSpec Number) (i : ItemsType) (x y : Value (Scalar Number))
      → coerce_item n s i x ≡ ok y
      → ItemConforms i y
  unfolding coerce_item
  item_conforms s strings (scalar (number v)) y h =
      subst (ItemConforms strings) (ok-injective h) (text_length-text_take 500 (strip (n.show v)))
  item_conforms s strings (scalar (text t)) y h =
      subst (ItemConforms strings) (ok-injective h) (text_length-text_take 500 (strip t))
  item_conforms s objects (mapping es) y h = subst (ItemConforms objects) (ok-injective h) tt
  item_conforms s (anything t) x y h = tt
  item_conforms s _ x y h = absurd (cc)

  items_conform :
      (s : ParameterSpec Number) (xs ys : Items (Scalar Number))
      → coerce_items n s xs ≡ ok ys
      → (items_length ys ≡ items_length xs) × AllItems s.items_type ys
  unfolding coerce_items items_length
  items_conform s nil ys h = rw (← ok-injective h) (refl, tt)
  items_conform s (cons x xs) ys h =
      let (y, e, k) = >>=-eq-ok (coerce_item n s s.items_type x) _ h in
      let (zs, f, k') = >>=-eq-ok (coerce_items n s xs) _ k in
      let (len, each) = items_conform s xs zs f in
      rw (← ok-injective k') (ap suc len, (item_conforms s s.items_type x y e, each))

  array_conforms :
      (s : ParameterSpec Number) (v w : Value (Scalar Number))
      → coerce_array n s v ≡ ok w
      → ConformsTo array s w
  unfolding coerce_array
  array_conforms s v w h =
      let (xs, e, k) = >>=-eq-ok (items_of n s v) _ h in
      let (short, k') =
        reject_if-ok (ltb s.max_length (items_length xs)) (too_many_items s.name) _ k in
      let (ys, f, k'') = >>=-eq-ok (coerce_items n s xs) _ k' in
      let (len, each) = items_conform s xs ys f in
      (ys, sym (ok-injective k''), ground (arith, len, short), each)

  entries_scalar :
      (s : ParameterSpec Number) (es : Entries (Scalar Number))
      → check_entries n s es ≡ ok tt
      → AllScalars es
  unfolding check_entries
  entries_scalar s end h = tt
  entries_scalar s (entry k v r) h =
      let (_, k1) = reject_if-ok (is_blank k) (blank_key s.name) _ h in
      let (b, k2) = reject_if-ok (not (is_scalar n v)) (nested_value s.name) _ k1 in
      (ground arith, entries_scalar s r k2)

  object_conforms :
      (s : ParameterSpec Number) (v w : Value (Scalar Number))
      → coerce_object n s v ≡ ok w
      → ConformsTo object s w
  unfolding coerce_object
  object_conforms s (mapping es) w h =
      let (short, k) =
        reject_if-ok (ltb s.max_length (entries_length es)) (too_many_keys s.name) _ h in
      let (_, e, k') = >>=-eq-ok (check_entries n s es) _ k in
      (es, sym (ok-injective k'), ground arith, entries_scalar s es e)
  object_conforms s _ w h = absurd (cc)

  pub coerce_as_conforms :
      (t : ParameterType) (s : ParameterSpec Number) (v w : Value (Scalar Number))
      → IsPython
      → coerce_as n t s v ≡ ok w
      → ConformsTo t s w
  unfolding coerce_as
  coerce_as_conforms string s v w p h = string_conforms s v w h
  coerce_as_conforms integer s v w p h = integer_conforms s v w p h
  coerce_as_conforms number_type s v w p h = number_conforms s v w p h
  coerce_as_conforms boolean_type s v w p h = boolean_conforms s v w h
  coerce_as_conforms array s v w p h = array_conforms s v w h
  coerce_as_conforms object s v w p h = object_conforms s v w h
  coerce_as_conforms (unsupported t) s v w p h = absurd (cc)
