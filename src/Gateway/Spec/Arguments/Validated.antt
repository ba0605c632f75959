-- ===== src/Gateway/Spec/Arguments/Validated.antt =====
-- What validated arguments satisfy: the schema is closed and every value conforms to its parameter.
use guru_ji.Prelude.{
  String, ◌≡◌, refl, inl, inr, true, false, not, eq_iff, Option, none, some, List, [], ◌∷◌, arith,
  Bool-cases, ◌==◌, string_eq, any, Member, here, there,
}
use mathlib.Core.Path.{subst}
use package.text.Mathlib.TextPositions.{eq_refl}
use guru_ji.Domain.Values.{Value, Entries, end, entry, has_key}
use guru_ji.Gateway.Spec.{
  Numbers, Scalar, text, ParameterSpec, ok, >>=-eq-ok, reject_if-ok, unknown_argument, ◌>>=◌,
  ok-injective,
}
use guru_ji.Gateway.Spec.Arguments.{
  coerce, validate_one, skip_missing, is_missing, add, supplied_or_default, validate_all, all_known,
  validate_arguments,
}
use guru_ji.Gateway.Spec.Arguments.Conforms.{IsPython, ConformsTo, coerce_as_conforms}

module _ (n : Numbers) where
  open n use {Number}

  -- Each entry comes from a parameter of its name, and conforms to it.
  abbrev pub AllConform : List (ParameterSpec Number) → Entries (Scalar Number) → Type 0
  AllConform ss end = Unit
  AllConform ss (entry k v r) =
      ((s : ParameterSpec Number) × Member s ss × (s.name ≡ k) × ConformsTo n s.kind s v)
      × AllConform ss r

  -- Every required parameter has an entry.
  abbrev pub RequiredPresent : List (ParameterSpec Number) → Entries (Scalar Number) → Type 0
  RequiredPresent ss es =
      (s : ParameterSpec Number) → Member s ss → s.required ≡ true → has_key s.name es ≡ true

  AllConform-weaken :
      (s : ParameterSpec Number) (ss : List (ParameterSpec Number)) (es : Entries (Scalar Number))
      → AllConform ss es
      → AllConform (s ∷ ss) es
  AllConform-weaken s ss end c = tt
  AllConform-weaken s ss (entry k v r) c =
      let (t, m, e, f) = c.0 in ((t, there m, e, f), AllConform-weaken s ss r c.1)

  -- One round of the loop: an entry that conforms, or no entry for an optional parameter.
  abbrev OneConforms : ParameterSpec Number → Option (Value (Scalar Number)) → Type 0
  OneConforms s none = s.required ≡ false
  OneConforms s (some w) = ConformsTo n s.kind s w

  skip_conforms :
      (s : ParameterSpec Number) (o : Option (Value (Scalar Number)))
      → skip_missing n s ≡ ok o
      → OneConforms s o
  unfolding skip_missing
  skip_conforms s o h = elim (Bool-cases s.required) [
    | inl e ↦ absurd (ground arith)
    | inr e ↦ subst (OneConforms s) (ok-injective (rw e at h)) e
  ]

  one_conforms :
      (s : ParameterSpec Number) (v o : Option (Value (Scalar Number)))
      → IsPython n
      → validate_one n s v ≡ ok o
      → OneConforms s o
  unfolding validate_one coerce
  one_conforms s none o p h = skip_conforms s o h
  one_conforms s (some v) o p h = elim (Bool-cases (is_missing n (some v))) [
    | inl e ↦ skip_conforms s o (rw e at h)
    | inr e ↦
        let h' : (coerce n s v >>= λ w. ok (some w)) ≡ ok o = rw e at h in
        let (w, f, k) = >>=-eq-ok (coerce n s v) _ h' in
        subst (OneConforms s) (ok-injective k) (coerce_as_conforms n s.kind s v w p f)
  ]

  -- What one parameter adds to the result.
  add_conforms :
      (s : ParameterSpec Number) (ss : List (ParameterSpec Number))
      (o : Option (Value (Scalar Number))) (r : Entries (Scalar Number))
      → OneConforms s o
      → AllConform ss r
      → AllConform (s ∷ ss) (add n s.name o r)
  add_conforms s ss none r c cs = AllConform-weaken s ss r cs
  add_conforms s ss (some v) r c cs = ((s, here, refl, c), AllConform-weaken s ss r cs)

  has_key-add :
      (k j : String) (o : Option (Value (Scalar Number))) (r : Entries (Scalar Number))
      → has_key k r ≡ true
      → has_key k (add n j o r) ≡ true
  unfolding has_key
  has_key-add k j none r h = h
  has_key-add k j (some v) r h = ground arith

  add_present :
      (s : ParameterSpec Number) (o : Option (Value (Scalar Number))) (r : Entries (Scalar Number))
      → OneConforms s o
      → s.required ≡ true
      → has_key s.name (add n s.name o r) ≡ true
  unfolding has_key
  add_present s none r c q = absurd (cc)
  add_present s (some v) r c q = rw (eq_refl s.name)

  RequiredPresent-add :
      (s : ParameterSpec Number) (ss : List (ParameterSpec Number))
      (o : Option (Value (Scalar Number))) (r : Entries (Scalar Number))
      → OneConforms s o
      → RequiredPresent ss r
      → RequiredPresent (s ∷ ss) (add n s.name o r)
  RequiredPresent-add s ss o r c p t here q = add_present s o r c q
  RequiredPresent-add s ss o r c p t (there m) q = has_key-add t.name s.name o r (p t m q)

  validate_all_lem :
      (ss : List (ParameterSpec Number)) (es r : Entries (Scalar Number))
      → IsPython n
      → validate_all n ss es ≡ ok r
      → AllConform ss r × RequiredPresent ss r
  unfolding validate_all
  validate_all_lem [] es r y h =
      subst (λ t. AllConform [] t × RequiredPresent [] t) (ok-injective h) (tt, λ s m q. elim m [ ])
  validate_all_lem (s ∷ ss) es r y h =
      let (o, e, k) = >>=-eq-ok (validate_one n s (supplied_or_default n s es)) _ h in
      let (r', f, k') = >>=-eq-ok (validate_all n ss es) _ k in
      let c : OneConforms s o = one_conforms s (supplied_or_default n s es) o y e in
      let (cs, p) = validate_all_lem ss es r' y f in
      subst (λ t. AllConform (s ∷ ss) t × RequiredPresent (s ∷ ss) t) (ok-injective k')
        (add_conforms s ss o r' c cs, RequiredPresent-add s ss o r' c p)

  all_known-key :
      (ss : List (ParameterSpec Number)) (es : Entries (Scalar Number))
      → all_known n ss es ≡ true
      → (k : String) → has_key k es ≡ true
      → any (λ s. s.name == k) ss ≡ true
  unfolding all_known has_key
  all_known-key ss end h k m = absurd (cc)
  all_known-key ss (entry j v r) h k m = elim (Bool-cases (j == k)) [
    | inl e ↦ subst (λ i. any (λ s. s.name == i) ss ≡ true) ((eq_iff j k).0 e) (ground arith)
    | inr e ↦ all_known-key ss r (ground arith) k (ground arith)
  ]

  -- The arguments that pass validation are closed: each is named by a parameter and is a value of
  -- that parameter's type, an integer no float and a number a float, within its length, choices and
  -- bounds, every required parameter is there, and each supplied key was the name of a parameter.
  -- It is assumed of Python that `int(text)` gives no float and that `float(number)` gives one.
  pub validate_arguments_conform :
      (tool : String) (ss : List (ParameterSpec Number)) (supplied r : Entries (Scalar Number))
      → IsPython n
      → validate_arguments n tool ss supplied ≡ ok r
      → AllConform ss r
        × RequiredPresent ss r
        × ((k : String) → has_key k supplied ≡ true → any (λ s. s.name == k) ss ≡ true)
  unfolding validate_arguments
  validate_arguments_conform tool ss supplied r y h =
      let (known, k) = reject_if-ok (not (all_known n ss supplied)) (unknown_argument tool) _ h in
      let (c, p) = validate_all_lem ss supplied r y k in
      (c, p, λ j m. all_known-key ss supplied (ground arith) j m)
