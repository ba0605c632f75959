-- ===== src/Agents/Bindings/Arguments.antt =====
-- What resolving the bindings of a step leaves of its arguments.
use guru_ji.Prelude.{
  String, ◌≡◌, refl, ◌∙◌, true, false, Option, some, List, [], ◌∷◌, arith, contains, ◌==◌,
  string_eq, eq_iff, map, Bool-cases, Member, here, there, inl, inr, if-cases,
}
use mathlib.Core.Path.{subst}
use guru_ji.Domain.Values.{Value, Entries, entry, end, get}
use guru_ji.Gateway.Types.{Object, Json}
use guru_ji.Agents.Bindings.Reads.{
  Refers, Cleaned, Resolved-cases, resolve_reference-Refers, without_none-Cleaned,
}
use guru_ji.Agents.Bindings.{
  Reference, value, put, resolve_reference, resolve_arguments, without_none,
}

apart : (i j k : String) → (i == j) ≡ true → (j == k) ≡ false → (i == k) ≡ false
apart i j k h n = rw ((eq_iff i j).0 h) n

module _ {S : Type 0} where
  unfoldable Reads : String → Option (Value S) → Entries S → Type 0
  Reads k o e = get k e ≡ o

  get-put : (k : String) (v : Value S) (e : Entries S) → get k (put k v e) ≡ some v
  unfolding get put Reads
  get-put k v end = ground (arith, eq_iff k k)
  get-put k v (entry j u r) =
      if-cases (Reads k (some v)) (j == k) (λ h. ground (arith, h))
        (λ h. ground (arith, h, get-put k v r))

  get-put_other :
      (k j : String) (v : Value S) (e : Entries S) → (j == k) ≡ false → get k (put j v e) ≡ get k e
  unfolding get put Reads
  get-put_other k j v end h = ground (arith, h)
  get-put_other k j v (entry i u r) h =
      if-cases (Reads k (get k (entry i u r))) (i == j) (λ e. ground (arith, apart i j k e h))
        (λ e. ground (arith, get-put_other k j v r h))

module _ {N : Type 0} (read_reference : String → Option Reference) (results : Object N)
    (k : String) where
  -- Where the argument `k` comes from.
  pub data Origin (bindings : List (String × String)) (arguments out : Object N) : Type 0 where
    given :
        contains (map (λ b. b.0) bindings) k ≡ false
        → get k out ≡ get k arguments
        → Origin bindings arguments out
    bound :
        (t : String) (v u : Json N)
        → Member (k, t) bindings
        → Refers read_reference results t v
        → Cleaned v u
        → get k out ≡ some u
        → Origin bindings arguments out

  first_bound :
      (name t : String) (v : Json N) (bindings : List (String × String)) (arguments out : Object N)
      → resolve_reference read_reference t results ≡ value v
      → Origin bindings (put name (without_none v) arguments) out
      → Origin ((name, t) ∷ bindings) arguments out
  first_bound name t v bindings arguments out e (bound t2 x u m q c g) =
      bound t2 x u (there m) q c g
  first_bound name t v bindings arguments out e (given n g) = elim (Bool-cases (name == k)) [
    | inl h ↦
        let q : name ≡ k = (eq_iff name k).0 h in
        let r = resolve_reference-Refers read_reference results t v e in
        bound t v (without_none v) (subst (λ j. Member (j, t) ((name, t) ∷ bindings)) q here) r
          (without_none-Cleaned v)
          (g
            ∙ subst (λ j. get j (put name (without_none v) arguments) ≡ some (without_none v)) q
                (get-put name (without_none v) arguments))
    | inr h ↦ given (ground (arith, h, n)) (g ∙ get-put_other k name (without_none v) arguments h)
  ]

  -- When the bindings of a step resolve, each argument is the given one, where no binding has its
  -- name, and else what the reference of one of its bindings reads: the step that it names is
  -- completed, the segments of its path lead from that step's output to a value, key by key and
  -- position by position, and of a list the elements that are not None are kept.
  pub resolve_arguments-Origin :
      (bindings : List (String × String)) (arguments out : Object N)
      → resolve_arguments read_reference bindings results arguments ≡ value out
      → Origin bindings arguments out
  unfolding resolve_arguments
  resolve_arguments-Origin [] arguments out h = given refl (cc)
  resolve_arguments-Origin ((name, t) ∷ bindings) arguments out h =
      elim (Resolved-cases (resolve_reference read_reference t results)) [
        | inl (v, e) ↦
            first_bound name t v bindings arguments out e
              (resolve_arguments-Origin bindings (put name (without_none v) arguments) out (cc))
        | inr (x, e) ↦ absurd (cc)
      ]
