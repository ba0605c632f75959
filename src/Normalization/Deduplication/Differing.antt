-- ===== src/Normalization/Deduplication/Differing.antt =====
-- The names that `differing_fields` of a conflict lists.
use guru_ji.Prelude.{
  String, ◌≡◌, refl, sym, ◌∙◌, ap, Bool, false, not, ◌&&◌, ◌||◌, Eq, string_eq, option_eq, ◌==◌,
  eq_iff, none, List, [], ◌∷◌, ◌++◌, map, select, contains, arith, Bool-cases, inl, inr,
}
use guru_ji.Domain.Text.{contains-sorted}
use guru_ji.Normalization.Deduplication.{CanonicalRecord, field_of, all_names, differing}

contains-append :
    (xs ys : List String) (n : String) → contains (xs ++ ys) n ≡ (contains xs n || contains ys n)
contains-append [] ys n = refl
contains-append (x ∷ xs) ys n = ground (arith, contains-append xs ys n)

contains-select :
    (p : String → Bool) (xs : List String) (n : String)
    → contains (select p xs) n ≡ (contains xs n && p n)
contains-select p [] n = refl
contains-select p (x ∷ xs) n = elim (Bool-cases (x == n)) [
  | inl h ↦
      let q : p x ≡ p n = ap p ((eq_iff x n).0 h) in
      elim (Bool-cases (p x)) [
        | inl e ↦ ground (arith, h, e, q)
        | inr e ↦ ground (arith, h, e, q, contains-select p xs n)
      ]
  | inr h ↦ elim (Bool-cases (p x)) [
    | inl e ↦ ground (arith, h, e, contains-select p xs n)
    | inr e ↦ ground (arith, h, e, contains-select p xs n)
  ]
]

module _ {V : Type 0} ⦃e : Eq V⦄ where
  field_of-none :
      (fields : List (String × V)) (n : String)
      → contains (map (λ f. f.0) fields) n ≡ false
      → field_of fields n ≡ none
  unfolding field_of
  field_of-none [] n h = refl
  field_of-none ((k, v) ∷ fields) n h = ground (arith, h, field_of-none fields n)

  contains-all_names :
      (r o : CanonicalRecord V) (n : String)
      → contains (all_names r o) n
        ≡ (contains (map (λ f. f.0) r.fields) n || contains (map (λ f. f.0) o.fields) n)
  unfolding all_names
  contains-all_names r o n =
      let own = map (λ f. f.0) r.fields in
      let others = map (λ f. f.0) o.fields in
      ground (
        arith,
        contains-append own (select (λ m. not (contains own m)) others) n,
        contains-select (λ m. not (contains own m)) others n,
      )

  -- A name is listed exactly when the two records read it differently.
  pub contains-differing :
      (r o : CanonicalRecord V) (n : String)
      → contains (differing r o) n ≡ not (field_of r.fields n == field_of o.fields n)
  unfolding differing
  contains-differing r o n =
      let p = λ (m : String). not (field_of r.fields m == field_of o.fields m) in
      contains-sorted (select p (all_names r o)) n
      ∙ contains-select p (all_names r o) n
      ∙ elim (Bool-cases (contains (all_names r o) n)) [
        | inl h ↦ rw h refl
        | inr h ↦
            let c = sym (contains-all_names r o n) ∙ h in
            let a = field_of-none r.fields n (ground (arith, c)) in
            let b = field_of-none o.fields n (ground (arith, c)) in rw (h, a, b) refl
      ]
