-- ===== src/DataAccess/FieldPolicy/Strip.antt =====
-- What the gateway's second pass removes, and what it keeps.
use guru_ji.Prelude.{
  String, ◌≡◌, refl, ap, ◌∙◌, true, false, none, arith, if◌then◌else◌, eq_iff, string_eq,
  Bool-cases, inl, inr,
}
use mathlib.Core.Option
use text.Mathlib.TextPositions.{eq_refl}
use guru_ji.Domain.Principals.{Principal, students_read_contact, has_capability}
use guru_ji.Domain.Values.{
  Value, scalar, list, tuple, mapping, Items, nil, cons, Entries, end, entry, has_key, get,
}
use guru_ji.DataAccess.FieldPolicy.{
  is_sensitive, strip, strip_items, strip_entries, strip_student, strip_student_contact,
}

module _ {S : Type 0} where
  -- No contact field stands in a dictionary.
  abbrev pub NoContact : Entries S → Type 0
  NoContact es = (k : String) → is_sensitive k ≡ true → has_key k es ≡ false

  -- No dictionary with a student's id, at any depth, holds a contact field.
  abbrev mutual
    pub IsClean : Value S → Type 0
    IsClean (scalar s) = Unit
    IsClean (list xs) = IsCleanItems xs
    IsClean (tuple xs) = IsCleanItems xs
    IsClean (mapping es) = (has_key "student_id" es ≡ true → NoContact es) × IsCleanEntries es

    pub IsCleanItems : Items S → Type 0
    IsCleanItems nil = Unit
    IsCleanItems (cons x xs) = IsClean x × IsCleanItems xs

    pub IsCleanEntries : Entries S → Type 0
    IsCleanEntries end = Unit
    IsCleanEntries (entry k v r) = IsClean v × IsCleanEntries r

  has_key-strip_entries :
      (k : String) (es : Entries S) → has_key k (strip_entries es) ≡ has_key k es
  unfolding has_key strip
  has_key-strip_entries k end = refl
  has_key-strip_entries k (entry j v r) = ground (arith, has_key-strip_entries k r)

  -- The pass over a student keeps exactly the keys that are no contact fields.
  has_key-strip_student :
      (k : String) (es : Entries S)
      → has_key k (strip_student es) ≡ (if is_sensitive k then false else has_key k es)
  unfolding has_key strip
  has_key-strip_student k end = ground arith
  has_key-strip_student k (entry j v r) = ground (arith, has_key-strip_student k r, eq_iff j k)

  mutual
    unfolding strip

    strip-IsClean : (v : Value S) → IsClean (strip v)
    strip-IsClean (scalar s) = tt
    strip-IsClean (list xs) = strip_items-IsClean xs
    strip-IsClean (tuple xs) = strip_items-IsClean xs
    strip-IsClean (mapping es) = elim (Bool-cases (has_key "student_id" es)) [
      | inl e ↦ rw e (λ _ k s. has_key-strip_student k es ∙ rw s, strip_student-IsClean es)
      | inr e ↦
          rw e
            (λ h. absurd (cc (h, has_key-strip_entries "student_id" es)), strip_entries-IsClean es)
    ]

    strip_items-IsClean : (xs : Items S) → IsCleanItems (strip_items xs)
    strip_items-IsClean nil = tt
    strip_items-IsClean (cons x xs) = (strip-IsClean x, strip_items-IsClean xs)

    strip_entries-IsClean : (es : Entries S) → IsCleanEntries (strip_entries es)
    strip_entries-IsClean end = tt
    strip_entries-IsClean (entry k v r) = (strip-IsClean v, strip_entries-IsClean r)

    strip_student-IsClean : (es : Entries S) → IsCleanEntries (strip_student es)
    strip_student-IsClean end = tt
    strip_student-IsClean (entry k v r) = elim (Bool-cases (is_sensitive k)) [
      | inl e ↦ rw e (strip_student-IsClean r)
      | inr e ↦ rw e (strip-IsClean v, strip_student-IsClean r)
    ]

  get-strip_entries :
      (k : String) (es : Entries S) → get k (strip_entries es) ≡ Option.map strip (get k es)
  unfolding get strip
  get-strip_entries k end = refl
  get-strip_entries k (entry j v r) = ground (arith, get-strip_entries k r)

  get-strip_student :
      (k : String) (es : Entries S)
      → get k (strip_student es) ≡ (if is_sensitive k then none else Option.map strip (get k es))
  unfolding get strip
  get-strip_student k end = ground arith
  get-strip_student k (entry j v r) = ground (arith, get-strip_student k r, eq_iff j k)

  NoContact-head :
      (k : String) (v : Value S) (r : Entries S) → NoContact (entry k v r) → is_sensitive k ≡ false
  unfolding has_key
  NoContact-head k v r n = ground (arith, n k, eq_refl k)

  NoContact-tail :
      (k : String) (v : Value S) (r : Entries S) → NoContact (entry k v r) → NoContact r
  unfolding has_key
  NoContact-tail k v r n j s = ground (arith, n j s)

  mutual
    unfolding strip

    strip_clean : (v : Value S) → IsClean v → strip v ≡ v
    strip_clean (scalar s) c = refl
    strip_clean (list xs) c = ap list (strip_clean_items xs c)
    strip_clean (tuple xs) c = ap tuple (strip_clean_items xs c)
    strip_clean (mapping es) c = elim (Bool-cases (has_key "student_id" es)) [
      | inl e ↦ rw e (ap mapping (strip_clean_student es (c.0 e) c.1))
      | inr e ↦ rw e (ap mapping (strip_clean_entries es c.1))
    ]

    strip_clean_items : (xs : Items S) → IsCleanItems xs → strip_items xs ≡ xs
    strip_clean_items nil c = refl
    strip_clean_items (cons x xs) c = cc (strip_clean x c.0, strip_clean_items xs c.1)

    strip_clean_entries : (es : Entries S) → IsCleanEntries es → strip_entries es ≡ es
    strip_clean_entries end c = refl
    strip_clean_entries (entry k v r) c = cc (strip_clean v c.0, strip_clean_entries r c.1)

    strip_clean_student :
        (es : Entries S) → NoContact es → IsCleanEntries es → strip_student es ≡ es
    strip_clean_student end n c = refl
    strip_clean_student (entry k v r) n c =
        rw (NoContact-head k v r n)
          (cc (strip_clean v c.0, strip_clean_student r (NoContact-tail k v r n) c.1))

  -- Whatever a tool returns, what the gateway hands to a caller without `students:read_contact`
  -- holds no contact field beside a student's id, at any depth; a clean output is unchanged, and so
  -- is every output for a caller with the capability.
  pub strip_student_contact_lem :
      (p : Principal) (v : Value S)
      → (has_capability p students_read_contact ≡ false → IsClean (strip_student_contact p v))
        × (IsClean v → strip_student_contact p v ≡ v)
        × (has_capability p students_read_contact ≡ true → strip_student_contact p v ≡ v)
  unfolding strip_student_contact
  strip_student_contact_lem p v =
      (λ h. rw h (strip-IsClean v), λ c. ground (arith, strip_clean v c), λ h. rw h)

  -- Of a student's record, the caller without the capability sees every field but the contact
  -- fields, each itself stripped; of any other dictionary, every field.
  pub get-strip :
      (k : String) (es : Entries S)
      → (has_key "student_id" es ≡ true
          → (after : Entries S) × (strip (mapping es) ≡ mapping after)
            × (get k after ≡ (if is_sensitive k then none else Option.map strip (get k es))))
        × (has_key "student_id" es ≡ false
            → (after : Entries S) × (strip (mapping es) ≡ mapping after)
              × (get k after ≡ Option.map strip (get k es)))
  unfolding strip
  get-strip k es = (
    λ h. (strip_student es, rw h, get-strip_student k es),
    λ h. (strip_entries es, rw h, get-strip_entries k es),
  )
