-- ===== src/DataAccess/FieldPolicy.antt =====
-- apps/api/app/data_access/field_policy.py: the fields that a caller may receive.
pub mod Strip
use guru_ji.Prelude.{
  String, Bool, true, false, not, Option, none, some, List, [], ◌∷◌, ◌++◌, if◌then◌else◌, contains,
  string_eq, select, map,
}
use guru_ji.Domain.Principals.{Principal, students_read_contact, faculty_read, has_capability}
use guru_ji.Domain.Values.{
  Value, scalar, list, tuple, mapping, Items, nil, cons, Entries, end, entry, has_key, get,
}

unfoldable pub student_base_fields : List String
student_base_fields =
    "student_id" ∷ "name" ∷ "program" ∷ "department" ∷ "semester" ∷ "section" ∷ "batch" ∷ "status"
    ∷ []

unfoldable pub student_contact_fields : List String
student_contact_fields =
    "phone" ∷ "email" ∷ "guardian_name" ∷ "guardian_phone" ∷ "address" ∷ "date_of_birth" ∷ "gender"
    ∷ "category" ∷ "blood_group" ∷ "admission_year" ∷ []

unfoldable pub faculty_base_fields : List String
faculty_base_fields =
    "faculty_id" ∷ "name" ∷ "designation" ∷ "department" ∷ "qualification" ∷ "specialization"
    ∷ "is_hod" ∷ "status" ∷ []

unfoldable pub faculty_contact_fields : List String
faculty_contact_fields = "email" ∷ "phone" ∷ "joining_date" ∷ "experience_years" ∷ []

unfoldable pub staff_base_fields : List String
staff_base_fields = "staff_id" ∷ "name" ∷ "designation" ∷ "department" ∷ "status" ∷ []

unfoldable pub staff_contact_fields : List String
staff_contact_fields = "email" ∷ "phone" ∷ "joining_date" ∷ []

unfoldable pub allowed_student_fields : Principal → List String
allowed_student_fields p =
    if has_capability p students_read_contact
    then student_base_fields ++ student_contact_fields
    else student_base_fields

unfoldable pub allowed_faculty_fields : Principal → List String
allowed_faculty_fields p =
    if has_capability p faculty_read
    then faculty_base_fields ++ faculty_contact_fields
    else faculty_base_fields

unfoldable pub allowed_staff_fields : Principal → List String
allowed_staff_fields p =
    if has_capability p faculty_read
    then staff_base_fields ++ staff_contact_fields
    else staff_base_fields

-- `name in SENSITIVE_STUDENT_KEYS`
unfoldable pub is_sensitive : String → Bool
is_sensitive key = contains student_contact_fields key

-- `[name for name in (requested or allowed) if name in allowed]`
unfoldable pub wanted_fields : List String → Option (List String) → List String
wanted_fields allowed none = select (contains allowed) allowed
wanted_fields allowed (some []) = select (contains allowed) allowed
wanted_fields allowed (some (x ∷ xs)) = select (contains allowed) (x ∷ xs)

-- The keys of a dict comprehension: a repeated name keeps its first place.
first_uses : List String → List String → List String
first_uses seen [] = []
first_uses seen (n ∷ ns) =
    let fresh = n ∷ first_uses (n ∷ seen) ns in
    let again = first_uses seen ns in if contains seen n then again else fresh

module _ {S : Type 0} where
  -- The pass over one value for a caller that may not read contact fields.
  unfoldable mutual
    pub strip : Value S → Value S
    strip (scalar s) = scalar s
    strip (list xs) = list (strip_items xs)
    strip (tuple xs) = tuple (strip_items xs)
    strip (mapping es) =
        mapping (if has_key "student_id" es then strip_student es else strip_entries es)

    pub strip_items : Items S → Items S
    strip_items nil = nil
    strip_items (cons x xs) = cons (strip x) (strip_items xs)

    pub strip_entries : Entries S → Entries S
    strip_entries end = end
    strip_entries (entry k v r) = entry k (strip v) (strip_entries r)

    pub strip_student : Entries S → Entries S
    strip_student end = end
    strip_student (entry k v r) =
        let rest = strip_student r in
        let kept = strip v in if is_sensitive k then rest else entry k kept rest

  unfoldable pub strip_student_contact : Principal → Value S → Value S
  strip_student_contact p v = if has_capability p students_read_contact then v else strip v

  -- `None` for a field that the record lacks.
  unfoldable pub minimize :
      Entries S → List String → Option (List String) → List (String × Option (Value S))
  unfolding wanted_fields first_uses
  minimize entries allowed requested =
      map (λ n. (n, get n entries)) (first_uses [] (wanted_fields allowed requested))
