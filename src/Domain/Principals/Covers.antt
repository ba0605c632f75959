-- ===== src/Domain/Principals/Covers.antt =====
-- What `InstitutionScope.covers` means: inclusion of the places that a scope names.
use guru_ji.Prelude.{
  String, ◌≡◌, refl, sym, ◌∙◌, ◌↔◌, true, ◌&&◌, Option, none, some, arith, eq_iff, and-true_iff,
  ◌==◌, string_eq,
}
use guru_ji.Domain.Principals.{InstitutionScope, part_covers, covers}

-- A place is a batch of a department of a college.
abbrev pub Within : Option String → String → Type 0
Within none x = Unit
Within (some s) x = s ≡ x

-- The places of a scope: an absent part means every value.
pub record Names (s : InstitutionScope) (college department batch : String) : Type 0 where
  pub at_college : s.college_id ≡ college
  pub at_department : Within s.department_id department
  pub at_batch : Within s.batch_id batch

Within-part_covers :
    (g r : Option String) (x : String) → part_covers g r ≡ true → Within r x → Within g x
unfolding part_covers
Within-part_covers none r x h w = tt
Within-part_covers (some g) none x h w = absurd (cc)
Within-part_covers (some g) (some r) x h w = (eq_iff g r).0 h ∙ w

part_covers-Within :
    (g r : Option String) → ((x : String) → Within r x → Within g x) → part_covers g r ≡ true
unfolding part_covers
part_covers-Within none none h = refl
part_covers-Within none (some r) h = refl
part_covers-Within (some g) none h = absurd (cc ((eq_iff "a" "b").1 (sym (h "a" tt) ∙ h "b" tt)))
part_covers-Within (some g) (some r) h = (eq_iff g r).1 (h r refl)

covers_parts :
    (g r : InstitutionScope)
    → (covers g r ≡ true) ↔ (
        (g.college_id ≡ r.college_id)
        × (part_covers g.department_id r.department_id ≡ true)
        × (part_covers g.batch_id r.batch_id ≡ true))
unfolding covers
covers_parts g r = ground (
  arith,
  eq_iff g.college_id r.college_id,
  and-true_iff (g.college_id == r.college_id) (part_covers g.department_id r.department_id),
  and-true_iff (g.college_id == r.college_id && part_covers g.department_id r.department_id)
      (part_covers g.batch_id r.batch_id),
)

-- A value that an absent or present part allows.
some_place : Option String → String
some_place none = ""
some_place (some s) = s

some_place-Within : (o : Option String) → Within o (some_place o)
unfolding some_place
some_place-Within none = tt
some_place-Within (some s) = refl

-- A granted scope covers a requested one exactly when every college, department and batch that
-- the requested scope names is one that the granted scope names.
pub covers-Names_iff :
    (g r : InstitutionScope)
    → (covers g r ≡ true) ↔ ((c d b : String) → Names r c d b → Names g c d b)
covers-Names_iff g r = (include, exclude)
  where
    include : covers g r ≡ true → (c d b : String) → Names r c d b → Names g c d b
    include h c d b n =
        let p = (covers_parts g r).0 h in
        record {
          at_college = p.0 ∙ n.at_college;
          at_department = Within-part_covers g.department_id r.department_id d p.1 n.at_department;
          at_batch = Within-part_covers g.batch_id r.batch_id b p.2 n.at_batch;
        }

    exclude : ((c d b : String) → Names r c d b → Names g c d b) → covers g r ≡ true
    exclude h =
        let d : String = some_place r.department_id in
        let b : String = some_place r.batch_id in
        let wd : Within r.department_id d = some_place-Within r.department_id in
        let wb : Within r.batch_id b = some_place-Within r.batch_id in
        (covers_parts g r).1 (
          (h r.college_id d b
              (record { at_college = refl; at_department = wd; at_batch = wb })).at_college,
          part_covers-Within g.department_id r.department_id (λ x w.
              (h r.college_id x b
                (record { at_college = refl; at_department = w; at_batch = wb })).at_department),
          part_covers-Within g.batch_id r.batch_id (λ x w.
              (h r.college_id d x
                (record { at_college = refl; at_department = wd; at_batch = w })).at_batch),
        )

-- Covering passes on through an intermediate scope.
covers_trans :
    (a b c : InstitutionScope) → covers a b ≡ true → covers b c ≡ true → covers a c ≡ true
covers_trans a b c h k =
    (covers-Names_iff a c).1
      (λ x y z n. (covers-Names_iff a b).0 h x y z ((covers-Names_iff b c).0 k x y z n))
