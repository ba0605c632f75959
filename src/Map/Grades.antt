-- ===== src/Map/Grades.antt =====
-- The grade columns of the table intel_assets in map/store.py, for one institution. `updated_at` is
-- not modelled, and a grade outside GRADE_RANK, a ValueError, has no constructor.
use guru_ji.Prelude.{
  ℕ, String, Bool, true, false, ◌||◌, Option, none, some, List, [], ◌∷◌, if◌then◌else◌, Eq,
  discrete_eq, ◌==◌, string_eq, option_eq, leb,
}
use guru_ji.InstitutionData.Table.{update}

pub data Grade : Type 0 where
  o a a_arch b c d unrated : Grade

unfoldable pub Grade-discrete : Discrete Grade
Grade-discrete = hlevel

instance abbrev pub grade_eq : Eq Grade
grade_eq = discrete_eq Grade-discrete

unfoldable pub grade_rank : Grade → ℕ
grade_rank o = 6
grade_rank a = 5
grade_rank a_arch = 4
grade_rank b = 3
grade_rank c = 2
grade_rank unrated = 1
grade_rank d = 0

unfoldable pub grade_at_least : Option Grade → Grade → Bool
unfolding grade_rank
grade_at_least none m = leb (grade_rank m) 1
grade_at_least (some g) m = leb (grade_rank m) (grade_rank g)

pub data AssetStatus : Type 0 where
  unknown live blocked dead parked hijacked compromised disputed redirected : AssetStatus

-- What a manager may still publish.
pub record Proposal : Type 0 where
  pub grade : Grade
  pub reasons : Option (List String)
  pub scorer : Option String
  pub run_id : Option String

pub record Asset : Type 0 where
  pub asset_id : String
  pub asset_key : String
  pub status : AssetStatus
  pub grade : Grade
  pub grade_reasons : List String
  pub scorer_version : Option String
  pub proposed : Option Proposal

abbrev pub has_id : String → Asset → Bool
has_id id x = x.asset_id == id

unfoldable pub grade_row : Grade → List String → Option String → Asset → Asset
grade_row g reasons scorer x = record x {
  grade = g;
  grade_reasons = reasons;
  scorer_version = scorer;
  proposed = none;
}

unfoldable pub propose_row : Grade → List String → Option String → Option String → Asset → Asset
propose_row g reasons scorer run x = record x {
  proposed = some (record { grade = g; reasons = some reasons; scorer = scorer; run_id = run });
}

unfoldable pub set_grade :
    String → Grade → List String → String → Bool → Option String → List Asset → List Asset
unfolding grade_row propose_row
set_grade id g reasons scorer proposed run t =
    if proposed
    then update (has_id id) (propose_row g reasons (some scorer) run) t
    else update (has_id id) (grade_row g reasons (some scorer)) t

unfoldable pub restamp_grade : String → List String → String → List Asset → List Asset
restamp_grade id reasons scorer t =
    update (has_id id) (λ x. record x { grade_reasons = reasons; scorer_version = some scorer }) t

-- `COALESCE(new, old)`
abbrev pub coalesce {ℓ} : {A : Type ℓ} → Option A → Option A → Option A
coalesce none y = y
coalesce (some x) y = some x

abbrev or_kept : Option (List String) → List String → List String
or_kept none kept = kept
or_kept (some reasons) kept = reasons

unfoldable pub publish_row : Asset → Asset
publish_row x = elim x.proposed [
  | none ↦ x
  | some p ↦ record x {
    grade = p.grade;
    grade_reasons = or_kept p.reasons x.grade_reasons;
    scorer_version = coalesce p.scorer x.scorer_version;
    proposed = none;
  }
]

unfoldable pub discard_row : Asset → Asset
discard_row x = elim x.proposed [
  | none ↦ x
  | some p ↦ record x { scorer_version = coalesce p.scorer x.scorer_version; proposed = none }
]

-- `proposed_grade IS NOT NULL`, and the run when there is one: an empty run id is none.
unfoldable pub of_run : Option String → Asset → Bool
of_run run x = elim x.proposed [
  | none ↦ false
  | some p ↦ elim run [ none ↦ true | some r ↦ r == "" || p.run_id == some r ]
]

unfoldable pub apply_proposed : Option String → List Asset → List Asset
unfolding publish_row of_run
apply_proposed run t = update (of_run run) publish_row t

unfoldable pub discard_proposed : Option String → List Asset → List Asset
unfolding discard_row of_run
discard_proposed run t = update (of_run run) discard_row t

-- A change that a held run made.
pub record Change : Type 0 where
  pub asset_id : String
  pub before_grade : Grade
  pub before_reasons : List String
  pub before_scorer : Option String
  pub grade : Grade
  pub reasons : List String
  pub scorer : Option String

unfoldable pub hold_row : Change → String → Asset → Asset
hold_row h run x = record x {
  grade = h.before_grade;
  grade_reasons = h.before_reasons;
  scorer_version = h.before_scorer;
  proposed =
      some (record {
        grade = h.grade;
        reasons = some h.reasons;
        scorer = h.scorer;
        run_id = some run;
      });
}

-- `MapStore.hold_changes`
unfoldable pub put_back : List Change → String → List Asset → List Asset
unfolding hold_row
put_back [] run t = t
put_back (h ∷ held) run t = put_back held run (update (has_id h.asset_id) (hold_row h run) t)
