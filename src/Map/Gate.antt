-- ===== src/Map/Gate.antt =====
-- apps/api/app/internet_intelligence/map/gate.py: the comparison of two measurements, and what a
-- held pass leaves. A rate is a number of `R`; `falls` tells that it has fallen by more than the
-- tolerance.
pub mod Held
use guru_ji.Prelude.{
  ℕ, String, Bool, true, false, not, ◌&&◌, ◌||◌, Option, none, some, List, [], ◌∷◌, ◌++◌,
  if◌then◌else◌, ◌==◌, string_eq, ltb, contains, find, select, any,
}
use guru_ji.Map.Grades.{
  Grade, unrated, grade_eq, grade_rank, AssetStatus, dead, parked, hijacked, compromised,
  redirected, Asset, has_id, Change, put_back,
}

pub record Metrics (R : Type 0) : Type 0 where
  pub canary_leaks : List String
  pub seed_verification_rate : Option R
  pub holdout_recall : Option R
  pub precision : Option R

pub data Reason : Type 0 where
  leaks : List String → Reason
  falls_in : String → Reason

pub record GateVerdict : Type 0 where
  pub passed : Bool
  pub reasons : List Reason

module _ {R : Type 0} (falls : R → R → Bool) where
  unfoldable pub regressed : Option R → Option R → Bool
  regressed (some was) (some now) = falls was now
  regressed _ _ = false

  abbrev when : Bool → Reason → List Reason
  when b r = if b then r ∷ [] else []

  abbrev no_reason : List Reason → Bool
  no_reason [] = true
  no_reason (r ∷ rs) = false

  unfoldable pub new_leaks : Metrics R → Metrics R → List String
  new_leaks before after = select (λ k. not (contains before.canary_leaks k)) after.canary_leaks

  abbrev leak_reason : List String → List Reason
  leak_reason [] = []
  leak_reason (k ∷ ks) = leaks (k ∷ ks) ∷ []

  unfoldable pub reasons_for : Metrics R → Metrics R → List Reason
  unfolding regressed new_leaks
  reasons_for before after =
      leak_reason (new_leaks before after)
      ++ (when (regressed before.seed_verification_rate after.seed_verification_rate)
            (falls_in "seed verification")
          ++ (when (regressed before.holdout_recall after.holdout_recall)
                (falls_in "holdout recall")
              ++ when (regressed before.precision after.precision) (falls_in "precision")))

  unfoldable pub compare : Metrics R → Metrics R → GateVerdict
  unfolding reasons_for
  compare before after = record {
    passed = no_reason (reasons_for before after);
    reasons = reasons_for before after;
  }

unfoldable pub is_security : AssetStatus → Bool
is_security compromised = true
is_security hijacked = true
is_security parked = true
is_security redirected = true
is_security dead = true
is_security _ = false

-- The published grade before the pass.
unfoldable pub was_grade : List Asset → Asset → Grade
was_grade before x = elim (find (has_id x.asset_id) before) [ none ↦ unrated | some p ↦ p.grade ]

unfoldable pub was_reasons : List Asset → Asset → List String
was_reasons before x = elim (find (has_id x.asset_id) before) [
  | none ↦ []
  | some p ↦ p.grade_reasons
]

unfoldable pub was_scorer : List Asset → Asset → Option String
was_scorer before x = elim (find (has_id x.asset_id) before) [
  | none ↦ none
  | some p ↦ p.scorer_version
]

-- The changes that are never held back.
unfoldable pub is_kept : List Asset → List String → Asset → Bool
unfolding was_grade is_security
is_kept before canaries x =
    x.grade == was_grade before x
    || contains canaries x.asset_key
    || (ltb (grade_rank x.grade) (grade_rank (was_grade before x)) && is_security x.status)

unfoldable pub change_of : List Asset → Asset → Change
unfolding was_grade was_reasons was_scorer
change_of before x = record {
  asset_id = x.asset_id;
  before_grade = was_grade before x;
  before_reasons = was_reasons before x;
  before_scorer = was_scorer before x;
  grade = x.grade;
  reasons = x.grade_reasons;
  scorer = x.scorer_version;
}

unfoldable pub held_changes : List Asset → List String → List Asset → List Change
unfolding is_kept change_of
held_changes before canaries [] = []
held_changes before canaries (x ∷ t) =
    let rest = held_changes before canaries t in
    if is_kept before canaries x then rest else change_of before x ∷ rest

unfoldable pub hold_changes : List Asset → List String → String → List Asset → List Asset
unfolding held_changes put_back
hold_changes before canaries run t = put_back (held_changes before canaries t) run t
