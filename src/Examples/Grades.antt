-- ===== src/Examples/Grades.antt =====
-- A pass that raises the grade of one asset and finds another one hijacked.
use guru_ji.Prelude.{String, ◌≡◌, refl, none, some, List, [], ◌∷◌, map, here, Member, string_eq}
use guru_ji.Map.Grades.{
  Grade, b, c, d, Grade-discrete, grade_rank, AssetStatus, live, hijacked, Asset, apply_proposed,
  hold_row, put_back,
}
use guru_ji.Map.Gate.{
  hold_changes, held_changes, change_of, is_kept, was_grade, was_reasons, was_scorer, is_security,
}
use guru_ji.Map.Gate.Held.{
  held_row, ReadsBefore, hold_changes-ReadsBefore, published, apply_proposed-hold_changes,
}

abbrev asset : String → AssetStatus → Grade → Asset
asset id status grade = record {
  asset_id = id;
  asset_key = id;
  status = status;
  grade = grade;
  grade_reasons = [];
  scorer_version = some "v2";
  proposed = none;
}

abbrev before : List Asset
before = asset "x" live c ∷ asset "y" live c ∷ []

abbrev after : List Asset
after = asset "x" live b ∷ asset "y" hijacked d ∷ []

hold_changes_test : map (λ x. x.grade) (hold_changes before [] "run-1" after) ≡ c ∷ d ∷ []
unfolding hold_changes held_changes change_of is_kept was_grade was_reasons was_scorer is_security
    Grade-discrete grade_rank hold_row put_back
hold_changes_test = refl

hold_changes-ReadsBefore_example :
    (hold_changes before [] "run-1" after ≡ map (held_row before [] "run-1") after)
    × ((x : Asset) → ReadsBefore before [] "run-1" x)
hold_changes-ReadsBefore_example =
    hold_changes-ReadsBefore before [] "run-1" after (refl, (refl, tt))

apply_proposed-hold_changes_example :
    Member
      (published before [] "run-1" (asset "x" live b))
      (apply_proposed (some "run-1") (hold_changes before [] "run-1" after))
unfolding is_kept was_grade is_security Grade-discrete grade_rank
apply_proposed-hold_changes_example =
    apply_proposed-hold_changes before [] "run-1" after (asset "x" live b) (refl, (refl, tt)) here
      refl
