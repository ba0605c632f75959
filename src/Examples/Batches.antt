-- ===== src/Examples/Batches.antt =====
-- A batch with a key on file, a repeated row, a conflicting row and a row without a key.
use guru_ji.Prelude.{
  contains, not, ◌==◌, option_eq, ℕ, String, ◌≡◌, refl, none, some, List, [], ◌∷◌, map, nat_eq,
  string_eq,
}
use guru_ji.Domain.Text.{sorted}
use guru_ji.Normalization.Deduplication.{
  only_bars, insert, update, duplicate_in_batch, conflict_in_batch, missing_key, differing_fields,
  identical, CanonicalRecord, Pass, differing, field_of, locator_of, against, is_existing,
  keyed_pass,
}
use guru_ji.Normalization.Deduplication.Described.{
  described_actions, described_candidates, keyed_pass_lem,
}

abbrev row : String → String → ℕ → CanonicalRecord ℕ
row key hash semester = record {
  record_key = key;
  content_hash = hash;
  fields = ("semester", semester) ∷ [];
  source_locator = none;
}

abbrev batch : List (CanonicalRecord ℕ)
batch = row "s1" "h1" 1 ∷ row "|" "h0" 1 ∷ row "s2" "h2" 1 ∷ row "s2" "h2" 1 ∷ row "s1" "h3" 2 ∷ []

abbrev on_file : List (String × List (String × ℕ))
on_file = ("s1", []) ∷ []

abbrev number : ℕ → String
number k = "n"

actions_test :
    described_actions number on_file [] batch
    ≡ (0, update)
      ∷ (1, missing_key)
      ∷ (2, insert)
      ∷ (3, duplicate_in_batch)
      ∷ (4, conflict_in_batch)
      ∷ []
unfolding only_bars is_existing against locator_of differing
actions_test = refl

evidence_test :
    map (λ c. c.evidence) (described_candidates number on_file [] batch)
    ≡ identical ∷ differing_fields ("semester" ∷ []) ∷ []
unfolding only_bars is_existing against locator_of differing sorted
evidence_test = refl

keyed_pass_lem_example :
    (q : Pass) × (keyed_pass number on_file batch ≡ some q)
    × (q.actions ≡ described_actions number on_file [] batch)
    × (q.candidates ≡ described_candidates number on_file [] batch)
    × ((r o : CanonicalRecord ℕ) (n : String)
        → contains (differing r o) n ≡ not (field_of r.fields n == field_of o.fields n))
keyed_pass_lem_example = keyed_pass_lem number on_file batch
