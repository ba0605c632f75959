-- ===== src/Normalization/Deduplication.antt =====
-- The loop of `find_duplicates` in apps/api/app/normalization/deduplication.py over the keys of a
-- batch. `record_key` and `content_hash`, which the source computes from a record's fields, stand
-- as fields of the record, and scores are in hundredths. `decimal` prints a number. The search for
-- probable people, which follows the loop, is not part of the model.
pub mod Described
pub mod Differing
use Prim.Native.Char.{code}
use guru_ji.Prelude.{
  ℕ, zero, suc, String, Bool, true, false, not, ◌&&◌, ◌||◌, nat_eq, ◌==◌, Eq, string_eq, option_eq,
  Option, none, some, List, [], ◌∷◌, ◌++◌, map, any, find, select, take, get_elem?, contains,
  if◌then◌else◌,
}
use guru_ji.Domain.Text.{text_append, sorted}

-- `not key.strip("|")`
unfoldable pub only_bars : String → Bool
only_bars String.[] = true
only_bars (String.◌∷◌ c s) = code c == b'|' && only_bars s

pub data Kind : Type 0 where
  exact_key conflicting_key probable_person : Kind

pub data Action : Type 0 where
  insert update duplicate_in_batch conflict_in_batch missing_key : Action

pub data Evidence : Type 0 where
  identical : Evidence
  differing_fields : List String → Evidence

pub record DuplicateCandidate : Type 0 where
  pub kind : Kind
  pub left_locator : String
  pub right_locator : Option String
  pub record_key : Option String
  pub score : ℕ
  pub evidence : Evidence

pub record CanonicalRecord (V : Type 0) : Type 0 where
  pub record_key : String
  pub content_hash : String
  pub fields : List (String × V)
  pub source_locator : Option String

pub record Pass : Type 0 where
  pub candidates : List DuplicateCandidate
  pub actions : List (ℕ × Action)
  pub first_by_key : List (String × ℕ)

-- `record.lineage.source_locator or f"row={index + 1}"`
unfoldable pub locator_of : (ℕ → String) → ℕ → Option String → String
locator_of decimal index none = text_append "row=" (decimal (suc index))
locator_of decimal index (some s) = if s == "" then text_append "row=" (decimal (suc index)) else s

abbrev pub option_bind : {A B : Type 0} → Option A → (A → Option B) → Option B
option_bind none f = none
option_bind (some a) f = f a

module _ {V : Type 0} ⦃e : Eq V⦄ where
  -- `fields.get(name)`
  unfoldable pub field_of : List (String × V) → String → Option V
  field_of [] name = none
  field_of ((n, v) ∷ fields) name =
      let rest = field_of fields name in if n == name then some v else rest

  -- `set(record.fields) | set(other.fields)`
  unfoldable pub all_names : CanonicalRecord V → CanonicalRecord V → List String
  all_names r o =
      let own = map (λ f. f.0) r.fields in
      own ++ select (λ n. not (contains own n)) (map (λ f. f.0) o.fields)

  unfoldable pub differing : CanonicalRecord V → CanonicalRecord V → List String
  unfolding field_of all_names
  differing r o =
      sorted (select (λ n. not (field_of r.fields n == field_of o.fields n)) (all_names r o))

  -- The action and the candidate of a record whose key `other` was the first to claim.
  unfoldable pub against :
      String → CanonicalRecord V → CanonicalRecord V → Action × DuplicateCandidate
  against locator r other =
      if other.content_hash == r.content_hash
      then (
        duplicate_in_batch,
        record {
          kind = exact_key;
          left_locator = locator;
          right_locator = other.source_locator;
          record_key = some r.record_key;
          score = 100;
          evidence = identical;
        },
      )
      else (
        conflict_in_batch,
        record {
          kind = conflicting_key;
          left_locator = locator;
          right_locator = other.source_locator;
          record_key = some r.record_key;
          score = 95;
          evidence = differing_fields (take 20 (differing r other));
        },
      )

  module _ (decimal : ℕ → String) (existing : List (String × List (String × V))) where
    -- `key in existing`
    unfoldable pub is_existing : String → Bool
    is_existing key = any (λ x. x.0 == key) existing

    -- `first_by_key[key] = index`, of a key that has no entry, and the action of its record.
    unfoldable pub claim_key : ℕ → String → Pass → Pass
    unfolding is_existing
    claim_key index key p = record {
      candidates = p.candidates;
      actions = p.actions ++ (index, if is_existing key then update else insert) ∷ [];
      first_by_key = p.first_by_key ++ (key, index) ∷ [];
    }

    unfoldable pub repeat_key : ℕ → CanonicalRecord V → CanonicalRecord V → Pass → Pass
    unfolding against locator_of
    repeat_key index r other p =
        let (action, candidate) = against (locator_of decimal index r.source_locator) r other in
        record p {
          candidates = p.candidates ++ candidate ∷ [];
          actions = p.actions ++ (index, action) ∷ [];
        }

    -- `records[first_by_key[key]]`; `none` is the IndexError.
    unfoldable pub compare_first :
        ℕ → CanonicalRecord V → Option (CanonicalRecord V) → Pass → Option Pass
    unfolding repeat_key
    compare_first index r none p = none
    compare_first index r (some other) p = some (repeat_key index r other p)

    unfoldable pub meet :
        List (CanonicalRecord V) → ℕ → CanonicalRecord V → Option (String × ℕ) → Pass → Option Pass
    unfolding claim_key compare_first
    meet records index r none p = some (claim_key index r.record_key p)
    meet records index r (some (key, i)) p = compare_first index r (get_elem? records i) p

    -- One round of the loop.
    unfoldable pub visit : List (CanonicalRecord V) → ℕ → CanonicalRecord V → Pass → Option Pass
    unfolding only_bars meet
    visit records index r p =
        if only_bars r.record_key
        then some (record p { actions = p.actions ++ (index, missing_key) ∷ [] })
        else meet records index r (find (λ x. x.0 == r.record_key) p.first_by_key) p

    unfoldable pub visit_all :
        List (CanonicalRecord V) → ℕ → List (CanonicalRecord V) → Pass → Option Pass
    unfolding visit
    visit_all records index [] p = some p
    visit_all records index (r ∷ rest) p =
        option_bind (visit records index r p) (λ q. visit_all records (suc index) rest q)

    unfoldable pub keyed_pass : List (CanonicalRecord V) → Option Pass
    unfolding visit_all
    keyed_pass records =
        visit_all records 0 records record { candidates = []; actions = []; first_by_key = [] }
