-- ===== src/Domain/Values.antt =====
-- Python's plain data: scalars, lists, tuples and dictionaries with text keys. A dictionary keeps
-- its insertion order, and its keys are distinct in every value that Python can build.
use guru_ji.Prelude.{String, Bool, false, ◌||◌, Option, none, some, ◌==◌, string_eq, if◌then◌else◌}

mutual
  pub data Value (S : Type 0) : Type 0 where
    scalar : S → Value S
    list : Items S → Value S
    tuple : Items S → Value S
    mapping : Entries S → Value S

  pub data Items (S : Type 0) : Type 0 where
    nil : Items S
    cons : Value S → Items S → Items S

  pub data Entries (S : Type 0) : Type 0 where
    end : Entries S
    entry : String → Value S → Entries S → Entries S

module _ {S : Type 0} where
  -- `key in value`
  unfoldable pub has_key : String → Entries S → Bool
  has_key k end = false
  has_key k (entry j v r) = j == k || has_key k r

  -- `value.get(key)`
  unfoldable pub get : String → Entries S → Option (Value S)
  get k end = none
  get k (entry j v r) = let rest = get k r in if j == k then some v else rest
