-- ===== src/Agents/Bindings.antt =====
-- apps/api/app/agents/bindings.py. What the pattern `_REFERENCE` reads from a text is a parameter:
-- the step and the segments of the path, as `re` finds them.
pub mod Arguments
pub mod Reads
use guru_ji.Prelude.{
  ℕ, zero, suc, String, Bool, true, false, Option, none, some, List, [], ◌∷◌, ◌++◌, if◌then◌else◌,
  ◌==◌, string_eq, map,
}
use guru_ji.Domain.Values.{
  Value, scalar, list, tuple, mapping, Items, nil, cons, Entries, entry, end, get,
}
use guru_ji.Gateway.Spec.{Scalar, null, text}
use guru_ji.Gateway.Types.{Json, Object}
use guru_ji.Agents.Contracts.{
  PlanStep, BindingError, invalid_reference, unknown_step, index_of_non_list, key_of_scalar,
}

pub data Segment : Type 0 where
  key : String → Segment
  each : Segment
  index : ℕ → Segment

pub record Reference : Type 0 where
  pub step : String
  pub path : List Segment

pub data Resolved (A : Type 0) : Type 0 where
  value : A → Resolved A
  error : BindingError → Resolved A

-- `target[name] = value`
unfoldable pub put : {S : Type 0} → String → Value S → Entries S → Entries S
put k v end = entry k v end
put k v (entry j u r) = let rest = put k v r in if j == k then entry j v r else entry j u rest

module _ {N : Type 0} where
  abbrev pub none_value : Json N
  none_value = scalar null

  abbrev pub or_none : Option (Json N) → Json N
  or_none none = none_value
  or_none (some v) = v

  -- `item.get(key) if isinstance(item, Mapping) else None`
  abbrev get_item : String → Json N → Json N
  get_item k (mapping e) = or_none (get k e)
  get_item k _ = none_value

  unfoldable pub get_each : String → Items (Scalar N) → Items (Scalar N)
  get_each k nil = nil
  get_each k (cons v r) = cons (get_item k v) (get_each k r)

  unfoldable pub nth : ℕ → Items (Scalar N) → Json N
  nth n nil = none_value
  nth zero (cons v r) = v
  nth (suc n) (cons v r) = nth n r

  -- One round of the loop of `resolve_reference`.
  unfoldable pub follow : String → Segment → Json N → Resolved (Json N)
  unfolding get_each nth
  follow t (key k) (list xs) = value (list (get_each k xs))
  follow t (key k) (mapping e) = value (or_none (get k e))
  follow t (key k) (scalar s) = error (key_of_scalar k t)
  follow t (key k) (tuple xs) = error (key_of_scalar k t)
  follow t each (list xs) = value (list xs)
  follow t each (scalar null) = value (list nil)
  follow t each v = value (list (cons v nil))
  follow t (index n) (list xs) = value (nth n xs)
  follow t (index n) v = error (index_of_non_list t)

  unfoldable pub walk : String → List Segment → Json N → Resolved (Json N)
  unfolding follow
  walk t [] v = value v
  walk t (s ∷ path) v = elim (follow t s v) [ value u ↦ walk t path u | error e ↦ error e ]

  -- `[item for item in value if item is not None]`
  unfoldable pub present : Items (Scalar N) → Items (Scalar N)
  present nil = nil
  present (cons (scalar null) r) = present r
  present (cons v r) = cons v (present r)

  unfoldable pub without_none : Json N → Json N
  unfolding present
  without_none (list xs) = list (present xs)
  without_none v = v

module _ (read_reference : String → Option Reference) where
  unfoldable pub bound_steps : List (String × String) → List String
  bound_steps [] = []
  bound_steps ((name, t) ∷ r) = elim (read_reference t) [
    | none ↦ bound_steps r
    | some q ↦ q.step ∷ bound_steps r
  ]

module _ {N : Type 0} (read_reference : String → Option Reference) where
  -- `results` holds the outputs of the completed steps.
  unfoldable pub resolve_reference : String → Object N → Resolved (Json N)
  unfolding walk
  resolve_reference t results = elim (read_reference t) [
    | none ↦ error (invalid_reference t)
    | some r ↦ elim (get r.step results) [
      | none ↦ error (unknown_step r.step)
      | some v ↦ walk t r.path v
    ]
  ]

  -- The loop of `resolve_arguments`, from the arguments resolved so far.
  unfoldable pub resolve_arguments :
      List (String × String) → Object N → Object N → Resolved (Object N)
  unfolding resolve_reference without_none put
  resolve_arguments [] results resolved = value resolved
  resolve_arguments ((name, t) ∷ bindings) results resolved = elim (resolve_reference t results) [
    | value v ↦ resolve_arguments bindings results (put name (without_none v) resolved)
    | error e ↦ error e
  ]

  abbrev step_in : Json N → List String
  step_in (scalar (text t)) = elim (read_reference t) [ none ↦ [] | some r ↦ r.step ∷ [] ]
  step_in _ = []

  unfoldable pub steps_in : Object N → List String
  steps_in end = []
  steps_in (entry k v r) = step_in v ++ steps_in r

  -- The set of `referenced_steps`, as a list.
  unfoldable pub referenced_steps : PlanStep N → List String
  unfolding steps_in bound_steps
  referenced_steps s =
      s.depends_on ++ (bound_steps read_reference s.bindings ++ steps_in s.arguments)
