-- ===== src/Agents/Verification.antt =====
-- apps/api/app/agents/verification.py. The message of a warning is its code with the step it names or the length it gives.
-- Of the numbers it needs whether one is zero, and whether an `int` is more than a length.
pub mod Complete
use guru_ji.Prelude.{
  ℕ, zero, suc, String, Bool, true, false, not, ◌&&◌, ◌||◌, Option, none, some, List, [], ◌∷◌, ◌++◌,
  if◌then◌else◌, ◌==◌, string_eq, nat_eq, ltb, length, all, any, find, contains, is_some,
}
use guru_ji.Domain.Values.{
  Value, scalar, list, tuple, mapping, Items, nil, cons, Entries, entry, end, get,
}
use guru_ji.Gateway.Spec.{Scalar, null, boolean, number, text}
use guru_ji.Gateway.Json.{is_false}
use guru_ji.Gateway.Types.{Status, Json, Object}
use guru_ji.Agents.Contracts.{PlanStep, StepResult, is_success, ok}

-- `AgentResponse.status`
pub data Overall : Type 0 where
  complete partial refused needs_input approval_required failed accepted : Overall

abbrev pub asks : Status → Bool
asks Status.approval_required = true
asks _ = false

abbrev pub is_refusal : Status → Bool
is_refusal Status.denied = true
is_refusal Status.unknown_tool = true
is_refusal _ = false

abbrev is_empty {ℓ} : {A : Type ℓ} → List A → Bool
is_empty [] = true
is_empty (x ∷ xs) = false

module _ {N : Type 0} where
  unfoldable pub overall_status : List (PlanStep N) → List (StepResult N) → Overall
  overall_status steps results =
      if is_empty results
      then Overall.failed
      else if any (λ r. asks r.status) results
      then Overall.approval_required
      else if all (λ r. is_success r.status) results && length results == length steps
      then complete
      else if all (λ r. is_refusal r.status) results
      then refused
      else if any (λ r. is_success r.status) results
      then partial
      else Overall.failed

pub data Warning : Type 0 where
  step_not_executed : String → String → Warning
  list_truncated : String → ℕ → Warning
  empty_report email_no_recipients email_failed finding_without_source : Warning
  no_document_sources : Warning

module _ {N : Type 0} (is_zero : N → Bool) (more_than : ℕ → N → Bool) where
  unfoldable pub items_length : Items (Scalar N) → ℕ
  items_length nil = 0
  items_length (cons v r) = suc (items_length r)

  -- `rows == 0`: False is 0 too.
  unfoldable pub equals_zero : Option (Json N) → Bool
  equals_zero (some (scalar (boolean b))) = not b
  equals_zero (some (scalar (number n))) = is_zero n
  equals_zero v = false

  -- `isinstance(count, int) and isinstance(listed, list) and len(listed) < count`; True is 1.
  unfoldable pub is_truncated : Option (Json N) → Option (Json N) → Bool
  unfolding items_length
  is_truncated (some (scalar (number n))) (some (list xs)) = more_than (items_length xs) n
  is_truncated (some (scalar (boolean true))) (some (list xs)) = items_length xs == 0
  is_truncated _ _ = false

  unfoldable pub lacks_url : Items (Scalar N) → Bool
  unfolding is_false
  lacks_url nil = false
  lacks_url (cons (mapping e) r) = is_false is_zero (get "url" e) || lacks_url r
  lacks_url (cons v r) = true

  abbrev findings_of : Option (Json N) → Items (Scalar N)
  findings_of (some (list xs)) = xs
  findings_of _ = nil

  abbrev listed : Option (Json N) → ℕ
  listed (some (list xs)) = items_length xs
  listed _ = 0

  abbrev object_of : Option (Json N) → Object N
  object_of (some (mapping e)) = e
  object_of _ = end

  abbrev when : Bool → Warning → List Warning
  when b x = if b then x ∷ [] else []

  abbrev is_failed : Option (Json N) → Bool
  is_failed (some (scalar (text t))) = t == "failed"
  is_failed _ = false

  -- The checks of one successful step.
  unfoldable pub check_output : String → Object N → List Warning
  unfolding is_false equals_zero is_truncated lacks_url items_length
  check_output tool o =
      when
        (contains ("find_low_attendance" ∷ "get_pending_fees" ∷ "find_students" ∷ []) tool
          && is_truncated (get "count" o) (get "students" o))
        (list_truncated tool (listed (get "students" o)))
      ++ (when (tool == "generate_report" && equals_zero (get "row_count" o)) empty_report
          ++ (when (tool == "send_email" && is_false is_zero (get "recipients" o))
                email_no_recipients
              ++ (when (tool == "send_email" && is_failed (get "status" o)) email_failed
                  ++ (when
                        (tool == "internet_investigate"
                          && lacks_url (findings_of (get "findings" o)))
                        finding_without_source
                      ++ when (tool == "search_documents" && is_false is_zero (get "sources" o))
                          no_document_sources))))

  -- `{result.step_id: result for result in results}` keeps the last result of an id.
  unfoldable pub by_id : String → List (StepResult N) → Option (StepResult N)
  by_id k [] = none
  by_id k (r ∷ rs) =
      let rest = by_id k rs in
      elim rest [ some q ↦ some q | none ↦ (if r.step_id == k then some r else none) ]

  unfoldable pub verify_step : List (StepResult N) → PlanStep N → List Warning
  unfolding by_id check_output ok
  verify_step results s = elim (by_id s.step_id results) [
    | none ↦ step_not_executed s.step_id s.tool ∷ []
    | some r ↦ (if ok r then check_output s.tool (object_of r.output) else [])
  ]

  unfoldable pub verify : List (PlanStep N) → List (StepResult N) → List Warning
  unfolding verify_step
  verify [] results = []
  verify (s ∷ steps) results = verify_step results s ++ verify steps results
