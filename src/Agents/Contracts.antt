-- ===== src/Agents/Contracts.antt =====
-- apps/api/app/agents/contracts.py: commands, plans and the results of their steps. Durations are
-- not modelled. `N` is the type of Python's numbers.
use guru_ji.Prelude.{
  ℕ, String, Bool, true, false, not, Option, none, some, List, [], ◌∷◌, ◌==◌, string_eq,
  if◌then◌else◌, ltb, length, map, all, contains,
}
use guru_ji.Domain.Text.{is_blank, join, text_length}
use guru_ji.Domain.Principals.{InstitutionScope, Principal}
use guru_ji.Gateway.Types.{Status, success, Denial, Json, Object, PendingApproval}

abbrev pub max_plan_steps : ℕ
max_plan_steps = 8

pub record AgentCommand : Type 0 where
  pub request_id : String
  pub who : Principal
  pub scope : InstitutionScope
  pub text : String
  pub channel : String
  pub conversation_id : Option String
  pub approval_id : Option String
  pub run_in_background : Bool
  pub in_background : Bool

abbrev pub max_command_chars : ℕ
max_command_chars = 4000

-- The command that the constructor leaves; `none` is the ValueError, and `words` is `str.split`.
unfoldable pub make_command : (String → List String) → AgentCommand → Option AgentCommand
make_command words c =
    let text = join " " (words c.text) in
    if text == ""
    then none
    else if ltb max_command_chars (text_length text)
    then none
    else if is_blank c.request_id
    then none
    else some (record c { text = text })

-- `a != b` of every two elements: the length of the set is the length of the list.
unfoldable pub distinct : List String → Bool
distinct [] = true
distinct (x ∷ xs) = if contains xs x then false else distinct xs

abbrev pub is_success : Status → Bool
is_success success = true
is_success _ = false

-- Why a binding has no value.
pub data BindingError : Type 0 where
  invalid_reference unknown_step index_of_non_list : String → BindingError
  key_of_scalar : String → String → BindingError

-- What a step's refusal says.
pub data Why : Type 0 where
  refused : Denial → Why
  unbound : BindingError → Why
  step_failure : Why

pub data Summary : Type 0 where
  said : String → Summary
  because : Why → Summary

module _ (N : Type 0) where
  pub record PlanStep : Type 0 where
    pub step_id : String
    pub tool : String
    pub arguments : Object N
    pub purpose : String
    pub depends_on : List String
    pub bindings : List (String × String)
    pub agent : String

  pub record AgentPlan : Type 0 where
    pub intent : String
    pub steps : List PlanStep
    pub clarification : Option String
    pub summary : String
    pub planner : String
    pub entities : Object N

  pub record StepResult : Type 0 where
    pub step_id : String
    pub tool : String
    pub status : Status
    pub summary : Summary
    pub output : Option (Json N)
    pub records_returned : ℕ
    pub warnings : List (Object N)
    pub provenance : List (Object N)
    pub artifacts : List (Object N)
    pub denial_reason : Option Why
    pub approval : Option (PendingApproval N)

module _ {N : Type 0} where
  abbrev pub ids : List (PlanStep N) → List String
  ids steps = map (λ s. s.step_id) steps

  -- The plan that the constructor accepts; `none` is the ValueError.
  unfoldable pub make_plan : AgentPlan N → Option (AgentPlan N)
  make_plan p =
      if ltb max_plan_steps (length p.steps)
      then none
      else if not (distinct (ids p.steps))
      then none
      else if all (λ s. all (contains (ids p.steps)) s.depends_on) p.steps
      then some p
      else none

  -- `StepResult.ok`
  unfoldable pub ok : StepResult N → Bool
  ok r = is_success r.status
