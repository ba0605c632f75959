-- ===== src/Orchestration/Planner.antt =====
-- apps/api/app/orchestration/plan_validator.py; `lower` is `str.lower` and `words` is `str.split`.
pub mod Allowed
use guru_ji.Prelude.{
  ℕ, String, Bool, true, false, not, ◌&&◌, Option, none, some, List, [], ◌∷◌, ◌++◌, map, any,
  if◌then◌else◌, ◌==◌, string_eq, ltb, length, contains,
}
use guru_ji.Domain.Text.{occurs, join}
use guru_ji.Domain.Principals.{InstitutionScope}
use guru_ji.Domain.Requests.{ChatRequest}
use guru_ji.Orchestration.Registries.{
  SourceDefinition, SourceRegistry, ToolDefinition, ToolRegistry, get_source, get_tool,
  for_institution, allows_source, is_active,
}

pub record PlannedTool : Type 0 where
  pub name : String
  pub source_id : String
  pub limit : Option ℕ

abbrev pub public_web_intent_markers : List String
public_web_intent_markers =
    "search the web" ∷ "web search" ∷ "search online" ∷ "look online" ∷ "internet search"
    ∷ "public web" ∷ "online sources" ∷ "official websites" ∷ "official website" ∷ []

unfoldable pub is_public_web_prompt : (String → String) → (String → List String) → String → Bool
is_public_web_prompt lower words prompt =
    any (λ m. occurs m (join " " (words (lower prompt)))) public_web_intent_markers

abbrev pub attendance_tool : String
attendance_tool = "institution.attendance_summary"

unfoldable pub classify_prompt : (String → String) → String → List String
classify_prompt lower prompt =
    if any (λ w. occurs w (lower prompt)) ("health" ∷ "availability" ∷ "source" ∷ [])
    then "institution.source_health" ∷ []
    else if any (λ w. occurs w (lower prompt))
        ("attendance" ∷ "present" ∷ "absent" ∷ "at risk" ∷ [])
    then attendance_tool ∷ []
    else "institution.overview" ∷ []

-- The exceptions of the planner: ValueError by what it says, and KeyError of a registry.
pub data PlanError : Type 0 where
  no_source inactive_source outside_scope no_department_scope no_batch_scope : String → PlanError
  not_approved not_exposed unknown_source unknown_tool : String → PlanError
  too_many_steps : PlanError

pub data Planned (A : Type 0) : Type 0 where
  planned : A → Planned A
  raised : PlanError → Planned A

-- `if part` of a scope
abbrev pub is_given : Option String → Bool
is_given none = false
is_given (some t) = not (t == "")

module _ (scope : InstitutionScope) where
  abbrev pub step_for : String → String → PlannedTool
  step_for name source = record {
    name = name;
    source_id = source;
    limit = if name == attendance_tool then some 3 else none;
  }

  -- The checks of one tool for one source.
  unfoldable pub check_tool :
      SourceDefinition → String → ToolDefinition → String → Planned PlannedTool
  check_tool d id t name =
      if is_given scope.department_id && not t.supports_department_scope
      then raised (no_department_scope name)
      else if is_given scope.batch_id && not t.supports_batch_scope
      then raised (no_batch_scope name)
      else if not (allows_source t id)
      then raised (not_approved name)
      else if not (contains d.allowed_tools name)
      then raised (not_exposed name)
      else planned (step_for name id)

  unfoldable pub check_named :
      SourceDefinition → String → String → Option ToolDefinition → Planned PlannedTool
  unfolding check_tool
  check_named d id name none = raised (unknown_tool name)
  check_named d id name (some t) = check_tool d id t name

  abbrev before : PlannedTool → Planned (List PlannedTool) → Planned (List PlannedTool)
  before p (planned ps) = planned (p ∷ ps)
  before p (raised e) = raised e

  abbrev pub first_of :
      Planned PlannedTool → Planned (List PlannedTool) → Planned (List PlannedTool)
  first_of (planned p) rest = before p rest
  first_of (raised e) rest = raised e

  unfoldable pub plan_tools :
      ToolRegistry → SourceDefinition → String → List String → Planned (List PlannedTool)
  unfolding check_named
  plan_tools tools d id [] = planned []
  plan_tools tools d id (name ∷ names) =
      first_of (check_named d id name (get_tool tools name)) (plan_tools tools d id names)

  unfoldable pub check_source :
      ToolRegistry → List String → String → SourceDefinition → Planned (List PlannedTool)
  unfolding plan_tools
  check_source tools names id d =
      if not (is_active d.status)
      then raised (inactive_source id)
      else if not (d.institution_id == scope.college_id)
      then raised (outside_scope id)
      else plan_tools tools d id names

  unfoldable pub plan_source :
      ToolRegistry → List String → String → Option SourceDefinition → Planned (List PlannedTool)
  unfolding check_source
  plan_source tools names id none = raised (unknown_source id)
  plan_source tools names id (some d) = check_source tools names id d

  abbrev pub all_of :
      Planned (List PlannedTool) → Planned (List PlannedTool) → Planned (List PlannedTool)
  all_of (raised e) rest = raised e
  all_of (planned ps) (raised e) = raised e
  all_of (planned ps) (planned qs) = planned (ps ++ qs)

  unfoldable pub plan_sources :
      ToolRegistry → SourceRegistry → List String → List String → Planned (List PlannedTool)
  unfolding plan_source
  plan_sources tools sources names [] = planned []
  plan_sources tools sources names (id ∷ ids) =
      all_of (plan_source tools names id (get_source sources id))
        (plan_sources tools sources names ids)

abbrev pub bounded : Planned (List PlannedTool) → Planned (List PlannedTool)
bounded (raised e) = raised e
bounded (planned ps) = if ltb 5 (length ps) then raised too_many_steps else planned ps

-- `request.source_ids or tuple(...)`
unfoldable pub candidate_ids : ChatRequest → SourceRegistry → List String
candidate_ids r sources = elim r.source_ids [
  | [] ↦ map (λ d. d.source_id) (for_institution sources r.institution_scope.college_id)
  | id ∷ ids ↦ id ∷ ids
]

unfoldable pub plan_candidates :
    List String
    → ChatRequest
    → ToolRegistry
    → SourceRegistry
    → List String
    → Planned (List PlannedTool)
unfolding plan_sources
plan_candidates names r tools sources [] = raised (no_source r.institution_scope.college_id)
plan_candidates names r tools sources (id ∷ ids) =
    bounded (plan_sources r.institution_scope tools sources names (id ∷ ids))

unfoldable pub build_tool_plan :
    (String → String) → ChatRequest → ToolRegistry → SourceRegistry → Planned (List PlannedTool)
unfolding plan_candidates classify_prompt candidate_ids
build_tool_plan lower r tools sources =
    plan_candidates (classify_prompt lower r.prompt) r tools sources (candidate_ids r sources)
