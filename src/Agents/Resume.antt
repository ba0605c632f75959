-- ===== src/Agents/Resume.antt =====
-- `_resume` and `_keep_for_resume` of apps/api/app/agents/master.py. A plan kept with a
-- confirmation is stored as JSON; `Kept` is what is read back from it, and a text that cannot be
-- read is `none`, as a confirmation kept without its plan.
pub mod Resumed
use guru_ji.Prelude.{
  String, Bool, true, false, not, ◌&&◌, Option, none, some, List, [], ◌∷◌, ◌++◌, if◌then◌else◌,
  ◌==◌, string_eq, contains, map, find, is_some, select,
}
use guru_ji.Domain.Text.{text_append, join}
use guru_ji.Domain.Values.{mapping, entry, end, scalar}
use guru_ji.Gateway.Types.{Json, Object, PlatformTool, PendingApproval}
use guru_ji.Agents.Contracts.{PlanStep, AgentPlan, make_plan, ids, StepResult, ok}
use guru_ji.Agents.Bindings.{Reference, referenced_steps, put}
use guru_ji.Agents.Verification.{asks}

-- `TOOL_GROUP_AGENT.get(group, "data")` of planner.py
unfoldable pub group_agent : String → String
group_agent g =
    if contains ("reports" ∷ "email" ∷ "notifications" ∷ "records" ∷ []) g
    then "action"
    else if g == "internet"
    then "internet"
    else "data"

pub record Kept (N : Type 0) : Type 0 where
  pub plan : AgentPlan N
  pub stopped_at : String
  pub completed : Object N

module _ {N : Type 0} where
  -- The step at which the run stopped, and the steps after it.
  unfoldable pub stop_in :
      String → String → List (PlanStep N) → Option (PlanStep N × List (PlanStep N))
  stop_in stopped_at tool [] = none
  stop_in stopped_at tool (s ∷ steps) =
      let rest = stop_in stopped_at tool steps in
      if s.step_id == stopped_at && s.tool == tool then some (s, steps) else rest

  abbrev pub run_alone : PlatformTool N → Object N → AgentPlan N
  run_alone tool arguments = record {
    intent = tool.name;
    steps =
        record {
          step_id = "s1";
          tool = tool.name;
          arguments = arguments;
          purpose = text_append "run the confirmed " tool.name;
          depends_on = [];
          bindings = [];
          agent = group_agent tool.group;
        }
        ∷ [];
    clarification = none;
    summary = text_append "run the confirmed " tool.name;
    planner = "approval";
    entities = end;
  }

  -- The confirmed call in place of the step that asked for it.
  abbrev pub confirmed : PlatformTool N → Object N → PlanStep N → PlanStep N
  confirmed tool arguments s = record {
    step_id = s.step_id;
    tool = tool.name;
    arguments = arguments;
    purpose = s.purpose;
    depends_on = [];
    bindings = [];
    agent = s.agent;
  }

  -- Dependencies on steps that are not run again are dropped.
  abbrev pub keep_present : List String → PlanStep N → PlanStep N
  keep_present present s = record s { depends_on = select (contains present) s.depends_on }

  unfoldable pub remaining_steps :
      PlatformTool N → Object N → PlanStep N → List (PlanStep N) → List (PlanStep N)
  remaining_steps tool arguments stopped later =
      let remaining = confirmed tool arguments stopped ∷ later in
      map (keep_present (ids remaining)) remaining

  abbrev pub plan_of : PlatformTool N → AgentPlan N → List (PlanStep N) → AgentPlan N
  plan_of tool kept remaining = record {
    intent = if kept.intent == "" then tool.name else kept.intent;
    steps = remaining;
    clarification = none;
    summary = join " then " (map (λ s. s.purpose) remaining);
    planner = "approval";
    entities = kept.entities;
  }

  abbrev pub with_outputs : Object N → Option (AgentPlan N) → Option (AgentPlan N × Object N)
  with_outputs o none = none
  with_outputs o (some p) = some (p, o)

  unfoldable pub resume_at :
      PlatformTool N
      → Object N
      → Kept N
      → Option (PlanStep N × List (PlanStep N))
      → Option (AgentPlan N × Object N)
  unfolding remaining_steps make_plan
  resume_at tool arguments k none = with_outputs end (make_plan (run_alone tool arguments))
  resume_at tool arguments k (some (stopped, later)) =
      with_outputs k.completed
        (make_plan (plan_of tool k.plan (remaining_steps tool arguments stopped later)))

  -- `none` is a ValueError of the constructor of the resumed plan, which leaves `_resume`.
  unfoldable pub resume :
      PlatformTool N → Object N → Option (Kept N) → Option (AgentPlan N × Object N)
  unfolding resume_at stop_in
  resume tool arguments none = with_outputs end (make_plan (run_alone tool arguments))
  resume tool arguments (some k) =
      resume_at tool arguments k (stop_in k.stopped_at tool.name k.plan.steps)

module _ {N : Type 0} (read_reference : String → Option Reference) where
  -- The steps after the one with this id.
  unfoldable pub steps_after : String → List (PlanStep N) → List (PlanStep N)
  steps_after id [] = []
  steps_after id (s ∷ steps) =
      let rest = steps_after id steps in if s.step_id == id then steps else rest

  unfoldable pub needed : List (PlanStep N) → List String
  unfolding referenced_steps
  needed [] = []
  needed (s ∷ steps) = referenced_steps read_reference s ++ needed steps

  -- The outputs of the completed steps in `ns`, over those collected so far.
  unfoldable pub kept_outputs :
      (StepResult N → Json N) → List String → List (StepResult N) → Object N → Object N
  unfolding ok put
  kept_outputs output_of ns [] kept = kept
  kept_outputs output_of ns (r ∷ rs) kept =
      kept_outputs output_of ns rs
        (if ok r && contains ns r.step_id then put r.step_id (output_of r) kept else kept)

  abbrev asked : StepResult N → Bool
  asked r = asks r.status && is_some r.approval

  abbrev kept_with :
      (StepResult N → Json N)
      → AgentPlan N
      → List (StepResult N)
      → StepResult N
      → Option (PendingApproval N)
      → Option (String × Kept N)
  kept_with output_of p results r none = none
  kept_with output_of p results r (some a) = some (
    a.approval_id,
    record {
      plan = p;
      stopped_at = r.step_id;
      completed = kept_outputs output_of (needed (steps_after r.step_id p.steps)) results end;
    },
  )

  -- What is kept, and with which confirmation.
  unfoldable pub keep_for_resume :
      (StepResult N → Json N) → AgentPlan N → List (StepResult N) → Option (String × Kept N)
  unfolding kept_outputs steps_after needed
  keep_for_resume output_of p results = elim (find asked results) [
    | none ↦ none
    | some r ↦ kept_with output_of p results r r.approval
  ]
