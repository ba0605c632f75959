-- ===== src/Examples/Plans.antt =====
-- Plans of the agents: a list, a reminder that reads it, a change that asks for a confirmation, and
-- a note that depends on a step that fails.
use guru_ji.Prelude.{
  ℕ, suc, String, ◌≡◌, ◌≢◌, refl, false, none, some, List, [], ◌∷◌, ◌==◌, string_eq, if◌then◌else◌,
  here, there, ◌↔◌, ◌≤◌, length, map, nat_eq, ltb,
}
use guru_ji.Domain.Principals.{agent_command}
use guru_ji.Domain.Values.{get, scalar, entry, end, mapping}
use guru_ji.Gateway.Spec.{Scalar, read, high_risk}
use guru_ji.Gateway.Types.{
  QueryLimits, Status, success, approval_required, ToolInvocation, Object, PlatformTool,
}
use guru_ji.Agents.Contracts.{
  AgentCommand, AgentPlan, PlanStep, StepResult, make_plan, distinct, said,
}
use guru_ji.Agents.Bindings.{
  key, put, resolve_reference, resolve_arguments, walk, follow, without_none,
}
use guru_ji.Agents.Bindings.Arguments.{Origin, resolve_arguments-Origin}
use guru_ji.Agents.Execute.{
  Tools, execute, run_steps, proceed, visit, visit_with, account, run_step, summary_of, reason_of,
}
use guru_ji.Agents.Execute.Runs.{Runs, execute-Runs}
use guru_ji.Agents.Execute.Order.{
  Succeeded, first, execute-Succeeded, execute-in_order, Sublist, result_ids, AsksLast,
}
use guru_ji.Agents.Verification.{overall_status, complete}
use guru_ji.Agents.Verification.Complete.{complete_iff, AllSucceeded}
use guru_ji.Agents.Resume.{Kept, resume, resume_at, stop_in, remaining_steps}
use guru_ji.Agents.Resume.Resumed.{Resumes, resume-Resumes}
use guru_ji.Agents.Handle.{Services, AgentResponse, handle, run_plan}
use guru_ji.Agents.Handle.Guarded.{Guarded, handle-Guarded, Course, run_plan-Course}
use guru_ji.Domain.Text.{join, text_append}
use guru_ji.Examples.People.{teacher, department}

abbrev command : AgentCommand
command = record {
  request_id = "r1";
  who = teacher;
  scope = department;
  text = "remind the students with low attendance";
  channel = "text";
  conversation_id = none;
  approval_id = none;
  run_in_background = false;
  in_background = false;
}

abbrev limits : QueryLimits
limits = record {
  max_duration_ms = 1;
  max_rows = 1;
  max_response_bytes = 1;
  max_tool_calls = 1;
  max_parallel_sources = 1;
}

abbrev invocation : String → Status → ToolInvocation ℕ
invocation tool status = record {
  tool_name = tool;
  status = status;
  output = some (mapping (entry "count" (scalar (Scalar.number 2)) end));
  summary = "done";
  warnings = [];
  provenance = [];
  artifacts = [];
  records_returned = 2;
  denial_reason = none;
  approval = none;
  decision_id = none;
  risk = read;
}

-- Calls are counted. "mend" raises, and "delete" asks for a confirmation.
abbrev tools : Tools ℕ ℕ
tools = record {
  read_reference = λ t.
      if t == "$s1.data.count"
      then some (record { step = "s1"; path = key "data" ∷ key "count" ∷ [] })
      else none;
  say = λ why. "refused";
  invoke = λ c tool arguments calls.
      if tool == "mend"
      then (none, suc calls)
      else if tool == "delete"
      then (some (invocation tool approval_required), suc calls)
      else (some (invocation tool success), suc calls);
}

abbrev step : String → String → List String → List (String × String) → PlanStep ℕ
step id tool deps bindings = record {
  step_id = id;
  tool = tool;
  arguments = entry "audience" (scalar (Scalar.text "students")) end;
  purpose = tool;
  depends_on = deps;
  bindings = bindings;
  agent = "data";
}

abbrev plan_with : List (PlanStep ℕ) → AgentPlan ℕ
plan_with steps = record {
  intent = "remind";
  steps = steps;
  clarification = none;
  summary = "";
  planner = "deterministic";
  entities = end;
}

abbrev listing : PlanStep ℕ
listing = step "s1" "list" [] []

abbrev reminder : PlanStep ℕ
reminder = step "s2" "remind" ("s1" ∷ []) (("count", "$s1.data.count") ∷ [])

abbrev reminding : AgentPlan ℕ
reminding = plan_with (listing ∷ reminder ∷ [])

reminding-IsPlan : make_plan reminding ≡ some reminding
unfolding make_plan distinct
reminding-IsPlan = refl

-- Both steps run, and the second gets the count that the first has returned.
abbrev results : List (StepResult ℕ) × ℕ
results = execute tools command limits (listing ∷ reminder ∷ []) end 0

results_test : results.1 ≡ 2
unfolding execute run_steps proceed visit visit_with account run_step resolve_arguments
    resolve_reference walk follow without_none put get
results_test = refl

execute-Runs_example : Runs (listing ∷ reminder ∷ []) [] results.0
execute-Runs_example = execute-Runs tools command limits (listing ∷ reminder ∷ []) end 0

abbrev reminded : StepResult ℕ
reminded = record {
  step_id = "s2";
  tool = "remind";
  status = success;
  summary = said "done";
  output = some (mapping (entry "count" (scalar (Scalar.number 2)) end));
  records_returned = 2;
  warnings = [];
  provenance = [];
  artifacts = [];
  denial_reason = none;
  approval = none;
}

execute-Succeeded_example : Succeeded "s1" results.0
unfolding execute run_steps proceed visit visit_with account run_step resolve_arguments
    resolve_reference walk follow without_none put get summary_of reason_of
execute-Succeeded_example =
    execute-Succeeded tools command limits reminding end 0 listing reminder reminded
      reminding-IsPlan (first here) refl (there here) refl

execute-in_order_example :
    Sublist (result_ids results.0) ("s1" ∷ "s2" ∷ []) × (length results.0 ≤ 8) × AsksLast results.0
execute-in_order_example = execute-in_order tools command limits reminding end 0 reminding-IsPlan

complete_iff_example :
    (overall_status reminding.steps results.0 ≡ complete)
    ↔ ((results.0 ≢ []) × (result_ids results.0 ≡ "s1" ∷ "s2" ∷ []) × AllSucceeded results.0)
complete_iff_example = complete_iff tools command limits reminding.steps end 0

-- What the reminder reads: the output of the list.
abbrev outputs : Object ℕ
outputs =
    entry "s1" (mapping (entry "data" (mapping (entry "count" (scalar (Scalar.number 2)) end)) end))
      end

abbrev resolved : Object ℕ
resolved =
    entry "audience" (scalar (Scalar.text "students"))
      (entry "count" (scalar (Scalar.number 2)) end)

resolve_arguments-Origin_example :
    Origin tools.read_reference outputs "count" reminder.bindings reminder.arguments resolved
unfolding resolve_arguments resolve_reference walk follow without_none put get
resolve_arguments-Origin_example =
    resolve_arguments-Origin tools.read_reference outputs "count" reminder.bindings
      reminder.arguments resolved refl

abbrev delete_tool : PlatformTool ℕ
delete_tool = record {
  name = "delete";
  group = "records";
  required_capability = agent_command;
  risk = high_risk;
  parameters = [];
  validator = none;
}

-- A first step fails, the second asks for a confirmation, and the third depends on the first.
abbrev stopped_plan : AgentPlan ℕ
stopped_plan =
    plan_with
      (step "s1" "mend" [] [] ∷ step "s2" "delete" [] [] ∷ step "s3" "list" ("s1" ∷ []) [] ∷ [])

stopped_plan-IsPlan : make_plan stopped_plan ≡ some stopped_plan
unfolding make_plan distinct
stopped_plan-IsPlan = refl

abbrev kept : Kept ℕ
kept = record { plan = stopped_plan; stopped_at = "s2"; completed = end }

resume-Resumes_example :
    Resumes delete_tool
      (entry "id" (scalar (Scalar.text "7")) end)
      (resume delete_tool (entry "id" (scalar (Scalar.text "7")) end) (some kept))
resume-Resumes_example =
    resume-Resumes delete_tool (entry "id" (scalar (Scalar.text "7")) end) (some kept)
      stopped_plan-IsPlan

-- The resumed plan runs the third step, though the first one has failed: the dependency is gone.
resumed_test :
    resume delete_tool end (some kept)
    ≡ some (
      record stopped_plan {
        steps = record (step "s2" "delete" [] []) { arguments = end } ∷ step "s3" "list" [] [] ∷ [];
        summary = "delete then list";
        planner = "approval";
      },
      end,
    )
unfolding resume resume_at stop_in remaining_steps make_plan distinct join text_append
resumed_test = refl

-- Without the confirmation, the third step is left out.
left_out_test :
    map (λ s. s.step_id) (execute tools command limits stopped_plan.steps end 0).0
    ≡ "s1" ∷ "s2" ∷ []
unfolding execute run_steps proceed visit visit_with account run_step resolve_arguments
left_out_test = refl

abbrev response_of : AgentCommand → AgentResponse ℕ
response_of c = record {
  request_id = c.request_id;
  status = complete;
  intent = "open_task";
  plan = none;
  steps = [];
  step_warnings = [];
  checks = [];
  artifacts = [];
  approval = none;
  clarification = none;
  refusal_reason = none;
  job_id = none;
  conversation_id = c.conversation_id;
}

abbrev services : Services ℕ ℕ
services = record {
  tools = tools;
  registry = record { tools = delete_tool ∷ [] };
  limits = limits;
  is_zero = λ n. n == 0;
  more_than = λ len n. ltb len n;
  trace = λ c w. w;
  approval = λ college id w. none;
  kept = λ o. none;
  keep = λ c id k w. w;
  plan = λ c w. (reminding, w);
  route = λ t p. none;
  open_task_refusal = λ c. none;
  open_task_unavailable = none;
  open_task_background = false;
  queue_runs_later = false;
  run_open_task = λ c w. (response_of c, w);
  enqueue = none;
  log = λ c outcome r w. w;
}

handle-Guarded_example : Guarded services command 0 (handle services command 0)
handle-Guarded_example = handle-Guarded services command 0

run_plan-Course_example :
    Course services command reminding end 0 (run_plan services command reminding end 0)
run_plan-Course_example = run_plan-Course services command reminding end 0
