-- ===== src/Agents/Handle.antt =====
-- `handle` of apps/api/app/agents/master.py and the parts it calls. The planner, the store, the
-- audit log, the queue and the open-task agent are the services; each gives back the state it
-- leaves. The text of the answer, its sources and its wording by a model are not modelled.
pub mod Guarded
use guru_ji.Prelude.{
  ℕ, suc, String, Bool, true, false, not, ◌&&◌, ◌||◌, Option, none, some, List, [], ◌∷◌, ◌++◌, map,
  find, is_some, if◌then◌else◌, ◌==◌, string_eq, ltb, nat_eq,
}
use guru_ji.Domain.Principals.{InstitutionScope, active, has_capability, can_access, agent_command}
use guru_ji.Domain.Text.{text_append}
use guru_ji.Domain.Values.{end}
use guru_ji.Gateway.Spec.{RiskLevel, high_risk}
use guru_ji.Gateway.Types.{
  QueryLimits, AuditOutcome, Json, Object, Registry, PlatformTool, PendingApproval, lookup_tool,
}
use guru_ji.Gateway.Invoke.{named}
use guru_ji.InstitutionData.Approvals.{Approval, is_approved}
use guru_ji.Agents.Contracts.{AgentCommand, AgentPlan, PlanStep, StepResult, Why}
use guru_ji.Agents.Execute.{Tools, execute, output_of}
use guru_ji.Agents.Verification.{Overall, overall_status, verify, Warning, asks}
use guru_ji.Agents.Resume.{Kept, resume, keep_for_resume}

abbrev pub one_change_per_confirmation : String
one_change_per_confirmation =
    "I can change one record per confirmation. Please ask for each change separately."

pub data Refusal (N : Type 0) : Type 0 where
  because : String → Refusal N
  step : Why → Refusal N

pub record AgentResponse (N : Type 0) : Type 0 where
  pub request_id : String
  pub status : Overall
  pub intent : String
  pub plan : Option (AgentPlan N)
  pub steps : List (StepResult N)
  pub step_warnings : List (Object N)
  pub checks : List Warning
  pub artifacts : List (Object N)
  pub approval : Option (PendingApproval N)
  pub clarification : Option String
  pub refusal_reason : Option (Refusal N)
  pub job_id : Option String
  pub conversation_id : Option String

-- `_record`: the outcome of the audit event.
unfoldable pub audit_outcome : Overall → AuditOutcome
audit_outcome Overall.complete = AuditOutcome.success
audit_outcome Overall.partial = AuditOutcome.partial
audit_outcome Overall.refused = AuditOutcome.denied
audit_outcome Overall.accepted = AuditOutcome.success
audit_outcome Overall.needs_input = AuditOutcome.partial
audit_outcome Overall.approval_required = AuditOutcome.partial
audit_outcome Overall.failed = AuditOutcome.failed

-- `route` gives none too when there is no open-task agent; `enqueue` is none when the background is
-- off. `approval` is none too when the store fails, and `kept` reads the plan stored with it.
pub record Services (N W : Type 0) : Type 0 where
  pub tools : Tools N W
  pub registry : Registry N
  pub limits : QueryLimits
  pub is_zero : N → Bool
  pub more_than : ℕ → N → Bool
  pub trace : AgentCommand → W → W
  pub approval : String → String → W → Option (Approval (Object N))
  pub kept : Object N → Option (Kept N)
  pub keep : AgentCommand → String → Kept N → W → W
  pub plan : AgentCommand → W → AgentPlan N × W
  pub route : String → AgentPlan N → Option String
  pub open_task_refusal : AgentCommand → Option String
  pub open_task_unavailable : Option String
  pub open_task_background : Bool
  pub queue_runs_later : Bool
  pub run_open_task : AgentCommand → W → AgentResponse N × W
  pub enqueue : Option (AgentCommand → W → String × W)
  pub log : AgentCommand → AuditOutcome → AgentResponse N → W → W

module _ {N W : Type 0} (v : Services N W) (c : AgentCommand) where
  -- A response with the defaults of its other fields.
  abbrev pub response : Overall → String → Option (AgentPlan N) → AgentResponse N
  response status intent plan = record {
    request_id = c.request_id;
    status = status;
    intent = intent;
    plan = plan;
    steps = [];
    step_warnings = [];
    checks = [];
    artifacts = [];
    approval = none;
    clarification = none;
    refusal_reason = none;
    job_id = none;
    conversation_id = c.conversation_id;
  }

  -- `_record`, then the response.
  unfoldable pub recorded : AgentResponse N → W → AgentResponse N × W
  unfolding audit_outcome
  recorded r w = (r, v.log c (audit_outcome r.status) r w)

  abbrev pub refusal : String → AgentResponse N
  refusal reason = record (response Overall.refused "unknown" none) {
    refusal_reason = some (because reason);
  }

  -- `_risk`: an unregistered tool counts as one that changes records.
  unfoldable pub risk : PlanStep N → RiskLevel
  risk s = elim (lookup_tool v.registry s.tool) [ none ↦ high_risk | some t ↦ t.risk ]

  abbrev is_high_risk : RiskLevel → Bool
  is_high_risk high_risk = true
  is_high_risk _ = false

  unfoldable pub record_changes : List (PlanStep N) → ℕ
  unfolding risk
  record_changes [] = 0
  record_changes (s ∷ steps) =
      let rest = record_changes steps in if is_high_risk (risk s) then suc rest else rest

  -- The confirmed call, and its tool, while it can still run.
  abbrev usable_call :
      Approval (Object N) → Option (PlatformTool N) → Option (PlatformTool N × Approval (Object N))
  usable_call a none = none
  usable_call a (some t) =
      if is_approved a.status && a.principal_id == c.who.principal_id then some (t, a) else none

  abbrev call_of : Option (Approval (Object N)) → Option (PlatformTool N × Approval (Object N))
  call_of none = none
  call_of (some a) = usable_call a (lookup_tool v.registry a.tool_name)

  unfoldable pub approved_call : W → Option (PlatformTool N × Approval (Object N))
  approved_call w = elim (named c.approval_id) [
    | none ↦ none
    | some id ↦ call_of (v.approval c.scope.college_id id w)
  ]

  unfoldable pub clarify : AgentPlan N → Option String → Option String
  unfolding record_changes
  clarify p (some t) = some t
  clarify p none = if ltb 1 (record_changes p.steps) then some one_change_per_confirmation else none

  -- `clarification`, or the one for a plan with more than one change.
  unfoldable pub clarification_of : AgentPlan N → Option String
  unfolding clarify
  clarification_of p = clarify p (named p.clarification)

  abbrev first_reason : List (StepResult N) → Option (Refusal N)
  first_reason [] = none
  first_reason (r ∷ rs) = elim r.denial_reason [ none ↦ none | some why ↦ some (step why) ]

  abbrev is_refused : Overall → Bool
  is_refused Overall.refused = true
  is_refused _ = false

  abbrev asked_for : List (StepResult N) → Option (PendingApproval N)
  asked_for rs = elim (find (λ r. asks r.status) rs) [ none ↦ none | some r ↦ r.approval ]

  unfoldable pub concat : List (List (Object N)) → List (Object N)
  concat [] = []
  concat (x ∷ xs) = x ++ concat xs

  abbrev kept_for : AgentPlan N → List (StepResult N) → Option (String × Kept N)
  kept_for p results =
      keep_for_resume v.tools.read_reference (output_of v.tools c v.limits) p results

  abbrev keep_it : Overall → Option (String × Kept N) → W → W
  keep_it Overall.approval_required (some (id, k)) w = v.keep c id k w
  keep_it _ _ w = w

  -- The response of an executed plan.
  unfoldable pub report : AgentPlan N → List (StepResult N) → W → AgentResponse N × W
  unfolding recorded overall_status concat verify keep_for_resume
  report p results w =
      let status = overall_status p.steps results in
      recorded
        (record (response status p.intent (some p)) {
          steps = results;
          step_warnings = concat (map (λ r. r.warnings) results);
          checks = verify v.is_zero v.more_than p.steps results;
          artifacts = concat (map (λ r. r.artifacts) results);
          approval = asked_for results;
          refusal_reason = if is_refused status then first_reason results else none;
        })
        (keep_it status (kept_for p results) w)

  -- What runs in the background: a command that asks for it, has no record change, and is not there.
  abbrev pub queue_for : AgentPlan N → Option (AgentCommand → W → String × W)
  queue_for p =
      if c.run_in_background && not c.in_background && record_changes p.steps == 0
      then v.enqueue
      else none

  abbrev pub queued : AgentPlan N → String × W → AgentResponse N × W
  queued p (job, w) =
      recorded (record (response Overall.accepted p.intent (some p)) { job_id = some job }) w

  abbrev pub run_now : AgentPlan N → Object N → W → AgentResponse N × W
  run_now p earlier w =
      let (results, after) = execute v.tools c v.limits p.steps earlier w in report p results after

  unfoldable pub run_or_queue :
      AgentPlan N → Object N → W → Option (AgentCommand → W → String × W) → AgentResponse N × W
  unfolding recorded report
  run_or_queue p earlier w none = run_now p earlier w
  run_or_queue p earlier w (some enqueue) = queued p (enqueue c w)

  abbrev pub asked_back : AgentPlan N → String → W → AgentResponse N × W
  asked_back p t w =
      recorded (record (response Overall.needs_input p.intent (some p)) { clarification = some t })
        w

  unfoldable pub run_unless : AgentPlan N → Object N → W → Option String → AgentResponse N × W
  unfolding run_or_queue recorded
  run_unless p earlier w none = run_or_queue p earlier w (queue_for p)
  run_unless p earlier w (some t) = asked_back p t w

  -- From the clarification on.
  unfoldable pub run_plan : AgentPlan N → Object N → W → AgentResponse N × W
  unfolding clarification_of run_unless
  run_plan p earlier w = run_unless p earlier w (clarification_of p)

  abbrev open_task_plan : String → AgentPlan N
  open_task_plan route = record {
    intent = "open_task";
    steps = [];
    clarification = none;
    summary = text_append "open task (" (text_append route ")");
    planner = "open_task";
    entities = end;
  }

  abbrev queue_open_task : Option (AgentCommand → W → String × W)
  queue_open_task =
      if not c.in_background
        && (c.run_in_background || (v.open_task_background && v.queue_runs_later))
      then v.enqueue
      else none

  unfoldable pub start_open_task :
      AgentPlan N → W → Option (AgentCommand → W → String × W) → AgentResponse N × W
  unfolding recorded
  start_open_task p w (some enqueue) = queued p (enqueue c w)
  start_open_task p w none = let (r, after) = v.run_open_task c w in recorded r after

  unfoldable pub open_task_unless :
      AgentPlan N → W → Option String → Option String → AgentResponse N × W
  unfolding recorded start_open_task
  open_task_unless p w (some refusal) unavailable =
      recorded
        (record (response Overall.refused "open_task" (some p)) {
          refusal_reason = some (because refusal);
        })
        w
  open_task_unless p w none (some unavailable) =
      recorded (response Overall.failed "open_task" (some p)) w
  open_task_unless p w none none = start_open_task p w queue_open_task

  -- `_open_task`
  unfoldable pub open_task : String → W → AgentResponse N × W
  unfolding open_task_unless
  open_task route w =
      open_task_unless (open_task_plan route) w (named (v.open_task_refusal c))
        (named v.open_task_unavailable)

  -- A planned command, unless the open-task agent takes it.
  unfoldable pub run_planned : AgentPlan N × W → AgentResponse N × W
  unfolding run_plan open_task
  run_planned (p, w) = elim (v.route c.text p) [
    | some route ↦ open_task route w
    | none ↦ run_plan p end w
  ]

  abbrev kept_of : Approval (Object N) → Option (Kept N)
  kept_of a = elim a.resume [ none ↦ none | some o ↦ v.kept o ]

  abbrev run_resumed : W → Option (AgentPlan N × Object N) → Option (AgentResponse N × W)
  run_resumed w none = none
  run_resumed w (some (p, earlier)) = some (run_plan p earlier w)

  unfoldable pub admitted : W → Option (AgentResponse N × W)
  unfolding approved_call run_planned
  admitted w = elim (approved_call w) [
    | none ↦ some (run_planned (v.plan c w))
    | some (t, a) ↦ run_resumed w (resume t a.arguments (kept_of a))
  ]

  -- `none` is an exception that leaves `handle`.
  unfoldable pub handle : W → Option (AgentResponse N × W)
  unfolding recorded admitted
  handle w =
      if not (active c.who)
      then some (recorded (refusal "authentication is required") w)
      else if not (has_capability c.who agent_command)
      then some (recorded (refusal "the agent:command permission is required") w)
      else if not (can_access c.who c.scope)
      then some (recorded (refusal "the requested institution is outside your authorised scope") w)
      else admitted (v.trace c w)
