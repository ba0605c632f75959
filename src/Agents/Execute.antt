-- ===== src/Agents/Execute.antt =====
-- `SpecializedAgent.run` of specialists.py and `execute` of master.py. The three specialists share
-- one gateway, so the agent that a step names does not change its call. `W` is the state of the
-- services behind the gateway.
pub mod Runs
pub mod Order
use guru_ji.Prelude.{
  String, Bool, true, false, Option, none, some, List, [], ◌∷◌, if◌then◌else◌, ◌==◌, string_eq, any,
  contains,
}
use guru_ji.Domain.Values.{scalar, mapping, entry, end}
use guru_ji.Gateway.Spec.{text}
use guru_ji.Gateway.Types.{
  QueryLimits, ToolCallContext, Status, success, approval_required, Denial, Json, Object,
  ToolInvocation,
}
use guru_ji.Agents.Contracts.{
  AgentCommand, PlanStep, StepResult, Why, refused, unbound, step_failure, Summary, said, because,
  BindingError,
}
use guru_ji.Agents.Bindings.{Reference, Resolved, value, error, resolve_arguments, put, or_none}

-- The gateway as the agents use it. `invoke` gives no invocation when it raises; the state is the
-- one that the call leaves. `say` is the text of a refusal.
pub record Tools (N W : Type 0) : Type 0 where
  pub read_reference : String → Option Reference
  pub say : Why → String
  pub invoke : ToolCallContext → String → Object N → W → Option (ToolInvocation N) × W

-- `invocation.summary or (invocation.denial_reason or "")`
unfoldable pub summary_of : String → Option Denial → Summary
summary_of s none = said s
summary_of s (some d) = if s == "" then because (refused d) else said s

unfoldable pub reason_of : Option Denial → Option Why
reason_of none = none
reason_of (some d) = some (refused d)

module _ {N W : Type 0} (t : Tools N W) (c : AgentCommand) (limits : QueryLimits) where
  abbrev pub context_of : ToolCallContext
  context_of = record {
    request_id = c.request_id;
    who = c.who;
    scope = c.scope;
    channel = c.channel;
    limits = limits;
    approval_id = c.approval_id;
    conversation_id = c.conversation_id;
  }

  -- A result with the defaults of its other fields.
  abbrev failed_step : PlanStep N → Why → StepResult N
  failed_step s why = record {
    step_id = s.step_id;
    tool = s.tool;
    status = Status.failed;
    summary = because why;
    output = none;
    records_returned = 0;
    warnings = [];
    provenance = [];
    artifacts = [];
    denial_reason = some why;
    approval = none;
  }

  abbrev result_of : PlanStep N → Option (ToolInvocation N) → StepResult N
  result_of s none = failed_step s step_failure
  result_of s (some i) = record {
    step_id = s.step_id;
    tool = s.tool;
    status = i.status;
    summary = summary_of i.summary i.denial_reason;
    output = i.output;
    records_returned = i.records_returned;
    warnings = i.warnings;
    provenance = i.provenance;
    artifacts = i.artifacts;
    denial_reason = reason_of i.denial_reason;
    approval = i.approval;
  }

  unfoldable pub run_step : PlanStep N → Object N → W → StepResult N × W
  unfolding summary_of reason_of
  run_step s arguments w =
      let (i, after) = t.invoke context_of s.tool arguments w in (result_of s i, after)

  abbrev words : Summary → String
  words (said s) = s
  words (because why) = t.say why

  -- `{"data": result.data, "summary": result.summary}`
  unfoldable pub output_of : StepResult N → Json N
  output_of r =
      mapping
        (entry "data" (or_none r.output) (entry "summary" (scalar (text (words r.summary))) end))

  -- What one round of the loop does with its step.
  pub data Visited : Type 0 where
    skipped : Visited
    unresolved : StepResult N → Visited
    ran : StepResult N → W → Visited

  unfoldable pub visit_with : PlanStep N → W → Resolved (Object N) → Visited
  unfolding run_step
  visit_with s w (error e) = unresolved (failed_step s (unbound e))
  visit_with s w (value arguments) = let (r, after) = run_step s arguments w in ran r after

  unfoldable pub visit : PlanStep N → Object N → List String → W → Visited
  unfolding visit_with
  visit s completed failures w =
      if any (contains failures) s.depends_on
      then skipped
      else visit_with s w (resolve_arguments t.read_reference s.bindings completed s.arguments)

  -- The rounds that remain, from the outputs of the completed steps and the ids of the failed ones.
  abbrev Rounds : Type 0
  Rounds = Object N → List String → W → List (StepResult N) × W

  abbrev first : StepResult N → List (StepResult N) × W → List (StepResult N) × W
  first r (results, w) = (r ∷ results, w)

  -- The end of a round that ran its step.
  unfoldable pub account :
      PlanStep N
      → StepResult N
      → Status
      → Rounds
      → Object N
      → List String
      → W
      → List (StepResult N) × W
  unfolding output_of
  account s r approval_required rounds completed failures w = (r ∷ [], w)
  account s r success rounds completed failures w =
      first r (rounds (put s.step_id (output_of r) completed) failures w)
  account s r _ rounds completed failures w = first r (rounds completed (s.step_id ∷ failures) w)

  unfoldable pub proceed :
      PlanStep N → Visited → Rounds → Object N → List String → W → List (StepResult N) × W
  unfolding account
  proceed s skipped rounds completed failures w = rounds completed (s.step_id ∷ failures) w
  proceed s (unresolved r) rounds completed failures w =
      first r (rounds completed (s.step_id ∷ failures) w)
  proceed s (ran r after) rounds completed failures w =
      account s r r.status rounds completed failures after

  -- The loop of `execute`.
  unfoldable pub run_steps : List (PlanStep N) → Rounds
  unfolding visit proceed
  run_steps [] completed failures w = ([], w)
  run_steps (s ∷ steps) completed failures w =
      proceed s (visit s completed failures w) (run_steps steps) completed failures w

  unfoldable pub execute : List (PlanStep N) → Object N → W → List (StepResult N) × W
  unfolding run_steps
  execute steps completed w = run_steps steps completed [] w
