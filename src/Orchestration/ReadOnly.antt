-- ===== src/Orchestration/ReadOnly.antt =====
-- apps/api/app/orchestration/execution_core.py: the plan of a read-only request.
pub mod Authorized
use guru_ji.Prelude.{
  String, Bool, true, false, not, ◌&&◌, ◌||◌, Option, none, some, List, [], ◌∷◌, if◌then◌else◌,
  ◌==◌, string_eq, any, map, ltb, length, is_some,
}
use guru_ji.Domain.Text.{is_blank, strip}
use guru_ji.Domain.Principals.{Principal, ask_read_only}
use guru_ji.Domain.Requests.{ChatRequest}
use guru_ji.Policy.Authorization.{AuthorizationDecision, DenialReason, authorize}
use guru_ji.Gateway.Invoke.{reason_word}

pub data PlanStepKind : Type 0 where
  classify_request query_approved_sources synthesize_cited_answer : PlanStepKind

pub record PlanStep : Type 0 where
  pub step_id : String
  pub kind : PlanStepKind
  pub description : String
  pub source_ids : List String

-- The step that the constructor leaves; `none` is the ValueError.
unfoldable pub make_step : PlanStep → Option PlanStep
make_step s =
    if is_blank s.step_id || is_blank s.description || any is_blank s.source_ids
    then none
    else some (record s { source_ids = map strip s.source_ids })

pub record ExecutionPlan : Type 0 where
  pub request_id : String
  pub authorized : Bool
  pub steps : List PlanStep
  pub denial_reason : Option String

abbrev is_empty : List PlanStep → Bool
is_empty [] = true
is_empty (s ∷ steps) = false

-- `not denial_reason`
abbrev lacks : Option String → Bool
lacks none = true
lacks (some t) = t == ""

unfoldable pub make_plan : ExecutionPlan → Option ExecutionPlan
make_plan p =
    if is_blank p.request_id || ltb 5 (length p.steps)
    then none
    else if p.authorized && is_empty p.steps
    then none
    else if not p.authorized && not (is_empty p.steps)
    then none
    else if p.authorized && is_some p.denial_reason
    then none
    else if not p.authorized && lacks p.denial_reason
    then none
    else some p

-- `decision.reason.value if decision.reason else "denied"`
abbrev pub reason_text : Option DenialReason → String
reason_text none = "denied"
reason_text (some r) = reason_word r

abbrev pub classify : PlanStep
classify = record {
  step_id = "classify";
  kind = classify_request;
  description = "Classify the request against approved Agent Saffron capabilities.";
  source_ids = [];
}

abbrev pub retrieve : List String → PlanStep
retrieve ids = record {
  step_id = "retrieve";
  kind = query_approved_sources;
  description = "Read only from sources allowed by the source registry and scope.";
  source_ids = ids;
}

abbrev pub synthesize : PlanStep
synthesize = record {
  step_id = "synthesize";
  kind = synthesize_cited_answer;
  description = "Synthesize a bounded answer with provenance and citations.";
  source_ids = [];
}

abbrev pub with_step : Option PlanStep → Option (List PlanStep) → Option (List PlanStep)
with_step none rest = none
with_step (some s) none = none
with_step (some s) (some steps) = some (s ∷ steps)

-- The three steps, as their constructors leave them.
unfoldable pub steps_for : List String → Option (List PlanStep)
unfolding make_step
steps_for ids =
    with_step (make_step classify)
      (with_step (make_step (retrieve ids)) (with_step (make_step synthesize) (some [])))

abbrev pub denied_plan : String → Option DenialReason → ExecutionPlan
denied_plan id r = record {
  request_id = id;
  authorized = false;
  steps = [];
  denial_reason = some (reason_text r);
}

abbrev pub plan_with : String → Option (List PlanStep) → Option ExecutionPlan
plan_with id none = none
plan_with id (some steps) =
    make_plan (record { request_id = id; authorized = true; steps = steps; denial_reason = none })

unfoldable pub plan_for : ChatRequest → AuthorizationDecision → Option ExecutionPlan
unfolding make_plan steps_for
plan_for r d =
    if not d.allowed
    then make_plan (denied_plan r.request_id d.reason)
    else plan_with r.request_id (steps_for r.source_ids)

unfoldable pub build_read_only_plan : ChatRequest → Principal → Option ExecutionPlan
unfolding plan_for
build_read_only_plan r p = plan_for r (authorize p ask_read_only r.institution_scope)
