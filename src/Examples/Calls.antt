-- ===== src/Examples/Calls.antt =====
-- Calls of the gateway with a confirmation that is ready.
use guru_ji.Prelude.{ℕ, ◌+◌, ◌≤◌, ◌≡◌, refl, true, none, some, [], ◌∷◌, string_eq}
use guru_ji.Domain.Principals.{
  has_capability, Capability-discrete, can_access, covers, active, ask_read_only,
}
use guru_ji.Domain.Values.{get, scalar, Entries, entry, end, has_key}
use guru_ji.InstitutionData.Approvals.{
  get_approval, claim_approval, claimable, Approval, approved, claim_row, IsKeyed,
}
use guru_ji.Gateway.Spec.{pdp_action_of, high_risk, Scalar, ParameterSpec, integer, strings}
use guru_ji.Gateway.Spec.Arguments.{
  coerce, coerce_integer, coerce_as, check_bounds, validate_arguments,
}
use guru_ji.Gateway.Types.{lookup_tool, ToolCallContext, Object, bare, PlatformTool, World}
use guru_ji.Gateway.Invoke.{
  claim_usable, approval_state, usable, usable_row, approval_state_of, Moment, Gateway, Call,
  running,
}
use guru_ji.Gateway.Invoke.Begin.{
  after_pdp, after_schema, after_validator, check_schema, confirm, confirm_with, find_tool,
  run_validator, begin,
}
use guru_ji.Gateway.Invoke.Finish.{finish, succeed}
use guru_ji.Gateway.Invoke.Cleared.{IsCleared, begin-IsCleared}
use guru_ji.Gateway.Invoke.Audited.{Leaves, begin-Leaves, Ends, finish-Ends}
use guru_ji.Gateway.SingleUse.{
  System, tally, uses, begins, ends, Steps, stays, then_step, idle, first,
}
use guru_ji.Gateway.SingleUse.Bound.{single_use}
use guru_ji.Policy.Authorization.{authorize, consent_missing}
use guru_ji.Examples.People.{teacher, department, plain_numbers}

abbrev marks : ParameterSpec ℕ
marks = record {
  name = "marks";
  kind = integer;
  required = true;
  enum = [];
  minimum = some 0;
  maximum = some 100;
  max_length = 500;
  items_type = strings;
  default = none;
}

abbrev forty : Entries (Scalar ℕ)
forty = entry "marks" (scalar (Scalar.number 40)) end

abbrev delete_marks : PlatformTool ℕ
delete_marks = record {
  name = "delete_marks";
  group = "marks";
  required_capability = ask_read_only;
  risk = high_risk;
  parameters = marks ∷ [];
  validator = none;
}

abbrev gateway : Gateway plain_numbers
gateway = record {
  registry = record { tools = delete_marks ∷ [] };
  policy_version = "v1";
  evaluate = λ q. record {
    allowed = true;
    action = q.action;
    resource_type = q.resource_type;
    resource_id = q.resource_id;
    policy_version = "v1";
    decision_id = "d1";
    matched_scope = some department;
    reason = none;
  };
  arguments_digest = λ o. "44";
  approval_ttl_seconds = 900;
}

abbrev context : ToolCallContext
context = record {
  request_id = "r1";
  who = teacher;
  scope = department;
  channel = "text";
  limits = record {
    max_duration_ms = 1;
    max_rows = 1;
    max_response_bytes = 1;
    max_tool_calls = 1;
    max_parallel_sources = 1;
  };
  approval_id = some "apr-1";
  conversation_id = none;
}

abbrev moment : Moment
moment = record { fresh_id = "apr-2"; checked_at = 5; claimed_at = 6; asked_at = 7; ended_at = 8 }

abbrev ready : Approval (Object ℕ)
ready = record {
  approval_id = "apr-1";
  institution_id = "a";
  principal_id = "t1";
  tool_name = "delete_marks";
  arguments = forty;
  arguments_sha256 = "44";
  status = approved;
  reason = "";
  created_at = 0;
  expires_at = 100;
  decided_at = none;
  decided_by = none;
  resume = none;
}

abbrev world : World ℕ
world = record { approvals = ready ∷ []; audit = []; traces = [] }

ready-IsKeyed : IsKeyed (ready ∷ [])
ready-IsKeyed = record { unique = λ i id. (λ h. refl, tt) }

abbrev call : Call plain_numbers
call = record {
  tool = delete_marks;
  arguments = forty;
  approval = some (claim_row "t1" 6 ready);
  decision = gateway.evaluate (record {
    who = teacher;
    required_capability = ask_read_only;
    action = "high_risk";
    resource_type = "platform_tool";
    resource_id = "delete_marks";
    requested_scope = department;
  });
}

abbrev after_begin : World ℕ
after_begin = record world { approvals = claim_row "t1" 6 ready ∷ [] }

call_begins :
    begin gateway context "delete_marks" forty moment world ≡ some (running call after_begin)
unfolding begin validate_arguments has_key lookup_tool get coerce coerce_integer coerce_as
    check_bounds authorize consent_missing has_capability Capability-discrete can_access covers
    active claim_usable approval_state usable usable_row approval_state_of get_approval
    claim_approval claimable after_pdp after_schema after_validator check_schema confirm
    confirm_with find_tool run_validator pdp_action_of
call_begins = refl

begin-IsCleared_example :
    IsCleared gateway context "delete_marks" forty moment world call after_begin
begin-IsCleared_example =
    begin-IsCleared gateway context "delete_marks" forty moment world after_begin call ready-IsKeyed
      call_begins

begin-Leaves_example : Leaves gateway context world (running call after_begin)
begin-Leaves_example =
    begin-Leaves gateway context "delete_marks" forty moment world (running call after_begin)
      call_begins

finish-Ends_example :
    let (i, w) = finish gateway context call (bare (scalar (Scalar.number 1))) moment after_begin in
    Ends gateway context call (bare (scalar (Scalar.number 1))) i after_begin w
finish-Ends_example =
    finish-Ends gateway context call (bare (scalar (Scalar.number 1))) moment after_begin

abbrev called : System plain_numbers
called = record { world = after_begin; active = (context, call) ∷ []; completed = [] }

abbrev completed_call : System plain_numbers
completed_call = record {
  world = (finish gateway context call (bare (scalar (Scalar.number 1))) moment after_begin).1;
  active = [];
  completed = (context, call) ∷ [];
}

steps : Steps plain_numbers gateway (idle plain_numbers world) completed_call
unfolding finish succeed
steps =
    then_step
      (then_step stays
        (begins context "delete_marks" forty moment world after_begin [] [] call call_begins))
      (ends context call (bare (scalar (Scalar.number 1))) moment after_begin ((context, call) ∷ [])
        [] [] first)

single_use_example :
    tally (uses plain_numbers "a" "apr-1") completed_call.active
      + tally (uses plain_numbers "a" "apr-1") completed_call.completed
    ≤ 1
single_use_example = single_use gateway world completed_call "a" "apr-1" ready-IsKeyed steps
