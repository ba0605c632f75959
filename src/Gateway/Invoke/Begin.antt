-- ===== src/Gateway/Invoke/Begin.antt =====
-- `invoke` up to the awaited handler: lookup, schema, authorization, decision point, semantic
-- validation and confirmation, each with its early return and its audit event.
use Prim.Native.String
use guru_ji.Prelude.{
  String, Bool, true, false, not, Option, none, some, List, [], ◌∷◌, if◌then◌else◌,
}
use guru_ji.Domain.Text.{text_take}
use guru_ji.Policy.Authorization.{AuthorizationDecision, authorize}
use guru_ji.Policy.Pdp.{Request, PolicyDecision}
use guru_ji.InstitutionData.Approvals.{Approval}
use guru_ji.Gateway.Spec.{Numbers, RiskLevel, read, high_risk, Checked, ok, error, pdp_action_of}
use guru_ji.Gateway.Spec.Arguments.{validate_arguments}
use guru_ji.Gateway.Types.{
  ToolCallContext, AuditOutcome, partial, denied, failed, words, Status, Note, Denial,
  not_registered, internal_error, bad_arguments, raised, Object, ValidatorOutcome, normalized,
  PlatformTool, PendingApproval, World, lookup_tool,
}
use guru_ji.Gateway.Invoke.{
  Moment, Gateway, Begun, stopped, running, id_of, audit, answer, explain, because, local_reason,
  pdp_reason, approval_state, claim_usable, request_approval,
}

abbrev pub is_high_risk : RiskLevel → Bool
is_high_risk high_risk = true
is_high_risk _ = false

module _ {n : Numbers} (g : Gateway n) (c : ToolCallContext) where
  open n use {Number}

  -- What the decision point is asked.
  abbrev pub request_for : PlatformTool Number → Request
  request_for tool = record {
    who = c.who;
    required_capability = tool.required_capability;
    action = pdp_action_of tool.risk;
    resource_type = "platform_tool";
    resource_id = tool.name;
    requested_scope = c.scope;
  }

  -- `return` with an audit event.
  unfoldable pub refuse :
      PlatformTool Number
      → Status
      → Denial
      → AuditOutcome
      → Option PolicyDecision
      → String
      → World Number
      → Begun n
  refuse tool status denial outcome decision reason w =
      stopped (answer g c tool.name status (some denial) (id_of decision) tool.risk)
        (audit g c tool.name outcome decision (because g c reason) w)

  abbrev pub confirmation_reason : PlatformTool Number → String
  confirmation_reason tool =
      String.◌++◌ tool.name " changes institutional records and needs your confirmation"

  -- The answer that asks for a confirmation.
  unfoldable pub ask :
      PlatformTool Number
      → PolicyDecision
      → Option (PendingApproval Number × List (Approval (Object Number)))
      → World Number
      → Option (Begun n)
  ask tool decision none w = none
  ask tool decision (some (asked, after)) w = some (
      stopped
        (record (answer g c tool.name Status.approval_required none (some decision.decision_id)
          tool.risk) { summary = asked.reason; approval = some asked })
        (audit g c tool.name partial (some decision)
          (("reason", words "approval_required") ∷ ("approval_id", words asked.approval_id) ∷ [])
          (record w { approvals = after })))

  -- After the claim: the call runs with the claimed confirmation, or asks for one.
  unfoldable pub confirm_with :
      PlatformTool Number
      → Object Number
      → PolicyDecision
      → Moment
      → Option (Approval (Object Number)) × Option Note × List (Approval (Object Number))
      → World Number
      → Option (Begun n)
  unfolding ask
  confirm_with tool arguments decision m (some a, why, after) w = some (
      running
        (record { tool = tool; arguments = arguments; approval = some a; decision = decision })
        (record w { approvals = after }))
  confirm_with tool arguments decision m (none, why, after) w =
      ask tool decision (request_approval g c tool arguments (confirmation_reason tool) why m after)
        w

  unfoldable pub confirm :
      PlatformTool Number
      → Object Number
      → PolicyDecision
      → Moment
      → World Number
      → Option (Begun n)
  unfolding confirm_with
  confirm tool arguments decision m w =
      if is_high_risk tool.risk
      then confirm_with tool arguments decision m
          (claim_usable g c m (approval_state g c tool arguments m w.approvals) w.approvals) w
      else some (
          running
            (record { tool = tool; arguments = arguments; approval = none; decision = decision }) w)

  -- What the tool's semantic validator made of the arguments.
  unfoldable pub after_validator :
      PlatformTool Number
      → PolicyDecision
      → Moment
      → ValidatorOutcome Number
      → World Number
      → Option (Begun n)
  unfolding confirm refuse
  after_validator tool decision m (normalized arguments) w = confirm tool arguments decision m w
  after_validator tool decision m (ValidatorOutcome.permission_error e) w =
      some (refuse tool Status.denied (raised e) denied (some decision) "handler_denied" w)
  after_validator tool decision m (ValidatorOutcome.value_error e) w = some (
      refuse tool Status.invalid_arguments (raised (text_take 500 e)) denied (some decision)
        "invalid_arguments" w)
  after_validator tool decision m ValidatorOutcome.other_exception w =
      some (refuse tool Status.failed internal_error failed (some decision) "handler_exception" w)

  unfoldable pub run_validator :
      Option (ToolCallContext → Object Number → ValidatorOutcome Number)
      → Object Number
      → ValidatorOutcome Number
  run_validator none arguments = normalized arguments
  run_validator (some f) arguments = f c arguments

  unfoldable pub after_pdp :
      PlatformTool Number
      → Object Number
      → PolicyDecision
      → Moment
      → World Number
      → Option (Begun n)
  unfolding after_validator run_validator refuse
  after_pdp tool arguments decision m w =
      if not decision.allowed
      then some (
          refuse tool Status.denied (explain g c (pdp_reason decision.reason) tool) denied
            (some decision) (pdp_reason decision.reason) w)
      else after_validator tool decision m (run_validator tool.validator arguments) w

  unfoldable pub after_schema :
      PlatformTool Number
      → Object Number
      → AuthorizationDecision
      → Moment
      → World Number
      → Option (Begun n)
  unfolding after_pdp refuse
  after_schema tool arguments local m w =
      if not local.allowed
      then some (
          refuse tool Status.denied (explain g c (local_reason local.reason) tool) denied none
            (local_reason local.reason) w)
      else after_pdp tool arguments (g.evaluate (request_for tool)) m w

  unfoldable pub check_schema :
      PlatformTool Number → Checked (Object Number) → Moment → World Number → Option (Begun n)
  unfolding after_schema refuse
  check_schema tool (error e) m w =
      some
        (refuse tool Status.invalid_arguments (bad_arguments e) denied none "invalid_arguments" w)
  check_schema tool (ok arguments) m w =
      after_schema tool arguments (authorize c.who tool.required_capability c.scope) m w

  unfoldable pub find_tool :
      String
      → Object Number
      → Moment
      → Option (PlatformTool Number)
      → World Number
      → Option (Begun n)
  unfolding check_schema
  find_tool name arguments m none w = some (
      stopped (answer g c name Status.unknown_tool (some not_registered) none read)
        (audit g c name denied none (because g c "unknown_tool") w))
  find_tool name arguments m (some tool) w =
      check_schema tool (validate_arguments n tool.name tool.parameters arguments) m w

  unfoldable pub begin : String → Object Number → Moment → World Number → Option (Begun n)
  unfolding find_tool
  begin name arguments m w = find_tool name arguments m (lookup_tool g.registry name) w
