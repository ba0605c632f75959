-- ===== src/Gateway/Invoke.antt =====
-- `ToolGateway.invoke` of gateway.py: `begin` is the part up to the awaited handler, `finish` the
-- part after it, so that other calls may run between the two. `none` is an exception that leaves
-- the gateway: the database refused to insert a confirmation.
pub mod Begin
pub mod Finish
pub mod Audited
pub mod Guards
pub mod Cleared
pub mod Rows
use guru_ji.Prelude.{
  ℕ, String, Bool, true, false, not, ◌&&◌, ◌||◌, Option, none, some, List, [], ◌∷◌, ◌++◌,
  if◌then◌else◌, ◌==◌, string_eq, ltb,
}
use guru_ji.Domain.Text.{text_take}
use guru_ji.Domain.Principals.{Principal}
use guru_ji.Policy.Authorization.{AuthorizationDecision, DenialReason, authorize}
use guru_ji.Policy.Pdp.{Reason, known, text, Request, PolicyDecision}
use guru_ji.DataAccess.FieldPolicy.{strip_student_contact}
use guru_ji.InstitutionData.Approvals.{
  Approval, ApprovalStatus, pending, approved, rejected, executing, consumed, expired, is_approved,
  new_approval, get_approval, insert_approval, claim_approval, write_decision,
}
use guru_ji.Gateway.Spec.{
  Numbers, RiskLevel, read, high_risk, ArgumentError, Checked, ok, error, pdp_action_of, risk_value,
}
use guru_ji.Gateway.Spec.Arguments.{validate_arguments}
use guru_ji.Gateway.Types.{
  ToolCallContext, institution_id, AuditOutcome, Extra, words, count, AuditEvent, Trace, Status,
  Note, not_found, different_change, was, Denial, not_registered, internal_error, outside_scope,
  authentication_required, account_revoked, consent_required, bad_arguments, requires,
  policy_denied, raised, Json, Object, ToolOutput, HandlerOutcome, returned, bare, ValidatorOutcome,
  normalized, PlatformTool, PendingApproval, ToolInvocation, World, Registry, lookup_tool,
}

abbrev pub reason_word : DenialReason → String
reason_word DenialReason.unauthenticated = "unauthenticated"
reason_word DenialReason.revoked = "revoked"
reason_word DenialReason.missing_capability = "missing_capability"
reason_word DenialReason.out_of_scope = "out_of_scope"
reason_word DenialReason.parental_consent_required = "parental_consent_required"
reason_word DenialReason.unknown_action = "unknown_action"
reason_word DenialReason.pdp_unavailable = "pdp_unavailable"
reason_word DenialReason.stale_policy = "stale_policy"

-- `decision_local.reason.value if decision_local.reason else "missing_capability"`
abbrev pub local_reason : Option DenialReason → String
local_reason none = "missing_capability"
local_reason (some r) = reason_word r

-- `decision.reason.value` or `str(decision.reason or "pdp_denied")`
abbrev pub pdp_reason : Option Reason → String
pdp_reason none = "pdp_denied"
pdp_reason (some (known r)) = reason_word r
pdp_reason (some (text s)) = if s == "" then "pdp_denied" else s

-- `not context.approval_id`
abbrev pub named : Option String → Option String
named none = none
named (some id) = if id == "" then none else some id

-- What one call draws: the id of a confirmation, and the times at which it reads the clock.
pub record Moment : Type 0 where
  pub fresh_id : String
  pub checked_at : ℕ
  pub claimed_at : ℕ
  pub asked_at : ℕ
  pub ended_at : ℕ

module _ (n : Numbers) where
  open n use {Number}

  -- The gateway's parts that do not change: the tools, the decision point, the hash and the
  -- lifetime of a confirmation.
  pub record Gateway : Type 0 where
    pub registry : Registry Number
    pub policy_version : String
    pub evaluate : Request → PolicyDecision
    pub arguments_digest : Object Number → String
    pub approval_ttl_seconds : ℕ

  -- A call whose handler is awaited.
  pub record Call : Type 0 where
    pub tool : PlatformTool Number
    pub arguments : Object Number
    pub approval : Option (Approval (Object Number))
    pub decision : PolicyDecision

  pub data Begun : Type 0 where
    stopped : ToolInvocation Number → World Number → Begun
    running : Call → World Number → Begun

abbrev pub principal_for_audit : Principal → Option String
principal_for_audit p = if p.authenticated then some p.principal_id else none

abbrev pub id_of : Option PolicyDecision → Option String
id_of none = none
id_of (some d) = some d.decision_id

module _ {n : Numbers} (g : Gateway n) (c : ToolCallContext) where
  open n use {Number}

  abbrev pub event_of :
      String → AuditOutcome → Option PolicyDecision → List (String × Extra) → AuditEvent
  event_of tool outcome decision extra = record {
    request_id = c.request_id;
    principal_id = principal_for_audit c.who;
    conversation_id = c.conversation_id;
    source_id = institution_id c;
    tool_name = tool;
    outcome = outcome;
    policy_version = g.policy_version;
    channel = c.channel;
    decision_id = id_of decision;
    extra = extra;
  }

  -- `_audit`
  unfoldable pub audit :
      String
      → AuditOutcome
      → Option PolicyDecision
      → List (String × Extra)
      → World Number
      → World Number
  audit tool outcome decision extra w = record w {
    audit = w.audit ++ event_of tool outcome decision extra ∷ [];
  }

  -- A ToolInvocation with the defaults of its other fields.
  abbrev pub answer :
      String → Status → Option Denial → Option String → RiskLevel → ToolInvocation Number
  answer tool status denial decision risk = record {
    tool_name = tool;
    status = status;
    output = none;
    summary = "";
    warnings = [];
    provenance = [];
    artifacts = [];
    records_returned = 0;
    denial_reason = denial;
    approval = none;
    decision_id = decision;
    risk = risk;
  }

  -- `_explain`
  unfoldable pub explain : String → PlatformTool Number → Denial
  explain reason tool =
      if reason == "missing_capability"
      then requires tool.required_capability
      else if reason == "out_of_scope"
      then outside_scope
      else if reason == "unauthenticated"
      then authentication_required
      else if reason == "revoked"
      then account_revoked
      else if reason == "parental_consent_required"
      then consent_required
      else policy_denied reason

  abbrev pub because : String → List (String × Extra)
  because reason = ("reason", words reason) ∷ []

  -- The record of a named confirmation, or why it cannot be used.
  unfoldable pub usable :
      PlatformTool Number
      → Object Number
      → Moment
      → Approval (Object Number)
      → Option (Approval (Object Number)) × Option Note
  usable tool arguments m a =
      if not (a.principal_id == c.who.principal_id)
      then (none, some not_found)
      else if not (a.tool_name == tool.name)
          || not (a.arguments_sha256 == g.arguments_digest arguments)
      then (none, some different_change)
      else if not (is_approved a.status)
      then (none, some (was a.status))
      else if ltb a.expires_at m.checked_at
      then (none, some (was expired))
      else (some a, none)

  unfoldable pub usable_row :
      PlatformTool Number
      → Object Number
      → Moment
      → Option (Approval (Object Number))
      → Option (Approval (Object Number)) × Option Note
  unfolding usable
  usable_row tool arguments m none = (none, some not_found)
  usable_row tool arguments m (some a) = usable tool arguments m a

  unfoldable pub approval_state_of :
      PlatformTool Number
      → Object Number
      → Moment
      → Option String
      → List (Approval (Object Number))
      → Option (Approval (Object Number)) × Option Note
  unfolding usable_row
  approval_state_of tool arguments m none t = (none, none)
  approval_state_of tool arguments m (some id) t =
      usable_row tool arguments m (get_approval (institution_id c) id t)

  -- `_approval_state`
  unfoldable pub approval_state :
      PlatformTool Number
      → Object Number
      → Moment
      → List (Approval (Object Number))
      → Option (Approval (Object Number)) × Option Note
  unfolding approval_state_of
  approval_state tool arguments m t = approval_state_of tool arguments m (named c.approval_id) t

  -- The claim that follows: a usable record is claimed, and a lost claim is a running one.
  unfoldable pub claim_usable :
      Moment
      → Option (Approval (Object Number)) × Option Note
      → List (Approval (Object Number))
      → Option (Approval (Object Number)) × Option Note × List (Approval (Object Number))
  claim_usable m (none, why) t = (none, why, t)
  claim_usable m (some a, why) t =
      let (claimed, after) =
        claim_approval (institution_id c) a.approval_id c.who.principal_id m.claimed_at t in
      (claimed, elim claimed [ none ↦ some (was executing) | some b ↦ none ], after)

  unfoldable pub status_of : Option (Approval (Object Number)) → Option ApprovalStatus
  status_of none = none
  status_of (some a) = some a.status

  unfoldable pub expiry_of : Option (Approval (Object Number)) → Option ℕ
  expiry_of none = none
  expiry_of (some a) = some a.expires_at

  -- `request_approval`
  unfoldable pub request_approval :
      PlatformTool Number
      → Object Number
      → String
      → Option Note
      → Moment
      → List (Approval (Object Number))
      → Option (PendingApproval Number × List (Approval (Object Number)))
  unfolding status_of expiry_of
  request_approval tool arguments reason note m t =
      elim (insert_approval
        (new_approval (institution_id c) m.fresh_id c.who.principal_id tool.name arguments
          (g.arguments_digest arguments) reason g.approval_ttl_seconds m.asked_at)
        t) [
          | none ↦ none
          | some after ↦
              let row = get_approval (institution_id c) m.fresh_id after in
              some (
                record {
                  approval_id = m.fresh_id;
                  tool_name = tool.name;
                  status = status_of row;
                  expires_at = expiry_of row;
                  reason = reason;
                  arguments = arguments;
                  note = note;
                },
                after,
              )
        ]
