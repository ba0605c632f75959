-- ===== src/Gateway/Types.antt =====
-- The records that gateway.py, spec.py and registry.py pass around, and the state that a call
-- changes. Durations, and the ids that `uuid4` draws for audit events, are not modelled.
use guru_ji.Prelude.{
  ℕ, String, Bool, Option, none, some, List, find, any, ◌==◌, string_eq, if◌then◌else◌, select, ◌∷◌,
  [], ◌++◌,
}
use guru_ji.Domain.Principals.{Capability, InstitutionScope, Principal, has_capability}
use guru_ji.Domain.Values.{Value, Entries}
use guru_ji.Gateway.Spec.{Scalar, ParameterSpec, RiskLevel, ArgumentError}
use guru_ji.InstitutionData.Approvals.{Approval, ApprovalStatus}

-- apps/api/app/policy/query_limits.py
pub record QueryLimits : Type 0 where
  pub max_duration_ms : ℕ
  pub max_rows : ℕ
  pub max_response_bytes : ℕ
  pub max_tool_calls : ℕ
  pub max_parallel_sources : ℕ

pub record ToolCallContext : Type 0 where
  pub request_id : String
  pub who : Principal
  pub scope : InstitutionScope
  pub channel : String
  pub limits : QueryLimits
  pub approval_id : Option String
  pub conversation_id : Option String

abbrev pub institution_id : ToolCallContext → String
institution_id c = c.scope.college_id

pub data AuditOutcome : Type 0 where
  success partial denied failed : AuditOutcome

pub data Extra : Type 0 where
  words : String → Extra
  count : ℕ → Extra

pub record AuditEvent : Type 0 where
  pub request_id : String
  pub principal_id : Option String
  pub conversation_id : Option String
  pub source_id : String
  pub tool_name : String
  pub outcome : AuditOutcome
  pub policy_version : String
  pub channel : String
  pub decision_id : Option String
  pub extra : List (String × Extra)

pub record Trace : Type 0 where
  pub trace_id : String
  pub principal_id : String
  pub tool_name : String
  pub action : String
  pub rows_used : ℕ
  pub decision_id : String
  pub policy_version : String

pub data Status : Type 0 where
  success denied invalid_arguments approval_required failed unknown_tool : Status

-- Why an earlier confirmation cannot be used.
pub data Note : Type 0 where
  not_found different_change : Note
  was : ApprovalStatus → Note

-- `denial_reason`, by what it says.
pub data Denial : Type 0 where
  not_registered internal_error outside_scope authentication_required account_revoked : Denial
  consent_required : Denial
  bad_arguments : ArgumentError → Denial
  requires : Capability → Denial
  policy_denied : String → Denial
  raised : String → Denial

module _ (N : Type 0) where
  abbrev pub Json : Type 0
  Json = Value (Scalar N)

  abbrev pub Object : Type 0
  Object = Entries (Scalar N)

  pub record ToolOutput : Type 0 where
    pub output : Json
    pub summary : String
    pub warnings : List Object
    pub provenance : List Object
    pub records_returned : ℕ
    pub artifacts : List Object

  -- How a handler ends: with a ToolOutput or another value, or by one of three kinds of exception.
  pub data HandlerOutcome : Type 0 where
    returned : ToolOutput → HandlerOutcome
    bare : Json → HandlerOutcome
    permission_error value_error : String → HandlerOutcome
    other_exception : HandlerOutcome

  pub data ValidatorOutcome : Type 0 where
    normalized : Object → ValidatorOutcome
    permission_error value_error : String → ValidatorOutcome
    other_exception : ValidatorOutcome

  pub record PlatformTool : Type 0 where
    pub name : String
    pub group : String
    pub required_capability : Capability
    pub risk : RiskLevel
    pub parameters : List (ParameterSpec N)
    pub validator : Option (ToolCallContext → Object → ValidatorOutcome)

  pub record PendingApproval : Type 0 where
    pub approval_id : String
    pub tool_name : String
    pub status : Option ApprovalStatus
    pub expires_at : Option ℕ
    pub reason : String
    pub arguments : Object
    pub note : Option Note

  pub record ToolInvocation : Type 0 where
    pub tool_name : String
    pub status : Status
    pub output : Option Json
    pub summary : String
    pub warnings : List Object
    pub provenance : List Object
    pub artifacts : List Object
    pub records_returned : ℕ
    pub denial_reason : Option Denial
    pub approval : Option PendingApproval
    pub decision_id : Option String
    pub risk : RiskLevel

  -- What a call changes: the approvals table, the audit log and the traces.
  pub record World : Type 0 where
    pub approvals : List (Approval Object)
    pub audit : List AuditEvent
    pub traces : List Trace

  -- registry.py: a dictionary by name, in registration order.
  pub record Registry : Type 0 where
    pub tools : List PlatformTool

module _ {N : Type 0} where
  abbrev pub has_name : String → PlatformTool N → Bool
  has_name n t = t.name == n

  -- `none` is the ValueError on a name that is taken.
  unfoldable pub register : PlatformTool N → Registry N → Option (Registry N)
  register t r =
      if any (has_name t.name) r.tools then none else some (record r { tools = r.tools ++ t ∷ [] })

  unfoldable pub lookup_tool : Registry N → String → Option (PlatformTool N)
  lookup_tool r n = find (has_name n) r.tools

  unfoldable pub for_principal : Registry N → Principal → List (PlatformTool N)
  for_principal r p = select (λ t. has_capability p t.required_capability) r.tools
