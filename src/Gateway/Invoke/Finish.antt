-- ===== src/Gateway/Invoke/Finish.antt =====
-- `invoke` after the awaited handler: the confirmation is consumed or given back, and the output
-- is stripped, traced and audited. `invoke` composes both parts.
use guru_ji.Prelude.{String, Option, none, some, [], ◌∷◌, ◌++◌}
use guru_ji.Domain.Text.{text_take}
use guru_ji.DataAccess.FieldPolicy.{strip_student_contact}
use guru_ji.InstitutionData.Approvals.{Approval, ApprovalStatus, approved, consumed, write_decision}
use guru_ji.Gateway.Spec.{Numbers, pdp_action_of, risk_value}
use guru_ji.Gateway.Types.{
  ToolCallContext, institution_id, AuditOutcome, success, denied, failed, words, count, Status,
  Denial, internal_error, raised, Object, ToolOutput, HandlerOutcome, returned, bare,
  ToolInvocation, Trace, World,
}
use guru_ji.Gateway.Invoke.{Moment, Gateway, Call, Begun, stopped, running, audit, answer, because}
use guru_ji.Gateway.Invoke.Begin.{begin}

module _ {n : Numbers} (g : Gateway n) (c : ToolCallContext) where
  open n use {Number}

  -- The status of a claimed confirmation is set; a call without one leaves the table alone.
  unfoldable pub settle :
      Option (Approval (Object Number)) → ApprovalStatus → Moment → World Number → World Number
  settle none s m w = w
  settle (some a) s m w =
      let (row, after) =
        write_decision (institution_id c) a.approval_id s c.who.principal_id m.ended_at
          w.approvals in
      record w { approvals = after }

  abbrev pub trace_of : Call n → ToolOutput Number → Trace
  trace_of k o = record {
    trace_id = c.request_id;
    principal_id = c.who.principal_id;
    tool_name = k.tool.name;
    action = pdp_action_of k.tool.risk;
    rows_used = o.records_returned;
    decision_id = k.decision.decision_id;
    policy_version = g.policy_version;
  }

  unfoldable pub trace : Call n → ToolOutput Number → World Number → World Number
  trace k o w = record w { traces = w.traces ++ trace_of k o ∷ [] }

  unfoldable pub succeed :
      Call n → ToolOutput Number → Moment → World Number → ToolInvocation Number × World Number
  unfolding settle trace
  succeed k o m w = (
    record {
      tool_name = k.tool.name;
      status = Status.success;
      output = some (strip_student_contact c.who o.output);
      summary = o.summary;
      warnings = o.warnings;
      provenance = o.provenance;
      artifacts = o.artifacts;
      records_returned = o.records_returned;
      denial_reason = none;
      approval = none;
      decision_id = some k.decision.decision_id;
      risk = k.tool.risk;
    },
    audit g c k.tool.name success (some k.decision)
        (("risk", words (risk_value k.tool.risk))
          ∷ ("records_returned", count o.records_returned)
          ∷ [])
        (trace k o (settle k.approval consumed m w)),
  )

  unfoldable pub fall_short :
      Call n
      → Status
      → Denial
      → AuditOutcome
      → String
      → Moment
      → World Number
      → ToolInvocation Number × World Number
  unfolding settle
  fall_short k status denial outcome reason m w = (
    answer g c k.tool.name status (some denial) (some k.decision.decision_id) k.tool.risk,
    audit g c k.tool.name outcome (some k.decision) (because g c reason)
        (settle k.approval approved m w),
  )

  unfoldable pub finish :
      Call n → HandlerOutcome Number → Moment → World Number → ToolInvocation Number × World Number
  unfolding succeed fall_short
  finish k (returned o) m w = succeed k o m w
  finish k (bare v) m w =
      succeed k
        (record {
          output = v;
          summary = "";
          warnings = [];
          provenance = [];
          records_returned = 0;
          artifacts = [];
        })
        m w
  finish k (HandlerOutcome.permission_error e) m w =
      fall_short k Status.denied (raised e) denied "handler_denied" m w
  finish k (HandlerOutcome.value_error e) m w =
      fall_short k Status.failed (raised (text_take 500 e)) failed "handler_error" m w
  finish k HandlerOutcome.other_exception m w =
      fall_short k Status.failed internal_error failed "handler_exception" m w

  unfoldable pub complete :
      (Call n → World Number → HandlerOutcome Number × World Number)
      → Moment
      → Option (Begun n)
      → Option (ToolInvocation Number × World Number)
  unfolding finish
  complete handler m none = none
  complete handler m (some (stopped answer w)) = some (answer, w)
  complete handler m (some (running k w)) =
      let (o, after) = handler k w in some (finish k o m after)

  -- The whole call. The handler is awaited: the state that it gives back holds what it and the
  -- calls that ran meanwhile have changed.
  unfoldable pub invoke :
      (Call n → World Number → HandlerOutcome Number × World Number)
      → String
      → Object Number
      → Moment
      → World Number
      → Option (ToolInvocation Number × World Number)
  unfolding complete begin
  invoke handler name arguments m w = complete handler m (begin g c name arguments m w)
