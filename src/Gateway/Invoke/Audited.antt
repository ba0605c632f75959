-- ===== src/Gateway/Invoke/Audited.antt =====
-- What every end of a call leaves behind: the audit log, the traces and the data given back.
use mathlib.Core.Path.{subst}
use guru_ji.Prelude.{String, ◌≡◌, ◌≢◌, refl, not, Option, none, some, List, [], ◌∷◌, ◌++◌, if-elim}
use guru_ji.DataAccess.FieldPolicy.{strip_student_contact}
use guru_ji.Policy.Authorization.{authorize}
use guru_ji.Policy.Pdp.{PolicyDecision}
use guru_ji.InstitutionData.Approvals.{Approval, ApprovalStatus, approved, consumed}
use guru_ji.Gateway.Spec.{Numbers, risk_value, Checked, ok, error}
use guru_ji.Gateway.Types.{
  ToolCallContext, AuditOutcome, success, words, count, AuditEvent, Trace, Status, Note, Denial,
  lookup_tool, Object, Json, ToolOutput, HandlerOutcome, returned, bare, ValidatorOutcome,
  normalized, PlatformTool, PendingApproval, ToolInvocation, World,
}
use guru_ji.Gateway.Invoke.{
  Moment, Gateway, Call, Begun, stopped, running, audit, principal_for_audit, because, local_reason,
  pdp_reason, event_of,
}
use guru_ji.Gateway.Invoke.Begin.{
  request_for, is_high_risk, refuse, ask, confirm_with, confirm, after_validator, after_pdp,
  after_schema, check_schema, find_tool, begin,
}
use guru_ji.Gateway.Invoke.Finish.{settle, trace, trace_of, succeed, fall_short, finish}

-- The outcome that the audit log gives a status.
abbrev pub outcome_of : Status → AuditOutcome
outcome_of Status.success = AuditOutcome.success
outcome_of Status.denied = AuditOutcome.denied
outcome_of Status.invalid_arguments = AuditOutcome.denied
outcome_of Status.approval_required = AuditOutcome.partial
outcome_of Status.failed = AuditOutcome.failed
outcome_of Status.unknown_tool = AuditOutcome.denied

-- What a handler hands over, when it hands over anything.
abbrev pub handed : {N : Type 0} → HandlerOutcome N → Option (Json N)
handed (returned o) = some o.output
handed (bare v) = some v
handed _ = none

module _ {n : Numbers} (g : Gateway n) (c : ToolCallContext) where
  open n use {Number}

  -- One audit event is appended, and it tells what the caller is told.
  pub record Reports (i : ToolInvocation Number) (before after : World Number) : Type 0 where
    pub event : AuditEvent
    pub appended : after.audit ≡ before.audit ++ event ∷ []
    pub same_tool : event.tool_name ≡ i.tool_name
    pub same_outcome : event.outcome ≡ outcome_of i.status
    pub same_request : event.request_id ≡ c.request_id
    pub same_principal : event.principal_id ≡ principal_for_audit c.who
    pub same_decision : event.decision_id ≡ i.decision_id

  -- An early return gives no data and no success; only a request for confirmation changes the
  -- approvals.
  pub record Withholds (i : ToolInvocation Number) (before after : World Number) : Type 0 where
    pub no_output : i.output ≡ none
    pub not_success : i.status ≢ Status.success
    pub same_traces : after.traces ≡ before.traces
    pub same_approvals : i.status ≢ Status.approval_required → after.approvals ≡ before.approvals

  -- Before the handler is awaited nothing is audited or traced.
  abbrev pub Leaves : World Number → Begun n → Type 0
  Leaves w (stopped i w') = Reports i w w' × Withholds i w w'
  Leaves w (running k w') = (w'.audit ≡ w.audit) × (w'.traces ≡ w.traces)

  unfoldable LeavesIf : World Number → Option (Begun n) → Type 0
  LeavesIf w none = Unit
  LeavesIf w (some b) = Leaves w b

  ask-leaves :
      (tool : PlatformTool Number) (d : PolicyDecision)
      (asked : Option (PendingApproval Number × List (Approval (Object Number)))) (w : World Number)
      → LeavesIf w (ask g c tool d asked w)
  unfolding LeavesIf ask audit
  ask-leaves tool d none w = tt
  ask-leaves tool d (some (p, t)) w = (
    record {
      event = _;
      appended = refl;
      same_tool = refl;
      same_outcome = refl;
      same_request = refl;
      same_principal = refl;
      same_decision = refl;
    },
    record {
      no_output = refl;
      not_success = λ h. cc;
      same_traces = refl;
      same_approvals = λ h. absurd (h refl);
    },
  )

  refuse-leaves :
      (tool : PlatformTool Number) (s : Status) (why : Denial) (o : AuditOutcome)
      (d : Option PolicyDecision) (reason : String) (w : World Number)
      → s ≢ Status.success
      → o ≡ outcome_of s
      → LeavesIf w (some (refuse g c tool s why o d reason w))
  unfolding LeavesIf refuse audit
  refuse-leaves tool s why o d reason w q e = (
    record {
      event = _;
      appended = refl;
      same_tool = refl;
      same_outcome = e;
      same_request = refl;
      same_principal = refl;
      same_decision = refl;
    },
    record { no_output = refl; not_success = q; same_traces = refl; same_approvals = λ _. refl },
  )

  confirm_with-leaves :
      (tool : PlatformTool Number) (v : Object Number) (d : PolicyDecision) (m : Moment)
      (st : Option (Approval (Object Number)) × Option Note × List (Approval (Object Number)))
      (w : World Number)
      → LeavesIf w (confirm_with g c tool v d m st w)
  unfolding LeavesIf confirm_with
  confirm_with-leaves tool v d m (some a, why, after) w = (refl, refl)
  confirm_with-leaves tool v d m (none, why, after) w = ask-leaves tool d _ w

  runs-leaves : (k : Call n) (w : World Number) → LeavesIf w (some (running k w))
  unfolding LeavesIf
  runs-leaves k w = (refl, refl)

  validator-leaves :
      (tool : PlatformTool Number) (d : PolicyDecision) (m : Moment) (o : ValidatorOutcome Number)
      (w : World Number)
      → LeavesIf w (after_validator g c tool d m o w)
  unfolding after_validator confirm
  validator-leaves tool d m (normalized v) w =
      if-elim (LeavesIf w) (is_high_risk tool.risk) (confirm_with-leaves tool v d m _ w)
        (runs-leaves _ w)
  validator-leaves tool d m (ValidatorOutcome.permission_error e) w =
      refuse-leaves tool _ _ _ (some d) "handler_denied" w (λ h. cc) refl
  validator-leaves tool d m (ValidatorOutcome.value_error e) w =
      refuse-leaves tool _ _ _ (some d) "invalid_arguments" w (λ h. cc) refl
  validator-leaves tool d m ValidatorOutcome.other_exception w =
      refuse-leaves tool _ _ _ (some d) "handler_exception" w (λ h. cc) refl

  pdp-leaves :
      (tool : PlatformTool Number) (v : Object Number) (d : PolicyDecision) (m : Moment)
      (w : World Number)
      → LeavesIf w (after_pdp g c tool v d m w)
  unfolding after_pdp
  pdp-leaves tool v d m w =
      if-elim (LeavesIf w) (not d.allowed)
        (refuse-leaves tool _ _ _ (some d) (pdp_reason d.reason) w (λ h. cc) refl)
        (validator-leaves tool d m _ w)

  schema-leaves :
      (tool : PlatformTool Number) (m : Moment) (r : Checked (Object Number)) (w : World Number)
      → LeavesIf w (check_schema g c tool r m w)
  unfolding check_schema after_schema
  schema-leaves tool m (error e) w =
      refuse-leaves tool _ _ _ none "invalid_arguments" w (λ h. cc) refl
  schema-leaves tool m (ok v) w =
      if-elim (LeavesIf w) (not (authorize c.who tool.required_capability c.scope).allowed)
        (refuse-leaves tool _ _ _ none
          (local_reason (authorize c.who tool.required_capability c.scope).reason) w (λ h. cc) refl)
        (pdp-leaves tool v (g.evaluate (request_for g c tool)) m w)

  begin-leaves :
      (name : String) (arguments : Object Number) (m : Moment) (w : World Number)
      (o : Option (PlatformTool Number))
      → LeavesIf w (find_tool g c name arguments m o w)
  unfolding LeavesIf find_tool audit
  begin-leaves name arguments m w none = (
    record {
      event = _;
      appended = refl;
      same_tool = refl;
      same_outcome = refl;
      same_request = refl;
      same_principal = refl;
      same_decision = refl;
    },
    record {
      no_output = refl;
      not_success = λ h. cc;
      same_traces = refl;
      same_approvals = λ _. refl;
    },
  )
  begin-leaves name arguments m w (some tool) = schema-leaves tool m _ w

  -- Up to the handler, a call that returns early appends exactly one audit event, which names the
  -- tool, the request, the principal, the decision and the outcome of the answer; it gives no data,
  -- is never a success, writes no trace, and changes the approvals only when it asks for a
  -- confirmation. A call that goes on to its handler has audited and traced nothing yet.
  pub begin-Leaves :
      (name : String) (arguments : Object Number) (m : Moment) (w : World Number) (b : Begun n)
      → begin g c name arguments m w ≡ some b
      → Leaves w b
  unfolding LeavesIf begin
  begin-Leaves name arguments m w b h =
      subst (LeavesIf w) h (begin-leaves name arguments m w (lookup_tool g.registry name))

  -- What a finished handler leaves: one event, and either a traced success whose data is stripped
  -- of contact fields, or no data.
  pub record Ends (k : Call n) (o : HandlerOutcome Number) (i : ToolInvocation Number)
      (before after : World Number) : Type 0 where
    pub reports : Reports i before after
    pub on_success :
        i.status ≡ Status.success
        → (v : Json Number) × (handed o ≡ some v)
          × (i.output ≡ some (strip_student_contact c.who v))
          × (t : Trace) × (after.traces ≡ before.traces ++ t ∷ [])
    pub otherwise :
        i.status ≢ Status.success
        → (i.output ≡ none) × (handed o ≡ none) × (after.traces ≡ before.traces)

  settle-audit :
      (a : Option (Approval (Object Number))) (s : ApprovalStatus) (m : Moment) (w : World Number)
      → ((settle g c a s m w).audit ≡ w.audit) × ((settle g c a s m w).traces ≡ w.traces)
  unfolding settle
  settle-audit none s m w = (refl, refl)
  settle-audit (some a) s m w = (refl, refl)

  succeed-Ends :
      (k : Call n) (o : HandlerOutcome Number) (t : ToolOutput Number) (m : Moment)
      (w : World Number)
      → handed o ≡ some t.output
      → let (i, w') = succeed g c k t m w in Ends k o i w w'
  unfolding succeed audit trace
  succeed-Ends k o t m w h =
      let (a, r) = settle-audit k.approval consumed m w in
      record {
        reports = record {
          event = event_of g c k.tool.name success (some k.decision) (
              ("risk", words (risk_value k.tool.risk))
              ∷ ("records_returned", count t.records_returned)
              ∷ []);
          appended = rw a;
          same_tool = refl;
          same_outcome = refl;
          same_request = refl;
          same_principal = refl;
          same_decision = refl;
        };
        on_success = λ _. (t.output, h, refl, trace_of g c k t, rw r);
        otherwise = λ q. absurd (q refl);
      }

  fall_short-Ends :
      (k : Call n) (o : HandlerOutcome Number) (s : Status) (why : Denial) (e : AuditOutcome)
      (reason : String) (m : Moment) (w : World Number)
      → s ≢ Status.success
      → e ≡ outcome_of s
      → handed o ≡ none
      → let (i, w') = fall_short g c k s why e reason m w in Ends k o i w w'
  unfolding fall_short audit
  fall_short-Ends k o s why e reason m w q f h =
      let (a, r) = settle-audit k.approval approved m w in
      record {
        reports = record {
          event = event_of g c k.tool.name e (some k.decision) (because g c reason);
          appended = rw a;
          same_tool = refl;
          same_outcome = f;
          same_request = refl;
          same_principal = refl;
          same_decision = refl;
        };
        on_success = λ p. absurd (q p);
        otherwise = λ _. (refl, h, r);
      }

  -- However its handler ends, a call appends exactly one audit event that agrees with its answer;
  -- its answer is a success exactly when the handler handed over data, the data given back is then
  -- that data stripped of student contact fields for the caller, with one trace written, and in
  -- every other case neither data nor a trace is given.
  pub finish-Ends :
      (k : Call n) (o : HandlerOutcome Number) (m : Moment) (w : World Number)
      → let (i, w') = finish g c k o m w in Ends k o i w w'
  unfolding finish
  finish-Ends k (returned t) m w = succeed-Ends k (returned t) t m w refl
  finish-Ends k (bare v) m w = succeed-Ends k (bare v) _ m w refl
  finish-Ends k (HandlerOutcome.permission_error e) m w =
      fall_short-Ends k _ _ _ _ _ m w (λ h. cc) refl refl
  finish-Ends k (HandlerOutcome.value_error e) m w =
      fall_short-Ends k _ _ _ _ _ m w (λ h. cc) refl refl
  finish-Ends k HandlerOutcome.other_exception m w =
      fall_short-Ends k _ _ _ _ _ m w (λ h. cc) refl refl
