-- ===== src/Policy/Pdp.antt =====
-- apps/api/app/policy/pdp.py: the local policy decision point.
-- `hex` is the hexadecimal text of the `uuid4` that the code draws.
pub mod Agrees
use guru_ji.Prelude.{
  String, Bool, true, false, not, ◌&&◌, ◌||◌, Option, none, some, List, [], ◌∷◌, if◌then◌else◌,
  ◌==◌, string_eq, contains, find,
}
use guru_ji.Domain.Text.{is_blank, text_append}
use guru_ji.Domain.Principals.{
  Capability, InstitutionScope, Principal, is_anonymous, covers, has_capability,
}
use guru_ji.Policy.Authorization.{
  DenialReason, unauthenticated, missing_capability, out_of_scope, parental_consent_required,
  unknown_action, consent_missing,
}

-- `DenialReason | str`
pub data Reason : Type 0 where
  known : DenialReason → Reason
  text : String → Reason

pub record PolicyDecision : Type 0 where
  pub allowed : Bool
  pub action : String
  pub resource_type : String
  pub resource_id : String
  pub policy_version : String
  pub decision_id : String
  pub matched_scope : Option InstitutionScope
  pub reason : Option Reason

-- What is asked of a decision point.
pub record Request : Type 0 where
  pub who : Principal
  pub required_capability : Capability
  pub action : String
  pub resource_type : String
  pub resource_id : String
  pub requested_scope : InstitutionScope

abbrev pub has_reason : Option Reason → Bool
has_reason none = false
has_reason (some r) = true

-- The constructor's checks: `none` is the ValueError.
unfoldable pub make_decision : PolicyDecision → Option PolicyDecision
make_decision d =
    if is_blank d.action
      || is_blank d.resource_type
      || is_blank d.resource_id
      || is_blank d.policy_version
      || is_blank d.decision_id
    then none
    else if d.allowed && has_reason d.reason
    then none
    else if not d.allowed && not (has_reason d.reason)
    then none
    else some d

unfoldable pub denied :
    Request → String → String → Reason → Option InstitutionScope → PolicyDecision
denied q version id r matched = record {
  allowed = false;
  action = q.action;
  resource_type = q.resource_type;
  resource_id = q.resource_id;
  policy_version = version;
  decision_id = id;
  matched_scope = matched;
  reason = some r;
}

abbrev pub policy_version : String
policy_version = "guru-local-v1"

abbrev pub allowed_actions : List String
allowed_actions =
    "list" ∷ "search" ∷ "retrieve" ∷ "mcp.tool.call" ∷ "execute" ∷ "write" ∷ "high_risk" ∷ []

-- `action in self._allowed_actions`
unfoldable pub is_allowed_action : String → Bool
is_allowed_action action = contains allowed_actions action

-- The last branch of `evaluate`: the first granted scope that covers the request.
unfoldable pub decide_scope : Request → String → Option InstitutionScope → PolicyDecision
unfolding denied
decide_scope q id none = denied q policy_version id (known out_of_scope) none
decide_scope q id (some s) = record {
  allowed = true;
  action = q.action;
  resource_type = q.resource_type;
  resource_id = q.resource_id;
  policy_version = policy_version;
  decision_id = id;
  matched_scope = some s;
  reason = none;
}

-- What `evaluate` gives the decision's constructor.
unfoldable pub verdict : Request → String → PolicyDecision
unfolding denied decide_scope
verdict q id =
    let p = q.who in
    let no_scope = λ (r : DenialReason). denied q policy_version id (known r) none in
    if not (is_allowed_action q.action)
    then no_scope unknown_action
    else if not p.authenticated || is_anonymous p.principal_type
    then no_scope unauthenticated
    else if p.revoked
    then no_scope DenialReason.revoked
    else if not (has_capability p q.required_capability)
    then no_scope missing_capability
    else if consent_missing p q.requested_scope
    then no_scope parental_consent_required
    else decide_scope q id (find (λ s. covers s q.requested_scope) p.scopes)

-- `none` is the ValueError of the decision's constructor.
unfoldable pub evaluate : Request → String → Option PolicyDecision
unfolding make_decision verdict
evaluate q hex = make_decision (verdict q (text_append "pdp-" hex))
