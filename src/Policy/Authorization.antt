-- ===== src/Policy/Authorization.antt =====
-- apps/api/app/policy/authorization.py and institution_scope.py: the deny-by-default decision.
pub mod Laws
use guru_ji.Prelude.{Bool, true, false, not, ◌&&◌, ◌||◌, Option, none, some, if◌then◌else◌, is_some}
use guru_ji.Domain.Principals.{
  Capability, InstitutionScope, Principal, is_anonymous, is_student, active, has_capability,
  can_access,
}

pub data DenialReason : Type 0 where
  unauthenticated revoked missing_capability out_of_scope parental_consent_required : DenialReason
  unknown_action pdp_unavailable stale_policy : DenialReason

pub record AuthorizationDecision : Type 0 where
  pub allowed : Bool
  pub reason : Option DenialReason

-- The constructor's checks: `none` is the ValueError.
unfoldable pub make_authorization : AuthorizationDecision → Option AuthorizationDecision
make_authorization d =
    if d.allowed && is_some d.reason
    then none
    else if not d.allowed && not (is_some d.reason)
    then none
    else some d

abbrev pub allow : AuthorizationDecision
allow = record { allowed = true; reason = none }

abbrev pub deny : DenialReason → AuthorizationDecision
deny r = record { allowed = false; reason = some r }

-- A student asks for batch data with no verified consent.
unfoldable pub consent_missing : Principal → InstitutionScope → Bool
consent_missing p r = is_student p.principal_type && is_some r.batch_id && not p.consent_verified

unfoldable pub authorize : Principal → Capability → InstitutionScope → AuthorizationDecision
authorize p c r =
    if not p.authenticated || is_anonymous p.principal_type
    then deny unauthenticated
    else if p.revoked
    then deny DenialReason.revoked
    else if not (has_capability p c)
    then deny missing_capability
    else if consent_missing p r
    then deny parental_consent_required
    else if not (can_access p r)
    then deny out_of_scope
    else allow

unfoldable pub scope_denial : Principal → InstitutionScope → Option DenialReason
scope_denial p r =
    if not (active p)
    then some unauthenticated
    else if not (can_access p r)
    then some out_of_scope
    else none
