-- ===== src/Policy/Cerbos/Closed.antt =====
-- No reply is an implicit allow.
use guru_ji.Prelude.{◌≡◌, ◌≢◌, ◌⊎◌, true, false, ◌&&◌, Option, none, some, string_eq}
use guru_ji.Domain.Values.{scalar, mapping, get}
use guru_ji.Domain.Principals.{InstitutionScope, covers, active, has_capability}
use guru_ji.Gateway.Spec.{boolean}
use guru_ji.Gateway.Types.{Object}
use guru_ji.Policy.Authorization.{consent_missing}
use guru_ji.Policy.Pdp.{PolicyDecision, Request, is_allowed_action}
use guru_ji.Policy.Cerbos.{
  Cerbos, is_allow, read_actions, extract_resource, is_stale, response_version,
}

-- What is known of a decision if it allows.
unfoldable Only : (PolicyDecision → Type 0) → Option PolicyDecision → Type 0
Only P none = Unit
Only P (some d) = d.allowed ≡ true → P d

module _ {N : Type 0} (c : Cerbos N) (q : Request) where
  -- A reply states the configured version, or none where freshness is not required.
  abbrev pub Attested : Object N → Type 0
  Attested o =
      (response_version c o ≡ c.policy_version)
      ⊎ ((response_version c o ≡ "") × (c.require_fresh ≡ false))

  -- A reply that allows the action: an attested or trusted version, fresh policies, and an effect
  -- for this resource and this action.
  pub record Allows (o : Object N) (scope : InstitutionScope) : Type 0 where
    pub resource : Object N
    pub found : extract_resource (get "resourceInstances" o) q.resource_id ≡ some resource
    pub effect : is_allow c (read_actions c q.action (get "actions" resource)) ≡ true
    pub attested : Attested o
    pub fresh : (c.require_fresh && is_stale c o) ≡ false
    pub unmarked : c.require_fresh ≡ true → get "stale" o ≢ some (scalar (boolean true))
    pub covered : covers scope q.requested_scope ≡ true
    pub consented : consent_missing q.who q.requested_scope ≡ false

  -- What an allowing decision rests on.
  pub record Rests (o : Object N) (d : PolicyDecision) : Type 0 where
    pub scope : InstitutionScope
    pub matched : d.matched_scope ≡ some scope
    pub version : d.policy_version ≡ c.policy_version
    pub allows : Allows o scope

  module _ (o : Object N) where
    abbrev Safe : Option PolicyDecision → Type 0
    Safe d = Only (Rests o) d

  -- What an allowing decision of `evaluate` rests on: the principal, and a reply.
  pub record Cleared (d : PolicyDecision) : Type 0 where
    pub is_active : active q.who ≡ true
    pub is_capable : has_capability q.who q.required_capability ≡ true
    pub is_known : is_allowed_action q.action ≡ true
    pub reply : Object N
    pub replied : c.post q ≡ some (mapping reply)
    pub rests : Rests reply d

  abbrev Closed : Option PolicyDecision → Type 0
  Closed d = Only Cleared d
