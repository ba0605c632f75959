-- ===== src/Policy/Cerbos.antt =====
-- apps/api/app/policy/cerbos.py. The HTTP client is a parameter: it gives the JSON value of a reply,
-- or none for an error of the transport, a status that is one, or a text that is not JSON.
pub mod Closed
use guru_ji.Prelude.{
  String, Bool, true, false, not, ◌&&◌, ◌||◌, Option, none, some, List, [], ◌∷◌, if◌then◌else◌,
  ◌==◌, string_eq, contains, is_some,
}
use guru_ji.Domain.Text.{is_blank, strip}
use guru_ji.Domain.Values.{Value, scalar, list, mapping, Items, nil, cons, get}
use guru_ji.Domain.Principals.{
  InstitutionScope, make_scope, covers, active, has_capability, Principal,
}
use guru_ji.Gateway.Spec.{Scalar, text, boolean}
use guru_ji.Gateway.Types.{Json, Object}
use guru_ji.Gateway.Json.{is_false}
use guru_ji.Policy.Authorization.{
  DenialReason, unauthenticated, missing_capability, out_of_scope, parental_consent_required,
  unknown_action, pdp_unavailable, stale_policy, consent_missing,
}
use guru_ji.Policy.Pdp.{
  Reason, known, text as said, PolicyDecision, Request, make_decision, denied, is_allowed_action,
}

-- `str(value)` of a value that is no text, `str.lower` and `str.upper`.
pub record Texts (N : Type 0) : Type 0 where
  pub is_zero : N → Bool
  pub show : Json N → String
  pub lower : String → String
  pub upper : String → String

-- The client, the configured version, and the ids that `uuid4` draws.
pub record Cerbos (N : Type 0) : Type 0 where
  pub texts : Texts N
  pub policy_version : String
  pub require_fresh : Bool
  pub post : Request → Option (Json N)
  pub own_id : String
  pub reply_id : String

-- The absolute URL as `urlparse` splits it.
pub record Url : Type 0 where
  pub scheme : String
  pub netloc : String
  pub has_extras : Bool

-- The constructor's checks: true is the ValueError.
unfoldable pub is_refused : Url → String → Bool → Bool
is_refused url version positive_timeout =
    not (url.scheme == "http" || url.scheme == "https")
    || url.netloc == ""
    || url.has_extras
    || is_blank version
    || not positive_timeout

abbrev pub not_blank : Option String → Option String
not_blank none = none
not_blank (some t) = if is_blank t then none else some (strip t)

module _ {N : Type 0} where
  abbrev pub text_field : Option (Json N) → Option String
  text_field (some (scalar (text t))) = some t
  text_field _ = none

  abbrev scope_of : Option String → Object N → Option InstitutionScope
  scope_of none o = none
  scope_of (some college) o =
      make_scope college (text_field (get "department_id" o)) (text_field (get "batch_id" o))

  unfoldable pub scope_from_payload : Option (Json N) → Option InstitutionScope
  scope_from_payload (some (mapping o)) = scope_of (text_field (get "college_id" o)) o
  scope_from_payload _ = none

  unfoldable pub extract_resource : Option (Json N) → String → Option (Object N)
  extract_resource (some (mapping instances)) id = elim (get id instances) [
    | some (mapping item) ↦ some item
    | _ ↦ none
  ]
  extract_resource _ id = none

-- What a reply says of one action.
pub record Verdict (N : Type 0) : Type 0 where
  pub effect : Option (Json N)
  pub reason : Option String
  pub matched_scope : Option InstitutionScope

module _ {N : Type 0} (c : Cerbos N) where
  -- `a or b`
  abbrev or_else : Option (Json N) → Option (Json N) → Option (Json N)
  or_else a b = if is_false c.texts.is_zero a then b else a

  abbrev text_of : Option (Json N) → String
  text_of none = "None"
  text_of (some (scalar (text t))) = t
  text_of (some v) = c.texts.show v

  unfoldable pub decision_id : Object N → String
  decision_id o =
      let found = not_blank (
        text_field (or_else (get "callId" o) (or_else (get "decisionId" o) (get "requestId" o)))) in
      elim found [ none ↦ c.reply_id | some id ↦ id ]

  unfoldable pub response_version : Object N → String
  response_version o =
      elim (text_field (or_else (get "policyVersion" o) (get "policy_version" o))) [
        | none ↦ ""
        | some t ↦ strip t
      ]

  abbrev status_of : Object N → String
  status_of o = elim (get "policyStatus" o) [
    | some v ↦ text_of (some v)
    | none ↦ elim (get "status" o) [ some v ↦ text_of (some v) | none ↦ "current" ]
  ]

  abbrev is_true : Option (Json N) → Bool
  is_true (some (scalar (boolean b))) = b
  is_true _ = false

  unfoldable pub is_stale : Object N → Bool
  is_stale o =
      contains ("stale" ∷ "unknown" ∷ "unavailable" ∷ []) (c.texts.lower (strip (status_of o)))
      || is_true (get "stale" o)

  abbrev verdict_of : Option (Json N) → Object N → Verdict N
  verdict_of effect item = record {
    effect = effect;
    reason = not_blank (text_field (get "reason" item));
    matched_scope =
        scope_from_payload (or_else (get "matchedScope" item) (get "matched_scope" item));
  }

  abbrev pub bare_verdict : Option (Json N) → Verdict N
  bare_verdict effect = record { effect = effect; reason = none; matched_scope = none }

  abbrev names : String → Option (Json N) → Bool
  names action (some (scalar (text t))) = t == action
  names action _ = false

  unfoldable pub find_action : String → Items (Scalar N) → Verdict N
  unfolding scope_from_payload
  find_action action nil = bare_verdict none
  find_action action (cons (mapping item) rest) =
      let later = find_action action rest in
      if names action (get "action" item)
      then verdict_of (or_else (get "effect" item) (get "decision" item)) item
      else later
  find_action action (cons v rest) = find_action action rest

  unfoldable pub read_actions : String → Option (Json N) → Verdict N
  unfolding scope_from_payload find_action
  read_actions action (some (mapping actions)) = elim (get action actions) [
    | some (mapping item) ↦
        verdict_of
          (or_else (get "effect" item) (or_else (get "decision" item) (get "outcome" item))) item
    | other ↦ bare_verdict other
  ]
  read_actions action (some (list items)) = find_action action items
  read_actions action _ = bare_verdict none

  unfoldable pub is_allow : Verdict N → Bool
  is_allow v =
      contains ("EFFECT_ALLOW" ∷ "ALLOW" ∷ "ALLOWED" ∷ []) (c.texts.upper (text_of v.effect))

  -- A denial in the reply's name; `version` is the one that it gives, or the configured one.
  abbrev pub deny : Request → String → String → Reason → Option PolicyDecision
  deny q version id r = make_decision (denied q version id r none)

  abbrev pub allow : Request → String → String → InstitutionScope → Option PolicyDecision
  allow q version id matched = make_decision (record {
    allowed = true;
    action = q.action;
    resource_type = q.resource_type;
    resource_id = q.resource_id;
    policy_version = version;
    decision_id = id;
    matched_scope = some matched;
    reason = none;
  })

  -- `matched_scope`, or the requested scope where the reply names none.
  abbrev pub matched_or : Request → Option InstitutionScope → InstitutionScope
  matched_or q none = q.requested_scope
  matched_or q (some s) = s

  abbrev why : Option String → Reason
  why none = said "pdp_denied"
  why (some r) = said r

  unfoldable pub conclude : Request → String → String → Verdict N → Option PolicyDecision
  unfolding is_allow
  conclude q version id v =
      if not (is_allow v)
      then deny q version id (why v.reason)
      else if not (covers (matched_or q v.matched_scope) q.requested_scope)
      then deny q version id (known out_of_scope)
      else if consent_missing q.who q.requested_scope
      then deny q version id (known parental_consent_required)
      else allow q version id (matched_or q v.matched_scope)

  unfoldable pub on_resource : Request → String → String → Option (Object N) → Option PolicyDecision
  unfolding conclude read_actions
  on_resource q version id none = deny q c.policy_version id (known pdp_unavailable)
  on_resource q version id (some resource) =
      conclude q version id (read_actions q.action (get "actions" resource))

  unfoldable pub parse_versioned : Request → Object N → String → String → Option PolicyDecision
  unfolding on_resource is_stale extract_resource
  parse_versioned q o id version =
      if not (version == c.policy_version)
      then deny q version id (known stale_policy)
      else if c.require_fresh && is_stale o
      then deny q c.policy_version id (known stale_policy)
      else on_resource q version id (extract_resource (get "resourceInstances" o) q.resource_id)

  -- `none` is a ValueError of the decision's constructor.
  unfoldable pub parse_response : Request → Object N → Option PolicyDecision
  unfolding parse_versioned response_version decision_id
  parse_response q o =
      if not (response_version o == "")
      then parse_versioned q o (decision_id o) (response_version o)
      else if c.require_fresh
      then deny q c.policy_version (decision_id o) (known stale_policy)
      else parse_versioned q o (decision_id o) c.policy_version

  abbrev pub unavailable : Request → Option PolicyDecision
  unavailable q = deny q c.policy_version c.own_id (known pdp_unavailable)

  abbrev pub or_unavailable : Request → Option PolicyDecision → Option PolicyDecision
  or_unavailable q none = unavailable q
  or_unavailable q (some d) = some d

  unfoldable pub read_reply : Request → Option (Json N) → Option PolicyDecision
  unfolding parse_response
  read_reply q (some (mapping o)) = or_unavailable q (parse_response q o)
  read_reply q _ = unavailable q

  -- `none` is a ValueError that leaves `evaluate`: the request has a blank part.
  unfoldable pub evaluate : Request → Option PolicyDecision
  unfolding read_reply
  evaluate q =
      let refuse = λ (r : DenialReason). deny q c.policy_version c.own_id (known r) in
      if q.who.revoked
      then refuse DenialReason.revoked
      else if not (active q.who)
      then refuse unauthenticated
      else if not (has_capability q.who q.required_capability)
      then refuse missing_capability
      else if not (is_allowed_action q.action)
      then refuse unknown_action
      else read_reply q (c.post q)
