-- ===== src/Orchestration/ReadOnly/Authorized.antt =====
-- When a read-only plan holds steps.
use guru_ji.Prelude.{
  String, ◌≡◌, refl, Bool, true, false, Option, none, some, List, [], ◌∷◌, any, map, arith,
  Bool-cases, ap, ◌∙◌, ◌==◌, string_eq, inl, inr, if◌then◌else◌,
}
use guru_ji.Domain.Text.{is_blank, is_space, strip}
use guru_ji.Domain.Principals.{Principal, ask_read_only}
use guru_ji.Domain.Requests.{ChatRequest}
use guru_ji.Policy.Authorization.{AuthorizationDecision, DenialReason, authorize}
use guru_ji.Orchestration.ReadOnly.{
  ExecutionPlan, PlanStep, make_step, make_plan, steps_for, classify, retrieve, synthesize,
  plan_with, denied_plan, reason_text, plan_for, build_read_only_plan,
}

-- What the constructor of a request makes sure of.
pub record IsChecked (r : ChatRequest) : Type 0 where
  pub named : is_blank r.request_id ≡ false
  pub sources : any is_blank r.source_ids ≡ false

abbrev steps_of : List String → List PlanStep
steps_of ids = classify ∷ retrieve (map strip ids) ∷ synthesize ∷ []

classify-valid : make_step classify ≡ some classify
unfolding make_step is_blank is_space
classify-valid = refl

synthesize-valid : make_step synthesize ≡ some synthesize
unfolding make_step is_blank is_space
synthesize-valid = refl

retrieve-valid :
    (ids : List String)
    → any is_blank ids ≡ false
    → make_step (retrieve ids) ≡ some (retrieve (map strip ids))
unfolding make_step is_blank is_space
retrieve-valid ids h = rw h refl

steps_for-valid :
    (ids : List String) → any is_blank ids ≡ false → steps_for ids ≡ some (steps_of ids)
unfolding steps_for
steps_for-valid ids h = rw classify-valid (rw synthesize-valid (rw (retrieve-valid ids h) refl))

-- The plan that is built, and its steps.
abbrev pub Builds : ChatRequest → Bool → Option ExecutionPlan → Type 0
Builds r allowed o =
    (p : ExecutionPlan) × (o ≡ some p)
    × (make_plan p ≡ some p)
    × (p.authorized ≡ allowed)
    × (p.steps ≡ (if allowed then steps_of r.source_ids else []))

reason_given : (o : Option DenialReason) → (reason_text o == "") ≡ false
reason_given none = refl
reason_given (some DenialReason.unauthenticated) = refl
reason_given (some DenialReason.revoked) = refl
reason_given (some DenialReason.missing_capability) = refl
reason_given (some DenialReason.out_of_scope) = refl
reason_given (some DenialReason.parental_consent_required) = refl
reason_given (some DenialReason.unknown_action) = refl
reason_given (some DenialReason.pdp_unavailable) = refl
reason_given (some DenialReason.stale_policy) = refl

module _ (r : ChatRequest) (h : IsChecked r) where
  abbrev allowed_plan : ExecutionPlan
  allowed_plan = record {
    request_id = r.request_id;
    authorized = true;
    steps = steps_of r.source_ids;
    denial_reason = none;
  }

  allowed-valid : make_plan allowed_plan ≡ some allowed_plan
  unfolding make_plan
  allowed-valid = ground (arith, h.named)

  denied-valid :
      (o : Option DenialReason)
      → make_plan (denied_plan r.request_id o) ≡ some (denied_plan r.request_id o)
  unfolding make_plan
  denied-valid o = ground (arith, h.named, reason_given o)

  plan_for-Builds : (d : AuthorizationDecision) → Builds r d.allowed (plan_for r d)
  unfolding plan_for
  plan_for-Builds d = elim (Bool-cases d.allowed) [
    | inl e ↦ rw e (
      allowed_plan,
      ap (plan_with r.request_id) (steps_for-valid r.source_ids h.sources) ∙ allowed-valid,
      allowed-valid,
      refl,
      refl,
    )
    | inr e ↦ rw e (
      denied_plan r.request_id d.reason,
      denied-valid d.reason,
      denied-valid d.reason,
      refl,
      refl,
    )
  ]

-- A checked request always has a plan that `ExecutionPlan` accepts: its three steps, over the
-- sources that the request names, exactly when `authorize` allows the caller to ask in the scope
-- of the request, and no step otherwise.
pub build_read_only_plan-Builds :
    (r : ChatRequest) (p : Principal)
    → IsChecked r
    → Builds r (authorize p ask_read_only r.institution_scope).allowed (build_read_only_plan r p)
unfolding build_read_only_plan
build_read_only_plan-Builds r p h =
    plan_for-Builds r h (authorize p ask_read_only r.institution_scope)
