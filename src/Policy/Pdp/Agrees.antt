-- ===== src/Policy/Pdp/Agrees.antt =====
-- The local decision point and `authorize` agree.
use guru_ji.Prelude.{
  List, [], ◌∷◌, contains, All, not, refl, if-elim, Bool-cases, eq_iff, ◌==◌, string_eq, String,
  ◌≡◌, ap, ◌∙◌, Bool, false, ◌||◌, if◌then◌else◌, inl, inr, true, Option, none, some, Member, arith,
  any, find, any-Member, find-some, is_some-find, Option-cases,
}
use guru_ji.Domain.Principals.{
  InstitutionScope, is_anonymous, Principal, covers, has_capability, can_access,
}
use guru_ji.Policy.Authorization.{DenialReason, out_of_scope, consent_missing, authorize}
use guru_ji.Policy.Pdp.{
  has_reason, denied, allowed_actions, decide_scope, policy_version, Reason, known, Request,
  PolicyDecision, is_allowed_action, verdict, make_decision, evaluate,
}
use guru_ji.Domain.Text.{is_blank, text_append}
use mathlib.Core.Path.{subst}

abbrev pub reason_of : Option DenialReason → Option Reason
reason_of none = none
reason_of (some r) = some (known r)

-- A search finds a scope exactly when some scope covers.
any-find :
    (p : Principal) (r : InstitutionScope) {s : InstitutionScope}
    → find (λ t. covers t r) p.scopes ≡ some s
    → any (λ t. covers t r) p.scopes ≡ true
any-find p r h =
    let (m, c) = find-some (λ t. covers t r) p.scopes h in any-Member (λ t. covers t r) p.scopes m c

verdict-authorize :
    (q : Request) (id : String)
    → is_allowed_action q.action ≡ true
    → ((verdict q id).allowed ≡ (authorize q.who q.required_capability q.requested_scope).allowed)
      × ((verdict q id).reason
          ≡ reason_of (authorize q.who q.required_capability q.requested_scope).reason)
unfolding verdict authorize can_access has_capability
verdict-authorize q id k =
    elim (Option-cases (find (λ t. covers t q.requested_scope) q.who.scopes)) [
      | inl e ↦ (
        ground (arith, is_some-find (λ t. covers t q.requested_scope) q.who.scopes e),
        ground (arith, is_some-find (λ t. covers t q.requested_scope) q.who.scopes e),
      )
      | inr (s, e) ↦ (
        ground (arith, any-find q.who q.requested_scope e),
        ground (arith, any-find q.who q.requested_scope e),
      )
    ]

is_blank-contains :
    (xs : List String) (a : String)
    → All (λ x. is_blank x ≡ false) xs
    → contains xs a ≡ true
    → is_blank a ≡ false
is_blank-contains [] a n h = absurd (cc)
is_blank-contains (x ∷ xs) a (m, n) h = elim (Bool-cases (x == a)) [
  | inl e ↦ subst (λ y. is_blank y ≡ false) ((eq_iff x a).0 e) m
  | inr e ↦ is_blank-contains xs a n (ground arith)
]

is_blank-allowed : (a : String) → is_allowed_action a ≡ true → is_blank a ≡ false
unfolding is_allowed_action is_blank
is_blank-allowed a h =
    is_blank-contains allowed_actions a (refl, (refl, (refl, (refl, (refl, (refl, (refl, tt))))))) h

make_decision-named :
    (d : PolicyDecision)
    → is_blank d.action ≡ false
    → is_blank d.policy_version ≡ false
    → is_blank d.decision_id ≡ false
    → has_reason d.reason ≡ not d.allowed
    → make_decision d
      ≡ (if is_blank d.resource_type || is_blank d.resource_id then none else some d)
unfolding make_decision
make_decision-named d a v i r = ground arith

module _ (q : Request) (id : String) where
  -- A verdict is about the request, and has a reason exactly when it denies.
  record IsVerdict (d : PolicyDecision) : Type 0 where
    same_action : d.action ≡ q.action
    same_type : d.resource_type ≡ q.resource_type
    same_id : d.resource_id ≡ q.resource_id
    version : d.policy_version ≡ policy_version
    named : d.decision_id ≡ id
    reasoned : has_reason d.reason ≡ not d.allowed

  denied-IsVerdict : (r : DenialReason) → IsVerdict (denied q policy_version id (known r) none)
  unfolding denied
  denied-IsVerdict r = record {
    same_action = refl;
    same_type = refl;
    same_id = refl;
    version = refl;
    named = refl;
    reasoned = refl;
  }

  decide_scope-IsVerdict : (o : Option InstitutionScope) → IsVerdict (decide_scope q id o)
  unfolding decide_scope
  decide_scope-IsVerdict none = denied-IsVerdict out_of_scope
  decide_scope-IsVerdict (some s) = record {
    same_action = refl;
    same_type = refl;
    same_id = refl;
    version = refl;
    named = refl;
    reasoned = refl;
  }

  verdict-IsVerdict : IsVerdict (verdict q id)
  unfolding verdict
  verdict-IsVerdict = if-elim IsVerdict (not (is_allowed_action q.action)) (denied-IsVerdict _) (
      if-elim IsVerdict (not q.who.authenticated || is_anonymous q.who.principal_type)
        (denied-IsVerdict _)
        (if-elim IsVerdict q.who.revoked (denied-IsVerdict _) (
          if-elim IsVerdict (not (has_capability q.who q.required_capability)) (denied-IsVerdict _)
            (if-elim IsVerdict (consent_missing q.who q.requested_scope) (denied-IsVerdict _)
              (decide_scope-IsVerdict _)))))

-- A resource that the constructor of a decision refuses.
abbrev pub is_unnamed : Request → Bool
is_unnamed q = is_blank q.resource_type || is_blank q.resource_id

verdict-checks :
    (q : Request) (hex : String)
    → is_blank q.action ≡ false
    → evaluate q hex ≡ (if is_unnamed q then none else some (verdict q (text_append "pdp-" hex)))
unfolding evaluate is_blank text_append
verdict-checks q hex h =
    let id = text_append "pdp-" hex in
    let d = verdict q id in
    let v = verdict-IsVerdict q id in
    let e =
      make_decision-named d (ap is_blank v.same_action ∙ h) (ap is_blank v.version)
        (ap is_blank v.named) v.reasoned in
    e
    ∙ ap (λ t. if is_blank t || is_blank d.resource_id then none else some d) v.same_type
    ∙ ap (λ t. if is_blank q.resource_type || is_blank t then none else some d) v.same_id

-- For a known action the local decision point and `authorize` give the same verdict and reason,
-- unless the type or the id of the resource is blank: then it raises a ValueError.
pub evaluate-authorize :
    (q : Request) (hex : String)
    → is_allowed_action q.action ≡ true
    → (is_unnamed q ≡ true → evaluate q hex ≡ none)
      × (is_unnamed q ≡ false
          → (d : PolicyDecision) × (evaluate q hex ≡ some d)
            × (d.allowed ≡ (authorize q.who q.required_capability q.requested_scope).allowed)
            × (d.reason
                ≡ reason_of (authorize q.who q.required_capability q.requested_scope).reason))
evaluate-authorize q hex k =
    let id = text_append "pdp-" hex in
    let e = verdict-checks q hex (is_blank-allowed q.action k) in
    let (a, r) = verdict-authorize q id k in
    (λ h. (rw h at e), λ h. (verdict q id, (rw h at e), a, r))

verdict-matched :
    (q : Request) (id : String)
    → (verdict q id).allowed ≡ true
    → (s : InstitutionScope) × ((verdict q id).matched_scope ≡ some s)
      × Member s q.who.scopes
      × (covers s q.requested_scope ≡ true)
unfolding verdict
verdict-matched q id h = elim (Option-cases (find (λ t. covers t q.requested_scope) q.who.scopes)) [
  | inl e ↦ absurd (ground arith)
  | inr (s, e) ↦
      let (m, c) = find-some (λ t. covers t q.requested_scope) q.who.scopes e in
      (s, ground arith, m, c)
]

make_decision-some : (d e : PolicyDecision) → make_decision d ≡ some e → d ≡ e
unfolding make_decision
make_decision-some d e h = ground arith

-- An allowed decision names a scope that the caller holds and that covers the request.
pub matched_scope-covers :
    (q : Request) (hex : String) (d : PolicyDecision)
    → evaluate q hex ≡ some d
    → d.allowed ≡ true
    → (s : InstitutionScope) × (d.matched_scope ≡ some s)
      × Member s q.who.scopes
      × (covers s q.requested_scope ≡ true)
unfolding evaluate
matched_scope-covers q hex d e h =
    let v = verdict q (text_append "pdp-" hex) in
    let k : v ≡ d = make_decision-some v d e in
    subst
      (λ x.
        (s : InstitutionScope) × (x.matched_scope ≡ some s)
        × Member s q.who.scopes
        × (covers s q.requested_scope ≡ true))
      k (verdict-matched q (text_append "pdp-" hex) (ap (λ x. x.allowed) k ∙ h))
