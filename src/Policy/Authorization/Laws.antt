-- ===== src/Policy/Authorization/Laws.antt =====
-- What an allowed decision of authorization.py guarantees, and when it is given.
use guru_ji.Prelude.{
  String, some, Bool-cases, Option-cases, inl, inr, ◌≡◌, ◌↔◌, true, false, arith, Member, any-true,
  any-Member, contains,
}
use guru_ji.Domain.Principals.{
  PrincipalType, anonymous, student, faculty, staff, hod, principal, institution_admin, main_admin,
  platform_super_admin, system, is_student, Capability, capability_eq, InstitutionScope, Principal,
  is_anonymous, covers, has_capability, can_access,
}
use guru_ji.Policy.Authorization.{authorize, consent_missing}

-- A student who asks for a batch has consent.
abbrev pub Consented : Principal → InstitutionScope → Type 0
Consented p r =
    p.principal_type ≡ student → (b : String) → r.batch_id ≡ some b → p.consent_verified ≡ true

student_iff : (t : PrincipalType) → (is_student t ≡ true) ↔ (t ≡ student)
student_iff anonymous = ground arith
student_iff student = ground arith
student_iff faculty = ground arith
student_iff staff = ground arith
student_iff hod = ground arith
student_iff principal = ground arith
student_iff institution_admin = ground arith
student_iff main_admin = ground arith
student_iff platform_super_admin = ground arith
student_iff system = ground arith

consent_missing-Consented :
    (p : Principal) (r : InstitutionScope) → consent_missing p r ≡ false → Consented p r
unfolding consent_missing
consent_missing-Consented p r h e b q = ground (arith, h, q, (student_iff p.principal_type).1 e)

Consented-given :
    (p : Principal) (r : InstitutionScope) → Consented p r → consent_missing p r ≡ false
unfolding consent_missing
Consented-given p r c = elim (Bool-cases (is_student p.principal_type)) [
  | inr n ↦ ground (arith, n)
  | inl y ↦ elim (Option-cases r.batch_id) [
    | inl q ↦ ground (arith, q)
    | inr (b, q) ↦ ground (arith, c ((student_iff p.principal_type).0 y) b q)
  ]
]

-- What the caller must be and hold.
pub record MayAct (p : Principal) (c : Capability) (r : InstitutionScope) : Type 0 where
  pub authenticated : p.authenticated ≡ true
  pub identified : is_anonymous p.principal_type ≡ false
  pub current : p.revoked ≡ false
  pub granted : contains p.capabilities c ≡ true
  pub consented : Consented p r
  pub in_scope : (s : InstitutionScope) × Member s p.scopes × (covers s r ≡ true)

-- Access is one of the granted scopes that covers the request.
pub can_access-covers :
    (p : Principal) (r : InstitutionScope)
    → can_access p r ≡ true
    → (s : InstitutionScope) × Member s p.scopes × (covers s r ≡ true)
unfolding can_access
can_access-covers p r h = any-true (λ s. covers s r) p.scopes (ground arith)

allowed-MayAct :
    (p : Principal) (c : Capability) (r : InstitutionScope)
    → (authorize p c r).allowed ≡ true
    → MayAct p c r
unfolding authorize has_capability
allowed-MayAct p c r h = record {
  authenticated = ground arith;
  identified = ground arith;
  current = ground arith;
  granted = ground arith;
  consented = consent_missing-Consented p r (ground arith);
  in_scope = can_access-covers p r (ground arith);
}

MayAct-allowed :
    (p : Principal) (c : Capability) (r : InstitutionScope)
    → MayAct p c r
    → (authorize p c r).allowed ≡ true
unfolding authorize has_capability can_access
MayAct-allowed p c r m =
    let (s, at, cov) = m.in_scope in
    ground (
      arith,
      m.authenticated,
      m.identified,
      m.current,
      m.granted,
      Consented-given p r m.consented,
      any-Member (λ t. covers t r) p.scopes at cov,
    )

-- A request is allowed exactly when the caller is authenticated, not anonymous, not revoked, holds
-- the capability, is no student without consent asking for a batch, and holds a covering scope.
pub authorize-MayAct_iff :
    (p : Principal) (c : Capability) (r : InstitutionScope)
    → ((authorize p c r).allowed ≡ true) ↔ MayAct p c r
authorize-MayAct_iff p c r = (allowed-MayAct p c r, MayAct-allowed p c r)
