-- ===== src/Domain/Principals/Snapshot.antt =====
-- `principal_snapshot` and `principal_from_snapshot` of principals.py. A snapshot's values have the
-- types that the server records; any key may be missing, any text may stand for a type or a
-- capability, and an item of `scopes` may be no dictionary. A frozenset is a list of its elements.
use mathlib.Core.Path.{subst₂}
use guru_ji.Prelude.{
  String, ◌≡◌, refl, sym, ap, ◌∙◌, ◌||◌, Bool, true, false, Option, none, some, List, [], ◌∷◌, map,
  contains, All, arith, ◌==◌, string_eq, eq_iff, Bool-cases, Option-cases, inl, inr, if◌then◌else◌,
}
use guru_ji.Domain.Text.{is_blank, sorted, contains-sorted}
use guru_ji.Domain.Principals.{
  PrincipalType, Capability, capability_eq, InstitutionScope, make_scope, Principal, make_principal,
  is_anonymous, active,
}
use guru_ji.Domain.Principals.Values.{
  type_value, capability_value, type_of, capability_of, type_of-type_value,
  capability_of-capability_value, value-test, value-unknown,
}

-- An item of `scopes`.
pub data ScopeItem : Type 0 where
  not_mapping : ScopeItem
  item : Option String → Option String → Option String → ScopeItem

pub record PrincipalSnapshot : Type 0 where
  pub principal_id : Option String
  pub principal_type : Option String
  pub capabilities : Option (List String)
  pub scopes : Option (List ScopeItem)
  pub consent_verified : Option Bool

unfoldable pub as_dict : InstitutionScope → ScopeItem
as_dict s = item (some s.college_id) s.department_id s.batch_id

unfoldable pub principal_snapshot : Principal → PrincipalSnapshot
unfolding type_value capability_value as_dict
principal_snapshot p = record {
  principal_id = some p.principal_id;
  principal_type = some (type_value p.principal_type);
  capabilities = some (sorted (map capability_value p.capabilities));
  scopes = some (map as_dict p.scopes);
  consent_verified = some p.consent_verified;
}

-- `snapshot.get(key, default)`
abbrev pub get_or : {A : Type 0} → A → Option A → A
get_or a none = a
get_or a (some b) = b

abbrev with_known : Option Capability → List Capability → List Capability
with_known none cs = cs
with_known (some c) cs = c ∷ cs

unfoldable pub read_capabilities : List String → List Capability
unfolding capability_of
read_capabilities [] = []
read_capabilities (t ∷ ts) = with_known (capability_of t) (read_capabilities ts)

abbrev with_scope :
    Option InstitutionScope → Option (List InstitutionScope) → Option (List InstitutionScope)
with_scope (some s) (some ss) = some (s ∷ ss)
with_scope _ _ = none

-- `none` is the ValueError of a scope's constructor.
unfoldable pub read_scopes : List ScopeItem → Option (List InstitutionScope)
read_scopes [] = some []
read_scopes (not_mapping ∷ items) = read_scopes items
read_scopes (item none d b ∷ items) = read_scopes items
read_scopes (item (some c) d b ∷ items) =
    let rest = read_scopes items in if c == "" then rest else with_scope (make_scope c d b) rest

abbrev rebuild :
    Option String
    → Option PrincipalType
    → List Capability
    → Option (List InstitutionScope)
    → Bool
    → Option Principal
rebuild (some id) (some t) cs (some ss) consent = make_principal (record {
  principal_id = id;
  principal_type = t;
  capabilities = cs;
  scopes = ss;
  authenticated = true;
  consent_verified = consent;
  revoked = false;
})
rebuild _ _ _ _ _ = none

-- `none` is a KeyError or a ValueError.
unfoldable pub principal_from_snapshot : PrincipalSnapshot → Option Principal
unfolding type_of read_capabilities read_scopes
principal_from_snapshot s =
    rebuild s.principal_id (type_of (get_or "student" s.principal_type))
      (read_capabilities (get_or [] s.capabilities)) (read_scopes (get_or [] s.scopes))
      (get_or false s.consent_verified)

-- The capabilities that are read are the known ones among the values.
contains-read_capabilities :
    (ts : List String) (c : Capability)
    → contains (read_capabilities ts) c ≡ contains ts (capability_value c)
unfolding read_capabilities
contains-read_capabilities [] c = refl
contains-read_capabilities (t ∷ ts) c = elim (Option-cases (capability_of t)) [
  | inl h ↦ rw (h, value-unknown t c h) (contains-read_capabilities ts c)
  | inr (d, h) ↦
      rw (h, value-test t c d h) (ap (λ b. d == c || b) (contains-read_capabilities ts c))
]

contains-values :
    (cs : List Capability) (c : Capability)
    → contains (map capability_value cs) (capability_value c) ≡ contains cs c
contains-values [] c = refl
contains-values (d ∷ cs) c =
    rw (value-test (capability_value d) c d (capability_of-capability_value d))
      (ap (λ b. d == c || b) (contains-values cs c))

-- The constructor accepts the scope.
abbrev pub IsMade : InstitutionScope → Type 0
IsMade s = make_scope s.college_id s.department_id s.batch_id ≡ some s

made-college : (s : InstitutionScope) → IsMade s → (s.college_id == "") ≡ false
unfolding make_scope is_blank
made-college s h = elim (Bool-cases (s.college_id == "")) [
  | inr e ↦ e
  | inl e ↦
      let q : is_blank s.college_id ≡ true = ap is_blank ((eq_iff s.college_id "").0 e) in
      absurd (ground (arith, h, q))
]

read_scopes-as_dict :
    (ss : List InstitutionScope) → All IsMade ss → read_scopes (map as_dict ss) ≡ some ss
unfolding read_scopes as_dict
read_scopes-as_dict [] h = refl
read_scopes-as_dict (s ∷ ss) (m, h) = rw (made-college s m, m, read_scopes-as_dict ss h) refl

active-fields :
    (p : Principal)
    → active p ≡ true
    → (p.authenticated ≡ true) × (p.revoked ≡ false) × (is_anonymous p.principal_type ≡ false)
unfolding active
active-fields p h = (ground arith, ground arith, ground arith)

rebuilt :
    (p : Principal) (cs : List Capability)
    → make_principal p ≡ some p
    → active p ≡ true
    → make_principal (record p { capabilities = cs; authenticated = true; revoked = false })
      ≡ some (record p { capabilities = cs })
unfolding make_principal
rebuilt p cs h a =
    let (x, y, z) = active-fields p a in
    let b : is_blank p.principal_id ≡ false = ground (arith, h) in
    rw (b, z)
      (ap some (
        subst₂
          (λ u v.
            record p { capabilities = cs; authenticated = u; revoked = v }
            ≡ record p { capabilities = cs })
          x y refl))

make_principal-capabilities :
    (p q : Principal) → make_principal p ≡ some q → q.capabilities ≡ p.capabilities
unfolding make_principal
make_principal-capabilities p q h =
    let e : p ≡ q = ground (arith, h) in ap (λ x. x.capabilities) (sym e)

rebuild-capabilities :
    (id : Option String) (t : Option PrincipalType) (cs : List Capability)
    (ss : Option (List InstitutionScope)) (consent : Bool) (q : Principal)
    → rebuild id t cs ss consent ≡ some q
    → q.capabilities ≡ cs
rebuild-capabilities (some id) (some t) cs (some ss) consent q h = make_principal-capabilities _ q h
rebuild-capabilities none t cs ss consent q h = absurd (cc)
rebuild-capabilities (some id) none cs ss consent q h = absurd (cc)
rebuild-capabilities (some id) (some t) cs none consent q h = absurd (cc)

-- What a snapshot lists is what is granted: a text that is no capability's value grants nothing.
principal_from_snapshot-capabilities :
    (s : PrincipalSnapshot) (q : Principal)
    → principal_from_snapshot s ≡ some q
    → (c : Capability)
    → contains q.capabilities c ≡ contains (get_or [] s.capabilities) (capability_value c)
unfolding principal_from_snapshot
principal_from_snapshot-capabilities s q h c =
    let e = rebuild-capabilities _ _ _ _ _ q h in
    ap (λ cs. contains cs c) e ∙ contains-read_capabilities (get_or [] s.capabilities) c

-- An active principal that the constructor accepts, with scopes that theirs accepts, comes back
-- from its snapshot with the same id, type, scopes and consent, and with a list of the same
-- capabilities. A principal that any snapshot gives has exactly the capabilities whose values the
-- snapshot lists.
pub principal_from_snapshot-principal_snapshot :
    (p : Principal)
    → make_principal p ≡ some p
    → active p ≡ true
    → All IsMade p.scopes
    → ((cs : List Capability) × (principal_from_snapshot (principal_snapshot p)
          ≡ some (record p { capabilities = cs }))
        × ((c : Capability) → contains cs c ≡ contains p.capabilities c))
      × ((s : PrincipalSnapshot) (q : Principal)
          → principal_from_snapshot s ≡ some q
          → (c : Capability)
          → contains q.capabilities c ≡ contains (get_or [] s.capabilities) (capability_value c))
unfolding principal_from_snapshot principal_snapshot
principal_from_snapshot-principal_snapshot p h a m =
    let values = sorted (map capability_value p.capabilities) in
    let cs = read_capabilities values in
    (
      (
        cs,
        rw (type_of-type_value p.principal_type, read_scopes-as_dict p.scopes m) (rebuilt p cs h a),
        λ c.
            contains-read_capabilities values c
            ∙ contains-sorted (map capability_value p.capabilities) (capability_value c)
            ∙ contains-values p.capabilities c,
      ),
      principal_from_snapshot-capabilities,
    )
