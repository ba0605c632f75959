-- ===== src/Domain/Principals.antt =====
-- apps/api/app/domain/principals.py: who asks, and the scopes they hold.
pub mod Covers
pub mod Snapshot
pub mod Values
use guru_ji.Prelude.{
  String, ◌≡◌, Bool, true, false, not, ◌&&◌, ◌||◌, Option, none, some, List, [], ◌∷◌, if◌then◌else◌,
  Eq, discrete_eq, ◌==◌, string_eq, contains, any,
}
use guru_ji.Domain.Text.{is_blank}

pub data PrincipalType : Type 0 where
  anonymous student faculty staff hod principal institution_admin main_admin : PrincipalType
  platform_super_admin system : PrincipalType

pub data Capability : Type 0 where
  ask_read_only start_voice_session view_source_metadata run_briefing : Capability
  view_briefing_history manage_access agent_command data_ingest data_review : Capability
  students_read students_read_contact attendance_read fees_read faculty_read : Capability
  exams_read documents_read documents_manage reports_generate actions_email : Capability
  actions_notify records_write intelligence_read intelligence_manage web_search : Capability

unfoldable pub PrincipalType-discrete : Discrete PrincipalType
PrincipalType-discrete = hlevel

unfoldable pub Capability-discrete : Discrete Capability
Capability-discrete = hlevel

instance abbrev pub principal_type_eq : Eq PrincipalType
principal_type_eq = discrete_eq PrincipalType-discrete

instance abbrev pub capability_eq : Eq Capability
capability_eq = discrete_eq Capability-discrete

pub record InstitutionScope : Type 0 where
  pub college_id : String
  pub department_id : Option String
  pub batch_id : Option String

blank_part : Option String → Bool
blank_part none = false
blank_part (some s) = is_blank s

-- The constructor's check: `none` is the ValueError.
unfoldable pub make_scope : String → Option String → Option String → Option InstitutionScope
unfolding blank_part
make_scope c d b =
    if is_blank c || blank_part d || blank_part b
    then none
    else some (record { college_id = c; department_id = d; batch_id = b })

-- One round of the loop of `covers`: a granted part against the requested one.
part_covers : Option String → Option String → Bool
part_covers none none = true
part_covers (some g) none = false
part_covers none (some r) = true
part_covers (some g) (some r) = g == r

unfoldable pub covers : InstitutionScope → InstitutionScope → Bool
unfolding part_covers
covers g r =
    g.college_id == r.college_id
    && part_covers g.department_id r.department_id
    && part_covers g.batch_id r.batch_id

pub record Principal : Type 0 where
  pub principal_id : String
  pub principal_type : PrincipalType
  pub capabilities : List Capability
  pub scopes : List InstitutionScope
  pub authenticated : Bool
  pub consent_verified : Bool
  pub revoked : Bool

abbrev pub is_anonymous : PrincipalType → Bool
is_anonymous anonymous = true
is_anonymous _ = false

abbrev pub is_student : PrincipalType → Bool
is_student student = true
is_student _ = false

abbrev non_empty {ℓ} : {A : Type ℓ} → List A → Bool
non_empty [] = false
non_empty (x ∷ xs) = true

-- The constructor's check: `none` is the ValueError.
unfoldable pub make_principal : Principal → Option Principal
make_principal p =
    if is_blank p.principal_id
    then none
    else if is_anonymous p.principal_type
        && (p.authenticated
            || non_empty p.capabilities
            || non_empty p.scopes
            || p.consent_verified
            || p.revoked)
    then none
    else some p

unfoldable pub active : Principal → Bool
active p = p.authenticated && not p.revoked && not (is_anonymous p.principal_type)

unfoldable pub has_capability : Principal → Capability → Bool
unfolding active
has_capability p c = active p && contains p.capabilities c

unfoldable pub can_access : Principal → InstitutionScope → Bool
unfolding active
can_access p r = active p && any (λ s. covers s r) p.scopes
