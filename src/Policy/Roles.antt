-- ===== src/Policy/Roles.antt =====
-- apps/api/app/auth/roles.py: the capabilities of each role. A frozenset is a list, its union `++`.
use guru_ji.Prelude.{
  ◌≡◌, refl, true, Option, none, some, String, List, [], ◌∷◌, ◌++◌, arith, contains, find, ◌==◌,
  string_eq,
}
use guru_ji.Domain.Text.{strip}
use guru_ji.Domain.Principals.{
  PrincipalType, anonymous, student, faculty, staff, hod, principal, institution_admin, main_admin,
  platform_super_admin, system, Capability, capability_eq, Capability-discrete, ask_read_only,
  start_voice_session, view_source_metadata, run_briefing, view_briefing_history, manage_access,
  agent_command, data_ingest, data_review, students_read, students_read_contact, attendance_read,
  fees_read, faculty_read, exams_read, documents_read, documents_manage, reports_generate,
  actions_email, actions_notify, records_write, intelligence_read, intelligence_manage, web_search,
}

unfoldable pub student_capabilities : List Capability
student_capabilities =
    ask_read_only ∷ start_voice_session ∷ agent_command ∷ documents_read ∷ web_search ∷ []

unfoldable pub faculty_capabilities : List Capability
faculty_capabilities =
    student_capabilities
    ++ view_source_metadata ∷ run_briefing ∷ view_briefing_history ∷ students_read ∷ attendance_read
      ∷ exams_read ∷ reports_generate ∷ intelligence_read ∷ []

unfoldable pub staff_capabilities : List Capability
staff_capabilities =
    student_capabilities
    ++ view_source_metadata ∷ data_ingest ∷ data_review ∷ students_read ∷ fees_read
      ∷ reports_generate ∷ actions_notify ∷ []

unfoldable pub hod_capabilities : List Capability
hod_capabilities =
    faculty_capabilities
    ++ students_read_contact ∷ fees_read ∷ faculty_read ∷ actions_email ∷ actions_notify ∷ []

unfoldable pub principal_capabilities : List Capability
principal_capabilities =
    hod_capabilities
    ++ (staff_capabilities ++ documents_manage ∷ records_write ∷ intelligence_manage ∷ [])

-- `frozenset(Capability)`
unfoldable pub every_capability : List Capability
every_capability =
    ask_read_only ∷ start_voice_session ∷ view_source_metadata ∷ run_briefing
    ∷ view_briefing_history ∷ manage_access ∷ agent_command ∷ data_ingest ∷ data_review
    ∷ students_read ∷ students_read_contact ∷ attendance_read ∷ fees_read ∷ faculty_read
    ∷ exams_read ∷ documents_read ∷ documents_manage ∷ reports_generate ∷ actions_email
    ∷ actions_notify ∷ records_write ∷ intelligence_read ∷ intelligence_manage ∷ web_search ∷ []

unfoldable pub capabilities_for_role : PrincipalType → List Capability
capabilities_for_role anonymous = []
capabilities_for_role student = student_capabilities
capabilities_for_role faculty = faculty_capabilities
capabilities_for_role staff = staff_capabilities
capabilities_for_role hod = hod_capabilities
capabilities_for_role principal = principal_capabilities
capabilities_for_role institution_admin = every_capability
capabilities_for_role main_admin = every_capability
capabilities_for_role platform_super_admin = every_capability
capabilities_for_role system = every_capability

abbrev pub role_aliases : List (String × PrincipalType)
role_aliases =
    ("student", student)
    ∷ ("faculty", faculty)
    ∷ ("teacher", faculty)
    ∷ ("staff", staff)
    ∷ ("office_staff", staff)
    ∷ ("hod", hod)
    ∷ ("head_of_department", hod)
    ∷ ("principal", principal)
    ∷ ("institution_admin", institution_admin)
    ∷ ("main_admin", main_admin)
    ∷ ("admin", main_admin)
    ∷ ("platform_super_admin", platform_super_admin)
    ∷ ("super_admin", platform_super_admin)
    ∷ ("system", system)
    ∷ []

-- `lower` is `str.lower`; a value that is no text is `none`.
unfoldable pub role_from_alias : (String → String) → Option String → PrincipalType → PrincipalType
role_from_alias lower none default = default
role_from_alias lower (some v) default = elim (find (λ r. r.0 == lower (strip v)) role_aliases) [
  | none ↦ default
  | some r ↦ r.1
]

contains-append_left :
    (xs ys : List Capability) (c : Capability) → contains xs c ≡ true → contains (xs ++ ys) c ≡ true
contains-append_left [] ys c h = absurd (cc)
contains-append_left (x ∷ xs) ys c h = ground (arith, contains-append_left xs ys c)

contains-append_right :
    (xs ys : List Capability) (c : Capability) → contains ys c ≡ true → contains (xs ++ ys) c ≡ true
contains-append_right [] ys c h = h
contains-append_right (x ∷ xs) ys c h = ground (arith, contains-append_right xs ys c h)

every_capability_complete : (c : Capability) → contains every_capability c ≡ true
unfolding every_capability Capability-discrete
every_capability_complete ask_read_only = refl
every_capability_complete _ = refl

-- The ladder of the teaching roles and of the office, up to the administrators.
pub data Below : PrincipalType → PrincipalType → Type 0 where
  none_below : (r : PrincipalType) → Below anonymous r
  student_faculty : Below student faculty
  student_staff : Below student staff
  faculty_hod : Below faculty hod
  hod_principal : Below hod principal
  staff_principal : Below staff principal
  admin_above : (r : PrincipalType) → Below r institution_admin
  main_admin_above : (r : PrincipalType) → Below r main_admin
  platform_above : (r : PrincipalType) → Below r platform_super_admin
  system_above : (r : PrincipalType) → Below r system
  through : {a b c : PrincipalType} → Below a b → Below b c → Below a c

-- A role holds every capability of each role below it on the ladder.
roles_mono :
    {r s : PrincipalType}
    → Below r s
    → (c : Capability) → contains (capabilities_for_role r) c ≡ true
    → contains (capabilities_for_role s) c ≡ true
unfolding capabilities_for_role faculty_capabilities staff_capabilities hod_capabilities
    principal_capabilities
roles_mono (none_below r) c h = absurd (cc)
roles_mono student_faculty c h = contains-append_left _ _ c h
roles_mono student_staff c h = contains-append_left _ _ c h
roles_mono faculty_hod c h = contains-append_left _ _ c h
roles_mono hod_principal c h = contains-append_left _ _ c h
roles_mono staff_principal c h =
    contains-append_right hod_capabilities _ c (contains-append_left staff_capabilities _ c h)
roles_mono (admin_above r) c h = every_capability_complete c
roles_mono (main_admin_above r) c h = every_capability_complete c
roles_mono (platform_above r) c h = every_capability_complete c
roles_mono (system_above r) c h = every_capability_complete c
roles_mono (through b d) c h = roles_mono d c (roles_mono b c h)
