-- ===== src/Domain/Principals/Values.antt =====
-- The values of the enumerations of principals.py, and what a text stands for.
use guru_ji.Prelude.{
  String, ◌≡◌, refl, sym, ap, ◌∙◌, true, false, Option, none, some, List, [], ◌∷◌, find, ◌==◌,
  string_eq, eq_iff, Bool-cases, inl, inr, find-some,
}
use guru_ji.Domain.Principals.{
  PrincipalType, Capability, anonymous, student, faculty, staff, hod, principal, institution_admin,
  main_admin, platform_super_admin, system, ask_read_only, start_voice_session,
  view_source_metadata, run_briefing, view_briefing_history, manage_access, agent_command,
  data_ingest, data_review, students_read, students_read_contact, attendance_read, fees_read,
  faculty_read, exams_read, documents_read, documents_manage, reports_generate, actions_email,
  actions_notify, records_write, intelligence_read, intelligence_manage, web_search, capability_eq,
}

unfoldable pub type_value : PrincipalType → String
type_value anonymous = "anonymous"
type_value student = "student"
type_value faculty = "faculty"
type_value staff = "staff"
type_value hod = "hod"
type_value principal = "principal"
type_value institution_admin = "institution_admin"
type_value main_admin = "main_admin"
type_value platform_super_admin = "platform_super_admin"
type_value system = "system"

unfoldable pub capability_value : Capability → String
capability_value ask_read_only = "ask:read_only"
capability_value start_voice_session = "voice:start"
capability_value view_source_metadata = "source:view_metadata"
capability_value run_briefing = "briefing:run"
capability_value view_briefing_history = "briefing:view_history"
capability_value manage_access = "access:manage"
capability_value agent_command = "agent:command"
capability_value data_ingest = "data:ingest"
capability_value data_review = "data:review"
capability_value students_read = "students:read"
capability_value students_read_contact = "students:read_contact"
capability_value attendance_read = "attendance:read"
capability_value fees_read = "fees:read"
capability_value faculty_read = "faculty:read"
capability_value exams_read = "exams:read"
capability_value documents_read = "documents:read"
capability_value documents_manage = "documents:manage"
capability_value reports_generate = "reports:generate"
capability_value actions_email = "actions:email"
capability_value actions_notify = "actions:notify"
capability_value records_write = "records:write"
capability_value intelligence_read = "intelligence:read"
capability_value intelligence_manage = "intelligence:manage"
capability_value web_search = "web:search"

abbrev pub principal_types : List PrincipalType
principal_types =
    anonymous ∷ student ∷ faculty ∷ staff ∷ hod ∷ principal ∷ institution_admin ∷ main_admin
    ∷ platform_super_admin ∷ system ∷ []

abbrev pub capabilities : List Capability
capabilities =
    ask_read_only ∷ start_voice_session ∷ view_source_metadata ∷ run_briefing
    ∷ view_briefing_history ∷ manage_access ∷ agent_command ∷ data_ingest ∷ data_review
    ∷ students_read ∷ students_read_contact ∷ attendance_read ∷ fees_read ∷ faculty_read
    ∷ exams_read ∷ documents_read ∷ documents_manage ∷ reports_generate ∷ actions_email
    ∷ actions_notify ∷ records_write ∷ intelligence_read ∷ intelligence_manage ∷ web_search ∷ []

-- `PrincipalType(text)`, where none is the ValueError.
unfoldable pub type_of : String → Option PrincipalType
unfolding type_value
type_of t = find (λ x. type_value x == t) principal_types

-- `Capability(text)`, of a text in `Capability._value2member_map_`.
unfoldable pub capability_of : String → Option Capability
unfolding capability_value
capability_of t = find (λ c. capability_value c == t) capabilities

pub type_of-type_value : (t : PrincipalType) → type_of (type_value t) ≡ some t
unfolding type_of type_value
type_of-type_value anonymous = refl
type_of-type_value student = refl
type_of-type_value faculty = refl
type_of-type_value staff = refl
type_of-type_value hod = refl
type_of-type_value principal = refl
type_of-type_value institution_admin = refl
type_of-type_value main_admin = refl
type_of-type_value platform_super_admin = refl
type_of-type_value system = refl

pub capability_of-capability_value : (c : Capability) → capability_of (capability_value c) ≡ some c
unfolding capability_of capability_value
capability_of-capability_value ask_read_only = refl
capability_of-capability_value start_voice_session = refl
capability_of-capability_value view_source_metadata = refl
capability_of-capability_value run_briefing = refl
capability_of-capability_value view_briefing_history = refl
capability_of-capability_value manage_access = refl
capability_of-capability_value agent_command = refl
capability_of-capability_value data_ingest = refl
capability_of-capability_value data_review = refl
capability_of-capability_value students_read = refl
capability_of-capability_value students_read_contact = refl
capability_of-capability_value attendance_read = refl
capability_of-capability_value fees_read = refl
capability_of-capability_value faculty_read = refl
capability_of-capability_value exams_read = refl
capability_of-capability_value documents_read = refl
capability_of-capability_value documents_manage = refl
capability_of-capability_value reports_generate = refl
capability_of-capability_value actions_email = refl
capability_of-capability_value actions_notify = refl
capability_of-capability_value records_write = refl
capability_of-capability_value intelligence_read = refl
capability_of-capability_value intelligence_manage = refl
capability_of-capability_value web_search = refl

some-injective : {A : Type 0} {a b : A} → some a ≡ some b → a ≡ b
some-injective h = cc

capability_of-some :
    (t : String) (c : Capability) → capability_of t ≡ some c → capability_value c ≡ t
unfolding capability_of
capability_of-some t c h =
    let (m, e) = find-some (λ x. capability_value x == t) capabilities h in
    (eq_iff (capability_value c) t).0 e

-- A capability is read from its own value only.
pub value-test :
    (t : String) (c d : Capability)
    → capability_of t ≡ some d
    → (t == capability_value c) ≡ (d == c)
value-test t c d h =
    let v : capability_value d ≡ t = capability_of-some t d h in
    elim (Bool-cases (d == c)) [
      | inl e ↦
          let q : d ≡ c = (capability_eq.decides d c).0 e in
          (eq_iff t (capability_value c)).1 (sym v ∙ ap capability_value q) ∙ sym e
      | inr e ↦ elim (Bool-cases (t == capability_value c)) [
        | inl k ↦
            let q : t ≡ capability_value c = (eq_iff t (capability_value c)).0 k in
            let r : some d ≡ some c =
              sym h ∙ ap capability_of q ∙ capability_of-capability_value c in
            let w : (d == c) ≡ true = (capability_eq.decides d c).1 (some-injective r) in
            absurd (cc)
        | inr k ↦ k ∙ sym e
      ]
    ]

pub value-unknown :
    (t : String) (c : Capability) → capability_of t ≡ none → (t == capability_value c) ≡ false
value-unknown t c h = elim (Bool-cases (t == capability_value c)) [
  | inr k ↦ k
  | inl k ↦
      let q : t ≡ capability_value c = (eq_iff t (capability_value c)).0 k in
      let r : none ≡ some c = sym h ∙ ap capability_of q ∙ capability_of-capability_value c in
      absurd (cc)
]
