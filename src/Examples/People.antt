-- ===== src/Examples/People.antt =====
-- A teacher with one department, and what is asked of them.
use guru_ji.Prelude.{true, false, none, some, [], ◌∷◌, ℕ, ltb}
use guru_ji.Domain.Principals.{
  Principal, faculty, InstitutionScope, ask_read_only, start_voice_session,
}
use guru_ji.Gateway.Spec.{Numbers}

abbrev pub whole_college : InstitutionScope
whole_college = record { college_id = "a"; department_id = none; batch_id = none }

abbrev pub department : InstitutionScope
department = record { college_id = "a"; department_id = some "cs"; batch_id = none }

abbrev pub batch : InstitutionScope
batch = record { college_id = "a"; department_id = some "cs"; batch_id = some "2025" }

abbrev pub teacher : Principal
teacher = record {
  principal_id = "t1";
  principal_type = faculty;
  capabilities = ask_read_only ∷ start_voice_session ∷ [];
  scopes = department ∷ [];
  authenticated = true;
  consent_verified = false;
  revoked = false;
}

-- Whole numbers, without texts for them.
abbrev pub plain_numbers : Numbers
plain_numbers = record {
  Number = ℕ;
  parse_int = λ s. none;
  parse_float = λ s. none;
  show = λ k. "0";
  to_float = λ k. k;
  is_float = λ k. false;
  whole = λ k. some k;
  less = λ a b. ltb a b;
  lower = λ s. s;
}
