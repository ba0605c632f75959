-- ===== src/Examples/Rules.antt =====
-- The rules of access, at the teacher.
use mathlib.Core.Option
use guru_ji.Prelude.{
  List, [], ◌∷◌, contains, string_eq, ◌≡◌, ◌↔◌, refl, true, false, none, some, Member, String,
  if◌then◌else◌,
}
use guru_ji.Domain.Principals.{
  InstitutionScope, Principal, Capability, start_voice_session, make_scope, ask_read_only,
  students_read_contact, covers, make_principal, active, capability_eq, has_capability,
  Capability-discrete,
}
use guru_ji.Domain.Principals.Covers.{Names, covers-Names_iff}
use guru_ji.Domain.Principals.Snapshot.{
  PrincipalSnapshot, get_or, item, not_mapping, as_dict, read_capabilities, read_scopes,
  principal_snapshot, principal_from_snapshot, principal_from_snapshot-principal_snapshot,
}
use guru_ji.Domain.Principals.Values.{type_of, type_value, capability_of, capability_value}
use guru_ji.Domain.Values.{scalar, mapping, Entries, entry, end, has_key, get}
use guru_ji.Domain.Text.{is_blank, is_space, text_append}
use guru_ji.Policy.Authorization.{authorize, consent_missing}
use guru_ji.Policy.Authorization.Laws.{MayAct, authorize-MayAct_iff}
use guru_ji.Policy.Pdp.{
  Request, PolicyDecision, verdict, make_decision, evaluate, is_allowed_action,
}
use guru_ji.Policy.Pdp.Agrees.{is_unnamed, reason_of, evaluate-authorize, matched_scope-covers}
use guru_ji.DataAccess.FieldPolicy.{is_sensitive, strip, strip_student_contact}
use guru_ji.DataAccess.FieldPolicy.Strip.{IsClean, strip_student_contact_lem, get-strip}
use guru_ji.Examples.People.{department, batch, teacher}

covers-Names_iff_example :
    (covers department batch ≡ true)
    ↔ ((c d b : String) → Names batch c d b → Names department c d b)
covers-Names_iff_example = covers-Names_iff department batch

snapshot_example :
    ((cs : List Capability) × (principal_from_snapshot (principal_snapshot teacher)
        ≡ some (record teacher { capabilities = cs }))
      × ((c : Capability) → contains cs c ≡ contains teacher.capabilities c))
    × ((s : PrincipalSnapshot) (q : Principal)
        → principal_from_snapshot s ≡ some q
        → (c : Capability)
        → contains q.capabilities c ≡ contains (get_or [] s.capabilities) (capability_value c))
unfolding make_principal make_scope active is_blank is_space
snapshot_example = principal_from_snapshot-principal_snapshot teacher refl refl (refl, tt)

-- An unknown capability and a scope without a college are dropped.
dropped_test :
    principal_from_snapshot (record {
      principal_id = some "t1";
      principal_type = some "faculty";
      capabilities = some ("access:all" ∷ "voice:start" ∷ []);
      scopes = some (item none none none ∷ not_mapping ∷ as_dict department ∷ []);
      consent_verified = none;
    })
    ≡ some (record teacher { capabilities = start_voice_session ∷ [] })
unfolding principal_from_snapshot type_of type_value capability_of capability_value
    read_capabilities read_scopes as_dict make_principal make_scope is_blank is_space
dropped_test = refl

authorize_example :
    ((authorize teacher ask_read_only batch).allowed ≡ true) ↔ MayAct teacher ask_read_only batch
authorize_example = authorize-MayAct_iff teacher ask_read_only batch

abbrev question : Request
question = record {
  who = teacher;
  required_capability = ask_read_only;
  action = "retrieve";
  resource_type = "platform_tool";
  resource_id = "list_students";
  requested_scope = batch;
}

evaluate_example :
    (is_unnamed question ≡ true → evaluate question "d1" ≡ none)
    × (is_unnamed question ≡ false
        → (d : PolicyDecision) × (evaluate question "d1" ≡ some d)
          × (d.allowed ≡ (authorize teacher ask_read_only batch).allowed)
          × (d.reason ≡ reason_of (authorize teacher ask_read_only batch).reason))
unfolding is_allowed_action
evaluate_example = evaluate-authorize question "d1" refl

matched_scope_example :
    (s : InstitutionScope) × ((verdict question "pdp-d1").matched_scope ≡ some s)
    × Member s teacher.scopes
    × (covers s batch ≡ true)
unfolding evaluate verdict make_decision text_append is_blank is_space is_allowed_action covers
    has_capability active Capability-discrete consent_missing
matched_scope_example = matched_scope-covers question "d1" (verdict question "pdp-d1") refl refl

abbrev student_record : Entries String
student_record = entry "student_id" (scalar "s1") (entry "phone" (scalar "5550100") end)

strip_student_contact_example :
    (has_capability teacher students_read_contact ≡ false
      → IsClean (strip_student_contact teacher (mapping student_record)))
    × (IsClean (mapping student_record)
        → strip_student_contact teacher (mapping student_record) ≡ mapping student_record)
    × (has_capability teacher students_read_contact ≡ true
        → strip_student_contact teacher (mapping student_record) ≡ mapping student_record)
strip_student_contact_example = strip_student_contact_lem teacher (mapping student_record)

get-strip_example :
    (has_key "student_id" student_record ≡ true
      → (after : Entries String) × (strip (mapping student_record) ≡ mapping after)
        × (get "phone" after ≡ (
            if is_sensitive "phone" then none else Option.map strip (get "phone" student_record))))
    × (has_key "student_id" student_record ≡ false
        → (after : Entries String) × (strip (mapping student_record) ≡ mapping after)
          × (get "phone" after ≡ Option.map strip (get "phone" student_record)))
get-strip_example = get-strip "phone" student_record
