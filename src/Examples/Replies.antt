-- ===== src/Examples/Replies.antt =====
-- A reply of the policy server, and a document in chunks.
use guru_ji.Prelude.{
  ℕ, String, ◌≡◌, refl, true, none, some, List, [], ◌∷◌, ◌==◌, nat_eq, string_eq, arith,
}
use guru_ji.Domain.Text.{is_blank, strip, text_length, text_take, text_drop, text_append, join}
use guru_ji.Domain.Values.{scalar, mapping, entry, end, get}
use guru_ji.Domain.Principals.{active, has_capability, covers, ask_read_only, Capability-discrete}
use guru_ji.Gateway.Spec.{Scalar}
use guru_ji.Gateway.Types.{Json, Object}
use guru_ji.Gateway.Json.{is_false}
use guru_ji.Policy.Authorization.{consent_missing}
use guru_ji.Policy.Pdp.{PolicyDecision, Request, make_decision, denied, is_allowed_action}
use guru_ji.Policy.Cerbos.{
  Cerbos, evaluate, read_reply, parse_response, parse_versioned, on_resource, conclude, is_allow,
  read_actions, scope_from_payload, extract_resource, response_version, decision_id, is_stale,
}
use guru_ji.Documents.Chunking.{
  Splitters, ParsedText, TextChunk, chunked, chunk_texts, run_sections, run_section, and_then,
  run_pieces, next, take_piece, cut, flush, with_last, append, clean, clean_lines, pieces_of,
  candidate_of, last,
}
use guru_ji.Documents.Chunking.Bounded.{Numbered, chunk_texts-Numbered}
use guru_ji.Examples.People.{teacher, department, whole_college}

abbrev word : String → Json ℕ
word t = scalar (Scalar.text t)

abbrev reply : Object ℕ
reply = entry "callId" (word "d7") (
    entry "policyVersion" (word "v1") (
      entry "resourceInstances"
        (mapping (
          entry "marks"
            (mapping (entry "actions" (mapping (entry "retrieve" (word "EFFECT_ALLOW") end)) end))
            end))
        end))

abbrev client : Cerbos ℕ
client = record {
  texts = record { is_zero = λ n. n == 0; show = λ v. "None"; lower = λ t. t; upper = λ t. t };
  policy_version = "v1";
  require_fresh = true;
  post = λ q. some (mapping reply);
  own_id = "pdp-1";
  reply_id = "pdp-2";
}

abbrev request : Request
request = record {
  who = teacher;
  required_capability = ask_read_only;
  action = "retrieve";
  resource_type = "connector_resource";
  resource_id = "marks";
  requested_scope = department;
}

abbrev allowed : PolicyDecision
allowed = record {
  allowed = true;
  action = "retrieve";
  resource_type = "connector_resource";
  resource_id = "marks";
  policy_version = "v1";
  decision_id = "d7";
  matched_scope = some department;
  reason = none;
}

-- A reply without a matched scope allows a request that is outside the scopes of the principal.
unscoped_test :
    evaluate client (record request { requested_scope = whole_college })
    ≡ some (record allowed { matched_scope = some whole_college })
unfolding evaluate read_reply parse_response parse_versioned on_resource conclude is_allow
    read_actions scope_from_payload extract_resource response_version decision_id is_stale is_false
    make_decision denied is_allowed_action consent_missing covers active has_capability is_blank
    strip get Capability-discrete
unscoped_test = refl

-- Texts with one line and one sentence.
abbrev whole : Splitters
whole = record { splitlines = λ t. t ∷ []; words = λ t. t ∷ []; sentences = λ t. t ∷ [] }

abbrev section : ParsedText
section = record { locator = "p"; text = "abcdefg"; page = some 1 }

-- Chunks of three code points that share one.
chunk_texts_test :
    chunk_texts whole 3 1 9 (section ∷ [])
    ≡ chunked (
        record { chunk_index = 0; text = "abc"; page_number = some 1; locator = "p" }
        ∷ record { chunk_index = 1; text = "cde"; page_number = some 1; locator = "p" }
        ∷ record { chunk_index = 2; text = "efg"; page_number = some 1; locator = "p" }
        ∷ [])
unfolding chunk_texts run_sections run_section and_then run_pieces next take_piece cut flush
    with_last append clean clean_lines pieces_of candidate_of last strip is_blank text_length
    text_take text_drop text_append join
chunk_texts_test = refl

chunk_texts-Numbered_example :
    (chunks : List TextChunk) × (chunk_texts whole 3 1 9 (section ∷ []) ≡ chunked chunks)
    × Numbered 3 0 chunks
chunk_texts-Numbered_example = chunk_texts-Numbered whole 3 1 9 (omega arith) (section ∷ [])
