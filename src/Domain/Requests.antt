-- ===== src/Domain/Requests.antt =====
-- apps/api/app/domain/requests.py: a request, as its constructor leaves it.
use guru_ji.Prelude.{
  ℕ, String, Bool, false, ◌||◌, Option, none, some, List, [], ◌∷◌, if◌then◌else◌, ltb, length, map,
  any, contains, string_eq,
}
use guru_ji.Domain.Text.{is_blank, strip, text_length}
use guru_ji.Domain.Principals.{InstitutionScope}

abbrev pub max_prompt_chars : ℕ
max_prompt_chars = 12000

abbrev pub max_source_ids : ℕ
max_source_ids = 20

pub data InteractionChannel : Type 0 where
  text voice : InteractionChannel

pub record ChatRequest : Type 0 where
  pub request_id : String
  pub principal_id : String
  pub prompt : String
  pub institution_scope : InstitutionScope
  pub source_ids : List String
  pub conversation_id : Option String
  pub channel : InteractionChannel

unfoldable pub repeats : List String → Bool
repeats [] = false
repeats (x ∷ xs) = contains xs x || repeats xs

abbrev blank_part : Option String → Bool
blank_part none = false
blank_part (some t) = is_blank t

abbrev stripped : Option String → Option String
stripped none = none
stripped (some t) = some (strip t)

-- `none` is the ValueError.
unfoldable pub make_request : ChatRequest → Option ChatRequest
unfolding repeats
make_request r =
    if is_blank r.request_id || is_blank r.principal_id || is_blank r.prompt
    then none
    else if ltb max_prompt_chars (text_length (strip r.prompt))
    then none
    else if blank_part r.conversation_id || any is_blank r.source_ids
    then none
    else if ltb max_source_ids (length r.source_ids) || repeats (map strip r.source_ids)
    then none
    else some (record {
      request_id = strip r.request_id;
      principal_id = strip r.principal_id;
      prompt = strip r.prompt;
      institution_scope = r.institution_scope;
      source_ids = map strip r.source_ids;
      conversation_id = stripped r.conversation_id;
      channel = r.channel;
    })
