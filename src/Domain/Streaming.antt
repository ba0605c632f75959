-- ===== src/Domain/Streaming.antt =====
-- apps/api/app/domain/streaming.py: the events of an answer's stream, and the validator of their
-- order. `S` is the type of a JSON scalar; the other types of the closed union are its constructors.
pub mod Phases
use guru_ji.Prelude.{
  ℕ, suc, ◌+◌, String, Bool, true, false, not, ◌&&◌, Option, none, some, if◌then◌else◌, ◌==◌,
  nat_eq, leb,
}
use guru_ji.Domain.Text.{text_length}
use guru_ji.Domain.Values.{Entries}

pub data EndStatus : Type 0 where
  complete partial refused failed degraded : EndStatus

pub data Body (S : Type 0) : Type 0 where
  message_start done : Body S
  citation warning answer : Entries S → Body S
  delta : String → Body S
  message_end : EndStatus → Body S
  error : String → String → Body S

pub record StreamEvent (S : Type 0) : Type 0 where
  pub request_id : String
  pub conversation_id : Option String
  pub sequence : ℕ
  pub body : Body S

-- `Field(min_length=1, max_length=n)` and `Field(max_length=n)`
abbrev pub bounded : ℕ → String → Bool
bounded n s = leb 1 (text_length s) && leb (text_length s) n

abbrev pub at_most : ℕ → Option String → Bool
at_most n none = true
at_most n (some s) = leb (text_length s) n

module _ {S : Type 0} where
  abbrev pub valid_body : Body S → Bool
  valid_body (delta s) = leb (text_length s) 12000
  valid_body (error code message) = bounded 128 code && bounded 1000 message
  valid_body _ = true

  -- What the fields of the models require.
  unfoldable pub validate_event : StreamEvent S → Bool
  validate_event e =
      bounded 128 e.request_id
      && (at_most 128 e.conversation_id && (leb 1 e.sequence && valid_body e.body))

  abbrev pub is_start : Body S → Bool
  is_start message_start = true
  is_start _ = false

  abbrev pub is_end : Body S → Bool
  is_end (message_end s) = true
  is_end _ = false

  abbrev pub is_done : Body S → Bool
  is_done done = true
  is_done _ = false

  abbrev pub is_content : Body S → Bool
  is_content (citation c) = true
  is_content (warning w) = true
  is_content (delta s) = true
  is_content (answer a) = true
  is_content _ = false

pub record StreamSequenceValidator : Type 0 where
  pub last_sequence : ℕ
  pub started : Bool
  pub ended : Bool
  pub is_over : Bool

-- The ValidationError and the seven StreamSequenceErrors.
pub data Verdict : Type 0 where
  accepted invalid after_done not_contiguous start_first start_twice end_twice : Verdict
  done_unended content_after_end : Verdict

module _ {S : Type 0} where
  -- The checks in the order of the code, with the field that each of them sets.
  unfoldable pub accept_content :
      StreamEvent S → StreamSequenceValidator → Verdict × StreamSequenceValidator
  accept_content e s =
      if s.ended && is_content e.body
      then (content_after_end, s)
      else (accepted, record s { last_sequence = e.sequence })

  unfoldable pub accept_done :
      StreamEvent S → StreamSequenceValidator → Verdict × StreamSequenceValidator
  unfolding accept_content
  accept_done e s =
      if is_done e.body
      then (if not s.ended
          then (done_unended, s)
          else accept_content e (record s { is_over = true }))
      else accept_content e s

  unfoldable pub accept_end :
      StreamEvent S → StreamSequenceValidator → Verdict × StreamSequenceValidator
  unfolding accept_done
  accept_end e s =
      if is_end e.body
      then (if s.ended then (end_twice, s) else accept_done e (record s { ended = true }))
      else accept_done e s

  unfoldable pub accept_start :
      StreamEvent S → StreamSequenceValidator → Verdict × StreamSequenceValidator
  unfolding accept_end
  accept_start e s =
      if is_start e.body
      then (if s.started then (start_twice, s) else accept_end e (record s { started = true }))
      else accept_end e s

  unfoldable pub accept :
      StreamEvent S → StreamSequenceValidator → Verdict × StreamSequenceValidator
  unfolding accept_start
  accept e s =
      if not (validate_event e)
      then (invalid, s)
      else if s.is_over
      then (after_done, s)
      else if not (e.sequence == s.last_sequence + 1)
      then (not_contiguous, s)
      else if not s.started && not (is_start e.body)
      then (start_first, s)
      else accept_start e s
