-- ===== src/Domain/Streaming/Phases.antt =====
-- The order of a stream, as four phases, and the validator that keeps to it.
use mathlib.Core.Path.{subst}
use guru_ji.Prelude.{
  ℕ, String, ◌+◌, ◌≡◌, refl, sym, nat_eqb_iff, Bool, true, false, not, ◌&&◌, Option, none, some,
  if◌then◌else◌, ◌==◌, nat_eq, is_some,
}
use guru_ji.Domain.Streaming.{
  Body, is_start, start_first, invalid, after_done, not_contiguous, message_start, done, citation,
  warning, answer, delta, message_end, error, StreamEvent, validate_event, StreamSequenceValidator,
  Verdict, accepted, accept, accept_start, accept_end, accept_done, accept_content,
}

-- Nothing sent; the message; after its end; after done.
pub data Phase : Type 0 where
  fresh open_phase closed over : Phase

module _ {S : Type 0} where
  -- Errors may come in any phase of a started stream.
  abbrev pub next : Phase → Body S → Option Phase
  next fresh message_start = some open_phase
  next open_phase (citation c) = some open_phase
  next open_phase (warning w) = some open_phase
  next open_phase (delta s) = some open_phase
  next open_phase (answer a) = some open_phase
  next open_phase (error k m) = some open_phase
  next open_phase (message_end s) = some closed
  next closed (error k m) = some closed
  next closed done = some over
  next _ _ = none

  -- The phase after an event, when it is a valid one with the number that is due.
  unfoldable pub follows : StreamEvent S → Phase → ℕ → Option Phase
  follows e p k = if validate_event e && (e.sequence == k + 1) then next p e.body else none

-- The validator in a phase, after `k` events.
abbrev pub at_phase : Phase → ℕ → StreamSequenceValidator
at_phase fresh k = record { last_sequence = k; started = false; ended = false; is_over = false }
at_phase open_phase k = record { last_sequence = k; started = true; ended = false; is_over = false }
at_phase closed k = record { last_sequence = k; started = true; ended = true; is_over = false }
at_phase over k = record { last_sequence = k; started = true; ended = true; is_over = true }

abbrev pub moved : Phase → ℕ → Option Phase → StreamSequenceValidator
moved p k none = at_phase p k
moved p k (some q) = at_phase q (k + 1)

abbrev pub is_accepted : Verdict → Bool
is_accepted accepted = true
is_accepted _ = false

abbrev event : {S : Type 0} → String → Option String → ℕ → Body S → StreamEvent S
event r i k b = record { request_id = r; conversation_id = i; sequence = k + 1; body = b }

module _ {S : Type 0} where
  -- The checks after those on the number and the start, by phase and event.
  ordered :
      (p : Phase) (r : String) (i : Option String) (k : ℕ) (b : Body S)
      → (at_phase p k).is_over ≡ false
      → let o : Verdict × StreamSequenceValidator =
          if not (at_phase p k).started && not (is_start b)
          then (start_first, at_phase p k)
          else accept_start (event r i k b) (at_phase p k) in
        (is_accepted o.0 ≡ is_some (next p b)) × (o.1 ≡ moved p k (next p b))
  unfolding accept_start accept_end accept_done accept_content
  ordered fresh r i k message_start h = (refl, refl)
  ordered fresh r i k done h = (refl, refl)
  ordered fresh r i k (citation c) h = (refl, refl)
  ordered fresh r i k (warning c) h = (refl, refl)
  ordered fresh r i k (answer c) h = (refl, refl)
  ordered fresh r i k (delta c) h = (refl, refl)
  ordered fresh r i k (message_end c) h = (refl, refl)
  ordered fresh r i k (error c d) h = (refl, refl)
  ordered open_phase r i k message_start h = (refl, refl)
  ordered open_phase r i k done h = (refl, refl)
  ordered open_phase r i k (citation c) h = (refl, refl)
  ordered open_phase r i k (warning c) h = (refl, refl)
  ordered open_phase r i k (answer c) h = (refl, refl)
  ordered open_phase r i k (delta c) h = (refl, refl)
  ordered open_phase r i k (message_end c) h = (refl, refl)
  ordered open_phase r i k (error c d) h = (refl, refl)
  ordered closed r i k message_start h = (refl, refl)
  ordered closed r i k done h = (refl, refl)
  ordered closed r i k (citation c) h = (refl, refl)
  ordered closed r i k (warning c) h = (refl, refl)
  ordered closed r i k (answer c) h = (refl, refl)
  ordered closed r i k (delta c) h = (refl, refl)
  ordered closed r i k (message_end c) h = (refl, refl)
  ordered closed r i k (error c d) h = (refl, refl)
  ordered over r i k b h = absurd (cc)

  -- The guards of `accept`, with what they read as variables.
  guards :
      (p : Phase) (k : ℕ) (b : Body S) (v over due : Bool)
      (rest : Verdict × StreamSequenceValidator)
      → over ≡ (at_phase p k).is_over
      → ((at_phase p k).is_over ≡ false
          → due ≡ true
          → (is_accepted rest.0 ≡ is_some (next p b)) × (rest.1 ≡ moved p k (next p b)))
      → let o : Verdict × StreamSequenceValidator =
          if not v
          then (invalid, at_phase p k)
          else if over
          then (after_done, at_phase p k)
          else if not due
          then (not_contiguous, at_phase p k)
          else rest in
        let f : Option Phase = if v && due then next p b else none in
        (is_accepted o.0 ≡ is_some f) × (o.1 ≡ moved p k f)
  guards p k b false o d rest q h = (refl, refl)
  guards over k b true true false rest q h = (refl, refl)
  guards over k b true true true rest q h = (refl, refl)
  guards over k b true false d rest q h = absurd (cc)
  guards fresh k b true true d rest q h = absurd (cc)
  guards open_phase k b true true d rest q h = absurd (cc)
  guards closed k b true true d rest q h = absurd (cc)
  guards fresh k b true false false rest q h = (refl, refl)
  guards open_phase k b true false false rest q h = (refl, refl)
  guards closed k b true false false rest q h = (refl, refl)
  guards fresh k b true false true rest q h = h refl refl
  guards open_phase k b true false true rest q h = h refl refl
  guards closed k b true false true rest q h = h refl refl

  started_rest :
      (e : StreamEvent S) (p : Phase) (k : ℕ)
      → (at_phase p k).is_over ≡ false
      → (e.sequence == k + 1) ≡ true
      → let o : Verdict × StreamSequenceValidator =
          if not (at_phase p k).started && not (is_start e.body)
          then (start_first, at_phase p k)
          else accept_start e (at_phase p k) in
        (is_accepted o.0 ≡ is_some (next p e.body)) × (o.1 ≡ moved p k (next p e.body))
  started_rest e p k h d =
      subst
        (λ x.
          let f : StreamEvent S = record {
            request_id = e.request_id;
            conversation_id = e.conversation_id;
            sequence = x;
            body = e.body;
          } in
          let o : Verdict × StreamSequenceValidator =
            if not (at_phase p k).started && not (is_start e.body)
            then (start_first, at_phase p k)
            else accept_start f (at_phase p k) in
          (is_accepted o.0 ≡ is_some (next p e.body)) × (o.1 ≡ moved p k (next p e.body)))
        (sym ((nat_eqb_iff e.sequence (k + 1)).0 d))
        (ordered p e.request_id e.conversation_id k e.body h)

  -- The validator accepts an event exactly when it is valid, carries the next number, and is one
  -- that its phase allows: the start first and once, content until the end, the end once, done
  -- after it, and nothing after done; then it moves to the next phase. Refusing changes nothing.
  pub accept-follows :
      (e : StreamEvent S) (p : Phase) (k : ℕ)
      → (is_accepted (accept e (at_phase p k)).0 ≡ is_some (follows e p k))
        × ((accept e (at_phase p k)).1 ≡ moved p k (follows e p k))
  unfolding accept follows
  accept-follows e fresh k =
      guards fresh k e.body (validate_event e) false (e.sequence == k + 1) _ refl
        (started_rest e fresh k)
  accept-follows e open_phase k =
      guards open_phase k e.body (validate_event e) false (e.sequence == k + 1) _ refl
        (started_rest e open_phase k)
  accept-follows e closed k =
      guards closed k e.body (validate_event e) false (e.sequence == k + 1) _ refl
        (started_rest e closed k)
  accept-follows e over k =
      guards over k e.body (validate_event e) true (e.sequence == k + 1) _ refl
        (started_rest e over k)
