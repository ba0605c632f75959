-- ===== src/Examples/Rows.antt =====
-- Tables and requests: approvals, jobs, voice sessions, streams, limits and arguments.

use guru_ji.Prelude.{
  ◌≢◌, ◌⊎◌, ◌+◌, ◌-◌, ◌≤◌, String, ◌≡◌, refl, true, false, none, some, List, [], ◌∷◌, ◌++◌,
  if◌then◌else◌, min, length, is_some, ltb, arith, string_eq,
}
use guru_ji.Domain.Principals.{
  make_scope, can_access, active, covers, capability_eq, make_principal, Capability-discrete,
}
use guru_ji.Domain.Principals.Snapshot.{principal_snapshot, principal_from_snapshot}
use guru_ji.Domain.Text.{sorted, is_blank}
use guru_ji.Domain.Streaming.{StreamEvent, message_start, accept}
use guru_ji.Domain.Streaming.Phases.{fresh, at_phase, follows, moved, is_accepted, accept-follows}
use guru_ji.InstitutionData.Table.{AtMostOne}
use guru_ji.InstitutionData.Approvals.{
  Approval, approved, executing, claim_approval, get_approval, IsKeyed,
}
use guru_ji.InstitutionData.Approvals.Laws.{IsClaimable, claim_approval_lem}
use guru_ji.InstitutionData.Jobs.{
  Job, running, succeeded, queued, has_job, get_background_job, claim_background_job,
  finish_background_job, claim_row as claim_job, requeue_background_job,
}
use guru_ji.InstitutionData.Jobs.Outcomes.{
  requeues, claims, beats, serve_all, outcome_final, late_outcome,
}
use guru_ji.Workers.Queue.{finished, record_end}
use guru_ji.Workers.Queue.Recorded.{status_row, record_end-status}
use guru_ji.Middleware.RateLimit.{allow}
use guru_ji.Middleware.RateLimit.Window.{in_window, IsOrdered, allow-in_window}
use guru_ji.Middleware.RequestSize.{Message, body_part, disconnect, declared, handle, read_body}
use guru_ji.Middleware.RequestSize.Bounded.{size, handle-within}
use guru_ji.Persistence.ControlStore.{
  VoiceRow, active_voice_sessions, claim_voice_session, create_voice_session, get_voice_session,
  is_claimable, claim_found,
}
use guru_ji.Persistence.ControlStore.Usage.{takes, used_on, takes-cap}
use guru_ji.Voice.Sessions.{
  VoiceSessionManager, Kept, create, claim_transport, unclaimed, row_of, session_of, open_row,
  close_all,
}
use guru_ji.Voice.Sessions.Tickets.{closes, serve_all as serve_voice, ticket_once}
use guru_ji.Voice.Sessions.Limit.{create-Capped}
use guru_ji.Examples.People.{teacher, department}

abbrev pub ready_approval : Approval String
ready_approval = record {
  approval_id = "apr-1";
  institution_id = "a";
  principal_id = "t1";
  tool_name = "delete_student";
  arguments = "{}";
  arguments_sha256 = "44";
  status = approved;
  reason = "";
  created_at = 0;
  expires_at = 100;
  decided_at = none;
  decided_by = none;
  resume = none;
}

one_approval-IsKeyed : IsKeyed (ready_approval ∷ [])
one_approval-IsKeyed = record { unique = λ i id. (λ h. refl, tt) }

abbrev claimed_table : List (Approval String)
claimed_table = (claim_approval "a" "apr-1" "t1" 5 (ready_approval ∷ [])).1

claim_approval_example :
    ((a : Approval String)
      → get_approval "a" "apr-1" (ready_approval ∷ []) ≡ some a
      → IsClaimable "t1" 5 a
      → ((claim_approval "a" "apr-1" "t1" 5 (ready_approval ∷ [])).0
          ≡ some (record a { status = executing; decided_at = some 5; decided_by = some "t1" }))
        × (get_approval "a" "apr-1" claimed_table
            ≡ some (record a { status = executing; decided_at = some 5; decided_by = some "t1" })))
    × (((a : Approval String)
          → get_approval "a" "apr-1" (ready_approval ∷ []) ≡ some a
          → ¬ IsClaimable "t1" 5 a)
        → ((claim_approval "a" "apr-1" "t1" 5 (ready_approval ∷ [])).0 ≡ none)
          × (get_approval "a" "apr-1" claimed_table
              ≡ get_approval "a" "apr-1" (ready_approval ∷ [])))
    × ((j jd : String)
        → (("a" ≢ j) ⊎ ("apr-1" ≢ jd))
        → get_approval j jd claimed_table ≡ get_approval j jd (ready_approval ∷ []))
claim_approval_example =
    claim_approval_lem "a" "apr-1" "t1" 5 (ready_approval ∷ []) one_approval-IsKeyed

abbrev job : Job String
job = record {
  job_id = "bg-1";
  institution_id = "a";
  job_type = "ingest";
  payload = "{}";
  status = running;
  attempts = 1;
  result = none;
  error = none;
  created_at = 0;
  started_at = some 1;
  heartbeat_at = some 1;
  finished_at = none;
}

abbrev done_job : Job String
done_job = record job { status = succeeded; result = some "{}" }

outcome_final_example :
    get_background_job "bg-1" (serve_all (requeues "bg-1" ∷ claims "bg-1" 9 ∷ []) (done_job ∷ []))
    ≡ some done_job
unfolding get_background_job
outcome_final_example =
    outcome_final (requeues "bg-1" ∷ claims "bg-1" 9 ∷ []) (done_job ∷ []) "bg-1" done_job refl refl

one_job_unique : (i : String) → AtMostOne (has_job i) (job ∷ [])
one_job_unique i = (λ h. refl, tt)

late_outcome_example :
    (x : List (Job String)) × (finish_background_job "bg-1" succeeded (some "{}") none (some 1) 20 (
        serve_all
          (beats "bg-1" 12 ∷ [])
          (claim_background_job "bg-1" 9 (serve_all (requeues "bg-1" ∷ []) (job ∷ []))).1)
      ≡ some (false, x))
    × (get_background_job "bg-1" x
        ≡ get_background_job "bg-1" (
            serve_all
              (beats "bg-1" 12 ∷ [])
              (claim_background_job "bg-1" 9 (serve_all (requeues "bg-1" ∷ []) (job ∷ []))).1))
unfolding get_background_job claim_background_job requeue_background_job
late_outcome_example =
    late_outcome (job ∷ []) "bg-1" job
      (claim_job 9 (record job { status = queued; started_at = none; heartbeat_at = none }))
      one_job_unique refl (requeues "bg-1" ∷ []) 9 refl (beats "bg-1" 12 ∷ []) succeeded (some "{}")
      none 20 refl

record_end_example :
    status_row (get_background_job "bg-1" (record_end job (finished "{}") 7 (job ∷ [])).1)
    ≡ some (record_end job (finished "{}") 7 (job ∷ [])).0.status
unfolding get_background_job
record_end_example = record_end-status job job (finished "{}") 7 (job ∷ []) refl refl refl

abbrev first_event : StreamEvent String
first_event = record {
  request_id = "r1";
  conversation_id = none;
  sequence = 1;
  body = message_start;
}

accept_example :
    (is_accepted (accept first_event (at_phase fresh 0)).0 ≡ is_some (follows first_event fresh 0))
    × ((accept first_event (at_phase fresh 0)).1 ≡ moved fresh 0 (follows first_event fresh 0))
accept_example = accept-follows first_event fresh 0

allow_example :
    let (allowed, remaining, retry, after) =
      allow (record { max_requests = 2; window = 60 }) 70 (5 ∷ 20 ∷ []) in
    (allowed ≡ ltb (length (in_window 60 70 (5 ∷ 20 ∷ []))) 2)
    × (after ≡ in_window 60 70 (5 ∷ 20 ∷ []) ++ (if allowed then 70 ∷ [] else []))
    × IsOrdered 70 after
    × (length after ≤ 2)
allow_example =
    allow-in_window (record { max_requests = 2; window = 60 }) 70 (5 ∷ 20 ∷ [])
      (omega arith, (omega arith, tt), (omega arith, tt, tt)) (omega arith)

takes_example :
    let (n, last) = takes 3 "a" "t1" "voice" 100 2 [] in
    (n ≡ min 3 (2 - used_on "a" "t1" "voice" 100 []))
    × (used_on "a" "t1" "voice" 100 last ≡ used_on "a" "t1" "voice" 100 [] + n)
takes_example = takes-cap 3 "a" "t1" "voice" 100 2 []

abbrev limits : VoiceSessionManager
limits = record { ttl_seconds = 300; max_active = 1; ticket_ttl_seconds = 60; max_per_person = 1 }

abbrev plain : String → String
plain s = s

abbrev open_row_example_row : VoiceRow Kept
open_row_example_row = row_of limits plain teacher department "s1" "secret" 0

ticket_once_example :
    (claim_transport plain "s1" "secret" 3 (
      serve_voice
        (closes "s2" none 2 ∷ [])
        (claim_transport plain "s1" "secret" 1 (open_row_example_row ∷ [])).1)).0
    ≡ unclaimed
unfolding claim_transport claim_voice_session claim_found get_voice_session is_claimable
    principal_from_snapshot principal_snapshot make_principal make_scope is_blank sorted
ticket_once_example =
    ticket_once plain "s1" "secret" 1 teacher (open_row_example_row ∷ []) refl
      (closes "s2" none 2 ∷ []) "secret" 3

create_example :
    length (
      active_voice_sessions 0 none
        (create limits plain teacher (some department) "s1" "secret" 0 []).1)
    ≤ 1
unfolding create open_row create_voice_session active_voice_sessions can_access active covers
    Capability-discrete close_all
create_example =
    create-Capped limits plain teacher (some department) "s1" "secret" 0 []
      (session_of limits teacher department "s1" 0) "secret" refl

handle_example :
    (size (body_part 3 true ∷ body_part 4 false ∷ []) ≤ 8)
    × (rest : List Message) × (((body_part 3 true ∷ body_part 4 false ∷ []) ++ rest)
        ≡ (body_part 3 true ∷ body_part 4 false ∷ disconnect ∷ []))
unfolding handle read_body
handle_example =
    handle-within 8 (some (declared 7)) (body_part 3 true ∷ body_part 4 false ∷ disconnect ∷ [])
      (body_part 3 true ∷ body_part 4 false ∷ []) refl
