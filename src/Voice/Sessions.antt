-- ===== src/Voice/Sessions.antt =====
-- `VoiceSessionManager` of apps/api/app/voice/session_manager.py over the in-memory store. The ids
-- and tickets that `token_urlsafe` draws, SHA-256 and the clock are arguments.
pub mod Tickets
pub mod Limit
use guru_ji.Prelude.{
  ℕ, ◌+◌, ◌-◌, ◌*◌, String, Bool, true, false, not, ◌&&◌, ◌||◌, Option, none, some, List, [], ◌∷◌,
  if◌then◌else◌, ◌==◌, string_eq, nat_eq, contains, length, take, leb, is_some, min,
}
use guru_ji.Domain.Principals.{
  Principal, Capability, start_voice_session, capability_eq, InstitutionScope, can_access,
}
use guru_ji.Domain.Principals.Snapshot.{
  PrincipalSnapshot, principal_snapshot, principal_from_snapshot,
}
use guru_ji.Persistence.ControlStore.{
  VoiceRow, create_voice_session, get_voice_session, claim_voice_session, close_voice_session,
  active_voice_sessions,
}

pub record VoiceSession : Type 0 where
  pub session_id : String
  pub principal_id : String
  pub created_at : ℕ
  pub expires_at : ℕ
  pub who : Principal
  pub institution_scope : InstitutionScope
  pub ticket_expires_at : ℕ
  pub is_closed : Bool

pub record VoiceSessionManager : Type 0 where
  pub ttl_seconds : ℕ
  pub max_active : ℕ
  pub ticket_ttl_seconds : ℕ
  pub max_per_person : ℕ

-- The constructor: `none` is the ValueError.
unfoldable pub make_manager : ℕ → ℕ → ℕ → ℕ → Option VoiceSessionManager
make_manager ttl active ticket person =
    if ttl == 0 || (active == 0 || (ticket == 0 || person == 0))
    then none
    else some (record {
      ttl_seconds = ttl;
      max_active = active;
      ticket_ttl_seconds = min ticket ttl;
      max_per_person = person;
    })

-- What a row keeps of its principal: the snapshot and the scope of the session.
abbrev pub Kept : Type 0
Kept = PrincipalSnapshot × InstitutionScope

-- PermissionError, VoiceScopeError, RuntimeError and the store's ValueError.
pub data VoiceError : Type 0 where
  missing_capability out_of_scope limit_reached duplicate : VoiceError

pub data Opened : Type 0 where
  opened : VoiceSession → String → Opened
  refused : VoiceError → Opened

abbrev pub default_scope : Principal → InstitutionScope
default_scope p = elim p.scopes [
  | [] ↦ record { college_id = "college_a"; department_id = none; batch_id = none }
  | (s ∷ rest) ↦ s
]

abbrev pub scope_or : Principal → Option InstitutionScope → InstitutionScope
scope_or p none = default_scope p
scope_or p (some s) = s

abbrev pub seconds : ℕ → ℕ
seconds n = n * 1000000

-- The rows that the loop closes, one by one.
unfoldable pub close_all :
    String → ℕ → List (VoiceRow Kept) → List (VoiceRow Kept) → List (VoiceRow Kept)
close_all owner now [] t = t
close_all owner now (r ∷ rs) t =
    close_all owner now rs (close_voice_session r.session_id (some owner) now t).1

abbrev pub row_of :
    VoiceSessionManager
    → (String → String)
    → Principal
    → InstitutionScope
    → String
    → String
    → ℕ
    → VoiceRow Kept
row_of m digest p scope id ticket now = record {
  session_id = id;
  principal_id = p.principal_id;
  institution_id = scope.college_id;
  principal_json = (principal_snapshot p, scope);
  ticket_sha256 = digest ticket;
  created_at = now;
  ticket_expires_at = now + seconds m.ticket_ttl_seconds;
  expires_at = now + seconds m.ttl_seconds;
  claimed_at = none;
  closed_at = none;
}

abbrev pub session_of :
    VoiceSessionManager → Principal → InstitutionScope → String → ℕ → VoiceSession
session_of m p scope id now = record {
  session_id = id;
  principal_id = p.principal_id;
  created_at = now;
  expires_at = now + seconds m.ttl_seconds;
  who = p;
  institution_scope = scope;
  ticket_expires_at = now + seconds m.ticket_ttl_seconds;
  is_closed = false;
}

-- After the person's oldest sessions are closed: the cap on all sessions, and the insert.
unfoldable pub open_row :
    VoiceSessionManager
    → VoiceSession
    → VoiceRow Kept
    → String
    → ℕ
    → List (VoiceRow Kept)
    → Opened × List (VoiceRow Kept)
open_row m s r ticket now t =
    if leb m.max_active (length (active_voice_sessions now none t))
    then (refused limit_reached, t)
    else elim (create_voice_session r t) [
      | none ↦ (refused duplicate, t)
      | some after ↦ (opened s ticket, after)
    ]

-- `_create`
unfoldable pub create :
    VoiceSessionManager
    → (String → String)
    → Principal
    → Option InstitutionScope
    → String
    → String
    → ℕ
    → List (VoiceRow Kept)
    → Opened × List (VoiceRow Kept)
unfolding open_row
create m digest p asked id ticket now t =
    let scope = scope_or p asked in
    if not p.authenticated || not (contains p.capabilities start_voice_session)
    then (refused missing_capability, t)
    else if not (can_access p scope)
    then (refused out_of_scope, t)
    else (let own = active_voice_sessions now (some p.principal_id) t in
        let closed =
          close_all p.principal_id now (take (length own + 1 - m.max_per_person) own) t in
        open_row m (session_of m p scope id now) (row_of m digest p scope id ticket now) ticket now
          closed)

-- `_session_from_row`: `none` is the constructor's ValueError.
unfoldable pub session_from_row : VoiceRow Kept → Option VoiceSession
session_from_row r = elim (principal_from_snapshot r.principal_json.0) [
  | none ↦ none
  | some p ↦ some (record {
    session_id = r.session_id;
    principal_id = r.principal_id;
    created_at = r.created_at;
    expires_at = r.expires_at;
    who = p;
    institution_scope = r.principal_json.1;
    ticket_expires_at = r.ticket_expires_at;
    is_closed = is_some r.closed_at;
  })
]

-- A socket: none, one bound to a principal, or a row that cannot be read back.
pub data Transport : Type 0 where
  unclaimed unreadable : Transport
  bound : Principal → Transport

abbrev pub transport_of : Option (VoiceRow Kept) → Transport
transport_of none = unclaimed
transport_of (some r) = elim (principal_from_snapshot r.principal_json.0) [
  | none ↦ unreadable
  | some p ↦ bound p
]

unfoldable pub claim_transport :
    (String → String)
    → String
    → String
    → ℕ
    → List (VoiceRow Kept)
    → Transport × List (VoiceRow Kept)
claim_transport digest id ticket now t =
    if ticket == ""
    then (unclaimed, t)
    else (let (row, after) = claim_voice_session id (digest ticket) now t in
        (transport_of row, after))

-- `none` also when the row cannot be read back.
unfoldable pub get : String → ℕ → List (VoiceRow Kept) → Option VoiceSession
unfolding session_from_row
get id now t = elim (get_voice_session id t) [
  | none ↦ none
  | some r ↦ if is_some r.closed_at || leb r.expires_at now then none else session_from_row r
]

unfoldable pub release_transport : String → ℕ → List (VoiceRow Kept) → List (VoiceRow Kept)
release_transport id now t = (close_voice_session id none now t).1

unfoldable pub close : String → String → ℕ → List (VoiceRow Kept) → Bool × List (VoiceRow Kept)
close id principal now t = close_voice_session id (some principal) now t
