-- ===== src/Voice/Sessions/Limit.antt =====
-- The cap on live sessions.
use guru_ji.Prelude.{
  ℕ, suc, ◌≤◌, String, ◌≡◌, refl, Bool, false, not, ◌&&◌, ◌||◌, Option, none, some, List, [], ◌∷◌,
  ◌++◌, if-cases, if-elim, contains, length, select, leb, arith,
}
use guru_ji.Domain.Principals.{
  Principal, InstitutionScope, start_voice_session, capability_eq, can_access,
}
use guru_ji.Persistence.ControlStore.{
  VoiceRow, is_active, other_owner, insert_by, sorted_by, create_voice_session,
  active_voice_sessions,
}
use guru_ji.Voice.Sessions.{
  VoiceSessionManager, VoiceSession, Kept, Opened, opened, refused, duplicate, scope_or, create,
  open_row,
}

module _ {ℓ} {A : Type ℓ} where
  length-insert_by : (k : A → ℕ) (x : A) (xs : List A) → length (insert_by k x xs) ≡ suc (length xs)
  length-insert_by k x [] = refl
  length-insert_by k x (y ∷ ys) = ground (arith, length-insert_by k x ys)

  pub length-sorted_by : (k : A → ℕ) (xs : List A) → length (sorted_by k xs) ≡ length xs
  length-sorted_by k [] = refl
  length-sorted_by k (x ∷ xs) =
      omega (arith, length-insert_by k x (sorted_by k xs), length-sorted_by k xs)

  length-select_append :
      (p : A → Bool) (xs : List A) (x : A)
      → length (select p (xs ++ x ∷ [])) ≤ suc (length (select p xs))
  length-select_append p [] x = ground arith
  length-select_append p (y ∷ ys) x = ground (arith, length-select_append p ys x)

module _ {P : Type 0} where
  active-append :
      (now : ℕ) (owner : Option String) (t : List (VoiceRow P)) (r : VoiceRow P)
      → length (active_voice_sessions now owner (t ++ r ∷ []))
        ≤ suc (length (active_voice_sessions now owner t))
  unfolding active_voice_sessions
  active-append now owner t r =
      let p = λ (x : VoiceRow P). is_active x now && not (other_owner owner x) in
      omega (
        arith,
        length-sorted_by (λ (x : VoiceRow P). x.created_at) (select p (t ++ r ∷ [])),
        length-sorted_by (λ (x : VoiceRow P). x.created_at) (select p t),
        length-select_append p t r,
      )

abbrev Capped : VoiceSessionManager → ℕ → Opened × List (VoiceRow Kept) → Type 0
Capped m now o =
    (s : VoiceSession) (ticket : String)
    → o.0 ≡ opened s ticket
    → length (active_voice_sessions now none o.1) ≤ m.max_active

row-appended :
    (r : VoiceRow Kept) (t after : List (VoiceRow Kept))
    → create_voice_session r t ≡ some after
    → after ≡ t ++ r ∷ []
unfolding create_voice_session
row-appended r t after h = ground arith

insert_row-Capped :
    (m : VoiceSessionManager) (s : VoiceSession) (r : VoiceRow Kept) (ticket : String) (now : ℕ)
    (t : List (VoiceRow Kept)) (o : Option (List (VoiceRow Kept)))
    → create_voice_session r t ≡ o
    → leb m.max_active (length (active_voice_sessions now none t)) ≡ false
    → Capped m now
        (elim o [ none ↦ (refused duplicate, t) | some after ↦ (opened s ticket, after) ])
insert_row-Capped m s r ticket now t none e free s' k h = absurd (cc)
insert_row-Capped m s r ticket now t (some after) e free s' k h =
    rw (row-appended r t after e) (ground (arith, active-append now none t r))

open_row-Capped :
    (m : VoiceSessionManager) (s : VoiceSession) (r : VoiceRow Kept) (ticket : String) (now : ℕ)
    (t : List (VoiceRow Kept))
    → Capped m now (open_row m s r ticket now t)
unfolding open_row
open_row-Capped m s r ticket now t =
    if-cases (Capped m now) (leb m.max_active (length (active_voice_sessions now none t)))
      (λ _ s' k h. absurd (cc))
      (λ free. insert_row-Capped m s r ticket now t (create_voice_session r t) refl free)

-- A session is opened only while fewer than `max_active` sessions are live, so that at most that
-- many are live after it, whatever the store held.
pub create-Capped :
    (m : VoiceSessionManager) (digest : String → String) (p : Principal)
    (asked : Option InstitutionScope) (id ticket : String) (now : ℕ) (t : List (VoiceRow Kept))
    (s : VoiceSession) (given : String)
    → (create m digest p asked id ticket now t).0 ≡ opened s given
    → length (active_voice_sessions now none (create m digest p asked id ticket now t).1)
      ≤ m.max_active
unfolding create
create-Capped m digest p asked id ticket now t =
    if-elim (Capped m now)
      (not p.authenticated || not (contains p.capabilities start_voice_session))
      (λ s k h. absurd (cc))
      (if-elim (Capped m now) (not (can_access p (scope_or p asked))) (λ s k h. absurd (cc))
        (open_row-Capped m _ _ ticket now _))
