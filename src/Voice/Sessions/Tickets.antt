-- ===== src/Voice/Sessions/Tickets.antt =====
-- A ticket opens one socket.
use guru_ji.Prelude.{
  ℕ, String, ◌≡◌, refl, ap, Bool, true, false, ◌||◌, Option, none, some, List, [], ◌∷◌, ◌++◌, ◌==◌,
  string_eq, find, any, is_some, arith, Bool-cases, inl, inr, if-elim, ◌≢◌,
}
use guru_ji.Domain.Principals.{Principal}
use guru_ji.InstitutionData.Table.{update, holds}
use guru_ji.Persistence.ControlStore.{
  VoiceRow, has_session, is_claimable, claim_at, close_at, claim_found, claim_voice_session,
  close_found, close_voice_session, create_voice_session, get_voice_session, other_owner,
}
use guru_ji.Voice.Sessions.{Kept, Transport, bound, unclaimed, claim_transport, transport_of}

module _ {ℓ} {A : Type ℓ} where
  -- A test that an update keeps is kept in the row found.
  holds-update :
      (g key p : A → Bool) (f : A → A) (t : List A)
      → ((a : A) → key (f a) ≡ key a)
      → ((a : A) → g a ≡ true → g (f a) ≡ true)
      → holds g (find key t) ≡ true
      → holds g (find key (update p f t)) ≡ true
  holds-update g key p f [] k h x = x
  holds-update g key p f (a ∷ t) k h x = ground (arith, k a, h a, holds-update g key p f t k h)

  holds-append :
      (g key : A → Bool) (t : List A) (b : A)
      → holds g (find key t) ≡ true
      → holds g (find key (t ++ b ∷ [])) ≡ true
  holds-append g key [] b x = absurd (cc)
  holds-append g key (a ∷ t) b x = ground (arith, holds-append g key t b)

  holds-all :
      (g key : A → Bool) (f : A → A) (t : List A)
      → ((a : A) → key (f a) ≡ key a)
      → ((a : A) → g (f a) ≡ true)
      → any key t ≡ true
      → holds g (find key (update key f t)) ≡ true
  holds-all g key f [] k h x = absurd (cc)
  holds-all g key f (a ∷ t) k h x = ground (arith, k a, h a, holds-all g key f t k h)

  find-any : (key : A → Bool) (t : List A) (a : A) → find key t ≡ some a → any key t ≡ true
  find-any key [] a h = absurd (cc)
  find-any key (x ∷ t) a h = ground (arith, find-any key t a)

-- What other requests do to the sessions.
pub data Request : Type 0 where
  creates : VoiceRow Kept → Request
  claims : String → String → ℕ → Request
  closes : String → Option String → ℕ → Request

abbrev pub created : List (VoiceRow Kept) → Option (List (VoiceRow Kept)) → List (VoiceRow Kept)
created t none = t
created t (some after) = after

abbrev pub serve : Request → List (VoiceRow Kept) → List (VoiceRow Kept)
serve (creates r) t = created t (create_voice_session r t)
serve (claims id digest now) t = (claim_voice_session id digest now t).1
serve (closes id owner now) t = (close_voice_session id owner now t).1

abbrev pub serve_all : List Request → List (VoiceRow Kept) → List (VoiceRow Kept)
serve_all [] t = t
serve_all (q ∷ qs) t = serve_all qs (serve q t)

-- The session's ticket has been claimed.
unfoldable is_spent : String → List (VoiceRow Kept) → Bool
is_spent id t = holds (λ r. is_some r.claimed_at) (get_voice_session id t)

claim-is_spent :
    (id digest : String) (now : ℕ) (t : List (VoiceRow Kept)) (o : Option (VoiceRow Kept))
    → get_voice_session id t ≡ o
    → (claim_found id digest now o t).0 ≢ none
    → is_spent id (claim_found id digest now o t).1 ≡ true
unfolding claim_found is_spent get_voice_session
claim-is_spent id digest now t none e h = absurd (h refl)
claim-is_spent id digest now t (some r) e h = elim (Bool-cases (is_claimable digest now r)) [
  | inl c ↦ rw c (
      holds-all (λ r. is_some r.claimed_at) (has_session id) (claim_at now) t (λ a. refl)
        (λ a. refl) (find-any (has_session id) t r e))
  | inr c ↦ absurd (h (rw c refl))
]

serve-claimed :
    (id jd digest : String) (now : ℕ) (t : List (VoiceRow Kept)) (o : Option (VoiceRow Kept))
    → is_spent id t ≡ true
    → is_spent id (claim_found jd digest now o t).1 ≡ true
unfolding claim_found is_spent get_voice_session
serve-claimed id jd digest now t none h = h
serve-claimed id jd digest now t (some r) h =
    if-elim (λ (o : Option (VoiceRow Kept) × List (VoiceRow Kept)). is_spent id o.1 ≡ true)
      (is_claimable digest now r)
      (holds-update (λ r. is_some r.claimed_at) (has_session id) (has_session jd) (claim_at now) t
        (λ a. refl) (λ a x. refl) h)
      h

serve-closed :
    (id jd : String) (owner : Option String) (now : ℕ) (t : List (VoiceRow Kept))
    (o : Option (VoiceRow Kept))
    → is_spent id t ≡ true
    → is_spent id (close_found jd owner now o t).1 ≡ true
unfolding close_found is_spent get_voice_session
serve-closed id jd owner now t none h = h
serve-closed id jd owner now t (some r) h =
    if-elim (λ (o : Bool × List (VoiceRow Kept)). is_spent id o.1 ≡ true)
      (is_some r.closed_at || other_owner owner r) h
      (holds-update (λ r. is_some r.claimed_at) (has_session id) (has_session jd) (close_at now) t
        (λ a. refl) (λ a x. x) h)

serve-is_spent :
    (id : String) (q : Request) (t : List (VoiceRow Kept))
    → is_spent id t ≡ true
    → is_spent id (serve q t) ≡ true
unfolding create_voice_session claim_voice_session close_voice_session is_spent get_voice_session
serve-is_spent id (creates r) t h =
    if-elim (λ o. is_spent id (created t o) ≡ true) (any (has_session r.session_id) t) h
      (holds-append (λ r. is_some r.claimed_at) (has_session id) t r h)
serve-is_spent id (claims jd digest now) t h = serve-claimed id jd digest now t _ h
serve-is_spent id (closes jd owner now) t h = serve-closed id jd owner now t _ h

serve_all-is_spent :
    (id : String) (qs : List Request) (t : List (VoiceRow Kept))
    → is_spent id t ≡ true
    → is_spent id (serve_all qs t) ≡ true
serve_all-is_spent id [] t h = h
serve_all-is_spent id (q ∷ qs) t h = serve_all-is_spent id qs (serve q t) (serve-is_spent id q t h)

spent-unclaimable :
    (digest : String) (now : ℕ) (r : VoiceRow Kept)
    → is_some r.claimed_at ≡ true
    → is_claimable digest now r ≡ false
unfolding is_claimable
spent-unclaimable digest now r h = ground arith

spent-none :
    (id digest : String) (now : ℕ) (t : List (VoiceRow Kept)) (o : Option (VoiceRow Kept))
    → holds (λ r. is_some r.claimed_at) o ≡ true
    → (claim_found id digest now o t).0 ≡ none
unfolding claim_found
spent-none id digest now t none h = absurd (cc)
spent-none id digest now t (some r) h = rw (spent-unclaimable digest now r h) refl

again-unclaimed :
    (digest : String → String) (id ticket : String) (now : ℕ) (t : List (VoiceRow Kept))
    → is_spent id t ≡ true
    → (claim_transport digest id ticket now t).0 ≡ unclaimed
unfolding claim_transport claim_voice_session is_spent
again-unclaimed digest id ticket now t h =
    if-elim (λ (o : Transport × List (VoiceRow Kept)). o.0 ≡ unclaimed) (ticket == "") refl
      (ap transport_of (spent-none id (digest ticket) now t (get_voice_session id t) h))

bound-is_spent :
    (digest : String → String) (id ticket : String) (now : ℕ) (p : Principal)
    (t : List (VoiceRow Kept))
    → (claim_transport digest id ticket now t).0 ≡ bound p
    → is_spent id (claim_transport digest id ticket now t).1 ≡ true
unfolding claim_transport claim_voice_session
bound-is_spent digest id ticket now p t =
    if-elim (λ (o : Transport × List (VoiceRow Kept)). o.0 ≡ bound p → is_spent id o.1 ≡ true)
      (ticket == "") (λ h. absurd (cc))
      (λ h. claim-is_spent id (digest ticket) now t (get_voice_session id t) refl (λ q. cc))

-- Once a ticket has bound a socket to a principal, no later claim of that session binds another,
-- whatever ticket it shows, whenever it comes, and whatever sessions were opened, claimed and
-- closed in between.
pub ticket_once :
    (digest : String → String) (id ticket : String) (now : ℕ) (p : Principal)
    (t : List (VoiceRow Kept))
    → (claim_transport digest id ticket now t).0 ≡ bound p
    → (requests : List Request) (other : String) (later : ℕ)
    → (claim_transport digest id other later
        (serve_all requests (claim_transport digest id ticket now t).1)).0
      ≡ unclaimed
ticket_once digest id ticket now p t h requests other later =
    again-unclaimed digest id other later _
      (serve_all-is_spent id requests _ (bound-is_spent digest id ticket now p t h))
