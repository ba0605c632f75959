-- ===== src/Persistence/Records.antt =====
-- The whole `InMemoryControlStore` of apps/api/app/persistence/database.py: its bounded logs, its
-- outbox, and what is pruned.
use guru_ji.Prelude.{
  ℕ, ◌+◌, ◌-◌, ◌*◌, String, Bool, not, Option, none, some, List, [], ◌∷◌, ◌++◌, if◌then◌else◌, ◌==◌,
  string_eq, nat_eq, contains, length, take, find, select, ltb, leb,
}
use guru_ji.Persistence.ControlStore.{
  Stamped, OutboxRecord, VoiceRow, UsageCount, append_bounded, recent, is_none,
}

-- `self._health[id] = health`
abbrev pub put : {H : Type 0} → String → H → List (String × H) → List (String × H)
put id h [] = (id, h) ∷ []
put id h (x ∷ xs) = let rest = put id h xs in if x.0 == id then (id, h) ∷ xs else x ∷ rest

-- `(row["closed_at"] or row["expires_at"]) < cutoff`
abbrev pub is_stale : {P : Type 0} → ℕ → VoiceRow P → Bool
is_stale cutoff r = elim r.closed_at [ none ↦ ltb r.expires_at cutoff | some c ↦ ltb c cutoff ]

abbrev pub microseconds_per_day : ℕ
microseconds_per_day = 86400000000

-- The whole store: E audit events, H source health, B briefings, Q answers, M model attempts,
-- P payloads.
module _ (E H B Q M P : Type 0) where
  pub record ControlStore : Type 0 where
    pub max_events : ℕ
    pub events : List (Stamped E)
    pub health : List (String × H)
    pub briefings : List (Stamped B)
    pub answers : List (String × Stamped Q)
    pub attempts : List (Stamped M)
    pub outbox : List (Stamped (OutboxRecord P))
    pub voice_sessions : List (VoiceRow P)
    pub usage : List UsageCount

module _ {E H B Q M P : Type 0} where
  unfoldable pub append_audit : Stamped E → ControlStore E H B Q M P → ControlStore E H B Q M P
  append_audit e s = record s { events = append_bounded s.max_events e s.events }

  unfoldable pub recent_audit : ℕ → ControlStore E H B Q M P → List (Stamped E)
  recent_audit limit s = recent limit s.events

  unfoldable pub record_briefing : Stamped B → ControlStore E H B Q M P → ControlStore E H B Q M P
  record_briefing b s = record s { briefings = append_bounded s.max_events b s.briefings }

  unfoldable pub record_model_attempt :
      Stamped M → ControlStore E H B Q M P → ControlStore E H B Q M P
  record_model_attempt a s = record s { attempts = append_bounded s.max_events a s.attempts }

  unfoldable pub record_answer_envelope :
      String → Stamped Q → ControlStore E H B Q M P → ControlStore E H B Q M P
  record_answer_envelope request q s = record s {
    answers = select (λ a. not (a.0 == request)) s.answers ++ (request, q) ∷ [];
  }

  unfoldable pub enqueue_outbox :
      String → String → P → ℕ → ControlStore E H B Q M P → ControlStore E H B Q M P
  enqueue_outbox id event payload now s = record s {
    outbox =
        s.outbox
        ++ record {
          item = record {
            outbox_id = id;
            event_type = event;
            payload = payload;
            delivered_at = none;
          };
          at = now;
        }
          ∷ [];
  }

  unfoldable pub drain_outbox : ℕ → ControlStore E H B Q M P → List (Stamped (OutboxRecord P))
  drain_outbox limit s = take limit (select (λ o. is_none o.item.delivered_at) s.outbox)

  unfoldable pub ack_outbox : List String → ControlStore E H B Q M P → ControlStore E H B Q M P
  ack_outbox ids s = record s {
    outbox = select (λ o. not (contains ids o.item.outbox_id)) s.outbox;
  }

  -- The records of each kind, counted.
  abbrev pub kept : ControlStore E H B Q M P → ℕ
  kept s =
      length s.events
      + (length s.answers + (length s.attempts + (length s.outbox + length s.briefings)))

  -- `none` is the ValueError on a retention that is not positive. `now` is at least the retention.
  unfoldable pub prune_retention :
      ℕ → ℕ → ControlStore E H B Q M P → Option (ℕ × ControlStore E H B Q M P)
  prune_retention days now s =
      if days == 0
      then none
      else (let cutoff = now - days * microseconds_per_day in
          let after = record s {
            events = select (λ a. leb cutoff a.at) s.events;
            answers = select (λ a. leb cutoff a.1.at) s.answers;
            attempts = select (λ a. leb cutoff a.at) s.attempts;
            outbox = select (λ a. leb cutoff a.at) s.outbox;
            briefings = select (λ a. leb cutoff a.at) s.briefings;
          } in
          some (kept s - kept after, after))

  unfoldable pub recent_briefings : ℕ → ControlStore E H B Q M P → List (Stamped B)
  recent_briefings limit s = recent limit s.briefings

  unfoldable pub set_health : String → H → ControlStore E H B Q M P → ControlStore E H B Q M P
  set_health id h s = record s { health = put id h s.health }

  unfoldable pub get_health : String → ControlStore E H B Q M P → Option H
  get_health id s = elim (find (λ x. x.0 == id) s.health) [ none ↦ none | some x ↦ some x.1 ]

  -- `now` is at least a day, and `today`, the number of its day, at least 30.
  unfoldable pub prune_ephemeral : ℕ → ℕ → ControlStore E H B Q M P → ℕ × ControlStore E H B Q M P
  prune_ephemeral now today s =
      let cutoff = now - microseconds_per_day in
      let stale = select (is_stale cutoff) s.voice_sessions in
      let old = select (λ u. ltb u.day (today - 30)) s.usage in
      (
        length stale + length old,
        record s {
          voice_sessions = select (λ r. not (is_stale cutoff r)) s.voice_sessions;
          usage = select (λ u. not (ltb u.day (today - 30))) s.usage;
        },
      )
