-- ===== src/Agents/Handle/Guarded.antt =====
-- Who may have a command handled, and which plans are executed.
use guru_ji.Prelude.{
  String, ◌≡◌, refl, ◌⊎◌, inl, inr, Bool, true, false, not, ◌&&◌, Option, none, some, arith,
  if-cases, ◌≤◌, ◌<◌, ltb, ◌==◌, nat_eq,
}
use guru_ji.Domain.Principals.{active, has_capability, can_access, agent_command}
use guru_ji.Gateway.Types.{AuditOutcome, Object}
use guru_ji.Gateway.Invoke.{named}
use guru_ji.Agents.Contracts.{AgentCommand, AgentPlan}
use guru_ji.Agents.Handle.{
  Services, AgentResponse, handle, admitted, refusal, recorded, asked_back, run_unless,
  run_or_queue, record_changes, clarification_of, clarify, queue_for, queued, run_now, run_plan,
}

module _ {N W : Type 0} (v : Services N W) (c : AgentCommand) where
  abbrev pub is_authorised : Bool
  is_authorised = has_capability c.who agent_command && can_access c.who c.scope

  -- The refusal, and the log of it as the only change.
  abbrev pub IsRefused : W → Option (AgentResponse N × W) → Type 0
  IsRefused w o =
      (reason : String) × (o
        ≡ some (refusal v c reason, v.log c AuditOutcome.denied (refusal v c reason) w))

  unfoldable pub Guarded : W → Option (AgentResponse N × W) → Type 0
  Guarded w o =
      ((is_authorised ≡ true) × (o ≡ admitted v c (v.trace c w)))
      ⊎ ((is_authorised ≡ false) × IsRefused w o)

  refused-Guarded :
      (w : W) (reason : String)
      → is_authorised ≡ false
      → Guarded w (some (recorded v c (refusal v c reason) w))
  unfolding Guarded recorded
  refused-Guarded w reason h = inr (h, (reason, refl))

  admitted-Guarded : (w : W) → is_authorised ≡ true → Guarded w (admitted v c (v.trace c w))
  unfolding Guarded
  admitted-Guarded w h = inl (h, refl)

  inactive : active c.who ≡ false → is_authorised ≡ false
  unfolding has_capability
  inactive h = ground arith

  -- A command is planned, resumed, queued or executed only for an active principal that holds
  -- agent:command and may access the scope of the command. Any other command is refused, and the
  -- record of the refusal is all that changes.
  pub handle-Guarded : (w : W) → Guarded w (handle v c w)
  unfolding handle
  handle-Guarded w =
      if-cases (Guarded w) (not (active c.who)) (λ h. refused-Guarded w _ (inactive (ground arith)))
        λ h.
          if-cases (Guarded w) (not (has_capability c.who agent_command))
            (λ k. refused-Guarded w _ (ground arith))
            λ k.
              if-cases (Guarded w) (not (can_access c.who c.scope))
                (λ j. refused-Guarded w _ (ground arith)) (λ j. admitted-Guarded w (ground arith))

  -- What becomes of a plan.
  pub data Course (p : AgentPlan N) (earlier : Object N) (w : W)
      : AgentResponse N × W → Type 0 where
    asks_back :
        (t : String)
        → (named p.clarification ≡ some t) ⊎ (1 < record_changes v c p.steps)
        → Course p earlier w (asked_back v c p t w)
    queues :
        (enqueue : AgentCommand → W → String × W)
        → record_changes v c p.steps ≡ 0
        → c.run_in_background ≡ true
        → c.in_background ≡ false
        → v.enqueue ≡ some enqueue
        → Course p earlier w (queued v c p (enqueue c w))
    runs :
        record_changes v c p.steps ≤ 1
        → named p.clarification ≡ none
        → Course p earlier w (run_now v c p earlier w)

  -- What a clarification shows, and what its absence shows.
  unfoldable Clarifies : AgentPlan N → Option String → Type 0
  Clarifies p none = (named p.clarification ≡ none) × (record_changes v c p.steps ≤ 1)
  Clarifies p (some t) = (named p.clarification ≡ some t) ⊎ (1 < record_changes v c p.steps)

  clarify_lem :
      (p : AgentPlan N) (o : Option String)
      → named p.clarification ≡ o
      → Clarifies p (clarify v c p o)
  unfolding clarify Clarifies
  clarify_lem p (some t) e = inl e
  clarify_lem p none e =
      if-cases (Clarifies p) (ltb 1 (record_changes v c p.steps)) (λ h. inr (ground (arith, h)))
        (λ h. (e, ground (arith, h)))

  clarification_lem : (p : AgentPlan N) → Clarifies p (clarification_of v c p)
  unfolding clarification_of
  clarification_lem p = clarify_lem p _ refl

  unfoldable Queues : AgentPlan N → Option (AgentCommand → W → String × W) → Type 0
  Queues p none = Unit
  Queues p (some enqueue) =
      (record_changes v c p.steps ≡ 0)
      × (c.run_in_background ≡ true)
      × (c.in_background ≡ false)
      × (v.enqueue ≡ some enqueue)

  enqueue_lem :
      (p : AgentPlan N) (o : Option (AgentCommand → W → String × W))
      → v.enqueue ≡ o
      → record_changes v c p.steps ≡ 0
      → c.run_in_background ≡ true
      → c.in_background ≡ false
      → Queues p o
  unfolding Queues
  enqueue_lem p none e z b i = tt
  enqueue_lem p (some q) e z b i = (z, b, i, e)

  no_queue : (p : AgentPlan N) → Queues p none
  unfolding Queues
  no_queue p = tt

  queue_for_lem : (p : AgentPlan N) → Queues p (queue_for v c p)
  queue_for_lem p =
      if-cases (Queues p)
        (c.run_in_background && not c.in_background && record_changes v c p.steps == 0)
        (λ h.
          enqueue_lem p v.enqueue refl (ground (arith, h)) (ground (arith, h)) (ground (arith, h)))
        (λ h. no_queue p)

  run_or_queue-Course :
      (p : AgentPlan N) (earlier : Object N) (w : W) (o : Option (AgentCommand → W → String × W))
      → Queues p o
      → Clarifies p none
      → Course p earlier w (run_or_queue v c p earlier w o)
  unfolding run_or_queue Queues Clarifies
  run_or_queue-Course p earlier w none q (e, h) = runs h e
  run_or_queue-Course p earlier w (some enqueue) (z, b, i, q) h = queues enqueue z b i q

  asked :
      (p : AgentPlan N) (earlier : Object N) (w : W) (t : String)
      → Clarifies p (some t)
      → Course p earlier w (asked_back v c p t w)
  unfolding Clarifies
  asked p earlier w t h = asks_back t h

  run_unless-Course :
      (p : AgentPlan N) (earlier : Object N) (w : W) (o : Option String)
      → Clarifies p o
      → Course p earlier w (run_unless v c p earlier w o)
  unfolding run_unless
  run_unless-Course p earlier w none h =
      run_or_queue-Course p earlier w (queue_for v c p) (queue_for_lem p) h
  run_unless-Course p earlier w (some t) h = asked p earlier w t h

  -- A plan, new or resumed, is executed only with at most one step that changes records and with
  -- nothing to clarify; it goes to the background only when the command asks for that, is not there
  -- already, and has no step that changes records; in all other cases the person is asked back.
  pub run_plan-Course :
      (p : AgentPlan N) (earlier : Object N) (w : W) → Course p earlier w (run_plan v c p earlier w)
  unfolding run_plan
  run_plan-Course p earlier w = run_unless-Course p earlier w _ (clarification_lem p)
