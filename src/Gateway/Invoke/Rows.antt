-- ===== src/Gateway/Invoke/Rows.antt =====
-- What the approvals are after `begin`: an early return adds at most a pending row, and a call that
-- runs has claimed at most its own.
use mathlib.Core.Path.{subst}
use guru_ji.Prelude.{
  ℕ, String, ◌≡◌, refl, sym, ◌∙◌, ◌⊎◌, inl, inr, not, Option, none, some, List, if-elim, Bool-cases,
  Option-cases, arith, string_eq, eq_iff,
}
use guru_ji.Policy.Authorization.{authorize}
use guru_ji.Policy.Pdp.{PolicyDecision}
use guru_ji.InstitutionData.Approvals.{
  Approval, pending, has_id, new_approval, get_approval, insert_approval, claim_approval, IsKeyed,
}
use guru_ji.InstitutionData.Approvals.Laws.{
  claim_approval-IsKeyed, claim_lost, insert_approval_lem, insert_approval-IsKeyed,
  insert_approval-fresh,
}
use guru_ji.Gateway.Spec.{Numbers, Checked, ok, error}
use guru_ji.Gateway.Types.{
  ToolCallContext, institution_id, AuditOutcome, Status, Note, Denial, Object, ValidatorOutcome,
  normalized, PlatformTool, PendingApproval, ToolInvocation, World, lookup_tool,
}
use guru_ji.Gateway.Invoke.{
  Moment, Gateway, Call, Begun, stopped, running, claim_usable, approval_state, request_approval,
  audit, local_reason, pdp_reason,
}
use guru_ji.Gateway.Invoke.Begin.{
  request_for, is_high_risk, refuse, ask, confirm_with, confirm, after_validator, after_pdp,
  after_schema, check_schema, find_tool, begin, confirmation_reason,
}

module _ {A : Type 0} where
  -- A table in which every row is kept, and any new row is pending.
  pub record Extends (t t' : List (Approval A)) : Type 0 where
    pub keyed : IsKeyed t'
    pub rows :
        (i id : String)
        → (get_approval i id t' ≡ get_approval i id t)
          ⊎ ((get_approval i id t ≡ none)
              × (a : Approval A) × (get_approval i id t' ≡ some a)
              × (a.status ≡ pending))

  Extends-same : (t : List (Approval A)) → IsKeyed t → Extends t t
  Extends-same t k = record { keyed = k; rows = λ i id. inl refl }

  insert-Extends :
      (a : Approval A) (t t' : List (Approval A))
      → IsKeyed t
      → a.status ≡ pending
      → insert_approval a t ≡ some t'
      → Extends t t'
  insert-Extends a t t' k p h = record {
    keyed = insert_approval-IsKeyed a t t' h k;
    rows = λ i id. elim (Bool-cases (has_id i id a)) [
      | inr e ↦ inl (insert_approval_lem a t t' h i id ∙ rw e refl)
      | inl e ↦
          let q : a.approval_id ≡ id = (eq_iff a.approval_id id).0 (ground arith) in
          inr (
            rw (sym q) (insert_approval-fresh a t t' h i),
            a,
            insert_approval_lem a t t' h i id ∙ rw e refl,
            p,
          )
    ];
  }

  -- Losing a claim first changes nothing.
  Extends-lost :
      (i id p : String) (now : ℕ) (t t' : List (Approval A))
      → IsKeyed t
      → (claim_approval i id p now t).0 ≡ none
      → Extends (claim_approval i id p now t).1 t'
      → Extends t t'
  Extends-lost i id p now t t' k h x = record {
    keyed = x.keyed;
    rows = λ j jd.
        subst
          (λ o.
            (get_approval j jd t' ≡ o)
            ⊎ ((o ≡ none)
                × (a : Approval A) × (get_approval j jd t' ≡ some a)
                × (a.status ≡ pending)))
          (claim_lost i id p now t k h j jd) (x.rows j jd);
  }

module _ {n : Numbers} (g : Gateway n) (c : ToolCallContext) where
  open n use {Number}

  -- The rows after an early return extend the rows before.
  unfoldable Keeps : List (Approval (Object Number)) → Option (Begun n) → Type 0
  Keeps t none = Unit
  Keeps t (some (stopped i w)) = Extends t w.approvals
  Keeps t (some (running k w)) = Unit

  refuse-Keeps :
      (tool : PlatformTool Number) (s : Status) (why : Denial) (o : AuditOutcome)
      (d : Option PolicyDecision) (reason : String) (w : World Number)
      → IsKeyed w.approvals
      → Keeps w.approvals (some (refuse g c tool s why o d reason w))
  unfolding Keeps refuse audit
  refuse-Keeps tool s why o d reason w k = Extends-same w.approvals k

  runs-Keeps :
      (t : List (Approval (Object Number))) (k : Call n) (w : World Number)
      → Keeps t (some (running k w))
  unfolding Keeps
  runs-Keeps t k w = tt

  abbrev Asked :
      List (Approval (Object Number))
      → Option (PendingApproval Number × List (Approval (Object Number)))
      → Type 0
  Asked t none = Unit
  Asked t (some (p, t')) = Extends t t'

  Asked-request_approval :
      (tool : PlatformTool Number) (v : Object Number) (reason : String) (why : Option Note)
      (m : Moment) (t : List (Approval (Object Number)))
      (r : Option (PendingApproval Number × List (Approval (Object Number))))
      → IsKeyed t
      → request_approval g c tool v reason why m t ≡ r
      → Asked t r
  unfolding request_approval
  Asked-request_approval tool v reason why m t none k h = tt
  Asked-request_approval tool v reason why m t (some (p, t')) k h =
      let row =
        new_approval (institution_id c) m.fresh_id c.who.principal_id tool.name v
          (g.arguments_digest v) reason g.approval_ttl_seconds m.asked_at in
      elim (Option-cases (insert_approval row t)) [
        | inl e ↦ absurd (ground arith)
        | inr (after, e) ↦
            let q : after ≡ t' = ground arith in
            subst (Extends t) q (insert-Extends row t after k refl e)
      ]

  ask-Keeps :
      (tool : PlatformTool Number) (d : PolicyDecision)
      (r : Option (PendingApproval Number × List (Approval (Object Number))))
      (t : List (Approval (Object Number))) (w : World Number)
      → Asked t r
      → Keeps t (ask g c tool d r w)
  unfolding Keeps ask audit
  ask-Keeps tool d none t w x = tt
  ask-Keeps tool d (some (p, t')) t w x = x

  Asked-lost :
      (id : String) (m : Moment) (t : List (Approval (Object Number)))
      (r : Option (PendingApproval Number × List (Approval (Object Number))))
      → IsKeyed t
      → (claim_approval (institution_id c) id c.who.principal_id m.claimed_at t).0 ≡ none
      → Asked (claim_approval (institution_id c) id c.who.principal_id m.claimed_at t).1 r
      → Asked t r
  Asked-lost id m t none k h x = tt
  Asked-lost id m t (some (p, t')) k h x =
      Extends-lost (institution_id c) id c.who.principal_id m.claimed_at t t' k h x

  asks-Keeps :
      (tool : PlatformTool Number) (v : Object Number) (d : PolicyDecision) (m : Moment)
      (why : Option Note) (w : World Number)
      → IsKeyed w.approvals
      → Keeps w.approvals (confirm_with g c tool v d m (none, why, w.approvals) w)
  unfolding confirm_with
  asks-Keeps tool v d m why w k =
      let r = request_approval g c tool v (confirmation_reason g c tool) why m w.approvals in
      ask-Keeps tool d r w.approvals w
        (Asked-request_approval tool v (confirmation_reason g c tool) why m w.approvals r k refl)

  claimed-Keeps :
      (tool : PlatformTool Number) (v : Object Number) (d : PolicyDecision) (m : Moment)
      (id : String) (x : Option (Approval (Object Number))) (why : Option Note) (w : World Number)
      → IsKeyed w.approvals
      → (claim_approval (institution_id c) id c.who.principal_id m.claimed_at w.approvals).0 ≡ x
      → Keeps w.approvals (
          confirm_with g c tool v d m
            (
              x,
              why,
              (claim_approval (institution_id c) id c.who.principal_id m.claimed_at w.approvals).1,
            )
            w)
  unfolding confirm_with
  claimed-Keeps tool v d m id (some a) why w k h = runs-Keeps w.approvals _ _
  claimed-Keeps tool v d m id none why w k h =
      let after =
        (claim_approval (institution_id c) id c.who.principal_id m.claimed_at w.approvals).1 in
      let k' =
        claim_approval-IsKeyed (institution_id c) id c.who.principal_id m.claimed_at w.approvals
          k in
      let r = request_approval g c tool v (confirmation_reason g c tool) why m after in
      ask-Keeps tool d r w.approvals w (
        Asked-lost id m w.approvals r k h
          (Asked-request_approval tool v (confirmation_reason g c tool) why m after r k' refl))

  confirm-Keeps :
      (tool : PlatformTool Number) (v : Object Number) (d : PolicyDecision) (m : Moment)
      (st : Option (Approval (Object Number)) × Option Note) (w : World Number)
      → IsKeyed w.approvals
      → Keeps w.approvals (confirm_with g c tool v d m (claim_usable g c m st w.approvals) w)
  unfolding claim_usable
  confirm-Keeps tool v d m (some a, why) w k = claimed-Keeps tool v d m a.approval_id _ _ w k refl
  confirm-Keeps tool v d m (none, why) w k = asks-Keeps tool v d m why w k

  validator-Keeps :
      (tool : PlatformTool Number) (d : PolicyDecision) (m : Moment) (o : ValidatorOutcome Number)
      (w : World Number)
      → IsKeyed w.approvals
      → Keeps w.approvals (after_validator g c tool d m o w)
  unfolding after_validator confirm
  validator-Keeps tool d m (normalized v) w k =
      if-elim (Keeps w.approvals) (is_high_risk tool.risk)
        (confirm-Keeps tool v d m (approval_state g c tool v m w.approvals) w k)
        (runs-Keeps w.approvals _ w)
  validator-Keeps tool d m (ValidatorOutcome.permission_error e) w k =
      refuse-Keeps tool _ _ _ (some d) "handler_denied" w k
  validator-Keeps tool d m (ValidatorOutcome.value_error e) w k =
      refuse-Keeps tool _ _ _ (some d) "invalid_arguments" w k
  validator-Keeps tool d m ValidatorOutcome.other_exception w k =
      refuse-Keeps tool _ _ _ (some d) "handler_exception" w k

  pdp-Keeps :
      (tool : PlatformTool Number) (v : Object Number) (d : PolicyDecision) (m : Moment)
      (w : World Number)
      → IsKeyed w.approvals
      → Keeps w.approvals (after_pdp g c tool v d m w)
  unfolding after_pdp
  pdp-Keeps tool v d m w k =
      if-elim (Keeps w.approvals) (not d.allowed)
        (refuse-Keeps tool _ _ _ (some d) (pdp_reason d.reason) w k)
        (validator-Keeps tool d m _ w k)

  schema-Keeps :
      (tool : PlatformTool Number) (m : Moment) (r : Checked (Object Number)) (w : World Number)
      → IsKeyed w.approvals
      → Keeps w.approvals (check_schema g c tool r m w)
  unfolding check_schema after_schema
  schema-Keeps tool m (error e) w k = refuse-Keeps tool _ _ _ none "invalid_arguments" w k
  schema-Keeps tool m (ok v) w k =
      if-elim (Keeps w.approvals) (not (authorize c.who tool.required_capability c.scope).allowed)
        (refuse-Keeps tool _ _ _ none
          (local_reason (authorize c.who tool.required_capability c.scope).reason) w k)
        (pdp-Keeps tool v (g.evaluate (request_for g c tool)) m w k)

  find-Keeps :
      (name : String) (arguments : Object Number) (m : Moment) (w : World Number)
      (o : Option (PlatformTool Number))
      → IsKeyed w.approvals
      → Keeps w.approvals (find_tool g c name arguments m o w)
  unfolding Keeps find_tool audit
  find-Keeps name arguments m w none k = Extends-same w.approvals k
  find-Keeps name arguments m w (some tool) k = schema-Keeps tool m _ w k

  pub begin-Extends :
      (name : String) (arguments : Object Number) (m : Moment) (w w' : World Number)
      (i : ToolInvocation Number)
      → IsKeyed w.approvals
      → begin g c name arguments m w ≡ some (stopped i w')
      → Extends w.approvals w'.approvals
  unfolding Keeps begin
  begin-Extends name arguments m w w' i k h =
      subst (Keeps w.approvals) h (find-Keeps name arguments m w (lookup_tool g.registry name) k)
