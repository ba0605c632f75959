-- ===== src/Gateway/Invoke/Guards.antt =====
-- What holds whenever `invoke` reaches a handler.
use mathlib.Core.Path.{subst, subst₂}
use guru_ji.Prelude.{
  ◌<◌, String, ◌≡◌, refl, sym, ap, ◌∙◌, inl, inr, true, Option, none, some, List, arith, string_eq,
  Option-cases, eq_iff, find-some,
}
use guru_ji.Policy.Pdp.{PolicyDecision}
use guru_ji.InstitutionData.Approvals.{
  Approval, is_approved, claimable, claim_row, get_approval, claim_approval, has_id, IsKeyed,
}
use guru_ji.InstitutionData.Approvals.Laws.{claim_won}
use guru_ji.Gateway.Spec.{Numbers}
use guru_ji.Gateway.Types.{
  ToolCallContext, institution_id, Note, Object, PlatformTool, PendingApproval, World,
}
use guru_ji.Gateway.Invoke.{
  Moment, Gateway, Call, running, named, usable, usable_row, approval_state_of, approval_state,
  claim_usable,
}
use guru_ji.Gateway.Invoke.Begin.{ask, confirm_with}

-- A lookup by an id returns a row with that id.
pub get_approval-id :
    {A : Type 0} (i id : String) (t : List (Approval A)) (a : Approval A)
    → get_approval i id t ≡ some a
    → a.approval_id ≡ id
unfolding get_approval
get_approval-id i id t a h =
    let (m, e) = find-some (has_id i id) t h in
    ground (arith, eq_iff a.institution_id i, eq_iff a.approval_id id)

module _ {n : Numbers} (g : Gateway n) (c : ToolCallContext) where
  open n use {Number}

  -- The row of a confirmation that fits a call.
  pub record Fits (tool : PlatformTool Number) (arguments : Object Number)
      (a : Approval (Object Number)) : Type 0 where
    pub same_principal : a.principal_id ≡ c.who.principal_id
    pub same_tool : a.tool_name ≡ tool.name
    pub same_arguments : a.arguments_sha256 ≡ g.arguments_digest arguments
    pub is_confirmed : is_approved a.status ≡ true

  usable-Fits :
      (tool : PlatformTool Number) (arguments : Object Number) (m : Moment)
      (a b : Approval (Object Number))
      → (usable g c tool arguments m a).0 ≡ some b
      → Fits tool arguments a × (b ≡ a)
  unfolding usable
  usable-Fits tool arguments m a b h = (
    record {
      same_principal = ground (arith, eq_iff a.principal_id c.who.principal_id);
      same_tool = ground (arith, eq_iff a.tool_name tool.name);
      same_arguments = ground (arith, eq_iff a.arguments_sha256 (g.arguments_digest arguments));
      is_confirmed = ground arith;
    },
    ground arith,
  )

  state_of-Fits :
      (tool : PlatformTool Number) (arguments : Object Number) (m : Moment) (i : Option String)
      (t : List (Approval (Object Number))) (b : Approval (Object Number))
      → (approval_state_of g c tool arguments m i t).0 ≡ some b
      → (id : String) × (i ≡ some id)
        × (get_approval (institution_id c) id t ≡ some b)
        × Fits tool arguments b
  unfolding approval_state_of usable_row
  state_of-Fits tool arguments m none t b h = absurd (cc)
  state_of-Fits tool arguments m (some id) t b h =
      elim (Option-cases (get_approval (institution_id c) id t)) [
        | inl e ↦ absurd (ground arith)
        | inr (a, e) ↦
            let h' : (usable g c tool arguments m a).0 ≡ some b = rw (e, usable_row) at h in
            let (f, q) = usable-Fits tool arguments m a b h' in
            (id, refl, e ∙ ap some (sym q), subst (Fits tool arguments) (sym q) f)
      ]

  -- The confirmation that a high-risk call runs on: the named row fitted the call and had not
  -- expired, and it is now executing.
  pub record Confirmed (m : Moment) (t : List (Approval (Object Number))) (k : Call n)
      (t' : List (Approval (Object Number))) : Type 0 where
    pub id : String
    pub row : Approval (Object Number)
    pub names : named c.approval_id ≡ some id
    pub stored : get_approval (institution_id c) id t ≡ some row
    pub fits : Fits k.tool k.arguments row
    pub unexpired : m.claimed_at < row.expires_at
    pub claimed : k.approval ≡ some (claim_row c.who.principal_id m.claimed_at row)
    pub table : t' ≡ (claim_approval (institution_id c) id c.who.principal_id m.claimed_at t).1
    pub executes : get_approval (institution_id c) id t' ≡ k.approval

  -- Asking for a confirmation never reaches the handler.
  ask-stops :
      (tool : PlatformTool Number) (d : PolicyDecision)
      (asked : Option (PendingApproval Number × List (Approval (Object Number))))
      (w w' : World Number) (k : Call n)
      → ask g c tool d asked w ≡ some (running k w')
      → ⊥
  unfolding ask
  ask-stops tool d none w w' k h = cc
  ask-stops tool d (some (p, t)) w w' k h = cc

  confirm_with-runs :
      (tool : PlatformTool Number) (arguments : Object Number) (d : PolicyDecision) (m : Moment)
      (st : Option (Approval (Object Number)) × Option Note × List (Approval (Object Number)))
      (w w' : World Number) (k : Call n)
      → confirm_with g c tool arguments d m st w ≡ some (running k w')
      → (k.tool ≡ tool)
        × (k.arguments ≡ arguments)
        × (k.decision ≡ d)
        × (a : Approval (Object Number)) × (st.0 ≡ some a)
        × (k.approval ≡ some a)
        × (w'.approvals ≡ st.2)
  unfolding confirm_with
  confirm_with-runs tool arguments d m (some a, why, after) w w' k h =
      let e : k ≡ record { tool = tool; arguments = arguments; approval = some a; decision = d } =
        cc in
      let f : w' ≡ record w { approvals = after } = cc in
      (
        ap (λ (x : Call n). x.tool) e,
        ap (λ (x : Call n). x.arguments) e,
        ap (λ (x : Call n). x.decision) e,
        a,
        refl,
        ap (λ (x : Call n). x.approval) e,
        ap (λ (x : World Number). x.approvals) f,
      )
  confirm_with-runs tool arguments d m (none, why, after) w w' k h =
      absurd (ask-stops tool d _ w w' k h)

  claim_usable-won :
      (m : Moment) (st : Option (Approval (Object Number)) × Option Note)
      (t : List (Approval (Object Number))) (a : Approval (Object Number))
      → (claim_usable g c m st t).0 ≡ some a
      → (b : Approval (Object Number)) × (st.0 ≡ some b)
        × ((claim_approval (institution_id c) b.approval_id c.who.principal_id m.claimed_at t).0
            ≡ some a)
        × ((claim_usable g c m st t).2
            ≡ (claim_approval (institution_id c) b.approval_id c.who.principal_id m.claimed_at t).1)
  unfolding claim_usable
  claim_usable-won m (none, why) t a h = absurd (cc)
  claim_usable-won m (some b, why) t a h = (b, refl, h, refl)

  -- The named row as `approval_state` read it, and the claim of its id.
  claim-Confirmed :
      (m : Moment) (t t' : List (Approval (Object Number))) (k : Call n) (id : String)
      (b a : Approval (Object Number))
      → IsKeyed t
      → named c.approval_id ≡ some id
      → get_approval (institution_id c) id t ≡ some b
      → Fits k.tool k.arguments b
      → (claim_approval (institution_id c) id c.who.principal_id m.claimed_at t).0 ≡ some a
      → t' ≡ (claim_approval (institution_id c) id c.who.principal_id m.claimed_at t).1
      → k.approval ≡ some a
      → Confirmed m t k t'
  unfolding claimable
  claim-Confirmed m t t' k id b a u nm st f won after ka =
      let (can, q, row) =
        claim_won (institution_id c) id c.who.principal_id m.claimed_at t b a u st won in
      record {
        id = id;
        row = b;
        names = nm;
        stored = st;
        fits = f;
        unexpired = ground arith;
        claimed = ka ∙ ap some q;
        table = after;
        executes = rw after (row ∙ sym ka);
      }

  pub confirm_with-Confirmed :
      (tool : PlatformTool Number) (arguments : Object Number) (d : PolicyDecision) (m : Moment)
      (w w' : World Number) (k : Call n)
      → IsKeyed w.approvals
      → confirm_with g c tool arguments d m
          (claim_usable g c m (approval_state g c tool arguments m w.approvals) w.approvals)
          w
        ≡ some (running k w')
      → (k.tool ≡ tool)
        × (k.arguments ≡ arguments)
        × (k.decision ≡ d)
        × Confirmed m w.approvals k w'.approvals
  unfolding approval_state
  confirm_with-Confirmed tool arguments d m w w' k u h =
      let st = approval_state g c tool arguments m w.approvals in
      let (kt, ka, kd, a, e, ke, after) =
        confirm_with-runs tool arguments d m (claim_usable g c m st w.approvals) w w' k h in
      let (b, sb, won, t2) = claim_usable-won m st w.approvals a e in
      let (id, nm, stored, f) =
        state_of-Fits tool arguments m (named c.approval_id) w.approvals b sb in
      let i : b.approval_id ≡ id = get_approval-id (institution_id c) id w.approvals b stored in
      (
        kt,
        ka,
        kd,
        claim-Confirmed m w.approvals w'.approvals k id b a u nm stored
            (subst₂ (λ x y. Fits x y b) (sym kt) (sym ka) f) (rw i at won) (after ∙ rw i at t2) ke,
      )
