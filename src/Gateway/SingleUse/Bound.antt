-- ===== src/Gateway/SingleUse/Bound.antt =====
-- Of the calls that hold one confirmation, at most one runs or succeeds.
use mathlib.Core.Option
use mathlib.Core.Path.{subst, subst₂}
use guru_ji.Prelude.{
  ℕ, suc, ◌+◌, ◌≤◌, String, ◌≡◌, ◌≢◌, refl, sym, ◌∙◌, ◌⊎◌, inl, inr, Bool, true, false, Option,
  none, some, List, ◌∷◌, arith, if◌then◌else◌, if-elim, string_eq, Bool-cases,
}
use guru_ji.InstitutionData.Approvals.{
  Approval, ApprovalStatus, approved, consumed, claim_row, get_approval, decide_row, write_decision,
  IsKeyed,
}
use guru_ji.InstitutionData.Approvals.Laws.{
  key-cases, claim_approval-IsKeyed, claim_approval_other, write_decision_lem, write_decision_other,
  write_decision-IsKeyed,
}
use guru_ji.Gateway.Spec.{Numbers}
use guru_ji.Gateway.Types.{
  ToolCallContext, institution_id, Object, HandlerOutcome, returned, bare, World,
}
use guru_ji.Gateway.Invoke.{Moment, Gateway, Call, running, audit}
use guru_ji.Gateway.Invoke.Begin.{begin, is_high_risk}
use guru_ji.Gateway.Invoke.Finish.{finish, succeed, fall_short, settle, trace}
use guru_ji.Gateway.Invoke.Guards.{Confirmed, get_approval-id}
use guru_ji.Gateway.Invoke.Cleared.{begin-IsCleared}
use guru_ji.Gateway.Invoke.Rows.{begin-Extends}
use guru_ji.Gateway.Confirm.Rows.{decide-Writes}
use guru_ji.Gateway.SingleUse.{
  tally, Removes, is_success, System, holds_key, uses, Step, begins, returns, ends, decides,
  resumes, elsewhere, Steps, stays, then_step, idle,
}
use guru_ji.Gateway.SingleUse.Fit.{
  tally-Removes, state_of, Fit, Fit-idle, Fit-unused, Fit-active, Fit-bound, status_at, other_key,
  same_key, unused-approved, Extends-fits, Writes-IsKeyed, set_approval_resume-status,
  set_approval_resume-IsKeyed, Writes-fits,
}

tally-if {ℓ} :
    {A : Type ℓ} (b : Bool) (p : A → Bool) (x : A) (xs : List A)
    → (if b then (if p x then suc (tally p xs) else tally p xs) else tally p xs)
      ≡ tally p (if b then x ∷ xs else xs)
tally-if true p x xs = refl
tally-if false p x xs = refl

-- A running handler's row is consumed, or approved again.
ended-Fit :
    {A : Type 0} (o : Option (Approval A)) (b : Bool) (by : String) (now a d : ℕ)
    → Fit (state_of o) (suc a) d
    → Fit
        (state_of (Option.map (decide_row (if b then consumed else approved) by now) o))
        a
        (if b then suc d else d)
ended-Fit none b by now a d f = absurd (omega (arith, f.0))
ended-Fit (some r) true by now a d f =
    let (a0, d0) = Fit-active (some r.status) a d f in (a0, omega (arith, d0))
ended-Fit (some r) false by now a d f = Fit-active (some r.status) a d f

module _ {n : Numbers} where
  open n use {Number}

  -- Every confirmation's status agrees with the handlers that run or ran on it.
  record IsSound (s : System n) : Type 0 where
    keyed : IsKeyed s.world.approvals
    fits :
        (i id : String)
        → Fit
            (status_at i id s.world.approvals)
            (tally (uses n i id) s.active)
            (tally (uses n i id) s.completed)

  Confirmed-fits :
      (g : Gateway n) (c : ToolCallContext) (m : Moment) (t t' : List (Approval (Object Number)))
      (k : Call n) (i id : String) (a d : ℕ)
      → Confirmed g c m t k t'
      → Fit (status_at i id t) a d
      → Fit (status_at i id t') (if holds_key i id c k.approval then suc a else a) d
  Confirmed-fits g c m t t' k i id a d f x =
      let same : f.row.approval_id ≡ f.id =
        get_approval-id (institution_id c) f.id t f.row f.stored in
      elim (key-cases (institution_id c) i f.row.approval_id id) [
        | inr o ↦
            let o' = subst (λ x. (institution_id c ≢ i) ⊎ (x ≢ id)) same o in
            let q : get_approval i id t' ≡ get_approval i id t = rw f.table (
              claim_approval_other (institution_id c) f.id c.who.principal_id m.claimed_at t i id
                o') in
            rw (f.claimed, other_key i id c (claim_row c.who.principal_id m.claimed_at f.row) o, q)
              x
        | inl (p, q) ↦
            let q' : f.id ≡ id = sym same ∙ q in
            let st : get_approval i id t ≡ some f.row =
              subst₂ (λ x y. get_approval x y t ≡ some f.row) p q' f.stored in
            let (a0, d0) =
              Fit-unused (some f.row.status) a d (unused-approved f.row.status f.fits.is_confirmed)
                (rw st at x) in
            let e : get_approval i id t' ≡ k.approval =
              subst₂ (λ x y. get_approval x y t' ≡ k.approval) p q' f.executes in
            rw
              (
                e,
                f.claimed,
                same_key i id c (claim_row c.who.principal_id m.claimed_at f.row) p q,
                a0,
                d0,
              )
              (omega arith, refl)
      ]

  -- The end of a handler consumes its confirmation on success, and gives it back otherwise.
  pub finish-settles :
      (g : Gateway n) (c : ToolCallContext) (k : Call n) (o : HandlerOutcome Number) (m : Moment)
      (w : World Number)
      → let (i, w') = finish g c k o m w in
        w'.approvals
        ≡ (settle g c k.approval (if is_success i.status then consumed else approved) m w).approvals
  unfolding finish succeed fall_short audit trace
  finish-settles g c k (returned t) m w = refl
  finish-settles g c k (bare v) m w = refl
  finish-settles g c k (HandlerOutcome.permission_error e) m w = refl
  finish-settles g c k (HandlerOutcome.value_error e) m w = refl
  finish-settles g c k HandlerOutcome.other_exception m w = refl

  -- A running handler ended on `r`, with success or not.
  settle-fits :
      (g : Gateway n) (c : ToolCallContext) (r : Option (Approval (Object Number))) (b : Bool)
      (m : Moment) (w : World Number) (i id : String) (a d : ℕ)
      → Fit (status_at i id w.approvals) (if holds_key i id c r then suc a else a) d
      → Fit
          (status_at i id (settle g c r (if b then consumed else approved) m w).approvals)
          a
          (if b then (if holds_key i id c r then suc d else d) else d)
  unfolding settle
  settle-fits g c none true m w i id a d f = f
  settle-fits g c none false m w i id a d f = f
  settle-fits g c (some r) b m w i id a d f =
      elim (key-cases (institution_id c) i r.approval_id id) [
        | inr o ↦
            let e = other_key i id c r o in
            let q =
              write_decision_other (institution_id c) r.approval_id
                (if b then consumed else approved) c.who.principal_id m.ended_at w.approvals i id
                o in
            let f' : Fit (status_at i id w.approvals) a d = rw e at f in
            rw (e, q) (if-elim (Fit (status_at i id w.approvals) a) b f' f')
        | inl (x, y) ↦
            let e = same_key i id c r x y in
            let f' : Fit (status_at i id w.approvals) (suc a) d = rw e at f in
            let q =
              write_decision_lem (institution_id c) r.approval_id (if b then consumed else approved)
                c.who.principal_id m.ended_at w.approvals in
            let q' =
              subst₂
                (λ u v.
                  get_approval u v
                    (write_decision (institution_id c) r.approval_id
                      (if b then consumed else approved) c.who.principal_id m.ended_at
                      w.approvals).1
                  ≡ Option.map
                      (decide_row (if b then consumed else approved) c.who.principal_id m.ended_at)
                      (get_approval u v w.approvals))
                x y q in
            rw (e, q')
              (ended-Fit (get_approval i id w.approvals) b c.who.principal_id m.ended_at a d f')
      ]

  settle-IsKeyed :
      (g : Gateway n) (c : ToolCallContext) (r : Option (Approval (Object Number)))
      (s : ApprovalStatus) (m : Moment) (w : World Number)
      → IsKeyed w.approvals
      → IsKeyed (settle g c r s m w).approvals
  unfolding settle
  settle-IsKeyed g c none s m w k = k
  settle-IsKeyed g c (some r) s m w k =
      write_decision-IsKeyed (institution_id c) r.approval_id s c.who.principal_id m.ended_at
        w.approvals k

  begins-IsSound :
      (g : Gateway n) (c : ToolCallContext) (name : String) (v : Object Number) (m : Moment)
      (w w' : World Number) (active completed : List (ToolCallContext × Call n)) (k : Call n)
      → begin g c name v m w ≡ some (running k w')
      → IsSound (record { world = w; active = active; completed = completed })
      → IsSound (record { world = w'; active = (c, k) ∷ active; completed = completed })
  begins-IsSound g c name v m w w' active completed k h s =
      let cleared = begin-IsCleared g c name v m w w' k s.keyed h in
      elim (Bool-cases (is_high_risk k.tool.risk)) [
        | inl e ↦
            let f = cleared.holds.0 e in
            record {
              keyed = rw f.table (
                  claim_approval-IsKeyed (institution_id c) f.id c.who.principal_id m.claimed_at
                    w.approvals s.keyed);
              fits =
                  λ i id. Confirmed-fits g c m w.approvals w'.approvals k i id _ _ f (s.fits i id);
            }
        | inr e ↦
            let (none_held, same) = cleared.holds.1 e in
            record {
              keyed = subst (λ (x : World Number). IsKeyed x.approvals) (sym same) s.keyed;
              fits = λ i id. rw none_held (
                  subst
                    (λ (x : World Number).
                      Fit (status_at i id x.approvals) (tally (uses n i id) active)
                        (tally (uses n i id) completed))
                    (sym same) (s.fits i id));
            }
      ]

  ends-IsSound :
      (g : Gateway n) (c : ToolCallContext) (k : Call n) (o : HandlerOutcome Number) (m : Moment)
      (w : World Number) (active after completed : List (ToolCallContext × Call n))
      → Removes (c, k) active after
      → IsSound (record { world = w; active = active; completed = completed })
      → let (i, w') = finish g c k o m w in
        IsSound (record {
          world = w';
          active = after;
          completed = if is_success i.status then (c, k) ∷ completed else completed;
        })
  ends-IsSound g c k o m w active after completed r s =
      let b = is_success (finish g c k o m w).0.status in
      let e = finish-settles g c k o m w in
      record {
        keyed =
            subst IsKeyed (sym e)
              (settle-IsKeyed g c k.approval (if b then consumed else approved) m w s.keyed);
        fits = λ i id.
            let f =
              settle-fits g c k.approval b m w i id (tally (uses n i id) after)
                (tally (uses n i id) completed)
                (subst (λ x. Fit (status_at i id w.approvals) x (tally (uses n i id) completed))
                  (tally-Removes (uses n i id) (c, k) r) (s.fits i id)) in
            subst₂ (λ t x. Fit (status_at i id t) (tally (uses n i id) after) x) (sym e)
              (tally-if b (uses n i id) (c, k) completed) f;
      }

  Step-IsSound : (g : Gateway n) (s t : System n) → Step n g s t → IsSound s → IsSound t
  Step-IsSound g s t (begins c name v m w w' active completed k h) x =
      begins-IsSound g c name v m w w' active completed k h x
  Step-IsSound g s t (returns c name v m w w' active completed i h) x =
      let e = begin-Extends g c name v m w w' i x.keyed h in
      record {
        keyed = e.keyed;
        fits = λ j id. Extends-fits w.approvals w'.approvals j id _ _ e (x.fits j id);
      }
  Step-IsSound g s t (ends c k o m w active after completed r) x =
      ends-IsSound g c k o m w active after completed r x
  Step-IsSound g s t (decides who inst jd approve m w active completed) x =
      let d = decide-Writes who inst jd approve m w.approvals in
      record {
        keyed = Writes-IsKeyed inst jd _ _ d x.keyed;
        fits = λ i id. Writes-fits inst jd i id _ _ _ _ d (x.fits i id);
      }
  Step-IsSound g s t (resumes inst jd by kept w active completed) x = record {
    keyed = set_approval_resume-IsKeyed inst jd by kept w.approvals x.keyed;
    fits = λ i id. rw (set_approval_resume-status inst jd by kept w.approvals i id) (x.fits i id);
  }
  Step-IsSound g s t (elsewhere w w' active completed e) x = record {
    keyed = subst IsKeyed (sym e) x.keyed;
    fits = λ i id.
        subst
          (λ t. Fit (status_at i id t) (tally (uses n i id) active) (tally (uses n i id) completed))
          (sym e) (x.fits i id);
  }

  Steps-IsSound : (g : Gateway n) (s t : System n) → Steps n g s t → IsSound s → IsSound t
  Steps-IsSound g s t stays x = x
  Steps-IsSound g s t (then_step {t = u} r h) x = Step-IsSound g u t h (Steps-IsSound g s u r x)

  -- From a state in which no call runs, with any approvals under their primary key, whatever calls,
  -- decisions and ends of handlers interleave: of the calls that hold one confirmation at most one
  -- is running or has succeeded.
  pub single_use :
      (g : Gateway n) (w : World Number) (s : System n) (institution id : String)
      → IsKeyed w.approvals
      → Steps n g (idle n w) s
      → tally (uses n institution id) s.active + tally (uses n institution id) s.completed ≤ 1
  single_use g w s institution id k h =
      let x = Steps-IsSound g (idle n w) s h (record { keyed = k; fits = λ i jd. Fit-idle _ }) in
      Fit-bound _ _ _ (x.fits institution id)
