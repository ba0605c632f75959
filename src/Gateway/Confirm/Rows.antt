-- ===== src/Gateway/Confirm/Rows.antt =====
-- What deciding does to the rows of the approvals.
use guru_ji.Prelude.{
  String, ◌≡◌, refl, Bool, true, not, ◌&&◌, Option, none, some, List, arith, ◌==◌, string_eq, ltb,
  if-elim, if-cases,
}
use guru_ji.Domain.Principals.{Principal}
use guru_ji.InstitutionData.Approvals.{
  Approval, ApprovalStatus, pending, approved, rejected, expired, is_pending, get_approval,
  write_decision,
}
use guru_ji.Gateway.Invoke.{Moment}
use guru_ji.Gateway.Confirm.{Decided, decide_on, decide_found, decide}

pending-status : (s : ApprovalStatus) → is_pending s ≡ true → s ≡ pending
pending-status pending h = refl
pending-status approved h = absurd (cc)
pending-status rejected h = absurd (cc)
pending-status ApprovalStatus.executing h = absurd (cc)
pending-status ApprovalStatus.consumed h = absurd (cc)
pending-status expired h = absurd (cc)

module _ {A : Type 0} where
  -- The table after a decision: it is untouched, or one decision was written to a pending row.
  pub data Writes (institution id : String) (t : List (Approval A))
      : List (Approval A) → Type 0 where
    untouched : Writes institution id t t
    written :
        (a : Approval A)
        → get_approval institution id t ≡ some a
        → a.status ≡ pending
        → (s : ApprovalStatus) (by : String) (m : Moment)
        → Writes institution id t (write_decision institution id s by m.ended_at t).1

  abbrev Leaves : String → String → List (Approval A) → Decided A × List (Approval A) → Type 0
  Leaves institution id t r = Writes institution id t r.1

  decide_on-Writes :
      (who : Principal) (institution id : String) (approve : Bool) (m : Moment) (a : Approval A)
      (t : List (Approval A))
      → get_approval institution id t ≡ some a
      → Writes institution id t (decide_on who institution id approve m a t).1
  unfolding decide_on
  decide_on-Writes who institution id approve m a t e =
      if-elim (Leaves institution id t) (not (a.principal_id == who.principal_id)) untouched (
        if-cases (Leaves institution id t) (not (is_pending a.status)) (λ _. untouched)
          (λ q.
            let p = pending-status a.status (ground arith) in
            if-elim (Leaves institution id t) (approve && ltb a.expires_at m.checked_at)
              (written a e p expired who.principal_id m) (written a e p _ who.principal_id m)))

  found-Writes :
      (who : Principal) (institution id : String) (approve : Bool) (m : Moment)
      (o : Option (Approval A)) (t : List (Approval A))
      → get_approval institution id t ≡ o
      → Writes institution id t (decide_found who institution id approve m o t).1
  unfolding decide_found
  found-Writes who institution id approve m none t e = untouched
  found-Writes who institution id approve m (some a) t e =
      decide_on-Writes who institution id approve m a t e

  pub decide-Writes :
      (who : Principal) (institution id : String) (approve : Bool) (m : Moment)
      (t : List (Approval A))
      → Writes institution id t (decide who institution id approve m t).1
  unfolding decide
  decide-Writes who institution id approve m t = found-Writes who institution id approve m _ t refl
