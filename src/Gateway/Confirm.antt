-- ===== src/Gateway/Confirm.antt =====
-- `ToolGateway.decide_approval` of gateway.py: the answer of a user to a request for confirmation.
pub mod Rows
use guru_ji.Prelude.{
  String, Bool, not, ◌&&◌, Option, none, some, List, if◌then◌else◌, ◌==◌, string_eq, ltb,
}
use guru_ji.Domain.Principals.{Principal}
use guru_ji.InstitutionData.Approvals.{
  Approval, ApprovalStatus, approved, rejected, expired, is_pending, get_approval, write_decision,
}
use guru_ji.Gateway.Invoke.{Moment}

-- KeyError, PermissionError, and the ValueErrors on a decided and on a lapsed request.
pub data DecideError : Type 0 where
  not_found other_user lapsed : DecideError
  already : ApprovalStatus → DecideError

pub data Decided (A : Type 0) : Type 0 where
  decided : Approval A → Decided A
  refused : DecideError → Decided A

module _ {A : Type 0} where
  -- `decided or record`
  abbrev pub row_or : Approval A → Option (Approval A) → Approval A
  row_or a none = a
  row_or a (some b) = b

  unfoldable pub decide_on :
      Principal
      → String
      → String
      → Bool
      → Moment
      → Approval A
      → List (Approval A)
      → Decided A × List (Approval A)
  decide_on who institution id approve m a t =
      if not (a.principal_id == who.principal_id)
      then (refused other_user, t)
      else if not (is_pending a.status)
      then (refused (already a.status), t)
      else if approve && ltb a.expires_at m.checked_at
      then (refused lapsed, (write_decision institution id expired who.principal_id m.ended_at t).1)
      else (let (row, after) =
            write_decision institution id (if approve then approved else rejected) who.principal_id
              m.ended_at t in
          (decided (row_or a row), after))

  unfoldable pub decide_found :
      Principal
      → String
      → String
      → Bool
      → Moment
      → Option (Approval A)
      → List (Approval A)
      → Decided A × List (Approval A)
  unfolding decide_on
  decide_found who institution id approve m none t = (refused not_found, t)
  decide_found who institution id approve m (some a) t = decide_on who institution id approve m a t

  unfoldable pub decide :
      Principal
      → String
      → String
      → Bool
      → Moment
      → List (Approval A)
      → Decided A × List (Approval A)
  unfolding decide_found
  decide who institution id approve m t =
      decide_found who institution id approve m (get_approval institution id t) t
