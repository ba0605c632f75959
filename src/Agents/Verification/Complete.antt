-- ===== src/Agents/Verification/Complete.antt =====
-- What the overall status of a command says of its steps.
use guru_ji.Prelude.{
  String, ◌≡◌, ◌≢◌, ◌↔◌, refl, ap, true, false, List, [], ◌∷◌, length, all, any, All, arith,
  length-map, nat_eq,
}
use guru_ji.Gateway.Types.{
  QueryLimits, Status, success, invalid_arguments, approval_required, unknown_tool, Object,
}
use guru_ji.Agents.Contracts.{AgentCommand, PlanStep, StepResult, ids, is_success}
use guru_ji.Agents.Execute.{Tools, execute}
use guru_ji.Agents.Execute.Runs.{execute-Runs}
use guru_ji.Agents.Execute.Order.{
  Sublist, empty, drops, keeps, Sublist-length, Runs-Sublist, result_ids,
}
use guru_ji.Agents.Verification.{complete, overall_status, asks}

Sublist-same : {xs ys : List String} → Sublist xs ys → length xs ≡ length ys → xs ≡ ys
Sublist-same {xs = []} {ys = []} empty h = refl
Sublist-same {xs = []} {ys = y ∷ ys} empty h = absurd (omega arith)
Sublist-same (drops p) h = absurd (omega (arith, Sublist-length p))
Sublist-same {xs = x ∷ xs} {ys = y ∷ ys} (keeps e p) h =
    rw e (ap (λ zs. y ∷ zs) (Sublist-same p (omega arith)))

success_iff : (s : Status) → (is_success s ≡ true) ↔ (s ≡ success)
success_iff success = ground arith
success_iff Status.denied = ground arith
success_iff invalid_arguments = ground arith
success_iff approval_required = ground arith
success_iff Status.failed = ground arith
success_iff unknown_tool = ground arith

module _ {N : Type 0} where
  abbrev pub AllSucceeded : List (StepResult N) → Type 0
  AllSucceeded rs = All (λ r. r.status ≡ success) rs

  all-success_iff :
      (rs : List (StepResult N)) → (all (λ r. is_success r.status) rs ≡ true) ↔ AllSucceeded rs
  all-success_iff [] = ground arith
  all-success_iff (r ∷ rs) = ground (arith, success_iff r.status, all-success_iff rs)

  all_success-asks :
      (rs : List (StepResult N)) → AllSucceeded rs → any (λ r. asks r.status) rs ≡ false
  all_success-asks [] h = refl
  all_success-asks (r ∷ rs) (e, h) = rw e (all_success-asks rs h)

  complete_lem :
      (steps : List (PlanStep N)) (rs : List (StepResult N))
      → (overall_status steps rs ≡ complete)
        ↔ ((rs ≢ []) × (length rs ≡ length steps) × AllSucceeded rs)
  unfolding overall_status
  complete_lem steps [] = ground arith
  complete_lem steps (r ∷ rs) = ground (arith, all-success_iff (r ∷ rs), all_success-asks (r ∷ rs))

  -- With a part of the steps in order, equal lengths mean every step.
  complete-every :
      (steps : List (PlanStep N)) (rs : List (StepResult N))
      → Sublist (result_ids rs) (ids steps)
      → (overall_status steps rs ≡ complete)
        ↔ ((rs ≢ []) × (result_ids rs ≡ ids steps) × AllSucceeded rs)
  complete-every steps rs p = (
    λ h.
        let (some_ran, e, ok) = (complete_lem steps rs).0 h in
        (
          some_ran,
          Sublist-same p (
              omega (
                arith,
                e,
                length-map (λ (r : StepResult N). r.step_id) rs,
                length-map (λ (s : PlanStep N). s.step_id) steps,
              )),
          ok,
        ),
    λ (some_ran, e, ok). (complete_lem steps rs).1 (
      some_ran,
      omega (
        arith,
        ap length e,
        length-map (λ (r : StepResult N). r.step_id) rs,
        length-map (λ (s : PlanStep N). s.step_id) steps,
      ),
      ok,
    ),
  )

-- A command is reported complete exactly when its plan has steps, each step of the plan has its
-- result, in order, and every result is a success.
pub complete_iff :
    {N W : Type 0} (t : Tools N W) (c : AgentCommand) (limits : QueryLimits)
    (steps : List (PlanStep N)) (completed : Object N) (w : W)
    → (overall_status steps (execute t c limits steps completed w).0 ≡ complete) ↔ (
        ((execute t c limits steps completed w).0 ≢ [])
        × (result_ids (execute t c limits steps completed w).0 ≡ ids steps)
        × AllSucceeded (execute t c limits steps completed w).0)
complete_iff t c limits steps completed w =
    complete-every steps _ (Runs-Sublist (execute-Runs t c limits steps completed w))
