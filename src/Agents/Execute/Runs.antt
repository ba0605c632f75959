-- ===== src/Agents/Execute/Runs.antt =====
-- What `execute` promises, apart from the state and the arguments: which steps have a result, in
-- which order, and where it stops.
use guru_ji.Prelude.{
  String, ◌≡◌, ◌≢◌, refl, Bool, true, false, Option, none, some, List, [], ◌∷◌, any, contains,
  string_eq, if-cases,
}
use guru_ji.Gateway.Types.{
  QueryLimits, Status, success, denied, invalid_arguments, approval_required, unknown_tool, Object,
  ToolInvocation,
}
use guru_ji.Agents.Contracts.{AgentCommand, PlanStep, StepResult}
use guru_ji.Agents.Bindings.{Resolved, value, error}
use guru_ji.Agents.Execute.{
  Tools, Visited, skipped, unresolved, ran, run_step, visit_with, visit, result_of, run_steps,
  execute, account, proceed, Rounds,
}

-- A step with a failed dependency has no result and counts as failed.
unfoldable pub is_blocked : {N : Type 0} → List String → PlanStep N → Bool
is_blocked failures s = any (contains failures) s.depends_on

-- `Runs steps failures results`, after steps whose ids are in `failures` have failed.
pub data Runs {N : Type 0} : List (PlanStep N) → List String → List (StepResult N) → Type 0 where
  done : {failures : List String} → Runs [] failures []
  skips :
      {s : PlanStep N} {steps : List (PlanStep N)} {failures : List String}
      {results : List (StepResult N)}
      → is_blocked failures s ≡ true
      → Runs steps (s.step_id ∷ failures) results
      → Runs (s ∷ steps) failures results
  stops :
      {s : PlanStep N} {steps : List (PlanStep N)} {failures : List String} {r : StepResult N}
      → is_blocked failures s ≡ false
      → r.step_id ≡ s.step_id
      → r.status ≡ approval_required
      → Runs (s ∷ steps) failures (r ∷ [])
  succeeds :
      {s : PlanStep N} {steps : List (PlanStep N)} {failures : List String} {r : StepResult N}
      {results : List (StepResult N)}
      → is_blocked failures s ≡ false
      → r.step_id ≡ s.step_id
      → r.status ≡ success
      → Runs steps failures results
      → Runs (s ∷ steps) failures (r ∷ results)
  fails :
      {s : PlanStep N} {steps : List (PlanStep N)} {failures : List String} {r : StepResult N}
      {results : List (StepResult N)}
      → is_blocked failures s ≡ false
      → r.step_id ≡ s.step_id
      → r.status ≢ success
      → r.status ≢ approval_required
      → Runs steps (s.step_id ∷ failures) results
      → Runs (s ∷ steps) failures (r ∷ results)

module _ {N W : Type 0} (t : Tools N W) (c : AgentCommand) (limits : QueryLimits) where
  -- What a visit shows of its step.
  unfoldable IsVisit : PlanStep N → List String → Visited t c limits → Type 0
  IsVisit s failures skipped = is_blocked failures s ≡ true
  IsVisit s failures (unresolved r) =
      (is_blocked failures s ≡ false) × (r.step_id ≡ s.step_id) × (r.status ≡ Status.failed)
  IsVisit s failures (ran r w) = (is_blocked failures s ≡ false) × (r.step_id ≡ s.step_id)

  result_of-step_id :
      (s : PlanStep N) (i : Option (ToolInvocation N))
      → (result_of t c limits s i).step_id ≡ s.step_id
  result_of-step_id s none = refl
  result_of-step_id s (some i) = refl

  visit_with_lem :
      (s : PlanStep N) (failures : List String) (w : W) (o : Resolved (Object N))
      → is_blocked failures s ≡ false
      → IsVisit s failures (visit_with t c limits s w o)
  unfolding visit_with run_step IsVisit
  visit_with_lem s failures w (error e) h = (h, refl, refl)
  visit_with_lem s failures w (value arguments) h = (h, result_of-step_id s _)

  visit_lem :
      (s : PlanStep N) (completed : Object N) (failures : List String) (w : W)
      → IsVisit s failures (visit t c limits s completed failures w)
  unfolding visit IsVisit is_blocked
  visit_lem s completed failures w =
      if-cases (IsVisit s failures) (is_blocked failures s) (λ h. h) (visit_with_lem s failures w _)

  -- The rounds that remain keep what is promised.
  Promised : List (PlanStep N) → Rounds t c limits → Type 0
  Promised steps rounds =
      (completed : Object N) (failures : List String) (w : W)
      → Runs steps failures (rounds completed failures w).0

  account-Runs :
      (s : PlanStep N) (steps : List (PlanStep N)) (rounds : Rounds t c limits)
      → Promised steps rounds
      → (r : StepResult N) (k : Status) (completed : Object N) (failures : List String) (w : W)
      → r.status ≡ k
      → is_blocked failures s ≡ false
      → r.step_id ≡ s.step_id
      → Runs (s ∷ steps) failures (account t c limits s r k rounds completed failures w).0
  unfolding account Promised
  account-Runs s steps rounds p r approval_required completed failures w e b i = stops b i e
  account-Runs s steps rounds p r success completed failures w e b i =
      succeeds b i e (p _ failures w)
  account-Runs s steps rounds p r denied completed failures w e b i =
      fails b i (λ h. cc) (λ h. cc) (p completed _ w)
  account-Runs s steps rounds p r invalid_arguments completed failures w e b i =
      fails b i (λ h. cc) (λ h. cc) (p completed _ w)
  account-Runs s steps rounds p r Status.failed completed failures w e b i =
      fails b i (λ h. cc) (λ h. cc) (p completed _ w)
  account-Runs s steps rounds p r unknown_tool completed failures w e b i =
      fails b i (λ h. cc) (λ h. cc) (p completed _ w)

  proceed-Runs :
      (s : PlanStep N) (steps : List (PlanStep N)) (rounds : Rounds t c limits)
      → Promised steps rounds
      → (v : Visited t c limits) (completed : Object N) (failures : List String) (w : W)
      → IsVisit s failures v
      → Runs (s ∷ steps) failures (proceed t c limits s v rounds completed failures w).0
  unfolding proceed IsVisit Promised
  proceed-Runs s steps rounds p skipped completed failures w h = skips h (p completed _ w)
  proceed-Runs s steps rounds p (unresolved r) completed failures w (b, i, e) =
      fails b i (λ h. cc) (λ h. cc) (p completed _ w)
  proceed-Runs s steps rounds p (ran r after) completed failures w (b, i) =
      account-Runs s steps rounds p r r.status completed failures after refl b i

  run_steps-Runs : (steps : List (PlanStep N)) → Promised steps (run_steps t c limits steps)
  unfolding run_steps Promised
  run_steps-Runs [] completed failures w = done
  run_steps-Runs (s ∷ steps) completed failures w =
      proceed-Runs s steps (run_steps t c limits steps) (run_steps-Runs steps)
        (visit t c limits s completed failures w) completed failures w
        (visit_lem s completed failures w)

-- The results of a plan are those of the specification: a step has a result exactly when none of
-- its dependencies has failed before, in the order of the plan, and the first confirmation asked
-- for ends the run.
pub execute-Runs :
    {N W : Type 0} (t : Tools N W) (c : AgentCommand) (limits : QueryLimits)
    (steps : List (PlanStep N)) (completed : Object N) (w : W)
    → Runs steps [] (execute t c limits steps completed w).0
unfolding execute Promised
execute-Runs t c limits steps completed w = run_steps-Runs t c limits steps completed [] w
