-- ===== src/Agents/Resume/Resumed.antt =====
-- The plan that a confirmation resumes is one that `AgentPlan` accepts.
use guru_ji.Prelude.{
  String, ◌≡◌, refl, sym, ap, Bool, true, ◌&&◌, Option, none, some, List, [], ◌∷◌, all, select,
  contains, map, length, length-map, arith, ◌≤◌, suc, if-elim, ◌==◌, string_eq,
}
use mathlib.Core.Path.{subst}
use guru_ji.Domain.Values.{end}
use guru_ji.Gateway.Types.{Object, PlatformTool}
use guru_ji.Agents.Contracts.{PlanStep, AgentPlan, make_plan, distinct, ids}
use guru_ji.Agents.Execute.Order.{IsPlan, IsPlan-distinct, IsPlan-length, distinct_rest}
use guru_ji.Agents.Resume.{
  Kept, stop_in, run_alone, confirmed, keep_present, remaining_steps, plan_of, resume_at, resume,
  with_outputs,
}

all-select : (p : String → Bool) (xs : List String) → all p (select p xs) ≡ true
all-select p [] = refl
all-select p (x ∷ xs) = ground (arith, all-select p xs)

one-distinct : (x : String) → distinct (x ∷ []) ≡ true
unfolding distinct
one-distinct x = refl

module _ {N : Type 0} where
  ids-keep_present :
      (ps : List String) (xs : List (PlanStep N)) → ids (map (keep_present ps) xs) ≡ ids xs
  ids-keep_present ps [] = refl
  ids-keep_present ps (x ∷ xs) = ap (λ ys. x.step_id ∷ ys) (ids-keep_present ps xs)

  keep_present-known :
      (ps : List String) (xs : List (PlanStep N))
      → all (λ s. all (contains ps) s.depends_on) (map (keep_present ps) xs) ≡ true
  keep_present-known ps [] = refl
  keep_present-known ps (x ∷ xs) =
      rw (all-select (contains ps) x.depends_on) (keep_present-known ps xs)

  -- The stop and the steps after it are the end of the plan.
  unfoldable IsEnd : List (PlanStep N) → Option (PlanStep N × List (PlanStep N)) → Type 0
  IsEnd steps none = Unit
  IsEnd steps (some (s, later)) =
      (distinct (ids (s ∷ later)) ≡ true) × (suc (length later) ≤ length steps)

  longer :
      (x : PlanStep N) (steps : List (PlanStep N)) (o : Option (PlanStep N × List (PlanStep N)))
      → IsEnd steps o
      → IsEnd (x ∷ steps) o
  unfolding IsEnd
  longer x steps none h = tt
  longer x steps (some (s, later)) (u, h) = (u, omega (arith, h))

  stop_in-IsEnd :
      (id tool : String) (steps : List (PlanStep N))
      → distinct (ids steps) ≡ true
      → IsEnd steps (stop_in id tool steps)
  unfolding stop_in IsEnd
  stop_in-IsEnd id tool [] u = tt
  stop_in-IsEnd id tool (x ∷ steps) u =
      if-elim (IsEnd (x ∷ steps)) (x.step_id == id && x.tool == tool) (u, omega arith)
        (longer x steps _ (stop_in-IsEnd id tool steps (distinct_rest x.step_id (ids steps) u)))

  accepted-IsPlan :
      (p : AgentPlan N)
      → length p.steps ≤ 8
      → distinct (ids p.steps) ≡ true
      → all (λ s. all (contains (ids p.steps)) s.depends_on) p.steps ≡ true
      → IsPlan p
  unfolding make_plan
  accepted-IsPlan p a b c = ground (arith, a, b, c)

  -- What holds of a resumed plan: `AgentPlan` accepts it, and it starts with the confirmed call.
  abbrev pub IsResumed : PlatformTool N → Object N → AgentPlan N → Type 0
  IsResumed tool arguments p =
      IsPlan p
      × ((s : PlanStep N) × (later : List (PlanStep N)) × (p.steps ≡ s ∷ later)
          × (s.tool ≡ tool.name)
          × (s.arguments ≡ arguments)
          × (s.depends_on ≡ []))

  abbrev WasPlan : Option (Kept N) → Type 0
  WasPlan none = Unit
  WasPlan (some k) = IsPlan k.plan

  abbrev pub Resumes : PlatformTool N → Object N → Option (AgentPlan N × Object N) → Type 0
  Resumes tool arguments o =
      (p : AgentPlan N) × (out : Object N) × (o ≡ some (p, out)) × IsResumed tool arguments p

  alone : (tool : PlatformTool N) (arguments : Object N) → IsPlan (run_alone tool arguments)
  alone tool arguments =
      accepted-IsPlan (run_alone tool arguments) (omega arith) (one-distinct "s1") refl

  run_alone-Resumes :
      (tool : PlatformTool N) (arguments : Object N)
      → Resumes tool arguments (with_outputs end (make_plan (run_alone tool arguments)))
  run_alone-Resumes tool arguments = (
    run_alone tool arguments,
    end,
    ap (with_outputs end) (alone tool arguments),
    (alone tool arguments, (_, [], refl, refl, refl, refl)),
  )

  module _ (tool : PlatformTool N) (arguments : Object N) (k : Kept N) (s : PlanStep N)
      (later : List (PlanStep N)) (h : IsPlan k.plan) (u : distinct (ids (s ∷ later)) ≡ true)
      (few : suc (length later) ≤ length k.plan.steps) where
    abbrev present : List String
    present = ids (s ∷ later)

    abbrev resumed : AgentPlan N
    resumed = plan_of tool k.plan (map (keep_present present) (confirmed tool arguments s ∷ later))

    resumed-ids : ids resumed.steps ≡ present
    resumed-ids = ids-keep_present present (confirmed tool arguments s ∷ later)

    resumed-IsPlan : IsPlan resumed
    resumed-IsPlan =
        accepted-IsPlan resumed
          (omega (arith, few, IsPlan-length k.plan h, length-map (keep_present present) later))
          (rw resumed-ids u)
          (subst (λ ps. all (λ x. all (contains ps) x.depends_on) resumed.steps ≡ true)
            (sym resumed-ids) (keep_present-known present (confirmed tool arguments s ∷ later)))

  resume_at-Resumes :
      (tool : PlatformTool N) (arguments : Object N) (k : Kept N)
      (o : Option (PlanStep N × List (PlanStep N)))
      → IsPlan k.plan
      → IsEnd k.plan.steps o
      → Resumes tool arguments (resume_at tool arguments k o)
  unfolding resume_at remaining_steps IsEnd
  resume_at-Resumes tool arguments k none h e = run_alone-Resumes tool arguments
  resume_at-Resumes tool arguments k (some (s, later)) h (u, few) =
      let valid = resumed-IsPlan tool arguments k s later h u few in
      (_, k.completed, ap (with_outputs k.completed) valid, (valid, (_, _, refl, refl, refl, refl)))

  -- A confirmed call always resumes, when the plan kept with it was one that `AgentPlan` accepts or
  -- none was kept: the resumed plan is accepted too, so no error leaves `_resume`, and its first
  -- step is the confirmed tool with the confirmed arguments and waits for nothing.
  pub resume-Resumes :
      (tool : PlatformTool N) (arguments : Object N) (kept : Option (Kept N))
      → WasPlan kept
      → Resumes tool arguments (resume tool arguments kept)
  unfolding resume
  resume-Resumes tool arguments none h = run_alone-Resumes tool arguments
  resume-Resumes tool arguments (some k) h =
      resume_at-Resumes tool arguments k _ h
        (stop_in-IsEnd k.stopped_at tool.name k.plan.steps (IsPlan-distinct k.plan h))
