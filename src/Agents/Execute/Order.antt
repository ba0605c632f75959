-- ===== src/Agents/Execute/Order.antt =====
-- What follows for a plan whose steps have distinct ids, as `AgentPlan` demands.
use guru_ji.Prelude.{
  String, inl, inr, ◌≡◌, ◌≢◌, sym, ◌∙◌, true, some, List, [], ◌∷◌, Bool-cases, contains, ◌==◌,
  string_eq, arith, Member, here, there, any-Member, eq_iff, length, map, length-map, ◌≤◌, any-true,
}
use mathlib.Core.Path.{subst}
use guru_ji.Gateway.Types.{QueryLimits, success, approval_required, Object}
use guru_ji.Agents.Contracts.{
  AgentCommand, AgentPlan, PlanStep, StepResult, ids, distinct, make_plan,
}
use guru_ji.Agents.Execute.{Tools, execute}
use guru_ji.Agents.Execute.Runs.{
  Runs, done, skips, stops, succeeds, fails, is_blocked, execute-Runs,
}

-- `Precedes d s steps`: the step `d` stands before the step `s`.
pub data Precedes {N : Type 0} (d s : PlanStep N) : List (PlanStep N) → Type 0 where
  first : {steps : List (PlanStep N)} → Member s steps → Precedes d s (d ∷ steps)
  later :
      {x : PlanStep N} {steps : List (PlanStep N)} → Precedes d s steps → Precedes d s (x ∷ steps)

-- One list is part of another, in the same order.
pub data Sublist : List String → List String → Type 0 where
  empty : {ys : List String} → Sublist [] ys
  drops : {y : String} {xs ys : List String} → Sublist xs ys → Sublist xs (y ∷ ys)
  keeps : {x y : String} {xs ys : List String} → x ≡ y → Sublist xs ys → Sublist (x ∷ xs) (y ∷ ys)

abbrev pub result_ids : {N : Type 0} → List (StepResult N) → List String
result_ids rs = map (λ r. r.step_id) rs

pub Runs-Sublist :
    {N : Type 0} {steps : List (PlanStep N)} {f : List String} {rs : List (StepResult N)}
    → Runs steps f rs
    → Sublist (result_ids rs) (ids steps)
Runs-Sublist done = empty
Runs-Sublist (skips b h) = drops (Runs-Sublist h)
Runs-Sublist (stops b e a) = keeps e empty
Runs-Sublist (succeeds b e k h) = keeps e (Runs-Sublist h)
Runs-Sublist (fails b e k a h) = keeps e (Runs-Sublist h)

pub Sublist-length : {xs ys : List String} → Sublist xs ys → length xs ≤ length ys
Sublist-length empty = omega arith
Sublist-length (drops h) = omega (arith, Sublist-length h)
Sublist-length (keeps e h) = omega (arith, Sublist-length h)

-- A step that asks for a confirmation is the last one with a result.
pub data AsksLast {N : Type 0} : List (StepResult N) → Type 0 where
  none_left : AsksLast []
  last : {r : StepResult N} → AsksLast (r ∷ [])
  before :
      {r : StepResult N} {rs : List (StepResult N)}
      → r.status ≢ approval_required
      → AsksLast rs
      → AsksLast (r ∷ rs)

pub Runs-AsksLast :
    {N : Type 0} {steps : List (PlanStep N)} {f : List String} {rs : List (StepResult N)}
    → Runs steps f rs
    → AsksLast rs
Runs-AsksLast done = none_left
Runs-AsksLast (skips b h) = Runs-AsksLast h
Runs-AsksLast (stops b e a) = last
Runs-AsksLast (succeeds b e k h) = before (λ a. cc) (Runs-AsksLast h)
Runs-AsksLast (fails b e k a h) = before a (Runs-AsksLast h)

-- The result of a step in `steps`.
result_id :
    {N : Type 0} {steps : List (PlanStep N)} {f : List String} {rs : List (StepResult N)}
    {r : StepResult N}
    → Runs steps f rs
    → Member r rs
    → (s : PlanStep N) × Member s steps × (r.step_id ≡ s.step_id)
result_id done m = elim m [ ]
result_id (skips b h) m = let (s, i, e) = result_id h m in (s, there i, e)
result_id (stops b e a) here = (_, here, e)
result_id (stops b e a) (there m) = elim m [ ]
result_id (succeeds b e k h) here = (_, here, e)
result_id (succeeds b e k h) (there m) = let (s, i, q) = result_id h m in (s, there i, q)
result_id (fails b e k a h) here = (_, here, e)
result_id (fails b e k a h) (there m) = let (s, i, q) = result_id h m in (s, there i, q)

contains-id :
    {N : Type 0} {s : PlanStep N} {steps : List (PlanStep N)}
    → Member s steps
    → contains (ids steps) s.step_id ≡ true
contains-id {s} here = ground (arith, eq_iff s.step_id s.step_id)
contains-id (there m) = ground (arith, contains-id m)

-- The first id does not come again.
fresh_id :
    {N : Type 0} {x : String} {s : PlanStep N} {steps : List (PlanStep N)}
    → distinct (x ∷ ids steps) ≡ true
    → Member s steps
    → x ≢ s.step_id
unfolding distinct
fresh_id {x} {s} {steps} h m e =
    let q : contains (ids steps) x ≡ true = rw e (contains-id m) in ground (arith, q)

pub distinct_rest : (x : String) (xs : List String) → distinct (x ∷ xs) ≡ true → distinct xs ≡ true
unfolding distinct
distinct_rest x xs h = ground arith

blocked_still :
    {N : Type 0} (x : String) (f : List String) (s : PlanStep N)
    → is_blocked f s ≡ true
    → is_blocked (x ∷ f) s ≡ true
unfolding is_blocked
blocked_still x f s h =
    let (d, m, e) = any-true (contains f) s.depends_on h in
    any-Member (contains (x ∷ f)) s.depends_on m (ground arith)

contains-Member : (xs : List String) {x : String} → contains xs x ≡ true → Member x xs
contains-Member [] h = absurd (cc)
contains-Member (y ∷ ys) {x} h = elim (Bool-cases (y == x)) [
  | inl e ↦ let q : y ≡ x = (eq_iff y x).0 e in subst (λ z. Member x (z ∷ ys)) (sym q) here
  | inr e ↦ there (contains-Member ys (ground arith))
]

-- A step with a failed dependency has no result.
no_result :
    {N : Type 0} {steps : List (PlanStep N)} {f : List String} {rs : List (StepResult N)}
    {s : PlanStep N} {r : StepResult N}
    → Runs steps f rs
    → distinct (ids steps) ≡ true
    → Member s steps
    → is_blocked f s ≡ true
    → Member r rs
    → r.step_id ≢ s.step_id
no_result done u m b i e = elim m [ ]
no_result (skips k h) u here b i e = let (t, j, q) = result_id h i in fresh_id u j (sym e ∙ q)
no_result (skips k h) u (there m) b i e =
    no_result h (distinct_rest _ _ u) m (blocked_still _ _ _ b) i e
no_result (stops k q a) u here b i e = absurd (cc)
no_result (stops k q a) u (there m) b here e = fresh_id u m (sym q ∙ e)
no_result (stops k q a) u (there m) b (there i) e = elim i [ ]
no_result (succeeds k q a h) u here b i e = absurd (cc)
no_result (succeeds k q a h) u (there m) b here e = fresh_id u m (sym q ∙ e)
no_result (succeeds k q a h) u (there m) b (there i) e = no_result h (distinct_rest _ _ u) m b i e
no_result (fails k q a o h) u here b i e = absurd (cc)
no_result (fails k q a o h) u (there m) b here e = fresh_id u m (sym q ∙ e)
no_result (fails k q a o h) u (there m) b (there i) e =
    no_result h (distinct_rest _ _ u) m (blocked_still _ _ _ b) i e

-- A successful result of the step with this id.
abbrev pub Succeeded : {N : Type 0} → String → List (StepResult N) → Type 0
Succeeded {N} d rs = (q : StepResult N) × Member q rs × (q.step_id ≡ d) × (q.status ≡ success)

Succeeded-later :
    {N : Type 0} {d : String} {x : StepResult N} {rs : List (StepResult N)}
    → Succeeded d rs
    → Succeeded d (x ∷ rs)
Succeeded-later (q, m, e, k) = (q, there m, e, k)

blocked_by :
    {N : Type 0} (d : String) (f : List String) (s : PlanStep N)
    → contains s.depends_on d ≡ true
    → is_blocked (d ∷ f) s ≡ true
unfolding is_blocked
blocked_by d f s h =
    any-Member (contains (d ∷ f)) s.depends_on (contains-Member s.depends_on h)
      (ground (arith, eq_iff d d))

Precedes-Member :
    {N : Type 0} {d s : PlanStep N} {steps : List (PlanStep N)}
    → Precedes d s steps
    → Member s steps
Precedes-Member (first m) = there m
Precedes-Member (later p) = there (Precedes-Member p)

Runs-Succeeded :
    {N : Type 0} {steps : List (PlanStep N)} {f : List String} {rs : List (StepResult N)}
    {d s : PlanStep N} {r : StepResult N}
    → Runs steps f rs
    → distinct (ids steps) ≡ true
    → Precedes d s steps
    → contains s.depends_on d.step_id ≡ true
    → Member r rs
    → r.step_id ≡ s.step_id
    → Succeeded d.step_id rs
Runs-Succeeded done u p c i e = elim p [ ]
Runs-Succeeded (skips k h) u (first m) c i e =
    absurd (no_result h (distinct_rest _ _ u) m (blocked_by _ _ _ c) i e)
Runs-Succeeded (skips k h) u (later p) c i e = Runs-Succeeded h (distinct_rest _ _ u) p c i e
Runs-Succeeded (stops k q a) u (first m) c here e = absurd (fresh_id u m (sym q ∙ e))
Runs-Succeeded (stops k q a) u (later p) c here e =
    absurd (fresh_id u (Precedes-Member p) (sym q ∙ e))
Runs-Succeeded (stops k q a) u p c (there i) e = elim i [ ]
Runs-Succeeded (succeeds k q a h) u (first m) c i e = (_, here, q, a)
Runs-Succeeded (succeeds k q a h) u (later p) c here e =
    absurd (fresh_id u (Precedes-Member p) (sym q ∙ e))
Runs-Succeeded (succeeds k q a h) u (later p) c (there i) e =
    Succeeded-later (Runs-Succeeded h (distinct_rest _ _ u) p c i e)
Runs-Succeeded (fails k q a o h) u (first m) c here e = absurd (fresh_id u m (sym q ∙ e))
Runs-Succeeded (fails k q a o h) u (first m) c (there i) e =
    absurd (no_result h (distinct_rest _ _ u) m (blocked_by _ _ _ c) i e)
Runs-Succeeded (fails k q a o h) u (later p) c here e =
    absurd (fresh_id u (Precedes-Member p) (sym q ∙ e))
Runs-Succeeded (fails k q a o h) u (later p) c (there i) e =
    Succeeded-later (Runs-Succeeded h (distinct_rest _ _ u) p c i e)

abbrev pub IsPlan : {N : Type 0} → AgentPlan N → Type 0
IsPlan p = make_plan p ≡ some p

pub IsPlan-distinct : {N : Type 0} (p : AgentPlan N) → IsPlan p → distinct (ids p.steps) ≡ true
unfolding make_plan
IsPlan-distinct p h = ground arith

pub IsPlan-length : {N : Type 0} (p : AgentPlan N) → IsPlan p → length p.steps ≤ 8
unfolding make_plan
IsPlan-length p h = ground arith

module _ {N W : Type 0} (t : Tools N W) (c : AgentCommand) (limits : QueryLimits) (p : AgentPlan N)
    (completed : Object N) (w : W) where
  abbrev results : List (StepResult N)
  results = (execute t c limits p.steps completed w).0

  -- In a plan that `AgentPlan` accepts, a step that has a result has a dependency that stands before
  -- it only if that dependency has a successful result: nothing runs on a step that failed, asked
  -- for a confirmation, or was itself left out.
  pub execute-Succeeded :
      (d s : PlanStep N) (r : StepResult N)
      → IsPlan p
      → Precedes d s p.steps
      → contains s.depends_on d.step_id ≡ true
      → Member r results
      → r.step_id ≡ s.step_id
      → Succeeded d.step_id results
  execute-Succeeded d s r h b c' m e =
      Runs-Succeeded (execute-Runs t c limits p.steps completed w) (IsPlan-distinct p h) b c' m e

  -- A plan that `AgentPlan` accepts gives at most eight results, in the order of its steps and at
  -- most one for each, and only the last of them can ask for a confirmation.
  pub execute-in_order :
      IsPlan p
      → Sublist (result_ids results) (ids p.steps) × (length results ≤ 8) × AsksLast results
  execute-in_order h =
      let run = execute-Runs t c limits p.steps completed w in
      let part = Runs-Sublist run in (part, few, Runs-AsksLast run)
    where
      few : length results ≤ 8
      few = omega (
        arith,
        Sublist-length (Runs-Sublist (execute-Runs t c limits p.steps completed w)),
        length-map (λ (r : StepResult N). r.step_id) results,
        length-map (λ (s : PlanStep N). s.step_id) p.steps,
        IsPlan-length p h,
      )
