-- ===== src/Orchestration/Executor/Kept.antt =====
-- What an execution reaches and what an aggregate keeps.
use guru_ji.Prelude.{
  String, ◌≡◌, ◌↔◌, refl, sym, ap, ◌∙◌, true, false, not, ◌&&◌, ◌||◌, Option, none, some, List, [],
  ◌∷◌, ◌++◌, length, suc, if◌then◌else◌, if-cases, ◌==◌, string_eq, eq_iff, arith, All, map,
  Bool-cases, inl, inr,
}
use mathlib.Core.Path.{subst}
use mathlib.Core.List.{append_assoc, append-nil}
use guru_ji.Domain.Text.{is_blank}
use guru_ji.Policy.Authorization.{authorize}
use guru_ji.Policy.Pdp.{PolicyDecision, Request, evaluate, is_allowed_action}
use guru_ji.Policy.Pdp.Agrees.{evaluate-authorize}
use guru_ji.Orchestration.Registries.{ToolDefinition, get_tool}
use guru_ji.Orchestration.Planner.{PlannedTool}
use guru_ji.Orchestration.Executor.{
  ResultStatus, success, partial, stale, unauthorized, unavailable, timeout, invalid_result,
  is_success, ToolResult, Warning, Execution, Executed, Aggregate, unauthorised, request_of,
  run_decided, run_with, go_on, run_step, execute_plan, before, put, get_data, aggregate_from,
  aggregate,
}

module _ {E P W : Type 0} (x : Execution E P W) where
  -- The caller may not use the tool of a step, which names its source.
  abbrev pub IsDenied : PlannedTool → Type 0
  IsDenied s =
      (is_blank s.source_id ≡ false)
      × (t : ToolDefinition) × (get_tool x.tools s.name ≡ some t)
      × ((authorize x.who t.required_capability x.scope).allowed ≡ false)

  abbrev pub IsLocal : Type 0
  IsLocal = (q : Request) → (hex : String) × (x.decide q ≡ evaluate q hex)

  -- A result without data, and the decision that denied it.
  abbrev pub AllDenied : List PlannedTool → W → Option (Executed E P W) → Type 0
  AllDenied plan w o =
      (e : Executed E P W) × (o ≡ some e)
      × (e.state ≡ w)
      × (e.results ≡ map (unauthorised x) plan)
      × (length e.decision_log ≡ length plan)
      × All (λ d. d.allowed ≡ false) e.decision_log

  denied_step :
      (s : PlannedTool) (t : ToolDefinition)
      → IsLocal
      → is_blank s.source_id ≡ false
      → (authorize x.who t.required_capability x.scope).allowed ≡ false
      → (d : PolicyDecision) × (x.decide (request_of x s t) ≡ some d) × (d.allowed ≡ false)
  unfolding is_allowed_action is_blank
  denied_step s t local n h =
      let q = request_of x s t in
      let (hex, e) = local q in
      let (d, f, a, r) = (evaluate-authorize q hex refl).1 n in (d, e ∙ f, a ∙ h)

  run_with-denied :
      (s : PlannedTool) (d : PolicyDecision) (w : W) (rest : W → Option (Executed E P W))
      → d.allowed ≡ false
      → run_with x s (some d) w rest ≡ before x (unauthorised x s) d (rest w)
  unfolding run_with run_decided go_on
  run_with-denied s d w rest h = rw h refl

  -- With the local decision point, a caller who may use none of the tools of a plan, whose steps
  -- name their sources, reaches no connector: the sources stay as they are, each step has an
  -- unauthorised result without data, and the log holds one denying decision for each step.
  pub execute_plan-AllDenied :
      (plan : List PlannedTool) (w : W)
      → IsLocal
      → All IsDenied plan
      → AllDenied plan w (execute_plan x plan w)
  unfolding execute_plan run_step
  execute_plan-AllDenied [] w local h = (_, refl, refl, refl, refl, tt)
  execute_plan-AllDenied (s ∷ plan) w local ((n, t, e, a), h) =
      let (d, f, g) = denied_step s t local n a in
      let (rest, q, kept, same, count, denials) = execute_plan-AllDenied plan w local h in
      (
        record {
          results = unauthorised x s ∷ rest.results;
          decision_log = d ∷ rest.decision_log;
          state = rest.state;
        },
        ap (λ o. run_step x s o w (execute_plan x plan)) e
            ∙ ap (λ o. run_with x s o w (execute_plan x plan)) f
            ∙ run_with-denied s d w (execute_plan x plan) g
            ∙ ap (before x (unauthorised x s) d) q,
        kept,
        ap (λ rs. unauthorised x s ∷ rs) same,
        ap suc count,
        (g, denials),
      )

apart : (i j k : String) → (i == j) ≡ true → (i == k) ≡ (j == k)
apart i j k h = ap (λ t. t == k) ((eq_iff i j).0 h)

-- Two different texts are not both a third one.
clash : (i j k : String) → (i == j) ≡ false → ((i == k) && (j == k)) ≡ false
clash i j k h = elim (Bool-cases (i == k)) [
  | inl e ↦
      let q : (j == k) ≡ false =
        subst (λ t. (j == t) ≡ false) ((eq_iff i k).0 e)
          (ground (arith, h, eq_iff i j, eq_iff j i)) in
      ground (arith, q)
  | inr e ↦ ground (arith, e)
]

success_iff : (s : ResultStatus) → (is_success s ≡ true) ↔ (s ≡ success)
success_iff success = ground arith
success_iff partial = ground arith
success_iff stale = ground arith
success_iff unauthorized = ground arith
success_iff unavailable = ground arith
success_iff timeout = ground arith
success_iff invalid_result = ground arith

module _ {E : Type 0} where
  unfoldable Reads : String → Option E → List (String × E) → Type 0
  Reads k o d = get_data k d ≡ o

  get_data-put :
      (k j : String) (v : E) (d : List (String × E))
      → get_data k (put j v d) ≡ (if j == k then some v else get_data k d)
  unfolding get_data put Reads
  get_data-put k j v [] = refl
  get_data-put k j v ((i, u) ∷ d) =
      if-cases (Reads k (if j == k then some v else get_data k ((i, u) ∷ d))) (i == j)
        (λ e. ground (arith, e, apart i j k e))
        (λ e. ground (arith, e, clash i j k e, get_data-put k j v d))

module _ {E P : Type 0} where
  abbrev pub provenance_of : List (ToolResult E P) → List P
  provenance_of [] = []
  provenance_of (r ∷ rs) = r.provenance ++ provenance_of rs

  abbrev pub warnings_of : List (ToolResult E P) → List Warning
  warnings_of [] = []
  warnings_of (r ∷ rs) = r.warnings ++ warnings_of rs

  aggregate_from-provenance :
      (rs : List (ToolResult E P)) (a : Aggregate E P)
      → (aggregate_from a rs).provenance ≡ a.provenance ++ provenance_of rs
  unfolding aggregate_from
  aggregate_from-provenance [] a = sym (append-nil a.provenance)
  aggregate_from-provenance (r ∷ rs) a =
      aggregate_from-provenance rs _ ∙ append_assoc a.provenance r.provenance (provenance_of rs)

  aggregate_from-warnings :
      (rs : List (ToolResult E P)) (a : Aggregate E P)
      → (aggregate_from a rs).warnings ≡ a.warnings ++ warnings_of rs
  unfolding aggregate_from
  aggregate_from-warnings [] a = sym (append-nil a.warnings)
  aggregate_from-warnings (r ∷ rs) a =
      aggregate_from-warnings rs _ ∙ append_assoc a.warnings r.warnings (warnings_of rs)

  abbrev pub AllSuccess : List (ToolResult E P) → Type 0
  AllSuccess rs = All (λ r. r.status ≡ success) rs

  aggregate_from-partial :
      (rs : List (ToolResult E P)) (a : Aggregate E P)
      → ((aggregate_from a rs).is_partial ≡ false) ↔ ((a.is_partial ≡ false) × AllSuccess rs)
  unfolding aggregate_from
  aggregate_from-partial [] a = ground arith
  aggregate_from-partial (r ∷ rs) a = ground (
    arith,
    success_iff r.status,
    aggregate_from-partial rs (record {
      output = put r.tool_name r.output a.output;
      provenance = a.provenance ++ r.provenance;
      warnings = a.warnings ++ r.warnings;
      is_partial = not (is_success r.status) || a.is_partial;
    }),
  )

  -- The data of the last result of a tool, or else what is there already.
  unfoldable pub last_data : String → Option (Option E) → List (ToolResult E P) → Option (Option E)
  last_data k o [] = o
  last_data k o (r ∷ rs) = last_data k (if r.tool_name == k then some r.output else o) rs

  aggregate_from-output :
      (rs : List (ToolResult E P)) (k : String) (a : Aggregate E P)
      → get_data k (aggregate_from a rs).output ≡ last_data k (get_data k a.output) rs
  unfolding aggregate_from last_data
  aggregate_from-output [] k a = refl
  aggregate_from-output (r ∷ rs) k a =
      aggregate_from-output rs k _
      ∙ ap (λ o. last_data k o rs) (get_data-put k r.tool_name r.output a.output)

  -- An aggregate keeps the provenance and the warnings of all results, in order, and for each tool
  -- the data of its last result; it is not partial exactly when every result is a success.
  pub aggregate_lem :
      (rs : List (ToolResult E P))
      → ((aggregate rs).provenance ≡ provenance_of rs)
        × ((aggregate rs).warnings ≡ warnings_of rs)
        × ((k : String) → get_data k (aggregate rs).output ≡ last_data k none rs)
        × (((aggregate rs).is_partial ≡ false) ↔ AllSuccess rs)
  unfolding aggregate get_data
  aggregate_lem rs = (
    aggregate_from-provenance rs _,
    aggregate_from-warnings rs _,
    λ k. aggregate_from-output rs k _,
    ground (
      arith,
      aggregate_from-partial rs
          (record { output = []; provenance = []; warnings = []; is_partial = false }),
    ),
  )
