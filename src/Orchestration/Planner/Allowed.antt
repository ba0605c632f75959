-- ===== src/Orchestration/Planner/Allowed.antt =====
-- The steps of a tool plan.
use guru_ji.Prelude.{
  String, ◌≡◌, refl, true, false, not, ◌&&◌, Option, none, some, List, [], ◌∷◌, ◌++◌, All, arith,
  if-cases, ◌==◌, string_eq, eq_iff, ltb, length, ◌≤◌, contains,
}
use mathlib.Core.Path.{subst}
use guru_ji.Domain.Principals.{InstitutionScope}
use guru_ji.Domain.Requests.{ChatRequest}
use guru_ji.Orchestration.Registries.{
  SourceDefinition, SourceRegistry, ToolDefinition, ToolRegistry, get_source, get_tool,
  allows_source, is_active,
}
use guru_ji.Orchestration.Planner.{
  PlannedTool, Planned, planned, raised, PlanError, is_given, check_tool, check_named, first_of,
  plan_tools, check_source, plan_source, all_of, plan_sources, bounded, plan_candidates,
  candidate_ids, classify_prompt, build_tool_plan,
}

module _ (tools : ToolRegistry) (sources : SourceRegistry) (scope : InstitutionScope) where
  -- A step that the registries and the scope allow.
  pub record IsAllowed (p : PlannedTool) : Type 0 where
    pub source : SourceDefinition
    pub tool : ToolDefinition
    pub registered : get_source sources p.source_id ≡ some source
    pub is_tool : get_tool tools p.name ≡ some tool
    pub is_running : is_active source.status ≡ true
    pub institution : source.institution_id ≡ scope.college_id
    pub approved : allows_source tool p.source_id ≡ true
    pub exposed : contains source.allowed_tools p.name ≡ true
    pub department : (is_given scope.department_id && not tool.supports_department_scope) ≡ false
    pub batch : (is_given scope.batch_id && not tool.supports_batch_scope) ≡ false

  unfoldable StepAllowed : Planned PlannedTool → Type 0
  StepAllowed (planned p) = IsAllowed p
  StepAllowed (raised e) = Unit

  unfoldable PlanAllowed : Planned (List PlannedTool) → Type 0
  PlanAllowed (planned ps) = All IsAllowed ps
  PlanAllowed (raised e) = Unit

  StepAllowed-raised : (e : PlanError) → StepAllowed (raised e)
  unfolding StepAllowed
  StepAllowed-raised e = tt

  StepAllowed-planned : {p : PlannedTool} → IsAllowed p → StepAllowed (planned p)
  unfolding StepAllowed
  StepAllowed-planned h = h

  PlanAllowed-raised : (e : PlanError) → PlanAllowed (raised e)
  unfolding PlanAllowed
  PlanAllowed-raised e = tt

  check_tool-StepAllowed :
      (d : SourceDefinition) (id : String) (t : ToolDefinition) (name : String)
      → get_source sources id ≡ some d
      → get_tool tools name ≡ some t
      → is_active d.status ≡ true
      → d.institution_id ≡ scope.college_id
      → StepAllowed (check_tool scope d id t name)
  unfolding check_tool
  check_tool-StepAllowed d id t name s n a i =
      if-cases StepAllowed (is_given scope.department_id && not t.supports_department_scope)
        (λ h. StepAllowed-raised _)
        λ dept.
          if-cases StepAllowed (is_given scope.batch_id && not t.supports_batch_scope)
            (λ h. StepAllowed-raised _)
            λ batch.
              if-cases StepAllowed (not (allows_source t id)) (λ h. StepAllowed-raised _)
                λ ok.
                  if-cases StepAllowed (not (contains d.allowed_tools name))
                    (λ h. StepAllowed-raised _)
                    λ open_to. StepAllowed-planned (record {
                      source = d;
                      tool = t;
                      registered = s;
                      is_tool = n;
                      is_running = a;
                      institution = i;
                      approved = ground (arith, ok);
                      exposed = ground (arith, open_to);
                      department = dept;
                      batch = batch;
                    })

  check_named-StepAllowed :
      (d : SourceDefinition) (id name : String) (t : Option ToolDefinition)
      → get_source sources id ≡ some d
      → get_tool tools name ≡ t
      → is_active d.status ≡ true
      → d.institution_id ≡ scope.college_id
      → StepAllowed (check_named scope d id name t)
  unfolding check_named
  check_named-StepAllowed d id name none s n a i = StepAllowed-raised _
  check_named-StepAllowed d id name (some t) s n a i = check_tool-StepAllowed d id t name s n a i

  first_of-PlanAllowed :
      (p : Planned PlannedTool) (ps : Planned (List PlannedTool))
      → StepAllowed p
      → PlanAllowed ps
      → PlanAllowed (first_of scope p ps)
  unfolding StepAllowed PlanAllowed
  first_of-PlanAllowed (planned p) (planned ps) h k = (h, k)
  first_of-PlanAllowed (planned p) (raised e) h k = tt
  first_of-PlanAllowed (raised e) ps h k = tt

  plan_tools-PlanAllowed :
      (d : SourceDefinition) (id : String) (names : List String)
      → get_source sources id ≡ some d
      → is_active d.status ≡ true
      → d.institution_id ≡ scope.college_id
      → PlanAllowed (plan_tools scope tools d id names)
  unfolding plan_tools PlanAllowed
  plan_tools-PlanAllowed d id [] s a i = tt
  plan_tools-PlanAllowed d id (name ∷ names) s a i =
      first_of-PlanAllowed _ _ (check_named-StepAllowed d id name _ s refl a i)
        (plan_tools-PlanAllowed d id names s a i)

  plan_source-PlanAllowed :
      (names : List String) (id : String) (d : Option SourceDefinition)
      → get_source sources id ≡ d
      → PlanAllowed (plan_source scope tools names id d)
  unfolding plan_source check_source
  plan_source-PlanAllowed names id none s = PlanAllowed-raised _
  plan_source-PlanAllowed names id (some d) s =
      if-cases PlanAllowed (not (is_active d.status)) (λ h. PlanAllowed-raised _)
        λ a.
          if-cases PlanAllowed (not (d.institution_id == scope.college_id))
            (λ h. PlanAllowed-raised _)
            λ i.
              plan_tools-PlanAllowed d id names s (ground (arith, a))
                ((eq_iff d.institution_id scope.college_id).0 (ground (arith, i)))

  All-append :
      (ps qs : List PlannedTool) → All IsAllowed ps → All IsAllowed qs → All IsAllowed (ps ++ qs)
  All-append [] qs h k = k
  All-append (p ∷ ps) qs (a, h) k = (a, All-append ps qs h k)

  all_of-PlanAllowed :
      (ps qs : Planned (List PlannedTool))
      → PlanAllowed ps
      → PlanAllowed qs
      → PlanAllowed (all_of scope ps qs)
  unfolding PlanAllowed
  all_of-PlanAllowed (raised e) qs h k = tt
  all_of-PlanAllowed (planned ps) (raised e) h k = tt
  all_of-PlanAllowed (planned ps) (planned qs) h k = All-append ps qs h k

  plan_sources-PlanAllowed :
      (names ids : List String) → PlanAllowed (plan_sources scope tools sources names ids)
  unfolding plan_sources PlanAllowed
  plan_sources-PlanAllowed names [] = tt
  plan_sources-PlanAllowed names (id ∷ ids) =
      all_of-PlanAllowed _ _ (plan_source-PlanAllowed names id _ refl)
        (plan_sources-PlanAllowed names ids)

  -- A plan that is given, and short enough.
  unfoldable Bounded : Planned (List PlannedTool) → Type 0
  Bounded (planned ps) = (length ps ≤ 5) × All IsAllowed ps
  Bounded (raised e) = Unit

  bounded-Bounded : (ps : Planned (List PlannedTool)) → PlanAllowed ps → Bounded (bounded ps)
  unfolding Bounded PlanAllowed
  bounded-Bounded (raised e) h = tt
  bounded-Bounded (planned ps) h =
      if-cases Bounded (ltb 5 (length ps)) (λ e. tt) (λ e. (ground (arith, e), h))

module _ (tools : ToolRegistry) (sources : SourceRegistry) (r : ChatRequest) where
  plan_candidates-Bounded :
      (names ids : List String)
      → Bounded tools sources r.institution_scope (plan_candidates names r tools sources ids)
  unfolding plan_candidates Bounded
  plan_candidates-Bounded names [] = tt
  plan_candidates-Bounded names (id ∷ ids) =
      bounded-Bounded tools sources r.institution_scope _
        (plan_sources-PlanAllowed tools sources r.institution_scope names (id ∷ ids))

  planned-Bounded :
      (o : Planned (List PlannedTool)) (ps : List PlannedTool)
      → Bounded tools sources r.institution_scope o
      → o ≡ planned ps
      → (length ps ≤ 5) × All (IsAllowed tools sources r.institution_scope) ps
  unfolding Bounded
  planned-Bounded o ps h e = subst (Bounded tools sources r.institution_scope) e h

  -- A tool plan has at most five steps, and each step names a registered and active source of the
  -- requested institution and a registered tool, which approve of each other, and a tool that
  -- supports the parts of the scope that the request names.
  pub build_tool_plan-IsAllowed :
      (lower : String → String) (ps : List PlannedTool)
      → build_tool_plan lower r tools sources ≡ planned ps
      → (length ps ≤ 5) × All (IsAllowed tools sources r.institution_scope) ps
  unfolding build_tool_plan
  build_tool_plan-IsAllowed lower ps e =
      planned-Bounded _ ps
        (plan_candidates-Bounded (classify_prompt lower r.prompt) (candidate_ids r sources)) e
