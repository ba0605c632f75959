-- ===== src/Orchestration/Executor.antt =====
-- apps/api/app/orchestration/tool_executor.py and result_aggregator.py. A connector is a parameter:
-- a step's result, and the state of its source afterwards. `E` is the type of a data value.
pub mod Kept
use guru_ji.Prelude.{
  String, Bool, true, false, not, ◌||◌, Option, none, some, List, [], ◌∷◌, ◌++◌, if◌then◌else◌,
  ◌==◌, string_eq,
}
use guru_ji.Domain.Principals.{InstitutionScope, Principal}
use guru_ji.Policy.Pdp.{PolicyDecision, Request}
use guru_ji.Orchestration.Registries.{ToolDefinition, ToolRegistry, get_tool}
use guru_ji.Orchestration.Planner.{PlannedTool}

pub data ResultStatus : Type 0 where
  success partial stale unauthorized unavailable timeout invalid_result : ResultStatus

abbrev pub is_success : ResultStatus → Bool
is_success success = true
is_success _ = false

pub record Warning : Type 0 where
  pub code : String
  pub message : String
  pub source_id : Option String

pub record ToolResult (E P : Type 0) : Type 0 where
  pub tool_name : String
  pub status : ResultStatus
  pub output : Option E
  pub provenance : List P
  pub warnings : List Warning

-- `connector` is none for a source without one; `decide` is the decision point, and none what it
-- raises.
pub record Execution (E P W : Type 0) : Type 0 where
  pub who : Principal
  pub scope : InstitutionScope
  pub tools : ToolRegistry
  pub connector : String → Option (PlannedTool → W → ToolResult E P × W)
  pub decide : Request → Option PolicyDecision

pub record Executed (E P W : Type 0) : Type 0 where
  pub results : List (ToolResult E P)
  pub decision_log : List PolicyDecision
  pub state : W

pub record Aggregate (E P : Type 0) : Type 0 where
  pub output : List (String × Option E)
  pub provenance : List P
  pub warnings : List Warning
  pub is_partial : Bool

module _ {E P W : Type 0} (x : Execution E P W) where
  abbrev pub unauthorised : PlannedTool → ToolResult E P
  unauthorised s = record {
    tool_name = s.name;
    status = unauthorized;
    output = none;
    provenance = [];
    warnings = [];
  }

  abbrev pub request_of : PlannedTool → ToolDefinition → Request
  request_of s t = record {
    who = x.who;
    required_capability = t.required_capability;
    action = "retrieve";
    resource_type = "connector_resource";
    resource_id = s.source_id;
    requested_scope = x.scope;
  }

  abbrev pub before :
      ToolResult E P → PolicyDecision → Option (Executed E P W) → Option (Executed E P W)
  before r d none = none
  before r d (some e) =
      some (record { results = r ∷ e.results; decision_log = d ∷ e.decision_log; state = e.state })

  -- The connector of a step; `none` is the KeyError of its registry.
  unfoldable pub run_connector :
      PlannedTool → Option (PlannedTool → W → ToolResult E P × W) → W → Option (ToolResult E P × W)
  run_connector s none w = none
  run_connector s (some f) w = some (f s w)

  unfoldable pub run_decided : PlannedTool → PolicyDecision → W → Option (ToolResult E P × W)
  unfolding run_connector
  run_decided s d w =
      if not d.allowed
      then some (unauthorised s, w)
      else run_connector s (x.connector s.source_id) w

  -- The rest of the loop, from the state that a step leaves.
  unfoldable pub go_on :
      PolicyDecision
      → Option (ToolResult E P × W)
      → (W → Option (Executed E P W))
      → Option (Executed E P W)
  go_on d none rest = none
  go_on d (some (r, w)) rest = before r d (rest w)

  -- A step from its decision on; `none` is an exception that leaves `execute_plan`.
  unfoldable pub run_with :
      PlannedTool
      → Option PolicyDecision
      → W
      → (W → Option (Executed E P W))
      → Option (Executed E P W)
  unfolding run_decided go_on
  run_with s none w rest = none
  run_with s (some d) w rest = go_on d (run_decided s d w) rest

  unfoldable pub run_step :
      PlannedTool
      → Option ToolDefinition
      → W
      → (W → Option (Executed E P W))
      → Option (Executed E P W)
  unfolding run_with
  run_step s none w rest = none
  run_step s (some t) w rest = run_with s (x.decide (request_of s t)) w rest

  unfoldable pub execute_plan : List PlannedTool → W → Option (Executed E P W)
  unfolding run_step
  execute_plan [] w = some (record { results = []; decision_log = []; state = w })
  execute_plan (s ∷ plan) w = run_step s (get_tool x.tools s.name) w (execute_plan plan)

module _ {E : Type 0} where
  -- `data[name] = value`, on the dictionary as a list of its items.
  unfoldable pub put : String → E → List (String × E) → List (String × E)
  put k v [] = (k, v) ∷ []
  put k v ((j, u) ∷ r) = let rest = put k v r in if j == k then (j, v) ∷ r else (j, u) ∷ rest

  unfoldable pub get_data : String → List (String × E) → Option E
  get_data k [] = none
  get_data k ((j, u) ∷ r) = let rest = get_data k r in if j == k then some u else rest

module _ {E P : Type 0} where
  -- The loop of `aggregate`, from what is collected so far.
  unfoldable pub aggregate_from : Aggregate E P → List (ToolResult E P) → Aggregate E P
  unfolding put
  aggregate_from a [] = a
  aggregate_from a (r ∷ rs) =
      aggregate_from
        (record {
          output = put r.tool_name r.output a.output;
          provenance = a.provenance ++ r.provenance;
          warnings = a.warnings ++ r.warnings;
          is_partial = not (is_success r.status) || a.is_partial;
        })
        rs

  unfoldable pub aggregate : List (ToolResult E P) → Aggregate E P
  unfolding aggregate_from
  aggregate rs =
      aggregate_from (record { output = []; provenance = []; warnings = []; is_partial = false }) rs
