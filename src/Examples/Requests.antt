-- ===== src/Examples/Requests.antt =====
-- A read-only request over one registered source.
use guru_ji.Prelude.{
  ℕ, suc, String, ◌≡◌, ◌↔◌, refl, true, false, none, some, List, [], ◌∷◌, ◌≤◌, length, All,
  string_eq,
}
use guru_ji.Domain.Text.{is_blank, is_space, occurs, has_prefix, join, text_take, text_length}
use guru_ji.Domain.Principals.{
  ask_read_only, manage_access, Capability-discrete, active, has_capability,
}
use guru_ji.Domain.Requests.{ChatRequest, InteractionChannel}
use guru_ji.Policy.Authorization.{authorize}
use guru_ji.Policy.Disclosure.{confidential, DisclosureLevel}
use guru_ji.Policy.Pdp.{evaluate}
use guru_ji.Orchestration.Registries.{
  SourceDefinition, SourceLifecycleStatus, ToolDefinition, get_source, get_tool, for_institution,
  active_sources, allows_source,
}
use guru_ji.Orchestration.Planner.{
  PlannedTool, build_tool_plan, plan_candidates, plan_sources, plan_source, check_source,
  plan_tools, check_named, check_tool, candidate_ids, classify_prompt,
}
use guru_ji.Orchestration.Planner.Allowed.{IsAllowed, build_tool_plan-IsAllowed}
use guru_ji.Orchestration.Executor.{
  Execution, ToolResult, execute_plan, aggregate, get_data, timeout, success,
}
use guru_ji.Orchestration.Executor.Kept.{
  AllDenied, execute_plan-AllDenied, AllSuccess, last_data, aggregate_lem,
}
use guru_ji.Orchestration.ReadOnly.{build_read_only_plan}
use guru_ji.Orchestration.ReadOnly.Authorized.{Builds, build_read_only_plan-Builds}
use guru_ji.Conversation.History.{
  RawTurn, user, bound_history, read_turns, read_turn, trim, last_turns, keep_recent, keep_turn,
}
use guru_ji.Conversation.History.Bounded.{IsEnd, chars, IsTrimmed, bound_history-IsEnd}
use guru_ji.Examples.People.{teacher, department}

abbrev source : SourceDefinition
source = record {
  source_id = "src1";
  institution_id = "a";
  display_name = "Marks";
  connector_type = "sql";
  allowed_tools = "institution.overview" ∷ [];
  classification = confidential;
  status = SourceLifecycleStatus.active;
  timezone = "Asia/Kolkata";
}

abbrev overview : ToolDefinition
overview = record {
  name = "institution.overview";
  description = "";
  required_capability = manage_access;
  source_ids = "src1" ∷ [];
  classification = confidential;
  disclosure_level = DisclosureLevel.aggregate;
  read_only = true;
  supports_department_scope = true;
  supports_batch_scope = false;
}

abbrev request : ChatRequest
request = record {
  request_id = "r1";
  principal_id = "t1";
  prompt = "how are we";
  institution_scope = department;
  source_ids = [];
  conversation_id = none;
  channel = InteractionChannel.text;
}

abbrev step : PlannedTool
step = record { name = "institution.overview"; source_id = "src1"; limit = none }

build_tool_plan-IsAllowed_example :
    (length (step ∷ []) ≤ 5) × All (IsAllowed (overview ∷ []) (source ∷ []) department) (step ∷ [])
unfolding build_tool_plan plan_candidates plan_sources plan_source check_source plan_tools
    check_named check_tool candidate_ids classify_prompt get_source get_tool for_institution
    active_sources allows_source occurs has_prefix
build_tool_plan-IsAllowed_example =
    build_tool_plan-IsAllowed (overview ∷ []) (source ∷ []) request (λ t. t) (step ∷ []) refl

-- The connector counts its calls.
abbrev execution : Execution ℕ ℕ ℕ
execution = record {
  who = teacher;
  scope = department;
  tools = overview ∷ [];
  connector = λ id. some (λ s calls. (
    record {
      tool_name = s.name;
      status = success;
      output = some 1;
      provenance = [];
      warnings = [];
    },
    suc calls,
  ));
  decide = λ q. evaluate q "d1";
}

execute_plan-AllDenied_example :
    AllDenied execution (step ∷ []) 0 (execute_plan execution (step ∷ []) 0)
unfolding get_tool authorize has_capability active Capability-discrete is_blank is_space
execute_plan-AllDenied_example =
    execute_plan-AllDenied execution (step ∷ []) 0 (λ q. ("d1", refl))
      ((refl, overview, refl, refl), tt)

abbrev results : List (ToolResult ℕ ℕ)
results =
    record {
      tool_name = "t";
      status = success;
      output = some 1;
      provenance = 7 ∷ [];
      warnings = [];
    }
    ∷ record {
      tool_name = "t";
      status = timeout;
      output = none;
      provenance = 8 ∷ [];
      warnings = [];
    }
    ∷ []

aggregate_example :
    ((aggregate results).provenance ≡ 7 ∷ 8 ∷ [])
    × ((aggregate results).warnings ≡ [])
    × ((k : String) → get_data k (aggregate results).output ≡ last_data k none results)
    × (((aggregate results).is_partial ≡ false) ↔ AllSuccess results)
aggregate_example = aggregate_lem results

build_read_only_plan-Builds_example :
    Builds request
      (authorize teacher ask_read_only department).allowed
      (build_read_only_plan request teacher)
unfolding is_blank is_space
build_read_only_plan-Builds_example =
    build_read_only_plan-Builds request teacher (record { named = refl; sources = refl })

-- A turn of an unknown role, and two that are kept.
abbrev turns : List RawTurn
turns =
    record { role = none; text = some "x" }
    ∷ record { role = some user; text = some "hi" }
    ∷ record { role = some user; text = some "more" }
    ∷ []

bound_history_test :
    bound_history (λ t. t ∷ []) turns
    ≡ record { role = user; text = "hi" } ∷ record { role = user; text = "more" } ∷ []
unfolding bound_history read_turns read_turn trim last_turns keep_recent keep_turn join text_take
    text_length
bound_history_test = refl

bound_history-IsEnd_example :
    IsEnd (bound_history (λ t. t ∷ []) turns) (read_turns (λ t. t ∷ []) turns)
    × (length (bound_history (λ t. t ∷ []) turns) ≤ 12)
    × (chars (bound_history (λ t. t ∷ []) turns) ≤ 6000)
    × All IsTrimmed (bound_history (λ t. t ∷ []) turns)
bound_history-IsEnd_example = bound_history-IsEnd (λ t. t ∷ []) turns
