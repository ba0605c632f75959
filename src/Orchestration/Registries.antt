-- ===== src/Orchestration/Registries.antt =====
-- apps/api/app/config/source_registry.py, apps/api/app/tools/base.py and tools/registry.py: what is
-- registered, in order. A dictionary by id is the list of its values.
use guru_ji.Prelude.{
  String, Bool, true, false, not, ◌||◌, Option, none, some, List, [], ◌∷◌, ◌++◌, if◌then◌else◌,
  ◌==◌, string_eq, any, find, select, contains,
}
use guru_ji.Domain.Text.{is_blank}
use guru_ji.Domain.Principals.{Capability}
use guru_ji.Policy.Disclosure.{DataClassification, DisclosureLevel}

pub data SourceLifecycleStatus : Type 0 where
  active disabled : SourceLifecycleStatus

abbrev pub is_active : SourceLifecycleStatus → Bool
is_active active = true
is_active disabled = false

pub record SourceDefinition : Type 0 where
  pub source_id : String
  pub institution_id : String
  pub display_name : String
  pub connector_type : String
  pub allowed_tools : List String
  pub classification : DataClassification
  pub status : SourceLifecycleStatus
  pub timezone : String

-- The constructor's check: `none` is the ValueError.
unfoldable pub make_source : SourceDefinition → Option SourceDefinition
make_source d =
    if is_blank d.source_id
      || is_blank d.institution_id
      || is_blank d.display_name
      || is_blank d.connector_type
    then none
    else some d

abbrev pub SourceRegistry : Type 0
SourceRegistry = List SourceDefinition

abbrev pub has_source_id : String → SourceDefinition → Bool
has_source_id id d = d.source_id == id

-- `none` is the ValueError on an id that is taken.
unfoldable pub register_source : SourceDefinition → SourceRegistry → Option SourceRegistry
register_source d r = if any (has_source_id d.source_id) r then none else some (r ++ d ∷ [])

-- `none` is the KeyError.
unfoldable pub get_source : SourceRegistry → String → Option SourceDefinition
get_source r id = find (has_source_id id) r

unfoldable pub active_sources : SourceRegistry → List SourceDefinition
active_sources r = select (λ d. is_active d.status) r

unfoldable pub for_institution : SourceRegistry → String → List SourceDefinition
unfolding active_sources
for_institution r id = select (λ d. d.institution_id == id) (active_sources r)

pub record ToolDefinition : Type 0 where
  pub name : String
  pub description : String
  pub required_capability : Capability
  pub source_ids : List String
  pub classification : DataClassification
  pub disclosure_level : DisclosureLevel
  pub read_only : Bool
  pub supports_department_scope : Bool
  pub supports_batch_scope : Bool

-- The constructor's checks: `none` is the ValueError.
unfoldable pub make_tool : ToolDefinition → Option ToolDefinition
make_tool t = if is_blank t.name || not t.read_only then none else some t

unfoldable pub allows_source : ToolDefinition → String → Bool
allows_source t id = contains t.source_ids id

abbrev pub ToolRegistry : Type 0
ToolRegistry = List ToolDefinition

abbrev pub has_tool_name : String → ToolDefinition → Bool
has_tool_name name t = t.name == name

unfoldable pub register_tool : ToolDefinition → ToolRegistry → Option ToolRegistry
register_tool t r = if any (has_tool_name t.name) r then none else some (r ++ t ∷ [])

unfoldable pub get_tool : ToolRegistry → String → Option ToolDefinition
get_tool r name = find (has_tool_name name) r

-- The first source id of the tools that is not registered: the KeyError.
unfoldable pub unknown_source : SourceRegistry → List String → Option String
unfolding get_source
unknown_source r [] = none
unknown_source r (id ∷ ids) =
    let rest = unknown_source r ids in elim (get_source r id) [ none ↦ some id | some d ↦ rest ]

unfoldable pub validate_tools_against_sources : ToolRegistry → SourceRegistry → Option String
unfolding unknown_source
validate_tools_against_sources [] r = none
validate_tools_against_sources (t ∷ tools) r =
    let rest = validate_tools_against_sources tools r in
    elim (unknown_source r t.source_ids) [ some id ↦ some id | none ↦ rest ]
