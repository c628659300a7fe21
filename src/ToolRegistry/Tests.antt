-- ===== src/ToolRegistry/Tests.antt =====
-- A registry of src/tools/registry.py with two tools, and the theorems applied to it.
use i_ja_for_u.Base.{ℕ, String, true, false, ◌&&◌, none, some, List, [], ◌∷◌, ◌≡◌, refl}
use i_ja_for_u.ToolRegistry.{
  contains, is_subset, difference, meets, insert_sorted, sorted, join_names, ToolContext,
  RegisteredTool, ToolRegistry, passed, refused, supports_context_egress, definition, find_tool,
  matches_scope, all_scopes, register, register_all, select, is_visible, visible, definitions,
  exposed_tool_names, Validation, valid, resolve, is_terminal, value_error,
}
use i_ja_for_u.ToolRegistry.Permits.{
  permits, definitions-permits, checked_further, resolve-definitions,
}

program : Unit {0}
unfolding contains is_subset difference meets insert_sorted sorted join_names
    supports_context_egress definition find_tool matches_scope all_scopes register register_all
    select is_visible visible definitions exposed_tool_names resolve is_terminal
program = tt

abbrev clock : RegisteredTool
clock = record {
  name = "clock";
  description = "";
  arguments_model = "{}";
  terminal = false;
  required_scopes = "time:read" ∷ [];
  required_skill = none;
  required_any_egress_components = [];
}

abbrev draw : RegisteredTool
draw = record {
  name = "draw";
  description = "";
  arguments_model = "{}";
  terminal = true;
  required_scopes = [];
  required_skill = some "art";
  required_any_egress_components = "image" ∷ [];
}

abbrev tools : ToolRegistry
tools = clock ∷ draw ∷ []

abbrev context : ToolContext
context = record {
  session_id = "s";
  turn_id = none;
  schedule_run_id = none;
  authorization_scopes = "time:read" ∷ [];
  loaded_skills = [];
  supported_egress_components = [];
}

registered : register_all [] tools ≡ passed tools
unfolding program
registered = refl

twice : register_all [] (clock ∷ clock ∷ []) ≡ refused (value_error "工具重复注册: clock")
unfolding program
twice = refl

bad_scope :
    register_all [] ((record clock { required_scopes = "time" ∷ [] }) ∷ [])
    ≡ refused (value_error "工具 required_scopes 无效: clock")
unfolding program
bad_scope = refl

abbrev both : List String
both = "draw" ∷ "clock" ∷ []

-- The skill of `draw` is not loaded.
shown :
    exposed_tool_names (definitions tools (some both) context.authorization_scopes (some []))
    ≡ "clock" ∷ []
unfolding program
shown = refl

definitions-permits_example :
    contains
      (exposed_tool_names (definitions tools (some both) ("time:read" ∷ []) (some [])))
      "clock"
    ≡ (contains both "clock" && permits tools ("time:read" ∷ []) [] (find_tool "clock" tools))
definitions-permits_example = definitions-permits tools ("time:read" ∷ []) [] both "clock"

is_shown :
    contains
      (exposed_tool_names
        (definitions tools (some both) context.authorization_scopes (some context.loaded_skills)))
      "clock"
    ≡ true
unfolding program
is_shown = refl

abbrev accept : RegisteredTool → ℕ → Validation ℕ
accept tool n = valid n

resolve-definitions_example :
    (tool : RegisteredTool) × (find_tool "clock" tools ≡ some tool)
    × (resolve accept tools "clock" 7 context ≡ checked_further accept tool "clock" 7 context)
resolve-definitions_example = resolve-definitions accept tools both "clock" 7 context is_shown
