-- ===== src/ToolRegistry.antt =====
-- src/tools/registry.py: the tools that a conversation may use, and what is checked before one
-- runs. A set of names is a list. JSON values, the schema of the arguments and the handlers are
-- parameters.
pub mod Permits
mod Tests
use Prim.Native.String.{◌++◌ as str_append, compare}
use Prim.Native.Char.{code}
use text.Mathlib.Text.{◌==◌ as str_eq, is_le}
use i_ja_for_u.Base.{
  ℕ, String, Bool, true, false, not, ◌&&◌, ◌||◌, Option, none, some, List, [], ◌∷◌, ◌++◌, map, leb,
  ◌==◌, if◌then◌else◌, is_some,
}
use i_ja_for_u.Domain.{ReplyDraft}

unfoldable pub contains : List String → String → Bool
contains [] s = false
contains (x ∷ xs) s = str_eq x s || contains xs s

-- `xs <= ys` and `xs - ys` on sets.
unfoldable pub is_subset : List String → List String → Bool
is_subset [] ys = true
is_subset (x ∷ xs) ys = contains ys x && is_subset xs ys

unfoldable pub difference : List String → List String → List String
difference [] ys = []
difference (x ∷ xs) ys = let rest = difference xs ys in if contains ys x then rest else x ∷ rest

-- `bool(xs & ys)`
unfoldable pub meets : List String → List String → Bool
meets [] ys = false
meets (x ∷ xs) ys = contains ys x || meets xs ys

-- `sorted`
unfoldable pub insert_sorted : String → List String → List String
insert_sorted s [] = s ∷ []
insert_sorted s (x ∷ xs) =
    let later = x ∷ insert_sorted s xs in if is_le (compare s x) then s ∷ x ∷ xs else later

unfoldable pub sorted : List String → List String
sorted [] = []
sorted (x ∷ xs) = insert_sorted x (sorted xs)

-- `", ".join`
unfoldable pub join_names : List String → String
join_names [] = ""
join_names (x ∷ []) = x
join_names (x ∷ y ∷ ys) = str_append x (str_append ", " (join_names (y ∷ ys)))

-- The part of `ToolContext` that the registry and the loop read. A handler may add to
-- `loaded_skills`.
pub record ToolContext : Type 0 where
  pub session_id : String
  pub turn_id : Option String
  pub schedule_run_id : Option String
  pub authorization_scopes : List String
  pub loaded_skills : List String
  pub supported_egress_components : List String

pub record ToolOutcome (Json : Type 0) : Type 0 where
  pub value : Json
  pub reply_draft : Option ReplyDraft

pub record ToolDefinition : Type 0 where
  pub name : String
  pub description : String
  pub parameters : String

-- `arguments_model` is known by its JSON schema; the handler is found by the name.
pub record RegisteredTool : Type 0 where
  pub name : String
  pub description : String
  pub arguments_model : String
  pub terminal : Bool
  pub required_scopes : List String
  pub required_skill : Option String
  pub required_any_egress_components : List String

-- The registered tools, in the order of their registration.
abbrev pub ToolRegistry : Type 0
ToolRegistry = List RegisteredTool

-- An exception with its `code`, if it has one, and its text.
pub record Fault : Type 0 where
  pub code : Option String
  pub text : String

pub data Checked {ℓ} (A : Type ℓ) : Type ℓ where
  passed : A → Checked A
  refused : Fault → Checked A

module _ {ℓ κ} {A : Type ℓ} {B : Type κ} where
  infixl 10 ◌>>=◌ ◌>>◌
  abbrev pub ◌>>=◌ : Checked A → (A → Checked B) → Checked B
  passed a >>= f = f a
  refused e >>= f = refused e

  abbrev pub ◌>>◌ : Checked A → Checked B → Checked B
  m >> n = m >>= λ _. n

abbrev pub require : Bool → Fault → Checked (Unit {0})
require true e = passed tt
require false e = refused e

abbrev pub value_error : String → Fault
value_error t = record { code = none; text = t }

abbrev pub input_error : String → Fault
input_error t = record { code = some "invalid_input"; text = t }

abbrev pub not_found : String → Fault
not_found t = record { code = some "not_found"; text = t }

abbrev pub is_empty : List String → Bool
is_empty [] = true
is_empty (x ∷ xs) = false

unfoldable pub supports_context_egress : RegisteredTool → List String → Bool
supports_context_egress tool components =
    is_empty tool.required_any_egress_components
    || meets tool.required_any_egress_components components

unfoldable pub definition : RegisteredTool → ToolDefinition
definition tool = record {
  name = tool.name;
  description = tool.description;
  parameters = tool.arguments_model;
}

unfoldable pub find_tool : String → ToolRegistry → Option RegisteredTool
find_tool name [] = none
find_tool name (tool ∷ tools) = if str_eq tool.name name then some tool else find_tool name tools

-- The code points of a text.
abbrev pub codes : String → List ℕ
codes String.[] = []
codes (String.◌∷◌ c s) = code c ∷ codes s

abbrev pub is_lower : ℕ → Bool
is_lower c = leb b'a' c && leb c b'z'

abbrev pub fits_word : ℕ → Bool
fits_word c = is_lower c || (leb b'0' c && leb c b'9') || (c == b'-') || (c == b':')

-- The expression `[a-z][a-z0-9-]*(?::[a-z][a-z0-9-]*)+`, from a place that is the start of a word
-- or not, with a colon before it or none.
unfoldable pub matches_scope : (start colon : Bool) → List ℕ → Bool
matches_scope start colon [] = not start && colon
matches_scope start colon (c ∷ cs) =
    (if start then is_lower c else fits_word c)
    && matches_scope (c == b':') (colon || (c == b':')) cs

unfoldable pub all_scopes : List String → Bool
all_scopes [] = true
all_scopes (s ∷ ss) = matches_scope true false (codes s) && all_scopes ss

unfoldable pub register : ToolRegistry → RegisteredTool → Checked ToolRegistry
register tools tool = do
  require (not (is_some (find_tool tool.name tools)))
      (value_error (str_append "工具重复注册: " tool.name))
  require (all_scopes tool.required_scopes)
      (value_error (str_append "工具 required_scopes 无效: " tool.name))
  passed (tools ++ tool ∷ [])

-- `ToolRegistry(tools)`
unfoldable pub register_all : ToolRegistry → List RegisteredTool → Checked ToolRegistry
register_all tools [] = passed tools
register_all tools (t ∷ ts) = register tools t >>= λ tools'. register_all tools' ts

unfoldable pub select : ToolRegistry → List String → List RegisteredTool
select tools [] = []
select tools (name ∷ names) =
    let rest = select tools names in
    elim (find_tool name tools) [ none ↦ rest | some tool ↦ tool ∷ rest ]

-- `required_skill is None or required_skill in loaded_skills`
abbrev pub skill_is_loaded : Option String → List String → Bool
skill_is_loaded none loaded = true
skill_is_loaded (some skill) loaded = contains loaded skill

-- The test of `definitions`; `none` is a call without `loaded_skills`.
unfoldable pub is_visible : List String → Option (List String) → RegisteredTool → Bool
is_visible scopes none tool = is_subset tool.required_scopes scopes
is_visible scopes (some loaded) tool =
    is_subset tool.required_scopes scopes && skill_is_loaded tool.required_skill loaded

unfoldable pub visible :
    List String → Option (List String) → List RegisteredTool → List RegisteredTool
visible scopes loaded [] = []
visible scopes loaded (tool ∷ tools) =
    let rest = visible scopes loaded tools in
    if is_visible scopes loaded tool then tool ∷ rest else rest

abbrev pub selected : ToolRegistry → Option (List String) → List RegisteredTool
selected tools none = tools
selected tools (some names) = select tools (sorted names)

unfoldable pub definitions :
    ToolRegistry
    → (names : Option (List String)) → (authorization_scopes : List String)
    → (loaded_skills : Option (List String)) → List ToolDefinition
definitions tools names scopes loaded =
    map definition (visible scopes loaded (selected tools names))

-- `{item.name for item in definitions}`
unfoldable pub exposed_tool_names : List ToolDefinition → List String
exposed_tool_names [] = []
exposed_tool_names (d ∷ ds) = d.name ∷ exposed_tool_names ds

abbrev pub known_tool : String → Option RegisteredTool → Checked RegisteredTool
known_tool name none = refused (not_found (str_append "未知工具: " name))
known_tool name (some tool) = passed tool

abbrev pub skill_error : Option String → Fault
skill_error none = input_error ""
skill_error (some skill) = input_error (str_append "必须先调用 load_skill 读取 " skill)

abbrev pub scope_error : String → List String → Fault
scope_error name missing = input_error (
    str_append "未授权使用工具 "
      (str_append name (str_append "，缺少 scope: " (join_names (sorted missing)))))

abbrev pub egress_error : String → Fault
egress_error name = input_error (str_append "当前平台不具备工具 " (str_append name " 所需的真实出站能力"))

-- What pydantic makes of the arguments of a tool, or the text of its `ValidationError`.
pub data Validation (Json : Type 0) : Type 0 where
  valid : Json → Validation Json
  invalid : String → Validation Json

module _ {Json : Type 0} (model_validate : RegisteredTool → Json → Validation Json) where
  abbrev pub validated : RegisteredTool → Validation Json → Checked (RegisteredTool × Json)
  validated tool (valid arguments) = passed (tool, arguments)
  validated tool (invalid text) =
      refused (input_error (str_append "工具 " (str_append tool.name (str_append " 参数无效: " text))))

  -- `execute` up to the call of the handler.
  unfoldable pub resolve :
      ToolRegistry → String → Json → ToolContext → Checked (RegisteredTool × Json)
  resolve tools name arguments context = do
    tool ← known_tool name (find_tool name tools)
    require (is_empty (difference tool.required_scopes context.authorization_scopes))
        (scope_error name (difference tool.required_scopes context.authorization_scopes))
    require (skill_is_loaded tool.required_skill context.loaded_skills)
        (skill_error tool.required_skill)
    require (supports_context_egress tool context.supported_egress_components) (egress_error name)
    validated tool (model_validate tool arguments)

unfoldable pub is_terminal : ToolRegistry → String → Bool
is_terminal tools name = elim (find_tool name tools) [ none ↦ false | some tool ↦ tool.terminal ]
