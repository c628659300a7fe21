-- ===== src/ToolRegistry/Permits.antt =====
-- Which tools of src/tools/registry.py a model is shown, and which of them run.
use text.Mathlib.Text.{◌==◌ as str_eq}
use text.Mathlib.TextEquality.{eq_iff}
use i_ja_for_u.Base.{
  String, Bool, true, false, ◌&&◌, ◌||◌, Option, none, some, List, [], ◌∷◌, map, ◌≡◌, refl, sym, ap,
  ◌∙◌, subst, inl, inr, if◌then◌else◌, Option-cases, arith,
}
use i_ja_for_u.ToolRegistry.{
  contains, is_subset, difference, insert_sorted, sorted, ToolContext, RegisteredTool, ToolRegistry,
  Checked, passed, refused, is_empty, supports_context_egress, definition, find_tool, select,
  skill_is_loaded, is_visible, visible, definitions, exposed_tool_names, egress_error, Validation,
  valid, invalid, validated, resolve,
}

contains-insert_sorted :
    (s n : String) (xs : List String)
    → contains (insert_sorted s xs) n ≡ (str_eq s n || contains xs n)
unfolding contains insert_sorted
contains-insert_sorted s n [] = refl
contains-insert_sorted s n (x ∷ xs) = ground (arith, contains-insert_sorted s n xs)

contains-sorted : (n : String) (xs : List String) → contains (sorted xs) n ≡ contains xs n
unfolding contains sorted
contains-sorted n [] = refl
contains-sorted n (x ∷ xs) =
    contains-insert_sorted x n (sorted xs) ∙ ap (λ b. str_eq x n || b) (contains-sorted n xs)

is_empty-difference : (xs ys : List String) → is_empty (difference xs ys) ≡ is_subset xs ys
unfolding difference is_subset
is_empty-difference [] ys = refl
is_empty-difference (x ∷ xs) ys = ground (arith, is_empty-difference xs ys)

-- A tool is found under its own name.
pub name-find_tool :
    (name : String) (tools : ToolRegistry) (tool : RegisteredTool)
    → find_tool name tools ≡ some tool
    → tool.name ≡ name
unfolding find_tool
name-find_tool name [] tool h = absurd (ground arith)
name-find_tool name (t ∷ ts) tool h =
    ground (arith, eq_iff t.name name, name-find_tool name ts tool)

module _ (tools : ToolRegistry) (scopes loaded : List String) where
  abbrev pub permits : Option RegisteredTool → Bool
  permits none = false
  permits (some tool) =
      is_subset tool.required_scopes scopes && skill_is_loaded tool.required_skill loaded

  abbrev shown : List String → List String
  shown names =
      exposed_tool_names (map definition (visible scopes (some loaded) (select tools names)))

  shown-cons :
      (n name : String) (names : List String) (o : Option RegisteredTool)
      → find_tool n tools ≡ o
      → contains (shown (n ∷ names)) name
        ≡ ((str_eq n name && permits o) || contains (shown names) name)
  unfolding select visible is_visible exposed_tool_names contains definition
  shown-cons n name names none e = ground arith
  shown-cons n name names (some t) e = ground (arith, name-find_tool n tools t e)

  shown_lem :
      (name : String) (names : List String)
      → contains (shown names) name ≡ (contains names name && permits (find_tool name tools))
  unfolding contains select visible exposed_tool_names
  shown_lem name [] = refl
  shown_lem name (n ∷ names) =
      shown-cons n name names (find_tool n tools) refl
      ∙ ground (arith, shown_lem name names, eq_iff n name)

  -- A name is among the definitions of a call with `names` and `loaded_skills` if and only if it is
  -- one of `names`, and the tool of that name is registered, its scopes are granted, and it needs no
  -- skill or one that is loaded.
  pub definitions-permits :
      (names : List String) (name : String)
      → contains (exposed_tool_names (definitions tools (some names) scopes (some loaded))) name
        ≡ (contains names name && permits (find_tool name tools))
  unfolding definitions
  definitions-permits names name =
      shown_lem name (sorted names)
      ∙ ap (λ b. b && permits (find_tool name tools)) (contains-sorted name names)

module _ {Json : Type 0} (model_validate : RegisteredTool → Json → Validation Json) where
  -- What a call of a tool comes to that passes the tests of scopes and skills.
  abbrev pub checked_further :
      RegisteredTool → String → Json → ToolContext → Checked (RegisteredTool × Json)
  checked_further tool name arguments context =
      if supports_context_egress tool context.supported_egress_components
      then validated model_validate tool (model_validate tool arguments)
      else refused (egress_error name)

  resolve_permitted :
      (tools : ToolRegistry) (name : String) (arguments : Json) (c : ToolContext)
      (tool : RegisteredTool)
      → find_tool name tools ≡ some tool
      → is_subset tool.required_scopes c.authorization_scopes ≡ true
      → skill_is_loaded tool.required_skill c.loaded_skills ≡ true
      → resolve model_validate tools name arguments c ≡ checked_further tool name arguments c
  unfolding resolve
  resolve_permitted tools name arguments c tool found scoped skilled = ground (
    arith,
    found,
    skilled,
    is_empty-difference tool.required_scopes c.authorization_scopes ∙ scoped,
  )

  -- A tool that the model is shown is registered, and a call of it in the same context is refused
  -- only for what the channel cannot send or for its arguments.
  pub resolve-definitions :
      (tools : ToolRegistry) (names : List String) (name : String) (arguments : Json)
      (c : ToolContext)
      → contains
          (exposed_tool_names
            (definitions tools (some names) c.authorization_scopes (some c.loaded_skills)))
          name
        ≡ true
      → (tool : RegisteredTool) × (find_tool name tools ≡ some tool)
        × (resolve model_validate tools name arguments c ≡ checked_further tool name arguments c)
  resolve-definitions tools names name arguments c h = elim (Option-cases (find_tool name tools)) [
    | inl missing ↦ absurd (ground (arith, missing, permitted))
    | inr (tool, found) ↦ (
      tool,
      found,
      resolve_permitted tools name arguments c tool found (ground (arith, permitted))
          (ground (arith, permitted)),
    )
  ]
    where
      permitted :
          (contains names name
            && permits tools c.authorization_scopes c.loaded_skills (find_tool name tools))
          ≡ true
      permitted =
          sym (definitions-permits tools c.authorization_scopes c.loaded_skills names name) ∙ h

  validated_sound :
      (t tool : RegisteredTool) (v : Validation Json) (given : Json)
      → validated model_validate t v ≡ passed (tool, given)
      → t ≡ tool
  validated_sound t tool (valid a) given h = ground arith
  validated_sound t tool (invalid text) given h = absurd (ground arith)

  -- What holds of a tool that is called.
  abbrev pub MayRun : ToolRegistry → String → ToolContext → RegisteredTool → Type 0
  MayRun tools name c tool =
      (find_tool name tools ≡ some tool)
      × (is_subset tool.required_scopes c.authorization_scopes ≡ true)
      × (skill_is_loaded tool.required_skill c.loaded_skills ≡ true)
      × (supports_context_egress tool c.supported_egress_components ≡ true)

  checks_sound :
      (tools : ToolRegistry) (name : String) (arguments given : Json) (c : ToolContext)
      (t tool : RegisteredTool)
      → find_tool name tools ≡ some t
      → resolve model_validate tools name arguments c ≡ passed (tool, given)
      → MayRun tools name c t × (t ≡ tool)
  unfolding resolve
  checks_sound tools name arguments given c t tool found h = ground (
    arith,
    is_empty-difference t.required_scopes c.authorization_scopes,
    validated_sound t tool (model_validate t arguments) given,
  )

  -- A call whose checks pass is for the registered tool of its name, with its scopes granted, its
  -- skill loaded, and a channel that it can use.
  pub resolve-MayRun :
      (tools : ToolRegistry) (name : String) (arguments : Json) (c : ToolContext)
      (tool : RegisteredTool) (given : Json)
      → resolve model_validate tools name arguments c ≡ passed (tool, given)
      → MayRun tools name c tool
  unfolding resolve
  resolve-MayRun tools name arguments c tool given h = elim (Option-cases (find_tool name tools)) [
    | inl missing ↦ absurd (ground arith)
    | inr (t, found) ↦
        let (may, same) = checks_sound tools name arguments given c t tool found h in
        subst (MayRun tools name c) same may
  ]
