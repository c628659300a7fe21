-- ===== src/PromptBudget/Returned.antt =====
-- When `trim_history_to_budget` of src/prompting/budget.py returns a history where messages are
-- required.
use i_ja_for_u.Base.{begins_with, ◌≤◌, min, Bool, true, false, not, ◌&&◌, List, [], ◌∷◌, ◌==◌}
use i_ja_for_u.ToolRegistry.{codes}
use i_ja_for_u.PromptBudget.{ModelMessage, text_of, message_tokens}
use i_ja_for_u.PromptBudget.Required.{Share}

-- A message without images and without the line of its index.
abbrev pub is_plain : ModelMessage → Bool
is_plain m = (m.images == 0) && not (begins_with (codes "[应用层消息索引，固定首行]") (text_of m))

unfoldable pub are_plain : List ModelMessage → Bool
are_plain [] = true
are_plain (m ∷ ms) = is_plain m && are_plain ms

unfoldable are_plain_required : List (Bool × ModelMessage) → Bool
are_plain_required [] = true
are_plain_required ((b, m) ∷ es) = is_plain m && are_plain_required es

-- Each required message has its least allocation.
unfoldable HaveRoom : List (Bool × ModelMessage) → List Share → Type 0
HaveRoom [] ss = Unit
HaveRoom ((false, m) ∷ es) ss = HaveRoom es ss
HaveRoom ((true, m) ∷ es) [] = ⊥
HaveRoom ((true, m) ∷ es) ((cost, allocation) ∷ ss) =
    (min (message_tokens m) 32 ≤ allocation) × HaveRoom es ss
