-- ===== src/PromptBudget/Required.antt =====
-- src/prompting/budget.py: `_trim_with_required_messages`, and `trim_history_to_budget` as a whole.
use i_ja_for_u.Base.{
  begins_with, ℕ, zero, suc, ◌+◌, ◌-◌, ◌*◌, ◌/◌, min, max, Bool, true, false, ◌&&◌, ◌||◌, Option,
  none, some, List, [], ◌∷◌, ◌++◌, ◌==◌, leb, ltb, if◌then◌else◌, length,
}
use i_ja_for_u.ToolRegistry.{codes}
use i_ja_for_u.PromptBudget.{
  Text, estimate_text_tokens, ModelMessage, text_of, message_tokens, truncate_message,
  trim_without_required,
}

-- A result, a `ValueError`, or a loop of `_truncate_message` that is still running.
pub data Trimmed (A : Type 0) : Type 0 where
  kept : A → Trimmed A
  value_error runs_on : Trimmed A

module _ {A B : Type 0} where
  infixl 10 ◌>>=◌
  abbrev pub ◌>>=◌ : Trimmed A → (A → Trimmed B) → Trimmed B
  kept a >>= f = f a
  value_error >>= f = value_error
  runs_on >>= f = runs_on

abbrev pub of_loop : {A : Type 0} → Option A → Trimmed A
of_loop none = runs_on
of_loop (some a) = kept a

abbrev pub with_char : ℕ → Option (Text × Text) → Option (Text × Text)
with_char c none = none
with_char c (some (line, rest)) = some (c ∷ line, rest)

-- `text.split("\n", maxsplit=1)`, the line break with the first line; `none` without a break.
unfoldable pub split_line : Text → Option (Text × Text)
split_line [] = none
split_line (c ∷ cs) =
    let rest = split_line cs in if c == 10 then some (c ∷ [], cs) else with_char c rest

abbrev pub joined : Text → ModelMessage → ModelMessage
joined header clipped = record { content = some (header ++ text_of clipped); images = 0 }

abbrev pub with_header : Text → Text → (budget : ℕ) → Trimmed ModelMessage
with_header header body budget =
    if ltb (budget - estimate_text_tokens header) 4
    then value_error
    else of_loop (
        truncate_message (record { content = some body; images = 0 })
          (budget - estimate_text_tokens header))
      >>= λ clipped. kept (joined header clipped)

abbrev pub truncate_lines :
    ModelMessage → (budget : ℕ) → Option (Text × Text) → Trimmed ModelMessage
truncate_lines m budget none = of_loop (truncate_message m budget)
truncate_lines m budget (some (header, body)) = with_header header body budget

unfoldable pub truncate_required_message : ModelMessage → (budget : ℕ) → Trimmed ModelMessage
truncate_required_message m budget =
    if begins_with (codes "[应用层消息索引，固定首行]") (text_of m)
    then truncate_lines m budget (split_line (text_of m))
    else of_loop (truncate_message m budget)

-- The cost of a required message, and its allocation.
abbrev pub Share : Type 0
Share = ℕ × ℕ

abbrev pub is_unfinished : Share → Bool
is_unfinished (cost, allocation) = ltb allocation cost

unfoldable pub count_unfinished : List Share → ℕ
count_unfinished [] = 0
count_unfinished (s ∷ ss) = (if is_unfinished s then 1 else 0) + count_unfinished ss

abbrev pub grant_of : (share available : ℕ) → Share → ℕ
grant_of share available (cost, allocation) = min share (min (cost - allocation) available)

-- The `for` loop over the messages that need more; another one is granted nothing.
unfoldable pub grant_all : (share : ℕ) → List Share → (available : ℕ) → List Share × ℕ
grant_all share [] available = ([], available)
grant_all share ((cost, allocation) ∷ ss) available =
    let grant : ℕ = grant_of share available (cost, allocation) in
    let (rest, left) = grant_all share ss (available - grant) in
    ((cost, allocation + grant) ∷ rest, left)

-- The `while` loop, which ends after as many rounds as there are tokens.
unfoldable pub share_out : (fuel : ℕ) → List Share → (available : ℕ) → List Share
share_out zero ss available = ss
share_out (suc fuel) ss available =
    let granted = grant_all (max 1 (available / count_unfinished ss)) ss available in
    let rest = share_out fuel granted.0 granted.1 in
    if (available == 0) || (count_unfinished ss == 0) then ss else rest

-- A message that is cut to its allocation.
unfoldable pub fitted : ModelMessage → (allocation : ℕ) → Trimmed ModelMessage
fitted m allocation =
    if leb (message_tokens m) allocation
    then kept m
    else if ltb (allocation - 8) 4
    then value_error
    else truncate_required_message m (allocation - 8) >>= λ r.
        if leb (message_tokens r) allocation then kept r else value_error

-- A message of the history, and what `selected` holds for its index.
abbrev pub Slot : Type 0
Slot = ModelMessage × Option ModelMessage

-- Each message stands with the flag of the required ones.
unfoldable pub select_required : List (Bool × ModelMessage) → List Share → Trimmed (List Slot)
select_required [] shares = kept []
select_required ((false, m) ∷ es) shares =
    select_required es shares >>= λ slots. kept ((m, none) ∷ slots)
select_required ((true, m) ∷ es) [] = value_error
select_required ((true, m) ∷ es) ((cost, allocation) ∷ shares) =
    fitted m allocation >>= λ r. select_required es shares >>= λ slots. kept ((m, some r) ∷ slots)

abbrev pub selected_tokens : Option ModelMessage → ℕ
selected_tokens none = 0
selected_tokens (some r) = message_tokens r

unfoldable pub slot_tokens : List Slot → ℕ
slot_tokens [] = 0
slot_tokens ((m, r) ∷ slots) = selected_tokens r + slot_tokens slots

-- The loop over the other messages, from the last on; the flag says that it did not break.
abbrev pub fill_slot : (budget : ℕ) → Slot → List Slot × ℕ × Bool → List Slot × ℕ × Bool
fill_slot budget (m, some r) (slots, used, going) = ((m, some r) ∷ slots, used, going)
fill_slot budget (m, none) (slots, used, going) =
    if going && leb (message_tokens m) (budget - used)
    then ((m, some m) ∷ slots, used + message_tokens m, true)
    else ((m, none) ∷ slots, used, false)

unfoldable pub fill : (budget used : ℕ) → List Slot → List Slot × ℕ × Bool
fill budget used [] = ([], used, true)
fill budget used (slot ∷ slots) = fill_slot budget slot (fill budget used slots)

unfoldable pub chosen : List Slot → List ModelMessage
chosen [] = []
chosen ((m, none) ∷ slots) = chosen slots
chosen ((m, some r) ∷ slots) = r ∷ chosen slots

-- The costs of the required messages, with at most 32 tokens each to begin with.
unfoldable pub first_shares : List (Bool × ModelMessage) → List Share
first_shares [] = []
first_shares ((false, m) ∷ es) = first_shares es
first_shares ((true, m) ∷ es) = (message_tokens m, min (message_tokens m) 32) ∷ first_shares es

unfoldable pub allocated : List Share → ℕ
allocated [] = 0
allocated ((cost, allocation) ∷ ss) = allocation + allocated ss

abbrev pub filled : (budget : ℕ) → List Slot → List ModelMessage
filled budget slots = chosen (fill budget (slot_tokens slots) slots).0

abbrev pub shared : (budget : ℕ) → List Share → List Share
shared budget ss = share_out (budget - allocated ss) ss (budget - allocated ss)

unfoldable pub trim_with_required_messages :
    List (Bool × ModelMessage) → (budget : ℕ) → Trimmed (List ModelMessage)
trim_with_required_messages es budget =
    if ltb budget (32 * length (first_shares es))
    then value_error
    else select_required es (shared budget (first_shares es)) >>= λ slots.
        kept (filled budget slots)

unfoldable pub is_index : ℕ → List ℕ → Bool
is_index i [] = false
is_index i (j ∷ js) = (i == j) || is_index i js

unfoldable pub flagged :
    (index : ℕ) → (required : List ℕ) → List ModelMessage → List (Bool × ModelMessage)
flagged i required [] = []
flagged i required (m ∷ ms) = (is_index i required, m) ∷ flagged (i + 1) required ms

unfoldable pub is_out_of_range : ℕ → List ℕ → Bool
is_out_of_range n [] = false
is_out_of_range n (i ∷ is) = leb n i || is_out_of_range n is

abbrev pub has_index : List ℕ → Bool
has_index [] = false
has_index (i ∷ is) = true

-- The set of the required indices is a list.
unfoldable pub trim_history_to_budget :
    List ModelMessage → (budget : ℕ) → (required : List ℕ) → Trimmed (List ModelMessage)
trim_history_to_budget messages budget required =
    if is_out_of_range (length messages) required
    then value_error
    else if has_index required
    then trim_with_required_messages (flagged 0 required messages) budget
    else of_loop (trim_without_required messages budget)
