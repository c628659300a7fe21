-- ===== src/PromptBudget.antt =====
-- src/prompting/budget.py: the estimate of tokens, and what is kept of the history of a chat that
-- does not fit. A text is the list of its code points.
pub mod Clipping
mod Required
mod Allocation
pub mod Returned
pub mod Trimming
mod Tests
use i_ja_for_u.Base.{
  ℕ, zero, suc, ◌+◌, ◌-◌, ◌*◌, ◌/◌, max, Bool, true, false, not, ◌&&◌, ◌||◌, Option, none, some,
  List, [], ◌∷◌, ◌++◌, leb, ltb, if◌then◌else◌, length, take, last_n,
}

abbrev pub Text : Type 0
Text = List ℕ

-- The ranges of `_CJK_RE`.
abbrev pub is_cjk : ℕ → Bool
is_cjk c =
    (leb 0x3400 c && leb c 0x9FFF)
    || (leb 0x3040 c && leb c 0x30FF)
    || (leb 0xAC00 c && leb c 0xD7AF)

unfoldable pub count_cjk : Text → ℕ
count_cjk [] = 0
count_cjk (c ∷ cs) = (if is_cjk c then 1 else 0) + count_cjk cs

unfoldable pub estimate_text_tokens : Text → ℕ
estimate_text_tokens [] = 0
estimate_text_tokens (c ∷ cs) =
    let cjk = count_cjk (c ∷ cs) in cjk + (length (c ∷ cs) - cjk + 3) / 4 + 4

-- The role and the calls of tools play no part; `images` counts the images.
pub record ModelMessage : Type 0 where
  pub content : Option Text
  pub images : ℕ

abbrev pub text_of : ModelMessage → Text
text_of m = elim m.content [ none ↦ [] | some t ↦ t ]

abbrev pub message_tokens : ModelMessage → ℕ
message_tokens m = estimate_text_tokens (text_of m) + 8 + 85 * m.images

unfoldable pub estimate_messages_tokens : List ModelMessage → ℕ
estimate_messages_tokens [] = 0
estimate_messages_tokens (m ∷ ms) = message_tokens m + estimate_messages_tokens ms

-- `f"{text[:half]}…{text[-half:]}"`, for a `half` that is not 0.
unfoldable pub clip : ℕ → Text → Text
clip half text = take half text ++ 0x2026 ∷ last_n half text

abbrev pub shrink : ℕ → ℕ
shrink half = max 1 (half - max 1 (half / 8))

-- The `while` loop of `_truncate_message`; `none` is a loop that is still running.
unfoldable pub clip_loop : (fuel half : ℕ) → Text → (budget : ℕ) → Option Text
clip_loop zero half text budget = none
clip_loop (suc fuel) half text budget =
    let rest = clip_loop fuel (shrink half) text budget in
    if ltb 2 (length (clip half text)) && ltb budget (estimate_text_tokens (clip half text))
    then rest
    else some (clip half text)

-- `half` before the loop. A quotient of floating-point numbers rounded down is the quotient of the
-- integers, for texts of any length that fits in memory.
abbrev pub first_half : Text → ℕ → ℕ
first_half text budget = max 1 ((max 32 (length text * budget / estimate_text_tokens text) - 1) / 2)

-- `_truncate_message`, with as many rounds as `half` can shrink.
abbrev pub clipped_message : Option Text → Option ModelMessage
clipped_message none = none
clipped_message (some t) = some (record { content = some t; images = 0 })

unfoldable pub truncate_message : ModelMessage → (budget : ℕ) → Option ModelMessage
truncate_message m budget =
    if leb (estimate_text_tokens (text_of m)) budget
    then some m
    else clipped_message (
        clip_loop (first_half (text_of m) budget) (first_half (text_of m) budget) (text_of m)
          budget)

-- A message before what is selected already; `none` where it is not known.
abbrev pub put_last : Option ModelMessage → List ModelMessage → Option (List ModelMessage)
put_last none ms = none
put_last (some m) ms = some (m ∷ ms)

-- What the loop of `trim_history_to_budget` keeps of the first message that does not fit.
abbrev pub stop_at :
    ModelMessage → (left : ℕ) → (selected : List ModelMessage) → Option (List ModelMessage)
stop_at m left [] =
    if leb 4 (left - 8) then put_last (truncate_message m (left - 8)) [] else some []
stop_at m left (s ∷ ss) = some (s ∷ ss)

-- That loop, over the messages from the last to the first. `selected` is in the order of the chat.
unfoldable pub select_history :
    (budget used : ℕ)
    → List ModelMessage
    → (selected : List ModelMessage) → Option (List ModelMessage)
select_history budget used [] selected = some selected
select_history budget used (m ∷ ms) selected =
    let rest = select_history budget (used + message_tokens m) ms (m ∷ selected) in
    if leb (message_tokens m) (budget - used) then rest else stop_at m (budget - used) selected

unfoldable pub reverse_onto : List ModelMessage → List ModelMessage → List ModelMessage
reverse_onto [] acc = acc
reverse_onto (m ∷ ms) acc = reverse_onto ms (m ∷ acc)

-- `trim_history_to_budget` where no message is required.
unfoldable pub trim_without_required : List ModelMessage → (budget : ℕ) → Option (List ModelMessage)
trim_without_required messages budget =
    if ltb budget 32 then some [] else select_history budget 0 (reverse_onto messages []) []
