-- ===== src/PromptBudget/Tests.antt =====
-- Runs of src/prompting/budget.py, with the theorems applied to them.
use i_ja_for_u.Base.{
  begins_with, ℕ, ◌++◌, ◌≤◌, true, none, some, List, [], ◌∷◌, ◌≡◌, refl, repeat_list, arith,
}
use i_ja_for_u.PromptBudget.{
  Text, count_cjk, estimate_text_tokens, ModelMessage, estimate_messages_tokens, clip, clip_loop,
  truncate_message, select_history, reverse_onto, trim_without_required,
}
use i_ja_for_u.PromptBudget.Required.{
  kept, split_line, truncate_required_message, count_unfinished, grant_all, share_out, fitted,
  select_required, slot_tokens, fill, chosen, first_shares, allocated, trim_with_required_messages,
  is_index, flagged, is_out_of_range, trim_history_to_budget,
}
use i_ja_for_u.PromptBudget.Returned.{are_plain}
use i_ja_for_u.PromptBudget.Clipping.{clip_loop-fits, clip_loop-never_ends}
use i_ja_for_u.PromptBudget.Trimming.{has_no_image, trim_without_required-fits}

program : Unit {0}
unfolding count_cjk estimate_text_tokens estimate_messages_tokens clip clip_loop truncate_message
    select_history reverse_onto trim_without_required has_no_image begins_with split_line
    truncate_required_message count_unfinished grant_all share_out fitted select_required
    slot_tokens fill chosen first_shares allocated trim_with_required_messages is_index flagged
    is_out_of_range trim_history_to_budget are_plain
program = tt

-- Sixty Chinese characters.
abbrev long_text : Text
long_text = repeat_list 60 (0x4E2D ∷ [])

abbrev message : Text → ℕ → ModelMessage
message t images = record { content = some t; images = images }

abbrev messages : List ModelMessage
messages = message (97 ∷ []) 0 ∷ message long_text 0 ∷ []

plain : has_no_image messages ≡ true
unfolding program
plain = refl

trim_without_required-fits_example :
    (r : List ModelMessage) × ((trim_without_required messages 40 ≡ some r)
      × (estimate_messages_tokens r ≤ 40))
trim_without_required-fits_example = trim_without_required-fits messages 40 plain

clip_loop-fits_example :
    (t : Text) × ((clip_loop 20 16 long_text 24 ≡ some t) × (estimate_text_tokens t ≤ 24))
clip_loop-fits_example = clip_loop-fits 20 16 long_text 24 (omega arith) (omega arith) (omega arith)

clip_loop-never_ends_example : clip_loop 1000 16 long_text 4 ≡ none
clip_loop-never_ends_example =
    clip_loop-never_ends 1000 16 long_text 4 (omega arith) (omega arith) (omega arith)

-- A message with an image is kept though it does not fit: it takes 98 tokens of 40.
over_budget : trim_without_required (message (97 ∷ []) 1 ∷ []) 40 ≡ some (message (97 ∷ []) 1 ∷ [])
unfolding program
over_budget = refl

its_tokens : estimate_messages_tokens (message (97 ∷ []) 1 ∷ []) ≡ 98
unfolding program
its_tokens = refl

-- The long message is required, and cut; for the short one after it no room is left.
abbrev history : List ModelMessage
history = message long_text 0 ∷ message (97 ∷ []) 0 ∷ []

kept_history :
    trim_history_to_budget history 60 (0 ∷ [])
    ≡ kept (message (repeat_list 23 (0x4E2D ∷ []) ++ 0x2026 ∷ repeat_list 23 (0x4E2D ∷ [])) 0 ∷ [])
unfolding program
kept_history = refl
