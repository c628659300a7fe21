-- ===== src/PromptBudget/Trimming.antt =====
-- What `trim_history_to_budget` of src/prompting/budget.py keeps.
use i_ja_for_u.Base.{
  ℕ, ◌+◌, ◌-◌, ◌≤◌, ◌==◌, Bool, true, ◌&&◌, some, List, [], ◌∷◌, ◌≡◌, refl, inl, inr, leb, ltb,
  Bool-cases, &&-eq-true, ==_iff, arith,
}
use i_ja_for_u.PromptBudget.{
  estimate_text_tokens, ModelMessage, text_of, message_tokens, estimate_messages_tokens, first_half,
  truncate_message, stop_at, select_history, reverse_onto, trim_without_required,
}
use i_ja_for_u.PromptBudget.Clipping.{clip_loop-fits}

unfoldable pub has_no_image : List ModelMessage → Bool
has_no_image [] = true
has_no_image (m ∷ ms) = (m.images == 0) && has_no_image ms

-- A message without images that is cut to a budget of seven tokens or more.
pub truncate_message-fits :
    (m : ModelMessage) (budget : ℕ)
    → 7 ≤ budget
    → m.images ≡ 0
    → (r : ModelMessage) × ((truncate_message m budget ≡ some r) × (message_tokens r ≤ budget + 8))
unfolding truncate_message
truncate_message-fits m budget room plain =
    elim (Bool-cases (leb (estimate_text_tokens (text_of m)) budget)) [
      | inl short ↦ (m, (ground (arith, short), ground (arith, short, plain)))
      | inr long ↦
          let half : ℕ = first_half (text_of m) budget in
          let (t, (e, fits)) =
            clip_loop-fits half half (text_of m) budget room (omega arith) (omega arith) in
          (record { content = some t; images = 0 }, (ground (arith, long, e), ground (arith, fits)))
    ]

-- The first message that does not fit, cut down if nothing is selected yet.
stop_at-fits :
    (m : ModelMessage) (budget used : ℕ) (selected : List ModelMessage)
    → 32 ≤ budget
    → m.images ≡ 0
    → used ≡ estimate_messages_tokens selected
    → used ≤ budget
    → (r : List ModelMessage) × ((stop_at m (budget - used) selected ≡ some r)
        × (estimate_messages_tokens r ≤ budget))
unfolding estimate_messages_tokens
stop_at-fits m budget used [] room plain counted within =
    let (r, (e, fits)) = truncate_message-fits m (budget - used - 8) (omega arith) plain in
    (r ∷ [], (ground (arith, e, counted), ground (arith, fits, counted)))
stop_at-fits m budget used (s ∷ ss) room plain counted within =
    (s ∷ ss, (refl, ground (arith, counted, within)))

select_history-fits :
    (budget used : ℕ) (ms selected : List ModelMessage)
    → 32 ≤ budget
    → has_no_image ms ≡ true
    → used ≡ estimate_messages_tokens selected
    → used ≤ budget
    → (r : List ModelMessage) × ((select_history budget used ms selected ≡ some r)
        × (estimate_messages_tokens r ≤ budget))
unfolding select_history has_no_image estimate_messages_tokens
select_history-fits budget used [] selected room plain counted within =
    (selected, (refl, ground (arith, counted, within)))
select_history-fits budget used (m ∷ ms) selected room plain counted within =
    let (no_image, others) = &&-eq-true (m.images == 0) (has_no_image ms) plain in
    elim (Bool-cases (leb (message_tokens m) (budget - used))) [
      | inl fits ↦
          let (r, (e, small)) =
            select_history-fits budget (used + message_tokens m) ms (m ∷ selected) room others
              (ground (arith, counted)) (ground (arith, fits, within)) in
          (r, (ground (arith, fits, e), small))
      | inr over ↦
          let (r, (e, small)) =
            stop_at-fits m budget used selected room ((==_iff m.images 0).0 no_image) counted
              within in
          (r, (ground (arith, over, e), small))
    ]

has_no_image-reverse_onto :
    (ms acc : List ModelMessage)
    → has_no_image (reverse_onto ms acc) ≡ (has_no_image ms && has_no_image acc)
unfolding has_no_image reverse_onto
has_no_image-reverse_onto [] acc = refl
has_no_image-reverse_onto (m ∷ ms) acc = ground (arith, has_no_image-reverse_onto ms (m ∷ acc))

-- Where no message is required, and no message has an image, the trimming of a history ends, and what
-- it keeps fits in the budget.
pub trim_without_required-fits :
    (messages : List ModelMessage) (budget : ℕ)
    → has_no_image messages ≡ true
    → (r : List ModelMessage) × ((trim_without_required messages budget ≡ some r)
        × (estimate_messages_tokens r ≤ budget))
unfolding trim_without_required estimate_messages_tokens has_no_image
trim_without_required-fits messages budget plain = elim (Bool-cases (ltb budget 32)) [
  | inl small ↦ ([], (ground (arith, small), omega arith))
  | inr room ↦
      let (r, (e, fits)) =
        select_history-fits budget 0 (reverse_onto messages []) [] (ground (arith, room))
          (ground (arith, plain, has_no_image-reverse_onto messages [])) refl (omega arith) in
      (r, (ground (arith, room, e), fits))
]
