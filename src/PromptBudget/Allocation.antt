-- ===== src/PromptBudget/Allocation.antt =====
-- What `trim_history_to_budget` of src/prompting/budget.py keeps where messages are required.
use i_ja_for_u.Base.{
  ℕ, zero, suc, ◌+◌, ◌-◌, ◌*◌, ◌/◌, ◌≤◌, max, Bool, true, false, ◌&&◌, ◌||◌, none, some, List, [],
  ◌∷◌, ◌≡◌, refl, ap, subst, inl, inr, ◌==◌, leb, ltb, length, Bool-cases, arith,
}
use i_ja_for_u.PromptBudget.{ModelMessage, message_tokens, estimate_messages_tokens}
use i_ja_for_u.PromptBudget.Required.{
  Trimmed, kept, value_error, runs_on, ◌>>=◌, truncate_required_message, Share, count_unfinished,
  grant_of, grant_all, share_out, fitted, Slot, select_required, slot_tokens, fill, chosen,
  first_shares, allocated, shared, trim_with_required_messages, flagged, is_out_of_range, has_index,
  trim_history_to_budget,
}

bind-kept :
    {A B : Type 0} (m : Trimmed A) (f : A → Trimmed B) (b : B)
    → (m >>= f) ≡ kept b
    → (a : A) × (m ≡ kept a) × (f a ≡ kept b)
bind-kept (kept a) f b h = (a, refl, h)
bind-kept value_error f b h = absurd (ground arith)
bind-kept runs_on f b h = absurd (ground arith)

kept_injective : {A : Type 0} {a b : A} → Trimmed.kept a ≡ Trimmed.kept b → a ≡ b
kept_injective {A} {a} e =
    ap (λ (r : Trimmed A). elim r [ kept x ↦ x | value_error ↦ a | runs_on ↦ a ]) e

-- What is granted is no longer available.
allocated-grant_all :
    (share : ℕ) (ss : List Share) (available : ℕ)
    → allocated (grant_all share ss available).0 + (grant_all share ss available).1
      ≡ allocated ss + available
unfolding allocated grant_all
allocated-grant_all share [] available = refl
allocated-grant_all share ((cost, allocation) ∷ ss) available =
    let grant : ℕ = grant_of share available (cost, allocation) in
    let ih = allocated-grant_all share ss (available - grant) in
    let fits : grant ≤ available = omega arith in omega (arith, ih, fits)

allocated-share_out :
    (fuel : ℕ) (ss : List Share) (available : ℕ)
    → allocated (share_out fuel ss available) ≤ allocated ss + available
unfolding share_out
allocated-share_out zero ss available = omega arith
allocated-share_out (suc fuel) ss available =
    let share : ℕ = max 1 (available / count_unfinished ss) in
    let ih =
      allocated-share_out fuel (grant_all share ss available).0 (grant_all share ss available).1 in
    let same = allocated-grant_all share ss available in
    elim (Bool-cases ((available == 0) || (count_unfinished ss == 0))) [
      | inl over ↦ rw over (omega arith)
      | inr going ↦ rw going (omega (arith, ih, same))
    ]

allocated-first_shares :
    (es : List (Bool × ModelMessage)) → allocated (first_shares es) ≤ 32 * length (first_shares es)
unfolding allocated first_shares
allocated-first_shares [] = omega arith
allocated-first_shares ((false, m) ∷ es) = allocated-first_shares es
allocated-first_shares ((true, m) ∷ es) = omega (arith, allocated-first_shares es)

fitted-kept :
    (m r : ModelMessage) (allocation : ℕ)
    → fitted m allocation ≡ kept r
    → message_tokens r ≤ allocation
unfolding fitted
fitted-kept m r allocation h = elim (Bool-cases (leb (message_tokens m) allocation)) [
  | inl short ↦
      subst (λ x. message_tokens x ≤ allocation) (kept_injective (rw short at h))
        (ground (arith, short))
  | inr long ↦ elim (Bool-cases (ltb (allocation - 8) 4)) [
    | inl small ↦ absurd (ground (arith, long, small, h))
    | inr room ↦
        let (x, cut, same) =
          bind-kept (truncate_required_message m (allocation - 8)) _ r (rw (long, room) at h) in
        elim (Bool-cases (leb (message_tokens x) allocation)) [
          | inl fits ↦
              subst (λ x. message_tokens x ≤ allocation) (kept_injective (rw fits at same))
                (ground (arith, fits))
          | inr over ↦ absurd (ground (arith, over, same))
        ]
  ]
]

slot_tokens-select_required :
    (es : List (Bool × ModelMessage)) (ss : List Share) (slots : List Slot)
    → select_required es ss ≡ kept slots
    → slot_tokens slots ≤ allocated ss
unfolding select_required slot_tokens allocated
slot_tokens-select_required [] ss slots h =
    subst (λ x. slot_tokens x ≤ allocated ss) (kept_injective h) (omega arith)
slot_tokens-select_required ((false, m) ∷ es) ss slots h =
    let (rest, e, same) = bind-kept (select_required es ss) _ slots h in
    subst (λ x. slot_tokens x ≤ allocated ss) (kept_injective same)
      (omega (arith, slot_tokens-select_required es ss rest e))
slot_tokens-select_required ((true, m) ∷ es) [] slots h = absurd (ground arith)
slot_tokens-select_required ((true, m) ∷ es) ((cost, allocation) ∷ ss) slots h =
    let (r, cut, h1) = bind-kept (fitted m allocation) _ slots h in
    let (rest, e, same) = bind-kept (select_required es ss) _ slots h1 in
    subst (λ x. slot_tokens x ≤ allocation + allocated ss) (kept_injective same)
      (omega (arith, fitted-kept m r allocation cut, slot_tokens-select_required es ss rest e))

-- What the loop adds to `used` it adds to the slots, and it stays within the budget.
fill-counts :
    (budget used : ℕ) (slots : List Slot)
    → used ≤ budget
    → ((fill budget used slots).1 + slot_tokens slots
        ≡ used + slot_tokens (fill budget used slots).0)
      × ((fill budget used slots).1 ≤ budget)
unfolding fill slot_tokens
fill-counts budget used [] h = (refl, h)
fill-counts budget used ((m, some r) ∷ slots) h =
    let (same, within) = fill-counts budget used slots h in (omega (arith, same), within)
fill-counts budget used ((m, none) ∷ slots) h =
    let (same, within) = fill-counts budget used slots h in
    elim (Bool-cases (
      (fill budget used slots).2 && leb (message_tokens m) (budget - (fill budget used slots).1))) [
        | inl fits ↦ rw fits (omega (arith, same), ground (arith, fits, within))
        | inr over ↦ rw over (omega (arith, same), within)
      ]

estimate_messages_tokens-chosen :
    (slots : List Slot) → estimate_messages_tokens (chosen slots) ≡ slot_tokens slots
unfolding chosen estimate_messages_tokens slot_tokens
estimate_messages_tokens-chosen [] = refl
estimate_messages_tokens-chosen ((m, none) ∷ slots) =
    omega (arith, estimate_messages_tokens-chosen slots)
estimate_messages_tokens-chosen ((m, some r) ∷ slots) =
    ap (λ n. message_tokens r + n) (estimate_messages_tokens-chosen slots)

trim_with_required_messages-kept :
    (es : List (Bool × ModelMessage)) (budget : ℕ) (r : List ModelMessage)
    → trim_with_required_messages es budget ≡ kept r
    → estimate_messages_tokens r ≤ budget
unfolding trim_with_required_messages
trim_with_required_messages-kept es budget r h =
    let ss : List Share = first_shares es in
    elim (Bool-cases (ltb budget (32 * length ss))) [
      | inl small ↦ absurd (ground (arith, small, h))
      | inr room ↦
          let (slots, e, same) =
            bind-kept (select_required es (shared budget ss)) _ r (rw room at h) in
          let enough : allocated ss ≤ budget = ground (arith, room, allocated-first_shares es) in
          let used : slot_tokens slots ≤ budget = omega (
            arith,
            slot_tokens-select_required es (shared budget ss) slots e,
            allocated-share_out (budget - allocated ss) ss (budget - allocated ss),
            enough,
          ) in
          let (counts, within) = fill-counts budget (slot_tokens slots) slots used in
          subst (λ x. estimate_messages_tokens x ≤ budget) (kept_injective same)
            (omega (
              arith,
              counts,
              within,
              estimate_messages_tokens-chosen (fill budget (slot_tokens slots) slots).0,
            ))
    ]

-- Where messages are required and a history is returned, it fits in the budget, also where messages
-- have images.
pub trim_history_to_budget-required :
    (messages : List ModelMessage) (budget : ℕ) (required : List ℕ) (r : List ModelMessage)
    → has_index required ≡ true
    → trim_history_to_budget messages budget required ≡ kept r
    → estimate_messages_tokens r ≤ budget
unfolding trim_history_to_budget
trim_history_to_budget-required messages budget required r some_required h =
    elim (Bool-cases (is_out_of_range (length messages) required)) [
      | inl out ↦ absurd (ground (arith, out, h))
      | inr within ↦
          trim_with_required_messages-kept (flagged 0 required messages) budget r
            (rw (within, some_required) at h)
    ]
