-- ===== src/PromptBudget/Clipping.antt =====
-- The loop that clips a text in src/prompting/budget.py: when it ends, and when it does not.
use i_ja_for_u.Base.{
  ℕ, zero, suc, ◌+◌, ◌-◌, ◌≤◌, ◌&&◌, none, some, [], ◌∷◌, ◌++◌, ◌≡◌, refl, inl, inr, leb, ltb,
  length, take, last_n, leb→le, length-append, length-drop, ap, length-last_n, Bool-cases, arith,
}
use i_ja_for_u.PromptBudget.{Text, count_cjk, estimate_text_tokens, clip, shrink, clip_loop}

length-take : (n : ℕ) (t : Text) → length (take n t) ≤ n
length-take zero t = ground arith
length-take (suc n) [] = ground arith
length-take (suc n) (c ∷ t) = ground (arith, length-take n t)

count_cjk-bound : (t : Text) → count_cjk t ≤ length t
unfolding count_cjk
count_cjk-bound [] = ground arith
count_cjk-bound (c ∷ t) = ground (arith, count_cjk-bound t)

estimate-bound : (t : Text) → estimate_text_tokens t ≤ length t + 4
unfolding estimate_text_tokens
estimate-bound [] = ground arith
estimate-bound (c ∷ t) = omega (arith, count_cjk-bound (c ∷ t))

-- A text of at most three characters fits in seven tokens.
clip_one-bound : (t : Text) → estimate_text_tokens (clip 1 t) ≤ 7
unfolding clip
clip_one-bound t = omega (
  arith,
  estimate-bound (take 1 t ++ 0x2026 ∷ last_n 1 t),
  length-append (take 1 t) (0x2026 ∷ last_n 1 t),
  length-take 1 t,
  length-last_n 1 t,
)

-- With a budget of seven tokens or more, a `half` that is not 0, and `half` rounds or more as fuel,
-- the loop ends, and the clipped text fits in the budget.
pub clip_loop-fits :
    (fuel half : ℕ) (text : Text) (budget : ℕ)
    → 7 ≤ budget
    → 1 ≤ half
    → half ≤ fuel
    → (t : Text) × ((clip_loop fuel half text budget ≡ some t) × (estimate_text_tokens t ≤ budget))
unfolding clip_loop
clip_loop-fits zero half text budget room some_half enough = absurd (omega arith)
clip_loop-fits (suc fuel) half text budget room some_half enough =
    elim (Bool-cases
      (ltb 2 (length (clip half text)) && ltb budget (estimate_text_tokens (clip half text)))) [
        | inl over ↦ elim (Bool-cases (leb half 1)) [
          | inl last ↦
              let is_one : estimate_text_tokens (clip half text)
                  ≡ estimate_text_tokens (clip 1 text) =
                ap (λ h. estimate_text_tokens (clip h text)) (omega (arith, leb→le half 1 last)) in
              absurd (ground (arith, over, is_one, clip_one-bound text))
          | inr more ↦
              let (t, (e, fits)) =
                clip_loop-fits fuel (shrink half) text budget room (omega arith) (ground arith) in
              (t, (ground (arith, over, e), fits))
        ]
        | inr done ↦ (
          clip half text,
          (ground (arith, done), ground (arith, done, estimate-bound (clip half text))),
        )
      ]

take-nonempty : (n : ℕ) (t : Text) → 1 ≤ n → 1 ≤ length t → 1 ≤ length (take n t)
take-nonempty zero t h k = absurd (omega arith)
take-nonempty (suc n) [] h k = absurd (omega arith)
take-nonempty (suc n) (c ∷ t) h k = omega arith

length-clip : (half : ℕ) (text : Text) → 1 ≤ half → 1 ≤ length text → 3 ≤ length (clip half text)
unfolding clip
length-clip half text h n = omega (
  arith,
  length-append (take half text) (0x2026 ∷ last_n half text),
  take-nonempty half text h n,
  length-drop (length text - half) text,
)

-- A text that is not empty takes five tokens or more.
estimate-nonempty : (t : Text) → 1 ≤ length t → 5 ≤ estimate_text_tokens t
unfolding estimate_text_tokens
estimate-nonempty [] h = absurd (omega arith)
estimate-nonempty (c ∷ t) h = omega arith

-- With a budget of four tokens or less, a `half` that is not 0, and a text that is not empty, the
-- loop is still running after any number of rounds.
pub clip_loop-never_ends :
    (fuel half : ℕ) (text : Text) (budget : ℕ)
    → budget ≤ 4
    → 1 ≤ half
    → 1 ≤ length text
    → clip_loop fuel half text budget ≡ none
unfolding clip_loop
clip_loop-never_ends zero half text budget small some_half some_text = refl
clip_loop-never_ends (suc fuel) half text budget small some_half some_text = ground (
  arith,
  length-clip half text some_half some_text,
  estimate-nonempty (clip half text) (omega (arith, length-clip half text some_half some_text)),
  clip_loop-never_ends fuel (shrink half) text budget small (ground arith) some_text,
)
