-- ===== src/CircuitBreaker/Cycles.antt =====
-- The cycle test of plugins/circuit_breaker/runtime.py against what a cycle is.
use i_ja_for_u.Base.{
  ℕ, zero, suc, ◌+◌, ◌-◌, ◌*◌, ◌≤◌, ◌<◌, true, false, length-append, some, is_some, List, ◌++◌, ◌≡◌,
  sym, ap, ◌∙◌, inl, inr, length, leb→le, le→leb, last_n, take, repeat_list, eqb_list_sound,
  eqb_list_refl, last_n-append_right, take-last_n, repeat_list-snoc, length-repeat_list,
  length-last_n_full, append_assoc, &&-eq-true, Bool-cases, arith,
}
use i_ja_for_u.CircuitBreaker.{
  CircuitBreakerSettings, GuardViolation, is_repeated, find_cycle, repeat_violation,
}

-- The digests end with the same block, as often as the settings ask for.
pub record EndsWithCycle (s : CircuitBreakerSettings) (ds : List ℕ) (cycle : ℕ) : Type 0 where
  pub before : List ℕ
  pub block : List ℕ
  pub long : length block ≡ cycle
  pub split : ds ≡ before ++ repeat_list s.repetitions block

pub is_repeated_sound :
    (s : CircuitBreakerSettings) (ds : List ℕ) (cycle : ℕ)
    → 1 ≤ s.repetitions
    → is_repeated s ds cycle ≡ true
    → EndsWithCycle s ds cycle
unfolding is_repeated
is_repeated_sound s ds cycle r h =
    let (fits, same) = &&-eq-true _ _ h in
    let count : ℕ = cycle * s.repetitions in
    let room : count ≤ length ds = leb→le count (length ds) fits in
    record {
      before = take (length ds - count) ds;
      block = last_n cycle ds;
      long = length-last_n_full cycle ds (grind arith);
      split =
          sym (take-last_n count ds)
          ∙ ap (λ w. take (length ds - count) ds ++ w) (eqb_list_sound _ _ same);
    }

repeat_list-suc : (n : ℕ) (xs : List ℕ) → 1 ≤ n → repeat_list n xs ≡ repeat_list (n - 1) xs ++ xs
repeat_list-suc zero xs h = absurd (omega arith)
repeat_list-suc (suc n) xs h =
    repeat_list-snoc n xs ∙ ap {B = List ℕ} (λ k. repeat_list k xs ++ xs) (omega arith)

split_last :
    (s : CircuitBreakerSettings) (ds : List ℕ) (cycle : ℕ)
    → 1 ≤ s.repetitions
    → (c : EndsWithCycle s ds cycle)
    → ds ≡ (c.before ++ repeat_list (s.repetitions - 1) c.block) ++ c.block
split_last s ds cycle r c =
    c.split
    ∙ ap (λ z. c.before ++ z) (repeat_list-suc s.repetitions c.block r)
    ∙ sym (append_assoc c.before (repeat_list (s.repetitions - 1) c.block) c.block)

pub is_repeated_complete :
    (s : CircuitBreakerSettings) (ds : List ℕ) (cycle : ℕ)
    → 1 ≤ s.repetitions
    → EndsWithCycle s ds cycle
    → is_repeated s ds cycle ≡ true
unfolding is_repeated
is_repeated_complete s ds cycle r c =
    let count : ℕ = cycle * s.repetitions in
    let blocks : List ℕ = repeat_list s.repetitions c.block in
    let long : length blocks ≡ count =
      length-repeat_list s.repetitions c.block ∙ ap (λ k. k * s.repetitions) c.long in
    let window : last_n count ds ≡ blocks =
      ap (last_n count) c.split ∙ last_n-append_right count c.before blocks long in
    let last_block : last_n cycle ds ≡ c.block =
      ap (last_n cycle) (split_last s ds cycle r c) ∙ last_n-append_right cycle _ c.block c.long in
    let room : count ≤ length ds =
      omega (arith, ap (length {A = ℕ}) c.split, length-append c.before blocks, long) in
    ground (
      arith,
      le→leb count (length ds) room,
      eqb_list_refl blocks,
      window,
      ap (repeat_list s.repetitions) last_block,
    )

pub find_cycle_sound :
    (s : CircuitBreakerSettings) (ds : List ℕ) (cycle rounds : ℕ) (v : GuardViolation)
    → find_cycle s ds cycle rounds ≡ some v
    → (c : ℕ) × (cycle ≤ c)
      × (c < cycle + rounds)
      × (is_repeated s ds c ≡ true)
      × (v ≡ repeat_violation c)
unfolding find_cycle
find_cycle_sound s ds cycle zero v h = absurd (ground arith)
find_cycle_sound s ds cycle (suc rounds) v h = elim (Bool-cases (is_repeated s ds cycle)) [
  | inl e ↦ (cycle, omega arith, omega arith, e, ground arith)
  | inr e ↦
      let (c, low, high, found, same) = find_cycle_sound s ds (suc cycle) rounds v (ground arith) in
      (c, omega arith, omega arith, found, same)
]

pub find_cycle_complete :
    (s : CircuitBreakerSettings) (ds : List ℕ) (cycle rounds c : ℕ)
    → cycle ≤ c
    → c < cycle + rounds
    → is_repeated s ds c ≡ true
    → is_some (find_cycle s ds cycle rounds) ≡ true
unfolding find_cycle
find_cycle_complete s ds cycle zero c low high h = absurd (omega arith)
find_cycle_complete s ds cycle (suc rounds) c low high h =
    elim (Bool-cases (is_repeated s ds cycle)) [
      | inl e ↦ ground arith
      | inr e ↦
          ground (arith, find_cycle_complete s ds (suc cycle) rounds c (later e) (omega arith) h)
    ]
  where
    later : is_repeated s ds cycle ≡ false → suc cycle ≤ c
    later e = ground arith
