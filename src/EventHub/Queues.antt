-- ===== src/EventHub/Queues.antt =====
-- The subscriber of one queue of src/application/events.py, through the operations on all of them.
use i_ja_for_u.Base.{
  ℕ, Bool, false, Option, none, List, [], ◌∷◌, ◌++◌, ◌≡◌, ◌≢◌, refl, sym, ap, ◌∙◌, ◌⊎◌, inl, inr,
  ◌==◌, if◌then◌else◌, map, Bool-cases, All, All-append, arith,
}
use i_ja_for_u.EventHub.{
  RuntimeEvent, EventHub, Subscriber, remove_subscriber, fan_out, enqueue, next_call, is_other_loop,
  is_closed,
}
use i_ja_for_u.EventHub.Bounds.{remove_subscriber-All}

module _ {P : Type 0} where
  -- The frames at hand in queue `q`.
  unfoldable pub queue_of : ℕ → List (Subscriber P) → List (RuntimeEvent P)
  queue_of q [] = []
  queue_of q (s ∷ ss) = if s.queue_id == q then s.queue else queue_of q ss

  -- `s` is the one subscriber of queue `q`.
  abbrev pub Absent : ℕ → List (Subscriber P) → Type 0
  Absent q ss = All (λ s. s.queue_id ≢ q) ss

  abbrev pub Only : ℕ → Subscriber P → List (Subscriber P) → Type 0
  Only q s [] = ⊥
  Only q s (x ∷ xs) = ((x ≡ s) × (s.queue_id ≡ q) × Absent q xs) ⊎ ((x.queue_id ≢ q) × Only q s xs)

  -- No call waits for queue `q`.
  abbrev pub Quiet : ℕ → List (ℕ × RuntimeEvent P) → Type 0
  Quiet q calls = All (λ c. c.0 ≢ q) calls

  pub Only-append :
      (q : ℕ) (s : Subscriber P) (ss ts : List (Subscriber P))
      → Only q s ss
      → Absent q ts
      → Only q s (ss ++ ts)
  Only-append q s [] ts o a = absurd o
  Only-append q s (x ∷ xs) ts o a = elim o [
    | inl (same, named, rest) ↦ inl (same, named, All-append _ xs ts rest a)
    | inr (other, o') ↦ inr (other, Only-append q s xs ts o' a)
  ]

  pub Absent-append :
      (q : ℕ) (s : Subscriber P) (ss : List (Subscriber P))
      → Absent q ss
      → s.queue_id ≡ q
      → Only q s (ss ++ s ∷ [])
  Absent-append q s [] a e = inl (refl, e, tt)
  Absent-append q s (x ∷ xs) a e = inr (a.0, Absent-append q s xs a.1 e)

  pub queue_of-Only :
      (q : ℕ) (s : Subscriber P) (ss : List (Subscriber P)) → Only q s ss → queue_of q ss ≡ s.queue
  unfolding queue_of
  queue_of-Only q s [] o = absurd o
  queue_of-Only q s (x ∷ xs) o = elim o [
    | inl (same, named, rest) ↦ ground arith
    | inr (other, o') ↦ ground (arith, queue_of-Only q s xs o')
  ]

  pub Only-remove :
      (q r : ℕ) (s : Subscriber P) (ss : List (Subscriber P))
      → r ≢ q
      → Only q s ss
      → Only q s (remove_subscriber r ss)
  unfolding remove_subscriber
  Only-remove q r s [] ne o = absurd o
  Only-remove q r s (x ∷ xs) ne o = elim o [
    | inl (same, named, rest) ↦
        let keeps : (x.queue_id == r) ≡ false = ground arith in
        rw keeps (inl (same, named, remove_subscriber-All _ r xs rest))
    | inr (other, o') ↦ elim (Bool-cases (x.queue_id == r)) [
      | inl gone ↦ rw gone (Only-remove q r s xs ne o')
      | inr kept ↦ rw kept (inr (other, Only-remove q r s xs ne o'))
    ]
  ]

  -- `f` keeps the queue numbers, and changes the subscriber of queue `q` as `g` does.
  module _ (q : ℕ) (s : Subscriber P) (f g : Subscriber P → Subscriber P)
      (keeps : (x : Subscriber P) → (f x).queue_id ≡ x.queue_id)
      (at_q : (x : Subscriber P) → x.queue_id ≡ q → f x ≡ g x) where
    pub Absent-map : (ss : List (Subscriber P)) → Absent q ss → Absent q (map f ss)
    Absent-map [] a = tt
    Absent-map (x ∷ xs) a = ((λ e. a.0 (sym (keeps x) ∙ e)), Absent-map xs a.1)

    pub Only-map : (ss : List (Subscriber P)) → Only q s ss → Only q (g s) (map f ss)
    Only-map [] o = absurd o
    Only-map (x ∷ xs) o = elim o [
      | inl (same, named, rest) ↦
          let here : f s ≡ g s = at_q s named in
          inl (
            ap f same ∙ here,
            ap (λ (t : Subscriber P). t.queue_id) (sym here) ∙ keeps s ∙ named,
            Absent-map xs rest,
          )
      | inr (other, o') ↦ inr ((λ e. other (sym (keeps x) ∙ e)), Only-map xs o')
    ]

  pub queue_id-enqueue :
      (h : EventHub P) (e : RuntimeEvent P) (s : Subscriber P)
      → (enqueue h e s).queue_id ≡ s.queue_id
  unfolding enqueue
  queue_id-enqueue h e s = ground arith

  pub fan_out-Absent :
      (h : EventHub P) (current : Option ℕ) (closed : ℕ → Bool) (e : RuntimeEvent P) (q : ℕ)
      (ss : List (Subscriber P))
      → Absent q ss
      → Absent q (fan_out h current closed e ss).0 × Quiet q (fan_out h current closed e ss).1
  unfolding fan_out
  fan_out-Absent h current closed e q [] a = (tt, tt)
  fan_out-Absent h current closed e q (x ∷ xs) a =
      let (kept, calls) = fan_out-Absent h current closed e q xs a.1 in
      elim (Bool-cases (is_other_loop x.loop current)) [
        | inl other ↦ elim (Bool-cases (is_closed closed x.loop)) [
          | inl gone ↦ rw (other, gone) (kept, calls)
          | inr live ↦ rw (other, live) ((a.0, kept), (a.0, calls))
        ]
        | inr own ↦ rw own (((λ n. a.0 (sym (queue_id-enqueue h e x) ∙ n)), kept), calls)
      ]

  pub fan_out-Only :
      (h : EventHub P) (current : Option ℕ) (closed : ℕ → Bool) (e : RuntimeEvent P) (q : ℕ)
      (s : Subscriber P) (ss : List (Subscriber P))
      → is_other_loop s.loop current ≡ false
      → Only q s ss
      → Only q (enqueue h e s) (fan_out h current closed e ss).0
        × Quiet q (fan_out h current closed e ss).1
  unfolding fan_out
  fan_out-Only h current closed e q s [] own o = absurd o
  fan_out-Only h current closed e q s (x ∷ xs) own o = elim o [
    | inl (same, named, rest) ↦
        let (kept, calls) = fan_out-Absent h current closed e q xs rest in
        let here : is_other_loop x.loop current ≡ false =
          ap (λ (t : Subscriber P). is_other_loop t.loop current) same ∙ own in
        rw here (inl (ap (enqueue h e) same, queue_id-enqueue h e s ∙ named, kept), calls)
    | inr (other, o') ↦
        let (kept, calls) = fan_out-Only h current closed e q s xs own o' in
        elim (Bool-cases (is_other_loop x.loop current)) [
          | inl far ↦ elim (Bool-cases (is_closed closed x.loop)) [
            | inl gone ↦ rw (far, gone) (kept, calls)
            | inr live ↦ rw (far, live) (inr (other, kept), (other, calls))
          ]
          | inr near ↦ rw near (inr ((λ n. other (sym (queue_id-enqueue h e x) ∙ n)), kept), calls)
        ]
  ]

  pub Quiet-next_call :
      (q : ℕ) (calls : List (ℕ × RuntimeEvent P)) → Quiet q calls → (next_call q calls).0 ≡ none
  unfolding next_call
  Quiet-next_call q [] v = refl
  Quiet-next_call q ((r, e) ∷ calls) v = ground (arith, Quiet-next_call q calls v.1)
