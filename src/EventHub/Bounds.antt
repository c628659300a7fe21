-- ===== src/EventHub/Bounds.antt =====
-- The queues of src/application/events.py: their bound, and what is left in one that overflowed.
use text.Mathlib.Text.{◌==◌ as str_eq}
use mathlib.Core.List.{tail}
use i_ja_for_u.Base.{
  ℕ, ◌≤◌, ◌<◌, leb, refl, some, Bool, true, false, Option, List, [], ◌∷◌, ◌≡◌, sym, inl, inr, ◌==◌,
  length, length-append, Bool-cases, Option-cases, some_injective, All, All-append, All-map, subst,
  ap, ◌∙◌, ◌⊎◌, arith, String,
}
use i_ja_for_u.EventHub.Cursor.{Text}
use i_ja_for_u.EventHub.{
  RuntimeEvent, given, resync, EventHub, Subscriber, Op, subscribes, unsubscribes, publishes,
  calls_back, takes, ok, create, create-eq-ok, subscribe, unsubscribe, remove_subscriber, notify,
  fan_out, record_event, event_of, dispatch, enqueue, enqueue_at, run_callback, next_call, take_at,
  take_frame, is_closed, resync_event, apply, run, is_other_loop,
}

module _ {P : Type 0} where
  abbrev pub IsControl : RuntimeEvent P → Type 0
  IsControl e = e.payload ≡ resync "slow_consumer" true e.cursor

  -- An event that was published.
  abbrev pub IsGiven : RuntimeEvent P → Type 0
  IsGiven e = (p : P) × (e.payload ≡ given p)

  -- At most one frame, the control frame of a slow consumer.
  abbrev pub AtMostControl : List (RuntimeEvent P) → Type 0
  AtMostControl [] = Unit
  AtMostControl (e ∷ []) = e.payload ≡ resync "slow_consumer" true e.cursor
  AtMostControl (e ∷ f ∷ es) = ⊥

  -- Of the queue of a consumer that was cut off, or not.
  abbrev pub IsCutTo : Bool → List (RuntimeEvent P) → Type 0
  IsCutTo false es = All IsGiven es
  IsCutTo true es = AtMostControl es

  pub record IsServed (cap next : ℕ) (s : Subscriber P) : Type 0 where
    pub known : s.queue_id < next
    pub fits : length s.queue ≤ cap
    pub cut : IsCutTo s.overflowed s.queue

  abbrev pub IsKnown : ℕ → ℕ × RuntimeEvent P → Type 0
  IsKnown next call = (call.0 < next) × IsGiven call.1

  pub record IsSound (h : EventHub P) : Type 0 where
    pub room : 1 ≤ h.subscriber_queue_capacity
    pub served : All (IsServed h.subscriber_queue_capacity h.next_queue) h.subscribers
    pub calls_known : All (IsKnown h.next_queue) h.scheduled

  enqueue-IsServed :
      (h : EventHub P) (e : RuntimeEvent P) (s : Subscriber P) (next : ℕ)
      → 1 ≤ h.subscriber_queue_capacity
      → IsGiven e
      → IsServed h.subscriber_queue_capacity next s
      → IsServed h.subscriber_queue_capacity next (enqueue h e s)
  unfolding enqueue resync_event
  enqueue-IsServed h e s next room plain v = elim (Bool-cases s.overflowed) [
    | inl over ↦ simp over v
    | inr open_ ↦ elim (Bool-cases (leb h.subscriber_queue_capacity (length s.queue))) [
      | inl full ↦
          rw (open_, full) (record { known = v.known; fits = omega (arith, room); cut = refl })
      | inr space ↦
          rw (open_, space)
            (record {
              known = v.known;
              fits = ground (arith, space, length-append s.queue (e ∷ []));
              cut =
                  All-append IsGiven s.queue (e ∷ []) (subst (λ b. IsCutTo b s.queue) open_ v.cut)
                    (plain, tt);
            })
    ]
  ]

  enqueue_at-IsServed :
      (h : EventHub P) (q : ℕ) (e : RuntimeEvent P) (ss : List (Subscriber P)) (next : ℕ)
      → 1 ≤ h.subscriber_queue_capacity
      → IsGiven e
      → All (IsServed h.subscriber_queue_capacity next) ss
      → All (IsServed h.subscriber_queue_capacity next) (enqueue_at h q e ss)
  unfolding enqueue_at
  enqueue_at-IsServed h q e [] next room plain v = tt
  enqueue_at-IsServed h q e (s ∷ ss) next room plain v = (
    elim (Bool-cases (s.queue_id == q)) [
      | inl here ↦ rw here (enqueue-IsServed h e s next room plain v.0)
      | inr other ↦ rw other v.0
    ],
    enqueue_at-IsServed h q e ss next room plain v.1,
  )

  pub remove_subscriber-All :
      (R : Subscriber P → Type 0) (q : ℕ) (ss : List (Subscriber P))
      → All R ss
      → All R (remove_subscriber q ss)
  unfolding remove_subscriber
  remove_subscriber-All R q [] v = tt
  remove_subscriber-All R q (s ∷ ss) v = elim (Bool-cases (s.queue_id == q)) [
    | inl gone ↦ rw gone (remove_subscriber-All R q ss v.1)
    | inr kept ↦ rw kept (v.0, remove_subscriber-All R q ss v.1)
  ]

  AtMostControl-tail : (es : List (RuntimeEvent P)) → AtMostControl es → AtMostControl (tail es)
  AtMostControl-tail [] h = tt
  AtMostControl-tail (e ∷ []) h = tt
  AtMostControl-tail (e ∷ f ∷ es) h = absurd h

  IsCutTo-tail : (b : Bool) (es : List (RuntimeEvent P)) → IsCutTo b es → IsCutTo b (tail es)
  IsCutTo-tail false [] h = tt
  IsCutTo-tail false (e ∷ es) h = h.1
  IsCutTo-tail true es h = AtMostControl-tail es h

  length-tail : (es : List (RuntimeEvent P)) → length (tail es) ≤ length es
  length-tail [] = omega arith
  length-tail (e ∷ es) = omega arith

  take_at-IsServed :
      (cap next q : ℕ) (ss : List (Subscriber P))
      → All (IsServed cap next) ss
      → All (IsServed cap next) (take_at q ss)
  unfolding take_at
  take_at-IsServed cap next q [] v = tt
  take_at-IsServed cap next q (s ∷ ss) v = (
    elim (Bool-cases (s.queue_id == q)) [
      | inl here ↦ rw here (record {
        known = v.0.known;
        fits = omega (arith, length-tail s.queue, v.0.fits);
        cut = IsCutTo-tail s.overflowed s.queue v.0.cut;
      })
      | inr other ↦ rw other v.0
    ],
    take_at-IsServed cap next q ss v.1,
  )

  -- The part of `fan_out` that keeps subscribers, and the part that schedules calls.
  fan_out-IsServed :
      (h : EventHub P) (current : Option ℕ) (closed : ℕ → Bool) (e : RuntimeEvent P)
      (ss : List (Subscriber P)) (next : ℕ)
      → 1 ≤ h.subscriber_queue_capacity
      → IsGiven e
      → All (IsServed h.subscriber_queue_capacity next) ss
      → All (IsServed h.subscriber_queue_capacity next) (fan_out h current closed e ss).0
        × All (IsKnown next) (fan_out h current closed e ss).1
  unfolding fan_out
  fan_out-IsServed h current closed e [] next room plain v = (tt, tt)
  fan_out-IsServed h current closed e (s ∷ ss) next room plain v =
      let (kept, calls) = fan_out-IsServed h current closed e ss next room plain v.1 in
      elim (Bool-cases (is_other_loop s.loop current)) [
        | inl other ↦ elim (Bool-cases (is_closed closed s.loop)) [
          | inl gone ↦ rw (other, gone) (kept, calls)
          | inr open_ ↦ rw (other, open_) ((v.0, kept), ((v.0.known, plain), calls))
        ]
        | inr own ↦ rw own ((enqueue-IsServed h e s next room plain v.0, kept), calls)
      ]

  pub next_call-All :
      (R : ℕ × RuntimeEvent P → Type 0) (q : ℕ) (calls : List (ℕ × RuntimeEvent P))
      → All R calls
      → All R (next_call q calls).1
  unfolding next_call
  next_call-All R q [] v = tt
  next_call-All R q ((r, e) ∷ calls) v = elim (Bool-cases (r == q)) [
    | inl here ↦ rw here v.1
    | inr other ↦ rw other (v.0, next_call-All R q calls v.1)
  ]

  -- The call that is next is one of the scheduled.
  next_call-found :
      (next q : ℕ) (calls : List (ℕ × RuntimeEvent P)) (e : RuntimeEvent P)
      → All (IsKnown next) calls
      → (next_call q calls).0 ≡ some e
      → IsGiven e
  unfolding next_call
  next_call-found next q [] e v h = absurd (ground arith)
  next_call-found next q ((r, f) ∷ calls) e v h = elim (Bool-cases (r == q)) [
    | inl here ↦ subst IsGiven (some_injective (rw here at h)) v.0.1
    | inr other ↦ next_call-found next q calls e v.1 (rw other at h)
  ]

  subscribe-IsSound : (loop : Option ℕ) (h : EventHub P) → IsSound h → IsSound (subscribe loop h)
  unfolding subscribe
  subscribe-IsSound loop h v = record {
    room = v.room;
    served =
        All-append _ h.subscribers _
          (All-map _ _ h.subscribers
            (λ s w. record { known = omega (arith, w.known); fits = w.fits; cut = w.cut }) v.served)
          (record { known = omega arith; fits = omega (arith, v.room); cut = tt }, tt);
    calls_known = All-map _ _ h.scheduled (λ c w. (omega (arith, w.0), w.1)) v.calls_known;
  }

  run_callback-IsSound : (q : ℕ) (h : EventHub P) → IsSound h → IsSound (run_callback q h)
  unfolding run_callback
  run_callback-IsSound q h v = elim (Option-cases (next_call q h.scheduled).0) [
    | inl e ↦ rw (e, run_callback) v
    | inr (event, e) ↦
        rw (e, run_callback)
          (record {
            room = v.room;
            served =
                enqueue_at-IsServed h q event h.subscribers h.next_queue v.room
                  (next_call-found h.next_queue q h.scheduled event v.calls_known e) v.served;
            calls_known = next_call-All _ q h.scheduled v.calls_known;
          })
  ]

  publish-IsSound :
      (current : Option ℕ) (closed : ℕ → Bool) (type : String) (payload : P) (h : EventHub P)
      → IsSound h
      → IsSound (apply (publishes current closed type payload) h)
  unfolding apply dispatch notify record_event event_of
  publish-IsSound current closed type payload h v = elim (Bool-cases (str_eq type "")) [
    | inl blank ↦ rw blank v
    | inr named ↦
        let h' : EventHub P = record_event h (event_of h type payload) in
        let (kept, calls) =
          fan_out-IsServed h' current closed (event_of h type payload) h.subscribers h.next_queue
            v.room (payload, refl) v.served in
        rw named (record {
          room = v.room;
          served = kept;
          calls_known = All-append _ h.scheduled _ v.calls_known calls;
        })
  ]

  apply-IsSound : (op : Op P) (h : EventHub P) → IsSound h → IsSound (apply op h)
  unfolding apply unsubscribe take_frame
  apply-IsSound (subscribes loop) h v = subscribe-IsSound loop h v
  apply-IsSound (unsubscribes q) h v = record {
    room = v.room;
    served = remove_subscriber-All _ q h.subscribers v.served;
    calls_known = v.calls_known;
  }
  apply-IsSound (publishes current closed type payload) h v =
      publish-IsSound current closed type payload h v
  apply-IsSound (calls_back q) h v = run_callback-IsSound q h v
  apply-IsSound (takes q) h v = record {
    room = v.room;
    served = take_at-IsServed h.subscriber_queue_capacity h.next_queue q h.subscribers v.served;
    calls_known = v.calls_known;
  }

  capacity-apply :
      (op : Op P) (h : EventHub P)
      → (apply op h).subscriber_queue_capacity ≡ h.subscriber_queue_capacity
  unfolding apply dispatch notify record_event run_callback subscribe unsubscribe take_frame
  capacity-apply op h = ground arith

  capacity-run :
      (ops : List (Op P)) (h : EventHub P)
      → (run ops h).subscriber_queue_capacity ≡ h.subscriber_queue_capacity
  unfolding run
  capacity-run [] h = refl
  capacity-run (op ∷ ops) h = capacity-run ops (apply op h) ∙ capacity-apply op h

  pub run-IsSound : (ops : List (Op P)) (h : EventHub P) → IsSound h → IsSound (run ops h)
  unfolding run
  run-IsSound [] h v = v
  run-IsSound (op ∷ ops) h v = run-IsSound ops (apply op h) (apply-IsSound op h v)

  pub create-IsSound :
      (cap queue_cap : ℕ) (stream : Text) (h : EventHub P)
      → create cap queue_cap stream ≡ ok h
      → IsSound h
  create-IsSound cap queue_cap stream h e =
      let (_, room, same) = create-eq-ok cap queue_cap stream h e in
      subst IsSound (sym same) (record { room = room; served = tt; calls_known = tt })

  -- A control frame stands alone in its queue.
  abbrev pub IsAlone : List (RuntimeEvent P) → Type 0
  IsAlone es = (All IsGiven es) ⊎ (AtMostControl es)

  IsCutTo-IsAlone : (b : Bool) (es : List (RuntimeEvent P)) → IsCutTo b es → IsAlone es
  IsCutTo-IsAlone false es v = inl v
  IsCutTo-IsAlone true es v = inr v

  alone :
      (cap next : ℕ) (ss : List (Subscriber P))
      → All (IsServed cap next) ss
      → All (λ s. (length s.queue ≤ cap) × IsAlone s.queue) ss
  alone cap next [] v = tt
  alone cap next (s ∷ ss) v =
      ((v.0.fits, IsCutTo-IsAlone s.overflowed s.queue v.0.cut), alone cap next ss v.1)

  -- Whatever was done with a hub since it was created: each queue holds at most as many frames as
  -- the capacity that the hub was created with, and either all of them are published events, or there
  -- is no frame but the control frame of a slow consumer.
  pub created-IsAlone :
      (cap queue_cap : ℕ) (stream : Text) (ops : List (Op P)) (h : EventHub P)
      → create cap queue_cap stream ≡ ok h
      → All (λ s. (length s.queue ≤ queue_cap) × IsAlone s.queue) (run ops h).subscribers
  created-IsAlone cap queue_cap stream ops h e =
      let v : IsSound (run ops h) = run-IsSound ops h (create-IsSound cap queue_cap stream h e) in
      let (_, room, same) = create-eq-ok cap queue_cap stream h e in
      let kept : (run ops h).subscriber_queue_capacity ≡ queue_cap =
        capacity-run ops h ∙ ap (λ k. k.subscriber_queue_capacity) same in
      subst (λ n. All (λ s. (length s.queue ≤ n) × IsAlone s.queue) (run ops h).subscribers) kept
        (alone (run ops h).subscriber_queue_capacity (run ops h).next_queue (run ops h).subscribers
          v.served)
