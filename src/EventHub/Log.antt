-- ===== src/EventHub/Log.antt =====
-- The history of src/application/events.py is the window of the log of all that was published.
use mathlib.Core.List.{append_assoc}
use mathlib.Core.Path.{ap₂}
use text.Mathlib.Text.{◌==◌ as str_eq}
use i_ja_for_u.Base.{
  ℕ, zero, suc, ◌+◌, ◌-◌, ◌≤◌, ◌<◌, Bool, false, Option, List, [], ◌∷◌, ◌++◌, ◌≡◌, refl, sym, ap,
  ◌∙◌, inl, inr, ltb, length, drop, last_n, drop-nil, drop-eq_of_eq, length-append,
  push_bounded-last_n, append-nil, subst, push_bounded, Bool-cases, arith, String,
}
use i_ja_for_u.EventHub.Cursor.{Text}
use i_ja_for_u.EventHub.{
  RuntimeEvent, EventHub, Op, subscribes, unsubscribes, publishes, calls_back, takes, ok, create,
  create-eq-ok, subscribe, unsubscribe, notify, record_event, event_of, dispatch, run_callback,
  take_frame, apply, run, published, log, events_after, has_expired,
}

module _ {P : Type 0} where
  -- The sequence numbers run from `k + 1` without a gap.
  abbrev pub Numbered : ℕ → List (RuntimeEvent P) → Type 0
  Numbered k [] = Unit
  Numbered k (e ∷ es) = (e.event_seq ≡ suc k) × Numbered (suc k) es

  Numbered-snoc :
      (k : ℕ) (es : List (RuntimeEvent P)) (e : RuntimeEvent P)
      → Numbered k es
      → e.event_seq ≡ suc (k + length es)
      → Numbered k (es ++ e ∷ [])
  Numbered-snoc k [] e n h = (omega arith, tt)
  Numbered-snoc k (x ∷ es) e n h = (n.0, Numbered-snoc (suc k) es e n.1 (omega arith))

  pub Numbered-drop :
      (k j m : ℕ) (es : List (RuntimeEvent P)) → m ≡ k + j → Numbered k es → Numbered m (drop j es)
  Numbered-drop k zero m es e n = subst (λ i. Numbered i es) {x = k} {y = m} (omega arith) n
  Numbered-drop k (suc j) m [] e n = tt
  Numbered-drop k (suc j) m (x ∷ es) e n = Numbered-drop (suc k) j m es (omega arith) n.1

  pub events_after-drop :
      (n k : ℕ) (es : List (RuntimeEvent P)) → Numbered k es → events_after n es ≡ drop (n - k) es
  unfolding events_after
  events_after-drop n k [] h = sym (drop-nil (n - k))
  events_after-drop n k (e ∷ es) h = elim (Bool-cases (ltb n e.event_seq)) [
    | inl early ↦ rw early (
        ap (λ l. e ∷ l)
          (events_after-drop n (suc k) es h.1
            ∙ drop-eq_of_eq {j = n - suc k} {k = 0} es (ground arith))
        ∙ drop-eq_of_eq {j = 0} {k = n - k} (e ∷ es) (ground arith))
    | inr late ↦ rw late (
        events_after-drop n (suc k) es h.1
        ∙ drop-eq_of_eq {j = suc (n - suc k)} {k = n - k} (e ∷ es) (ground arith))
  ]

  pub has_expired_iff :
      (n k : ℕ) (es : List (RuntimeEvent P))
      → Numbered k es
      → 0 < length es
      → has_expired n es ≡ ltb n k
  unfolding has_expired
  has_expired_iff n k [] h p = absurd (omega arith)
  has_expired_iff n k (e ∷ es) h p = ground arith

  pub has_expired-nil :
      (n : ℕ) (es : List (RuntimeEvent P)) → length es ≡ 0 → has_expired n es ≡ false
  unfolding has_expired
  has_expired-nil n [] h = refl
  has_expired-nil n (e ∷ es) h = absurd (omega arith)

  -- The hub after the events `l`.
  pub record Logged (cap : ℕ) (stream : Text) (h : EventHub P) (l : List (RuntimeEvent P))
      : Type 0 where
    pub capacity : h.history_capacity ≡ cap
    pub stream_kept : h.stream_id ≡ stream
    pub counted : h.event_seq ≡ length l
    pub window : h.history ≡ last_n cap l
    pub numbered : Numbered 0 l

  record SameLog (h h' : EventHub P) : Type 0 where
    capacity : h'.history_capacity ≡ h.history_capacity
    stream_kept : h'.stream_id ≡ h.stream_id
    counted : h'.event_seq ≡ h.event_seq
    window : h'.history ≡ h.history

  module _ (cap : ℕ) (stream : Text) where
    Logged-same :
        (h h' : EventHub P) (l : List (RuntimeEvent P))
        → SameLog h h'
        → Logged cap stream h l
        → Logged cap stream h' (l ++ [])
    Logged-same h h' l s g = rw (append-nil l) (record {
      capacity = s.capacity ∙ g.capacity;
      stream_kept = s.stream_kept ∙ g.stream_kept;
      counted = s.counted ∙ g.counted;
      window = s.window ∙ g.window;
      numbered = g.numbered;
    })

    Logged-record_event :
        (h : EventHub P) (l : List (RuntimeEvent P)) (type : String) (payload : P)
        → Logged cap stream h l
        → Logged cap stream
            (record_event h (event_of h type payload))
            (l ++ event_of h type payload ∷ [])
    unfolding record_event event_of
    Logged-record_event h l type payload g = record {
      capacity = g.capacity;
      stream_kept = g.stream_kept;
      counted = omega (arith, length-append l (event_of h type payload ∷ []), g.counted);
      window =
          ap₂ (λ k xs. push_bounded k xs (event_of h type payload)) g.capacity g.window
          ∙ push_bounded-last_n cap l (event_of h type payload);
      numbered = Numbered-snoc 0 l _ g.numbered (omega (arith, g.counted));
    }

    run_callback-SameLog : (q : ℕ) (h : EventHub P) → SameLog h (run_callback q h)
    unfolding run_callback
    run_callback-SameLog q h = ground arith

    notify-SameLog :
        (current : Option ℕ) (closed : ℕ → Bool) (e : RuntimeEvent P) (h : EventHub P)
        → SameLog h (notify current closed e h)
    unfolding notify
    notify-SameLog current closed e h = ground arith

    Logged-notify :
        (current : Option ℕ) (closed : ℕ → Bool) (e : RuntimeEvent P) (h : EventHub P)
        (l : List (RuntimeEvent P))
        → Logged cap stream h l
        → Logged cap stream (notify current closed e h) l
    unfolding notify
    Logged-notify current closed e h l g = record {
      capacity = g.capacity;
      stream_kept = g.stream_kept;
      counted = g.counted;
      window = g.window;
      numbered = g.numbered;
    }

    apply-Logged :
        (op : Op P) (h : EventHub P) (l : List (RuntimeEvent P))
        → Logged cap stream h l
        → Logged cap stream (apply op h) (l ++ published op h)
    unfolding apply published subscribe unsubscribe take_frame dispatch
    apply-Logged (subscribes loop) h l g =
        Logged-same h (subscribe loop h) l
          (record { capacity = refl; stream_kept = refl; counted = refl; window = refl }) g
    apply-Logged (unsubscribes q) h l g =
        Logged-same h (unsubscribe q h) l
          (record { capacity = refl; stream_kept = refl; counted = refl; window = refl }) g
    apply-Logged (calls_back q) h l g =
        Logged-same h (run_callback q h) l (run_callback-SameLog q h) g
    apply-Logged (takes q) h l g =
        Logged-same h (take_frame q h) l
          (record { capacity = refl; stream_kept = refl; counted = refl; window = refl }) g
    apply-Logged (publishes current closed type payload) h l g =
        elim (Bool-cases (str_eq type "")) [
          | inl blank ↦ rw blank (rw (append-nil l) g)
          | inr named ↦ rw named (
              Logged-notify current closed (event_of h type payload)
                (record_event h (event_of h type payload)) _
                (Logged-record_event h l type payload g))
        ]

    pub run-Logged :
        (ops : List (Op P)) (h : EventHub P) (l : List (RuntimeEvent P))
        → Logged cap stream h l
        → Logged cap stream (run ops h) (l ++ log ops h)
    unfolding run log
    run-Logged [] h l g = rw (append-nil l) g
    run-Logged (op ∷ ops) h l g =
        subst (Logged cap stream (run ops (apply op h)))
          (append_assoc l (published op h) (log ops (apply op h)))
          (run-Logged ops (apply op h) (l ++ published op h) (apply-Logged op h l g))

  pub create-Logged :
      (cap queue_cap : ℕ) (stream : Text) (h : EventHub P)
      → create cap queue_cap stream ≡ ok h
      → Logged cap stream h [] × (1 ≤ cap)
  create-Logged cap queue_cap stream h e =
      let (room, _, same) = create-eq-ok cap queue_cap stream h e in
      (
        subst (λ k. Logged cap stream k []) (sym same)
            (record {
              capacity = refl;
              stream_kept = refl;
              counted = refl;
              window = sym (drop-nil (0 - cap));
              numbered = tt;
            }),
        room,
      )
