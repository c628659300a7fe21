-- ===== src/EventHub/Delivery.antt =====
-- What a consumer of src/application/events.py gets out of its queue.
use text.Mathlib.Text.{◌==◌ as str_eq}
use mathlib.Core.List.{tail}
use i_ja_for_u.Base.{
  ℕ, ◌<◌, Bool, true, false, Option, none, some, List, [], ◌∷◌, ◌++◌, ◌≡◌, ◌≢◌, refl, sym, ap, ◌∙◌,
  inl, inr, leb, ◌==◌, ==_iff, if◌then◌else◌, length, append-nil, append_assoc, Bool-cases,
  Option-cases, All, All-append, All-map, subst, arith, String,
}
use i_ja_for_u.EventHub.Cursor.{Text}
use i_ja_for_u.EventHub.{
  RuntimeEvent, resync, EventHub, Subscriber, Op, subscribes, unsubscribes, publishes, calls_back,
  takes, ok, create, subscribe, unsubscribe, notify, record_event, event_of, dispatch, enqueue,
  enqueue_at, run_callback, next_call, take_at, take_frame, resync_event, apply, run, published,
  log, is_other_loop,
}
use i_ja_for_u.EventHub.Bounds.{IsSound, next_call-All, run-IsSound, create-IsSound}
use i_ja_for_u.EventHub.Queues.{
  queue_of, Only, Quiet, Only-append, Absent-append, queue_of-Only, Only-remove, Only-map,
  queue_id-enqueue, fan_out-Only, Quiet-next_call,
}

module _ {P : Type 0} where
  abbrev pub first_frame : List (RuntimeEvent P) → List (RuntimeEvent P)
  first_frame [] = []
  first_frame (e ∷ es) = e ∷ []

  -- The frames that the consumer of queue `q` takes.
  unfoldable pub taken : ℕ → Op P → EventHub P → List (RuntimeEvent P)
  taken q (takes r) h = if r == q then first_frame (queue_of q h.subscribers) else []
  taken q _ h = []

  unfoldable pub all_taken : ℕ → List (Op P) → EventHub P → List (RuntimeEvent P)
  all_taken q [] h = []
  all_taken q (op ∷ ops) h = taken q op h ++ all_taken q ops (apply op h)

  -- The consumer stays subscribed, and events are published on its own loop.
  abbrev pub IsLocal : ℕ → Option ℕ → Op P → Type 0
  IsLocal q loop (unsubscribes r) = r ≢ q
  IsLocal q loop (publishes current closed type payload) = is_other_loop loop current ≡ false
  IsLocal q loop _ = Unit

  -- A consumer that was cut off has the first events, and then the control frame.
  pub record IsCut (seen frames : List (RuntimeEvent P)) : Type 0 where
    pub kept : List (RuntimeEvent P)
    pub lost : List (RuntimeEvent P)
    pub control : RuntimeEvent P
    pub split : seen ≡ kept ++ lost
    pub ends : frames ≡ kept ++ control ∷ []
    pub is_control : control.payload ≡ resync "slow_consumer" true control.cursor

  abbrev pub Delivered : Bool → (seen frames : List (RuntimeEvent P)) → Type 0
  Delivered false seen frames = frames ≡ seen
  Delivered true seen frames = IsCut seen frames

  Delivered-enqueue :
      (h : EventHub P) (e : RuntimeEvent P) (s : Subscriber P) (seen got : List (RuntimeEvent P))
      → Delivered s.overflowed seen (got ++ s.queue)
      → Delivered (enqueue h e s).overflowed (seen ++ e ∷ []) (got ++ (enqueue h e s).queue)
  unfolding enqueue resync_event
  Delivered-enqueue h e s seen got d = elim (Bool-cases s.overflowed) [
    | inl cut ↦
        let c : IsCut seen (got ++ s.queue) =
          subst (λ b. Delivered b seen (got ++ s.queue)) cut d in
        rw cut (record {
          kept = c.kept;
          lost = c.lost ++ e ∷ [];
          control = c.control;
          split = ap (λ l. l ++ e ∷ []) c.split ∙ append_assoc c.kept c.lost (e ∷ []);
          ends = c.ends;
          is_control = c.is_control;
        })
    | inr live ↦
        let d' : got ++ s.queue ≡ seen = subst (λ b. Delivered b seen (got ++ s.queue)) live d in
        let longer : seen ++ e ∷ [] ≡ got ++ (s.queue ++ e ∷ []) =
          ap (λ l. l ++ e ∷ []) (sym d') ∙ append_assoc got s.queue (e ∷ []) in
        elim (Bool-cases (leb h.subscriber_queue_capacity (length s.queue))) [
          | inl full ↦ rw live (
              rw full (record {
                kept = got;
                lost = s.queue ++ e ∷ [];
                control = resync_event h "slow_consumer";
                split = longer;
                ends = refl;
                is_control = refl;
              }))
          | inr fits ↦ rw live (rw fits (sym longer))
        ]
  ]

  Delivered-take :
      (b : Bool) (seen got queue : List (RuntimeEvent P))
      → Delivered b seen (got ++ queue)
      → Delivered b seen ((got ++ first_frame queue) ++ tail queue)
  Delivered-take b seen got queue d = subst (Delivered b seen) (moved queue) d
    where
      moved : (q : List (RuntimeEvent P)) → got ++ q ≡ (got ++ first_frame q) ++ tail q
      moved [] = sym (append-nil (got ++ []))
      moved (e ∷ es) = sym (append_assoc got (e ∷ []) es)

  loop-enqueue :
      (h : EventHub P) (e : RuntimeEvent P) (s : Subscriber P) → (enqueue h e s).loop ≡ s.loop
  unfolding enqueue
  loop-enqueue h e s = ground arith

  some_ne_none : (e : RuntimeEvent P) → some e ≢ none
  some_ne_none e h = cc

  -- A hub with a subscriber of queue `q` on `loop`, whose consumer has `got` what it took of the
  -- events `seen`.
  record Follows (q : ℕ) (loop : Option ℕ) (h : EventHub P) (seen got : List (RuntimeEvent P))
      : Type 0 where
    sub : Subscriber P
    only : Only q sub h.subscribers
    own : sub.loop ≡ loop
    given_out : q < h.next_queue
    quiet : Quiet q h.scheduled
    delivered : Delivered sub.overflowed seen (got ++ sub.queue)

  module _ (q : ℕ) (loop : Option ℕ) (h : EventHub P) (seen got : List (RuntimeEvent P))
      (v : Follows q loop h seen got) where
    Follows-idle : Follows q loop h (seen ++ []) (got ++ [])
    Follows-idle = rw (append-nil seen, append-nil got) v

    Follows-subscribe : (l : Option ℕ) → Follows q loop (subscribe l h) (seen ++ []) (got ++ [])
    unfolding subscribe
    Follows-subscribe l =
        rw (append-nil seen, append-nil got)
          (record {
            sub = v.sub;
            only =
                Only-append q v.sub h.subscribers _ v.only ((λ e. omega (arith, v.given_out)), tt);
            own = v.own;
            given_out = omega (arith, v.given_out);
            quiet = v.quiet;
            delivered = v.delivered;
          })

    Follows-unsubscribe :
        (r : ℕ) → r ≢ q → Follows q loop (unsubscribe r h) (seen ++ []) (got ++ [])
    unfolding unsubscribe
    Follows-unsubscribe r ne =
        rw (append-nil seen, append-nil got)
          (record {
            sub = v.sub;
            only = Only-remove q r v.sub h.subscribers ne v.only;
            own = v.own;
            given_out = v.given_out;
            quiet = v.quiet;
            delivered = v.delivered;
          })

    Follows-publish :
        (current : Option ℕ) (closed : ℕ → Bool) (type : String) (payload : P)
        → is_other_loop loop current ≡ false
        → Follows q loop
            (notify current closed
              (event_of h type payload)
              (record_event h (event_of h type payload)))
            (seen ++ event_of h type payload ∷ [])
            (got ++ [])
    unfolding notify record_event
    Follows-publish current closed type payload near =
        let h' : EventHub P = record_event h (event_of h type payload) in
        let (only', quiet') =
          fan_out-Only h' current closed (event_of h type payload) q v.sub h.subscribers
            (ap (λ l. is_other_loop l current) v.own ∙ near) v.only in
        rw (append-nil got) (record {
          sub = enqueue h' (event_of h type payload) v.sub;
          only = only';
          own = loop-enqueue h' (event_of h type payload) v.sub ∙ v.own;
          given_out = v.given_out;
          quiet = All-append _ h.scheduled _ v.quiet quiet';
          delivered = Delivered-enqueue h' (event_of h type payload) v.sub seen got v.delivered;
        })

    Follows-call_back : (r : ℕ) → Follows q loop (run_callback r h) (seen ++ []) (got ++ [])
    unfolding enqueue_at run_callback
    Follows-call_back r = elim (Option-cases (next_call r h.scheduled).0) [
      | inl e ↦ rw (e, run_callback) Follows-idle
      | inr (event, e) ↦ elim (Bool-cases (r == q)) [
        | inl here ↦
            let same : r ≡ q = (==_iff r q).0 here in
            absurd (
              some_ne_none event (
                sym e
                ∙ ap (λ k. (next_call k h.scheduled).0) same
                ∙ Quiet-next_call q h.scheduled v.quiet))
        | inr other ↦
            rw (e, run_callback)
              (rw (append-nil seen, append-nil got)
                (record {
                  sub = v.sub;
                  only =
                      Only-map q v.sub _ (λ x. x) (λ x. ground (arith, queue_id-enqueue h event x))
                        (λ x named. ground arith) h.subscribers v.only;
                  own = v.own;
                  given_out = v.given_out;
                  quiet = next_call-All _ r h.scheduled v.quiet;
                  delivered = v.delivered;
                }))
      ]
    ]

    Follows-take :
        (r : ℕ) → Follows q loop (take_frame r h) (seen ++ []) (got ++ taken q (takes r) h)
    unfolding take_frame taken take_at
    Follows-take r = elim (Bool-cases (r == q)) [
      | inl here ↦
          rw (append-nil seen, here, queue_of-Only q v.sub h.subscribers v.only)
            (record {
              sub = record v.sub { queue = tail v.sub.queue };
              only =
                  Only-map q v.sub _ (λ x. record x { queue = tail x.queue }) (λ x. ground arith)
                    (λ x named. ground arith) h.subscribers v.only;
              own = v.own;
              given_out = v.given_out;
              quiet = v.quiet;
              delivered = Delivered-take v.sub.overflowed seen got v.sub.queue v.delivered;
            })
      | inr other ↦
          rw (append-nil seen, other, append-nil got)
            (record {
              sub = v.sub;
              only =
                  Only-map q v.sub _ (λ x. x) (λ x. ground arith) (λ x named. ground arith)
                    h.subscribers v.only;
              own = v.own;
              given_out = v.given_out;
              quiet = v.quiet;
              delivered = v.delivered;
            })
    ]

  apply-Follows :
      (op : Op P) (q : ℕ) (loop : Option ℕ) (h : EventHub P) (seen got : List (RuntimeEvent P))
      → IsLocal q loop op
      → Follows q loop h seen got
      → Follows q loop (apply op h) (seen ++ published op h) (got ++ taken q op h)
  unfolding apply published taken dispatch
  apply-Follows (subscribes l) q loop h seen got near v = Follows-subscribe q loop h seen got v l
  apply-Follows (unsubscribes r) q loop h seen got near v =
      Follows-unsubscribe q loop h seen got v r near
  apply-Follows (calls_back r) q loop h seen got near v = Follows-call_back q loop h seen got v r
  apply-Follows (takes r) q loop h seen got near v = Follows-take q loop h seen got v r
  apply-Follows (publishes current closed type payload) q loop h seen got near v =
      elim (Bool-cases (str_eq type "")) [
        | inl blank ↦ rw blank (Follows-idle q loop h seen got v)
        | inr named ↦
            rw named (Follows-publish q loop h seen got v current closed type payload near)
      ]

  run-Follows :
      (ops : List (Op P)) (q : ℕ) (loop : Option ℕ) (h : EventHub P)
      (seen got : List (RuntimeEvent P))
      → All (IsLocal q loop) ops
      → Follows q loop h seen got
      → Follows q loop (run ops h) (seen ++ log ops h) (got ++ all_taken q ops h)
  unfolding run log all_taken
  run-Follows [] q loop h seen got near v = Follows-idle q loop h seen got v
  run-Follows (op ∷ ops) q loop h seen got near v =
      rw
        (
          ← append_assoc seen (published op h) (log ops (apply op h)),
          ← append_assoc got (taken q op h) (all_taken q ops (apply op h)),
        )
        (run-Follows ops q loop (apply op h) _ _ near.1
          (apply-Follows op q loop h seen got near.0 v))

  subscribe-Follows :
      (loop : Option ℕ) (h : EventHub P)
      → IsSound h
      → Follows h.next_queue loop (subscribe loop h) [] []
  unfolding subscribe
  subscribe-Follows loop h v = record {
    sub = record { queue_id = h.next_queue; loop = loop; overflowed = false; queue = [] };
    only =
        Absent-append h.next_queue _ h.subscribers
          (All-map _ _ h.subscribers (λ s w e. omega (arith, w.known)) v.served) refl;
    own = refl;
    given_out = omega arith;
    quiet = All-map _ _ h.scheduled (λ c w e. omega (arith, w.0)) v.calls_known;
    delivered = refl;
  }

  -- What the subscriber of queue `q` of a hub has to show for the events `seen`, its consumer
  -- having taken `got`.
  pub record Served (q : ℕ) (h : EventHub P) (seen got : List (RuntimeEvent P)) : Type 0 where
    pub overflowed : Bool
    pub delivered : Delivered overflowed seen (got ++ queue_of q h.subscribers)

  -- A consumer that subscribes to any hub in use and stays subscribed, while events are published
  -- on its own loop (or it has none), gets what is published in order: what it took and what
  -- waits in its queue are all the events published since, or, once it was too slow, the first of
  -- them and then the control frame that asks for a resync. No event is lost without that frame.
  pub no_silent_loss :
      (cap queue_cap : ℕ) (stream : Text) (before after : List (Op P)) (loop : Option ℕ)
      (h : EventHub P)
      → create cap queue_cap stream ≡ ok h
      → All (IsLocal (run before h).next_queue loop) after
      → Served
          (run before h).next_queue
          (run after (subscribe loop (run before h)))
          (log after (subscribe loop (run before h)))
          (all_taken (run before h).next_queue after (subscribe loop (run before h)))
  no_silent_loss cap queue_cap stream before after loop h made near =
      let h' : EventHub P = run before h in
      let v : Follows h'.next_queue loop (run after (subscribe loop h')) _ _ =
        run-Follows after h'.next_queue loop (subscribe loop h') [] [] near (
          subscribe-Follows loop h'
            (run-IsSound before h (create-IsSound cap queue_cap stream h made))) in
      record {
        overflowed = v.sub.overflowed;
        delivered = rw (queue_of-Only _ v.sub _ v.only) v.delivered;
      }
