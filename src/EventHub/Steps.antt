-- ===== src/EventHub/Steps.antt =====
-- The state and the operations of `EventHub` in src/application/events.py.
use text.Mathlib.Text.{◌==◌ as str_eq}
use i_ja_for_u.Base.{
  ℕ, ◌+◌, String, Bool, true, false, not, Option, none, some, List, [], ◌∷◌, ◌++◌, ltb, leb, ◌==◌,
  if◌then◌else◌, length, map, push_bounded, eqb_list, ◌≡◌, ◌≤◌, arith,
}
use mathlib.Core.List.{tail}
use i_ja_for_u.EventHub.Cursor.{Text, encode_cursor, decode_cursor}

-- The payload of a caller, or that of `_resync_event_locked`.
pub data Payload (P : Type 0) : Type 0 where
  given : P → Payload P
  resync : (reason : String) (snapshot_required : Bool) (current_cursor : Text) → Payload P

pub record RuntimeEvent (P : Type 0) : Type 0 where
  pub type : String
  pub payload : Payload P
  pub event_seq : ℕ
  pub cursor : Text
  pub stream_id : Text

pub record EventReplay (P : Type 0) : Type 0 where
  pub events : List (RuntimeEvent P)
  pub current_cursor : Text
  pub resync_required : Bool
  pub reason : Option String

-- `_SubscriberState` with its queue.
pub record Subscriber (P : Type 0) : Type 0 where
  pub queue_id : ℕ
  pub loop : Option ℕ
  pub overflowed : Bool
  pub queue : List (RuntimeEvent P)

pub record EventHub (P : Type 0) : Type 0 where
  pub history_capacity : ℕ
  pub subscriber_queue_capacity : ℕ
  pub history : List (RuntimeEvent P)
  pub subscribers : List (Subscriber P)
  pub stream_id : Text
  pub event_seq : ℕ
  pub next_queue : ℕ
  pub scheduled : List (ℕ × RuntimeEvent P)

pub data HubError : Type 0 where
  history_capacity_too_small queue_capacity_too_small empty_event_type : HubError

pub data Result {ℓ} (A : Type ℓ) : Type ℓ where
  ok : A → Result A
  err : HubError → Result A

-- Whether `state.loop is not None and state.loop is not current_loop`.
abbrev pub is_other_loop : Option ℕ → Option ℕ → Bool
is_other_loop none current = false
is_other_loop (some l) none = true
is_other_loop (some l) (some m) = not (l == m)

abbrev pub is_closed : (ℕ → Bool) → Option ℕ → Bool
is_closed closed none = false
is_closed closed (some l) = closed l

module _ {P : Type 0} where
  abbrev pub fresh_hub : (history_capacity queue_capacity : ℕ) → Text → EventHub P
  fresh_hub history_capacity queue_capacity stream_id = record {
    history_capacity = history_capacity;
    subscriber_queue_capacity = queue_capacity;
    history = [];
    subscribers = [];
    stream_id = stream_id;
    event_seq = 0;
    next_queue = 0;
    scheduled = [];
  }

  -- `__init__`; the stream id is the `uuid4().hex` of the process.
  unfoldable pub create : (history_capacity queue_capacity : ℕ) → Text → Result (EventHub P)
  create history_capacity queue_capacity stream_id =
      if ltb history_capacity 1
      then err history_capacity_too_small
      else if ltb queue_capacity 1
      then err queue_capacity_too_small
      else ok (fresh_hub history_capacity queue_capacity stream_id)

  -- A hub is made with room for an event, and for a frame in each queue.
  pub create-eq-ok :
      (cap queue_cap : ℕ) (stream : Text) (h : EventHub P)
      → create cap queue_cap stream ≡ ok h
      → (1 ≤ cap) × (1 ≤ queue_cap) × (h ≡ fresh_hub cap queue_cap stream)
  unfolding create
  create-eq-ok cap queue_cap stream h e = ground arith

  unfoldable pub current_cursor : EventHub P → Text
  current_cursor h = encode_cursor h.stream_id h.event_seq

  unfoldable pub subscribe : Option ℕ → EventHub P → EventHub P
  subscribe loop h = record h {
    subscribers =
        h.subscribers
        ++ (record { queue_id = h.next_queue; loop = loop; overflowed = false; queue = [] }) ∷ [];
    next_queue = h.next_queue + 1;
  }

  unfoldable pub remove_subscriber : ℕ → List (Subscriber P) → List (Subscriber P)
  remove_subscriber q [] = []
  remove_subscriber q (s ∷ ss) =
      let rest = remove_subscriber q ss in if s.queue_id == q then rest else s ∷ rest

  unfoldable pub unsubscribe : ℕ → EventHub P → EventHub P
  unsubscribe q h = record h { subscribers = remove_subscriber q h.subscribers }

  -- `_resync_event_locked`
  unfoldable pub resync_event : EventHub P → String → RuntimeEvent P
  resync_event h reason = record {
    type = "control.resync_required";
    payload = resync reason true (encode_cursor h.stream_id h.event_seq);
    event_seq = h.event_seq;
    cursor = encode_cursor h.stream_id h.event_seq;
    stream_id = h.stream_id;
  }

  -- `_enqueue_locked`: `h` gives the capacity and the control frame.
  unfoldable pub enqueue : EventHub P → RuntimeEvent P → Subscriber P → Subscriber P
  enqueue h event s =
      if s.overflowed
      then s
      else if leb h.subscriber_queue_capacity (length s.queue)
      then record s { queue = resync_event h "slow_consumer" ∷ []; overflowed = true }
      else record s { queue = s.queue ++ event ∷ [] }

  -- `_enqueue_from_subscriber_loop`, for the subscriber of queue `q` if there is one.
  unfoldable pub enqueue_at :
      EventHub P → ℕ → RuntimeEvent P → List (Subscriber P) → List (Subscriber P)
  enqueue_at h q event = map (λ s. if s.queue_id == q then enqueue h event s else s)

  -- The loop of `_dispatch` over the subscribers. `call_soon_threadsafe` raises `RuntimeError` for
  -- a loop that is closed, and the subscriber is dropped.
  unfoldable pub fan_out :
      EventHub P
      → Option ℕ
      → (ℕ → Bool)
      → RuntimeEvent P
      → List (Subscriber P)
      → List (Subscriber P) × List (ℕ × RuntimeEvent P)
  fan_out h current closed event [] = ([], [])
  fan_out h current closed event (s ∷ ss) =
      let (kept, calls) = fan_out h current closed event ss in
      if is_other_loop s.loop current
      then (if is_closed closed s.loop
          then (kept, calls)
          else (s ∷ kept, (s.queue_id, event) ∷ calls))
      else (enqueue h event s ∷ kept, calls)

  -- The event that `_dispatch` builds, with the next sequence number.
  unfoldable pub event_of : EventHub P → String → P → RuntimeEvent P
  event_of h type payload = record {
    type = type;
    payload = given payload;
    event_seq = h.event_seq + 1;
    cursor = encode_cursor h.stream_id (h.event_seq + 1);
    stream_id = h.stream_id;
  }

  unfoldable pub record_event : EventHub P → RuntimeEvent P → EventHub P
  record_event h event = record h {
    event_seq = h.event_seq + 1;
    history = push_bounded h.history_capacity h.history event;
  }

  unfoldable pub notify : Option ℕ → (ℕ → Bool) → RuntimeEvent P → EventHub P → EventHub P
  notify current closed event h =
      let (kept, calls) = fan_out h current closed event h.subscribers in
      record h { subscribers = kept; scheduled = h.scheduled ++ calls }

  -- `_dispatch`, which `publish` and `publish_nowait` call on the running loop `current`.
  unfoldable pub dispatch : Option ℕ → (ℕ → Bool) → String → P → EventHub P → Result (EventHub P)
  dispatch current closed type payload h =
      if str_eq type ""
      then err empty_event_type
      else ok (
          notify current closed (event_of h type payload)
            (record_event h (event_of h type payload)))

  -- The events after a sequence number.
  unfoldable pub events_after : ℕ → List (RuntimeEvent P) → List (RuntimeEvent P)
  events_after n [] = []
  events_after n (e ∷ es) =
      let rest = events_after n es in if ltb n e.event_seq then e ∷ rest else rest

  abbrev pub rejected : EventHub P → String → EventReplay P
  rejected h reason = record {
    events = [];
    current_cursor = current_cursor h;
    resync_required = true;
    reason = some reason;
  }

  abbrev pub accepted : EventHub P → List (RuntimeEvent P) → EventReplay P
  accepted h events = record {
    events = events;
    current_cursor = current_cursor h;
    resync_required = false;
    reason = none;
  }

  -- Whether the oldest event that is kept comes too late for the sequence number.
  unfoldable pub has_expired : ℕ → List (RuntimeEvent P) → Bool
  has_expired n [] = false
  has_expired n (e ∷ es) = ltb (n + 1) e.event_seq

  unfoldable pub replay_after : EventHub P → Option (Text × ℕ) → EventReplay P
  replay_after h none = rejected h "invalid_cursor"
  replay_after h (some (stream_id, sequence)) =
      if not (eqb_list stream_id h.stream_id)
      then rejected h "stream_restarted"
      else if ltb h.event_seq sequence
      then rejected h "cursor_ahead"
      else if has_expired sequence h.history
      then rejected h "history_expired"
      else accepted h (events_after sequence h.history)

  unfoldable pub replay : Option Text → EventHub P → EventReplay P
  replay none h = accepted h []
  replay (some cursor) h = replay_after h (decode_cursor cursor)

  -- The callback of queue `q` that was scheduled first, and the others.
  unfoldable pub next_call :
      ℕ → List (ℕ × RuntimeEvent P) → Option (RuntimeEvent P) × List (ℕ × RuntimeEvent P)
  next_call q [] = (none, [])
  next_call q ((r, event) ∷ calls) =
      let (found, others) = next_call q calls in
      if r == q then (some event, calls) else (found, (r, event) ∷ others)

  -- The loop of queue `q` runs `_enqueue_from_subscriber_loop` for one scheduled event.
  unfoldable pub run_callback : ℕ → EventHub P → EventHub P
  run_callback q h =
      let (found, others) = next_call q h.scheduled in
      elim found [
        | none ↦ h
        | some event ↦ record h {
          subscribers = enqueue_at h q event h.subscribers;
          scheduled = others;
        }
      ]

  -- The consumer of queue `q` takes a frame off it.
  unfoldable pub take_at : ℕ → List (Subscriber P) → List (Subscriber P)
  take_at q = map (λ s. if s.queue_id == q then record s { queue = tail s.queue } else s)

  unfoldable pub take_frame : ℕ → EventHub P → EventHub P
  take_frame q h = record h { subscribers = take_at q h.subscribers }

-- What callers, consumers and event loops do with a hub, in any order.
pub data Op (P : Type 0) : Type 0 where
  subscribes : (loop : Option ℕ) → Op P
  unsubscribes : (q : ℕ) → Op P
  publishes : (current : Option ℕ) (closed : ℕ → Bool) (type : String) (payload : P) → Op P
  calls_back : (q : ℕ) → Op P
  takes : (q : ℕ) → Op P

abbrev pub settle : {P : Type 0} → EventHub P → Result (EventHub P) → EventHub P
settle h (ok h') = h'
settle h (err e) = h

module _ {P : Type 0} where
  unfoldable pub apply : Op P → EventHub P → EventHub P
  apply (subscribes loop) h = subscribe loop h
  apply (unsubscribes q) h = unsubscribe q h
  apply (publishes current closed type payload) h =
      settle h (dispatch current closed type payload h)
  apply (calls_back q) h = run_callback q h
  apply (takes q) h = take_frame q h

  unfoldable pub run : List (Op P) → EventHub P → EventHub P
  run [] h = h
  run (op ∷ ops) h = run ops (apply op h)

  -- What an operation publishes.
  unfoldable pub published : Op P → EventHub P → List (RuntimeEvent P)
  published (publishes current closed type payload) h =
      if str_eq type "" then [] else event_of h type payload ∷ []
  published _ h = []

  -- All that was published, with no bound.
  unfoldable pub log : List (Op P) → EventHub P → List (RuntimeEvent P)
  log [] h = []
  log (op ∷ ops) h = published op h ++ log ops (apply op h)
