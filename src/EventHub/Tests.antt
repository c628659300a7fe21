-- ===== src/EventHub/Tests.antt =====
-- A small hub of src/application/events.py at work.
use i_ja_for_u.Base.{
  All, ◌≤◌, length, ℕ, ◌+◌, false, none, some, List, [], ◌∷◌, ◌≡◌, refl, leb, if◌then◌else◌, length,
  drop, map, push_bounded, arith,
}
use i_ja_for_u.EventHub.Cursor.{
  Text, encode_cursor, decode_cursor, decimal, digits, to_number, all_digits, is_ascii_decimal,
  partition,
}
use i_ja_for_u.EventHub.Cursor.RoundTrip.{IsStreamId, decode_cursor-encode_cursor}
use i_ja_for_u.EventHub.{
  RuntimeEvent, EventHub, Op, subscribes, publishes, calls_back, takes, ok, create, fresh_hub,
  current_cursor, subscribe, event_of, apply, run, published, log, dispatch, notify, record_event,
  fan_out, enqueue, enqueue_at, take_at, take_frame, next_call, run_callback, resync_event, replay,
  rejected, accepted,
}
use i_ja_for_u.EventHub.Replay.{replay-log}
use i_ja_for_u.EventHub.Bounds.{IsAlone, created-IsAlone}
use i_ja_for_u.EventHub.Queues.{queue_of}
use i_ja_for_u.EventHub.Delivery.{Served, all_taken, taken, no_silent_loss}

abbrev stream : Text
stream =
    97 ∷ 97 ∷ 97 ∷ 97 ∷ 97 ∷ 97 ∷ 97 ∷ 97 ∷ 97 ∷ 97 ∷ 97 ∷ 97 ∷ 97 ∷ 97 ∷ 97 ∷ 97 ∷ 48 ∷ 48 ∷ 48
    ∷ 48 ∷ 48 ∷ 48 ∷ 48 ∷ 48 ∷ 48 ∷ 48 ∷ 48 ∷ 48 ∷ 48 ∷ 48 ∷ 48 ∷ 48 ∷ []

stream-IsStreamId : IsStreamId stream
stream-IsStreamId = omega arith

-- Room for two events, and for one frame in each queue.
abbrev hub : EventHub ℕ
hub = fresh_hub 2 1 stream

hub_created : create 2 1 stream ≡ ok hub
unfolding create
hub_created = refl

abbrev publish : ℕ → Op ℕ
publish n = publishes none (λ l. false) "message.committed" n

abbrev ops : List (Op ℕ)
ops = publish 10 ∷ publish 20 ∷ publish 30 ∷ []

program : Unit {0}
unfolding run apply published log dispatch notify record_event fan_out enqueue enqueue_at take_at
    take_frame next_call run_callback resync_event event_of push_bounded subscribe all_taken taken
    queue_of encode_cursor decode_cursor decimal digits to_number all_digits is_ascii_decimal
    partition
program = tt

length-log : length (log ops hub) ≡ 3
unfolding program
length-log = refl

decode_cursor-encode_cursor_example :
    decode_cursor (encode_cursor stream 1024) ≡ some (stream, 1024)
decode_cursor-encode_cursor_example =
    decode_cursor-encode_cursor stream 1024 stream-IsStreamId (omega arith)

replay-log_example :
    (current_cursor (run ops hub) ≡ encode_cursor stream (length (log ops hub)))
    × (replay (some (encode_cursor stream 1)) (run ops hub) ≡ (
        if leb (length (log ops hub)) (1 + 2)
        then accepted (run ops hub) (drop 1 (log ops hub))
        else rejected (run ops hub) "history_expired"))
replay-log_example =
    replay-log 2 1 stream ops 1 hub hub_created stream-IsStreamId (omega (arith, length-log))
      (omega arith)

created-IsAlone_example :
    All (λ s. (length s.queue ≤ 1) × IsAlone s.queue) (run (subscribes none ∷ ops) hub).subscribers
created-IsAlone_example = created-IsAlone 2 1 stream (subscribes none ∷ ops) hub hub_created

abbrev later : List (Op ℕ)
later = publish 10 ∷ takes 0 ∷ publish 20 ∷ publish 30 ∷ publish 40 ∷ []

no_silent_loss_example :
    Served 0
      (run later (subscribe none hub))
      (log later (subscribe none hub))
      (all_taken 0 later (subscribe none hub))
unfolding run
no_silent_loss_example =
    no_silent_loss 2 1 stream [] later none hub hub_created (refl, (tt, (refl, (refl, (refl, tt)))))

-- Event 1 waits for loop 7 while event 2, published on loop 7 itself, goes to the queue at once.
abbrev crossing : List (Op ℕ)
crossing =
    subscribes (some 7)
    ∷ publishes none (λ l. false) "log.appended" 10
    ∷ publishes (some 7) (λ l. false) "message.committed" 20
    ∷ calls_back 0
    ∷ []

out_of_order :
    map
      (λ (e : RuntimeEvent ℕ). e.event_seq)
      (queue_of 0 (run crossing (fresh_hub 9 9 stream)).subscribers)
    ≡ 2 ∷ 1 ∷ []
unfolding program
out_of_order = refl
