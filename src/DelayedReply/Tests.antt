-- ===== src/DelayedReply/Tests.antt =====
-- Runs of plugins/delayed_reply/runtime.py, with the theorems applied to them.
use i_ja_for_u.Base.{ℕ, String, Bool, true, false, none, some, List, [], ◌∷◌, ◌++◌, map, ◌≡◌, refl}
use text.Mathlib.Text.{◌==◌ as str_eq}
use i_ja_for_u.Domain.{private_, InboundMessage}
use i_ja_for_u.DelayedReply.{
  InboundEnvelope, TypingEvent, DelayedReplySettings, PendingBatch, create_plugin, find_batch,
  put_batch, pop_batch, find_timer, remove_timer, arm_timer, buffer, ingest, typing, mark, fire,
  set_flush, submit, mark_all, stop, cancel_all, submit_stopped, Op, ingests, types, fires, submits,
  stops, apply, run, accepted_by, route_key, has_id, all_done,
}
use i_ja_for_u.DelayedReply.Counts.{count, count_in, count_flushing, count_waiting, count_all}
use i_ja_for_u.DelayedReply.Delivered.{created-conserves, drained-delivers_all, all_calm}
use i_ja_for_u.DelayedReply.Timers.{waiting-fires}
use i_ja_for_u.DelayedReply.Turns.{mark-append, stored_only, starts_turn}

program : Unit {0}
unfolding create_plugin find_batch put_batch pop_batch find_timer remove_timer arm_timer buffer
    ingest typing mark fire set_flush submit mark_all stop cancel_all submit_stopped apply run
    accepted_by route_key has_id all_done count count_in count_flushing count_waiting all_calm
program = tt

abbrev settings : DelayedReplySettings
settings = record { message_delay_seconds = 5000; typing_delay_seconds = 10000 }

abbrev envelope : String → InboundEnvelope
envelope id = record {
  message = record {
    platform = "qq";
    account_id = "bot";
    external_message_id = id;
    external_chat_id = "7";
    sender_id = "u";
    sender_name = "Mei";
    chat_type = private_;
    components = [];
    received_at = 0;
  };
  session_display_name = "Mei";
  schedule_turn = true;
  schedule_duplicate = false;
  debounce_seconds = none;
}

abbrev typing_now : TypingEvent
typing_now = record {
  platform = "qq";
  account_id = "bot";
  external_chat_id = "7";
  chat_type = private_;
  sender_id = "u";
}

-- Two messages, one of them twice, and a sign of typing.
abbrev waiting : List Op
waiting =
    ingests (envelope "a") ∷ ingests (envelope "a") ∷ types typing_now ∷ ingests (envelope "b") ∷ []

-- The first timers are gone; the third one submits the batch.
abbrev submitted : List Op
submitted =
    ingests (envelope "a")
    ∷ ingests (envelope "a")
    ∷ types typing_now
    ∷ ingests (envelope "b")
    ∷ fires 0
    ∷ fires 1
    ∷ fires 2
    ∷ submits 0 false
    ∷ submits 0 false
    ∷ stops
    ∷ []

abbrev is_b : InboundMessage → Bool
is_b m = str_eq m.external_message_id "b"

handed_on :
    map
      (λ (e : InboundEnvelope). e.schedule_turn)
      (run submitted (create_plugin settings)).forwarded
    ≡ false ∷ true ∷ []
unfolding program
handed_on = refl

created-conserves_example :
    count_all is_b (run submitted (create_plugin settings))
    ≡ count is_b (accepted_by submitted (create_plugin settings))
created-conserves_example = created-conserves is_b settings submitted

calm : all_calm submitted ≡ true
unfolding program
calm = refl

no_batch : (run submitted (create_plugin settings)).batches ≡ []
unfolding program
no_batch = refl

no_flush : all_done (run submitted (create_plugin settings)).flushing ≡ true
unfolding program
no_flush = refl

no_stop_flush : (run submitted (create_plugin settings)).stop_flush ≡ []
unfolding program
no_stop_flush = refl

drained-delivers_all_example :
    count_in is_b (run submitted (create_plugin settings)).forwarded
    ≡ count is_b (accepted_by submitted (create_plugin settings))
drained-delivers_all_example =
    drained-delivers_all is_b settings submitted calm no_batch no_flush no_stop_flush

-- The route of the messages, and their batch.
abbrev route : String
route = route_key "qq" "bot" "7" "u"

abbrev batch : PendingBatch
batch = record {
  envelopes = envelope "a" ∷ envelope "b" ∷ [];
  external_message_ids = "b" ∷ "a" ∷ [];
  typing_extended = false;
  generation = 3;
  timer = some 2;
}

batch_waits : find_batch route (run waiting (create_plugin settings)).batches ≡ some batch
unfolding program
batch_waits = refl

waiting-fires_example :
    (n : ℕ) × ((batch.timer ≡ some n)
      × (find_batch route (fire n (run waiting (create_plugin settings))).batches ≡ none)
      × ((fire n (run waiting (create_plugin settings))).flushing
          ≡ (run waiting (create_plugin settings)).flushing ++ mark batch.envelopes ∷ []))
waiting-fires_example = waiting-fires settings waiting route batch batch_waits

mark-append_example :
    mark (envelope "a" ∷ envelope "b" ∷ [])
    ≡ stored_only (envelope "a") ∷ starts_turn (envelope "b") ∷ []
mark-append_example = mark-append (envelope "a" ∷ []) (envelope "b")
