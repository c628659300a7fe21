-- ===== src/DelayedReply.antt =====
-- plugins/delayed_reply/runtime.py: the buffer that holds the messages of a private chat until the
-- user stops typing. A timer is a task with a number; a cancelled task is gone. What a timer does
-- after its sleep, and each call of the core while a batch is submitted, is a step of its own.
mod Counts
pub mod Conservation
pub mod Delivered
pub mod Turns
mod Lookups
mod Armed
pub mod Timers
mod Tests
use Prim.Native.String.{◌++◌ as str_append}
use text.Mathlib.Text.{◌==◌ as str_eq}
use i_ja_for_u.Base.{
  ℕ, zero, suc, ◌+◌, String, Bool, true, false, not, ◌&&◌, ◌||◌, Option, none, some, List, [], ◌∷◌,
  ◌++◌, map, ◌==◌, if◌then◌else◌,
}
use i_ja_for_u.Domain.{ChatType, private_, group, InboundMessage}

-- plugins/_host/contracts.py. The role of the sender plays no part. Times are in milliseconds.
pub record InboundEnvelope : Type 0 where
  pub message : InboundMessage
  pub session_display_name : String
  pub schedule_turn : Bool
  pub schedule_duplicate : Bool
  pub debounce_seconds : Option ℕ

pub record TypingEvent : Type 0 where
  pub platform : String
  pub account_id : String
  pub external_chat_id : String
  pub chat_type : ChatType
  pub sender_id : String

pub record DelayedReplySettings : Type 0 where
  pub message_delay_seconds : ℕ
  pub typing_delay_seconds : ℕ

-- `timer` is the number of the task.
pub record PendingBatch : Type 0 where
  pub envelopes : List InboundEnvelope
  pub external_message_ids : List String
  pub typing_extended : Bool
  pub generation : ℕ
  pub timer : Option ℕ

-- A task in `_wait_and_flush` that has not gone past the generation test.
pub record Timer : Type 0 where
  pub task : ℕ
  pub key : String
  pub generation : ℕ
  pub delay : ℕ

-- `flushing` has what each task in `_flush` is still to submit, and `stop_flush` what `stop` is.
-- `forwarded` has the calls of `call_next`, and `lost` what a raised exception kept from the core.
pub record DelayedReplyPlugin : Type 0 where
  pub settings : DelayedReplySettings
  pub batches : List (String × PendingBatch)
  pub timers : List Timer
  pub stopping : Bool
  pub flushing : List (List InboundEnvelope)
  pub stop_flush : List InboundEnvelope
  pub forwarded : List InboundEnvelope
  pub lost : List InboundEnvelope
  pub next_task : ℕ

-- What `ingest` returns: what the core returned, or its own result.
pub data IngressResult : Type 0 where
  passed_on buffered duplicate : IngressResult

unfoldable pub create_plugin : DelayedReplySettings → DelayedReplyPlugin
create_plugin settings = record {
  settings = settings;
  batches = [];
  timers = [];
  stopping = false;
  flushing = [];
  stop_flush = [];
  forwarded = [];
  lost = [];
  next_task = 0;
}

abbrev pub is_private : ChatType → Bool
is_private private_ = true
is_private group = false

unfoldable pub route_key : (platform account_id external_chat_id sender_id : String) → String
route_key platform account_id external_chat_id sender_id = str_append platform (
    str_append "\u{1f}" (
      str_append account_id
        (str_append "\u{1f}" (str_append external_chat_id (str_append "\u{1f}" sender_id)))))

unfoldable pub has_id : String → List String → Bool
has_id id [] = false
has_id id (x ∷ xs) = str_eq x id || has_id id xs

-- `_batches.get`, an assignment to `_batches[key]`, and `_batches.pop`.
unfoldable pub find_batch : String → List (String × PendingBatch) → Option PendingBatch
find_batch key [] = none
find_batch key ((k, b) ∷ bs) = if str_eq k key then some b else find_batch key bs

unfoldable pub put_batch :
    String → PendingBatch → List (String × PendingBatch) → List (String × PendingBatch)
put_batch key b [] = (key, b) ∷ []
put_batch key b ((k, c) ∷ bs) =
    let rest = put_batch key b bs in if str_eq k key then (k, b) ∷ bs else (k, c) ∷ rest

unfoldable pub pop_batch : String → List (String × PendingBatch) → List (String × PendingBatch)
pop_batch key [] = []
pop_batch key ((k, c) ∷ bs) =
    let rest = pop_batch key bs in if str_eq k key then bs else (k, c) ∷ rest

unfoldable pub find_timer : ℕ → List Timer → Option Timer
find_timer n [] = none
find_timer n (t ∷ ts) = if t.task == n then some t else find_timer n ts

unfoldable pub remove_timer : ℕ → List Timer → List Timer
remove_timer n [] = []
remove_timer n (t ∷ ts) = let rest = remove_timer n ts in if t.task == n then rest else t ∷ rest

abbrev pub cancel : Option ℕ → List Timer → List Timer
cancel none ts = ts
cancel (some n) ts = remove_timer n ts

abbrev pub empty_batch : PendingBatch
empty_batch = record {
  envelopes = [];
  external_message_ids = [];
  typing_extended = false;
  generation = 0;
  timer = none;
}

-- `_arm_timer`
unfoldable pub arm_timer :
    String → PendingBatch → (delay : ℕ) → DelayedReplyPlugin → DelayedReplyPlugin
arm_timer key batch delay s = record s {
  batches =
      put_batch key (record batch { generation = batch.generation + 1; timer = some s.next_task })
        s.batches;
  timers =
      cancel batch.timer s.timers
      ++ (record {
        task = s.next_task;
        key = key;
        generation = batch.generation + 1;
        delay = delay;
      })
        ∷ [];
  next_task = s.next_task + 1;
}

abbrev pub add_envelope : InboundEnvelope → PendingBatch → PendingBatch
add_envelope e batch = record batch {
  envelopes = batch.envelopes ++ e ∷ [];
  external_message_ids =
      if str_eq e.message.external_message_id ""
      then batch.external_message_ids
      else e.message.external_message_id ∷ batch.external_message_ids;
  typing_extended = false;
}

abbrev pub or_empty : Option PendingBatch → PendingBatch
or_empty none = empty_batch
or_empty (some b) = b

abbrev pub key_of : InboundMessage → String
key_of m = route_key m.platform m.account_id m.external_chat_id m.sender_id

-- `ingest` for a private message while the plugin runs, with the batch of its route.
unfoldable pub buffer :
    InboundEnvelope → PendingBatch → DelayedReplyPlugin → IngressResult × DelayedReplyPlugin
buffer e batch s =
    if not (str_eq e.message.external_message_id "")
      && has_id e.message.external_message_id batch.external_message_ids
    then (duplicate, s)
    else (
      buffered,
      arm_timer (key_of e.message) (add_envelope e batch) s.settings.message_delay_seconds s,
    )

unfoldable pub ingest : InboundEnvelope → DelayedReplyPlugin → IngressResult × DelayedReplyPlugin
ingest e s =
    if not (is_private e.message.chat_type) || s.stopping
    then (passed_on, record s { forwarded = s.forwarded ++ e ∷ [] })
    else buffer e (or_empty (find_batch (key_of e.message) s.batches)) s

-- `typing`, but for the call of `call_next`, which hands the event on in each case.
abbrev pub extend : String → Option PendingBatch → DelayedReplyPlugin → DelayedReplyPlugin
extend key none s = s
extend key (some batch) s =
    if batch.typing_extended
    then s
    else arm_timer key (record batch { typing_extended = true }) s.settings.typing_delay_seconds s

abbrev pub key_of_typing : TypingEvent → String
key_of_typing t = route_key t.platform t.account_id t.external_chat_id t.sender_id

unfoldable pub typing : TypingEvent → DelayedReplyPlugin → DelayedReplyPlugin
typing t s =
    if not (is_private t.chat_type)
    then s
    else extend (key_of_typing t) (find_batch (key_of_typing t) s.batches) s

-- The envelopes that `_flush` submits: only the last one schedules a turn.
unfoldable pub mark : List InboundEnvelope → List InboundEnvelope
mark [] = []
mark (e ∷ []) =
    (record e { schedule_turn = true; schedule_duplicate = true; debounce_seconds = some 0 }) ∷ []
mark (e ∷ f ∷ es) =
    (record e { schedule_turn = false; schedule_duplicate = false; debounce_seconds = none })
    ∷ mark (f ∷ es)

-- `_wait_and_flush` after the sleep, up to its call of `_flush`, with the batch of its key.
abbrev pub fire_batch : ℕ → Timer → Option PendingBatch → DelayedReplyPlugin → DelayedReplyPlugin
fire_batch n t none s = record s { timers = remove_timer n s.timers }
fire_batch n t (some batch) s =
    if batch.generation == t.generation
    then record s {
      timers = remove_timer n s.timers;
      batches = pop_batch t.key s.batches;
      flushing = s.flushing ++ mark batch.envelopes ∷ [];
    }
    else record s { timers = remove_timer n s.timers }

abbrev pub fire_timer : ℕ → Option Timer → DelayedReplyPlugin → DelayedReplyPlugin
fire_timer n none s = s
fire_timer n (some t) s = fire_batch n t (find_batch t.key s.batches) s

unfoldable pub fire : ℕ → DelayedReplyPlugin → DelayedReplyPlugin
fire n s = fire_timer n (find_timer n s.timers) s

-- One call of `call_next` in `_flush`, which may raise: what is still to be submitted, and what is
-- not submitted any more.
abbrev pub still : (raised : Bool) → List InboundEnvelope → List InboundEnvelope
still true es = []
still false es = es

abbrev pub dropped_by : (raised : Bool) → List InboundEnvelope → List InboundEnvelope
dropped_by true es = es
dropped_by false es = []

unfoldable pub all_done : List (List InboundEnvelope) → Bool
all_done [] = true
all_done ([] ∷ fs) = all_done fs
all_done ((e ∷ es) ∷ fs) = false

abbrev pub next_of : List (List InboundEnvelope) → ℕ → List InboundEnvelope
next_of [] i = []
next_of (f ∷ fs) zero = f
next_of (f ∷ fs) (suc i) = next_of fs i

unfoldable pub set_flush :
    ℕ → List InboundEnvelope → List (List InboundEnvelope) → List (List InboundEnvelope)
set_flush i es [] = []
set_flush zero es (f ∷ fs) = es ∷ fs
set_flush (suc i) es (f ∷ fs) = f ∷ set_flush i es fs

unfoldable pub submit : ℕ → (raised : Bool) → DelayedReplyPlugin → DelayedReplyPlugin
submit i raised s = elim (next_of s.flushing i) [
  | [] ↦ s
  | e ∷ es ↦ record s {
    forwarded = s.forwarded ++ e ∷ [];
    flushing = set_flush i (still raised es) s.flushing;
    lost = s.lost ++ dropped_by raised es;
  }
]

unfoldable pub cancel_all : List (String × PendingBatch) → List Timer → List Timer
cancel_all [] ts = ts
cancel_all ((k, b) ∷ bs) ts = cancel_all bs (cancel b.timer ts)

unfoldable pub mark_all : List (String × PendingBatch) → List InboundEnvelope
mark_all [] = []
mark_all ((k, b) ∷ bs) = mark b.envelopes ++ mark_all bs

-- `stop` up to the end of its lock. What it then submits stands in `stop_flush`.
unfoldable pub stop : DelayedReplyPlugin → DelayedReplyPlugin
stop s = record s {
  stopping = true;
  batches = [];
  timers = cancel_all s.batches s.timers;
  stop_flush = s.stop_flush ++ mark_all s.batches;
}

-- One call of `call_next` in `stop`, which first waits for the tasks that submit batches.
unfoldable pub submit_stopped : (raised : Bool) → DelayedReplyPlugin → DelayedReplyPlugin
submit_stopped raised s =
    if all_done s.flushing
    then elim s.stop_flush [
      | [] ↦ s
      | e ∷ es ↦ record s {
        forwarded = s.forwarded ++ e ∷ [];
        stop_flush = still raised es;
        lost = s.lost ++ dropped_by raised es;
      }
    ]
    else s

abbrev pub start : DelayedReplyPlugin → DelayedReplyPlugin
start s = record s { stopping = false }

-- What the event loop runs, one part between two waits at a time.
pub data Op : Type 0 where
  ingests : InboundEnvelope → Op
  types : TypingEvent → Op
  fires : (task : ℕ) → Op
  submits : (flush : ℕ) (raised : Bool) → Op
  submits_stopped : (raised : Bool) → Op
  stops starts : Op

unfoldable pub apply : Op → DelayedReplyPlugin → DelayedReplyPlugin
apply (ingests e) s = (ingest e s).1
apply (types t) s = typing t s
apply (fires n) s = fire n s
apply (submits i raised) s = submit i raised s
apply (submits_stopped raised) s = submit_stopped raised s
apply stops s = stop s
apply starts s = start s

unfoldable pub run : List Op → DelayedReplyPlugin → DelayedReplyPlugin
run [] s = s
run (o ∷ os) s = run os (apply o s)

-- The messages that `ingest` took: all but the duplicates.
abbrev pub taken : InboundEnvelope → IngressResult → List InboundMessage
taken e duplicate = []
taken e _ = e.message ∷ []

abbrev pub accepted : Op → DelayedReplyPlugin → List InboundMessage
accepted (ingests e) s = taken e (ingest e s).0
accepted _ s = []

unfoldable pub accepted_by : List Op → DelayedReplyPlugin → List InboundMessage
accepted_by [] s = []
accepted_by (o ∷ os) s = accepted o s ++ accepted_by os (apply o s)
