-- ===== src/Outbound/Tests.antt =====
-- Runs of src/application/outbound.py on one message, with the theorems applied to them.
use i_ja_for_u.Base.{
  ℕ, String, is_some, ◌+◌, ◌≤◌, none, some, List, [], ◌∷◌, ◌≡◌, refl, ap, subst, Bool, false, inl,
  true, ltb, if◌then◌else◌, arith,
}
use i_ja_for_u.Domain.{
  ChatType, private_, reactive, DeliveryStatus, sent, failed, SessionView, OutboundMessage,
  DeliveryReceipt,
}
use i_ja_for_u.Outbound.Store.{
  Store, Codec, find_attempt, update_attempt, find_session, find_message, find_decision,
  find_policy, get_delivery, save_delivery, write_delivery,
}
use i_ja_for_u.Outbound.Batches.{
  prepare_outbound_batch, transition_delivery_to_prepared, list_recoverable_outbound_messages,
  recoverable_rows, insert_row,
}
use i_ja_for_u.Outbound.Commit.{
  commit_outbound, record_group_reply_sent, record_expression_usage, committed_external_message_id,
}
use i_ja_for_u.Outbound.Effects.{
  SendResult, receipt, raises, World, ◌>>=◌, pure, transact, query, publish, send,
}
use i_ja_for_u.Outbound.Status.{status_of}
use i_ja_for_u.Outbound.Moves.{IsFinal, sent_final, failed_final, Reaches, sends_of}
use i_ja_for_u.Outbound.AtMostOnce.{
  retries_of, charge, charges, at_most_once, perform_all-Reaches, settled_forever, sent_settled,
}
use i_ja_for_u.Outbound.Delivery.{deliver-sends_once}
use i_ja_for_u.Outbound.{
  Call, delivers, retries, recovers, restarts, deliver, perform_all, perform, deliver_from, resume,
  dispatch, finish, commit, save_and_publish, promote_blocked, retry_failed, promote, recover,
  recover_all, recover_one, prepare_batch, publish_all, expression_ids,
}

abbrev codec : Codec
codec = record {
  dumps_components = λ _. "[]";
  loads_components = λ _. [];
  dumps_refs = λ _. "[]";
  loads_refs = λ _. [];
  search_text = λ _. "";
  loads_forced = λ _. some true;
  id_le = λ _ _. true;
}

abbrev chat : SessionView
chat = record {
  id = "s1";
  platform = "qq";
  account_id = "bot";
  external_chat_id = "42";
  chat_type = private_;
  display_name = "Mei";
  updated_at = 0;
}

abbrev hello : OutboundMessage
hello = record {
  id = "m1";
  session_id = "s1";
  components = [];
  reply_to_message_id = none;
  origin = reactive;
  origin_run_id = some "t1";
  source_refs = [];
  created_at = 5;
}

abbrev answer : DeliveryStatus → DeliveryReceipt
answer st = record {
  outbound_id = "m1";
  status = st;
  external_message_id = some "x7";
  error_code = none;
  error_message = none;
  delivered_at = some 9;
}

-- The first send fails, and each later one succeeds.
abbrev channel : ℕ → SessionView → OutboundMessage → SendResult
channel i session m = if ltb i 1 then receipt (answer failed) else receipt (answer sent)

-- Every send succeeds.
abbrev good_channel : ℕ → SessionView → OutboundMessage → SendResult
good_channel i session m = receipt (answer sent)

abbrev name : ChatType → String
name _ = "ija"

abbrev empty : Store
empty = record {
  attempts = [];
  messages = [];
  sessions = chat ∷ [];
  decisions = [];
  policies = [];
  expressions = [];
  next_id = 1;
}

abbrev start : World
start = record { store = empty; sends = []; events = []; now = 7; steps_left = 50 }

program : Unit {0}
unfolding perform_all perform deliver deliver_from resume dispatch finish commit save_and_publish
    promote_blocked retry_failed promote recover recover_all recover_one prepare_batch publish_all
    ◌>>=◌ pure transact query publish send find_attempt update_attempt find_session find_message
    find_decision find_policy get_delivery save_delivery write_delivery prepare_outbound_batch
    transition_delivery_to_prepared list_recoverable_outbound_messages recoverable_rows insert_row
    commit_outbound record_group_reply_sent record_expression_usage committed_external_message_id
    expression_ids status_of sends_of charges charge
program = tt

receipt-status : {a b : DeliveryReceipt} → receipt a ≡ receipt b → a.status ≡ b.status
receipt-status {a} e = ap (λ x. elim x [ receipt r ↦ r.status | raises _ _ ↦ a.status ]) e

channel-answers :
    (i : ℕ) (session : SessionView) (m : OutboundMessage) (r : DeliveryReceipt)
    → channel i session m ≡ receipt r
    → IsFinal r.status
channel-answers i session m r e = by_case (ltb i 1) e
  where
    by_case :
        (b : Bool)
        → (if b then receipt (answer failed) else receipt (answer sent)) ≡ receipt r
        → IsFinal r.status
    by_case true h = subst IsFinal (receipt-status h) failed_final
    by_case false h = subst IsFinal (receipt-status h) sent_final

-- A failed delivery is retried once, and delivered again and again; the process restarts.
abbrev calls : List Call
calls =
    delivers chat hello
    ∷ delivers chat hello
    ∷ retries hello
    ∷ restarts 1 8
    ∷ delivers chat hello
    ∷ restarts 50 9
    ∷ delivers chat hello
    ∷ delivers chat hello
    ∷ recovers
    ∷ []

sent_twice : sends_of "m1" (perform_all codec channel name calls start).sends ≡ 2
unfolding program
sent_twice = refl

fresh : status_of "m1" empty ≡ none
unfolding program
fresh = refl

no_send : sends_of "m1" [] ≡ 0
unfolding program
no_send = refl

at_most_once_example :
    sends_of "m1" (perform_all codec channel name calls start).sends ≤ 1 + retries_of "m1" calls
at_most_once_example =
    at_most_once codec channel name channel-answers "m1" calls start fresh no_send

perform_all-Reaches_example :
    Reaches
      (status_of "m1" start.store)
      (status_of "m1" (perform_all codec channel name calls start).store)
perform_all-Reaches_example =
    perform_all-Reaches codec channel name channel-answers "m1" calls start

-- The message after the calls above.
abbrev later : World
later = perform_all codec channel name calls start

later_sent : status_of "m1" later.store ≡ some sent
unfolding program
later_sent = refl

settled_forever_example :
    (status_of "m1" (perform_all codec channel name calls later).store ≡ some sent)
    × (sends_of "m1" (perform_all codec channel name calls later).sends ≤ sends_of "m1" later.sends)
settled_forever_example =
    settled_forever codec channel name channel-answers "m1" calls later sent sent_settled later_sent

known : is_some (find_session "s1" empty.sessions) ≡ true
unfolding program
known = refl

deliver-sends_once_example :
    ((deliver codec channel name chat hello start).1.sends ≡ "m1" ∷ [])
    × (status_of "m1" (deliver codec channel name chat hello start).1.store ≡ some failed)
deliver-sends_once_example =
    deliver-sends_once codec channel name chat hello start known (inl fresh) (omega arith)

-- A message of a session that is not there is not saved, and not sent.
abbrev no_session : World
no_session = record start { store = record empty { sessions = [] } }

not_sent : (deliver codec channel name chat hello no_session).1.sends ≡ []
unfolding program
not_sent = refl
