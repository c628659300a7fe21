-- ===== src/Outbound.antt =====
-- src/application/outbound.py: `OutboundCoordinator`, the one owner of what is sent. The
-- transactions, the effects and the proofs are in the modules below.
mod Store
mod Batches
mod Commit
mod Effects
mod Hoare
mod Status
mod Kept
mod Moves
mod Commits
mod Preserves
pub mod AtMostOnce
pub mod Delivery
mod Tests
use text.Mathlib.Text.{starts_with}
use i_ja_for_u.Base.{
  ℕ, String, Bool, true, false, not, ◌&&◌, ◌||◌, Option, none, some, List, [], ◌∷◌, if◌then◌else◌,
}
use i_ja_for_u.Domain.{
  ChatType, MessageOrigin, proactive, DeliveryStatus, blocked, prepared, dispatching, sent, failed,
  dropped, unknown, ok, MessageComponent, SessionView, OutboundMessage, DeliveryReceipt,
  StoredMessage,
}
use Store.{Codec, get_delivery, find_session, save_delivery, eqb_origin, is_sent}
use Batches.{
  blank_receipt, prepare_outbound_batch, transition_delivery_to_prepared,
  list_recoverable_outbound_messages,
}
use Commit.{commit_outbound, record_expression_usage}
use Effects.{
  SendResult, receipt, raises, OutboundEvent, delivery_updated, message_committed, World, Action,
  pure, ◌>>=◌, ◌>>◌, transact, query, publish, send,
}

abbrev pub is_blocked : DeliveryStatus → Bool
is_blocked blocked = true
is_blocked _ = false

abbrev pub is_failed : DeliveryStatus → Bool
is_failed failed = true
is_failed _ = false

abbrev pub is_prepared : Option DeliveryReceipt → Bool
is_prepared none = false
is_prepared (some r) = elim r.status [ prepared ↦ true | _ ↦ false ]

-- The receipt of a delivery that was under way when the process stopped.
abbrev pub unknown_receipt : String → DeliveryReceipt
unknown_receipt id = record {
  outbound_id = id;
  status = unknown;
  external_message_id = none;
  error_code = some "delivery_outcome_unknown";
  error_message = some "进程在发送开始后未能确认投递结果，已停止自动重试";
  delivered_at = none;
}

-- The receipt that `deliver` saves after the send, an exception included.
abbrev pub receipt_of : String → SendResult → DeliveryReceipt
receipt_of id (receipt r) = r
receipt_of id (raises code text) = record {
  outbound_id = id;
  status = unknown;
  external_message_id = none;
  error_code = elim code [ none ↦ some "delivery_outcome_unknown" | some c ↦ some c ];
  error_message = some text;
  delivered_at = none;
}

-- The expressions that `_mark_expression_used` counts.
unfoldable pub expression_ids : List MessageComponent → List String
expression_ids [] = []
expression_ids (c ∷ cs) = elim c.attachment_id [
  | none ↦ expression_ids cs
  | some id ↦
      let rest = expression_ids cs in if starts_with id "expression_" then id ∷ rest else rest
]

-- What the application does with the coordinator, one call at a time. `restarts` is a new
-- process, which stops after so many effects; time passes between the calls.
pub data Call : Type 0 where
  delivers : SessionView → OutboundMessage → Call
  prepares : List OutboundMessage → Call
  promotes : OutboundMessage → Call
  retries : OutboundMessage → Call
  recovers : Call
  restarts : (steps now : ℕ) → Call

-- The channel, and `personas.get_for_chat_type(...).name`.
module _ (codec : Codec) (channel : ℕ → SessionView → OutboundMessage → SendResult)
    (persona_name : ChatType → String) where
  -- `_commit`, with `_mark_expression_used`.
  unfoldable pub commit : SessionView → OutboundMessage → Action StoredMessage
  commit session message = do
    committed ← transact (λ now. commit_outbound codec now message (persona_name session.chat_type))
    transact (λ now. record_expression_usage now message.id (expression_ids message.components))
    publish (message_committed committed)
    pure committed

  -- `save_delivery`, and the event that says so.
  unfoldable pub save_and_publish : OutboundMessage → DeliveryReceipt → Action (Unit {0})
  save_and_publish message r = do
    transact (λ now. save_delivery codec message r)
    publish (delivery_updated r)

  unfoldable pub finish :
      SessionView
      → OutboundMessage
      → DeliveryReceipt
      → Action (DeliveryReceipt × Option StoredMessage)
  finish session message r =
      if not (is_sent r.status)
      then pure (r, none)
      else do committed ← commit session message; pure (r, some committed)

  -- `deliver` from the save of `dispatching` on.
  unfoldable pub dispatch :
      SessionView → OutboundMessage → Action (DeliveryReceipt × Option StoredMessage)
  dispatch session message = do
    save_and_publish message (blank_receipt message.id dispatching)
    result ← send channel session message
    save_and_publish message (receipt_of message.id result)
    finish session message (receipt_of message.id result)

  -- `deliver` for a message that has a receipt, by its status.
  unfoldable pub resume :
      SessionView
      → OutboundMessage
      → DeliveryReceipt
      → DeliveryStatus
      → Action (DeliveryReceipt × Option StoredMessage)
  resume session message r sent = do committed ← commit session message; pure (r, some committed)
  resume session message r dispatching = do
    save_and_publish message (unknown_receipt message.id)
    pure (unknown_receipt message.id, none)
  resume session message r prepared = dispatch session message
  resume session message r _ = pure (r, none)

  unfoldable pub deliver_from :
      SessionView
      → OutboundMessage
      → Option DeliveryReceipt
      → Action (DeliveryReceipt × Option StoredMessage)
  deliver_from session message none = do
    save_and_publish message (blank_receipt message.id prepared)
    dispatch session message
  deliver_from session message (some r) = resume session message r r.status

  unfoldable pub deliver :
      SessionView → OutboundMessage → Action (DeliveryReceipt × Option StoredMessage)
  deliver session message = do
    existing ← query (get_delivery message.id)
    deliver_from session message existing

  unfoldable pub publish_all : List DeliveryReceipt → Action (Unit {0})
  publish_all [] = pure tt
  publish_all (r ∷ rs) = do publish (delivery_updated r); publish_all rs

  unfoldable pub prepare_batch : List OutboundMessage → Action (List DeliveryReceipt)
  prepare_batch messages = do
    receipts ← transact (λ now. prepare_outbound_batch codec messages)
    publish_all receipts
    pure receipts

  unfoldable pub promote : (DeliveryStatus → Bool) → OutboundMessage → Action DeliveryReceipt
  promote allowed message = do
    r ← transact (λ now. transition_delivery_to_prepared allowed message.id)
    publish (delivery_updated r)
    pure r

  unfoldable pub promote_blocked : OutboundMessage → Action DeliveryReceipt
  promote_blocked message = promote is_blocked message

  unfoldable pub retry_failed : OutboundMessage → Action DeliveryReceipt
  retry_failed message = promote is_failed message

  -- The body of the loop of `recover`, once the receipt is known.
  unfoldable pub recover_one : OutboundMessage → Option DeliveryReceipt → Action (Unit {0})
  recover_one message r =
      if eqb_origin message.origin proactive && is_prepared r then pure tt else do
        session ← query (λ s. find_session message.session_id s.sessions)
        elim session [ none ↦ pure tt | some found ↦ do deliver found message; pure tt ]

  unfoldable pub recover_all : List OutboundMessage → Action (Unit {0})
  recover_all [] = pure tt
  recover_all (m ∷ ms) = do r ← query (get_delivery m.id); recover_one m r; recover_all ms

  unfoldable pub recover : Action (Unit {0})
  recover = do messages ← query (list_recoverable_outbound_messages codec); recover_all messages

  unfoldable pub perform : Call → World → World
  perform (delivers session message) w = (deliver session message w).1
  perform (prepares messages) w = (prepare_batch messages w).1
  perform (promotes message) w = (promote_blocked message w).1
  perform (retries message) w = (retry_failed message w).1
  perform recovers w = (recover w).1
  perform (restarts steps now) w = record w { steps_left = steps; now = now }

  unfoldable pub perform_all : List Call → World → World
  perform_all [] w = w
  perform_all (c ∷ cs) w = perform_all cs (perform c w)
