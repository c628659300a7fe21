-- ===== src/Outbound/Store.antt =====
-- src/adapters/persistence/repositories/outbound.py: the transactions on outbound attempts, and
-- `record_expression_usage` of assets.py. A transaction that raises is rolled back. JSON is read
-- and written by parameters; generated row ids are numbers.
use text.Mathlib.Text.{◌==◌ as str_eq}
use i_ja_for_u.Base.{
  ℕ, ◌+◌, String, Bool, true, false, ◌&&◌, ◌||◌, is_some, Option, none, some, List, [], ◌∷◌, ◌++◌,
  map, if◌then◌else◌,
}
use i_ja_for_u.Domain.{
  MessageRole, MessageOrigin, reactive, scheduled, proactive, unknown_origin, DecisionAction,
  DeliveryStatus, sent, runtime_error, Result, ok, err, MessageComponent, SessionView,
  OutboundMessage, DeliveryReceipt,
}

-- src/adapters/persistence/schema.py
pub record OutboundAttemptRow : Type 0 where
  pub id : ℕ
  pub outbound_id : String
  pub session_id : String
  pub status : DeliveryStatus
  pub components_json : String
  pub reply_to_message_id : Option String
  pub origin : Option MessageOrigin
  pub origin_run_id : Option String
  pub source_refs_json : Option String
  pub external_message_id : Option String
  pub error_code : Option String
  pub error_message : Option String
  pub created_at : ℕ
  pub delivered_at : Option ℕ
  pub expression_usage_recorded : Bool

pub record MessageRow : Type 0 where
  pub id : ℕ
  pub session_id : String
  pub platform : String
  pub account_id : String
  pub external_message_id : Option String
  pub role : MessageRole
  pub sender_id : String
  pub sender_name : String
  pub components_json : String
  pub search_text : String
  pub processed_turn_id : Option String
  pub origin : Option MessageOrigin
  pub origin_run_id : Option String
  pub source_refs_json : Option String
  pub created_at : ℕ

-- The columns that a sent reply reads or writes.
pub record TurnDecisionRow : Type 0 where
  pub id : String
  pub session_id : String
  pub action : DecisionAction
  pub score_detail_json : String
  pub group_participation_reply_recorded : Bool

pub record GroupParticipationPolicyRow : Type 0 where
  pub session_id : String
  pub idle_streak : ℕ
  pub idle_backoff_until : Option ℕ
  pub last_ordinary_reply_at : Option ℕ
  pub state_version : ℕ
  pub updated_at : ℕ

pub record ExpressionAssetRow : Type 0 where
  pub id : String
  pub use_count : ℕ
  pub last_used_at : Option ℕ

pub record Store : Type 0 where
  pub attempts : List OutboundAttemptRow
  pub messages : List MessageRow
  pub sessions : List SessionView
  pub decisions : List TurnDecisionRow
  pub policies : List GroupParticipationPolicyRow
  pub expressions : List ExpressionAssetRow
  pub next_id : ℕ

-- `json` over the components and the source references, the search text, the entry "forced" of a
-- score detail (`none` where the JSON is no object), and the order of SQLite on ids.
pub record Codec : Type 0 where
  pub dumps_components : List MessageComponent → String
  pub loads_components : String → List MessageComponent
  pub dumps_refs : List String → String
  pub loads_refs : String → List String
  pub search_text : List MessageComponent → String
  pub loads_forced : String → Option Bool
  pub id_le : String → String → Bool

abbrev pub eqb_option : Option String → Option String → Bool
eqb_option none none = true
eqb_option (some a) (some b) = str_eq a b
eqb_option _ _ = false

abbrev pub eqb_origin : MessageOrigin → MessageOrigin → Bool
eqb_origin reactive reactive = true
eqb_origin scheduled scheduled = true
eqb_origin proactive proactive = true
eqb_origin unknown_origin unknown_origin = true
eqb_origin _ _ = false

abbrev pub is_sent : DeliveryStatus → Bool
is_sent sent = true
is_sent _ = false

-- `select(OutboundAttemptRow).where(outbound_id == id)`: the column is unique.
unfoldable pub find_attempt : String → List OutboundAttemptRow → Option OutboundAttemptRow
find_attempt id [] = none
find_attempt id (row ∷ rows) = if str_eq row.outbound_id id then some row else find_attempt id rows

unfoldable pub update_attempt :
    String
    → (OutboundAttemptRow → OutboundAttemptRow)
    → List OutboundAttemptRow
    → List OutboundAttemptRow
update_attempt id f = map (λ row. if str_eq row.outbound_id id then f row else row)

unfoldable pub find_session : String → List SessionView → Option SessionView
find_session id [] = none
find_session id (s ∷ ss) = if str_eq s.id id then some s else find_session id ss

unfoldable pub find_decision : String → List TurnDecisionRow → Option TurnDecisionRow
find_decision id [] = none
find_decision id (d ∷ ds) = if str_eq d.id id then some d else find_decision id ds

unfoldable pub find_policy :
    String → List GroupParticipationPolicyRow → Option GroupParticipationPolicyRow
find_policy id [] = none
find_policy id (p ∷ ps) = if str_eq p.session_id id then some p else find_policy id ps

unfoldable pub find_message : String → String → String → List MessageRow → Option MessageRow
find_message platform account external_id [] = none
find_message platform account external_id (m ∷ ms) =
    if str_eq m.platform platform
      && str_eq m.account_id account
      && eqb_option m.external_message_id (some external_id)
    then some m
    else find_message platform account external_id ms

abbrev pub receipt_of_row : OutboundAttemptRow → DeliveryReceipt
receipt_of_row row = record {
  outbound_id = row.outbound_id;
  status = row.status;
  external_message_id = row.external_message_id;
  error_code = row.error_code;
  error_message = row.error_message;
  delivered_at = row.delivered_at;
}

abbrev pub option_map {ℓ κ} : {A : Type ℓ} {B : Type κ} → (A → B) → Option A → Option B
option_map f none = none
option_map f (some a) = some (f a)

unfoldable pub get_delivery : String → Store → Option DeliveryReceipt
get_delivery id s = option_map receipt_of_row (find_attempt id s.attempts)

module _ (codec : Codec) where
  -- The row that `save_delivery` and `prepare_outbound_batch` add.
  abbrev pub new_attempt : ℕ → OutboundMessage → DeliveryReceipt → OutboundAttemptRow
  new_attempt id message receipt = record {
    id = id;
    outbound_id = message.id;
    session_id = message.session_id;
    status = receipt.status;
    components_json = codec.dumps_components message.components;
    reply_to_message_id = message.reply_to_message_id;
    origin = some message.origin;
    origin_run_id = message.origin_run_id;
    source_refs_json = some (codec.dumps_refs message.source_refs);
    external_message_id = receipt.external_message_id;
    error_code = receipt.error_code;
    error_message = receipt.error_message;
    created_at = message.created_at;
    delivered_at = receipt.delivered_at;
    expression_usage_recorded = false;
  }

  abbrev pub write_receipt :
      OutboundMessage → DeliveryReceipt → OutboundAttemptRow → OutboundAttemptRow
  write_receipt message receipt row = record row {
    status = receipt.status;
    origin = some message.origin;
    origin_run_id = message.origin_run_id;
    source_refs_json = some (codec.dumps_refs message.source_refs);
    external_message_id = receipt.external_message_id;
    error_code = receipt.error_code;
    error_message = receipt.error_message;
    delivered_at = receipt.delivered_at;
  }

  abbrev pub add_attempt : OutboundMessage → DeliveryReceipt → Store → Store
  add_attempt message receipt s = record s {
    attempts = s.attempts ++ new_attempt s.next_id message receipt ∷ [];
    next_id = s.next_id + 1;
  }

  -- What `save_delivery` writes.
  unfoldable pub write_delivery : OutboundMessage → DeliveryReceipt → Store → Store
  write_delivery message receipt s = elim (find_attempt message.id s.attempts) [
    | none ↦ add_attempt message receipt s
    | some row ↦ record s {
      attempts = update_attempt message.id (write_receipt message receipt) s.attempts;
    }
  ]

  -- A new row violates the foreign key to the sessions if there is no row for its session.
  abbrev pub can_save : OutboundMessage → Store → Bool
  can_save message s =
      is_some (find_attempt message.id s.attempts)
      || is_some (find_session message.session_id s.sessions)

  unfoldable pub save_delivery :
      OutboundMessage → DeliveryReceipt → Store → Result (Unit {0} × Store)
  save_delivery message receipt s =
      if can_save message s then ok (tt, write_delivery message receipt s) else err runtime_error
