-- ===== src/Domain.antt =====
-- src/domain/models.py and src/domain/errors.py: the data that the components share. A point in
-- time is a number of microseconds.
use i_ja_for_u.Base.{ℕ, String, Bool, Option, List}

pub data ChatType : Type 0 where
  private_ group : ChatType

pub data ComponentType : Type 0 where
  text mention quote image_ref audio_ref file_ref : ComponentType

pub data MessageRole : Type 0 where
  user assistant : MessageRole

pub data MessageOrigin : Type 0 where
  reactive scheduled proactive unknown_origin : MessageOrigin

pub data DecisionAction : Type 0 where
  reply silence : DecisionAction

pub data DeliveryStatus : Type 0 where
  blocked prepared dispatching sent failed dropped unknown : DeliveryStatus

pub data IjaError : Type 0 where
  not_found conflict invalid_input runtime_error : IjaError

pub data Result {ℓ} (A : Type ℓ) : Type ℓ where
  ok : A → Result A
  err : IjaError → Result A

pub record MessageComponent : Type 0 where
  pub type : ComponentType
  pub text : Option String
  pub target_id : Option String
  pub target_name : Option String
  pub message_id : Option String
  pub attachment_id : Option String
  pub filename : Option String
  pub mime_type : Option String
  pub size : Option ℕ
  pub sha256 : Option String
  pub storage_path : Option String
  pub description : Option String
  pub is_expression : Bool

pub record InboundMessage : Type 0 where
  pub platform : String
  pub account_id : String
  pub external_message_id : String
  pub external_chat_id : String
  pub sender_id : String
  pub sender_name : String
  pub chat_type : ChatType
  pub components : List MessageComponent
  pub received_at : ℕ

-- The participants and the revisions of a session play no part in what is modelled.
pub record SessionView : Type 0 where
  pub id : String
  pub platform : String
  pub account_id : String
  pub external_chat_id : String
  pub chat_type : ChatType
  pub display_name : String
  pub updated_at : ℕ

pub record OutboundMessage : Type 0 where
  pub id : String
  pub session_id : String
  pub components : List MessageComponent
  pub reply_to_message_id : Option String
  pub origin : MessageOrigin
  pub origin_run_id : Option String
  pub source_refs : List String
  pub created_at : ℕ

pub record DeliveryReceipt : Type 0 where
  pub outbound_id : String
  pub status : DeliveryStatus
  pub external_message_id : Option String
  pub error_code : Option String
  pub error_message : Option String
  pub delivered_at : Option ℕ

pub record StoredMessage : Type 0 where
  pub id : ℕ
  pub session_id : String
  pub role : MessageRole
  pub sender_id : String
  pub sender_name : String
  pub external_message_id : Option String
  pub components : List MessageComponent
  pub created_at : ℕ
  pub processed_turn_id : Option String
  pub origin : MessageOrigin
  pub origin_run_id : Option String
  pub source_refs : List String

pub record ReplyDraft : Type 0 where
  pub components : List MessageComponent
  pub follow_up_components : List (List MessageComponent)
  pub expression_id : Option String
