-- ===== src/Outbound/Batches.antt =====
-- The transactions on batches and recovery of
-- src/adapters/persistence/repositories/outbound.py.
use text.Mathlib.Text.{◌==◌ as str_eq}
use i_ja_for_u.Base.{
  String, Bool, true, false, not, ◌&&◌, ◌||◌, Option, none, some, List, [], ◌∷◌, map, ltb, ◌==◌,
  is_some, if◌then◌else◌,
}
use i_ja_for_u.Domain.{
  MessageOrigin, reactive, unknown_origin, DeliveryStatus, blocked, prepared, dispatching, sent,
  not_found, conflict, invalid_input, runtime_error, Result, ok, err, OutboundMessage,
  DeliveryReceipt,
}
use i_ja_for_u.Outbound.Store.{
  OutboundAttemptRow, Store, Codec, eqb_option, eqb_origin, find_attempt, update_attempt,
  receipt_of_row, add_attempt, find_session,
}

abbrev pub origin_is : Option MessageOrigin → MessageOrigin → Bool
origin_is none o = false
origin_is (some a) o = eqb_origin a o

abbrev pub in_flight : DeliveryStatus → Bool
in_flight prepared = true
in_flight dispatching = true
in_flight sent = true
in_flight _ = false

-- Whether two messages have the same (session, origin, run).
abbrev pub same_identity : OutboundMessage → OutboundMessage → Bool
same_identity a b =
    str_eq a.session_id b.session_id
    && eqb_origin a.origin b.origin
    && eqb_option a.origin_run_id b.origin_run_id

unfoldable pub all_same : OutboundMessage → List OutboundMessage → Bool
all_same first [] = true
all_same first (m ∷ ms) = same_identity first m && all_same first ms

unfoldable pub has_id : String → List OutboundMessage → Bool
has_id id [] = false
has_id id (m ∷ ms) = str_eq m.id id || has_id id ms

unfoldable pub has_repeated_id : List OutboundMessage → Bool
has_repeated_id [] = false
has_repeated_id (m ∷ ms) = has_id m.id ms || has_repeated_id ms

abbrev pub blank_receipt : String → DeliveryStatus → DeliveryReceipt
blank_receipt id status = record {
  outbound_id = id;
  status = status;
  external_message_id = none;
  error_code = none;
  error_message = none;
  delivered_at = none;
}

abbrev pub cons_receipt :
    DeliveryReceipt → Result (List DeliveryReceipt × Store) → Result (List DeliveryReceipt × Store)
cons_receipt r (ok (rs, s)) = ok (r ∷ rs, s)
cons_receipt r (err e) = err e

module _ (codec : Codec) where
  -- Whether a row was made of another message than this one.
  abbrev pub differs : OutboundAttemptRow → OutboundMessage → Bool
  differs row message =
      not (str_eq row.session_id message.session_id)
      || not (str_eq row.components_json (codec.dumps_components message.components))
      || not (eqb_option row.reply_to_message_id message.reply_to_message_id)
      || not (origin_is row.origin message.origin)
      || not (eqb_option row.origin_run_id message.origin_run_id)
      || not (eqb_option row.source_refs_json (some (codec.dumps_refs message.source_refs)))

  -- The loop of `prepare_outbound_batch`, with the status that the next new row gets.
  unfoldable pub prepare_rows :
      DeliveryStatus → List OutboundMessage → Store → Result (List DeliveryReceipt × Store)
  prepare_rows intended [] s = ok ([], s)
  prepare_rows intended (m ∷ ms) s = elim (find_attempt m.id s.attempts) [
    | none ↦
        let receipt : DeliveryReceipt = blank_receipt m.id intended in
        let rest = prepare_rows blocked ms (add_attempt codec m receipt s) in
        if is_some (find_session m.session_id s.sessions)
        then cons_receipt receipt rest
        else err runtime_error
    | some row ↦
        if differs row m
        then err conflict
        else cons_receipt (receipt_of_row row) (prepare_rows blocked ms s)
  ]

  unfoldable pub prepare_outbound_batch :
      List OutboundMessage → Store → Result (List DeliveryReceipt × Store)
  unfolding all_same has_repeated_id has_id
  prepare_outbound_batch [] s = err invalid_input
  prepare_outbound_batch (m ∷ ms) s =
      if not (all_same m ms)
      then err invalid_input
      else if has_repeated_id (m ∷ ms)
      then err invalid_input
      else prepare_rows prepared (m ∷ ms) s

  -- `outbound_from_row`
  abbrev pub outbound_from_row : OutboundAttemptRow → OutboundMessage
  outbound_from_row row = record {
    id = row.outbound_id;
    session_id = row.session_id;
    components = codec.loads_components row.components_json;
    reply_to_message_id = row.reply_to_message_id;
    origin = elim row.origin [ none ↦ unknown_origin | some o ↦ o ];
    origin_run_id = row.origin_run_id;
    source_refs = codec.loads_refs (elim row.source_refs_json [
      | none ↦ "[]"
      | some refs ↦ if str_eq refs "" then "[]" else refs
    ]);
    created_at = row.created_at;
  }

  -- The `where` of `list_recoverable_outbound_messages`.
  abbrev pub is_recoverable : OutboundAttemptRow → Bool
  is_recoverable row = not (origin_is row.origin reactive) && in_flight row.status

  -- Its `order_by`: by time, then by id.
  abbrev pub before : OutboundAttemptRow → OutboundAttemptRow → Bool
  before a b =
      ltb a.created_at b.created_at
      || ((a.created_at == b.created_at) && codec.id_le a.outbound_id b.outbound_id)

  unfoldable pub insert_row : OutboundAttemptRow → List OutboundAttemptRow → List OutboundAttemptRow
  insert_row row [] = row ∷ []
  insert_row row (r ∷ rs) = if before row r then row ∷ r ∷ rs else r ∷ insert_row row rs

  unfoldable pub recoverable_rows : List OutboundAttemptRow → List OutboundAttemptRow
  recoverable_rows [] = []
  recoverable_rows (row ∷ rows) =
      let rest = recoverable_rows rows in if is_recoverable row then insert_row row rest else rest

  unfoldable pub list_recoverable_outbound_messages : Store → List OutboundMessage
  unfolding recoverable_rows insert_row
  list_recoverable_outbound_messages s = map outbound_from_row (recoverable_rows s.attempts)

-- The fields that `transition_delivery_to_prepared` resets.
abbrev pub back_to_prepared : OutboundAttemptRow → OutboundAttemptRow
back_to_prepared row = record row {
  status = prepared;
  external_message_id = none;
  error_code = none;
  error_message = none;
  delivered_at = none;
}

unfoldable pub transition_delivery_to_prepared :
    (allowed : DeliveryStatus → Bool) → String → Store → Result (DeliveryReceipt × Store)
transition_delivery_to_prepared allowed id s = elim (find_attempt id s.attempts) [
  | none ↦ err not_found
  | some row ↦
      if not (allowed row.status)
      then err conflict
      else ok (
        blank_receipt row.outbound_id prepared,
        record s { attempts = update_attempt id back_to_prepared s.attempts },
      )
]
