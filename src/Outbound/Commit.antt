-- ===== src/Outbound/Commit.antt =====
-- `commit_outbound` of src/adapters/persistence/repositories/outbound.py with what it does to the
-- participation policy of a group, and `record_expression_usage` of assets.py.
use Prim.Native.String.{◌++◌ as str_append}
use text.Mathlib.Text.{◌==◌ as str_eq}
use i_ja_for_u.Base.{
  ℕ, ◌+◌, String, Bool, true, false, not, ◌||◌, Option, none, some, List, [], ◌∷◌, ◌++◌, map, max,
  if◌then◌else◌,
}
use i_ja_for_u.Domain.{
  ChatType, private_, group, assistant, reactive, unknown_origin, DecisionAction, reply, silence,
  not_found, conflict, runtime_error, Result, ok, err, SessionView, OutboundMessage, StoredMessage,
}
use i_ja_for_u.Outbound.Store.{
  OutboundAttemptRow, MessageRow, TurnDecisionRow, GroupParticipationPolicyRow, ExpressionAssetRow,
  Store, Codec, eqb_origin, is_sent, find_attempt, update_attempt, find_session, find_decision,
  find_policy, find_message,
}

-- `external_message_id or f"ija-outbound:{outbound_id}"`
unfoldable pub committed_external_message_id : String → Option String → String
committed_external_message_id outbound_id none = str_append "ija-outbound:" outbound_id
committed_external_message_id outbound_id (some external) =
    if str_eq external "" then str_append "ija-outbound:" outbound_id else external

abbrev pub later : Option ℕ → ℕ → ℕ
later none t = t
later (some u) t = max u t

abbrev pub or_now : Option ℕ → ℕ → ℕ
or_now none now = now
or_now (some t) now = t

-- The policy after an ordinary reply was sent.
abbrev pub replied : ℕ → GroupParticipationPolicyRow → GroupParticipationPolicyRow
replied sent_at p = record p {
  idle_streak = 0;
  idle_backoff_until = none;
  last_ordinary_reply_at = some (later p.last_ordinary_reply_at sent_at);
  state_version = p.state_version + 1;
  updated_at = max p.updated_at sent_at;
}

abbrev pub is_group : ChatType → Bool
is_group group = true
is_group private_ = false

abbrev pub is_reply : DecisionAction → Bool
is_reply reply = true
is_reply silence = false

module _ (codec : Codec) where
  abbrev pub mark_recorded : String → Store → Store
  mark_recorded turn s = record s {
    decisions =
        map
          (λ (d : TurnDecisionRow).
            if str_eq d.id turn then record d { group_participation_reply_recorded = true } else d)
          s.decisions;
  }

  abbrev pub reset_policy : String → ℕ → Store → Store
  reset_policy session_id sent_at s = record s {
    policies =
        map
          (λ (p : GroupParticipationPolicyRow).
            if str_eq p.session_id session_id then replied sent_at p else p)
          s.policies;
  }

  -- The last part of `_record_group_reply_sent_in_transaction`, for a reply that is not recorded.
  abbrev pub record_reply : String → SessionView → ℕ → Option Bool → Store → Result Store
  record_reply turn session sent_at none s = err runtime_error
  record_reply turn session sent_at (some true) s = ok (mark_recorded turn s)
  record_reply turn session sent_at (some false) s = elim (find_policy session.id s.policies) [
    | none ↦ err runtime_error
    | some policy ↦ ok (mark_recorded turn (reset_policy session.id sent_at s))
  ]

  abbrev pub record_decision :
      String → Option TurnDecisionRow → SessionView → ℕ → Store → Result Store
  record_decision turn none session sent_at s = err runtime_error
  record_decision turn (some d) session sent_at s =
      if not (str_eq d.session_id session.id)
      then err runtime_error
      else if not (is_reply d.action)
      then err runtime_error
      else if d.group_participation_reply_recorded
      then ok s
      else record_reply turn session sent_at (codec.loads_forced d.score_detail_json) s

  -- `_record_group_reply_sent_in_transaction`
  unfoldable pub record_group_reply_sent : SessionView → OutboundMessage → ℕ → Store → Result Store
  record_group_reply_sent session message sent_at s =
      if not (is_group session.chat_type) || not (eqb_origin message.origin reactive)
      then ok s
      else elim message.origin_run_id [
        | none ↦ err runtime_error
        | some turn ↦ record_decision turn (find_decision turn s.decisions) session sent_at s
      ]

  -- `message_from_row`
  abbrev pub message_from_row : MessageRow → StoredMessage
  message_from_row row = record {
    id = row.id;
    session_id = row.session_id;
    role = row.role;
    sender_id = row.sender_id;
    sender_name = row.sender_name;
    external_message_id = row.external_message_id;
    components = codec.loads_components row.components_json;
    created_at = row.created_at;
    processed_turn_id = row.processed_turn_id;
    origin = elim row.origin [ none ↦ unknown_origin | some o ↦ o ];
    origin_run_id = row.origin_run_id;
    source_refs = codec.loads_refs (elim row.source_refs_json [
      | none ↦ "[]"
      | some refs ↦ if str_eq refs "" then "[]" else refs
    ]);
  }

  abbrev pub new_message_row : ℕ → SessionView → String → OutboundMessage → String → ℕ → MessageRow
  new_message_row id session external_id message sender_name sent_at = record {
    id = id;
    session_id = message.session_id;
    platform = session.platform;
    account_id = session.account_id;
    external_message_id = some external_id;
    role = assistant;
    sender_id = "agent";
    sender_name = sender_name;
    components_json = codec.dumps_components message.components;
    search_text = codec.search_text message.components;
    processed_turn_id = none;
    origin = some message.origin;
    origin_run_id = message.origin_run_id;
    source_refs_json = some (codec.dumps_refs message.source_refs);
    created_at = sent_at;
  }

  abbrev pub touch_session : String → ℕ → List SessionView → List SessionView
  touch_session id t =
      map (λ (s : SessionView). if str_eq s.id id then record s { updated_at = t } else s)

  abbrev pub add_message : SessionView → MessageRow → Store → Store
  add_message session row s = record s {
    messages = s.messages ++ row ∷ [];
    sessions = touch_session session.id row.created_at s.sessions;
    next_id = s.next_id + 1;
  }

  -- The history row of a message whose group reply is recorded.
  abbrev pub commit_row :
      SessionView → String → OutboundMessage → String → ℕ → Store → StoredMessage × Store
  commit_row session external_id message sender_name sent_at s =
      elim (find_message session.platform session.account_id external_id s.messages) [
        | some row ↦ (message_from_row row, s)
        | none ↦
            let row : MessageRow =
              new_message_row s.next_id session external_id message sender_name sent_at in
            (message_from_row row, add_message session row s)
      ]

  abbrev pub commit_recorded :
      SessionView
      → String
      → OutboundMessage
      → String
      → ℕ
      → Result Store
      → Result (StoredMessage × Store)
  commit_recorded session external_id message sender_name sent_at (err e) = err e
  commit_recorded session external_id message sender_name sent_at (ok s) =
      ok (commit_row session external_id message sender_name sent_at s)

  abbrev pub commit_attempt :
      (now : ℕ)
      → OutboundMessage
      → String
      → OutboundAttemptRow
      → Option SessionView
      → Store
      → Result (StoredMessage × Store)
  commit_attempt now message sender_name attempt none s = err not_found
  commit_attempt now message sender_name attempt (some session) s =
      let sent_at : ℕ = or_now attempt.delivered_at now in
      commit_recorded session (committed_external_message_id message.id attempt.external_message_id)
        message sender_name sent_at (record_group_reply_sent session message sent_at s)

  unfoldable pub commit_outbound :
      (now : ℕ) → OutboundMessage → String → Store → Result (StoredMessage × Store)
  commit_outbound now message sender_name s = elim (find_attempt message.id s.attempts) [
    | none ↦ err conflict
    | some attempt ↦
        if not (is_sent attempt.status)
        then err conflict
        else commit_attempt now message sender_name attempt
            (find_session message.session_id s.sessions) s
  ]

unfoldable pub has_text : String → List String → Bool
has_text t [] = false
has_text t (x ∷ xs) = str_eq x t || has_text t xs

-- `record_expression_usage` where there are expressions to count.
abbrev pub count_usage : (now : ℕ) → String → List String → Store → Store
count_usage now outbound_id ids s = record s {
  attempts =
      update_attempt outbound_id (λ row. record row { expression_usage_recorded = true })
        s.attempts;
  expressions =
      map
        (λ (e : ExpressionAssetRow).
          if has_text e.id ids
          then record e { use_count = e.use_count + 1; last_used_at = some now }
          else e)
        s.expressions;
}

unfoldable pub record_expression_usage :
    (now : ℕ) → String → List String → Store → Result (Unit {0} × Store)
record_expression_usage now outbound_id [] s = ok (tt, s)
record_expression_usage now outbound_id (id ∷ ids) s = elim (find_attempt outbound_id s.attempts) [
  | none ↦ err conflict
  | some row ↦
      if not (is_sent row.status)
      then err conflict
      else if row.expression_usage_recorded
      then ok (tt, s)
      else ok (tt, count_usage now outbound_id (id ∷ ids) s)
]
