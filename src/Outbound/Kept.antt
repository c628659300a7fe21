-- ===== src/Outbound/Kept.antt =====
-- What commits and batches of src/adapters/persistence/repositories/outbound.py do to the status of
-- a delivery: commits nothing, and batches only what they do to a delivery that is new.
use i_ja_for_u.Base.{
  ℕ, String, Bool, true, false, Option, none, some, List, [], ◌∷◌, ◌≡◌, refl, sym, ap, ◌∙◌, ◌⊎◌,
  inl, inr, is_some, Bool-cases, Option-cases, arith,
}
use i_ja_for_u.Domain.{
  DeliveryStatus, blocked, prepared, IjaError, conflict, invalid_input, runtime_error, Result, ok,
  err, SessionView, OutboundMessage, DeliveryReceipt, StoredMessage,
}
use i_ja_for_u.Outbound.Store.{
  OutboundAttemptRow, TurnDecisionRow, Store, Codec, find_attempt, find_session, find_decision,
  find_message, receipt_of_row, add_attempt, new_attempt,
}
use i_ja_for_u.Outbound.Batches.{
  prepare_rows, prepare_outbound_batch, all_same, has_repeated_id, differs, cons_receipt,
  blank_receipt,
}
use i_ja_for_u.Outbound.Commit.{
  record_reply, record_decision, record_group_reply_sent, commit_row, commit_recorded,
  commit_attempt, commit_outbound, record_expression_usage, committed_external_message_id, or_now,
}
use i_ja_for_u.Outbound.Status.{status_of, row_status, find_attempt-snoc, find_attempt-update_same}

ok-injective : {A : Type 0} {a b : A} → Result.ok a ≡ ok b → a ≡ b
ok-injective {A} {a} e = ap (λ (r : Result A). elim r [ ok x ↦ x | err _ ↦ a ]) e

err≢ok : {A : Type 0} {x : IjaError} {a : A} → ¬ (Result.err x ≡ Result.ok a)
err≢ok e = ground arith

module _ (codec : Codec) where
  record_reply-attempts :
      (turn : String) (session : SessionView) (t : ℕ) (forced : Option Bool) (s s' : Store)
      → record_reply codec turn session t forced s ≡ ok s'
      → s'.attempts ≡ s.attempts
  record_reply-attempts turn session t none s s' e = ground arith
  record_reply-attempts turn session t (some true) s s' e = ground arith
  record_reply-attempts turn session t (some false) s s' e = ground arith

  record_decision-attempts :
      (turn : String) (d : Option TurnDecisionRow) (session : SessionView) (t : ℕ) (s s' : Store)
      → record_decision codec turn d session t s ≡ ok s'
      → s'.attempts ≡ s.attempts
  record_decision-attempts turn none session t s s' e = ground arith
  record_decision-attempts turn (some d) session t s s' e =
      ground
        (arith, record_reply-attempts turn session t (codec.loads_forced d.score_detail_json) s s')

  record_group_reply_sent-attempts :
      (session : SessionView) (m : OutboundMessage) (t : ℕ) (s s' : Store)
      → record_group_reply_sent codec session m t s ≡ ok s'
      → s'.attempts ≡ s.attempts
  unfolding record_group_reply_sent
  record_group_reply_sent-attempts session m t s s' e = elim (Option-cases m.origin_run_id) [
    | inl no_turn ↦ ground arith
    | inr (turn, some_turn) ↦
        ground
          (arith, record_decision-attempts turn (find_decision turn s.decisions) session t s s')
  ]

  commit_row-attempts :
      (session : SessionView) (ext : String) (m : OutboundMessage) (name : String) (t : ℕ)
      (s : Store)
      → (commit_row codec session ext m name t s).1.attempts ≡ s.attempts
  commit_row-attempts session ext m name t s =
      elim (Option-cases (find_message session.platform session.account_id ext s.messages)) [
        | inl e ↦ ground arith
        | inr (row, e) ↦ ground arith
      ]

  commit_recorded-attempts :
      (session : SessionView) (ext : String) (m : OutboundMessage) (name : String) (t : ℕ)
      (r : Result Store) (s s' : Store) (a : StoredMessage)
      → ((v : Store) → r ≡ ok v → v.attempts ≡ s.attempts)
      → commit_recorded codec session ext m name t r ≡ ok (a, s')
      → s'.attempts ≡ s.attempts
  commit_recorded-attempts session ext m name t (err x) s s' a h e = ground arith
  commit_recorded-attempts session ext m name t (ok v) s s' a h e =
      sym (ap (λ p. p.1.attempts) (ok-injective e))
      ∙ commit_row-attempts session ext m name t v
      ∙ h v refl

  commit_attempt-attempts :
      (now : ℕ) (m : OutboundMessage) (name : String) (row : OutboundAttemptRow)
      (session : Option SessionView) (s s' : Store) (a : StoredMessage)
      → commit_attempt codec now m name row session s ≡ ok (a, s')
      → s'.attempts ≡ s.attempts
  commit_attempt-attempts now m name row none s s' a e = ground arith
  commit_attempt-attempts now m name row (some session) s s' a e =
      commit_recorded-attempts session (committed_external_message_id m.id row.external_message_id)
        m name (or_now row.delivered_at now)
        (record_group_reply_sent codec session m (or_now row.delivered_at now) s) s s' a
        (λ v h. record_group_reply_sent-attempts session m (or_now row.delivered_at now) s v h) e

  -- A commit keeps the attempts.
  pub commit_outbound-attempts :
      (now : ℕ) (m : OutboundMessage) (name : String) (s s' : Store) (a : StoredMessage)
      → commit_outbound codec now m name s ≡ ok (a, s')
      → s'.attempts ≡ s.attempts
  unfolding commit_outbound
  commit_outbound-attempts now m name s s' a e =
      elim (Option-cases (find_attempt m.id s.attempts)) [
        | inl missing ↦ ground arith
        | inr (row, found) ↦ ground (
          arith,
          commit_attempt-attempts now m name row (find_session m.session_id s.sessions) s s' a,
        )
      ]

  -- A commit keeps every status.
  pub status_of-commit_outbound :
      (k : String) (now : ℕ) (m : OutboundMessage) (name : String) (s s' : Store)
      (a : StoredMessage)
      → commit_outbound codec now m name s ≡ ok (a, s')
      → status_of k s' ≡ status_of k s
  unfolding status_of
  status_of-commit_outbound k now m name s s' a e =
      ap (λ rows. row_status (find_attempt k rows)) (commit_outbound-attempts now m name s s' a e)

-- The count of expressions keeps every status.
pub status_of-record_expression_usage :
    (k : String) (now : ℕ) (id : String) (ids : List String) (s s' : Store) (a : Unit {0})
    → record_expression_usage now id ids s ≡ ok (a, s')
    → status_of k s' ≡ status_of k s
unfolding status_of record_expression_usage
status_of-record_expression_usage k now id [] s s' a e = ground arith
status_of-record_expression_usage k now id (x ∷ xs) s s' a e =
    elim (Option-cases (find_attempt id s.attempts)) [
      | inl missing ↦ ground arith
      | inr (row, found) ↦ ground (
        arith,
        find_attempt-update_same k id (λ r. record r { expression_usage_recorded = true })
            s.attempts (λ _. refl) (λ _. refl),
      )
    ]

-- What a batch does to the status of a delivery: nothing, or it is new and gets its first one.
abbrev pub Prepares : Option DeliveryStatus → Option DeliveryStatus → Type 0
Prepares a b = (b ≡ a) ⊎ ((a ≡ none) × ((b ≡ some prepared) ⊎ (b ≡ some blocked)))

Prepares-trans : (a b c : Option DeliveryStatus) → Prepares a b → Prepares b c → Prepares a c
Prepares-trans a b c x y = ground arith

IsFirst : DeliveryStatus → Type 0
IsFirst st = (st ≡ prepared) ⊎ (st ≡ blocked)

module _ (codec : Codec) (k : String) where
  -- A row for a message without one.
  status_of-add_attempt :
      (st : DeliveryStatus) (m : OutboundMessage) (s : Store)
      → (st ≡ prepared) ⊎ (st ≡ blocked)
      → find_attempt m.id s.attempts ≡ none
      → Prepares (status_of k s) (status_of k (add_attempt codec m (blank_receipt m.id st) s))
  unfolding status_of
  status_of-add_attempt st m s first missing = elim (Option-cases (find_attempt k s.attempts)) [
    | inl none_found ↦ ground (
      arith,
      find_attempt-snoc k s.attempts (new_attempt codec s.next_id m (blank_receipt m.id st)),
    )
    | inr (row, found) ↦ ground (
      arith,
      find_attempt-snoc k s.attempts (new_attempt codec s.next_id m (blank_receipt m.id st)),
    )
  ]

  cons_receipt-ok :
      (r : DeliveryReceipt) (x : Result (List DeliveryReceipt × Store)) (rs : List DeliveryReceipt)
      (s' : Store)
      → cons_receipt r x ≡ ok (rs, s')
      → (ts : List DeliveryReceipt) × (x ≡ ok (ts, s'))
  cons_receipt-ok r (ok (ts, s)) rs s' e =
      (ts, ap (λ v. ok (ts, v)) (ap (λ p. p.1) (ok-injective e)))
  cons_receipt-ok r (err x) rs s' e = absurd (ground arith)

  prepare_rows-Prepares :
      (st : DeliveryStatus) (ms : List OutboundMessage) (s s' : Store) (rs : List DeliveryReceipt)
      → (st ≡ prepared) ⊎ (st ≡ blocked)
      → prepare_rows codec st ms s ≡ ok (rs, s')
      → Prepares (status_of k s) (status_of k s')
  unfolding prepare_rows
  prepare_rows-Prepares st [] s s' rs first e =
      inl (ap (λ v. status_of k v) (sym (ap (λ p. p.1) (ok-injective e))))
  prepare_rows-Prepares st (m ∷ ms) s s' rs first e =
      elim (Option-cases (find_attempt m.id s.attempts)) [
        | inl missing ↦
            let r : DeliveryReceipt = blank_receipt m.id st in
            let s₁ : Store = add_attempt codec m r s in
            elim (Bool-cases (is_some (find_session m.session_id s.sessions))) [
              | inl known ↦
                  let step : prepare_rows codec st (m ∷ ms) s
                      ≡ cons_receipt r (prepare_rows codec blocked ms s₁) =
                    ground (arith, missing, known) in
                  let (ts, rest) =
                    cons_receipt-ok r (prepare_rows codec blocked ms s₁) rs s' (sym step ∙ e) in
                  Prepares-trans (status_of k s) (status_of k s₁) (status_of k s')
                    (status_of-add_attempt st m s first missing)
                    (prepare_rows-Prepares blocked ms s₁ s' ts (inr refl) rest)
              | inr alien ↦
                  let step : prepare_rows codec st (m ∷ ms) s ≡ err runtime_error =
                    ground (arith, missing, alien) in
                  absurd (err≢ok (sym step ∙ e))
            ]
        | inr (row, found) ↦ elim (Bool-cases (differs codec row m)) [
          | inl other ↦
              let step : prepare_rows codec st (m ∷ ms) s ≡ err conflict =
                ground (arith, found, other) in
              absurd (err≢ok (sym step ∙ e))
          | inr alike ↦
              let step : prepare_rows codec st (m ∷ ms) s
                  ≡ cons_receipt (receipt_of_row row) (prepare_rows codec blocked ms s) =
                ground (arith, found, alike) in
              let (ts, rest) =
                cons_receipt-ok (receipt_of_row row) (prepare_rows codec blocked ms s) rs s'
                  (sym step ∙ e) in
              prepare_rows-Prepares blocked ms s s' ts (inr refl) rest
        ]
      ]

  pub prepare_outbound_batch-Prepares :
      (ms : List OutboundMessage) (s s' : Store) (rs : List DeliveryReceipt)
      → prepare_outbound_batch codec ms s ≡ ok (rs, s')
      → Prepares (status_of k s) (status_of k s')
  unfolding prepare_outbound_batch
  prepare_outbound_batch-Prepares [] s s' rs e = absurd (err≢ok e)
  prepare_outbound_batch-Prepares (m ∷ ms) s s' rs e = elim (Bool-cases (all_same m ms)) [
    | inl same ↦ elim (Bool-cases (has_repeated_id (m ∷ ms))) [
      | inl repeated ↦
          let step : prepare_outbound_batch codec (m ∷ ms) s ≡ err invalid_input =
            ground (arith, same, repeated) in
          absurd (err≢ok (sym step ∙ e))
      | inr distinct ↦
          prepare_rows-Prepares prepared (m ∷ ms) s s' rs (inl refl)
            (ground (arith, same, distinct))
    ]
    | inr other ↦
        let step : prepare_outbound_batch codec (m ∷ ms) s ≡ err invalid_input =
          ground (arith, other) in
        absurd (err≢ok (sym step ∙ e))
  ]
