-- ===== src/Outbound/Preserves.antt =====
-- Every call of src/application/outbound.py keeps the bound on the sends of one delivery.
use text.Mathlib.Text.{◌==◌ as str_eq}
use i_ja_for_u.Base.{
  ℕ, ◌+◌, ◌≤◌, String, Bool, true, Option, none, some, List, [], ◌∷◌, ◌≡◌, refl, sym, subst, arith,
}
use i_ja_for_u.Domain.{
  ChatType, DeliveryStatus, blocked, prepared, dispatching, sent, failed, dropped, unknown,
  SessionView, OutboundMessage, DeliveryReceipt,
}
use i_ja_for_u.Outbound.Store.{Store, Codec, write_delivery, option_map}
use i_ja_for_u.Outbound.Batches.{blank_receipt}
use i_ja_for_u.Outbound.Effects.{SendResult, receipt, raises, pure, ◌>>◌, send}
use i_ja_for_u.Outbound.Hoare.{
  Pred, Ensures, Ensures-bind, Ensures-pure, Ensures-transact, Ensures-weaken, Ensures-query,
  Ensures-publish, Ensures-send, Ensures-if,
}
use i_ja_for_u.Outbound.Status.{status_of, save_delivery-ok, status_of-get_delivery}
use i_ja_for_u.Outbound.Kept.{prepare_outbound_batch-Prepares}
use i_ja_for_u.Outbound.Moves.{
  IsFinal, unknown_final, Moves, is_prepared_first, Reaches, credit, Bounded, At, Armed,
  Bounded-keeps, Bounded-Prepares, save-At, save_final-Bounded, save-Armed, send-At, Armed-Bounded,
  transition-Bounded,
}
use i_ja_for_u.Outbound.{
  receipt_of, unknown_receipt, commit, save_and_publish, dispatch, resume, deliver_from, deliver,
  publish_all, prepare_batch, promote, is_blocked, is_failed, recover_one, recover_all, recover,
}
use i_ja_for_u.Outbound.Commits.{commit-Ensures, finish-Ensures}

module _ (codec : Codec) (channel : ℕ → SessionView → OutboundMessage → SendResult)
    (persona_name : ChatType → String)
    (answers : (i : ℕ) (session : SessionView) (m : OutboundMessage) (r : DeliveryReceipt)
      → channel i session m ≡ receipt r
      → IsFinal r.status)
    (k : String) (o : Option DeliveryStatus) (n : ℕ) where
  receipt_of-IsFinal :
      (i : ℕ) (session : SessionView) (m : OutboundMessage) (id : String)
      → IsFinal (receipt_of id (channel i session m)).status
  receipt_of-IsFinal i session m id = cases (channel i session m) refl
    where
      cases : (x : SendResult) → channel i session m ≡ x → IsFinal (receipt_of id x).status
      cases (receipt r) e = answers i session m r e
      cases (raises code text) e = unknown_final

  commit-Bounded :
      (session : SessionView) (m : OutboundMessage)
      → Ensures
          (Bounded k o n)
          (commit codec channel persona_name session m)
          (λ _. Bounded k o n)
          (Bounded k o n)
  commit-Bounded session m =
      commit-Ensures codec channel persona_name (Bounded k o n)
        (λ s s' l e b. Bounded-keeps k o n s s' l (e k) b) session m

  -- A save of a receipt, from `P` to `Q`.
  save-Ensures :
      (P Q : Pred) (m : OutboundMessage) (r : DeliveryReceipt)
      → ((s : Store) (l : List String) → P s l → Q (write_delivery codec m r s) l)
      → ((s : Store) (l : List String) → P s l → Bounded k o n s l)
      → ((s : Store) (l : List String) → Q s l → Bounded k o n s l)
      → Ensures P (save_and_publish codec channel persona_name m r) (λ _. Q) (Bounded k o n)
  unfolding save_and_publish
  save-Ensures P Q m r h p q =
      Ensures-bind (λ _. Q) _ _
        (Ensures-transact _
          (λ now s l a s' c e. subst (λ x. Q x l) (save_delivery-ok codec m r s s' a e) (h s l c))
          p)
        (λ _. Ensures-publish _ q)

  send-Ensures :
      (session : SessionView) (m : OutboundMessage)
      → Ensures
          (Armed k o n m.id)
          (send channel session m)
          (λ a s l. IsFinal (receipt_of m.id a).status × At k o n dispatching m.id s l)
          (Bounded k o n)
  send-Ensures session m =
      Ensures-send channel session m
        (λ i s l p. (receipt_of-IsFinal i session m m.id, send-At k o n m.id s l p))
        (λ s l p. Armed-Bounded k o n m.id s l p)

  dispatch-Bounded :
      (session : SessionView) (m : OutboundMessage)
      → Ensures
          (At k o n prepared m.id)
          (dispatch codec channel persona_name session m)
          (λ _. Bounded k o n)
          (Bounded k o n)
  unfolding dispatch
  dispatch-Bounded session m =
      Ensures-bind (λ _. Armed k o n m.id) _ _
        (save-Ensures (At k o n prepared m.id) (Armed k o n m.id) m _
          (λ s l p. save-Armed k o n codec m _ s l refl p) (λ s l p. p.1)
          (λ s l p. Armed-Bounded k o n m.id s l p))
        (λ _.
          Ensures-bind (λ a s l. IsFinal (receipt_of m.id a).status × At k o n dispatching m.id s l)
            _ _ (send-Ensures session m)
            (λ a.
              Ensures-bind (λ _. Bounded k o n) _ _
                (save-Ensures
                  (λ s l. IsFinal (receipt_of m.id a).status × At k o n dispatching m.id s l)
                  (Bounded k o n) m (receipt_of m.id a)
                  (λ s l p. save_final-Bounded k o n codec m (receipt_of m.id a) s l p.0 p.1)
                  (λ s l p. p.1.1) (λ s l b. b))
                (λ _.
                  finish-Ensures codec channel persona_name (Bounded k o n)
                    (λ s s' l e b. Bounded-keeps k o n s s' l (e k) b) session m _)))

  -- A delivery goes on from the status that it has.
  resume-Bounded :
      (session : SessionView) (m : OutboundMessage) (r : DeliveryReceipt) (st : DeliveryStatus)
      → Ensures
          (At k o n st m.id)
          (resume codec channel persona_name session m r st)
          (λ _. Bounded k o n)
          (Bounded k o n)
  unfolding resume
  resume-Bounded session m r sent =
      Ensures-bind (λ _. Bounded k o n) _ _
        (Ensures-weaken _ (λ s l p. p.1) (commit-Bounded session m) (λ _ s l b. b) (λ s l b. b))
        (λ _. Ensures-pure _ (λ s l b. b))
  resume-Bounded session m r dispatching =
      Ensures-bind (λ _. Bounded k o n) _ _
        (save-Ensures (At k o n dispatching m.id) (Bounded k o n) m (unknown_receipt m.id)
          (λ s l p. save_final-Bounded k o n codec m (unknown_receipt m.id) s l unknown_final p)
          (λ s l p. p.1) (λ s l b. b))
        (λ _. Ensures-pure _ (λ s l b. b))
  resume-Bounded session m r prepared = dispatch-Bounded session m
  resume-Bounded session m r blocked = Ensures-pure _ (λ s l p. p.1)
  resume-Bounded session m r failed = Ensures-pure _ (λ s l p. p.1)
  resume-Bounded session m r dropped = Ensures-pure _ (λ s l p. p.1)
  resume-Bounded session m r unknown = Ensures-pure _ (λ s l p. p.1)

  deliver_from-Bounded :
      (session : SessionView) (m : OutboundMessage) (r : Option DeliveryReceipt)
      → Ensures
          (λ s l.
            (status_of m.id s ≡ option_map (λ (x : DeliveryReceipt). x.status) r)
            × Bounded k o n s l)
          (deliver_from codec channel persona_name session m r)
          (λ _. Bounded k o n)
          (Bounded k o n)
  unfolding deliver_from
  deliver_from-Bounded session m none =
      Ensures-bind (λ _. At k o n prepared m.id) _ _
        (save-Ensures _ (At k o n prepared m.id) m (blank_receipt m.id prepared)
          (λ s l p.
            save-At k o n codec m (blank_receipt m.id prepared) s l none p.0 is_prepared_first
              (ground arith) p.1)
          (λ s l p. p.1) (λ s l p. p.1))
        (λ _. dispatch-Bounded session m)
  deliver_from-Bounded session m (some r) = resume-Bounded session m r r.status

  pub deliver-Bounded :
      (session : SessionView) (m : OutboundMessage)
      → Ensures
          (Bounded k o n)
          (deliver codec channel persona_name session m)
          (λ _. Bounded k o n)
          (Bounded k o n)
  unfolding deliver
  deliver-Bounded session m =
      Ensures-bind
        (λ r s l.
          (status_of m.id s ≡ option_map (λ (x : DeliveryReceipt). x.status) r) × Bounded k o n s l)
        _ _ (Ensures-query _ (λ s l b. (sym (status_of-get_delivery m.id s), b)) (λ s l b. b))
        (λ r. deliver_from-Bounded session m r)

  publish_all-Bounded :
      (rs : List DeliveryReceipt)
      → Ensures
          (Bounded k o n)
          (publish_all codec channel persona_name rs)
          (λ _. Bounded k o n)
          (Bounded k o n)
  unfolding publish_all
  publish_all-Bounded [] = Ensures-pure _ (λ s l b. b)
  publish_all-Bounded (r ∷ rs) =
      Ensures-bind (λ _. Bounded k o n) _ _ (Ensures-publish _ (λ s l b. b))
        (λ _. publish_all-Bounded rs)

  pub prepare_batch-Bounded :
      (ms : List OutboundMessage)
      → Ensures
          (Bounded k o n)
          (prepare_batch codec channel persona_name ms)
          (λ _. Bounded k o n)
          (Bounded k o n)
  unfolding prepare_batch
  prepare_batch-Bounded ms =
      Ensures-bind (λ _. Bounded k o n) _ _
        (Ensures-transact _
          (λ now s l a s' b e.
            Bounded-Prepares k o n s s' l (prepare_outbound_batch-Prepares codec k ms s s' a e) b)
          (λ s l b. b))
        (λ rs.
          Ensures-bind (λ _. Bounded k o n) _ _ (publish_all-Bounded rs)
            (λ _. Ensures-pure _ (λ s l b. b)))

  deliver_found-Bounded :
      (m : OutboundMessage) (session : Option SessionView)
      → Ensures
          (Bounded k o n)
          (elim session [
            | none ↦ pure tt
            | some found ↦ deliver codec channel persona_name found m >> pure tt
          ])
          (λ _. Bounded k o n)
          (Bounded k o n)
  deliver_found-Bounded m none = Ensures-pure _ (λ s l b. b)
  deliver_found-Bounded m (some found) =
      Ensures-bind (λ _. Bounded k o n) _ _ (deliver-Bounded found m)
        (λ _. Ensures-pure _ (λ s l b. b))

  recover_one-Bounded :
      (m : OutboundMessage) (r : Option DeliveryReceipt)
      → Ensures
          (Bounded k o n)
          (recover_one codec channel persona_name m r)
          (λ _. Bounded k o n)
          (Bounded k o n)
  unfolding recover_one
  recover_one-Bounded m r = Ensures-if _ _ _ (Ensures-pure _ (λ s l b. b)) (
      Ensures-bind (λ _. Bounded k o n) _ _ (Ensures-query _ (λ s l b. b) (λ s l b. b))
        (λ session. deliver_found-Bounded m session))

  recover_all-Bounded :
      (ms : List OutboundMessage)
      → Ensures
          (Bounded k o n)
          (recover_all codec channel persona_name ms)
          (λ _. Bounded k o n)
          (Bounded k o n)
  unfolding recover_all
  recover_all-Bounded [] = Ensures-pure _ (λ s l b. b)
  recover_all-Bounded (m ∷ ms) =
      Ensures-bind (λ _. Bounded k o n) _ _ (Ensures-query _ (λ s l b. b) (λ s l b. b))
        (λ r.
          Ensures-bind (λ _. Bounded k o n) _ _ (recover_one-Bounded m r)
            (λ _. recover_all-Bounded ms))

  pub recover-Bounded :
      Ensures
        (Bounded k o n)
        (recover codec channel persona_name)
        (λ _. Bounded k o n)
        (Bounded k o n)
  unfolding recover
  recover-Bounded =
      Ensures-bind (λ _. Bounded k o n) _ _ (Ensures-query _ (λ s l b. b) (λ s l b. b))
        (λ ms. recover_all-Bounded ms)

  -- A message that is promoted from the status `st`.
  pub promote-Bounded :
      (n' : ℕ) (allowed : DeliveryStatus → Bool) (st : DeliveryStatus) (m : OutboundMessage)
      → ((x : DeliveryStatus) → allowed x ≡ true → x ≡ st)
      → Moves (some st) (some prepared)
      → n ≤ n'
      → (str_eq m.id k ≡ true → Reaches o (some st) → 1 + n ≤ credit (some st) + n')
      → Ensures
          (Bounded k o n)
          (promote codec channel persona_name allowed m)
          (λ _. Bounded k o n')
          (Bounded k o n')
  unfolding promote
  promote-Bounded n' allowed st m only mv le c =
      Ensures-bind (λ _. Bounded k o n') _ _
        (Ensures-transact _
          (λ now s l a s' b e.
            transition-Bounded k o n n' allowed st m.id s s' l a only mv le c e b)
          (λ s l b. (ground (arith, b.0, le), b.1)))
        (λ r.
          Ensures-bind (λ _. Bounded k o n') _ _ (Ensures-publish _ (λ s l b. b))
            (λ _. Ensures-pure _ (λ s l b. b)))

pub only_blocked : (x : DeliveryStatus) → is_blocked x ≡ true → x ≡ blocked
only_blocked x e = ground arith

pub only_failed : (x : DeliveryStatus) → is_failed x ≡ true → x ≡ failed
only_failed x e = ground arith
