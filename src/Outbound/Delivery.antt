-- ===== src/Outbound/Delivery.antt =====
-- `deliver` of src/application/outbound.py, run to its end.
use text.Mathlib.TextPositions.{eq_refl}
use i_ja_for_u.Base.{
  ℕ, suc, ◌-◌, true, is_some, [], ◌++◌, ◌≤◌, String, Option, none, some, List, ◌∷◌, ◌≡◌, refl, sym,
  ◌∙◌, subst, ◌⊎◌, inl, inr, Option-cases, length, arith,
}
use i_ja_for_u.Domain.{
  ChatType, DeliveryStatus, prepared, dispatching, unknown, ok, SessionView, OutboundMessage,
  DeliveryReceipt,
}
use i_ja_for_u.Outbound.Store.{
  Store, Codec, write_delivery, save_delivery, can_save, find_attempt, find_session, get_delivery,
}
use i_ja_for_u.Outbound.Batches.{blank_receipt}
use i_ja_for_u.Outbound.Effects.{
  SendResult, receipt, raises, done, OutboundEvent, delivery_updated, World, ◌>>=◌, transact, query,
  publish, send,
}
use i_ja_for_u.Outbound.Hoare.{Ensures-post}
use i_ja_for_u.Outbound.Status.{status_of, status_of-write_delivery, status_of-get_delivery}
use i_ja_for_u.Outbound.Commits.{finish-Ensures}
use i_ja_for_u.Outbound.{
  receipt_of, save_and_publish, finish, dispatch, resume, deliver_from, deliver,
}

-- The status of a message after the channel answered.
abbrev pub answered : SendResult → DeliveryStatus
answered (receipt r) = r.status
answered (raises code text) = unknown

module _ (codec : Codec) (channel : ℕ → SessionView → OutboundMessage → SendResult)
    (persona_name : ChatType → String) (session : SessionView) (m : OutboundMessage) where
  -- What `dispatch` leaves: one more send, and the status that the channel answered.
  abbrev Answered : List String → DeliveryStatus → World → Type 0
  Answered l st w = (w.sends ≡ m.id ∷ l) × (status_of m.id w.store ≡ some st)

  finish-Answered :
      (r : DeliveryReceipt) (l : List String) (w : World)
      → Answered l r.status w
      → Answered l r.status (finish codec channel persona_name session m r w).1
  finish-Answered r l w h =
      Ensures-post _ (λ s x. (x ≡ m.id ∷ l) × (status_of m.id s ≡ some r.status)) (λ _ s x h. h)
        (λ s x h. h)
        (finish-Ensures codec channel persona_name
          (λ s x. (x ≡ m.id ∷ l) × (status_of m.id s ≡ some r.status))
          (λ s s' x e h. (h.0, e m.id ∙ h.1)) session m r)
        w h

  -- A world with so many effects left.
  abbrev world : Store → List String → List OutboundEvent → (now steps : ℕ) → World
  world s l es now steps = record {
    store = s;
    sends = l;
    events = es;
    now = now;
    steps_left = steps;
  }

  saved :
      (r : DeliveryReceipt) (s : Store)
      → can_save codec m s ≡ true
      → save_delivery codec m r s ≡ ok (tt, write_delivery codec m r s)
  unfolding save_delivery
  saved r s h = rw h refl

  save_and_publish-runs :
      (r : DeliveryReceipt) (s : Store) (l : List String) (es : List OutboundEvent) (now j : ℕ)
      → can_save codec m s ≡ true
      → save_and_publish codec channel persona_name m r (world s l es now (suc (suc j)))
        ≡ (done tt, world (write_delivery codec m r s) l (es ++ delivery_updated r ∷ []) now j)
  unfolding save_and_publish ◌>>=◌ transact publish
  save_and_publish-runs r s l es now j h = rw (saved r s h) refl

  -- After a save there is a row, and the next save succeeds.
  written-can_save :
      (r : DeliveryReceipt) (s : Store) → can_save codec m (write_delivery codec m r s) ≡ true
  unfolding status_of
  written-can_save r s =
      elim (Option-cases (find_attempt m.id (write_delivery codec m r s).attempts)) [
        | inl missing ↦
            absurd
              (ground (arith, missing, eq_refl m.id, status_of-write_delivery codec m.id m r s))
        | inr (row, found) ↦ rw found refl
      ]

  answered-status : (x : SendResult) → (receipt_of m.id x).status ≡ answered x
  answered-status (receipt r) = refl
  answered-status (raises code text) = refl

  dispatch-Answered :
      (s : Store) (l : List String) (es : List OutboundEvent) (now j : ℕ)
      → can_save codec m s ≡ true
      → Answered l
          (answered (channel (length l) session m))
          (dispatch codec channel persona_name session m
            (world s l es now (suc (suc (suc (suc (suc j))))))).1
  unfolding dispatch ◌>>=◌ send
  dispatch-Answered s l es now j h =
      let r : DeliveryReceipt = receipt_of m.id (channel (length l) session m) in
      let s₁ : Store = write_delivery codec m (blank_receipt m.id dispatching) s in
      rw
        (
          save_and_publish-runs (blank_receipt m.id dispatching) s l es now (suc (suc (suc j))) h,
          save_and_publish-runs r s₁ (m.id ∷ l)
              (es ++ delivery_updated (blank_receipt m.id dispatching) ∷ []) now j
              (written-can_save (blank_receipt m.id dispatching) s),
          sym (answered-status (channel (length l) session m)),
        )
        (finish-Answered r l _
          (refl, ground (arith, eq_refl m.id, status_of-write_delivery codec m.id m r s₁)))

  -- The receipt that is read has the status of the delivery.
  read-status :
      (s : Store) (r : DeliveryReceipt) (st : DeliveryStatus)
      → get_delivery m.id s ≡ some r
      → status_of m.id s ≡ some st
      → r.status ≡ st
  read-status s r st e h = ground (arith, e, h, status_of-get_delivery m.id s)

  read-missing : (s : Store) → status_of m.id s ≡ none → get_delivery m.id s ≡ none
  read-missing s h = elim (Option-cases (get_delivery m.id s)) [
    | inl e ↦ e
    | inr (r, e) ↦ absurd (ground (arith, e, h, status_of-get_delivery m.id s))
  ]

  deliver_from-Answered :
      (s : Store) (l : List String) (es : List OutboundEvent) (now j : ℕ)
      (existing : Option DeliveryReceipt)
      → can_save codec m s ≡ true
      → (existing ≡ none) ⊎ ((r : DeliveryReceipt) × (existing ≡ some r) × (r.status ≡ prepared))
      → Answered l
          (answered (channel (length l) session m))
          (deliver_from codec channel persona_name session m existing
            (world s l es now (suc (suc (suc (suc (suc (suc (suc j))))))))).1
  unfolding deliver_from resume ◌>>=◌
  deliver_from-Answered s l es now j none can h =
      rw
        (save_and_publish-runs (blank_receipt m.id prepared) s l es now
          (suc (suc (suc (suc (suc j))))) can)
        (dispatch-Answered _ l _ now j (written-can_save (blank_receipt m.id prepared) s))
  deliver_from-Answered s l es now j (some r) can (inl e) = absurd (ground arith)
  deliver_from-Answered s l es now j (some r) can (inr (x, e, p)) =
      let was : r.status ≡ prepared = ground (arith, e, p) in
      subst
        (λ st.
          Answered l (answered (channel (length l) session m))
            (resume codec channel persona_name session m r st
              (world s l es now (suc (suc (suc (suc (suc (suc (suc j))))))))).1)
        (sym was) (dispatch-Answered s l es now (suc (suc j)) can)

  deliver-Answered :
      (s : Store) (l : List String) (es : List OutboundEvent) (now j : ℕ)
      → can_save codec m s ≡ true
      → (status_of m.id s ≡ none) ⊎ (status_of m.id s ≡ some prepared)
      → Answered l
          (answered (channel (length l) session m))
          (deliver codec channel persona_name session m
            (world s l es now (suc (suc (suc (suc (suc (suc (suc (suc j)))))))))).1
  unfolding deliver ◌>>=◌ query transact
  deliver-Answered s l es now j can (inl e) =
      deliver_from-Answered s l es now j (get_delivery m.id s) can (inl (read-missing s e))
  deliver-Answered s l es now j can (inr e) =
      deliver_from-Answered s l es now j (get_delivery m.id s) can
        (elim (Option-cases (get_delivery m.id s)) [
          | inl missing ↦ inl missing
          | inr (r, found) ↦ inr (r, found, read-status s r prepared found e)
        ])

  eight : (n : ℕ) → 8 ≤ n → suc (suc (suc (suc (suc (suc (suc (suc (n - 8)))))))) ≡ n
  eight n h = ground arith

  -- A message that has no attempt, or a prepared one, and whose session has a row, in a process that
  -- lives for the eight effects that it takes: `deliver` hands it to the channel exactly once, and
  -- its status is then that of the receipt that the channel returned, or `unknown` where the channel
  -- raised.
  pub deliver-sends_once :
      (w : World)
      → is_some (find_session m.session_id w.store.sessions) ≡ true
      → (status_of m.id w.store ≡ none) ⊎ (status_of m.id w.store ≡ some prepared)
      → 8 ≤ w.steps_left
      → ((deliver codec channel persona_name session m w).1.sends ≡ m.id ∷ w.sends)
        × (status_of m.id (deliver codec channel persona_name session m w).1.store
            ≡ some (answered (channel (length w.sends) session m)))
  deliver-sends_once w known h enough =
      subst
        (λ n.
          Answered w.sends (answered (channel (length w.sends) session m))
            (deliver codec channel persona_name session m (record w { steps_left = n })).1)
        (eight w.steps_left enough)
        (deliver-Answered w.store w.sends w.events w.now (w.steps_left - 8) (ground (arith, known))
          h)
