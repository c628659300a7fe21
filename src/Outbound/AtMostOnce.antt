-- ===== src/Outbound/AtMostOnce.antt =====
-- What the calls of src/application/outbound.py do to one delivery: how often it reaches the
-- channel, and how its status moves, whenever the process stops.
use text.Mathlib.Text.{◌==◌ as str_eq}
use i_ja_for_u.Base.{
  ℕ, ◌+◌, ◌≤◌, String, Bool, true, false, Option, none, some, List, [], ◌∷◌, ◌≡◌, refl, sym, ap,
  subst, if◌then◌else◌, arith,
}
use i_ja_for_u.Domain.{
  ChatType, DeliveryStatus, blocked, sent, failed, dropped, unknown, SessionView, OutboundMessage,
  DeliveryReceipt,
}
use i_ja_for_u.Outbound.Store.{Codec}
use i_ja_for_u.Outbound.Effects.{SendResult, receipt, World}
use i_ja_for_u.Outbound.Hoare.{Ensures-post}
use i_ja_for_u.Outbound.Status.{status_of}
use i_ja_for_u.Outbound.Moves.{
  IsFinal, Moves, is_prepared_first, is_blocked_first, is_promoted, is_retried, is_dispatched,
  is_answered, Reaches, stays, moves, sends_of, credit, Bounded, Bounded-le,
}
use i_ja_for_u.Outbound.Preserves.{
  deliver-Bounded, prepare_batch-Bounded, recover-Bounded, promote-Bounded, only_blocked,
  only_failed,
}
use i_ja_for_u.Outbound.{
  promote_blocked, retry_failed, is_blocked, is_failed, Call, delivers, prepares, promotes, retries,
  recovers, restarts, perform, perform_all,
}

-- `d` for each call of `retry_failed` for the message `k`.
unfoldable pub charge : ℕ → String → Call → ℕ
charge d k (retries m) = if str_eq m.id k then d else 0
charge d k _ = 0

unfoldable pub charges : ℕ → String → List Call → ℕ
charges d k [] = 0
charges d k (c ∷ cs) = charge d k c + charges d k cs

-- How often `retry_failed` was called for a message.
abbrev pub retries_of : String → List Call → ℕ
retries_of = charges 1

module _ (codec : Codec) (channel : ℕ → SessionView → OutboundMessage → SendResult)
    (persona_name : ChatType → String)
    (answers : (i : ℕ) (session : SessionView) (m : OutboundMessage) (r : DeliveryReceipt)
      → channel i session m ≡ receipt r
      → IsFinal r.status)
    (k : String) (o : Option DeliveryStatus) (d : ℕ) (pays : Reaches o (some failed) → 1 ≤ d) where
  perform-Bounded :
      (n : ℕ) (c : Call) (w : World)
      → Bounded k o n w.store w.sends
      → Bounded k o
          (charge d k c + n)
          (perform codec channel persona_name c w).store
          (perform codec channel persona_name c w).sends
  unfolding perform charge promote_blocked retry_failed
  perform-Bounded n (delivers session m) w b =
      Ensures-post _ (Bounded k o (0 + n))
        (λ _ s l h. Bounded-le k o n (0 + n) s l (ground arith) h)
        (λ s l h. Bounded-le k o n (0 + n) s l (ground arith) h)
        (deliver-Bounded codec channel persona_name answers k o n session m) w b
  perform-Bounded n (prepares ms) w b =
      Ensures-post _ (Bounded k o (0 + n))
        (λ _ s l h. Bounded-le k o n (0 + n) s l (ground arith) h)
        (λ s l h. Bounded-le k o n (0 + n) s l (ground arith) h)
        (prepare_batch-Bounded codec channel persona_name answers k o n ms) w b
  perform-Bounded n (promotes m) w b =
      Ensures-post _ (Bounded k o (0 + n))
        (λ _ s l h. Bounded-le k o n (0 + n) s l (ground arith) h)
        (λ s l h. Bounded-le k o n (0 + n) s l (ground arith) h)
        (promote-Bounded codec channel persona_name answers k o n n is_blocked blocked m
          only_blocked is_promoted (ground arith) (λ _ _. ground arith))
        w b
  perform-Bounded n (retries m) w b =
      Ensures-post _ (Bounded k o (charge d k (retries m) + n)) (λ _ s l h. h) (λ s l h. h)
        (promote-Bounded codec channel persona_name answers k o n (charge d k (retries m) + n)
          is_failed failed m only_failed is_retried (ground arith)
          (λ same reached. ground (arith, same, pays reached)))
        w b
  perform-Bounded n recovers w b =
      Ensures-post _ (Bounded k o (0 + n))
        (λ _ s l h. Bounded-le k o n (0 + n) s l (ground arith) h)
        (λ s l h. Bounded-le k o n (0 + n) s l (ground arith) h)
        (recover-Bounded codec channel persona_name answers k o n) w b
  perform-Bounded n (restarts steps now) w b =
      Bounded-le k o n (0 + n) w.store w.sends (ground arith) b

  perform_all-Bounded :
      (n : ℕ) (cs : List Call) (w : World)
      → Bounded k o n w.store w.sends
      → Bounded k o
          (charges d k cs + n)
          (perform_all codec channel persona_name cs w).store
          (perform_all codec channel persona_name cs w).sends
  unfolding perform_all charges
  perform_all-Bounded n [] w b = Bounded-le k o n (0 + n) w.store w.sends (ground arith) b
  perform_all-Bounded n (c ∷ cs) w b =
      let rest =
        perform_all-Bounded (charge d k c + n) cs (perform codec channel persona_name c w)
          (perform-Bounded n c w b) in
      (ground (arith, rest.0), rest.1)

-- The statuses that a delivery never leaves.
pub data IsSettled : DeliveryStatus → Type 0 where
  sent_settled : IsSettled sent
  dropped_settled : IsSettled dropped
  unknown_settled : IsSettled unknown

abbrev can_move : Option DeliveryStatus → Bool
can_move (some sent) = false
can_move (some dropped) = false
can_move (some unknown) = false
can_move _ = true

Moves-can_move : {x y : Option DeliveryStatus} → Moves x y → can_move x ≡ true
Moves-can_move is_prepared_first = refl
Moves-can_move is_blocked_first = refl
Moves-can_move is_promoted = refl
Moves-can_move is_retried = refl
Moves-can_move is_dispatched = refl
Moves-can_move (is_answered final) = refl

Reaches-stuck : {x y : Option DeliveryStatus} → can_move x ≡ false → Reaches x y → y ≡ x
Reaches-stuck {x} h stays = refl
Reaches-stuck {x} h (moves {b} r m) =
    absurd (ground (arith, h, ap can_move (Reaches-stuck h r), Moves-can_move m))

IsSettled-stuck : {st : DeliveryStatus} → IsSettled st → can_move (some st) ≡ false
IsSettled-stuck sent_settled = refl
IsSettled-stuck dropped_settled = refl
IsSettled-stuck unknown_settled = refl

IsSettled-credit : {st : DeliveryStatus} → IsSettled st → credit (some st) ≡ 0
IsSettled-credit sent_settled = refl
IsSettled-credit dropped_settled = refl
IsSettled-credit unknown_settled = refl

charges-zero : (k : String) (cs : List Call) → charges 0 k cs ≡ 0
unfolding charges charge
charges-zero k [] = refl
charges-zero k (retries m ∷ cs) = ground (arith, charges-zero k cs)
charges-zero k (delivers session m ∷ cs) = ground (arith, charges-zero k cs)
charges-zero k (prepares ms ∷ cs) = ground (arith, charges-zero k cs)
charges-zero k (promotes m ∷ cs) = ground (arith, charges-zero k cs)
charges-zero k (recovers ∷ cs) = ground (arith, charges-zero k cs)
charges-zero k (restarts steps now ∷ cs) = ground (arith, charges-zero k cs)

-- The channel answers a send with a final status, or raises.
module _ (codec : Codec) (channel : ℕ → SessionView → OutboundMessage → SendResult)
    (persona_name : ChatType → String)
    (answers : (i : ℕ) (session : SessionView) (m : OutboundMessage) (r : DeliveryReceipt)
      → channel i session m ≡ receipt r
      → IsFinal r.status)
    (k : String) (calls : List Call) (w : World) where
  -- Where each receipt of the channel is `sent`, `failed`, `dropped` or `unknown`, and a message
  -- has no attempt and was never handed to the channel: whatever calls follow, in
  -- any order, with restarts at any point, it is handed to the channel at most once, and once more
  -- for each call of `retry_failed` for it.
  pub at_most_once :
      status_of k w.store ≡ none
      → sends_of k w.sends ≡ 0
      → sends_of k (perform_all codec channel persona_name calls w).sends ≤ 1 + retries_of k calls
  at_most_once fresh unsent =
      let b =
        perform_all-Bounded codec channel persona_name answers k none 1 (λ _. ground arith) 1 calls
          w (ground (arith, fresh, unsent), subst (Reaches none) (sym fresh) stays) in
      ground (arith, b.0)

  -- Where each receipt of the channel is `sent`, `failed`, `dropped` or `unknown`: whatever calls
  -- follow, in any order, with restarts at any point, the status of a delivery goes
  -- from what it was to what it is along the moves of `Moves`: it is new and becomes `prepared` or
  -- `blocked`, `blocked` is promoted, `failed` is retried, `prepared` is dispatched, and
  -- `dispatching` is answered.
  pub perform_all-Reaches :
      Reaches
        (status_of k w.store)
        (status_of k (perform_all codec channel persona_name calls w).store)
  perform_all-Reaches =
      (perform_all-Bounded codec channel persona_name answers k (status_of k w.store) 1
        (λ _. ground arith) (sends_of k w.sends + credit (status_of k w.store)) calls w
        (ground arith, stays)).1

  -- Where each receipt of the channel is `sent`, `failed`, `dropped` or `unknown`: a delivery that
  -- is `sent`, `dropped` or `unknown` keeps its status, and is not handed to the
  -- channel again, whatever calls follow, in any order, with restarts at any point.
  pub settled_forever :
      (st : DeliveryStatus)
      → IsSettled st
      → status_of k w.store ≡ some st
      → (status_of k (perform_all codec channel persona_name calls w).store ≡ some st)
        × (sends_of k (perform_all codec channel persona_name calls w).sends ≤ sends_of k w.sends)
  settled_forever st settled e =
      let b =
        perform_all-Bounded codec channel persona_name answers k (some st) 0
          (λ r.
            absurd
              (ground (arith, Reaches-stuck (IsSettled-stuck settled) r, IsSettled-stuck settled)))
          (sends_of k w.sends) calls w
          (ground (arith, e, IsSettled-credit settled), subst (Reaches (some st)) (sym e) stays) in
      (Reaches-stuck (IsSettled-stuck settled) b.1, ground (arith, b.0, charges-zero k calls))
