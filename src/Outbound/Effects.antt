-- ===== src/Outbound/Effects.antt =====
-- The effects of src/application/outbound.py: transactions on the store, events, and sends on the
-- channel, in a process that may stop before any of them. A stopped process does nothing more.
use i_ja_for_u.Base.{ℕ, zero, suc, String, Option, List, [], ◌∷◌, ◌++◌, length}
use i_ja_for_u.Domain.{
  IjaError, Result, ok, err, SessionView, OutboundMessage, DeliveryReceipt, StoredMessage,
}
use i_ja_for_u.Outbound.Store.{Store}

-- What `ChannelAdapter.send` does: it returns a receipt, or raises an exception with a code or
-- without one and with the first 500 characters of its text.
pub data SendResult : Type 0 where
  receipt : DeliveryReceipt → SendResult
  raises : (code : Option String) (text : String) → SendResult

pub data OutboundEvent : Type 0 where
  delivery_updated : DeliveryReceipt → OutboundEvent
  message_committed : StoredMessage → OutboundEvent

-- `sends` holds the ids of the messages that were handed to the channel, the latest first. The
-- process stops when `steps_left` effects are done.
pub record World : Type 0 where
  pub store : Store
  pub sends : List String
  pub events : List OutboundEvent
  pub now : ℕ
  pub steps_left : ℕ

pub data Outcome {ℓ} (A : Type ℓ) : Type ℓ where
  done : A → Outcome A
  raised : IjaError → Outcome A
  stopped : Outcome A

abbrev pub Action {ℓ} : Type ℓ → Type ℓ
Action A = World → Outcome A × World

module _ {ℓ} {A : Type ℓ} where
  unfoldable pub pure : A → Action A
  pure a w = (done a, w)

  -- A transaction commits what it returns, or raises and changes nothing.
  abbrev pub settle : World → Result (A × Store) → Outcome A × World
  settle w (ok (a, s)) = (done a, record w { store = s })
  settle w (err e) = (raised e, w)

  abbrev pub within : (World → Outcome A × World) → ℕ → World → Outcome A × World
  within f zero w = (stopped, w)
  within f (suc n) w = f (record w { steps_left = n })

  unfoldable pub transact : (ℕ → Store → Result (A × Store)) → Action A
  transact f w = within (λ v. settle v (f v.now v.store)) w.steps_left w

module _ {ℓ κ} {A : Type ℓ} {B : Type κ} where
  abbrev pub continue : Outcome A → (A → Action B) → World → Outcome B × World
  continue (done a) f w = f a w
  continue (raised e) f w = (raised e, w)
  continue stopped f w = (stopped, w)

  infixl 10 ◌>>=◌ ◌>>◌
  unfoldable pub ◌>>=◌ : Action A → (A → Action B) → Action B
  ◌>>=◌ m f w = let (r, w') = m w in continue r f w'

  abbrev pub ◌>>◌ : Action A → Action B → Action B
  m >> n = m >>= λ _. n

-- A transaction that only reads.
unfoldable pub query {ℓ} : {A : Type ℓ} → (Store → A) → Action A
unfolding transact
query f = transact (λ now s. ok (f s, s))

unfoldable pub publish : OutboundEvent → Action (Unit {0})
publish e w = within (λ v. (done tt, record v { events = v.events ++ e ∷ [] })) w.steps_left w

-- The channel sees how many messages it was handed before.
unfoldable pub send :
    (ℕ → SessionView → OutboundMessage → SendResult)
    → SessionView
    → OutboundMessage
    → Action SendResult
send channel session message w =
    within
      (λ v. (
        done (channel (length v.sends) session message),
        record v { sends = message.id ∷ v.sends },
      ))
      w.steps_left w
