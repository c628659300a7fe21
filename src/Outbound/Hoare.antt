-- ===== src/Outbound/Hoare.antt =====
-- What an action of src/application/outbound.py leads to, one rule for each way to build an action.
use i_ja_for_u.Base.{
  ℕ, zero, suc, String, List, [], ◌∷◌, ◌++◌, Bool, true, false, ◌≡◌, refl, if◌then◌else◌, length,
}
use i_ja_for_u.Domain.{Result, ok, err, SessionView, OutboundMessage}
use i_ja_for_u.Outbound.Store.{Store}
use i_ja_for_u.Outbound.Effects.{
  World, Outcome, done, raised, stopped, Action, pure, ◌>>=◌, continue, transact, settle, within,
  query, publish, send, OutboundEvent, SendResult,
}

-- A predicate on what lasts: the store and the sends.
abbrev pub Pred : Type 1
Pred = Store → List String → Type 0

abbrev pub Holds : Pred → World → Type 0
Holds P w = P w.store w.sends

-- `Q` where the action returns, and `R` where it raises or the process stops.
abbrev pub Post : {A : Type 0} → (A → Pred) → Pred → Outcome A × World → Type 0
Post Q R (done a, w) = Holds (Q a) w
Post Q R (raised e, w) = Holds R w
Post Q R (stopped, w) = Holds R w

pub record Ensures {A : Type 0} (P : Pred) (m : Action A) (Q : A → Pred) (R : Pred) : Type 0 where
  pub at : (w : World) → Holds P w → Post Q R (m w)

module _ {A : Type 0} (Q : A → Pred) (R : Pred) where
  within-Post :
      (f : World → Outcome A × World) (n : ℕ) (w : World)
      → ((k : ℕ) → Post Q R (f (record w { steps_left = k })))
      → Holds R w
      → Post Q R (within f n w)
  within-Post f zero w h k = k
  within-Post f (suc n) w h k = h n

  settle-Post :
      (w : World) (r : Result (A × Store))
      → ((a : A) (s : Store) → r ≡ ok (a, s) → Q a s w.sends)
      → Holds R w
      → Post Q R (settle w r)
  settle-Post w (ok (a, s)) h k = h a s refl
  settle-Post w (err e) h k = k

  continue-Post :
      {B : Type 0} {S : B → Pred} (r : Outcome A × World) (f : A → Action B)
      → Post Q R r
      → ((a : A) → Ensures (Q a) (f a) S R)
      → Post S R (continue r.0 f r.1)
  continue-Post (done a, w) f h k = (k a).at w h
  continue-Post (raised e, w) f h k = h
  continue-Post (stopped, w) f h k = h

module _ {A B : Type 0} {P R : Pred} {S : B → Pred} (Q : A → Pred) where
  pub Ensures-bind :
      (m : Action A) (f : A → Action B)
      → Ensures P m Q R
      → ((a : A) → Ensures (Q a) (f a) S R)
      → Ensures P (m >>= f) S R
  unfolding ◌>>=◌
  Ensures-bind m f em ef = record { at = λ w h. continue-Post Q R (m w) f (em.at w h) ef }

module _ {A : Type 0} {P R : Pred} {Q : A → Pred} where
  pub Ensures-pure :
      (a : A) → ((s : Store) (l : List String) → P s l → Q a s l) → Ensures P (pure a) Q R
  unfolding pure
  Ensures-pure a h = record { at = λ w p. h w.store w.sends p }

  pub Ensures-transact :
      (f : ℕ → Store → Result (A × Store))
      → ((now : ℕ) (s : Store) (l : List String) (a : A) (s' : Store)
          → P s l
          → f now s ≡ ok (a, s')
          → Q a s' l)
      → ((s : Store) (l : List String) → P s l → R s l)
      → Ensures P (transact f) Q R
  unfolding transact
  Ensures-transact f h k = record {
    at = λ w p.
        within-Post Q R (λ v. settle v (f v.now v.store)) w.steps_left w
          (λ n.
            settle-Post Q R (record w { steps_left = n }) (f w.now w.store)
              (λ a s e. h w.now w.store w.sends a s p e) (k w.store w.sends p))
          (k w.store w.sends p);
  }

  -- A stronger precondition, and weaker postconditions.
  pub Ensures-weaken :
      (m : Action A) {P' R' : Pred} {Q' : A → Pred}
      → ((s : Store) (l : List String) → P s l → P' s l)
      → Ensures P' m Q' R'
      → ((a : A) (s : Store) (l : List String) → Q' a s l → Q a s l)
      → ((s : Store) (l : List String) → R' s l → R s l)
      → Ensures P m Q R
  Ensures-weaken m {P'} {R'} {Q'} p e q r = record {
    at = λ w h. weaken (m w) (e.at w (p w.store w.sends h));
  }
    where
      weaken : (o : Outcome A × World) → Post Q' R' o → Post Q R o
      weaken (done a, w) h = q a w.store w.sends h
      weaken (raised e, w) h = r w.store w.sends h
      weaken (stopped, w) h = r w.store w.sends h

  pub Ensures-if :
      (b : Bool) (x y : Action A)
      → Ensures P x Q R
      → Ensures P y Q R
      → Ensures P (if b then x else y) Q R
  Ensures-if true x y ex ey = ex
  Ensures-if false x y ex ey = ey

  -- What holds whether the action returns or not.
  pub Ensures-post :
      (m : Action A) (S : Pred)
      → ((a : A) (s : Store) (l : List String) → Q a s l → S s l)
      → ((s : Store) (l : List String) → R s l → S s l)
      → Ensures P m Q R
      → (w : World) → Holds P w
      → Holds S (m w).1
  Ensures-post m S q r e w p = after (m w) (e.at w p)
    where
      after : (x : Outcome A × World) → Post Q R x → Holds S x.1
      after (done a, v) h = q a v.store v.sends h
      after (raised x, v) h = r v.store v.sends h
      after (stopped, v) h = r v.store v.sends h

module _ {P R : Pred} where
  pub Ensures-query :
      {A : Type 0} {Q : A → Pred} (f : Store → A)
      → ((s : Store) (l : List String) → P s l → Q (f s) s l)
      → ((s : Store) (l : List String) → P s l → R s l)
      → Ensures P (query f) Q R
  unfolding query
  Ensures-query {A} {Q} f h k = record {
    at = λ w p.
        within-Post Q R (λ v. settle v (ok (f v.store, v.store))) w.steps_left w
          (λ n. h w.store w.sends p) (k w.store w.sends p);
  }

  pub Ensures-publish :
      (e : OutboundEvent)
      → ((s : Store) (l : List String) → P s l → R s l)
      → Ensures P (publish e) (λ _. P) R
  unfolding publish
  Ensures-publish e k = record {
    at = λ w p.
        within-Post (λ _. P) R (λ v. (done tt, record v { events = v.events ++ e ∷ [] }))
          w.steps_left w (λ n. p) (k w.store w.sends p);
  }

  pub Ensures-send :
      {Q : SendResult → Pred} (channel : ℕ → SessionView → OutboundMessage → SendResult)
      (session : SessionView) (message : OutboundMessage)
      → ((n : ℕ) (s : Store) (l : List String)
          → P s l
          → Q (channel n session message) s (message.id ∷ l))
      → ((s : Store) (l : List String) → P s l → R s l)
      → Ensures P (send channel session message) Q R
  unfolding send
  Ensures-send {Q} channel session message h k = record {
    at = λ w p.
        within-Post Q R
          (λ v. (
            done (channel (length v.sends) session message),
            record v { sends = message.id ∷ v.sends },
          ))
          w.steps_left w (λ n. h (length w.sends) w.store w.sends p) (k w.store w.sends p);
  }
