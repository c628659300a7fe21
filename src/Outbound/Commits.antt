-- ===== src/Outbound/Commits.antt =====
-- A commit of src/application/outbound.py, and the end of a delivery.
use i_ja_for_u.Base.{ℕ, String, not, List, ◌≡◌}
use i_ja_for_u.Domain.{ChatType, SessionView, OutboundMessage, DeliveryReceipt}
use i_ja_for_u.Outbound.Store.{Store, Codec, is_sent}
use i_ja_for_u.Outbound.Effects.{SendResult}
use i_ja_for_u.Outbound.Hoare.{
  Pred, Ensures, Ensures-bind, Ensures-pure, Ensures-transact, Ensures-publish, Ensures-if,
}
use i_ja_for_u.Outbound.Status.{status_of}
use i_ja_for_u.Outbound.Kept.{status_of-commit_outbound, status_of-record_expression_usage}
use i_ja_for_u.Outbound.{commit, finish}

-- A predicate that depends on the statuses and the sends alone is kept by a commit.
module _ (codec : Codec) (channel : ℕ → SessionView → OutboundMessage → SendResult)
    (persona_name : ChatType → String) (P : Pred)
    (keeps : (s s' : Store) (l : List String)
      → ((id : String) → status_of id s' ≡ status_of id s)
      → P s l
      → P s' l) where
  pub commit-Ensures :
      (session : SessionView) (m : OutboundMessage)
      → Ensures P (commit codec channel persona_name session m) (λ _. P) P
  unfolding commit
  commit-Ensures session m =
      Ensures-bind (λ _. P) _ _
        (Ensures-transact _
          (λ now s l a s' b e.
            keeps s s' l (λ id. status_of-commit_outbound codec id now m _ s s' a e) b)
          (λ s l b. b))
        (λ c.
          Ensures-bind (λ _. P) _ _
            (Ensures-transact _
              (λ now s l a s' b e.
                keeps s s' l (λ id. status_of-record_expression_usage id now m.id _ s s' a e) b)
              (λ s l b. b))
            (λ _.
              Ensures-bind (λ _. P) _ _ (Ensures-publish _ (λ s l b. b))
                (λ _. Ensures-pure c (λ s l b. b))))

  pub finish-Ensures :
      (session : SessionView) (m : OutboundMessage) (r : DeliveryReceipt)
      → Ensures P (finish codec channel persona_name session m r) (λ _. P) P
  unfolding finish
  finish-Ensures session m r =
      Ensures-if (not (is_sent r.status)) _ _ (Ensures-pure _ (λ s l b. b))
        (Ensures-bind (λ _. P) _ _ (commit-Ensures session m) (λ _. Ensures-pure _ (λ s l b. b)))
