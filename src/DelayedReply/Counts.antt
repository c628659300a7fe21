-- ===== src/DelayedReply/Counts.antt =====
-- The messages that the parts of plugins/delayed_reply/runtime.py hold.
use i_ja_for_u.Base.{
  ℕ, zero, suc, ◌+◌, ◌≤◌, String, Bool, Option, some, List, [], ◌∷◌, ◌++◌, ◌≡◌, refl, if◌then◌else◌,
  arith,
}
use i_ja_for_u.Domain.{InboundMessage}
use i_ja_for_u.DelayedReply.{
  InboundEnvelope, PendingBatch, DelayedReplyPlugin, find_batch, put_batch, pop_batch, arm_timer,
  mark, set_flush, next_of, mark_all, or_empty,
}

-- How many of the messages pass the test `p`.
module _ (p : InboundMessage → Bool) where
  unfoldable pub count : List InboundMessage → ℕ
  count [] = 0
  count (m ∷ ms) = (if p m then 1 else 0) + count ms

  unfoldable pub count_in : List InboundEnvelope → ℕ
  count_in [] = 0
  count_in (e ∷ es) = (if p e.message then 1 else 0) + count_in es

  unfoldable pub count_flushing : List (List InboundEnvelope) → ℕ
  count_flushing [] = 0
  count_flushing (f ∷ fs) = count_in f + count_flushing fs

  unfoldable pub count_waiting : List (String × PendingBatch) → ℕ
  count_waiting [] = 0
  count_waiting ((k, b) ∷ bs) = count_in b.envelopes + count_waiting bs

  -- All the messages that the plugin has taken: the core has them, they are being submitted, they
  -- wait in a batch, or an exception of the core kept them back.
  abbrev pub count_all : DelayedReplyPlugin → ℕ
  count_all s =
      count_in s.forwarded
      + count_flushing s.flushing
      + count_in s.stop_flush
      + count_waiting s.batches
      + count_in s.lost

  pub count-append : (xs ys : List InboundMessage) → count (xs ++ ys) ≡ count xs + count ys
  unfolding count
  count-append [] ys = ground arith
  count-append (x ∷ xs) ys = ground (arith, count-append xs ys)

  pub count_in-append :
      (xs ys : List InboundEnvelope) → count_in (xs ++ ys) ≡ count_in xs + count_in ys
  unfolding count_in
  count_in-append [] ys = ground arith
  count_in-append (x ∷ xs) ys = ground (arith, count_in-append xs ys)

  pub count_flushing-append :
      (xs ys : List (List InboundEnvelope))
      → count_flushing (xs ++ ys) ≡ count_flushing xs + count_flushing ys
  unfolding count_flushing
  count_flushing-append [] ys = ground arith
  count_flushing-append (x ∷ xs) ys = ground (arith, count_flushing-append xs ys)

  pub count_in-mark : (es : List InboundEnvelope) → count_in (mark es) ≡ count_in es
  unfolding count_in mark
  count_in-mark [] = refl
  count_in-mark (e ∷ []) = refl
  count_in-mark (e ∷ f ∷ es) = ground (arith, count_in-mark (f ∷ es))

  -- The messages of the batch under a key.
  abbrev pub count_found : Option PendingBatch → ℕ
  count_found o = count_in (or_empty o).envelopes

  pub count_waiting-put :
      (key : String) (b : PendingBatch) (bs : List (String × PendingBatch))
      → count_waiting (put_batch key b bs) + count_found (find_batch key bs)
        ≡ count_waiting bs + count_in b.envelopes
  unfolding count_waiting put_batch find_batch count_in
  count_waiting-put key b [] = ground arith
  count_waiting-put key b ((k, c) ∷ bs) = ground (arith, count_waiting-put key b bs)

  pub count_waiting-pop :
      (key : String) (bs : List (String × PendingBatch))
      → count_waiting (pop_batch key bs) + count_found (find_batch key bs) ≡ count_waiting bs
  unfolding count_waiting pop_batch find_batch count_in
  count_waiting-pop key [] = ground arith
  count_waiting-pop key ((k, c) ∷ bs) = ground (arith, count_waiting-pop key bs)

  pub count_waiting-mark_all :
      (bs : List (String × PendingBatch)) → count_in (mark_all bs) ≡ count_waiting bs
  unfolding count_waiting mark_all count_in
  count_waiting-mark_all [] = refl
  count_waiting-mark_all ((k, b) ∷ bs) = ground (
    arith,
    count_in-append (mark b.envelopes) (mark_all bs),
    count_in-mark b.envelopes,
    count_waiting-mark_all bs,
  )

  pub count_flushing-set :
      (i : ℕ) (es : List InboundEnvelope) (fs : List (List InboundEnvelope))
      → count_in es ≤ count_in (next_of fs i)
      → count_flushing (set_flush i es fs) + count_in (next_of fs i)
        ≡ count_flushing fs + count_in es
  unfolding count_flushing set_flush count_in
  count_flushing-set i es [] h = ground arith
  count_flushing-set zero es (f ∷ fs) h = ground arith
  count_flushing-set (suc i) es (f ∷ fs) h = ground (arith, count_flushing-set i es fs h)

  -- Arming the timer of a batch puts the batch in its place.
  pub count_all-arm_timer :
      (key : String) (b : PendingBatch) (delay : ℕ) (s : DelayedReplyPlugin)
      → count_all (arm_timer key b delay s) + count_found (find_batch key s.batches)
        ≡ count_all s + count_in b.envelopes
  unfolding arm_timer
  count_all-arm_timer key b delay s = ground (
    arith,
    count_waiting-put key (record b { generation = b.generation + 1; timer = some s.next_task })
        s.batches,
  )
