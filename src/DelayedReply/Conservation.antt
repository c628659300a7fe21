-- ===== src/DelayedReply/Conservation.antt =====
-- Each step of plugins/delayed_reply/runtime.py keeps every message.
use text.Mathlib.Text.{◌==◌ as str_eq}
use i_ja_for_u.Base.{
  ℕ, ◌+◌, String, Bool, true, false, not, ◌&&◌, ◌||◌, List, [], ◌∷◌, ◌≡◌, refl, inl, inr,
  Bool-cases, Option-cases, arith,
}
use i_ja_for_u.Domain.{InboundMessage}
use i_ja_for_u.DelayedReply.{
  InboundEnvelope, TypingEvent, PendingBatch, DelayedReplyPlugin, find_batch, find_timer, buffer,
  ingest, typing, mark, fire, still, dropped_by, next_of, submit, mark_all, stop, submit_stopped,
  Op, ingests, types, fires, submits, submits_stopped, stops, starts, apply, run, accepted,
  accepted_by, or_empty, add_envelope, key_of, is_private, route_key, has_id, taken,
}
use i_ja_for_u.DelayedReply.Counts.{
  count, count_in, count_flushing, count_waiting, count_all, count-append, count_in-append,
  count_flushing-append, count_in-mark, count_waiting-pop, count_waiting-mark_all,
  count_flushing-set, count_all-arm_timer,
}

module _ (p : InboundMessage → Bool) where
  count_all-buffer :
      (e : InboundEnvelope) (s : DelayedReplyPlugin)
      → count_all p (buffer e (or_empty (find_batch (key_of e.message) s.batches)) s).1
        ≡ count_all p s
          + count p (taken e (buffer e (or_empty (find_batch (key_of e.message) s.batches)) s).0)
  unfolding buffer count count_in
  count_all-buffer e s =
      let b : PendingBatch = or_empty (find_batch (key_of e.message) s.batches) in
      elim (Bool-cases (
        not (str_eq e.message.external_message_id "")
        && has_id e.message.external_message_id b.external_message_ids)) [
          | inl known ↦ ground (arith, known)
          | inr new ↦ ground (
            arith,
            new,
            count_in-append p b.envelopes (e ∷ []),
            count_all-arm_timer p (key_of e.message) (add_envelope e b)
                s.settings.message_delay_seconds s,
          )
        ]

  count_all-ingest :
      (e : InboundEnvelope) (s : DelayedReplyPlugin)
      → count_all p (ingest e s).1 ≡ count_all p s + count p (taken e (ingest e s).0)
  unfolding ingest count count_in
  count_all-ingest e s = elim (Bool-cases (not (is_private e.message.chat_type) || s.stopping)) [
    | inl direct ↦ ground (arith, direct, count_in-append p s.forwarded (e ∷ []))
    | inr waits ↦ ground (arith, waits, count_all-buffer e s)
  ]

  count_all-typing :
      (t : TypingEvent) (s : DelayedReplyPlugin) → count_all p (typing t s) ≡ count_all p s
  unfolding typing
  count_all-typing t s =
      let key : String = route_key t.platform t.account_id t.external_chat_id t.sender_id in
      elim (Option-cases (find_batch key s.batches)) [
        | inl missing ↦ ground (arith, missing)
        | inr (b, found) ↦ ground (
          arith,
          found,
          count_all-arm_timer p key (record b { typing_extended = true })
              s.settings.typing_delay_seconds s,
        )
      ]

  count_all-fire : (n : ℕ) (s : DelayedReplyPlugin) → count_all p (fire n s) ≡ count_all p s
  unfolding fire count_flushing count_in
  count_all-fire n s = elim (Option-cases (find_timer n s.timers)) [
    | inl missing ↦ ground (arith, missing)
    | inr (t, found) ↦ elim (Option-cases (find_batch t.key s.batches)) [
      | inl missing ↦ ground (arith, found, missing)
      | inr (b, batch) ↦ ground (
        arith,
        found,
        batch,
        count_waiting-pop p t.key s.batches,
        count_in-mark p b.envelopes,
        count_flushing-append p s.flushing (mark b.envelopes ∷ []),
      )
    ]
  ]

  still-dropped :
      (raised : Bool) (es : List InboundEnvelope)
      → count_in p (still raised es) + count_in p (dropped_by raised es) ≡ count_in p es
  unfolding count_in
  still-dropped true es = ground arith
  still-dropped false es = ground arith

  count_all-submit :
      (i : ℕ) (raised : Bool) (s : DelayedReplyPlugin)
      → count_all p (submit i raised s) ≡ count_all p s
  unfolding submit count_in
  count_all-submit i raised s = by_next (next_of s.flushing i) refl
    where
      by_next :
          (f : List InboundEnvelope)
          → next_of s.flushing i ≡ f
          → count_all p (submit i raised s) ≡ count_all p s
      by_next [] nothing = ground (arith, nothing)
      by_next (e ∷ es) left = ground (
        arith,
        left,
        still-dropped raised es,
        count_flushing-set p i (still raised es) s.flushing
            (ground (arith, left, still-dropped raised es)),
        count_in-append p s.forwarded (e ∷ []),
        count_in-append p s.lost (dropped_by raised es),
      )

  count_all-submit_stopped :
      (raised : Bool) (s : DelayedReplyPlugin)
      → count_all p (submit_stopped raised s) ≡ count_all p s
  unfolding submit_stopped count_in
  count_all-submit_stopped raised s = by_next s.stop_flush refl
    where
      by_next :
          (f : List InboundEnvelope)
          → s.stop_flush ≡ f
          → count_all p (submit_stopped raised s) ≡ count_all p s
      by_next [] nothing = ground (arith, nothing)
      by_next (e ∷ es) left = ground (
        arith,
        left,
        still-dropped raised es,
        count_in-append p s.forwarded (e ∷ []),
        count_in-append p s.lost (dropped_by raised es),
      )

  count_all-stop : (s : DelayedReplyPlugin) → count_all p (stop s) ≡ count_all p s
  unfolding stop count_waiting
  count_all-stop s = ground (
    arith,
    count_in-append p s.stop_flush (mark_all s.batches),
    count_waiting-mark_all p s.batches,
  )

  count_all-apply :
      (o : Op) (s : DelayedReplyPlugin)
      → count_all p (apply o s) ≡ count_all p s + count p (accepted o s)
  unfolding apply count
  count_all-apply (ingests e) s = count_all-ingest e s
  count_all-apply (types t) s = ground (arith, count_all-typing t s)
  count_all-apply (fires n) s = ground (arith, count_all-fire n s)
  count_all-apply (submits i raised) s = ground (arith, count_all-submit i raised s)
  count_all-apply (submits_stopped raised) s = ground (arith, count_all-submit_stopped raised s)
  count_all-apply stops s = ground (arith, count_all-stop s)
  count_all-apply starts s = ground arith

  -- Whatever the event loop runs, in any order: each message that the plugin took (all that came in
  -- but the duplicates within a batch) is in exactly one place, as many times as it came in. It was
  -- handed to the core, is about to be, waits in a batch, or an exception of the core kept it back.
  pub count_all-run :
      (ops : List Op) (s : DelayedReplyPlugin)
      → count_all p (run ops s) ≡ count_all p s + count p (accepted_by ops s)
  unfolding run accepted_by count
  count_all-run [] s = ground arith
  count_all-run (o ∷ os) s = ground (
    arith,
    count_all-apply o s,
    count-append p (accepted o s) (accepted_by os (apply o s)),
    count_all-run os (apply o s),
  )
