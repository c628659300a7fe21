-- ===== src/DelayedReply/Delivered.antt =====
-- plugins/delayed_reply/runtime.py neither loses nor repeats a message.
use i_ja_for_u.Base.{
  ℕ, String, Bool, true, false, not, ◌&&◌, List, [], ◌∷◌, ◌≡◌, refl, ap, ◌∙◌, inl, inr,
  Option-cases, &&-eq-true, append-nil, arith,
}
use i_ja_for_u.Domain.{InboundMessage}
use i_ja_for_u.DelayedReply.{
  InboundEnvelope, TypingEvent, DelayedReplySettings, PendingBatch, DelayedReplyPlugin,
  create_plugin, find_batch, find_timer, arm_timer, buffer, ingest, typing, fire, next_of, submit,
  stop, submit_stopped, Op, ingests, types, fires, submits, submits_stopped, stops, starts, apply,
  run, accepted_by, or_empty, add_envelope, key_of, route_key, all_done,
}
use i_ja_for_u.DelayedReply.Counts.{count, count_in, count_flushing, count_waiting, count_all}
use i_ja_for_u.DelayedReply.Conservation.{count_all-run}

-- No call of the core raises.
abbrev pub is_calm : Op → Bool
is_calm (submits i raised) = not raised
is_calm (submits_stopped raised) = not raised
is_calm _ = true

unfoldable pub all_calm : List Op → Bool
all_calm [] = true
all_calm (o ∷ os) = is_calm o && all_calm os

lost-arm_timer :
    (key : String) (b : PendingBatch) (delay : ℕ) (s : DelayedReplyPlugin)
    → (arm_timer key b delay s).lost ≡ s.lost
unfolding arm_timer
lost-arm_timer key b delay s = refl

lost-ingest : (e : InboundEnvelope) (s : DelayedReplyPlugin) → (ingest e s).1.lost ≡ s.lost
unfolding ingest buffer
lost-ingest e s = ground (
  arith,
  lost-arm_timer (key_of e.message)
      (add_envelope e (or_empty (find_batch (key_of e.message) s.batches)))
      s.settings.message_delay_seconds s,
)

lost-typing : (t : TypingEvent) (s : DelayedReplyPlugin) → (typing t s).lost ≡ s.lost
unfolding typing
lost-typing t s =
    let key : String = route_key t.platform t.account_id t.external_chat_id t.sender_id in
    elim (Option-cases (find_batch key s.batches)) [
      | inl missing ↦ ground (arith, missing)
      | inr (b, found) ↦ ground (
        arith,
        found,
        lost-arm_timer key (record b { typing_extended = true }) s.settings.typing_delay_seconds s,
      )
    ]

lost-fire : (n : ℕ) (s : DelayedReplyPlugin) → (fire n s).lost ≡ s.lost
unfolding fire
lost-fire n s = elim (Option-cases (find_timer n s.timers)) [
  | inl missing ↦ ground (arith, missing)
  | inr (t, found) ↦ elim (Option-cases (find_batch t.key s.batches)) [
    | inl missing ↦ ground (arith, found, missing)
    | inr (b, batch) ↦ ground (arith, found, batch)
  ]
]

lost-submit : (i : ℕ) (s : DelayedReplyPlugin) → (submit i false s).lost ≡ s.lost
unfolding submit
lost-submit i s = by_next (next_of s.flushing i) refl
  where
    by_next :
        (f : List InboundEnvelope) → next_of s.flushing i ≡ f → (submit i false s).lost ≡ s.lost
    by_next [] nothing = ground (arith, nothing)
    by_next (e ∷ es) left = ground (arith, left, append-nil s.lost)

lost-submit_stopped : (s : DelayedReplyPlugin) → (submit_stopped false s).lost ≡ s.lost
unfolding submit_stopped
lost-submit_stopped s = by_next s.stop_flush refl
  where
    by_next : (f : List InboundEnvelope) → s.stop_flush ≡ f → (submit_stopped false s).lost ≡ s.lost
    by_next [] nothing = ground (arith, nothing)
    by_next (e ∷ es) left = ground (arith, left, append-nil s.lost)

lost-stop : (s : DelayedReplyPlugin) → (stop s).lost ≡ s.lost
unfolding stop
lost-stop s = refl

lost-apply : (o : Op) (s : DelayedReplyPlugin) → is_calm o ≡ true → (apply o s).lost ≡ s.lost
unfolding apply
lost-apply (ingests e) s calm = lost-ingest e s
lost-apply (types t) s calm = lost-typing t s
lost-apply (fires n) s calm = lost-fire n s
lost-apply (submits i true) s calm = absurd (ground arith)
lost-apply (submits i false) s calm = lost-submit i s
lost-apply (submits_stopped true) s calm = absurd (ground arith)
lost-apply (submits_stopped false) s calm = lost-submit_stopped s
lost-apply stops s calm = lost-stop s
lost-apply starts s calm = refl

lost-run :
    (ops : List Op) (s : DelayedReplyPlugin) → all_calm ops ≡ true → (run ops s).lost ≡ s.lost
unfolding run all_calm
lost-run [] s calm = refl
lost-run (o ∷ os) s calm =
    let (now, after) = &&-eq-true (is_calm o) (all_calm os) calm in
    lost-run os (apply o s) after ∙ lost-apply o s now

created_lost : (settings : DelayedReplySettings) → (create_plugin settings).lost ≡ []
unfolding create_plugin
created_lost settings = refl

nothing_counted : (p : InboundMessage → Bool) → (count_in p [] ≡ 0) × (count_waiting p [] ≡ 0)
unfolding count_in count_waiting
nothing_counted p = (refl, refl)

count_flushing-all_done :
    (p : InboundMessage → Bool) (fs : List (List InboundEnvelope))
    → all_done fs ≡ true
    → count_flushing p fs ≡ 0
unfolding count_flushing all_done count_in
count_flushing-all_done p [] h = refl
count_flushing-all_done p ([] ∷ fs) h = ground (arith, count_flushing-all_done p fs h)
count_flushing-all_done p ((e ∷ es) ∷ fs) h = absurd (ground arith)

module _ (p : InboundMessage → Bool) (settings : DelayedReplySettings) (ops : List Op) where
  -- Whatever the event loop ran since the plugin was created, in any order: for each test on
  -- messages, of the messages that `ingest` took (all but the duplicates within a batch) as many
  -- pass as pass of those that were handed to the core, are being submitted, wait in a batch, or
  -- were kept back by an exception of the core: no message is lost or repeated.
  pub created-conserves :
      count_all p (run ops (create_plugin settings))
      ≡ count p (accepted_by ops (create_plugin settings))
  unfolding create_plugin count_in count_flushing count_waiting
  created-conserves = ground (arith, count_all-run p ops (create_plugin settings))

  -- If no call of the core raised, and no batch waits or is being submitted, then the core was
  -- handed each message that `ingest` took, as many times as it was taken.
  pub drained-delivers_all :
      all_calm ops ≡ true
      → (run ops (create_plugin settings)).batches ≡ []
      → all_done (run ops (create_plugin settings)).flushing ≡ true
      → (run ops (create_plugin settings)).stop_flush ≡ []
      → count_in p (run ops (create_plugin settings)).forwarded
        ≡ count p (accepted_by ops (create_plugin settings))
  drained-delivers_all calm waits flushes stops_too = ground (
    arith,
    created-conserves,
    ap (count_in p) (lost-run ops (create_plugin settings) calm ∙ created_lost settings),
    ap (count_waiting p) waits,
    count_flushing-all_done p (run ops (create_plugin settings)).flushing flushes,
    ap (count_in p) stops_too,
    nothing_counted p,
  )
