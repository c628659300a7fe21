-- ===== src/DelayedReply/Timers.antt =====
-- The timers of plugins/delayed_reply/runtime.py: a batch that waits always has one that will
-- submit it.
use text.Mathlib.Text.{◌==◌ as str_eq}
use text.Mathlib.TextEquality.{eq_iff}
use i_ja_for_u.Base.{
  ℕ, String, Bool, true, false, not, ◌&&◌, ◌||◌, Option, none, some, List, [], ◌∷◌, ◌++◌, ◌==◌, ◌≡◌,
  ◌≢◌, refl, sym, ap, ◌∙◌, inl, inr, if◌then◌else◌, Bool-cases, arith,
}
use i_ja_for_u.DelayedReply.{
  InboundEnvelope, TypingEvent, DelayedReplySettings, PendingBatch, Timer, DelayedReplyPlugin,
  create_plugin, find_batch, find_timer, remove_timer, cancel, arm_timer, buffer, fire_batch,
  fire_timer, extend, key_of_typing, duplicate, buffered, IngressResult, passed_on, set_flush,
  still, dropped_by, all_done, ingest, typing, mark, fire, submit, next_of, stop, cancel_all,
  submit_stopped, Op, ingests, types, fires, submits, submits_stopped, stops, starts, apply, run,
  or_empty, add_envelope, key_of, is_private, has_id,
}
use i_ja_for_u.DelayedReply.Lookups.{find_batch-pop, Distinct, Distinct-pop, cancel-found}
use i_ja_for_u.DelayedReply.Armed.{Armed, IsArmed, some-eq, remove-Live, arm_timer-IsArmed}

module _ (s : DelayedReplyPlugin) (h : IsArmed s) where
  -- The timer of a batch tells its key and its generation.
  timer-of :
      (key : String) (b : PendingBatch) (n : ℕ) (t : Timer)
      → find_batch key s.batches ≡ some b
      → b.timer ≡ some n
      → find_timer n s.timers ≡ some t
      → (t.key ≡ key) × (t.generation ≡ b.generation)
  timer-of key b n t found e there =
      let (t', (timer', there', same, generation)) = h.live key b found in
      let j : t'.task ≡ n = some-eq (sym timer' ∙ e) in
      let k : t' ≡ t = some-eq (sym there' ∙ ap (λ i. find_timer i s.timers) j ∙ there) in
      (sym (ap (λ x. x.key) k) ∙ same, sym (ap (λ x. x.generation) k) ∙ generation)

  -- A timer that belongs to no batch can go.
  remove-Armed :
      (n : ℕ)
      → ((key : String) (b : PendingBatch) → find_batch key s.batches ≡ some b → b.timer ≢ some n)
      → Armed s.batches (remove_timer n s.timers) s.next_task
  remove-Armed n other = record {
    distinct = h.distinct;
    fresh = λ m t e. h.fresh m t (cancel-found (some n) s.timers m t e);
    live = λ key b found.
        remove-Live s.batches s.timers s.next_task h n key b found (other key b found);
  }

  fire_batch-IsArmed :
      (n : ℕ) (t : Timer) (o : Option PendingBatch)
      → find_timer n s.timers ≡ some t
      → find_batch t.key s.batches ≡ o
      → IsArmed (fire_batch n t o s)
  fire_batch-IsArmed n t none there missing = remove-Armed n (λ key b found e. absurd (
      ground (
        arith,
        missing,
        found,
        ap (λ x. find_batch x s.batches) (timer-of key b n t found e there).0,
      )))
  fire_batch-IsArmed n t (some batch) there waits =
      elim (Bool-cases (batch.generation == t.generation))
        as (λ _. IsArmed (fire_batch n t (some batch) s)) [
          | inl same ↦ rw same (record {
            distinct = Distinct-pop t.key s.batches h.distinct;
            fresh = λ m x e. h.fresh m x (cancel-found (some n) s.timers m x e);
            live = λ key b found. elim (Bool-cases (str_eq t.key key)) [
              | inl here ↦
                  absurd
                    (ground (arith, here, found, find_batch-pop key t.key s.batches h.distinct))
              | inr away ↦
                  let before : find_batch key s.batches ≡ some b =
                    ground (arith, away, found, find_batch-pop key t.key s.batches h.distinct) in
                  remove-Live s.batches s.timers s.next_task h n key b before (λ e.
                    absurd (
                      ground
                        (arith, away, eq_iff t.key key, (timer-of key b n t before e there).0)))
            ];
          })
          | inr other ↦ rw other (
              remove-Armed n (λ key b found e.
                let (k, g) = timer-of key b n t found e there in
                absurd (
                  ground (
                    arith,
                    other,
                    g,
                    ap (λ x. x.generation)
                        (some-eq (sym waits ∙ ap (λ x. find_batch x s.batches) k ∙ found)),
                  ))))
        ]

  fire_timer-IsArmed :
      (n : ℕ) (o : Option Timer) → find_timer n s.timers ≡ o → IsArmed (fire_timer n o s)
  fire_timer-IsArmed n none e = h
  fire_timer-IsArmed n (some t) e = fire_batch-IsArmed n t (find_batch t.key s.batches) e refl

  extend-IsArmed :
      (key : String) (o : Option PendingBatch)
      → find_batch key s.batches ≡ o
      → IsArmed (extend key o s)
  extend-IsArmed key none e = h
  extend-IsArmed key (some b) e = by_extended b.typing_extended
    where
      by_extended :
          (x : Bool)
          → IsArmed (
              if x
              then s
              else arm_timer key
                  (record b { typing_extended = true })
                  s.settings.typing_delay_seconds
                  s)
      by_extended true = h
      by_extended false =
          arm_timer-IsArmed key (record b { typing_extended = true })
            s.settings.typing_delay_seconds s (ground (arith, e)) h

  buffer-IsArmed :
      (e : InboundEnvelope)
      → IsArmed (buffer e (or_empty (find_batch (key_of e.message) s.batches)) s).1
  unfolding buffer
  buffer-IsArmed e = by_known (
      not (str_eq e.message.external_message_id "")
      && has_id e.message.external_message_id
          (or_empty (find_batch (key_of e.message) s.batches)).external_message_ids)
    where
      by_known :
          (x : Bool)
          → (λ (r : IngressResult × DelayedReplyPlugin). IsArmed r.1)
              (if x then (duplicate, s) else (
                buffered,
                arm_timer
                    (key_of e.message)
                    (add_envelope e (or_empty (find_batch (key_of e.message) s.batches)))
                    s.settings.message_delay_seconds
                    s,
              ))
      by_known true = h
      by_known false =
          arm_timer-IsArmed (key_of e.message)
            (add_envelope e (or_empty (find_batch (key_of e.message) s.batches)))
            s.settings.message_delay_seconds s refl h

  ingest-IsArmed : (e : InboundEnvelope) → IsArmed (ingest e s).1
  unfolding ingest
  ingest-IsArmed e = by_direct (not (is_private e.message.chat_type) || s.stopping)
    where
      by_direct :
          (x : Bool)
          → IsArmed
              (if x
                then (passed_on, record s { forwarded = s.forwarded ++ e ∷ [] })
                else buffer e (or_empty (find_batch (key_of e.message) s.batches)) s).1
      by_direct true = h
      by_direct false = buffer-IsArmed e

  typing-IsArmed : (t : TypingEvent) → IsArmed (typing t s)
  unfolding typing
  typing-IsArmed t = by_private (not (is_private t.chat_type))
    where
      by_private :
          (x : Bool)
          → IsArmed
              (if x then s else extend (key_of_typing t) (find_batch (key_of_typing t) s.batches) s)
      by_private true = h
      by_private false =
          extend-IsArmed (key_of_typing t) (find_batch (key_of_typing t) s.batches) refl

  submit-IsArmed : (i : ℕ) (raised : Bool) → IsArmed (submit i raised s)
  unfolding submit
  submit-IsArmed i raised =
      elim (next_of s.flushing i)
        as (λ f. IsArmed (elim f [
          | [] ↦ s
          | e ∷ es ↦ record s {
            forwarded = s.forwarded ++ e ∷ [];
            flushing = set_flush i (still raised es) s.flushing;
            lost = s.lost ++ dropped_by raised es;
          }
        ])) [ [] ↦ h | e ∷ es ↦ h ]

  submit_stopped-IsArmed : (raised : Bool) → IsArmed (submit_stopped raised s)
  unfolding submit_stopped
  submit_stopped-IsArmed raised = by_done (all_done s.flushing)
    where
      by_next :
          (f : List InboundEnvelope)
          → IsArmed (elim f [
            | [] ↦ s
            | e ∷ es ↦ record s {
              forwarded = s.forwarded ++ e ∷ [];
              stop_flush = still raised es;
              lost = s.lost ++ dropped_by raised es;
            }
          ])
      by_next [] = h
      by_next (e ∷ es) = h

      by_done :
          (x : Bool)
          → IsArmed (
              if x
              then (elim s.stop_flush [
                | [] ↦ s
                | e ∷ es ↦ record s {
                  forwarded = s.forwarded ++ e ∷ [];
                  stop_flush = still raised es;
                  lost = s.lost ++ dropped_by raised es;
                }
              ])
              else s)
      by_done true = by_next s.stop_flush
      by_done false = h

cancel_all-found :
    (bs : List (String × PendingBatch)) (ts : List Timer) (m : ℕ) (t : Timer)
    → find_timer m (cancel_all bs ts) ≡ some t
    → find_timer m ts ≡ some t
unfolding cancel_all
cancel_all-found [] ts m t e = e
cancel_all-found ((k, b) ∷ bs) ts m t e =
    cancel-found b.timer ts m t (cancel_all-found bs (cancel b.timer ts) m t e)

stop-IsArmed : (s : DelayedReplyPlugin) → IsArmed s → IsArmed (stop s)
unfolding stop Distinct find_batch
stop-IsArmed s h = record {
  distinct = tt;
  fresh = λ m t e. h.fresh m t (cancel_all-found s.batches s.timers m t e);
  live = λ key b found. absurd (ground (arith, found));
}

apply-IsArmed : (o : Op) (s : DelayedReplyPlugin) → IsArmed s → IsArmed (apply o s)
unfolding apply fire
apply-IsArmed (ingests e) s h = ingest-IsArmed s h e
apply-IsArmed (types t) s h = typing-IsArmed s h t
apply-IsArmed (fires n) s h = fire_timer-IsArmed s h n (find_timer n s.timers) refl
apply-IsArmed (submits i raised) s h = submit-IsArmed s h i raised
apply-IsArmed (submits_stopped raised) s h = submit_stopped-IsArmed s h raised
apply-IsArmed stops s h = stop-IsArmed s h
apply-IsArmed starts s h = h

run-IsArmed : (ops : List Op) (s : DelayedReplyPlugin) → IsArmed s → IsArmed (run ops s)
unfolding run
run-IsArmed [] s h = h
run-IsArmed (o ∷ os) s h = run-IsArmed os (apply o s) (apply-IsArmed o s h)

created-IsArmed : (settings : DelayedReplySettings) → IsArmed (create_plugin settings)
unfolding create_plugin Distinct find_batch find_timer
created-IsArmed settings = record {
  distinct = tt;
  fresh = λ m t e. absurd (ground (arith, e));
  live = λ key b found. absurd (ground (arith, found));
}

-- Whatever the event loop ran since the plugin was created, in any order: a batch that waits has a
-- timer under way, and that timer, when it fires, takes the batch away and leaves its messages, in
-- order, to be submitted.
pub waiting-fires :
    (settings : DelayedReplySettings) (ops : List Op) (key : String) (b : PendingBatch)
    → find_batch key (run ops (create_plugin settings)).batches ≡ some b
    → (n : ℕ) × ((b.timer ≡ some n)
        × (find_batch key (fire n (run ops (create_plugin settings))).batches ≡ none)
        × ((fire n (run ops (create_plugin settings))).flushing
            ≡ (run ops (create_plugin settings)).flushing ++ mark b.envelopes ∷ []))
unfolding fire
waiting-fires settings ops key b found =
    let s : DelayedReplyPlugin = run ops (create_plugin settings) in
    let h : IsArmed s = run-IsArmed ops (create_plugin settings) (created-IsArmed settings) in
    let (t, (timer, there, same, generation)) = h.live key b found in
    let waits : find_batch t.key s.batches ≡ some b =
      ap (λ k. find_batch k s.batches) same ∙ found in
    (
      t.task,
      (
        timer,
        ground (
          arith,
          there,
          waits,
          generation,
          same,
          eq_iff t.key key,
          find_batch-pop key t.key s.batches h.distinct,
        ),
        ground (arith, there, waits, generation),
      ),
    )
