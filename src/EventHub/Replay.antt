-- ===== src/EventHub/Replay.antt =====
-- `replay` of src/application/events.py against the log of all that was published.
use mathlib.Core.Path.{ap₂}
use i_ja_for_u.Base.{
  ℕ, ◌+◌, ◌-◌, ◌^◌, ◌≤◌, ◌<◌, some, List, [], ◌≡◌, sym, ap, ◌∙◌, inl, inr, ltb, leb, if◌then◌else◌,
  length, drop, drop-drop, drop-eq_of_eq, length-drop, ltb→lt, leb→le, subst, eqb_list,
  eqb_list_refl, Bool-cases, arith,
}
use i_ja_for_u.EventHub.Cursor.{Text, encode_cursor}
use i_ja_for_u.EventHub.Cursor.RoundTrip.{IsStreamId, decode_cursor-encode_cursor}
use i_ja_for_u.EventHub.{
  RuntimeEvent, EventHub, Op, ok, create, current_cursor, run, log, events_after, has_expired,
  replay, replay_after, rejected, accepted,
}
use i_ja_for_u.EventHub.Log.{
  Numbered, Numbered-drop, events_after-drop, has_expired_iff, has_expired-nil, Logged, run-Logged,
  create-Logged,
}

module _ {P : Type 0} where
  module _ (cap : ℕ) (stream : Text) where
    module _ (h : EventHub P) (l : List (RuntimeEvent P)) (n : ℕ) (g : Logged cap stream h l)
        (within : n ≤ length l) where
      kept-Numbered : Numbered (length l - cap) h.history
      kept-Numbered =
          subst (Numbered (length l - cap)) (sym g.window)
            (Numbered-drop 0 (length l - cap) (length l - cap) l (omega arith) g.numbered)

      kept_length : length h.history ≡ length l - (length l - cap)
      kept_length = ap (length {A = RuntimeEvent P}) g.window ∙ length-drop (length l - cap) l

      expired_iff : 1 ≤ cap → has_expired n h.history ≡ ltb n (length l - cap)
      expired_iff room = elim (Bool-cases (ltb 0 (length l))) [
        | inl some_ ↦
            has_expired_iff n (length l - cap) h.history kept-Numbered
              (omega (arith, kept_length, ltb→lt 0 (length l) some_))
        | inr none_ ↦ has_expired-nil n h.history (ground (arith, kept_length)) ∙ ground arith
      ]

      events_after-log : length l ≤ n + cap → events_after n h.history ≡ drop n l
      events_after-log fits =
          events_after-drop n (length l - cap) h.history kept-Numbered
          ∙ ap (drop (n - (length l - cap))) g.window
          ∙ drop-drop (n - (length l - cap)) (length l - cap) l
          ∙ drop-eq_of_eq l (omega arith)

      replay_after-log :
          1 ≤ cap
          → replay_after h (some (stream, n)) ≡ (
              if leb (length l) (n + cap)
              then accepted h (drop n l)
              else rejected h "history_expired")
      unfolding replay_after
      replay_after-log room = elim (Bool-cases (leb (length l) (n + cap))) [
        | inl fits ↦ ground (
          arith,
          g.counted,
          ap (λ t. eqb_list stream t) g.stream_kept,
          eqb_list_refl stream,
          expired_iff room,
          events_after-log (leb→le (length l) (n + cap) fits),
        )
        | inr gone ↦ ground (
          arith,
          g.counted,
          ap (λ t. eqb_list stream t) g.stream_kept,
          eqb_list_refl stream,
          expired_iff room,
        )
      ]

  -- Whatever was done with a hub since it was created: the current cursor is that of the last
  -- event, and a replay from the cursor of event `n` gives all events published after it, none
  -- lost or repeated, if at most `cap` events were published after it; otherwise it asks for a
  -- resync. The stream id is well formed and `n` is below 10 ^ 67 and not past the last event.
  pub replay-log :
      (cap queue_cap : ℕ) (stream : Text) (ops : List (Op P)) (n : ℕ) (h : EventHub P)
      → create cap queue_cap stream ≡ ok h
      → IsStreamId stream
      → n ≤ length (log ops h)
      → n < 10 ^ 67
      → (current_cursor (run ops h) ≡ encode_cursor stream (length (log ops h)))
        × (replay (some (encode_cursor stream n)) (run ops h) ≡ (
            if leb (length (log ops h)) (n + cap)
            then accepted (run ops h) (drop n (log ops h))
            else rejected (run ops h) "history_expired"))
  unfolding replay current_cursor
  replay-log cap queue_cap stream ops n h made wf within small =
      let (fresh, room) = create-Logged cap queue_cap stream h made in
      let g : Logged cap stream (run ops h) (log ops h) = run-Logged cap stream ops h [] fresh in
      (
        ap₂ encode_cursor g.stream_kept g.counted,
        ap (replay_after (run ops h)) (decode_cursor-encode_cursor stream n wf small)
            ∙ replay_after-log cap stream (run ops h) (log ops h) n g within room,
      )
