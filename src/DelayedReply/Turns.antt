-- ===== src/DelayedReply/Turns.antt =====
-- The turns that a batch of plugins/delayed_reply/runtime.py schedules.
use i_ja_for_u.Base.{true, false, none, some, List, [], ◌∷◌, ◌++◌, map, ◌≡◌, refl, ap}
use i_ja_for_u.DelayedReply.{InboundEnvelope, mark}

-- A message that is only stored, and one that starts a turn at once.
abbrev pub stored_only : InboundEnvelope → InboundEnvelope
stored_only e = record e {
  schedule_turn = false;
  schedule_duplicate = false;
  debounce_seconds = none;
}

abbrev pub starts_turn : InboundEnvelope → InboundEnvelope
starts_turn e = record e {
  schedule_turn = true;
  schedule_duplicate = true;
  debounce_seconds = some 0;
}

-- A batch is submitted in the order in which it came in, and only its last message starts a turn,
-- at once: all the others are only stored.
pub mark-append :
    (es : List InboundEnvelope) (e : InboundEnvelope)
    → mark (es ++ e ∷ []) ≡ map stored_only es ++ starts_turn e ∷ []
unfolding mark
mark-append [] e = refl
mark-append (x ∷ []) e = refl
mark-append (x ∷ y ∷ es) e = ap (λ l. stored_only x ∷ l) (mark-append (y ∷ es) e)
