-- ===== src/EventHub/Cursor.antt =====
-- The cursors of src/application/events.py, `_encode_cursor` and `_decode_cursor`. A text is the
-- list of its code points.
pub mod RoundTrip
use i_ja_for_u.Base.{
  ℕ, zero, suc, ◌+◌, ◌-◌, ◌*◌, ◌/◌, ◌%◌, Bool, true, false, not, ◌&&◌, ◌||◌, Option, none, some,
  List, [], ◌∷◌, ◌++◌, ltb, leb, ◌==◌, if◌then◌else◌, length,
}

abbrev pub Text : Type 0
Text = List ℕ

-- `str(n)`: the digits of `n` in front of `rest`.
unfoldable pub digits : (fuel n : ℕ) → Text → Text
digits zero n rest = rest
digits (suc fuel) n rest =
    let more = digits fuel (n / 10) ((b'0' + n % 10) ∷ rest) in
    if ltb n 10 then (b'0' + n) ∷ rest else more

unfoldable pub decimal : ℕ → Text
decimal n = digits (suc n) n []

-- `int(text)` for a text of ASCII digits.
unfoldable pub to_number : ℕ → Text → ℕ
to_number n [] = n
to_number n (c ∷ cs) = to_number (n * 10 + (c - b'0')) cs

abbrev pub is_digit : ℕ → Bool
is_digit c = leb b'0' c && leb c b'9'

unfoldable pub all_digits : Text → Bool
all_digits [] = true
all_digits (c ∷ cs) = is_digit c && all_digits cs

abbrev pub is_empty {ℓ} : {A : Type ℓ} → List A → Bool
is_empty [] = true
is_empty (_ ∷ _) = false

-- `text.isascii() and text.isdecimal()`: the decimals of ASCII are its ten digits.
unfoldable pub is_ascii_decimal : Text → Bool
is_ascii_decimal text = not (is_empty text) && all_digits text

-- `text.partition(".")` is the part before the first dot and what follows it, or `none` if there
-- is no dot.
abbrev pub put_front : ℕ → Option (Text × Text) → Option (Text × Text)
put_front c none = none
put_front c (some (before, after)) = some (c ∷ before, after)

unfoldable pub partition : Text → Option (Text × Text)
partition [] = none
partition (c ∷ cs) = if c == b'.' then some ([], cs) else put_front c (partition cs)

unfoldable pub encode_cursor : Text → ℕ → Text
encode_cursor stream_id sequence = stream_id ++ b'.' ∷ decimal sequence

abbrev pub checked_parts : Option (Text × Text) → Option (Text × ℕ)
checked_parts none = none
checked_parts (some (stream_id, raw_sequence)) =
    if not (length stream_id == 32) || not (is_ascii_decimal raw_sequence)
    then none
    else some (stream_id, to_number 0 raw_sequence)

unfoldable pub decode_cursor : Text → Option (Text × ℕ)
decode_cursor cursor = if ltb 100 (length cursor) then none else checked_parts (partition cursor)
