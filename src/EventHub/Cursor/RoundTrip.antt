-- ===== src/EventHub/Cursor/RoundTrip.antt =====
-- A cursor of src/application/events.py is read as the stream and the sequence it was made of.
use native.Mathlib.Nat.{pow-suc}
use i_ja_for_u.Base.{
  ℕ, zero, suc, ◌+◌, ◌/◌, ◌%◌, ◌^◌, ◌≤◌, ◌<◌, true, false, some, [], ◌∷◌, ◌++◌, ◌≡◌, ◌≢◌, refl, ltb,
  length, length-append, Bool-cases, inl, inr, arith,
}
use i_ja_for_u.EventHub.Cursor.{
  Text, digits, decimal, to_number, all_digits, is_empty, is_ascii_decimal, partition,
  encode_cursor, decode_cursor,
}

to_number-digits :
    (fuel n : ℕ) (rest : Text) → n < fuel → to_number 0 (digits fuel n rest) ≡ to_number n rest
unfolding to_number digits
to_number-digits zero n rest h = absurd (omega arith)
to_number-digits (suc fuel) n rest h =
    ground (arith, to_number-digits fuel (n / 10) ((b'0' + n % 10) ∷ rest))

all_digits-digits :
    (fuel n : ℕ) (rest : Text) → all_digits rest ≡ true → all_digits (digits fuel n rest) ≡ true
unfolding all_digits digits
all_digits-digits zero n rest h = h
all_digits-digits (suc fuel) n rest h =
    ground (arith, all_digits-digits fuel (n / 10) ((b'0' + n % 10) ∷ rest))

digits-nonempty : (fuel n c : ℕ) (rest : Text) → is_empty (digits fuel n (c ∷ rest)) ≡ false
unfolding digits
digits-nonempty zero n c rest = refl
digits-nonempty (suc fuel) n c rest =
    ground (arith, digits-nonempty fuel (n / 10) (b'0' + n % 10) (c ∷ rest))

decimal-nonempty : (n : ℕ) → is_empty (decimal n) ≡ false
unfolding decimal digits
decimal-nonempty n = ground (arith, digits-nonempty n (n / 10) (b'0' + n % 10) [])

to_number-decimal : (n : ℕ) → to_number 0 (decimal n) ≡ n
unfolding decimal to_number
to_number-decimal n = to_number-digits (suc n) n [] (omega arith)

all_digits-decimal : (n : ℕ) → all_digits (decimal n) ≡ true
unfolding decimal all_digits
all_digits-decimal n = all_digits-digits (suc n) n [] refl

-- A number below 10 ^ k has at most k digits.
length-digits :
    (k fuel n : ℕ) (rest : Text)
    → n < 10 ^ suc k
    → n < fuel
    → length (digits fuel n rest) ≤ suc k + length rest
unfolding digits
length-digits k zero n rest b h = absurd (omega arith)
length-digits zero (suc fuel) n rest b h = ground arith
length-digits (suc k) (suc fuel) n rest b h = elim (Bool-cases (ltb n 10)) [
  | inl e ↦ ground arith
  | inr e ↦ ground (
    arith,
    length-digits k fuel (n / 10) ((b'0' + n % 10) ∷ rest) (omega (arith, pow-suc 10 (suc k)))
        (ground arith),
  )
]

length-decimal : (n : ℕ) → n < 10 ^ 67 → length (decimal n) ≤ 67
unfolding decimal
length-decimal n b = length-digits 66 (suc n) n [] b (omega arith)

abbrev pub NoDot : Text → Type 0
NoDot [] = Unit
NoDot (c ∷ cs) = (c ≢ b'.') × NoDot cs

partition-dot :
    (stream after : Text) → NoDot stream → partition (stream ++ b'.' ∷ after) ≡ some (stream, after)
unfolding partition
partition-dot [] after h = refl
partition-dot (c ∷ cs) after h = ground (arith, partition-dot cs after h.1)

-- What `uuid4().hex` gives: 32 characters, none of them a dot.
pub record IsStreamId (stream : Text) : Type 0 where
  pub long : length stream ≡ 32
  pub plain : NoDot stream

-- Decoding the cursor of a sequence below 10 ^ 67 gives the stream and the sequence back.
pub decode_cursor-encode_cursor :
    (stream : Text) (n : ℕ)
    → IsStreamId stream
    → n < 10 ^ 67
    → decode_cursor (encode_cursor stream n) ≡ some (stream, n)
unfolding decode_cursor encode_cursor is_ascii_decimal
decode_cursor-encode_cursor stream n s b = ground (
  arith,
  length-append stream (b'.' ∷ decimal n),
  length-decimal n b,
  partition-dot stream (decimal n) s.plain,
  all_digits-decimal n,
  decimal-nonempty n,
  to_number-decimal n,
)
