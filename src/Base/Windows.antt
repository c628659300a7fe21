-- ===== src/Base/Windows.antt =====
-- The last entries of a list, and Python's `deque(maxlen=n)`.
use Prim.Native.Nat.{ℕ, zero, suc, ◌-◌, ◌*◌, ◌≤◌}
use mathlib.Core.Path.{◌≡◌, ap, sym, ◌∙◌}
use mathlib.Core.List.{List, [], ◌∷◌, ◌++◌, append-nil, append_assoc}
use native.Mathlib.Omega.{arith}
use i_ja_for_u.Base.Lists.{
  length, drop, take, repeat_list, drop-length, take-append-drop, length-append, length-drop,
  drop-drop, drop-append,
}

module _ {ℓ} {A : Type ℓ} where
  -- `xs[-n:]` for `0 < n`: the whole list where it is no longer than `n`.
  abbrev pub last_n : ℕ → List A → List A
  last_n n xs = drop (length xs - n) xs

  -- `deque.append` drops from the left what no longer fits.
  unfoldable pub push_bounded : ℕ → List A → A → List A
  push_bounded n xs x = last_n n (xs ++ x ∷ [])

  pub length-last_n : (n : ℕ) (xs : List A) → length (last_n n xs) ≤ n
  length-last_n n xs = omega (arith, length-drop (length xs - n) xs)

  pub length-last_n_full : (n : ℕ) (xs : List A) → n ≤ length xs → length (last_n n xs) ≡ n
  length-last_n_full n xs h = omega (arith, length-drop (length xs - n) xs)

  -- A window of a wider window is the window of the whole.
  pub last_n-last_n : (m n : ℕ) (xs : List A) → m ≤ n → last_n m (last_n n xs) ≡ last_n m xs
  last_n-last_n m n xs h =
      drop-drop (length (last_n n xs) - m) (length xs - n) xs
      ∙ ap (λ k. drop k xs) (omega (arith, length-drop (length xs - n) xs))

  pub last_n-append : (n : ℕ) (xs ys : List A) → last_n n (last_n n xs ++ ys) ≡ last_n n (xs ++ ys)
  last_n-append n xs ys =
      let k : ℕ = length xs - n in
      rw (← drop-append k xs ys (omega arith)) (
        drop-drop (length (drop k (xs ++ ys)) - n) k (xs ++ ys)
        ∙ ap (λ j. drop j (xs ++ ys))
            (omega (arith, length-drop k (xs ++ ys), length-append xs ys)))

  -- A bounded deque holds the window of all that was pushed.
  pub push_bounded-last_n :
      (n : ℕ) (xs : List A) (x : A) → push_bounded n (last_n n xs) x ≡ last_n n (xs ++ x ∷ [])
  unfolding push_bounded
  push_bounded-last_n n xs x = last_n-append n xs (x ∷ [])

  pub last_n-append_right : (n : ℕ) (xs ys : List A) → length ys ≡ n → last_n n (xs ++ ys) ≡ ys
  last_n-append_right n xs ys h =
      ap (λ k. drop k (xs ++ ys)) (omega (arith, length-append xs ys))
      ∙ drop-append (length xs) xs ys le_self
      ∙ ap (λ zs. zs ++ ys) (drop-length xs)
    where
      le_self : length xs ≤ length xs
      le_self = omega arith

  pub take-last_n : (n : ℕ) (xs : List A) → take (length xs - n) xs ++ last_n n xs ≡ xs
  take-last_n n xs = take-append-drop (length xs - n) xs

  pub repeat_list-snoc : (n : ℕ) (xs : List A) → repeat_list (suc n) xs ≡ repeat_list n xs ++ xs
  repeat_list-snoc zero xs = append-nil xs
  repeat_list-snoc (suc n) xs =
      ap (λ zs. xs ++ zs) (repeat_list-snoc n xs) ∙ sym (append_assoc xs (repeat_list n xs) xs)

  pub length-repeat_list : (n : ℕ) (xs : List A) → length (repeat_list n xs) ≡ length xs * n
  length-repeat_list zero xs = omega arith
  length-repeat_list (suc n) xs =
      grind (arith, length-append xs (repeat_list n xs), length-repeat_list n xs)
