-- ===== src/RespBody/Luhn.antt =====
-- luhnCheck: the check digit of a card number, and that no single digit of it can be mistaken.
use mathlib.Core.List.{reverse, reverse-append, reverse-cons}
use obsidian.Common.{
  ℕ, ◌+◌, ◌-◌, ◌*◌, ◌%◌, ◌≤◌, ◌<◌, ◌≡◌, ◌≢◌, ap, ◌∙◌, append_assoc, Bool, true, false, not, ◌==◌,
  ltb, [], ◌∷◌, ◌++◌, Bytes, arith, if◌then◌else◌,
}

-- A digit's value; a byte below '0' wraps around.
abbrev pub digit : ℕ → ℕ
digit c = (c + 208) % 256

-- What a byte adds to the sum: every second one is doubled, less 9 if that has two digits.
unfoldable pub luhn_digit : Bool → ℕ → ℕ
luhn_digit false d = d
luhn_digit true d = if ltb 9 (d * 2) then d * 2 - 9 else d * 2

-- The loop from the last byte to the first; `is_second` is its flag.
unfoldable pub luhn_sum : Bool → Bytes → ℕ
luhn_sum is_second [] = 0
luhn_sum is_second (c ∷ s) = luhn_digit is_second (digit c) + luhn_sum (not is_second) s

unfoldable pub luhn_check : Bytes → Bool
luhn_check number = luhn_sum false (reverse number) % 10 == 0

abbrev pub IsDigit : ℕ → Type 0
IsDigit c = (b'0' ≤ c) × (c ≤ b'9')

-- The sum around a byte: whether the byte is a second one depends on what is after it only.
luhn_sum_split :
    (is_second : Bool) (xs : Bytes)
    → (q : Bool) × ((c : ℕ) (ys : Bytes)
        → luhn_sum is_second (xs ++ (c ∷ ys))
          ≡ luhn_sum is_second xs + (luhn_digit q (digit c) + luhn_sum (not q) ys))
unfolding luhn_sum
luhn_sum_split is_second [] = (is_second, (λ c ys. omega arith))
luhn_sum_split is_second (x ∷ xs) =
    let (q, h) = luhn_sum_split (not is_second) xs in (q, (λ c ys. omega (arith, h c ys)))

-- Two digits that differ add numbers that differ, both below 10.
luhn_digit_differs :
    (q : Bool) (c d : ℕ)
    → IsDigit c
    → IsDigit d
    → c ≢ d
    → (luhn_digit q (digit c) ≢ luhn_digit q (digit d))
      × (luhn_digit q (digit c) < 10)
      × (luhn_digit q (digit d) < 10)
unfolding luhn_digit
luhn_digit_differs false c d hc hd n = ground arith
luhn_digit_differs true c d hc hd n = ground arith

reverse_around :
    (before after : Bytes) (c : ℕ)
    → reverse (before ++ (c ∷ after)) ≡ reverse after ++ (c ∷ reverse before)
reverse_around before after c =
    reverse-append before (c ∷ after)
    ∙ ap (λ r. r ++ reverse before) (reverse-cons c after)
    ∙ append_assoc (reverse after) (c ∷ []) (reverse before)

-- A number that passes the check does not pass it with one digit replaced by another.
pub luhn_check_detects :
    (before after : Bytes) (c d : ℕ)
    → IsDigit c
    → IsDigit d
    → c ≢ d
    → luhn_check (before ++ (c ∷ after)) ≡ true
    → luhn_check (before ++ (d ∷ after)) ≡ false
unfolding luhn_check
luhn_check_detects before after c d hc hd n h =
    let (q, sums) = luhn_sum_split false (reverse after) in
    let (differ, small_c, small_d) = luhn_digit_differs q c d hc hd n in
    ground (
      arith,
      h,
      reverse_around before after c,
      reverse_around before after d,
      sums c (reverse before),
      sums d (reverse before),
      differ,
      small_c,
      small_d,
    )
