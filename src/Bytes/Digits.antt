-- ===== src/Bytes/Digits.antt =====
-- Numbers of 64 bits as text: `Display`, `parse` and `from_str_radix` with radix 16.
use unstable_drift.Prelude.{ℕ, ◌+◌, ◌-◌, ◌*◌, false, ◌&&◌, Option, none, some, [], ◌∷◌}
use unstable_drift.Prelude.{◌==◌, leb, if◌then◌else◌}
use unstable_drift.Bytes.{Bytes}
use unstable_drift.Bytes.Text.{is_digit, digits_from}

-- `char::to_digit(16)`
unfoldable pub hex_digit : ℕ → Option ℕ
hex_digit b =
    if leb 48 b && leb b 57
    then some (b - 48)
    else if leb 97 b && leb b 102
    then some (b - 87)
    else if leb 65 b && leb b 70
    then some (b - 55)
    else none

abbrev pub usize_max : ℕ
usize_max = 18446744073709551615

-- The value of digits after `n`, while it fits a `usize` of 64 bits.
unfoldable pub usize_digits : ℕ → Bytes → Option ℕ
usize_digits n [] = some n
usize_digits n (b ∷ bs) = elim (hex_digit b) [
  | none ↦ none
  | some d ↦
      let next = n * 16 + d in
      let rest = usize_digits next bs in if leb next usize_max then rest else none
]

-- `usize::from_str_radix(text, 16)`, which takes a plus sign.
unfoldable pub parse_hex : Bytes → Option ℕ
parse_hex [] = none
parse_hex (b ∷ []) = usize_digits 0 (b ∷ [])
parse_hex (b ∷ c ∷ bs) = if b == b'+' then usize_digits 0 (c ∷ bs) else usize_digits 0 (b ∷ c ∷ bs)

-- The value of decimal digits after `n`, while it fits 64 bits.
unfoldable pub u64_digits : ℕ → Bytes → Option ℕ
u64_digits n [] = some n
u64_digits n (b ∷ bs) =
    let next = n * 10 + (b - 48) in
    let rest = u64_digits next bs in if is_digit b && leb next usize_max then rest else none

-- `parse::<u64>`, which takes a plus sign.
unfoldable pub parse_u64 : Bytes → Option ℕ
parse_u64 [] = none
parse_u64 (b ∷ []) = u64_digits 0 (b ∷ [])
parse_u64 (b ∷ c ∷ bs) = if b == b'+' then u64_digits 0 (c ∷ bs) else u64_digits 0 (b ∷ c ∷ bs)

-- The decimal digits of a `usize` of 64 bits.
unfoldable pub usize_decimal : ℕ → Bytes
usize_decimal n =
    digits_from
      (10000000000000000000 ∷ 1000000000000000000 ∷ 100000000000000000 ∷ 10000000000000000
        ∷ 1000000000000000 ∷ 100000000000000 ∷ 10000000000000 ∷ 1000000000000 ∷ 100000000000
        ∷ 10000000000 ∷ 1000000000 ∷ 100000000 ∷ 10000000 ∷ 1000000 ∷ 100000 ∷ 10000 ∷ 1000 ∷ 100
        ∷ 10 ∷ 1 ∷ [])
      false n
