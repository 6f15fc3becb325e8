-- ===== src/Bytes/Utf8.antt =====
-- `str::from_utf8`: the well-formed byte sequences of the Unicode standard (table 3-7).
use unstable_drift.Prelude.{ℕ, Bool, true, ◌&&◌, ◌||◌}
use unstable_drift.Prelude.{[], ◌∷◌, leb, ltb, ◌==◌, if◌then◌else◌, Result, ok, err}
use unstable_drift.Bytes.{Bytes}

abbrev between : ℕ → ℕ → ℕ → Bool
between lo hi b = leb lo b && leb b hi

abbrev is_tail : ℕ → Bool
is_tail = between 0x80 0xBF

-- What may follow the first byte of a sequence of two, three or four bytes.
two : ℕ → ℕ → Bool
two a b = between 0xC2 0xDF a && is_tail b

three : ℕ → ℕ → ℕ → Bool
three a b c =
    ((a == 0xE0 && between 0xA0 0xBF b)
      || ((between 0xE1 0xEC a || between 0xEE 0xEF a) && is_tail b)
      || (a == 0xED && between 0x80 0x9F b))
    && is_tail c

four : ℕ → ℕ → ℕ → ℕ → Bool
four a b c d =
    ((a == 0xF0 && between 0x90 0xBF b)
      || (between 0xF1 0xF3 a && is_tail b)
      || (a == 0xF4 && between 0x80 0x8F b))
    && is_tail c
    && is_tail d

unfoldable pub is_utf8 : Bytes → Bool
unfolding two three four
is_utf8 [] = true
is_utf8 (a ∷ []) = ltb a 0x80
is_utf8 (a ∷ b ∷ []) = (ltb a 0x80 && is_utf8 (b ∷ [])) || two a b
is_utf8 (a ∷ b ∷ c ∷ []) =
    let one = is_utf8 (b ∷ c ∷ []) in
    let pair = is_utf8 (c ∷ []) in (ltb a 0x80 && one) || (two a b && pair) || three a b c
is_utf8 (a ∷ b ∷ c ∷ d ∷ rest) =
    let one = is_utf8 (b ∷ c ∷ d ∷ rest) in
    let pair = is_utf8 (c ∷ d ∷ rest) in
    let triple = is_utf8 (d ∷ rest) in
    let quad = is_utf8 rest in
    if ltb a 0x80
    then one
    else if two a b
    then pair
    else if three a b c
    then triple
    else four a b c d && quad

pub data Utf8Error : Type 0 where
  utf8_error : Utf8Error

-- A `str` is its bytes.
unfoldable pub from_utf8 : Bytes → Result Utf8Error Bytes
from_utf8 b = if is_utf8 b then ok b else err utf8_error
