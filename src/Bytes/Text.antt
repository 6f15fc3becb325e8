-- ===== src/Bytes/Text.antt =====
-- What Rust's std does with text: literals, `Display` of a number, `split_whitespace` and
-- `parse::<u16>`. A `str` is its bytes.
use Prim.Native.Char.{code}
use Prim.Native.String.{String}
use unstable_drift.Prelude.{
  ℕ, zero, suc, ◌+◌, ◌-◌, ◌*◌, ◌/◌, ◌%◌, Bool, true, false, ◌&&◌, ◌||◌, Option, none, some, List,
  [], ◌∷◌, ◌++◌,
}
use unstable_drift.Prelude.{◌==◌, leb, ltb, if◌then◌else◌}
use unstable_drift.Bytes.{Bytes}

-- A literal in ASCII.
abbrev pub ascii : String → Bytes
ascii String.[] = []
ascii (String.◌∷◌ c s) = code c ∷ ascii s

-- The decimal digits of a u16, without leading zeros.
unfoldable pub digits_from : (weights : List ℕ) → (started : Bool) → ℕ → Bytes
digits_from [] started n = []
digits_from (w ∷ ws) started n =
    let shown = digits_from ws true n in
    let skipped = digits_from ws false n in
    let d = n / w % 10 in if started || not_zero d w then (48 + d) ∷ shown else skipped
  where
    not_zero : ℕ → ℕ → Bool
    not_zero d w = (w == 1) || ltb 0 d

unfoldable pub decimal : ℕ → Bytes
decimal n = digits_from (10000 ∷ 1000 ∷ 100 ∷ 10 ∷ 1 ∷ []) false n

abbrev pub is_digit : ℕ → Bool
is_digit b = leb 48 b && leb b 57

-- The value of digits after `n`, while it fits a u16.
unfoldable pub u16_digits : ℕ → Bytes → Option ℕ
u16_digits n [] = some n
u16_digits n (b ∷ bs) =
    let next = n * 10 + (b - 48) in
    let rest = u16_digits next bs in if is_digit b && leb next 65535 then rest else none

-- `parse::<u16>`, which takes a plus sign.
unfoldable pub parse_u16 : Bytes → Option ℕ
parse_u16 [] = none
parse_u16 (b ∷ []) = u16_digits 0 (b ∷ [])
parse_u16 (b ∷ c ∷ bs) = if b == b'+' then u16_digits 0 (c ∷ bs) else u16_digits 0 (b ∷ c ∷ bs)

-- The length of the White_Space character at the front of a text in UTF-8, or 0.
unfoldable pub white : Bytes → ℕ
white (a ∷ b ∷ c ∷ rest) =
    if (leb 9 a && leb a 13) || (a == 32)
    then 1
    else if (a == 0xC2) && ((b == 0x85) || (b == 0xA0))
    then 2
    else if ((a == 0xE1) && ((b == 0x9A) && (c == 0x80)))
        || (((a == 0xE2)
              && ((b == 0x80)
                  && ((leb 0x80 c && leb c 0x8A) || (((c == 0xA8) || (c == 0xA9)) || (c == 0xAF)))))
            || (((a == 0xE2) && ((b == 0x81) && (c == 0x9F)))
                || ((a == 0xE3) && ((b == 0x80) && (c == 0x80)))))
    then 3
    else 0
white (a ∷ b ∷ []) =
    if (leb 9 a && leb a 13) || (a == 32)
    then 1
    else if (a == 0xC2) && ((b == 0x85) || (b == 0xA0))
    then 2
    else 0
white (a ∷ []) = if (leb 9 a && leb a 13) || (a == 32) then 1 else 0
white [] = 0

-- A word in front of the words that follow it, if it has a byte.
unfoldable pub word_then : Bytes → List Bytes → List Bytes
word_then [] words = words
word_then (b ∷ bs) words = (b ∷ bs) ∷ words

-- `split_whitespace`. `word` is what has been read of a word, `skip` the bytes left of a white
-- character.
unfoldable pub words_from : (word : Bytes) → (skip : ℕ) → Bytes → List Bytes
words_from word skip [] = word_then word []
words_from word (suc skip) (b ∷ bs) = words_from word skip bs
words_from word zero (b ∷ bs) =
    let w = white (b ∷ bs) in
    let next = words_from [] (w - 1) bs in
    let more = words_from (word ++ b ∷ []) 0 bs in if ltb 0 w then word_then word next else more

unfoldable pub split_whitespace : Bytes → List Bytes
split_whitespace text = words_from [] 0 text
