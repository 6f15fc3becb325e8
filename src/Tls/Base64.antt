-- ===== src/Tls/Base64.antt =====
-- tls.rs: `base64_decode`, and the encoding of RFC 4648 that it reads.
use unstable_drift.Prelude.{
  ℕ, ◌+◌, ◌-◌, ◌*◌, ◌/◌, ◌%◌, ◌^◌, ◌<◌, ◌≡◌, ◌≢◌, refl, Bool, ◌||◌, ◌&&◌, Option, none, some, [],
  ◌∷◌, ◌++◌, arith, ap, ◌∙◌, append_assoc, append-nil, All, false,
}
use unstable_drift.Prelude.{Result, ok, ok_or, ◌>>=◌, ◌==◌, leb, ltb, if◌then◌else◌}
use unstable_drift.Bytes.{Bytes, IsByte, AreBytes}

pub data Base64Error : Type 0 where
  invalid_byte : Base64Error

-- The locals of the loop.
pub record Decoder : Type 0 where
  pub out : Bytes
  pub buf : ℕ
  pub bits : ℕ

-- `v`
unfoldable pub v : ℕ → Option ℕ
v c =
    if leb b'A' c && leb c b'Z'
    then some (c - b'A')
    else if leb b'a' c && leb c b'z'
    then some (26 + c - b'a')
    else if leb b'0' c && leb c b'9'
    then some (52 + c - b'0')
    else if c == b'+'
    then some 62
    else if c == b'/'
    then some 63
    else none

unfoldable pub is_ascii_whitespace : ℕ → Bool
is_ascii_whitespace c = (c == 9) || ((c == 10) || ((c == 12) || ((c == 13) || (c == 32))))

-- The u32 buffer loses the bits that are shifted out.
unfoldable pub shifted : Decoder → ℕ → Decoder
shifted st d =
    let buf = st.buf * 64 % 4294967296 + d in
    let bits = st.bits + 6 in
    if leb 8 bits
    then record { out = st.out ++ (buf / 2 ^ (bits - 8) % 256) ∷ []; buf = buf; bits = bits - 8 }
    else record { out = st.out; buf = buf; bits = bits }

unfoldable pub step : Decoder → ℕ → Result Base64Error Decoder
step st c =
    let read = (do d ← ok_or (v c) invalid_byte; ok (shifted st d)) in
    if (c == b'=') || is_ascii_whitespace c then ok st else read

unfoldable pub decode_from : Decoder → Bytes → Result Base64Error Bytes
decode_from st [] = ok st.out
decode_from st (c ∷ cs) = do st ← step st c; decode_from st cs

unfoldable pub base64_decode : Bytes → Result Base64Error Bytes
base64_decode s = decode_from (record { out = []; buf = 0; bits = 0 }) s

-- The alphabet of RFC 4648.
unfoldable pub letter : ℕ → ℕ
letter n =
    if ltb n 26
    then 65 + n
    else if ltb n 52
    then 71 + n
    else if ltb n 62
    then n - 4
    else if n == 62
    then 43
    else 47

-- Its encoding, three bytes in four letters.
unfoldable pub base64 : Bytes → Bytes
base64 [] = []
base64 (a ∷ []) = letter (a / 4) ∷ (letter (a % 4 * 16) ∷ (b'=' ∷ (b'=' ∷ [])))
base64 (a ∷ b ∷ []) =
    letter (a / 4) ∷ (letter (a % 4 * 16 + b / 16) ∷ (letter (b % 16 * 4) ∷ (b'=' ∷ [])))
base64 (a ∷ b ∷ c ∷ rest) =
    letter (a / 4)
    ∷ (letter (a % 4 * 16 + b / 16)
        ∷ (letter (b % 16 * 4 + c / 64) ∷ (letter (c % 64) ∷ base64 rest)))

-- What is neither white, nor the sign of padding, nor a dash.
pub IsPlain : ℕ → Type 0
IsPlain c = (32 < c) × (c < 128) × (c ≢ 61) × (c ≢ 45)

letter-IsPlain : (n : ℕ) → n < 64 → IsPlain (letter n)
unfolding IsPlain letter
letter-IsPlain n h = (ground arith, ground arith, ground arith, ground arith)

v-letter : (n : ℕ) → n < 64 → v (letter n) ≡ some n
unfolding v letter
v-letter n h = ground arith

passed : (c : ℕ) → IsPlain c → ((c == 61) || is_ascii_whitespace c) ≡ false
unfolding IsPlain is_ascii_whitespace
passed c h = ground arith

step-padding : (st : Decoder) → step st 61 ≡ ok st
unfolding step
step-padding st = refl

step-letter : (n : ℕ) → n < 64 → (st : Decoder) → step st (letter n) ≡ ok (shifted st n)
unfolding step
step-letter n h st = rw (passed (letter n) (letter-IsPlain n h), v-letter n h) refl

abbrev word : ℕ → ℕ → ℕ
word x d = x * 64 % 4294967296 + d

-- The bytes that the second, the third and the fourth letter push.
second_letter :
    (x a d : ℕ) → IsByte a → d < 16 → word (word x (a / 4)) (a % 4 * 16 + d) / 16 % 256 ≡ a
second_letter x a d p q = omega arith

third_letter :
    (x y b d : ℕ)
    → IsByte b
    → d < 4
    → word (word x (y * 16 + b / 16)) (b % 16 * 4 + d) / 4 % 256 ≡ b
third_letter x y b d p q = omega arith

fourth_letter : (x y c : ℕ) → IsByte c → word (word x (y * 4 + c / 64)) (c % 64) / 1 % 256 ≡ c
fourth_letter x y c p = omega arith

second_alone : (x a : ℕ) → IsByte a → word (word x (a / 4)) (a % 4 * 16) / 16 % 256 ≡ a
second_alone x a p = omega arith

third_alone : (x y b : ℕ) → IsByte b → word (word x (y * 16 + b / 16)) (b % 16 * 4) / 4 % 256 ≡ b
third_alone x y b p = omega arith

before : (out : Bytes) (buf : ℕ) → Decoder
before out buf = record { out = out; buf = buf; bits = 0 }

-- The decoder's buffer after the four letters of three bytes.
abbrev buffer : (buf a b c : ℕ) → ℕ
buffer buf a b c =
    word (word (word (word buf (a / 4)) (a % 4 * 16 + b / 16)) (b % 16 * 4 + c / 64)) (c % 64)

four :
    (out : Bytes) (buf a b c : ℕ) (rest : Bytes)
    → IsByte a
    → IsByte b
    → IsByte c
    → decode_from (before out buf) (
        letter (a / 4)
        ∷ (letter (a % 4 * 16 + b / 16)
            ∷ (letter (b % 16 * 4 + c / 64) ∷ (letter (c % 64) ∷ rest))))
      ≡ decode_from (before (((out ++ a ∷ []) ++ b ∷ []) ++ c ∷ []) (buffer buf a b c)) rest
unfolding decode_from shifted before
four out buf a b c rest p q r =
    rw
      (
        step-letter (a / 4) (omega arith),
        step-letter (a % 4 * 16 + b / 16) (omega arith),
        step-letter (b % 16 * 4 + c / 64) (omega arith),
        step-letter (c % 64) (omega arith),
        second_letter buf a (b / 16) p (omega arith),
        third_letter (word buf (a / 4)) (a % 4) b (c / 64) q (omega arith),
        fourth_letter (word (word buf (a / 4)) (a % 4 * 16 + b / 16)) (b % 16) c r,
      )
      refl

three_more :
    (out : Bytes) (a b c : ℕ) (bs : Bytes)
    → (((out ++ a ∷ []) ++ b ∷ []) ++ c ∷ []) ++ bs ≡ out ++ (a ∷ (b ∷ (c ∷ bs)))
three_more out a b c bs =
    append_assoc ((out ++ a ∷ []) ++ b ∷ []) (c ∷ []) bs
    ∙ append_assoc (out ++ a ∷ []) (b ∷ []) (c ∷ bs)
    ∙ append_assoc out (a ∷ []) (b ∷ (c ∷ bs))

-- What is decoded behind bytes that are there already.
decode_from-base64 :
    (out : Bytes) (buf : ℕ) (bs : Bytes)
    → AreBytes bs
    → decode_from (before out buf) (base64 bs) ≡ ok (out ++ bs)
unfolding decode_from shifted before base64
decode_from-base64 out buf [] h = rw (append-nil out) refl
decode_from-base64 out buf (a ∷ []) (p, h) =
    rw
      (
        step-letter (a / 4) (omega arith),
        step-letter (a % 4 * 16) (omega arith),
        second_alone buf a p,
        step-padding,
        step-padding,
      )
      refl
decode_from-base64 out buf (a ∷ b ∷ []) (p, (q, h)) =
    rw
      (
        step-letter (a / 4) (omega arith),
        step-letter (a % 4 * 16 + b / 16) (omega arith),
        step-letter (b % 16 * 4) (omega arith),
        second_letter buf a (b / 16) p (omega arith),
        third_alone (word buf (a / 4)) (a % 4) b q,
        step-padding,
      )
      (ap ok (append_assoc out (a ∷ []) (b ∷ [])))
decode_from-base64 out buf (a ∷ b ∷ c ∷ bs) (p, (q, (r, h))) =
    four out buf a b c (base64 bs) p q r
    ∙ decode_from-base64 (((out ++ a ∷ []) ++ b ∷ []) ++ c ∷ []) (buffer buf a b c) bs h
    ∙ ap ok (three_more out a b c bs)

-- Decoding the encoding of RFC 4648 of any bytes gives the bytes, whatever their number leaves of the
-- last four letters.
pub base64_decode-base64 : (bs : Bytes) → AreBytes bs → base64_decode (base64 bs) ≡ ok bs
unfolding base64_decode before
base64_decode-base64 bs h = decode_from-base64 [] 0 bs h

-- What the encoding is made of.
unfoldable pub IsText : ℕ → Type 0
IsText c = (32 < c) × (c < 128) × (c ≢ 45)

letter-IsText : (n : ℕ) → n < 64 → IsText (letter n)
unfolding IsText IsPlain
letter-IsText n h = let (p, q, r, s) = letter-IsPlain n h in (p, q, s)

padding-IsText : IsText 61
unfolding IsText
padding-IsText = (omega arith, omega arith, omega arith)

pub base64-IsText : (bs : Bytes) → AreBytes bs → All IsText (base64 bs)
unfolding base64
base64-IsText [] h = tt
base64-IsText (a ∷ []) (p, h) = (
  letter-IsText (a / 4) (omega arith),
  (letter-IsText (a % 4 * 16) (omega arith), (padding-IsText, (padding-IsText, tt))),
)
base64-IsText (a ∷ b ∷ []) (p, (q, h)) = (
  letter-IsText (a / 4) (omega arith),
  (
    letter-IsText (a % 4 * 16 + b / 16) (omega arith),
    (letter-IsText (b % 16 * 4) (omega arith), (padding-IsText, tt)),
  ),
)
base64-IsText (a ∷ b ∷ c ∷ bs) (p, (q, (r, h))) = (
  letter-IsText (a / 4) (omega arith),
  (
    letter-IsText (a % 4 * 16 + b / 16) (omega arith),
    (
      letter-IsText (b % 16 * 4 + c / 64) (omega arith),
      (letter-IsText (c % 64) (omega arith), base64-IsText bs h),
    ),
  ),
)
