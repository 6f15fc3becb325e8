-- ===== src/Bytes.antt =====
-- Bytes and the fixed-width integers of the wire: what `BufMut::put_u16_le`, `put_u32_le`,
-- `to_be_bytes` and `from_le_bytes` do. A byte is a number below 256, a buffer a list of bytes.
pub mod Laws
pub mod Utf8
pub mod Text
pub mod Search
pub mod Digits
use unstable_drift.Prelude.{ℕ, ◌+◌, ◌*◌, ◌/◌, ◌%◌, ◌^◌, ◌<◌, List, [], ◌∷◌, All}

abbrev pub IsByte : ℕ → Type 0
IsByte b = b < 256

abbrev pub IsU16 : ℕ → Type 0
IsU16 n = n < 2 ^ 16

abbrev pub IsU32 : ℕ → Type 0
IsU32 n = n < 2 ^ 32

abbrev pub Bytes : Type 0
Bytes = List ℕ

abbrev pub AreBytes : Bytes → Type 0
AreBytes = All IsByte

abbrev pub u32_max : ℕ
u32_max = 4294967295

abbrev pub u16_le : ℕ → Bytes
u16_le n = (n % 256) ∷ (n / 256 % 256) ∷ []

abbrev pub u16_be : ℕ → Bytes
u16_be n = (n / 256 % 256) ∷ (n % 256) ∷ []

abbrev pub u32_le : ℕ → Bytes
u32_le n = (n % 256) ∷ (n / 256 % 256) ∷ (n / 65536 % 256) ∷ (n / 16777216 % 256) ∷ []

abbrev pub u16_of_le : ℕ → ℕ → ℕ
u16_of_le a b = a + b * 256

abbrev pub u32_of_le : ℕ → ℕ → ℕ → ℕ → ℕ
u32_of_le a b c d = a + b * 256 + c * 65536 + d * 16777216
