-- ===== src/Bytes/Laws.antt =====
-- Writing a word and reading it back, and the other way round.
use unstable_drift.Prelude.{ℕ, ◌/◌, ◌%◌, ◌≡◌, [], ◌∷◌, arith}
use unstable_drift.Bytes.{IsByte, IsU16, IsU32, AreBytes, u16_le, u32_le, u16_of_le, u32_of_le}

pub u16_of_le-u16_le : (n : ℕ) → IsU16 n → u16_of_le (n % 256) (n / 256 % 256) ≡ n
u16_of_le-u16_le n h = omega arith

pub u32_of_le-u32_le :
    (n : ℕ)
    → IsU32 n
    → u32_of_le (n % 256) (n / 256 % 256) (n / 65536 % 256) (n / 16777216 % 256) ≡ n
u32_of_le-u32_le n h = omega arith

pub u16_le-u16_of_le : (a b : ℕ) → IsByte a → IsByte b → u16_le (u16_of_le a b) ≡ a ∷ b ∷ []
u16_le-u16_of_le a b p q = ground arith

pub u32_le-u32_of_le :
    (a b c d : ℕ)
    → IsByte a
    → IsByte b
    → IsByte c
    → IsByte d
    → u32_le (u32_of_le a b c d) ≡ a ∷ b ∷ c ∷ d ∷ []
u32_le-u32_of_le a b c d p q r s = ground arith

pub u32_of_le-IsU32 :
    (a b c d : ℕ) → IsByte a → IsByte b → IsByte c → IsByte d → IsU32 (u32_of_le a b c d)
u32_of_le-IsU32 a b c d p q r s = omega arith

pub u32_le-AreBytes : (n : ℕ) → AreBytes (u32_le n)
u32_le-AreBytes n = omega arith
