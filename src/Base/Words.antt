-- ===== src/Base/Words.antt =====
-- Machine words as native numbers: wrap-around by `%`, and integers read from bytes. A byte is a
-- number below 256; an i16 is kept as its bit pattern, a number below 65536.
use Prim.Native.Nat.{ℕ, zero, suc, ◌+◌, ◌-◌, ◌*◌, ◌/◌, ◌%◌, ◌^◌, ◌<◌}
use mathlib.Core.Path.{◌≡◌}
use cncnet_server.Base.Tests.{ltb, if◌then◌else◌}
use native.Mathlib.Omega.{arith}

abbrev pub u64_mod : ℕ
u64_mod = 2 ^ 64

abbrev pub u32_mod : ℕ
u32_mod = 2 ^ 32

abbrev pub u16_mod : ℕ
u16_mod = 2 ^ 16

abbrev pub u32_max : ℕ
u32_max = 0xffff_ffff

-- `fetch_add` on an AtomicU64, and `+=` on a u64, without overflow checks.
abbrev pub add64 : ℕ → ℕ → ℕ
add64 a b = (a + b) % u64_mod

abbrev pub add32 : ℕ → ℕ → ℕ
add32 a b = (a + b) % u32_mod

-- `pos n` is n and `negsuc n` is -(n + 1).
pub data ℤ : Type 0 where
  pos negsuc : ℕ → ℤ

-- `as i64` on a u64: from 2^63 on, the number less 2^64.
abbrev pub as_i64 : ℕ → ℤ
as_i64 n = if ltb n (2 ^ 63) then pos n else negsuc (u64_mod - 1 - n)

-- `as u32`
abbrev pub as_u32 : ℕ → ℕ
as_u32 n = n % u32_mod

-- `i16::from_be_bytes`, as a bit pattern.
unfoldable pub from_be_bytes_16 : ℕ → ℕ → ℕ
from_be_bytes_16 hi lo = hi * 256 + lo

-- `u32::from_le_bytes`.
unfoldable pub from_le_bytes_32 : ℕ → ℕ → ℕ → ℕ → ℕ
from_le_bytes_32 a b c d = a + b * 256 + c * 65536 + d * 16777216

pub from_le_bytes_32-lt :
    (a b c d : ℕ) → a < 256 → b < 256 → c < 256 → d < 256 → from_le_bytes_32 a b c d < u32_mod
unfolding from_le_bytes_32
from_le_bytes_32-lt a b c d p q r s = omega arith

-- `^` on words of so many bits, from the lowest bit on.
unfoldable pub xor : ℕ → ℕ → ℕ → ℕ
xor zero a b = 0
xor (suc bits) a b = (a + b) % 2 + 2 * xor bits (a / 2) (b / 2)

pub xor-lt : (bits a b : ℕ) → xor bits a b < 2 ^ bits
unfolding xor
xor-lt zero a b = omega arith
xor-lt (suc bits) a b = omega (arith, xor-lt bits (a / 2) (b / 2))

-- The same mask twice gives the word back.
pub xor-xor : (bits a b : ℕ) → a < 2 ^ bits → xor bits (xor bits a b) b ≡ a
unfolding xor
xor-xor zero a b small = omega arith
xor-xor (suc bits) a b small =
    let y = xor bits (a / 2) (b / 2) in
    let half : ((a + b) % 2 + 2 * y) / 2 ≡ y = omega arith in
    rw half (omega (arith, xor-xor bits (a / 2) (b / 2) (omega arith)))
