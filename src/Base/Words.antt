-- ===== src/Base/Words.antt =====
-- Go's signed integers as bit patterns: an `int64` (or `int`) is a number below 2^64, an `int32`
-- one below 2^32, and order is read through the bias.
use Prim.Native.Nat.{ℕ, ◌+◌, ◌-◌, ◌%◌, ◌^◌, ◌<◌}
use mathlib.Core.Path.{◌≡◌}
use mathlib.Core.Bool.{Bool}
use native.Mathlib.Omega.{arith}
use abraxis.Base.Tests.{leb, ltb}

abbrev pub i64_mod : ℕ
i64_mod = 2 ^ 64

abbrev pub i64_half : ℕ
i64_half = 2 ^ 63

abbrev pub i32_mod : ℕ
i32_mod = 2 ^ 32

abbrev pub i32_half : ℕ
i32_half = 2 ^ 31

-- `x++` and `x--`, wrapping.
unfoldable pub inc64 : ℕ → ℕ
inc64 x = (x + 1) % i64_mod

unfoldable pub inc32 : ℕ → ℕ
inc32 x = (x + 1) % i32_mod

unfoldable pub dec32 : ℕ → ℕ
dec32 x = (x + i32_mod - 1) % i32_mod

-- `x <= y` and `x < y` of signed words.
unfoldable pub sle64 : ℕ → ℕ → Bool
sle64 x y = leb ((x + i64_half) % i64_mod) ((y + i64_half) % i64_mod)

unfoldable pub slt64 : ℕ → ℕ → Bool
slt64 x y = ltb ((x + i64_half) % i64_mod) ((y + i64_half) % i64_mod)

unfoldable pub sle32 : ℕ → ℕ → Bool
sle32 x y = leb ((x + i32_half) % i32_mod) ((y + i32_half) % i32_mod)

-- On words that are not negative the order is that of the numbers.
pub sle64-leb : (x y : ℕ) → x < i64_half → y < i64_half → sle64 x y ≡ leb x y
unfolding sle64
sle64-leb x y hx hy = ground arith

pub slt64-ltb : (x y : ℕ) → x < i64_half → y < i64_half → slt64 x y ≡ ltb x y
unfolding slt64
slt64-ltb x y hx hy = ground arith

pub sle32-leb : (x y : ℕ) → x < i32_half → y < i32_half → sle32 x y ≡ leb x y
unfolding sle32
sle32-leb x y hx hy = ground arith

pub inc64_lem : (x : ℕ) → x + 1 < i64_mod → inc64 x ≡ x + 1
unfolding inc64
inc64_lem x h = omega arith

pub inc32_lem : (x : ℕ) → x + 1 < i32_mod → inc32 x ≡ x + 1
unfolding inc32
inc32_lem x h = omega arith

pub dec32-inc32 : (x : ℕ) → x < i32_mod → dec32 (inc32 x) ≡ x
unfolding dec32 inc32
dec32-inc32 x h = omega arith
