-- ===== src/Base/Words.antt =====
-- The unsigned C types as numbers with their wrap-around, and shifts.
use Prim.Native.Nat.{ℕ, ◌+◌, ◌-◌, ◌*◌, ◌/◌, ◌%◌, ◌^◌, ◌≤◌}
use native.Mathlib.Nat.{pow-le-pow_right}
use native.Mathlib.Omega.{arith}

abbrev pub u8 : ℕ → ℕ
u8 n = n % 2 ^ 8

abbrev pub u16 : ℕ → ℕ
u16 n = n % 2 ^ 16

abbrev pub u32 : ℕ → ℕ
u32 n = n % 2 ^ 32

abbrev pub u64 : ℕ → ℕ
u64 n = n % 2 ^ 64

-- `a - b` of type `uint64_t`, for words below `2 ^ 64`
abbrev pub sub64 : ℕ → ℕ → ℕ
sub64 a b = (a + (2 ^ 64 - b)) % 2 ^ 64

-- `a >> k`
infixl 75 ◌>>>◌ ◌<<<◌
abbrev pub ◌>>>◌ : ℕ → ℕ → ℕ
a >>> k = a / 2 ^ k

-- `a << k` before the cast to its width
abbrev pub ◌<<<◌ : ℕ → ℕ → ℕ
a <<< k = a * 2 ^ k

-- `~a` of type `uint64_t`
abbrev pub not64 : ℕ → ℕ
not64 a = 2 ^ 64 - 1 - a

pub pow_mono : (m k : ℕ) → m ≤ k → 2 ^ m ≤ 2 ^ k
pow_mono m k h = pow-le-pow_right {n = 2} (omega arith) {i = m} {j = k} h
