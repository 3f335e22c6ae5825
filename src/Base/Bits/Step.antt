-- ===== src/Base/Bits/Step.antt =====
-- `&` and `|` mean a recursion on binary digits that counts the digits to go. Here that count is
-- dropped: one equation for the lowest digit, and what follows for `0` and for equal operands.
use Prim.Native.Nat.{
  ℕ, zero, suc, ◌+◌, ◌-◌, ◌*◌, ◌/◌, ◌%◌, ◌≤◌, min, max, digits, bit_and, bit_or, bit_and-bitwise,
  bit_or-bitwise,
}
use mathlib.Core.Path.{◌≡◌, refl, ◌∙◌, ap}
use native.Mathlib.Nat.{le_refl}
use native.Mathlib.Omega.{arith}

module _ (rest : ℕ → ℕ) (digit : ℕ → ℕ → ℕ) where
  -- One more digit to go than the number has changes nothing.
  digits-suc : (n a b : ℕ) → a ≤ n → digits rest digit (suc n) a b ≡ digits rest digit n a b
  digits-suc zero zero b h = refl
  digits-suc zero (suc a) b h = absurd (omega arith)
  digits-suc (suc n) zero b h = refl
  digits-suc (suc n) (suc a) b h =
      ap (λ t. t * 2 + digit (suc a % 2) (b % 2)) (digits-suc n (suc a / 2) (b / 2) (omega arith))

  digits_spare : (k n a b : ℕ) → n ≡ a + k → digits rest digit n a b ≡ digits rest digit a a b
  digits_spare zero n a b e = let e' : n ≡ a = omega arith in rw e'
  digits_spare (suc k) n a b e =
      let e' : n ≡ suc (a + k) = omega arith in
      rw e' (digits-suc (a + k) a b (omega arith) ∙ digits_spare k (a + k) a b refl)

-- The count left over by `suc a` is enough for `suc a / 2`.
digits_half :
    (rest : ℕ → ℕ) (digit : ℕ → ℕ → ℕ) (a b : ℕ)
    → digits rest digit a (suc a / 2) b ≡ digits rest digit (suc a / 2) (suc a / 2) b
digits_half rest digit a b = digits_spare rest digit (a - suc a / 2) a (suc a / 2) b (omega arith)

pub bit_and_step : (x y : ℕ) → bit_and x y ≡ min (x % 2) (y % 2) + 2 * bit_and (x / 2) (y / 2)
bit_and_step zero y = rw (bit_and-bitwise 0 y, bit_and-bitwise 0 (y / 2)) (omega arith)
bit_and_step (suc x) y =
    rw (bit_and-bitwise (suc x) y, bit_and-bitwise (suc x / 2) (y / 2))
      (omega (arith, digits_half (λ z. 0) min x (y / 2)))

pub bit_or_step : (x y : ℕ) → bit_or x y ≡ max (x % 2) (y % 2) + 2 * bit_or (x / 2) (y / 2)
bit_or_step zero y = rw (bit_or-bitwise 0 y, bit_or-bitwise 0 (y / 2)) (omega arith)
bit_or_step (suc x) y =
    rw (bit_or-bitwise (suc x) y, bit_or-bitwise (suc x / 2) (y / 2))
      (omega (arith, digits_half (λ z. z) max x (y / 2)))

pub zero-bit_and : (b : ℕ) → bit_and 0 b ≡ 0
zero-bit_and b = bit_and-bitwise 0 b

pub zero-bit_or : (b : ℕ) → bit_or 0 b ≡ b
zero-bit_or b = bit_or-bitwise 0 b

-- Each law goes from `a / 2` to `a`, so it is proved for all numbers up to a bound.
bit_and-zero_below : (top x : ℕ) → x ≤ top → bit_and x 0 ≡ 0
bit_and-zero_below top zero le = refl
bit_and-zero_below zero (suc x) le = absurd (omega arith)
bit_and-zero_below (suc top) (suc x) le =
    omega (arith, bit_and-zero_below top (suc x / 2) (omega arith), bit_and_step (suc x) 0)

pub bit_and-zero : (a : ℕ) → bit_and a 0 ≡ 0
bit_and-zero a = bit_and-zero_below a a (le_refl a)

bit_or-zero_below : (top x : ℕ) → x ≤ top → bit_or x 0 ≡ x
bit_or-zero_below top zero le = refl
bit_or-zero_below zero (suc x) le = absurd (omega arith)
bit_or-zero_below (suc top) (suc x) le =
    omega (arith, bit_or-zero_below top (suc x / 2) (omega arith), bit_or_step (suc x) 0)

pub bit_or-zero : (a : ℕ) → bit_or a 0 ≡ a
bit_or-zero a = bit_or-zero_below a a (le_refl a)

bit_and_self_below : (top x : ℕ) → x ≤ top → bit_and x x ≡ x
bit_and_self_below top zero le = refl
bit_and_self_below zero (suc x) le = absurd (omega arith)
bit_and_self_below (suc top) (suc x) le =
    omega (arith, bit_and_self_below top (suc x / 2) (omega arith), bit_and_step (suc x) (suc x))

pub bit_and_self : (a : ℕ) → bit_and a a ≡ a
bit_and_self a = bit_and_self_below a a (le_refl a)
