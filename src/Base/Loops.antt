-- ===== src/Base/Loops.antt =====
-- Counted loops, with their invariant rule.
use Prim.Native.Nat.{ℕ, zero, suc, ◌+◌, ◌<◌}
use mathlib.Core.Path.{◌≡◌}
use native.Mathlib.Omega.{arith}

-- `for (k = i; k < i + n; k++) s = body(k, s);`, by recursion on the rounds left
abbrev pub for_up {ℓ} : {S : Type ℓ} → (ℕ → S → S) → ℕ → ℕ → S → S
for_up body zero i s = s
for_up body (suc n) i s = for_up body n (i + 1) (body i s)

-- What every round keeps, the loop keeps.
pub for_up_keeps {ℓ κ} :
    {S : Type ℓ} (P : S → Type κ) (body : ℕ → S → S)
    → ((k : ℕ) (s : S) → P s → P (body k s))
    → (n i : ℕ) (s : S) → P s
    → P (for_up body n i s)
for_up_keeps P body keep zero i s h = h
for_up_keeps P body keep (suc n) i s h = for_up_keeps P body keep n (i + 1) (body i s) (keep i s h)

-- The rule with the loop's position: `P` at `i` before round `i`.
pub for_up_inv {ℓ κ} :
    {S : Type ℓ} (P : ℕ → S → Type κ) (body : ℕ → S → S) (stop : ℕ)
    → ((k : ℕ) (s : S) → k < stop → P k s → P (k + 1) (body k s))
    → (n i : ℕ) (s : S) → i + n ≡ stop
    → P i s
    → P stop (for_up body n i s)
for_up_inv P body stop keep zero i s e h = let e' : i ≡ stop = omega arith in rw (← e') h
for_up_inv P body stop keep (suc n) i s e h =
    for_up_inv P body stop keep n (i + 1) (body i s) (omega arith) (keep i s (omega arith) h)
