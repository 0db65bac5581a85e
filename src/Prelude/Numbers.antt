-- ===== src/Prelude/Numbers.antt =====
-- Quotients and remainders by an unknown.
use Prim.Native.Nat.{ℕ, suc, ◌+◌, ◌*◌, ◌/◌, ◌%◌, ◌<◌}
use mathlib.Core.Path.{◌≡◌, ap}
use native.Mathlib.Nat.{div-eq_of_lt-le, div-add-mod'}
use native.Mathlib.Omega.{arith}

-- A quotient and a remainder below the divisor are the quotient and the remainder.
pub div_mod_unique : (q r n a : ℕ) → r < n → q * n + r ≡ a → (a / n ≡ q) × (a % n ≡ r)
div_mod_unique q r n a small e =
    let quotient : a / n ≡ q = div-eq_of_lt-le n (omega arith) (omega arith) in
    let scaled : a / n * n ≡ q * n = ap (λ (t : ℕ). t * n) quotient in
    (quotient, omega (arith, div-add-mod' a n))

-- One more, without and with a carry.
pub div_mod-suc : (i n : ℕ) → suc (i % n) < n → (suc i / n ≡ i / n) × (suc i % n ≡ suc (i % n))
div_mod-suc i n h =
    div_mod_unique (i / n) (suc (i % n)) n (suc i) h (omega (arith, div-add-mod' i n))

pub div_mod-suc_carry : (i n : ℕ) → suc (i % n) ≡ n → (suc i / n ≡ suc (i / n)) × (suc i % n ≡ 0)
div_mod-suc_carry i n h =
    div_mod_unique (suc (i / n)) 0 n (suc i) (omega arith) (omega (arith, div-add-mod' i n))
