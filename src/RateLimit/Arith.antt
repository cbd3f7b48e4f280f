-- ===== src/RateLimit/Arith.antt =====
-- The saturating arithmetic of rate_limit.go against plain integers.
use kubio.Prelude.{ℕ, zero, suc, ◌+◌, ◌-◌, ◌*◌, ◌/◌, ◌≤◌, ◌<◌, ◌≡◌, ◌↔◌, arith, min}
use kubio.Prelude.Int.{pos, ◌+ℤ◌, ◌-ℤ◌, ◌*ℤ◌, wrap64}
use kubio.RateLimit.{max_int64, saturating_add, saturating_multiply}

minus_pos : (m n : ℕ) → n ≤ m → pos m -ℤ pos n ≡ pos (m - n)
unfolding ◌-ℤ◌
minus_pos m n h = ground arith

plus_pos : (m n : ℕ) → pos m +ℤ pos n ≡ pos (m + n)
unfolding ◌+ℤ◌
plus_pos m n = ground arith

times_pos : (m n : ℕ) → pos m *ℤ pos n ≡ pos (m * n)
unfolding ◌*ℤ◌
times_pos m n = ground arith

-- On numbers of int64 that are not negative, the sum is cut off at the greatest int64.
pub saturating_add_nonneg :
    (m n : ℕ)
    → m ≤ max_int64
    → n ≤ max_int64
    → saturating_add (pos m) (pos n) ≡ pos (min max_int64 (m + n))
unfolding saturating_add wrap64 ◌-ℤ◌ ◌+ℤ◌
saturating_add_nonneg m n h k = ground arith

times_le_iff : (m n : ℕ) → 0 < n → (m ≤ max_int64 / n) ↔ (m * n ≤ max_int64)
times_le_iff m n h = (λ p. grind arith, λ p. grind arith)

pub saturating_multiply_nonneg :
    (m n : ℕ)
    → m ≤ max_int64
    → n ≤ max_int64
    → saturating_multiply (pos m) (pos n) ≡ pos (min max_int64 (m * n))
unfolding saturating_multiply wrap64 ◌*ℤ◌
saturating_multiply_nonneg m zero h k = ground (arith)
saturating_multiply_nonneg m (suc n) h k = ground (arith, times_le_iff m (suc n))
