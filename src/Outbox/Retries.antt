-- ===== src/Outbox/Retries.antt =====
-- The delays of `retry_delay` (src/outbox.rs).
use divine_upload_server.Prelude.{ℕ, zero, suc, ◌*◌, ◌^◌, ◌≤◌, min, ◌≡◌, arith}
use divine_upload_server.Text.Signed.{ℤ, pos, negsuc}
use divine_upload_server.Outbox.Dispatch.{clamp_attempt, retry_delay}

pow_positive : (n : ℕ) → 1 ≤ 2 ^ n
pow_positive zero = omega arith
pow_positive (suc n) = omega (arith, pow_positive n)

pow_mono : (a b : ℕ) → a ≤ b → 2 ^ a ≤ 2 ^ b
pow_mono zero b h = pow_positive b
pow_mono (suc a) zero h = omega arith
pow_mono (suc a) (suc b) h = omega (arith, pow_mono a b (omega arith))

-- Neither the range of `i64` nor the day binds.
pow_bound : (n : ℕ) → n ≤ 14 → 2 ^ n ≤ 16384
pow_bound n h = pow_mono n 14 h

min-le : (n m : ℕ) → min n m ≤ m
min-le n m = omega arith

min_mono : (a b m : ℕ) → a ≤ b → min a m ≤ min b m
min_mono a b m h = omega arith

min-id : (n m : ℕ) → n ≤ m → min n m ≡ n
min-id n m h = omega arith

clamp-le : (a : ℤ) → clamp_attempt a ≤ 14
unfolding clamp_attempt
clamp-le (pos n) = min-le n 14
clamp-le (negsuc n) = omega arith

delay_of : (a : ℤ) → retry_delay a ≡ 5 * 2 ^ clamp_attempt a
unfolding retry_delay
delay_of a = omega (arith, pow_bound (clamp_attempt a) (clamp-le a))

clamp_mono : (a b : ℕ) → a ≤ b → clamp_attempt (pos a) ≤ clamp_attempt (pos b)
unfolding clamp_attempt
clamp_mono a b h = min_mono a b 14 h

-- A delay is at least 5 seconds and at most 81920, and a row with more attempts waits no less.
pub retry_delay-bounds :
    (a b : ℕ)
    → a ≤ b
    → (5 ≤ retry_delay (pos a))
      × (retry_delay (pos a) ≤ retry_delay (pos b))
      × (retry_delay (pos b) ≤ 81920)
retry_delay-bounds a b h = (
  omega (arith, delay_of (pos a), pow_positive (clamp_attempt (pos a))),
  omega (arith, delay_of (pos a), delay_of (pos b), pow_mono _ _ (clamp_mono a b h)),
  omega (arith, delay_of (pos b), pow_bound (clamp_attempt (pos b)) (clamp-le (pos b))),
)
