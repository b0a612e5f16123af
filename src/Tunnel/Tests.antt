-- ===== src/Tunnel/Tests.antt =====
-- Runs of pkg/tunnel at concrete inputs, and the instances of its theorems there.
use agentry.Base.{ℕ, ◌+◌, ◌*◌, ◌^◌, max, ◌≤◌, ◌<◌, ◌≡◌, refl, none, if◌then◌else◌, ltb, arith}
use agentry.Base.Int.{ℤ, pos, negsuc, int64_bound, sub64, wrap64}
use agentry.Tunnel.Backoff.{Backoff, dialer_backoff, counted, next, cap_delay, jittered}
use agentry.Tunnel.Backoff.Delays.{full_delay, least_int64, next-bounds, next-overflow}

-- The scaling on an amd64, for a base that is a float64 exactly.
abbrev amd64 : ℕ → ℕ → ℤ
amd64 x n = if ltb (x * 2 ^ n) int64_bound then pos (x * 2 ^ n) else least_int64

-- A share of three.
abbrev spread : ℤ → ℤ
spread (pos n) = pos 3
spread (negsuc n) = negsuc 0

abbrev tried : ℕ → Backoff
tried n = record { cfg = dialer_backoff spread; attempts = n; last = none }

-- The delay doubles from two seconds, and stays at five minutes.
third_delay : (next amd64 (λ d. 1) 0 (tried 2)).0 ≡ pos 7_999_999_999
unfolding next counted dialer_backoff cap_delay jittered sub64 wrap64
third_delay = refl

amd64_in_range : (x n : ℕ) → x ≤ 2 ^ 53 → x * 2 ^ n < int64_bound → amd64 x n ≡ pos (x * 2 ^ n)
amd64_in_range x n exact h = ground arith

amd64_out_of_range : (x n : ℕ) → x ≤ 2 ^ 53 → int64_bound ≤ x * 2 ^ n → amd64 x n ≡ least_int64
amd64_out_of_range x n exact h = ground arith

next-bounds_example :
    (delay : ℕ) × ((next amd64 (λ d. 1) 0 (tried 2)).0 ≡ pos delay)
    × (delay ≤ full_delay 0 (tried 2))
    × (full_delay 0 (tried 2) < delay + max 1 3)
    × ((next amd64 (λ d. 1) 0 (tried 2)).1.attempts ≡ counted 0 (tried 2) + 1)
unfolding dialer_backoff counted
next-bounds_example =
    next-bounds amd64 (λ d. 1) 3 0 (tried 2) amd64_in_range (omega arith) (omega arith) refl refl
      (omega arith) (λ p. omega arith)

next-overflow_example : (next amd64 (λ d. 1) 0 (tried 33)).0 ≡ least_int64
unfolding counted
next-overflow_example =
    next-overflow amd64 (λ d. 1) spread 0 (tried 33) amd64_out_of_range refl refl (omega arith)
