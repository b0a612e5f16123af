-- ===== src/Tunnel/Backoff/Delays.antt =====
-- The delays of pkg/tunnel/backoff.go, within the range of an int64 and beyond it.
use native.Mathlib.Nat.{pow-le-pow_right, mul-le-mul_left}
use agentry.Base.{
  not, ltb→lt, ℕ, ◌+◌, ◌-◌, ◌*◌, ◌^◌, ◌≤◌, ◌<◌, min, max, refl, Option, none, ◌≡◌, Bool, true,
  false, ◌&&◌, some, ltb, leb, arith, Bool-cases, inl, inr,
}
use agentry.Base.Int.{ℤ, pos, negsuc, ltb_ℤ, sub64-pos, int64_bound}
use agentry.Tunnel.Backoff.{Backoff, counted, cap_delay, jittered, next, second, dialer_backoff}

-- The delay without jitter.
abbrev pub full_delay : ℕ → Backoff → ℕ
full_delay now b = min b.cfg.max_delay (b.cfg.base * 2 ^ counted now b)

-- The retries are not used up.
abbrev pub may_retry : ℕ → Backoff → Bool
may_retry now b = not (ltb 0 b.cfg.max_attempts && leb b.cfg.max_attempts (counted now b))

abbrev pub least_int64 : ℤ
least_int64 = negsuc 0x7FFF_FFFF_FFFF_FFFF

-- `int64(float64(d) * b.cfg.Jitter)`, and 0 without jitter.
abbrev pub share_of : Option (ℤ → ℤ) → ℤ → ℤ
share_of none d = pos 0
share_of (some spread) d = spread d

jittered-bounds :
    (spread : Option (ℤ → ℤ)) (draw : ℤ → ℕ) (d s : ℕ)
    → d < int64_bound
    → share_of spread (pos d) ≡ pos s
    → s ≤ d
    → (0 < s → draw (pos s) < s)
    → (delay : ℕ) × (jittered spread draw (pos d) ≡ pos delay) × (delay ≤ d) × (d < delay + max 1 s)
unfolding jittered
jittered-bounds none draw d s range share part drawn = (d, refl, omega arith, omega arith)
jittered-bounds (some spread) draw d s range share part drawn = elim (Bool-cases (ltb 0 s)) [
  | inl some_share ↦
      let less : draw (pos s) < s = drawn (ltb→lt 0 s some_share) in
      let difference = sub64-pos d (draw (pos s)) range (omega arith) in
      (d - draw (pos s), ground (arith, share, difference), omega arith, omega arith)
  | inr no_share ↦ (d, ground (arith, share), omega arith, omega arith)
]

capped_delay :
    (limit x : ℕ) (scaled : ℤ) → scaled ≡ pos x → cap_delay limit scaled ≡ pos (min limit x)
unfolding cap_delay
capped_delay limit x scaled e = ground (arith, e)

-- While the base is a float64 exactly, the doubled base is in the range of an int64 and retries are
-- left, the delay is at most the base doubled once for each attempt that counts, and at most the
-- maximum; jitter takes less than its share `s` from it, and nothing where the share is 0 or there is
-- no jitter; and the attempt is counted. The scaling is the product where it is exact and in range,
-- the share is at most the delay, and the random number is below it.
pub next-bounds :
    (scaled : ℕ → ℕ → ℤ) (draw : ℤ → ℕ) (s now : ℕ) (b : Backoff)
    → ((x n : ℕ) → x ≤ 2 ^ 53 → x * 2 ^ n < int64_bound → scaled x n ≡ pos (x * 2 ^ n))
    → b.cfg.base ≤ 2 ^ 53
    → b.cfg.base * 2 ^ counted now b < int64_bound
    → may_retry now b ≡ true
    → share_of b.cfg.spread (pos (full_delay now b)) ≡ pos s
    → s ≤ full_delay now b
    → (0 < s → draw (pos s) < s)
    → (delay : ℕ) × ((next scaled draw now b).0 ≡ pos delay)
      × (delay ≤ full_delay now b)
      × (full_delay now b < delay + max 1 s)
      × ((next scaled draw now b).1.attempts ≡ counted now b + 1)
unfolding next
next-bounds scaled draw s now b conv exact range retry share part drawn =
    let capped =
      capped_delay b.cfg.max_delay (b.cfg.base * 2 ^ counted now b)
        (scaled b.cfg.base (counted now b)) (conv b.cfg.base (counted now b) exact range) in
    let in_range : full_delay now b < int64_bound = omega arith in
    let (delay, is_delay, at_most, strict) =
      jittered-bounds b.cfg.spread draw (full_delay now b) s in_range share part drawn in
    (delay, ground (arith, capped, retry, is_delay), at_most, strict, ground (arith, retry))

-- On a machine whose conversion of a float64 out of range gives the least int64, a dialer that has
-- failed thirty-three times without a long quiet time gets the least int64 as its delay, in place of
-- the maximum of five minutes.
pub next-overflow :
    (scaled : ℕ → ℕ → ℤ) (draw : ℤ → ℕ) (spread : ℤ → ℤ) (now : ℕ) (b : Backoff)
    → ((x n : ℕ) → x ≤ 2 ^ 53 → int64_bound ≤ x * 2 ^ n → scaled x n ≡ least_int64)
    → ltb_ℤ (pos 0) (spread least_int64) ≡ false
    → b.cfg ≡ dialer_backoff spread
    → 33 ≤ counted now b
    → (next scaled draw now b).0 ≡ least_int64
unfolding next jittered cap_delay dialer_backoff
next-overflow scaled draw spread now b conv part dialer many =
    let doubled : 2 ^ 33 ≤ 2 ^ counted now b =
      pow-le-pow_right {n = 2} (omega arith) {i = 33} {j = counted now b} many in
    let product : 2 * second * 2 ^ 33 ≤ 2 * second * 2 ^ counted now b =
      mul-le-mul_left (2 * second) doubled in
    let beyond : int64_bound ≤ b.cfg.base * 2 ^ counted now b = ground (arith, product, dialer) in
    let exact : b.cfg.base ≤ 2 ^ 53 = ground (arith, dialer) in
    let converted = conv b.cfg.base (counted now b) exact beyond in
    ground (arith, converted, part, dialer)
