-- ===== src/Tunnel/Backoff.antt =====
-- pkg/tunnel/backoff.go: the delays between attempts. A duration is a nanosecond count. The product of
-- the base, rounded to a float64, and a power of two, as an int64, is an argument `scaled`, since the
-- rounding of a base above 2 ^ 53 and the conversion out of range are left to the arithmetic of the
-- machine; so are the share of a delay that the jitter may take and the random number below it.
pub mod Delays
use agentry.Base.{
  ℕ, zero, suc, ◌+◌, ◌-◌, ◌*◌, ◌^◌, Bool, true, false, ◌&&◌, Option, none, some, if◌then◌else◌, ltb,
  leb, ◌==◌,
}
use agentry.Base.Int.{ℤ, pos, negsuc, ltb_ℤ, sub64}

abbrev pub second : ℕ
second = 1_000_000_000

-- A jitter of zero is none; else `int64(float64(d) * b.cfg.Jitter)` as a function of d.
pub record BackoffConfig : Type 0 where
  pub base : ℕ
  pub max_delay : ℕ
  pub reset_after : ℕ
  pub max_attempts : ℕ
  pub spread : Option (ℤ → ℤ)

unfoldable pub dialer_backoff : (ℤ → ℤ) → BackoffConfig
dialer_backoff spread = record {
  base = 2 * second;
  max_delay = 5 * 60 * second;
  reset_after = 10 * 60 * second;
  max_attempts = 0;
  spread = some spread;
}

unfoldable pub stream_backoff : BackoffConfig
stream_backoff = record {
  base = 500_000_000;
  max_delay = 30 * second;
  reset_after = 5 * 60 * second;
  max_attempts = 0;
  spread = none;
}

pub record Backoff : Type 0 where
  pub cfg : BackoffConfig
  pub attempts : ℕ
  pub last : Option ℕ  -- none is the zero time

unfoldable pub new_backoff : (ℤ → ℤ) → BackoffConfig → Backoff
new_backoff spread cfg = record {
  cfg = if cfg.base == 0 then dialer_backoff spread else cfg;
  attempts = 0;
  last = none;
}

-- The attempts that count at `now`: none after a long quiet time.
unfoldable pub counted : ℕ → Backoff → ℕ
counted now b = elim b.last [
  | none ↦ b.attempts
  | some t ↦ if ltb 0 b.cfg.reset_after && ltb (t + b.cfg.reset_after) now then 0 else b.attempts
]

-- `if d > b.cfg.Max { d = b.cfg.Max }`
unfoldable pub cap_delay : ℕ → ℤ → ℤ
cap_delay limit d = if ltb_ℤ (pos limit) d then pos limit else d

-- `if spread > 0 { d -= rand.Int63n(spread) }`, with the random number given for its bound
unfoldable pub jittered : Option (ℤ → ℤ) → (ℤ → ℕ) → ℤ → ℤ
jittered none draw d = d
jittered (some spread) draw d =
    if ltb_ℤ (pos 0) (spread d) then sub64 d (pos (draw (spread d))) else d

-- The delay, and the state afterwards.
unfoldable pub next : (ℕ → ℕ → ℤ) → (ℤ → ℕ) → ℕ → Backoff → ℤ × Backoff
next scaled draw now b =
    let n = counted now b in
    let d = cap_delay b.cfg.max_delay (scaled b.cfg.base n) in
    if ltb 0 b.cfg.max_attempts && leb b.cfg.max_attempts n
    then (pos 0, record b { attempts = n })
    else (jittered b.cfg.spread draw d, record { cfg = b.cfg; attempts = n + 1; last = some now })

unfoldable pub reset_backoff : Backoff → Backoff
reset_backoff b = record { cfg = b.cfg; attempts = 0; last = none }
