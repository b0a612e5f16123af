-- ===== src/AuthProxy/Lockout.antt =====
-- cmd/authproxy/lockout.go: how long an account stays locked after wrong passwords. Times and
-- durations are nanoseconds; the duration stays below twice the maximum, far from an int64's end.
use agentry.Base.{
  ℕ, zero, suc, ◌+◌, ◌-◌, ◌*◌, ◌^◌, ◌≤◌, min, ◌≡◌, ◌∙◌, Bool, false, ◌||◌, Option, none, some,
  arith, ltb, leb, ◌==◌, if◌then◌else◌, Bool-cases, inl, inr, sym, ap,
}
use native.Mathlib.Nat.{one-le-pow, mul-le-mul_left, pow-succ', mul_assoc}

abbrev pub minute : ℕ
minute = 60_000_000_000

abbrev pub lockout_threshold : ℕ
lockout_threshold = 5

abbrev pub lockout_base_delay : ℕ
lockout_base_delay = 1 * minute

abbrev pub lockout_max_delay : ℕ
lockout_max_delay = 30 * minute

-- The loop, with the rounds that are left; the break is the branch that makes no further call.
unfoldable pub double_loop : ℕ → ℕ → ℕ
double_loop zero d = d
double_loop (suc rounds) d =
    let rest = double_loop rounds (d * 2) in
    if leb lockout_max_delay (d * 2) then lockout_max_delay else rest

-- `if d <= 0 || d > lockoutMaxDelay { d = lockoutMaxDelay }`
unfoldable pub clamp_delay : ℕ → ℕ
clamp_delay d = if d == 0 || ltb lockout_max_delay d then lockout_max_delay else d

-- `none` is the zero time.
unfoldable pub lockout_until : ℕ → ℕ → Option ℕ
lockout_until now attempts =
    if ltb attempts lockout_threshold
    then none
    else some (now + clamp_delay (double_loop (attempts - lockout_threshold) lockout_base_delay))

unfoldable pub is_locked : Option ℕ → ℕ → Bool
is_locked none now = false
is_locked (some until) now = ltb now until

le-mul_pow : (d k : ℕ) → d ≤ d * 2 ^ k
le-mul_pow d k =
    let positive : 1 ≤ 2 ^ k = one-le-pow k 2 (omega arith) in
    let scaled : d * 1 ≤ d * 2 ^ k = mul-le-mul_left d positive in omega arith

mul_pow-suc : (d k : ℕ) → d * 2 ^ suc k ≡ d * 2 * 2 ^ k
mul_pow-suc d k = ap (λ x. d * x) (pow-succ' 2 k) ∙ sym (mul_assoc d 2 (2 ^ k))

-- The loop is a shift capped at the maximum.
double_loop-min :
    (rounds d : ℕ)
    → d ≤ lockout_max_delay
    → double_loop rounds d ≡ min lockout_max_delay (d * 2 ^ rounds)
unfolding double_loop
double_loop-min zero d h = ground arith
double_loop-min (suc rounds) d h = elim (Bool-cases (leb lockout_max_delay (d * 2))) [
  | inl reached ↦ ground (arith, le-mul_pow (d * 2) rounds, mul_pow-suc d rounds)
  | inr below ↦
      let h2 : d * 2 ≤ lockout_max_delay = ground arith in
      ground (arith, double_loop-min rounds (d * 2) h2, mul_pow-suc d rounds)
]

-- The lock after `attempts` wrong passwords, written out: none below the threshold, and then until
-- a minute shifted by the attempts over the threshold, and half an hour at most.
pub lockout_until-min :
    (now attempts : ℕ)
    → lockout_until now attempts ≡ (
        if ltb attempts lockout_threshold
        then none
        else some (now + min lockout_max_delay (minute * 2 ^ (attempts - lockout_threshold))))
unfolding lockout_until clamp_delay
lockout_until-min now attempts = elim (Bool-cases (ltb attempts lockout_threshold)) [
  | inl early ↦ ground arith
  | inr late ↦
      let k : ℕ = attempts - lockout_threshold in
      ground (
        arith,
        double_loop-min k lockout_base_delay (ground arith),
        le-mul_pow lockout_base_delay k,
      )
]
