-- ===== src/AuthProxy/Tests.antt =====
-- Runs of cmd/authproxy at concrete inputs, and the instances of its theorems there.
pub mod Models
mod Signing
mod Accounts
use agentry.Base.{
  ℕ, ◌+◌, ◌≤◌, ◌<◌, ◌≡◌, refl, ◌↔◌, Bool, true, false, not, ◌||◌, Option, none, some, List, [], ◌∷◌,
  ◌++◌, Text, codes, str_eq, is_empty, lookup, insert, delete, length, contains_byte, to_lower,
  trim_space, split_byte, decimal,
}
use agentry.Base.Int.{ℤ, pos}
use agentry.AuthProxy.Lockout.{lockout_until, is_locked, lockout_until-min}
use agentry.AuthProxy.RateLimit.{RateLimiter, new_rate_limiter, prune, times_of, allow, collect}
use agentry.AuthProxy.RateLimit.Window.{attempts_in, admit}
use agentry.AuthProxy.RateLimit.Runs.{Attempt, answers, granted, granted_bound}

abbrev attempts : List Attempt
attempts = (1, codes "a") ∷ (2, codes "a") ∷ (3, codes "b") ∷ (4, codes "a") ∷ (12, codes "a") ∷ []

-- The window of ten nanoseconds holds two attempts of an address.
two_per_window : answers attempts (new_rate_limiter 2 10) ≡ true ∷ true ∷ true ∷ false ∷ true ∷ []
unfolding answers new_rate_limiter allow times_of prune collect lookup insert delete str_eq
two_per_window = refl

lockout_until-min_example : lockout_until 0 7 ≡ some 240_000_000_000
lockout_until-min_example = lockout_until-min 0 7
