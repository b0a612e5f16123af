-- ===== src/AuthProxy/RateLimit.antt =====
-- cmd/authproxy/ratelimit.go: the sliding window of attempts per client address. A time is a
-- nanosecond count, and a test against `now - window` is written `t + window`, so that nothing
-- stops at zero.
pub mod Window
pub mod Runs
use agentry.Base.{
  ℕ, zero, suc, ◌+◌, ◌≤◌, ◌<◌, ◌≡◌, refl, Bool, true, false, not, ◌&&◌, ◌||◌, Option, none, some,
  List, [], ◌∷◌, ◌++◌, arith, ltb, leb, ◌==◌, if◌then◌else◌, Bool-cases, inl, inr, Text, Map,
  lookup, insert, delete, str_eq, length,
}

pub record RateLimiter : Type 0 where
  pub hits : Map (List ℕ)
  pub max_hits : ℕ
  pub window : ℕ

unfoldable pub new_rate_limiter : ℕ → ℕ → RateLimiter
new_rate_limiter n w = record { hits = []; max_hits = n; window = w }

-- r.hits[key], with Go's nil slice for a missing key
unfoldable pub times_of : Text → Map (List ℕ) → List ℕ
times_of key hits = elim (lookup key hits) [ none ↦ [] | some ts ↦ ts ]

-- `t.After(now - window)`
abbrev pub is_recent : ℕ → ℕ → ℕ → Bool
is_recent window now t = ltb now (t + window)

unfoldable pub prune : ℕ → ℕ → List ℕ → List ℕ
prune window now [] = []
prune window now (t ∷ ts) =
    let rest = prune window now ts in if is_recent window now t then t ∷ rest else rest

unfoldable pub newest : List ℕ → Option ℕ
newest [] = none
newest (t ∷ []) = some t
newest (t ∷ u ∷ ts) = newest (u ∷ ts)

-- `len(ts) == 0 || ts[len(ts)-1].Before(now - window)`
unfoldable pub is_stale : ℕ → ℕ → List ℕ → Bool
is_stale window now ts = elim (newest ts) [ none ↦ true | some t ↦ ltb (t + window) now ]

-- The loop over a map that it deletes from: each key of the map, with its value at that moment.
unfoldable pub drop_stale : ℕ → ℕ → Map (List ℕ) → Map (List ℕ) → Map (List ℕ)
drop_stale window now [] hits = hits
drop_stale window now ((k, ts) ∷ entries) hits =
    let rest = drop_stale window now entries hits in
    if is_stale window now (times_of k rest) then delete k rest else rest

unfoldable pub collect : ℕ → ℕ → Map (List ℕ) → Map (List ℕ)
collect window now hits = if ltb 1024 (length hits) then drop_stale window now hits hits else hits

-- The answer, and the limiter afterwards.
unfoldable pub allow : ℕ → Text → RateLimiter → Bool × RateLimiter
allow now key r =
    let kept = prune r.window now (times_of key r.hits) in
    if r.max_hits == 0
    then (true, r)
    else if leb r.max_hits (length kept)
    then (false, record { hits = insert key kept r.hits; max_hits = r.max_hits; window = r.window })
    else (
      true,
      record {
        hits = collect r.window now (insert key (kept ++ (now ∷ [])) r.hits);
        max_hits = r.max_hits;
        window = r.window;
      },
    )
