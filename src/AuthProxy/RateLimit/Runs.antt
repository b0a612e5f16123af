-- ===== src/AuthProxy/RateLimit/Runs.antt =====
-- Whole runs of the limiter of cmd/authproxy/ratelimit.go, at times that do not go back.
use mathlib.Core.List.{append-nil, append_assoc}
use native.Mathlib.Nat.{le_trans}
use agentry.Base.{
  ℕ, ◌≤◌, ◌<◌, ◌≡◌, refl, Bool, List, [], ◌∷◌, ◌++◌, arith, ◌&&◌, if◌then◌else◌, Text, lookup,
  str_eq, str_eq_iff, length, length-append,
}
use agentry.AuthProxy.RateLimit.{RateLimiter, new_rate_limiter, prune, times_of, allow}
use agentry.AuthProxy.RateLimit.Window.{
  AttemptLog, attempts_in, admit, Refines, Refines-later, allow-admit, prune-prune, prune-append,
}

-- An attempt: when, and from which address.
abbrev pub Attempt : Type 0
Attempt = ℕ × Text

-- The times do not go back, between `start` and `stop`.
abbrev pub Clocked : ℕ → List Attempt → ℕ → Type 0
Clocked start [] stop = start ≤ stop
Clocked start ((t, key) ∷ attempts) stop = (start ≤ t) × Clocked t attempts stop

-- What the limiter answers to a sequence of attempts.
unfoldable pub answers : List Attempt → RateLimiter → List Bool
answers [] r = []
answers ((t, key) ∷ attempts) r = (allow t key r).0 ∷ answers attempts (allow t key r).1

-- What the log of admitted attempts answers.
unfoldable pub admissions : ℕ → ℕ → List Attempt → AttemptLog → List Bool
admissions n window [] log = []
admissions n window ((t, key) ∷ attempts) log =
    (admit n window t key log).0 ∷ admissions n window attempts (admit n window t key log).1

-- The times at which the limiter admitted `key`.
unfoldable pub granted : Text → List Attempt → RateLimiter → List ℕ
granted key [] r = []
granted key ((t, k) ∷ attempts) r =
    let rest = granted key attempts (allow t k r).1 in
    if (allow t k r).0 && str_eq k key then t ∷ rest else rest

allow-max : (t : ℕ) (key : Text) (r : RateLimiter) → (allow t key r).1.max_hits ≡ r.max_hits
unfolding allow
allow-max t key r = ground arith

allow-window : (t : ℕ) (key : Text) (r : RateLimiter) → (allow t key r).1.window ≡ r.window
unfolding allow
allow-window t key r = ground arith

length-prune : (window now : ℕ) (ts : List ℕ) → length (prune window now ts) ≤ length ts
unfolding prune
length-prune window now [] = omega arith
length-prune window now (t ∷ ts) = ground (arith, length-prune window now ts)

-- A window that ends later has no more of the same attempts.
attempts_in-later :
    (window now later : ℕ) (ts : List ℕ)
    → now ≤ later
    → attempts_in window later ts ≤ attempts_in window now ts
unfolding attempts_in
attempts_in-later window now later ts h =
    let same = prune-prune window later now ts h in
    let bound = length-prune window later (prune window now ts) in ground (arith, same, bound)

-- No window that ends at `now` has more than `n` attempts of a key.
abbrev Bounded : ℕ → ℕ → ℕ → AttemptLog → Type 0
Bounded n window now log = (key : Text) → attempts_in window now (log key) ≤ n

admit-Bounded :
    (n window now : ℕ) (key : Text) (log : AttemptLog)
    → Bounded n window now log
    → 0 < n
    → Bounded n window now (admit n window now key log).1
unfolding admit attempts_in prune
admit-Bounded n window now key log h p k = ground (
  arith,
  h k,
  str_eq_iff key k,
  prune-append window now (log k) (now ∷ []),
  length-append (prune window now (log k)) (prune window now (now ∷ [])),
)

admit-log :
    (n window now : ℕ) (k : Text) (log : AttemptLog) (key : Text)
    → 0 < n
    → (admit n window now k log).1 key
      ≡ log key ++ (if (admit n window now k log).0 && str_eq k key then now ∷ [] else [])
unfolding admit
admit-log n window now k log key p = ground (arith, append-nil (log key))

-- Behind the attempts of the log, those that the limiter grants stay within the bound.
granted-Bounded :
    (attempts : List Attempt) (now stop : ℕ) (r : RateLimiter) (log : AttemptLog) (key : Text)
    → Clocked now attempts stop
    → Refines now r log
    → 0 < r.max_hits
    → Bounded r.max_hits r.window now log
    → attempts_in r.window stop (log key ++ granted key attempts r) ≤ r.max_hits
unfolding granted
granted-Bounded [] now stop r log key c h p b =
    rw (append-nil (log key)) (le_trans (attempts_in-later r.window now stop (log key) c) (b key))
granted-Bounded ((t, k) ∷ attempts) now stop r log key c h p b =
    let step = allow-admit t k r log (Refines-later c.0 h) in
    let next : AttemptLog = (admit r.max_hits r.window t k log).1 in
    let later : Bounded r.max_hits r.window t log =
      λ j. le_trans (attempts_in-later r.window now t (log j) c.0) (b j) in
    let after : Bounded (allow t k r).1.max_hits (allow t k r).1.window t next =
      rw (allow-max t k r, allow-window t k r)
        (admit-Bounded r.max_hits r.window t k log later p) in
    let ih =
      granted-Bounded attempts t stop (allow t k r).1 next key c.1 step.1 (rw (allow-max t k r) p)
        after in
    ground (
      arith,
      ih,
      allow-max t k r,
      allow-window t k r,
      step.0,
      admit-log r.max_hits r.window t k log key p,
      append_assoc (log key) (t ∷ []) (granted key attempts (allow t k r).1),
      append-nil (log key),
    )

module _ (n window start stop : ℕ) (attempts : List Attempt) (c : Clocked start attempts stop) where
  new-Refines : Refines start (new_rate_limiter n window) (λ k. [])
  unfolding new_rate_limiter times_of lookup
  new-Refines = record { same_window = λ key. refl; rises = λ key. omega arith }

  -- With a limit that is not zero, and at times that do not go back, a fresh limiter grants an
  -- address at most as many attempts as the limit in the window that ends at any time `stop`
  -- behind the run.
  pub granted_bound :
      (key : Text)
      → 0 < n
      → attempts_in window stop (granted key attempts (new_rate_limiter n window)) ≤ n
  unfolding new_rate_limiter attempts_in prune
  granted_bound key p =
      granted-Bounded attempts start stop (new_rate_limiter n window) (λ k. []) key c new-Refines p
        (λ k. omega arith)
