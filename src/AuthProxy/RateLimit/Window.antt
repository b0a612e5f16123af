-- ===== src/AuthProxy/RateLimit/Window.antt =====
-- The limiter of cmd/authproxy/ratelimit.go against the whole log of admitted attempts.
use mathlib.Core.List.{append-nil}
use agentry.Base.{
  sym, ap, subst, ◌∙◌, ℕ, ◌≤◌, ◌≡◌, refl, ◌⊎◌, Bool, true, false, List, [], ◌∷◌, ◌++◌, arith, ltb,
  leb, ◌==◌, if◌then◌else◌, Bool-cases, inl, inr, Text, Map, insert, str_eq, str_eq_iff, length,
  lookup-insert, lookup-delete, if_both,
}
use agentry.AuthProxy.RateLimit.{
  RateLimiter, times_of, is_recent, prune, newest, is_stale, drop_stale, collect, allow,
}

-- The admitted attempts of each key, oldest first: the specification keeps all of them.
abbrev pub AttemptLog : Type 0
AttemptLog = Text → List ℕ

abbrev pub record_attempt : ℕ → Text → AttemptLog → AttemptLog
record_attempt now key log k = if str_eq key k then log k ++ (now ∷ []) else log k

-- The attempts of a key in the window that ends at `now`.
unfoldable pub attempts_in : ℕ → ℕ → List ℕ → ℕ
attempts_in window now ts = length (prune window now ts)

-- An attempt is admitted when fewer than `n` of its key were in the window.
unfoldable pub admit : ℕ → ℕ → ℕ → Text → AttemptLog → Bool × AttemptLog
admit n window now key log =
    if n == 0
    then (true, log)
    else if leb n (attempts_in window now (log key))
    then (false, log)
    else (true, record_attempt now key log)

-- `ts` rises from `lo` to `hi`.
abbrev Rises : ℕ → List ℕ → ℕ → Type 0
Rises lo [] hi = lo ≤ hi
Rises lo (t ∷ ts) hi = (lo ≤ t) × Rises t ts hi

Rises-later :
    (lo : ℕ) (ts : List ℕ) (hi later : ℕ) → hi ≤ later → Rises lo ts hi → Rises lo ts later
Rises-later lo [] hi later p h = omega arith
Rises-later lo (t ∷ ts) hi later p h = (h.0, Rises-later t ts hi later p h.1)

Rises-lower :
    (lower lo : ℕ) (ts : List ℕ) (hi : ℕ) → lower ≤ lo → Rises lo ts hi → Rises lower ts hi
Rises-lower lower lo [] hi p h = omega arith
Rises-lower lower lo (t ∷ ts) hi p h = (omega (arith, h.0), h.1)

Rises-snoc : (lo : ℕ) (ts : List ℕ) (hi : ℕ) → Rises lo ts hi → Rises lo (ts ++ (hi ∷ [])) hi
Rises-snoc lo [] hi h = (h, omega arith)
Rises-snoc lo (t ∷ ts) hi h = (h.0, Rises-snoc t ts hi h.1)

module _ (window now : ℕ) where
  Rises-prune : (lo : ℕ) (ts : List ℕ) (hi : ℕ) → Rises lo ts hi → Rises lo (prune window now ts) hi
  unfolding prune
  Rises-prune lo [] hi h = h
  Rises-prune lo (t ∷ ts) hi h = elim (Bool-cases (is_recent window now t)) [
    | inl recent ↦ rw recent (h.0, Rises-prune t ts hi h.1)
    | inr old ↦ rw old (Rises-lower lo t (prune window now ts) hi h.0 (Rises-prune t ts hi h.1))
  ]

  pub prune-append :
      (xs ys : List ℕ) → prune window now (xs ++ ys) ≡ prune window now xs ++ prune window now ys
  unfolding prune
  prune-append [] ys = refl
  prune-append (x ∷ xs) ys = ground (arith, prune-append xs ys)

  -- Pruning at an earlier time first changes nothing.
  pub prune-prune :
      (before : ℕ) (ts : List ℕ)
      → before ≤ now
      → prune window now (prune window before ts) ≡ prune window now ts
  unfolding prune
  prune-prune before [] h = refl
  prune-prune before (t ∷ ts) h = ground (arith, prune-prune before ts h)

  pub prune-nil : prune window now [] ≡ []
  unfolding prune
  prune-nil = refl

  -- A key that the collection drops has no attempt in the window.
  prune-stale :
      (lo : ℕ) (ts : List ℕ) (hi : ℕ)
      → Rises lo ts hi
      → is_stale window now ts ≡ true
      → prune window now ts ≡ []
  unfolding is_stale newest prune
  prune-stale lo [] hi h s = refl
  prune-stale lo (t ∷ []) hi h s = ground arith
  prune-stale lo (t ∷ u ∷ ts) hi h s =
      let later : prune window now (u ∷ ts) ≡ [] = prune-stale t (u ∷ ts) hi h.1 s in
      ground (arith, h.1.0, later)

  times_of-drop_stale :
      (entries hits : Map (List ℕ)) (key : Text)
      → (times_of key (drop_stale window now entries hits) ≡ times_of key hits)
        ⊎ ((times_of key (drop_stale window now entries hits) ≡ [])
            × (is_stale window now (times_of key hits) ≡ true))
  unfolding drop_stale times_of
  times_of-drop_stale [] hits key = inl refl
  times_of-drop_stale ((k, ts) ∷ entries) hits key = ground (
    arith,
    times_of-drop_stale entries hits key,
    str_eq_iff k key,
    lookup-delete k key (drop_stale window now entries hits),
  )

-- The limiter `r` at the time `now` stands for the log.
pub record Refines (now : ℕ) (r : RateLimiter) (log : AttemptLog) : Type 0 where
  pub same_window :
      (key : Text) → prune r.window now (times_of key r.hits) ≡ prune r.window now (log key)
  pub rises : (key : Text) → Rises 0 (times_of key r.hits) now

pub Refines-later :
    {now later : ℕ} {r : RateLimiter} {log : AttemptLog}
    → now ≤ later
    → Refines now r log
    → Refines later r log
Refines-later {now} {later} {r} {log} p h = record {
  same_window = λ key.
      sym (prune-prune r.window later now (times_of key r.hits) p)
      ∙ ap (prune r.window later) (h.same_window key)
      ∙ prune-prune r.window later now (log key) p;
  rises = λ key. Rises-later 0 (times_of key r.hits) now later p (h.rises key);
}

times_of-insert :
    (key k : Text) (ts : List ℕ) (hits : Map (List ℕ))
    → times_of k (insert key ts hits) ≡ (if str_eq key k then ts else times_of k hits)
unfolding times_of
times_of-insert key k ts hits = ground (arith, lookup-insert key k ts hits)

abbrev stored : Text → List ℕ → RateLimiter → RateLimiter
stored key ts r = record { hits = insert key ts r.hits; max_hits = r.max_hits; window = r.window }

-- Storing the pruned list, and whatever `ys` appends at `now`.
Refines-insert :
    (now : ℕ) (key : Text) (r : RateLimiter) (log : AttemptLog) (ys : List ℕ) (next : AttemptLog)
    → Refines now r log
    → Rises 0 (prune r.window now (times_of key r.hits) ++ ys) now
    → ((k : Text) → next k ≡ (if str_eq key k then log k ++ ys else log k))
    → Refines now
        (record {
          hits = insert key (prune r.window now (times_of key r.hits) ++ ys) r.hits;
          max_hits = r.max_hits;
          window = r.window;
        })
        next
Refines-insert now key r log ys next h up e = record {
  same_window = λ k. ground (
    arith,
    times_of-insert key k (prune r.window now (times_of key r.hits) ++ ys) r.hits,
    e k,
    str_eq_iff key k,
    h.same_window key,
    h.same_window k,
    prune-append r.window now (prune r.window now (times_of key r.hits)) ys,
    prune-append r.window now (log k) ys,
    prune-prune r.window now now (times_of key r.hits) (omega arith),
  );
  rises = λ k.
      rw (times_of-insert key k (prune r.window now (times_of key r.hits) ++ ys) r.hits)
        (if_both (λ ts. Rises 0 ts now) (str_eq key k) up (h.rises k));
}

Refines-collect :
    (now : ℕ) (r : RateLimiter) (log : AttemptLog)
    → Refines now r log
    → Refines now
        (record { hits = collect r.window now r.hits; max_hits = r.max_hits; window = r.window })
        log
unfolding collect
Refines-collect now r log h = elim (Bool-cases (ltb 1024 (length r.hits))) [
  | inl large ↦ rw large (record {
    same_window = λ k. ground (
      arith,
      h.same_window k,
      times_of-drop_stale r.window now r.hits r.hits k,
      prune-stale r.window now 0 (times_of k r.hits) now (h.rises k),
      prune-nil r.window now,
    );
    rises = λ k. elim (times_of-drop_stale r.window now r.hits r.hits k) [
      | inl kept ↦ rw kept (h.rises k)
      | inr (gone, stale) ↦ rw gone (omega arith)
    ];
  })
  | inr small ↦ rw small h
]

-- The store of a pruned list, and of one with the attempt at its end.
Refines-refused :
    (now : ℕ) (key : Text) (r : RateLimiter) (log : AttemptLog)
    → Refines now r log
    → Refines now (stored key (prune r.window now (times_of key r.hits)) r) log
Refines-refused now key r log h =
    let kept : List ℕ = prune r.window now (times_of key r.hits) in
    subst (λ ts. Refines now (stored key ts r) log) (append-nil kept)
      (Refines-insert now key r log [] log h
        (rw (append-nil kept) (Rises-prune r.window now 0 (times_of key r.hits) now (h.rises key)))
        (λ k. ground (arith, append-nil (log k))))

Refines-admitted :
    (now : ℕ) (key : Text) (r : RateLimiter) (log : AttemptLog)
    → Refines now r log
    → Refines now
        (stored key (prune r.window now (times_of key r.hits) ++ (now ∷ [])) r)
        (record_attempt now key log)
Refines-admitted now key r log h =
    Refines-insert now key r log (now ∷ []) (record_attempt now key log) h
      (Rises-snoc 0 (prune r.window now (times_of key r.hits)) now
        (Rises-prune r.window now 0 (times_of key r.hits) now (h.rises key)))
      (λ k. refl)

-- One attempt: the limiter answers as the log does, and stands for the new log.
pub allow-admit :
    (now : ℕ) (key : Text) (r : RateLimiter) (log : AttemptLog)
    → Refines now r log
    → ((allow now key r).0 ≡ (admit r.max_hits r.window now key log).0)
      × Refines now (allow now key r).1 (admit r.max_hits r.window now key log).1
unfolding allow admit attempts_in
allow-admit now key r log h = elim (Bool-cases (r.max_hits == 0)) [
  | inl off ↦ rw off (refl, h)
  | inr on ↦
      let count : length (prune r.window now (times_of key r.hits))
          ≡ length (prune r.window now (log key)) =
        ap length (h.same_window key) in
      elim (Bool-cases (leb r.max_hits (length (prune r.window now (log key))))) [
        | inl full ↦ rw (on, count, full) (refl, Refines-refused now key r log h)
        | inr free ↦
            rw (on, count, free)
              (
                refl,
                Refines-collect now
                    (stored key (prune r.window now (times_of key r.hits) ++ (now ∷ [])) r)
                    (record_attempt now key log) (Refines-admitted now key r log h),
              )
      ]
]
