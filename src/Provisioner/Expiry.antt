-- ===== src/Provisioner/Expiry.antt =====
-- pkg/provisioner/ttl.go: the deadline of a sandbox. A time is a number of nanoseconds since Go's
-- zero time, and `format` and `parse` are the package time's, for RFC 3339.
use agentry.Base.{
  ℕ, ◌∙◌, zero, suc, ◌+◌, ◌-◌, ◌*◌, ◌%◌, ◌≤◌, ◌<◌, ◌≡◌, Bool, true, false, not, Option, none, some,
  [], ◌++◌, arith, leb, if◌then◌else◌, Text, codes, is_empty, Map, insert, decimal, Result, ok, err,
}
use agentry.Base.Int.{
  word64, ℤ, pos, negsuc, pos_part, neg_part, leb_ℤ, ltb_ℤ, sub_ℕ, wrap64, wrap64-pos, int64_bound,
}

abbrev pub annotation_expires_at : Text
annotation_expires_at = codes "ad-sandbox.io/expires-at"

abbrev pub annotation_ttl_sec : Text
annotation_ttl_sec = codes "ad-sandbox.io/ttl-seconds"

abbrev pub second : ℕ
second = 1_000_000_000

-- `time.Duration(n) * time.Second`, an int64
unfoldable pub seconds : ℤ → ℤ
unfolding wrap64
seconds (pos n) = wrap64 (pos (n * second))
seconds (negsuc n) = wrap64 (negsuc (suc n * second - 1))

-- `t.Add(d)`
unfoldable pub add_duration : ℤ → ℤ → ℤ
add_duration t d = sub_ℕ (pos_part t + pos_part d) (neg_part t + neg_part d)

-- `t.IsZero()`
unfoldable pub is_zero_time : ℤ → Bool
is_zero_time (pos zero) = true
is_zero_time (pos (suc n)) = false
is_zero_time (negsuc n) = false

unfoldable pub is_expired : ℤ → ℤ → Bool
unfolding is_zero_time
is_expired expires_at now = if is_zero_time expires_at then false else not (ltb_ℤ now expires_at)

module _ (format : ℤ → Text) where
  -- No deadline is the empty text.
  unfoldable pub expires_at_from_ttl : ℤ → ℤ → Text
  expires_at_from_ttl now ttl_seconds =
      if leb_ℤ ttl_seconds (pos 0) then [] else format (add_duration now (seconds ttl_seconds))

module _ (parse : Text → Result ℤ) where
  unfoldable pub parse_expires_at : Text → Result ℤ
  parse_expires_at v = if is_empty v then ok (pos 0) else elim (parse v) [
    | ok t ↦ ok t
    | err e ↦ err (codes "invalid expires-at " ++ (v ++ (codes ": " ++ e)))
  ]

-- `fmt.Sprintf("%d", ttl)`, which is asked for positive numbers only
unfoldable pub format_ttl : ℤ → Text
format_ttl (pos n) = decimal n
format_ttl (negsuc n) = codes "-" ++ decimal (suc n)

module _ (format : ℤ → Text) where
  -- Go's nil map is none.
  unfoldable pub ttl_annotations : ℤ → ℤ → Option (Map Text)
  ttl_annotations now ttl_seconds =
      if leb_ℤ ttl_seconds (pos 0)
      then none
      else some (
          insert annotation_expires_at (expires_at_from_ttl format now ttl_seconds)
            (insert annotation_ttl_sec (format_ttl ttl_seconds) []))

-- Nanoseconds up to the end of the year 9999, which RFC 3339 can write.
abbrev pub end_of_years : ℕ
end_of_years = 315_537_897_600 * second

-- What the package time does with a time from its zero up to the year 9999: the fraction of a
-- second is cut off, and no text is empty.
pub record IsRfc3339 (format : ℤ → Text) (parse : Text → Result ℤ) : Type 0 where
  pub reads_back : (t : ℕ) → t < end_of_years → parse (format (pos t)) ≡ ok (pos (t - t % second))
  pub writes : (t : ℕ) → t < end_of_years → is_empty (format (pos t)) ≡ false

module _ (format : ℤ → Text) (parse : Text → Result ℤ) (rfc : IsRfc3339 format parse) where
  -- The deadline that is read back lies at most a second before `now` and the lifetime.
  pub parse_expires_at-expires_at_from_ttl :
      (now n : ℕ)
      → 0 < n
      → n * second < int64_bound
      → now + n * second < end_of_years
      → (deadline : ℕ) × (parse_expires_at parse (expires_at_from_ttl format (pos now) (pos n))
          ≡ ok (pos deadline))
        × (deadline ≤ now + n * second)
        × (now + n * second < deadline + second)
        × (0 < deadline)
  unfolding parse_expires_at expires_at_from_ttl seconds add_duration
  parse_expires_at-expires_at_from_ttl now n h small early =
      let t : ℕ = now + n * second in
      (
        t - t % second,
        rw (wrap64-pos (n * second) small)
            (ground (arith, h, rfc.writes t early, rfc.reads_back t early)),
        omega arith,
        omega arith,
        omega arith,
      )

-- A deadline that is set is over from its own time on.
pub is_expired-pos :
    (deadline now : ℕ) → 0 < deadline → is_expired (pos deadline) (pos now) ≡ leb deadline now
unfolding is_expired is_zero_time
is_expired-pos zero now h = absurd (omega arith)
is_expired-pos (suc deadline) now h = ground arith

-- From 2 ^ 63 nanoseconds on, a lifetime wraps round below zero.
seconds-overflow :
    (n : ℕ)
    → int64_bound ≤ n * second
    → n * second < word64
    → seconds (pos n) ≡ negsuc (word64 - 1 - n * second)
unfolding seconds wrap64
seconds-overflow n big small = ground (arith, big, small)

module _ (format : ℤ → Text) (parse : Text → Result ℤ) (rfc : IsRfc3339 format parse) where
  -- A lifetime of 292 years or more, up to 584 years, is over at once: the deadline of a sandbox
  -- created at `now` is in the past at `now` already.
  pub expires_at_from_ttl-overflow :
      (now n : ℕ)
      → int64_bound ≤ n * second
      → n * second < word64
      → word64 ≤ now
      → now < end_of_years
      → (deadline : ℤ) × (parse_expires_at parse (expires_at_from_ttl format (pos now) (pos n))
          ≡ ok deadline)
        × (is_expired deadline (pos now) ≡ true)
  unfolding parse_expires_at expires_at_from_ttl add_duration
  expires_at_from_ttl-overflow now n big small set early =
      let t : ℕ = now + n * second - word64 in
      (
        pos (t - t % second),
        rw (seconds-overflow n big small) (
            ground
              (arith, big, small, set, rfc.writes t (omega arith), rfc.reads_back t (omega arith))),
        is_expired-pos (t - t % second) now (omega arith) ∙ ground (arith, big, small, set),
      )
