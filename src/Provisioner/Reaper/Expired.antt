-- ===== src/Provisioner/Reaper/Expired.antt =====
-- pkg/provisioner/reaper.go with pkg/provisioner/ttl.go: when a sweep takes a sandbox that was
-- created with a lifetime.
use agentry.Base.{
  leb, ℕ, ◌+◌, ◌*◌, ◌≤◌, ◌<◌, ◌≡◌, refl, Bool, List, [], ◌∷◌, ◌++◌, arith, if◌then◌else◌, inl, inr,
  Result-cases, Text, Result, ok,
}
use agentry.Base.Int.{ℤ, pos, int64_bound}
use agentry.Provisioner.Expiry.{
  second, is_expired, expires_at_from_ttl, parse_expires_at, is_expired-pos, end_of_years,
  IsRfc3339, parse_expires_at-expires_at_from_ttl,
}
use agentry.Provisioner.Backend.{SandboxInfo}
use agentry.Provisioner.Reaper.{expired_ids}

module _ (parse : Text → Result ℤ) where
  -- A sandbox of a list is taken alone, whatever the others are.
  expired_ids-append :
      (now : ℤ) (ss ts : List SandboxInfo)
      → expired_ids parse now (ss ++ ts) ≡ expired_ids parse now ss ++ expired_ids parse now ts
  unfolding expired_ids
  expired_ids-append now [] ts = refl
  expired_ids-append now (s ∷ ss) ts = elim (Result-cases (parse_expires_at parse s.expires_at)) [
    | inl (t, parsed) ↦ ground (arith, parsed, expired_ids-append now ss ts)
    | inr (e, failed) ↦ ground (arith, failed, expired_ids-append now ss ts)
  ]

  expired_ids-cons :
      (now : ℤ) (s : SandboxInfo) (ss : List SandboxInfo) {t : ℤ} {due : Bool}
      → parse_expires_at parse s.expires_at ≡ ok t
      → is_expired t now ≡ due
      → expired_ids parse now (s ∷ ss)
        ≡ (if due then s.sandbox_id ∷ expired_ids parse now ss else expired_ids parse now ss)
  unfolding expired_ids
  expired_ids-cons now s ss p d = rw (p, d, expired_ids) refl

module _ (format : ℤ → Text) (parse : Text → Result ℤ) (rfc : IsRfc3339 format parse) where
  -- A sandbox with a lifetime has a deadline, less than a second before the end of that lifetime, from
  -- which on a sweep takes it, and before which it does not, whatever the other sandboxes are. The end
  -- is in the range of an int64 and before the year 10000.
  pub expired_ids-expires_at_from_ttl :
      (created n now : ℕ) (before after : List SandboxInfo) (s : SandboxInfo)
      → 0 < n
      → n * second < int64_bound
      → created + n * second < end_of_years
      → s.expires_at ≡ expires_at_from_ttl format (pos created) (pos n)
      → (deadline : ℕ) × (deadline ≤ created + n * second)
        × (created + n * second < deadline + second)
        × (expired_ids parse (pos now) (before ++ s ∷ after)
            ≡ expired_ids parse (pos now) before
              ++ (if leb deadline now
                  then s.sandbox_id ∷ expired_ids parse (pos now) after
                  else expired_ids parse (pos now) after))
  expired_ids-expires_at_from_ttl created n now before after s h small early e =
      let (deadline, parsed, late, close, set) =
        parse_expires_at-expires_at_from_ttl format parse rfc created n h small early in
      let apart = expired_ids-append parse (pos now) before (s ∷ after) in
      let read : parse_expires_at parse s.expires_at ≡ ok (pos deadline) = rw e parsed in
      (
        deadline,
        late,
        close,
        rw apart (
            rw (expired_ids-cons parse (pos now) s after read (is_expired-pos deadline now set))
              refl),
      )
