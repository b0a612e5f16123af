-- ===== src/Provisioner/Lifecycle/Renewals.antt =====
-- pkg/provisioner/provisioner.go: a renewal without a lifetime uses the one that the pod keeps.
use agentry.Base.{
  ℕ, ◌+◌, ◌-◌, ◌*◌, ◌<◌, ◌≡◌, refl, true, false, none, some, [], ◌∷◌, arith, Bool-cases,
  Option-cases, inl, inr, Text, is_empty, Map, decimal, is_digit, parse_from, parse_decimal,
  parse_decimal-decimal, ok, ap, ◌∙◌,
}
use agentry.Base.Int.{ℤ, pos, int64_bound}
use agentry.Provisioner.{writes_json}
use agentry.Provisioner.Expiry.{
  annotation_ttl_sec, ttl_annotations, expires_at_from_ttl, format_ttl,
}
use agentry.Provisioner.Backend.{pod_name, value_of, expires_at-value_of}
use agentry.Provisioner.Sandboxes.{Config, Env}
use agentry.Provisioner.Lifecycle.{
  leading_digits, scan_unsigned, scan_signed, skip_blanks, parse_int64, effective_ttl, renew_with,
  handle_renew,
}

leading_digits-parse_from :
    (k : ℕ) (s : Text) {m : ℕ} → parse_from k s ≡ some m → leading_digits s ≡ s
unfolding parse_from leading_digits
leading_digits-parse_from k [] h = refl
leading_digits-parse_from k (c ∷ s) {m} h = elim (Bool-cases (is_digit c)) [
  | inl digit ↦
      let reads_back : parse_from (k * 10 + (c - 48)) s ≡ some m = ground (arith, digit, h) in
      let rest : leading_digits s ≡ s =
        leading_digits-parse_from (k * 10 + (c - 48)) s reads_back in
      ground (arith, digit, rest)
  | inr other ↦ absurd (ground (arith, other, h))
]

-- A numeral without a sign or a blank is read to its end.
parse_int64-parse_decimal :
    (s : Text) {n : ℕ} → parse_decimal s ≡ some n → parse_int64 s ≡ some (pos n)
unfolding parse_int64 parse_decimal skip_blanks scan_signed scan_unsigned
parse_int64-parse_decimal [] h = cc
parse_int64-parse_decimal (c ∷ s) {n} h = elim (Option-cases (parse_from 0 (c ∷ s))) [
  | inl bad ↦ absurd (ground (arith, bad, h))
  | inr (m, read) ↦
      let digits : leading_digits (c ∷ s) ≡ c ∷ s = leading_digits-parse_from 0 (c ∷ s) read in
      let digit : is_digit c ≡ true = first c s read in
      let unsigned : scan_unsigned (c ∷ s) ≡ some n = ap parse_decimal digits ∙ h in
      ground (arith, digit, unsigned)
]
  where
    first : (b : ℕ) (t : Text) {k : ℕ} → parse_from 0 (b ∷ t) ≡ some k → is_digit b ≡ true
    first b t e = unfold parse_from in ground (arith, e)

parse_decimal-nonempty : (s : Text) {n : ℕ} → parse_decimal s ≡ some n → is_empty s ≡ false
unfolding parse_decimal is_empty
parse_decimal-nonempty [] h = cc
parse_decimal-nonempty (c ∷ s) h = refl

module _ {World Quantity : Type 0} (env : Env World Quantity) (config : Config) where
  renew_with-set :
      (id : Text) (ttl now : ℤ) (w : World) {w' : World}
      → env.backend.set_pod_annotations
          (pod_name id)
          (elim (ttl_annotations env.format now ttl) as (λ _. Map Text) [ none ↦ [] | some a ↦ a ])
          w
        ≡ (none, w')
      → renew_with env config id ttl now w ≡ (
        writes_json 200 (record {
          sandbox_id = id;
          expires_at = expires_at_from_ttl env.format now ttl;
          ttl_seconds = ttl;
        }),
        w',
      )
  unfolding renew_with
  renew_with-set id ttl now w set =
      rw (ap (λ r. r.0) set, renew_with, expires_at-value_of env.format now ttl)
        (ap
          (λ r. (
            writes_json 200 (record {
              sandbox_id = id;
              expires_at = expires_at_from_ttl env.format now ttl;
              ttl_seconds = ttl;
            }),
            r.1,
          ))
          set)

  -- A pod that keeps its lifetime as ttlAnnotations wrote it is renewed by that lifetime: its new
  -- deadline is what a sandbox created now would get.
  pub handle_renew-stored :
      (id : Text) (n : ℕ) (now : ℤ) (w w' : World) {existing : Map Text}
      → 0 < n
      → n < int64_bound
      → env.backend.get_pod_annotations (pod_name id) w ≡ ok existing
      → value_of annotation_ttl_sec existing ≡ format_ttl (pos n)
      → env.backend.set_pod_annotations
          (pod_name id)
          (elim (ttl_annotations env.format now (pos n)) as (λ _. Map Text) [
            | none ↦ []
            | some a ↦ a
          ])
          w
        ≡ (none, w')
      → handle_renew env config id (ok (pos 0)) now w ≡ (
        writes_json 200 (record {
          sandbox_id = id;
          expires_at = expires_at_from_ttl env.format now (pos n);
          ttl_seconds = pos n;
        }),
        w',
      )
  unfolding handle_renew
  handle_renew-stored id n now w w' {existing} positive small found kept set =
      rw (found, effective) (renew_with-set id (pos n) now w set)
    where
      reads_back : parse_decimal (decimal n) ≡ some n
      reads_back = parse_decimal-decimal n small

      stored : value_of annotation_ttl_sec existing ≡ decimal n
      stored = unfold format_ttl in kept

      effective : effective_ttl env config (pos 0) existing ≡ writes_json 200 (pos n)
      effective =
          unfold effective_ttl in
          rw
            (
              stored,
              parse_decimal-nonempty (decimal n) reads_back,
              parse_int64-parse_decimal (decimal n) reads_back,
            )
            (ground (arith, positive))
