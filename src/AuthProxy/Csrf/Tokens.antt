-- ===== src/AuthProxy/Csrf/Tokens.antt =====
-- What cmd/authproxy/csrf.go mints is valid until it expires.
use agentry.Base.{
  ℕ, ◌+◌, ◌<◌, ◌≡◌, refl, ap, ◌∙◌, false, Option, none, some, List, [], ◌∷◌, ◌++◌, arith,
  if◌then◌else◌, Text, ltb, str_eq_iff, str_eq_refl, is_empty, Option-cases, inl, inr, split_byte,
  split_byte-append, split_byte-single, decimal, parse_decimal, parse_decimal-decimal,
  decimal-Without, contains_byte, ◌==◌,
}
use agentry.Base.Int.{ℤ, pos, ltb_ℤ, int64_bound, format_int}
use agentry.AuthProxy.Request.{Packages}
use agentry.AuthProxy.Signed.{Works}
use agentry.AuthProxy.Csrf.{
  csrf_valid, csrf_expired, csrf_token_ttl, parse_int, csrf_sign, mint_csrf_token, validate_parts,
  validate_token,
}

parse_int-plain :
    (s : Text)
    → contains_byte s b'-' ≡ false
    → contains_byte s b'+' ≡ false
    → (n : ℕ) → parse_decimal s ≡ some n
    → parse_int s ≡ some (pos n)
unfolding parse_int contains_byte
parse_int-plain [] h k n e = absurd (unfold parse_decimal in ground arith)
parse_int-plain (c ∷ s) h k n e =
    let minus : (c == b'-') ≡ false = ground arith in
    let plus : (c == b'+') ≡ false = ground arith in rw (minus, plus, e) refl

parse_int-format : (n : ℕ) → n < int64_bound → parse_int (format_int (pos n)) ≡ some (pos n)
unfolding format_int
parse_int-format n h =
    parse_int-plain (decimal n) (decimal-Without b'-' n refl) (decimal-Without b'+' n refl) n
      (parse_decimal-decimal n h)

is_empty-middle : (s t : Text) (b : ℕ) → is_empty (s ++ (b ∷ t)) ≡ false
unfolding is_empty
is_empty-middle [] t b = refl
is_empty-middle (a ∷ s) t b = refl

split_three :
    (b : ℕ) (x y z : Text)
    → contains_byte x b ≡ false
    → contains_byte y b ≡ false
    → contains_byte z b ≡ false
    → split_byte b (x ++ (b ∷ (y ++ (b ∷ z)))) ≡ x ∷ y ∷ z ∷ []
split_three b x y z h k l =
    split_byte-append b x (y ++ (b ∷ z)) h
    ∙ ap (λ ps. x ∷ ps) (split_byte-append b y z k ∙ ap (λ ps. y ∷ ps) (split_byte-single b z l))

-- A token that is minted at `now` is valid under the same secret for the next half hour, and an
-- expired token afterwards.
pub validate_token-mint :
    (pk : Packages) (random : Option Text) (now later : ℕ) (secret tok : Text)
    → Works pk
    → now + csrf_token_ttl < int64_bound
    → mint_csrf_token pk random now secret ≡ some tok
    → validate_token pk later secret tok
      ≡ (if ltb (now + csrf_token_ttl) later then csrf_expired else csrf_valid)
unfolding mint_csrf_token validate_token validate_parts csrf_sign format_int
validate_token-mint pk none now later secret tok works l h = absurd (ground arith)
validate_token-mint pk (some nonce) now later secret tok works l h =
    let n : Text = pk.base64_encode nonce in
    let sig : Text = csrf_sign pk secret n (pos (now + csrf_token_ttl)) in
    let shape : tok ≡ n ++ (b'.' ∷ (decimal (now + csrf_token_ttl) ++ (b'.' ∷ sig))) =
      ground arith in
    let cut : split_byte b'.' tok ≡ n ∷ decimal (now + csrf_token_ttl) ∷ sig ∷ [] = rw shape (
      split_three b'.' n (decimal (now + csrf_token_ttl)) sig (works.encode_no_dot nonce)
        (decimal-Without b'.' (now + csrf_token_ttl) refl)
        (works.encode_no_dot
          (pk.hmac_sha256 secret (n ++ (b'|' ∷ decimal (now + csrf_token_ttl)))))) in
    let some_token : is_empty tok ≡ false =
      rw shape (is_empty-middle n (decimal (now + csrf_token_ttl) ++ (b'.' ∷ sig)) b'.') in
    let read : parse_int (decimal (now + csrf_token_ttl)) ≡ some (pos (now + csrf_token_ttl)) =
      parse_int-format (now + csrf_token_ttl) l in
    ground (arith, cut, some_token, read, str_eq_refl sig)

-- The token that a check accepts is three parts around dots: a nonce, an expiry that has not passed,
-- and exactly the signature of the two under the secret.
pub validate_token-valid :
    (pk : Packages) (now : ℕ) (secret tok : Text)
    → validate_token pk now secret tok ≡ csrf_valid
    → (n : Text) × (exp_str : Text) × (exp : ℤ) × (split_byte b'.' tok
        ≡ n ∷ exp_str ∷ csrf_sign pk secret n exp ∷ [])
      × (parse_int exp_str ≡ some exp)
      × (ltb_ℤ exp (pos now) ≡ false)
unfolding validate_token validate_parts
validate_token-valid pk now secret tok h = parts (split_byte b'.' tok) refl
  where
    parts :
        (ps : List Text)
        → split_byte b'.' tok ≡ ps
        → (n : Text) × (exp_str : Text) × (exp : ℤ) × (ps
            ≡ n ∷ exp_str ∷ csrf_sign pk secret n exp ∷ [])
          × (parse_int exp_str ≡ some exp)
          × (ltb_ℤ exp (pos now) ≡ false)
    parts [] e = absurd (ground arith)
    parts (a ∷ []) e = absurd (ground arith)
    parts (a ∷ b ∷ []) e = absurd (ground arith)
    parts (a ∷ b ∷ c ∷ d ∷ ps) e = absurd (ground arith)
    parts (n ∷ exp_str ∷ got_sig ∷ []) e = elim (Option-cases (parse_int exp_str)) [
      | inl unread ↦ absurd (ground arith)
      | inr (exp, read) ↦
          let same : got_sig ≡ csrf_sign pk secret n exp =
            ground (arith, str_eq_iff got_sig (csrf_sign pk secret n exp)) in
          (n, exp_str, exp, ap (λ s. n ∷ exp_str ∷ s ∷ []) same, read, ground arith)
    ]
