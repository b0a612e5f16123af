-- ===== src/AuthProxy/Csrf.antt =====
-- cmd/authproxy/csrf.go: form tokens that carry their own signature and expiry. A time is a Unix
-- second.
pub mod Tokens
use agentry.Base.{
  ℕ, ◌+◌, ◌*◌, ◌≡◌, Bool, true, false, Option, none, some, List, [], ◌∷◌, ◌++◌, arith,
  if◌then◌else◌, Text, str_eq, is_empty, ltb, split_byte, decimal, parse_decimal, parse_from, ◌==◌,
  not, zero, suc,
}
use agentry.Base.Int.{ℤ, pos, negsuc, ltb_ℤ, format_int}
use agentry.AuthProxy.Request.{Request, Packages}

-- The errors, and nil.
pub data CsrfCheck : Type 0 where
  csrf_valid : CsrfCheck
  csrf_malformed : CsrfCheck
  csrf_bad_sig : CsrfCheck
  csrf_expired : CsrfCheck
  csrf_missing : CsrfCheck

abbrev pub csrf_token_ttl : ℕ
csrf_token_ttl = 30 * 60

unfoldable pub parse_negative : Text → Option ℤ
parse_negative [] = none
parse_negative (c ∷ s) = elim (parse_from 0 (c ∷ s)) [
  | none ↦ none
  | some zero ↦ some (pos zero)
  | some (suc n) ↦ if ltb n 0x8000_0000_0000_0000 then some (negsuc n) else none
]

-- `strconv.ParseInt(s, 10, 64)`; out of range is an error as any other.
unfoldable pub parse_int : Text → Option ℤ
parse_int [] = none
parse_int (c ∷ s) =
    if c == b'-' then parse_negative s else elim (parse_decimal (if c == b'+' then s else c ∷ s)) [
      | none ↦ none
      | some n ↦ some (pos n)
    ]

unfoldable pub csrf_sign : Packages → Text → Text → ℤ → Text
csrf_sign pk secret nonce exp =
    pk.base64_encode (pk.hmac_sha256 secret (nonce ++ (b'|' ∷ format_int exp)))

-- The random bytes are an argument, `none` when reading them fails.
unfoldable pub mint_csrf_token : Packages → Option Text → ℕ → Text → Option Text
mint_csrf_token pk random now secret = elim random [
  | none ↦ none
  | some nonce ↦
      let n = pk.base64_encode nonce in
      let exp : ℤ = pos (now + csrf_token_ttl) in
      some (n ++ (b'.' ∷ (format_int exp ++ (b'.' ∷ csrf_sign pk secret n exp))))
]

unfoldable pub validate_parts : Packages → ℕ → Text → List Text → CsrfCheck
validate_parts pk now secret (n ∷ exp_str ∷ got_sig ∷ []) = elim (parse_int exp_str) [
  | none ↦ csrf_malformed
  | some exp ↦
      if not (str_eq got_sig (csrf_sign pk secret n exp))
      then csrf_bad_sig
      else if ltb_ℤ exp (pos now)
      then csrf_expired
      else csrf_valid
]
validate_parts pk now secret _ = csrf_malformed

unfoldable pub validate_token : Packages → ℕ → Text → Text → CsrfCheck
validate_token pk now secret tok =
    if is_empty tok then csrf_missing else validate_parts pk now secret (split_byte b'.' tok)

unfoldable pub validate_csrf : Packages → ℕ → Request → Text → CsrfCheck
validate_csrf pk now r secret = validate_token pk now secret r.form_csrf_token
