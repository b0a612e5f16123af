-- ===== src/AuthProxy/Session.antt =====
-- cmd/authproxy/session.go: the sealed session cookie. The key of the packages' HMAC is the secret;
-- a time is a Unix second.
pub mod Cookies
use agentry.Base.{
  not, [], ◌||◌, ℕ, ◌+◌, ◌*◌, ◌≡◌, Bool, true, false, ◌&&◌, Option, none, some, ◌∷◌, ◌++◌, arith,
  if◌then◌else◌, Text, codes, str_eq, is_empty, to_lower,
}
use agentry.Base.Int.{ℤ, pos, negsuc, ltb_ℤ}
use agentry.AuthProxy.Request.{Request, SessionPayload, Packages}
use agentry.AuthProxy.Signed.{split_once}

pub data SessionError : Type 0 where
  session_expired : SessionError
  session_tampered : SessionError
  session_malformed : SessionError
  session_missing : SessionError

pub data Opened : Type 0 where
  opened : SessionPayload → Opened
  unopened : SessionError → Opened

abbrev pub session_max_age : ℕ
session_max_age = 30 * 24 * 3600

unfoldable pub seal_session : Packages → SessionPayload → Text → Option Text
seal_session pk p secret = if is_empty secret then none else elim (pk.json_marshal p) [
  | none ↦ none
  | some raw ↦
      let body = pk.base64_encode raw in
      let sig = pk.base64_encode (pk.hmac_sha256 secret body) in some (body ++ (b'.' ∷ sig))
]

-- `p.Exp > 0 && time.Now().Unix() > p.Exp`
unfoldable pub is_expired : ℕ → SessionPayload → Bool
is_expired now p = ltb_ℤ (pos 0) p.exp && ltb_ℤ p.exp (pos now)

unfoldable pub check_expiry : ℕ → SessionPayload → Opened
check_expiry now p = if is_expired now p then unopened session_expired else opened p

-- The part behind the check of the signature.
unfoldable pub open_body : Packages → ℕ → Text → Opened
open_body pk now body = elim (pk.base64_decode body) [
  | none ↦ unopened session_malformed
  | some raw ↦ elim (pk.json_unmarshal raw) [
    | none ↦ unopened session_malformed
    | some p ↦ check_expiry now p
  ]
]

unfoldable pub open_signed : Packages → ℕ → Text → Text → Text → Opened
open_signed pk now body sig secret = elim (pk.base64_decode sig) [
  | none ↦ unopened session_malformed
  | some got_sig ↦
      if str_eq got_sig (pk.hmac_sha256 secret body)
      then open_body pk now body
      else unopened session_tampered
]

unfoldable pub open_session : Packages → ℕ → Text → Text → Opened
open_session pk now cookie_value secret =
    if is_empty cookie_value
    then unopened session_missing
    else elim (split_once b'.' cookie_value) [
      | none ↦ unopened session_malformed
      | some (body, sig) ↦ open_signed pk now body sig secret
    ]

unfoldable pub request_is_https : Request → Bool
request_is_https r =
    if not (is_empty r.forwarded_proto)
    then str_eq (to_lower r.forwarded_proto) (codes "https")
    else r.tls || str_eq r.url_scheme (codes "https")

-- The Set-Cookie header; path, HttpOnly and SameSite are the same in both functions.
pub record Cookie : Type 0 where
  pub value : Text
  pub secure : Bool
  pub max_age : ℤ

unfoldable pub set_session_cookie : Packages → ℕ → Request → SessionPayload → Text → Option Cookie
set_session_cookie pk now r p secret =
    let p2 : SessionPayload = record {
      uid = p.uid;
      email = p.email;
      name = p.name;
      provider = p.provider;
      exp = pos (now + session_max_age);
    } in
    elim (seal_session pk p2 secret) [
      | none ↦ none
      | some val ↦
          some (record { value = val; secure = request_is_https r; max_age = pos session_max_age })
    ]

unfoldable pub clear_session_cookie : Request → Cookie
clear_session_cookie r = record { value = []; secure = request_is_https r; max_age = negsuc 0 }

-- readSession of handlers.go: the cookie's payload, or nil.
unfoldable pub read_session : Packages → ℕ → Request → Text → Option SessionPayload
read_session pk now r secret = elim r.session_cookie [
  | none ↦ none
  | some c ↦ elim (open_session pk now c secret) [ opened p ↦ some p | unopened e ↦ none ]
]
