-- ===== src/AuthProxy/Session/Cookies.antt =====
-- What cmd/authproxy/session.go seals is what it opens, and what it opens was signed.
use agentry.Base.{
  [], true, ℕ, ◌+◌, ◌≡◌, refl, false, some, ◌∷◌, ◌++◌, arith, if◌then◌else◌, Text, str_eq_iff,
  str_eq_refl, is_empty, Option-cases, inl, inr, ltb,
}
use agentry.Base.Int.{pos}
use agentry.AuthProxy.Request.{Request, SessionPayload, Packages}
use agentry.AuthProxy.Signed.{split_once, split_once-append, split_once-inv, Works, is_utf8}
use agentry.AuthProxy.Session.{
  session_expired, opened, unopened, session_max_age, seal_session, is_expired, check_expiry,
  open_body, open_signed, open_session, Cookie, set_session_cookie,
}

is_empty-middle : (s t : Text) (b : ℕ) → is_empty (s ++ (b ∷ t)) ≡ false
unfolding is_empty
is_empty-middle [] t b = refl
is_empty-middle (a ∷ s) t b = refl

sealed_secret_of :
    (pk : Packages) (p : SessionPayload) (secret value : Text)
    → seal_session pk p secret ≡ some value
    → is_empty secret ≡ false
unfolding seal_session
sealed_secret_of pk p secret value h = ground arith

module _ (pk : Packages) (works : Works pk) where
  -- A sealed payload whose texts are UTF-8 opens, under the same secret, to itself until it expires,
  -- and then as an expired session.
  pub open_session-seal :
      (now : ℕ) (p : SessionPayload) (secret value : Text)
      → is_utf8 p ≡ true
      → seal_session pk p secret ≡ some value
      → open_session pk now value secret
        ≡ (if is_expired now p then unopened session_expired else opened p)
  unfolding seal_session open_session open_signed open_body check_expiry
  open_session-seal now p secret value valid h = elim (Option-cases (pk.json_marshal p)) [
    | inl failed ↦ absurd (ground arith)
    | inr (raw, marshalled) ↦
        let body : Text = pk.base64_encode raw in
        let sig : Text = pk.base64_encode (pk.hmac_sha256 secret body) in
        let shape : value ≡ body ++ (b'.' ∷ sig) = ground arith in
        rw shape (
          ground (
            arith,
            is_empty-middle body sig b'.',
            split_once-append b'.' body sig (works.encode_no_dot raw),
            works.decode-encode raw,
            works.decode-encode (pk.hmac_sha256 secret body),
            works.unmarshal-marshal p raw valid marshalled,
            str_eq_refl (pk.hmac_sha256 secret body),
          ))
  ]

  -- A cookie that is set at `now`, for texts that are UTF-8, opens to the identity that it was made for, with an expiry of
  -- thirty days after `now`, whatever expiry it was made with, until then, and as an expired session
  -- afterwards; nothing is set under an empty secret.
  pub set_session_cookie-lifetime :
      (now later : ℕ) (r : Request) (p : SessionPayload) (secret : Text) (c : Cookie)
      → is_utf8 p ≡ true
      → set_session_cookie pk now r p secret ≡ some c
      → (is_empty secret ≡ false)
        × (open_session pk later c.value secret ≡ (
            if ltb (now + session_max_age) later
            then unopened session_expired
            else opened (record {
              uid = p.uid;
              email = p.email;
              name = p.name;
              provider = p.provider;
              exp = pos (now + session_max_age);
            })))
  unfolding set_session_cookie is_expired
  set_session_cookie-lifetime now later r p secret c valid h =
      let p2 : SessionPayload = record {
        uid = p.uid;
        email = p.email;
        name = p.name;
        provider = p.provider;
        exp = pos (now + session_max_age);
      } in
      elim (Option-cases (seal_session pk p2 secret)) [
        | inl failed ↦ absurd (ground arith)
        | inr (value, sealed) ↦
            let same : c.value ≡ value = ground arith in
            (
              sealed_secret_of pk p2 secret value sealed,
              rw same (ground (arith, open_session-seal later p2 secret value valid sealed)),
            )
      ]

-- Whatever opens is a body and a signature around a dot, such that the signature decodes to the
-- HMAC of the body under the secret, the body decodes to the payload, and the payload has not
-- expired.
pub record IsSigned (pk : Packages) (now : ℕ) (value secret : Text) (p : SessionPayload)
    : Type 0 where
  pub body : Text
  pub sig : Text
  pub raw : Text
  pub value_eq : value ≡ body ++ (b'.' ∷ sig)
  pub sig_eq : pk.base64_decode sig ≡ some (pk.hmac_sha256 secret body)
  pub body_eq : pk.base64_decode body ≡ some raw
  pub raw_eq : pk.json_unmarshal raw ≡ some p
  pub current : is_expired now p ≡ false

pub open_session-IsSigned :
    (pk : Packages) (now : ℕ) (value secret : Text) (p : SessionPayload)
    → open_session pk now value secret ≡ opened p
    → IsSigned pk now value secret p
unfolding open_session open_signed open_body check_expiry
open_session-IsSigned pk now value secret p h = elim (Option-cases (split_once b'.' value)) [
  | inl undotted ↦ absurd (ground arith)
  | inr ((body, sig), cut) ↦ elim (Option-cases (pk.base64_decode sig)) [
    | inl garbled ↦ absurd (ground arith)
    | inr (got_sig, decoded) ↦ elim (Option-cases (pk.base64_decode body)) [
      | inl garbled ↦ absurd (ground arith)
      | inr (raw, body_decoded) ↦ elim (Option-cases (pk.json_unmarshal raw)) [
        | inl unread ↦ absurd (ground arith)
        | inr (q, read) ↦ record {
          body = body;
          sig = sig;
          raw = raw;
          value_eq = split_once-inv b'.' value body sig cut;
          sig_eq = ground (arith, str_eq_iff got_sig (pk.hmac_sha256 secret body));
          body_eq = body_decoded;
          raw_eq = ground arith;
          current = ground arith;
        }
      ]
    ]
  ]
]
