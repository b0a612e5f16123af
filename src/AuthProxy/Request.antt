-- ===== src/AuthProxy/Request.antt =====
-- cmd/authproxy: what the handlers read of a request, and what they take from elsewhere. `none` is
-- a header, a cookie or a form field that is not there where that matters; else it is empty.
use agentry.Base.{ℕ, Bool, Option, Text, List}
use agentry.Base.Int.{ℤ}

pub record Request : Type 0 where
  pub method : Text
  pub path : Text
  pub host : Text
  pub remote_ip : Text
  pub tls : Bool
  pub url_scheme : Text
  pub forwarded_host : Text
  pub forwarded_proto : Text
  pub origin : Text
  pub referer : Text
  pub session_cookie : Option Text
  pub form_csrf_token : Text
  pub form_email : Text
  pub form_password : Text
  pub form_name : Text
  pub form_token : Text
  pub form_confirm : Text
  pub query_token : Text

pub record SessionPayload : Type 0 where
  pub uid : Text
  pub email : Text
  pub name : Text
  pub provider : Text
  pub exp : ℤ

-- The packages crypto/hmac, crypto/sha256, encoding/base64, encoding/json, bcrypt and net/url.
pub record Packages : Type 0 where
  pub hmac_sha256 : Text → Text → Text
  pub sha256_hex : Text → Text
  pub base64_encode : Text → Text
  pub base64_decode : Text → Option Text
  pub json_marshal : SessionPayload → Option Text
  pub json_unmarshal : Text → Option SessionPayload
  pub bcrypt_generate : Text → Option Text
  pub bcrypt_matches : Text → Text → Bool
  pub url_host : Text → Option Text
  pub runes : Text → List ℕ
