-- ===== src/AuthProxy/Tests/Signing.antt =====
-- Sessions, form tokens and origins of cmd/authproxy at concrete inputs.
use agentry.Base.{
  lookup, insert, delete, ◌≡◌, refl, true, false, some, [], ◌∷◌, ◌++◌, Text, codes, str_eq,
  is_empty, to_lower, decimal, digits, has_prefix, trim_space, split_byte, contains_byte, none,
}
use agentry.Base.Int.{pos, format_int}
use agentry.AuthProxy.Request.{Request, SessionPayload}
use agentry.AuthProxy.SameOrigin.{same_origin, validate_same_origin, check_origin_host, public_host}
use agentry.AuthProxy.Session.{
  seal_session, open_session, opened, Cookie, set_session_cookie, is_expired, session_max_age,
  request_is_https,
}
use agentry.AuthProxy.Session.Cookies.{open_session-seal}
use agentry.AuthProxy.Csrf.{mint_csrf_token, csrf_sign}
use agentry.AuthProxy.Proxy.{
  hdr_user, hdr_email, remove_hop_by_hop, delete_keys, connection_keys, named_keys, canonical_key,
  is_token, canonical_words, get_header, ProxyRequest, ProxyConfig, Forward, forwarded, forward,
  session_of, proxy_handler, sign_identity, set_forwarding_metadata, set_missing,
  inject_identity_headers, strip_identity_headers, is_https,
}
use agentry.AuthProxy.Proxy.Identity.{Delivers, proxy_handler-Delivers}
use agentry.AuthProxy.Tests.Models.{
  model, model-Works, write_payload, shift_up, alice_payload, secret, login_with, form_token,
}

abbrev request : Request
request = login_with (codes "x")

request_same_origin : validate_same_origin model request ≡ same_origin
unfolding validate_same_origin check_origin_host public_host is_empty str_eq to_lower has_prefix
request_same_origin = refl

-- The cookie that seals the payload.
abbrev alice_value : Text
alice_value =
    shift_up (write_payload alice_payload)
    ++ (b'.' ∷ shift_up (secret ++ shift_up (write_payload alice_payload)))

alice_sealed : seal_session model alice_payload secret ≡ some alice_value
unfolding seal_session is_empty
alice_sealed = refl

open_session-seal_example : open_session model 2000 alice_value secret ≡ opened alice_payload
unfolding is_expired agentry.Base.utf8_from
open_session-seal_example =
    open_session-seal model model-Works 2000 alice_payload secret alice_value refl alice_sealed

abbrev fresh_payload : SessionPayload
fresh_payload = record alice_payload { exp = pos 2_593_000 }

abbrev alice_cookie : Cookie
alice_cookie = record {
  value =
      shift_up (write_payload fresh_payload)
      ++ (b'.' ∷ shift_up (secret ++ shift_up (write_payload fresh_payload)));
  secure = true;
  max_age = pos session_max_age;
}

alice_cookie_set : set_session_cookie model 1000 request alice_payload secret ≡ some alice_cookie
unfolding set_session_cookie seal_session is_empty request_is_https str_eq to_lower
alice_cookie_set = refl

form_token_minted : mint_csrf_token model (some (codes "n")) 900 secret ≡ some form_token
unfolding mint_csrf_token csrf_sign format_int decimal digits
form_token_minted = refl

-- A client that claims to be root, with the cookie of Al, and names one header of the identity in
-- its Connection header.
abbrev spoofed : ProxyRequest
spoofed = record {
  headers = (hdr_user, codes "root") ∷ (codes "Connection", codes "close, x-forwarded-email") ∷ [];
  session_cookie = some alice_value;
  path = codes "/";
  host = codes "app.agentry.live";
  remote_ip = codes "10.0.0.1";
  tls = false;
  url_scheme = [];
}

abbrev gate : ProxyConfig
gate = record { passthrough = false; identity_secret = codes "root"; secret = secret }

abbrev forwarded_spoof : Forward
forwarded_spoof = record {
  headers = remove_hop_by_hop (
      set_forwarding_metadata spoofed (
        inject_identity_headers model alice_payload (codes "root")
          (strip_identity_headers spoofed.headers)));
  host = codes "app.agentry.live";
  path = codes "/";
}

spoof_forwarded : proxy_handler model gate 2000 spoofed ≡ forwarded forwarded_spoof
unfolding proxy_handler forward session_of is_empty get_header lookup insert delete str_eq
    set_forwarding_metadata set_missing inject_identity_headers strip_identity_headers is_https
spoof_forwarded = rw open_session-seal_example refl

proxy_handler-Delivers_example :
    (p : SessionPayload) × (c : Text) × (some alice_value ≡ some c)
    × (open_session model 2000 c secret ≡ opened p)
    × Delivers forwarded_spoof.headers spoofed.headers p (sign_identity model p (codes "root"))
unfolding is_empty
proxy_handler-Delivers_example =
    proxy_handler-Delivers model gate 2000 spoofed forwarded_spoof refl spoof_forwarded

abbrev open_gate : ProxyConfig
open_gate = record { passthrough = true; identity_secret = []; secret = [] }

abbrev bare : Forward
bare = record { headers = []; host = codes "app.agentry.live"; path = codes "/" }

passthrough_forwarded : proxy_handler model open_gate 2000 spoofed ≡ forwarded bare
unfolding proxy_handler forward is_empty get_header lookup delete str_eq strip_identity_headers
    remove_hop_by_hop delete_keys connection_keys named_keys canonical_key is_token canonical_words
    trim_space split_byte contains_byte
passthrough_forwarded = refl

-- The app sees who the user is, and not the header that the Connection header names.
email_lost :
    (lookup hdr_user forwarded_spoof.headers ≡ some alice_payload.uid)
    × (lookup hdr_email forwarded_spoof.headers ≡ none)
unfolding is_empty get_header lookup insert delete str_eq set_forwarding_metadata set_missing
    inject_identity_headers strip_identity_headers is_https remove_hop_by_hop delete_keys
    connection_keys named_keys canonical_key is_token canonical_words trim_space split_byte
    contains_byte
email_lost = (refl, refl)
