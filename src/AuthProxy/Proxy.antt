-- ===== src/AuthProxy/Proxy.antt =====
-- cmd/authproxy/proxy.go: the gate before the app. Headers are a map by canonical name, each with
-- one value. Of the reverse proxy behind the gate, which is that of Go's library, the removal of the
-- hop-by-hop headers is modelled; the headers that it adds itself (X-Forwarded-For, Te, Upgrade) are
-- not.
pub mod Hops
pub mod Identity
use agentry.Base.{
  has_suffix, contains_text, ℕ, ◌/◌, ◌%◌, ◌+◌, Bool, true, false, not, ◌&&◌, ◌||◌, Option, none,
  some, List, [], ◌∷◌, ◌++◌, if◌then◌else◌, ltb, Text, codes, str_eq, to_lower, is_empty,
  has_prefix, Map, lookup, insert, delete, length, drop, ◌-◌, leb, ◌==◌, contains_byte, lower_byte,
  trim_space, split_byte,
}
use agentry.AuthProxy.Request.{Request, SessionPayload, Packages}
use agentry.AuthProxy.Session.{Opened, opened, unopened, open_session, request_is_https}

abbrev pub hdr_user : Text
hdr_user = codes "X-Forwarded-User"

abbrev pub hdr_email : Text
hdr_email = codes "X-Forwarded-Email"

abbrev pub hdr_name : Text
hdr_name = codes "X-Forwarded-Name"

abbrev pub hdr_provider : Text
hdr_provider = codes "X-Forwarded-Provider"

abbrev pub hdr_sig : Text
hdr_sig = codes "X-Forwarded-Sig"

-- `Header.Get`
unfoldable pub get_header : Text → Map Text → Text
get_header k h = elim (lookup k h) [ none ↦ [] | some v ↦ v ]

pub record ProxyRequest : Type 0 where
  pub headers : Map Text
  pub session_cookie : Option Text
  pub path : Text
  pub host : Text
  pub remote_ip : Text
  pub tls : Bool
  pub url_scheme : Text

pub record ProxyConfig : Type 0 where
  pub passthrough : Bool
  pub identity_secret : Text
  pub secret : Text

unfoldable pub strip_identity_headers : Map Text → Map Text
strip_identity_headers h =
    delete hdr_sig (delete hdr_provider (delete hdr_name (delete hdr_email (delete hdr_user h))))

abbrev pub hex_digit : ℕ → ℕ
hex_digit d = if ltb d 10 then d + 48 else d + 87

unfoldable pub hex_encode : Text → Text
hex_encode [] = []
hex_encode (b ∷ s) = hex_digit (b / 16) ∷ hex_digit (b % 16) ∷ hex_encode s

unfoldable pub sign_identity : Packages → SessionPayload → Text → Text
sign_identity pk p secret =
    hex_encode (pk.hmac_sha256 secret (p.uid ++ (b'|' ∷ (p.email ++ (b'|' ∷ p.provider)))))

unfoldable pub inject_identity_headers : Packages → SessionPayload → Text → Map Text → Map Text
inject_identity_headers pk p secret h = insert hdr_sig (sign_identity pk p secret) (
    insert hdr_provider p.provider
      (insert hdr_name p.name (insert hdr_email p.email (insert hdr_user p.uid h))))

-- The part of a request that `requestIsHTTPS` reads.
unfoldable pub is_https : ProxyRequest → Map Text → Bool
is_https r h =
    if not (is_empty (get_header (codes "X-Forwarded-Proto") h))
    then str_eq (to_lower (get_header (codes "X-Forwarded-Proto") h)) (codes "https")
    else r.tls || str_eq r.url_scheme (codes "https")

-- `if r.Header.Get(k) == "" { r.Header.Set(k, v) }`
unfoldable pub set_missing : Text → Text → Map Text → Map Text
set_missing k v h = if is_empty (get_header k h) then insert k v h else h

unfoldable pub set_forwarding_metadata : ProxyRequest → Map Text → Map Text
set_forwarding_metadata r h =
    let h1 = set_missing (codes "X-Forwarded-Host") r.host h in
    let proto = if is_https r h1 then codes "https" else codes "http" in
    let h2 = set_missing (codes "X-Forwarded-Proto") proto h1 in
    if is_empty r.remote_ip then h2 else set_missing (codes "X-Forwarded-For") r.remote_ip h2

unfoldable pub is_xhr : Map Text → Bool
is_xhr h =
    str_eq (get_header (codes "X-Requested-With") h) (codes "XMLHttpRequest")
    || (contains_text (get_header (codes "Accept") h) (codes "application/json")
        && not (contains_text (get_header (codes "Accept") h) (codes "text/html")))

unfoldable pub is_browser_asset : Text → Bool
is_browser_asset path =
    str_eq path (codes "/favicon.ico")
    || str_eq path (codes "/robots.txt")
    || str_eq path (codes "/manifest.json")
    || str_eq path (codes "/site.webmanifest")
    || str_eq path (codes "/apple-touch-icon.png")
    || str_eq path (codes "/apple-touch-icon-precomposed.png")
    || has_suffix path (codes ".ico")
    || has_suffix path (codes ".png")
    || has_suffix path (codes ".svg")
    || has_suffix path (codes ".webmanifest")
    || has_suffix path (codes ".map")

-- What the app gets: the headers, and the host of the browser where the request names it.
pub record Forward : Type 0 where
  pub headers : Map Text
  pub host : Text
  pub path : Text

pub data ProxyReply : Type 0 where
  forwarded : Forward → ProxyReply
  unauthorized : ProxyReply
  asset_not_found : ProxyReply
  to_login : ProxyReply

-- `textproto.CanonicalMIMEHeaderKey`: a name with a byte that no token has is left as it is.
abbrev is_token_byte : ℕ → Bool
is_token_byte c =
    (leb b'a' c && leb c b'z')
    || (leb b'A' c && leb c b'Z')
    || (leb b'0' c && leb c b'9')
    || contains_byte (codes "!#$%&'*+-.^_`|~") c

unfoldable pub is_token : Text → Bool
is_token [] = true
is_token (c ∷ s) = is_token_byte c && is_token s

abbrev upper_byte : ℕ → ℕ
upper_byte c = if leb b'a' c && leb c b'z' then c - 32 else c

-- `upper` says whether the next byte starts a word.
unfoldable pub canonical_words : Bool → Text → Text
canonical_words upper [] = []
canonical_words upper (c ∷ s) =
    (if upper then upper_byte c else lower_byte c) ∷ canonical_words (c == b'-') s

unfoldable pub canonical_key : Text → Text
canonical_key s = if is_token s then canonical_words true s else s

-- The headers that the client's Connection header names.
unfoldable pub named_keys : List Text → List Text
named_keys [] = []
named_keys (p ∷ ps) =
    let rest = named_keys ps in
    if is_empty (trim_space p) then rest else canonical_key (trim_space p) ∷ rest

unfoldable pub connection_keys : Map Text → List Text
connection_keys h = elim (lookup (codes "Connection") h) [
  | none ↦ []
  | some v ↦ named_keys (split_byte b',' v)
]

abbrev pub hop_headers : List Text
hop_headers =
    codes "Connection"
    ∷ codes "Proxy-Connection"
    ∷ codes "Keep-Alive"
    ∷ codes "Proxy-Authenticate"
    ∷ codes "Proxy-Authorization"
    ∷ codes "Te"
    ∷ codes "Trailer"
    ∷ codes "Transfer-Encoding"
    ∷ codes "Upgrade"
    ∷ []

unfoldable pub delete_keys : List Text → Map Text → Map Text
delete_keys [] h = h
delete_keys (k ∷ ks) h = delete_keys ks (delete k h)

-- What `httputil.ReverseProxy` does to the headers after its Director.
unfoldable pub remove_hop_by_hop : Map Text → Map Text
remove_hop_by_hop h = delete_keys hop_headers (delete_keys (connection_keys h) h)

unfoldable pub forward : ProxyRequest → Map Text → ProxyReply
forward r h =
    let fwd_host = get_header (codes "X-Forwarded-Host") h in
    forwarded (record {
      headers = remove_hop_by_hop h;
      host = if is_empty fwd_host then r.host else fwd_host;
      path = r.path;
    })

unfoldable pub session_of : Packages → ℕ → ProxyRequest → Text → Option SessionPayload
session_of pk now r secret = elim r.session_cookie [
  | none ↦ none
  | some c ↦ elim (open_session pk now c secret) [ opened p ↦ some p | unopened e ↦ none ]
]

unfoldable pub turn_away : ProxyRequest → Map Text → ProxyReply
turn_away r h =
    if is_xhr h then unauthorized else if is_browser_asset r.path then asset_not_found else to_login

unfoldable pub proxy_handler : Packages → ProxyConfig → ℕ → ProxyRequest → ProxyReply
proxy_handler pk cfg now r =
    let h = strip_identity_headers r.headers in
    if cfg.passthrough then forward r h else elim (session_of pk now r cfg.secret) [
      | none ↦ turn_away r h
      | some p ↦
          let identity_secret =
            if is_empty cfg.identity_secret then cfg.secret else cfg.identity_secret in
          forward r (set_forwarding_metadata r (inject_identity_headers pk p identity_secret h))
    ]
