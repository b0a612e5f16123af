-- ===== src/AuthProxy/Proxy/Identity.antt =====
-- The identity headers that leave cmd/authproxy/proxy.go.
use agentry.Base.{
  ℕ, ◌≡◌, refl, ◌∙◌, true, false, none, some, if◌then◌else◌, Text, codes, str_eq, str_eq_refl,
  if_both, ◌⊎◌, is_empty, Map, lookup, insert, delete, lookup-insert, lookup-delete, arith,
  Option-cases, inl, inr, Option,
}
use agentry.AuthProxy.Request.{SessionPayload, Packages}
use agentry.AuthProxy.Session.{SessionError, Opened, opened, unopened, open_session}
use agentry.AuthProxy.Proxy.Hops.{
  is_listed, lookup-remove_hop_by_hop, lookup-remove_hop_by_hop-none, connection_keys-same,
}
use agentry.AuthProxy.Proxy.{
  is_https, hdr_user, hdr_email, hdr_name, hdr_provider, hdr_sig, ProxyRequest, ProxyConfig,
  strip_identity_headers, sign_identity, inject_identity_headers, set_missing,
  set_forwarding_metadata, Forward, forwarded, forward, session_of, turn_away, proxy_handler,
  connection_keys, remove_hop_by_hop,
}

-- The five headers, as a map shows them.
pub record Shows (h : Map Text) (p : SessionPayload) (sig : Text) : Type 0 where
  pub user : lookup hdr_user h ≡ some p.uid
  pub email : lookup hdr_email h ≡ some p.email
  pub name : lookup hdr_name h ≡ some p.name
  pub provider : lookup hdr_provider h ≡ some p.provider
  pub signature : lookup hdr_sig h ≡ some sig

inject-Shows :
    (pk : Packages) (p : SessionPayload) (secret : Text) (h : Map Text)
    → Shows (inject_identity_headers pk p secret h) p (sign_identity pk p secret)
unfolding inject_identity_headers str_eq
inject-Shows pk p secret h =
    let h1 : Map Text = insert hdr_user p.uid h in
    let h2 : Map Text = insert hdr_email p.email h1 in
    let h3 : Map Text = insert hdr_name p.name h2 in
    let h4 : Map Text = insert hdr_provider p.provider h3 in
    record {
      user =
          lookup-insert hdr_sig hdr_user (sign_identity pk p secret) h4
          ∙ lookup-insert hdr_provider hdr_user p.provider h3
          ∙ lookup-insert hdr_name hdr_user p.name h2
          ∙ lookup-insert hdr_email hdr_user p.email h1
          ∙ lookup-insert hdr_user hdr_user p.uid h;
      email =
          lookup-insert hdr_sig hdr_email (sign_identity pk p secret) h4
          ∙ lookup-insert hdr_provider hdr_email p.provider h3
          ∙ lookup-insert hdr_name hdr_email p.name h2
          ∙ lookup-insert hdr_email hdr_email p.email h1;
      name =
          lookup-insert hdr_sig hdr_name (sign_identity pk p secret) h4
          ∙ lookup-insert hdr_provider hdr_name p.provider h3
          ∙ lookup-insert hdr_name hdr_name p.name h2;
      provider =
          lookup-insert hdr_sig hdr_provider (sign_identity pk p secret) h4
          ∙ lookup-insert hdr_provider hdr_provider p.provider h3;
      signature = lookup-insert hdr_sig hdr_sig (sign_identity pk p secret) h4;
    }

lookup-set_missing :
    (k j v : Text) (h : Map Text) → str_eq k j ≡ false → lookup j (set_missing k v h) ≡ lookup j h
unfolding set_missing
lookup-set_missing k j v h e = ground (arith, lookup-insert k j v h)

lookup-metadata :
    (r : ProxyRequest) (h : Map Text) (j : Text)
    → str_eq (codes "X-Forwarded-Host") j ≡ false
    → str_eq (codes "X-Forwarded-Proto") j ≡ false
    → str_eq (codes "X-Forwarded-For") j ≡ false
    → lookup j (set_forwarding_metadata r h) ≡ lookup j h
unfolding set_forwarding_metadata
lookup-metadata r h j e1 e2 e3 =
    let h1 : Map Text = set_missing (codes "X-Forwarded-Host") r.host h in
    let proto : Text = if is_https r h1 then codes "https" else codes "http" in
    let h2 : Map Text = set_missing (codes "X-Forwarded-Proto") proto h1 in
    let p1 = lookup-set_missing (codes "X-Forwarded-Host") j r.host h e1 in
    let p2 = lookup-set_missing (codes "X-Forwarded-Proto") j proto h1 e2 in
    let p3 = lookup-set_missing (codes "X-Forwarded-For") j r.remote_ip h2 e3 in
    if_both (λ (m : Map Text). lookup j m ≡ lookup j h) (is_empty r.remote_ip) (p2 ∙ p1)
      (p3 ∙ p2 ∙ p1)

metadata-Shows :
    (r : ProxyRequest) (h : Map Text) (p : SessionPayload) (sig : Text)
    → Shows h p sig
    → Shows (set_forwarding_metadata r h) p sig
unfolding str_eq
metadata-Shows r h p sig s = record {
  user = lookup-metadata r h hdr_user refl refl refl ∙ s.user;
  email = lookup-metadata r h hdr_email refl refl refl ∙ s.email;
  name = lookup-metadata r h hdr_name refl refl refl ∙ s.name;
  provider = lookup-metadata r h hdr_provider refl refl refl ∙ s.provider;
  signature = lookup-metadata r h hdr_sig refl refl refl ∙ s.signature;
}

Opened-cases :
    (o : Opened) → ((e : SessionError) × (o ≡ unopened e)) ⊎ ((p : SessionPayload) × (o ≡ opened p))
Opened-cases (opened p) = inr (p, refl)
Opened-cases (unopened e) = inl (e, refl)

-- What the app sees of a header that the gate set: nothing where the Connection header names it.
abbrev pub unless_named : Text → Map Text → Text → Option Text
unless_named j sent v = if is_listed j (connection_keys sent) then none else some v

-- The five headers, as the app sees them.
pub record Delivers (h sent : Map Text) (p : SessionPayload) (sig : Text) : Type 0 where
  pub user : lookup hdr_user h ≡ unless_named hdr_user sent p.uid
  pub email : lookup hdr_email h ≡ unless_named hdr_email sent p.email
  pub name : lookup hdr_name h ≡ unless_named hdr_name sent p.name
  pub provider : lookup hdr_provider h ≡ unless_named hdr_provider sent p.provider
  pub signature : lookup hdr_sig h ≡ unless_named hdr_sig sent sig

remove-Delivers :
    (h sent : Map Text) (p : SessionPayload) (sig : Text)
    → lookup (codes "Connection") h ≡ lookup (codes "Connection") sent
    → Shows h p sig
    → Delivers (remove_hop_by_hop h) sent p sig
unfolding str_eq is_listed
remove-Delivers h sent p sig same s = record {
  user =
      lookup-remove_hop_by_hop hdr_user h refl ∙ rw (connection_keys-same h sent same, s.user) refl;
  email =
      lookup-remove_hop_by_hop hdr_email h refl
      ∙ rw (connection_keys-same h sent same, s.email) refl;
  name =
      lookup-remove_hop_by_hop hdr_name h refl ∙ rw (connection_keys-same h sent same, s.name) refl;
  provider =
      lookup-remove_hop_by_hop hdr_provider h refl
      ∙ rw (connection_keys-same h sent same, s.provider) refl;
  signature =
      lookup-remove_hop_by_hop hdr_sig h refl
      ∙ rw (connection_keys-same h sent same, s.signature) refl;
}

-- The gate leaves the Connection header as the client sent it.
lookup-gated :
    (pk : Packages) (r : ProxyRequest) (p : SessionPayload) (key : Text) (h : Map Text)
    → lookup
        (codes "Connection")
        (set_forwarding_metadata r (inject_identity_headers pk p key (strip_identity_headers h)))
      ≡ lookup (codes "Connection") h
unfolding inject_identity_headers strip_identity_headers str_eq
lookup-gated pk r p key h =
    lookup-metadata r _ (codes "Connection") refl refl refl
    ∙ lookup-insert hdr_sig (codes "Connection") _ _
    ∙ lookup-insert hdr_provider (codes "Connection") _ _
    ∙ lookup-insert hdr_name (codes "Connection") _ _
    ∙ lookup-insert hdr_email (codes "Connection") _ _
    ∙ lookup-insert hdr_user (codes "Connection") _ _
    ∙ lookup-delete hdr_sig (codes "Connection") _
    ∙ lookup-delete hdr_provider (codes "Connection") _
    ∙ lookup-delete hdr_name (codes "Connection") _
    ∙ lookup-delete hdr_email (codes "Connection") _
    ∙ lookup-delete hdr_user (codes "Connection") _

-- A request that passes the gate, outside of passthrough mode, has a session cookie that opens under
-- the secret, and of each of the five identity headers the app gets the value in the session, signed
-- under the identity secret or else the secret, or, where the client's Connection header names that
-- header, nothing: never a value that the client sent in it.
pub proxy_handler-Delivers :
    (pk : Packages) (cfg : ProxyConfig) (now : ℕ) (r : ProxyRequest) (f : Forward)
    → cfg.passthrough ≡ false
    → proxy_handler pk cfg now r ≡ forwarded f
    → (p : SessionPayload) × (c : Text) × (r.session_cookie ≡ some c)
      × (open_session pk now c cfg.secret ≡ opened p)
      × Delivers f.headers r.headers p (
          sign_identity pk p
            (if is_empty cfg.identity_secret then cfg.secret else cfg.identity_secret))
unfolding session_of proxy_handler turn_away forward
proxy_handler-Delivers pk cfg now r f mode h = elim (Option-cases r.session_cookie) [
  | inl no_cookie ↦ absurd (ground arith)
  | inr (c, sent) ↦ elim (Opened-cases (open_session pk now c cfg.secret)) [
    | inl (e, refused) ↦ absurd (ground (arith, sent))
    | inr (p, session) ↦
        let key : Text = if is_empty cfg.identity_secret then cfg.secret else cfg.identity_secret in
        let gated : Map Text =
          set_forwarding_metadata r
            (inject_identity_headers pk p key (strip_identity_headers r.headers)) in
        let same : f.headers ≡ remove_hop_by_hop gated = ground (arith, sent, session) in
        (
          p,
          c,
          sent,
          session,
          rw same (
              remove-Delivers gated r.headers p (sign_identity pk p key)
                (lookup-gated pk r p key r.headers)
                (metadata-Shows r _ p (sign_identity pk p key)
                  (inject-Shows pk p key (strip_identity_headers r.headers)))),
        )
  ]
]

lookup-delete-own : (k : Text) (h : Map Text) → lookup k (delete k h) ≡ none
lookup-delete-own k h = ground (arith, lookup-delete k k h, str_eq_refl k)

lookup-delete-none : (k j : Text) (h : Map Text) → lookup j h ≡ none → lookup j (delete k h) ≡ none
lookup-delete-none k j h e = ground (arith, lookup-delete k j h)

stripped :
    (h : Map Text)
    → (lookup hdr_user (strip_identity_headers h) ≡ none)
      × (lookup hdr_email (strip_identity_headers h) ≡ none)
      × (lookup hdr_name (strip_identity_headers h) ≡ none)
      × (lookup hdr_provider (strip_identity_headers h) ≡ none)
      × (lookup hdr_sig (strip_identity_headers h) ≡ none)
unfolding strip_identity_headers
stripped h =
    let h1 : Map Text = delete hdr_user h in
    let h2 : Map Text = delete hdr_email h1 in
    let h3 : Map Text = delete hdr_name h2 in
    let h4 : Map Text = delete hdr_provider h3 in
    (
      lookup-delete-none hdr_sig hdr_user h4 (
          lookup-delete-none hdr_provider hdr_user h3 (
            lookup-delete-none hdr_name hdr_user h2
              (lookup-delete-none hdr_email hdr_user h1 (lookup-delete-own hdr_user h)))),
      lookup-delete-none hdr_sig hdr_email h4 (
          lookup-delete-none hdr_provider hdr_email h3
            (lookup-delete-none hdr_name hdr_email h2 (lookup-delete-own hdr_email h1))),
      lookup-delete-none hdr_sig hdr_name h4
          (lookup-delete-none hdr_provider hdr_name h3 (lookup-delete-own hdr_name h2)),
      lookup-delete-none hdr_sig hdr_provider h4 (lookup-delete-own hdr_provider h3),
      lookup-delete-own hdr_sig h4,
    )

-- In passthrough mode the app gets none of the five identity headers, whatever the client sent.
pub passthrough_strips :
    (pk : Packages) (cfg : ProxyConfig) (now : ℕ) (r : ProxyRequest) (f : Forward)
    → cfg.passthrough ≡ true
    → proxy_handler pk cfg now r ≡ forwarded f
    → (lookup hdr_user f.headers ≡ none)
      × (lookup hdr_email f.headers ≡ none)
      × (lookup hdr_name f.headers ≡ none)
      × (lookup hdr_provider f.headers ≡ none)
      × (lookup hdr_sig f.headers ≡ none)
unfolding proxy_handler forward
passthrough_strips pk cfg now r f mode h =
    let bare : Map Text = strip_identity_headers r.headers in
    let same : f.headers ≡ remove_hop_by_hop bare = ground (arith, mode) in
    let (user, email, name, provider, signature) = stripped r.headers in
    rw same (
      (
        lookup-remove_hop_by_hop-none hdr_user bare user,
        lookup-remove_hop_by_hop-none hdr_email bare email,
        lookup-remove_hop_by_hop-none hdr_name bare name,
        lookup-remove_hop_by_hop-none hdr_provider bare provider,
        lookup-remove_hop_by_hop-none hdr_sig bare signature,
      ))
