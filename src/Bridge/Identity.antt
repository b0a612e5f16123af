-- ===== src/Bridge/Identity.antt =====
-- pkg/bridge/bridge.go: what the verified peer certificate of a request says of its sender.
use agentry.Base.{
  ℕ, zero, suc, ◌≡◌, ◌≢◌, refl, sym, ap, subst, ◌∙◌, Bool, true, false, ◌&&◌, Option, none, some,
  List, [], ◌∷◌, ◌++◌, arith, ltb, if◌then◌else◌, length, take, drop, Text, codes, str_eq,
  eq_of_str_eq, inl, inr, Bool-cases,
}

-- The leaf certificate: the subject's common name, and the URIs of the SAN as texts.
pub record Cert : Type 0 where
  pub cn : Text
  pub uris : List Text

-- What the handlers read of an HTTP request. `peer` is the first of `r.TLS.PeerCertificates`,
-- and none where there is no TLS or no certificate. A header that is not set is the empty text.
pub record Request : Type 0 where
  pub method : Text
  pub role : Text  -- X-Tunnel-Role
  pub device_id : Text  -- X-Device-ID
  pub cluster_id : Text  -- X-Cluster-ID
  pub target : Text  -- X-Cluster
  pub request_uri : Text
  pub url_host : Text
  pub host : Text
  pub path : Text
  pub query : Text
  pub cookie : Text
  pub forwarded_host : Text  -- X-Forwarded-Host
  pub forwarded_proto : Text  -- X-Forwarded-Proto
  pub authorization : Text
  pub peer : Option Cert

abbrev pub org_prefix : Text
org_prefix = codes "urn:agentry:org:"

abbrev pub admin_urn : Text
admin_urn = codes "urn:agentry:admin"

-- `len(s) > len(orgPrefix) && s[:len(orgPrefix)] == orgPrefix`
abbrev is_org_uri : Text → Bool
is_org_uri s = ltb (length org_prefix) (length s) && str_eq (take (length org_prefix) s) org_prefix

-- The loop of `peerOrgIdentity`: the organisation, and whether the certificate is an admin's.
unfoldable pub uris_identity : List Text → Text × Bool
uris_identity [] = ([], false)
uris_identity (s ∷ uris) =
    if str_eq s admin_urn
    then ([], true)
    else if is_org_uri s
    then (drop (length org_prefix) s, false)
    else uris_identity uris

unfoldable pub peer_org_identity : Request → Text × Bool
peer_org_identity r = elim r.peer [ none ↦ ([], false) | some c ↦ uris_identity c.uris ]

unfoldable pub peer_cn_has_prefix : Request → Text → Bool
peer_cn_has_prefix r prefix = elim r.peer [
  | none ↦ false
  | some c ↦
      if ltb (length c.cn) (length prefix) then false else str_eq (take (length prefix) c.cn) prefix
]

unfoldable pub peer_cn_equals : Request → Text → Bool
peer_cn_equals r want = elim r.peer [ none ↦ false | some c ↦ str_eq c.cn want ]

-- A text is among the URIs.
pub data Among (t : Text) : List Text → Type 0 where
  here : {us : List Text} → Among t (t ∷ us)
  there : {u : Text} {us : List Text} → Among t us → Among t (u ∷ us)

take-append-drop : (n : ℕ) (t : Text) → take n t ++ drop n t ≡ t
take-append-drop zero t = refl
take-append-drop (suc n) [] = refl
take-append-drop (suc n) (c ∷ t) = rw (take-append-drop n t)

-- An organisation that is read off a certificate stands in it as a URI, and is not an admin's.
pub uris-org :
    (uris : List Text) {org : Text}
    → (uris_identity uris).0 ≡ org
    → org ≢ []
    → Among (org_prefix ++ org) uris × ((uris_identity uris).1 ≡ false)
unfolding uris_identity
uris-org [] e ne = absurd (ne (sym e))
uris-org (s ∷ uris) {org} e ne = elim (Bool-cases (str_eq s admin_urn)) [
  | inl a ↦ absurd (ne (sym (rw a at e)))
  | inr a ↦ elim (Bool-cases (is_org_uri s)) [
    | inl o ↦
        let e1 : drop (length org_prefix) s ≡ org = ground arith in
        let prefixed : take (length org_prefix) s ≡ org_prefix =
          eq_of_str_eq (take (length org_prefix) s) org_prefix (ground arith) in
        let whole : org_prefix ++ org ≡ s =
          ap (λ t. t ++ org) (sym prefixed)
          ∙ ap (λ t. take (length org_prefix) s ++ t) (sym e1)
          ∙ take-append-drop (length org_prefix) s in
        (subst (λ t. Among t (s ∷ uris)) (sym whole) here, rw (a, o))
    | inr o ↦
        let e1 : (uris_identity uris).0 ≡ org = ground arith in
        let (found, plain) = uris-org uris e1 ne in (there found, rw (a, o) plain)
  ]
]
