-- ===== src/Bridge/Handshake/Admission.antt =====
-- Which certificates `handleTunnel` of pkg/bridge/bridge.go admits.
use agentry.Base.{
  ℕ, ◌≡◌, ◌≢◌, refl, Bool, true, false, Option, none, some, [], ◌++◌, arith, Text, codes,
  is_empty_iff, ◌⊎◌,
}
use agentry.Bridge.Identity.{
  Cert, Request, Among, org_prefix, peer_org_identity, peer_cn_has_prefix, peer_cn_equals, uris-org,
}
use agentry.Bridge.Handshake.{
  serve_device, serve_cluster, accept_device, accept_cluster, tunnel_device, tunnel_cluster,
  handle_tunnel,
}

-- The certificate of a request names the organisation `org`.
pub record OwnedBy (r : Request) (org : Text) : Type 0 where
  pub cert : Cert
  pub presented : r.peer ≡ some cert
  pub named : Among (org_prefix ++ org) cert.uris

pub peer-OwnedBy :
    (r : Request) {org : Text} → (peer_org_identity r).0 ≡ org → org ≢ [] → OwnedBy r org
unfolding peer_org_identity
peer-OwnedBy r {org} e ne = go r.peer refl
  where
    go : (p : Option Cert) → r.peer ≡ p → OwnedBy r org
    go none q = absurd (ne (ground arith))
    go (some c) q = record {
      cert = c;
      presented = q;
      named = (uris-org c.uris (ground arith) ne).0;
    }

-- Outside of development, a cluster is served only under the name of its certificate's CN and the
-- organisation that the certificate names, and neither is empty.
pub cluster_admission :
    (r : Request) (accepted : Option ℕ) {id org : Text} {sess : ℕ}
    → handle_tunnel false r accepted ≡ serve_cluster id org sess
    → (id ≢ [])
      × (org ≢ [])
      × (peer_cn_equals r (codes "cluster-" ++ id) ≡ true)
      × ((peer_org_identity r).0 ≡ org)
      × (accepted ≡ some sess)
unfolding handle_tunnel tunnel_device tunnel_cluster accept_device accept_cluster
cluster_admission r accepted {id} {org} {sess} h = (
  ground (arith, is_empty_iff id),
  ground (arith, is_empty_iff org),
  ground arith,
  ground arith,
  ground arith,
)

-- Outside of development, a device is served only with a device certificate that names its
-- organisation or is an admin's, and under an identifier that is not empty.
pub device_admission :
    (r : Request) (accepted : Option ℕ) {id org : Text} {admin : Bool} {sess : ℕ}
    → handle_tunnel false r accepted ≡ serve_device id org admin sess
    → (id ≢ [])
      × (peer_cn_has_prefix r (codes "device-") ≡ true)
      × (peer_org_identity r ≡ (org, admin))
      × ((admin ≡ true) ⊎ (org ≢ []))
unfolding handle_tunnel tunnel_device tunnel_cluster accept_device accept_cluster
device_admission r accepted {id} {org} {admin} {sess} h =
    (ground (arith, is_empty_iff id), ground arith, ground arith, ground (arith, is_empty_iff org))
