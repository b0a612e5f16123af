-- ===== src/Bridge/Handshake.antt =====
-- `handleTunnel` of pkg/bridge/bridge.go: which peers may open a tunnel, and in which role.
pub mod Admission
use agentry.Base.{
  ℕ, ◌≡◌, ◌≢◌, refl, Bool, true, false, not, ◌&&◌, Option, none, some, List, [], ◌∷◌, ◌++◌, arith,
  if◌then◌else◌, Text, codes, str_eq, str_eq_iff, eq_of_str_eq, is_empty, is_empty_iff, ◌⊎◌, inl,
  inr, Bool-cases, has_prefix, take, length,
}
use agentry.Bridge.Identity.{
  Cert, Request, Among, org_prefix, admin_urn, peer_org_identity, peer_cn_has_prefix,
  peer_cn_equals, uris_identity,
}

-- What a handshake comes to. `accepted` says which serve loop runs.
pub data Outcome : Type 0 where
  refused : ℕ → Outcome
  accept_failed : Outcome
  serve_device : (id org : Text) (admin : Bool) (sess : ℕ) → Outcome
  serve_cluster : (id org : Text) (sess : ℕ) → Outcome

-- The part of each case behind its guards; `tunnel.Accept` has given a session or failed.
unfoldable pub accept_device : Text → Text × Bool → Option ℕ → Outcome
accept_device id (org, admin) none = accept_failed
accept_device id (org, admin) (some sess) = serve_device id org admin sess

unfoldable pub accept_cluster : Text → Text × Bool → Option ℕ → Outcome
accept_cluster id (org, admin) none = accept_failed
accept_cluster id (org, admin) (some sess) = serve_cluster id org sess

-- `case tunnel.RoleDevice`
unfoldable pub tunnel_device : Bool → Request → Option ℕ → Outcome
tunnel_device dev_mode r accepted =
    let who = peer_org_identity r in
    if not dev_mode && not (peer_cn_has_prefix r (codes "device-"))
    then refused 403
    else if is_empty r.device_id
    then refused 400
    else if not dev_mode && not who.1 && is_empty who.0
    then refused 403
    else accept_device r.device_id who accepted

-- `case tunnel.RoleCluster`
unfoldable pub tunnel_cluster : Bool → Request → Option ℕ → Outcome
tunnel_cluster dev_mode r accepted =
    let who = peer_org_identity r in
    if is_empty r.cluster_id
    then refused 400
    else if not dev_mode && not (peer_cn_equals r (codes "cluster-" ++ r.cluster_id))
    then refused 403
    else if not dev_mode && is_empty who.0
    then refused 403
    else accept_cluster r.cluster_id who accepted

-- `accepted` is what `tunnel.Accept` returns where it is called: a session, or an error.
unfoldable pub handle_tunnel : Bool → Request → Option ℕ → Outcome
handle_tunnel dev_mode r accepted =
    if str_eq r.role (codes "device")
    then tunnel_device dev_mode r accepted
    else if str_eq r.role (codes "cluster")
    then tunnel_cluster dev_mode r accepted
    else refused 400
