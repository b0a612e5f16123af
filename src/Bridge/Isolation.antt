-- ===== src/Bridge/Isolation.antt =====
-- pkg/bridge/bridge.go: what a requester gets of the clusters of other organisations.
use agentry.Base.{
  ◌≡◌, sym, Bool, true, false, not, ◌&&◌, some, List, [], ◌∷◌, arith, inl, inr, if◌then◌else◌, Text,
  codes, is_empty, ◌++◌, str_eq, eq_of_str_eq, str_eq_refl, Map, lookup, delete, AllEntries,
  AllEntries-lookup, lookup-delete, subst, Bool-cases, Option-cases,
}
use agentry.Bridge.Identity.{Request, peer_org_identity}
use agentry.Bridge.State.{DeviceConn, ClusterConn, Broker, new_with_config}
use agentry.Bridge.Handshake.Admission.{OwnedBy, peer-OwnedBy}
use agentry.Bridge.Proxy.{
  Transport, Forward, forwarded, error, piped, answered, connect_target, serve_http, may_reach,
  proxy_to_cluster, clusters_list, handle_clusters_list, route_device, device_handler,
  handle_device_connect,
}
use agentry.Bridge.Endpoints.{Endpoint, upstream_path, handle_endpoint}
use agentry.Bridge.Tenancy.{Reach, Reach-IsGuarded, Certified}

-- What the sender of `r` may know of: an administrator all, another the clusters of the
-- organisation that its own certificate names.
pub data Entitled (r : Request) (c : ClusterConn) : Type 0 where
  as_admin : (peer_org_identity r).1 ≡ true → Entitled r c
  as_owner : OwnedBy r c.org_id → Entitled r c

may_reach-Entitled :
    (r : Request) (name : Text) (c : ClusterConn)
    → Certified name c
    → may_reach false (peer_org_identity r) c ≡ true
    → Entitled r c
unfolding may_reach
may_reach-Entitled r name c k h = elim (Bool-cases (peer_org_identity r).1) [
  | inl a ↦ as_admin a
  | inr a ↦
      let same : c.org_id ≡ (peer_org_identity r).0 =
        eq_of_str_eq c.org_id (peer_org_identity r).0 (ground arith) in
      as_owner (peer-OwnedBy r (sym same) k.org_ne)
]

-- In every state that a bridge outside of development comes to, a call of any endpoint that is
-- forwarded goes to the session of the cluster registered under the name that it gives, at the
-- endpoint's path and with the query of the request, and its sender is an administrator or presents a
-- certificate that names the cluster's organisation.
pub endpoint_isolation :
    {b : Broker} (r : Request) (id : Text) (e : Endpoint) (t : Transport) {f : Forward}
    → Reach (new_with_config false) b
    → handle_endpoint b r id e t ≡ forwarded f
    → (c : ClusterConn) × (lookup id b.clusters ≡ some c)
      × Entitled r c
      × (f.sess ≡ c.sess)
      × (f.path ≡ upstream_path e)
      × (f.query ≡ r.query)
unfolding handle_endpoint proxy_to_cluster serve_http
endpoint_isolation {b} r id e t {f} reach h = elim (Option-cases (lookup id b.clusters)) [
  | inl missing ↦ absurd (ground arith)
  | inr (c, found) ↦
      let g = Reach-IsGuarded reach in
      let allowed : may_reach false (peer_org_identity r) c ≡ true = ground (arith, g.production) in
      (
        c,
        found,
        may_reach-Entitled r id c (AllEntries-lookup Certified id b.clusters g.certified found)
            allowed,
        ground arith,
        ground arith,
        ground arith,
      )
]

-- A call that may not reach its cluster gets the same answer as one whose cluster is not there.
pub endpoint_hides :
    (b : Broker) (r : Request) (id : Text) (e : Endpoint) (t : Transport) (c : ClusterConn)
    → lookup id b.clusters ≡ some c
    → may_reach b.dev_mode (peer_org_identity r) c ≡ false
    → handle_endpoint b r id e t
      ≡ handle_endpoint (record b { clusters = delete id b.clusters }) r id e t
unfolding handle_endpoint proxy_to_cluster
endpoint_hides b r id e t c found refused =
    ground (arith, found, refused, lookup-delete id id b.clusters, str_eq_refl id)

abbrev pub AllOf : (ClusterConn → Type 0) → List ClusterConn → Type 0
AllOf P [] = Unit
AllOf P (c ∷ l) = P c × AllOf P l

abbrev hidden : Text × Bool → ClusterConn → Bool
hidden who c = not who.1 && not (str_eq c.org_id who.0)

clusters_list-Entitled :
    (r : Request) (m : Map ClusterConn)
    → AllEntries Certified m
    → AllOf (Entitled r) (clusters_list false (peer_org_identity r) m)
unfolding clusters_list
clusters_list-Entitled r [] h = tt
clusters_list-Entitled r ((id, c) ∷ m) h =
    let others = clusters_list-Entitled r m h.1 in
    elim (Bool-cases (hidden (peer_org_identity r) c)) [
      | inl out ↦ rw out others
      | inr shown ↦
          rw shown (may_reach-Entitled r id c h.0 (unfold may_reach in ground arith), others)
    ]

pub data Listed (c : ClusterConn) : List ClusterConn → Type 0 where
  first : {l : List ClusterConn} → Listed c (c ∷ l)
  later : {d : ClusterConn} {l : List ClusterConn} → Listed c l → Listed c (d ∷ l)

Listed-if :
    (hide : Bool) {c : ClusterConn} (d : ClusterConn) (l : List ClusterConn)
    → Listed c l
    → Listed c (if hide then l else d ∷ l)
Listed-if true d l h = h
Listed-if false d l h = later h

clusters_list_complete :
    (dev_mode : Bool) (who : Text × Bool) (m : Map ClusterConn) (id : Text) (c : ClusterConn)
    → lookup id m ≡ some c
    → may_reach dev_mode who c ≡ true
    → Listed c (clusters_list dev_mode who m)
unfolding clusters_list lookup may_reach
clusters_list_complete dev_mode who [] id c e h = cc
clusters_list_complete dev_mode who ((j, d) ∷ m) id c e h = elim (Bool-cases (str_eq j id)) [
  | inl here ↦
      let same : d ≡ c = ground arith in
      let shown : (not dev_mode && not who.1 && not (str_eq d.org_id who.0)) ≡ false =
        ground arith in
      rw shown (subst (λ x. Listed c (x ∷ clusters_list dev_mode who m)) (sym same) first)
  | inr other ↦
      Listed-if (not dev_mode && not who.1 && not (str_eq d.org_id who.0)) d
        (clusters_list dev_mode who m) (clusters_list_complete dev_mode who m id c (ground arith) h)
]

-- Outside of development the census lists only clusters that the requester is entitled to, and it
-- lists every registered cluster that a call of the requester would reach.
pub census :
    {b : Broker} (r : Request)
    → Reach (new_with_config false) b
    → AllOf (Entitled r) (handle_clusters_list b r)
      × ((id : Text) (c : ClusterConn)
          → lookup id b.clusters ≡ some c
          → may_reach b.dev_mode (peer_org_identity r) c ≡ true
          → Listed c (handle_clusters_list b r))
unfolding handle_clusters_list
census {b} r reach =
    let g = Reach-IsGuarded reach in
    (
      rw g.production (clusters_list-Entitled r b.clusters g.certified),
      λ id c found h.
          clusters_list_complete b.dev_mode (peer_org_identity r) b.clusters id c found h,
    )

-- Outside of development, a connected device that is of another organisation than a cluster and no
-- administrator may not reach that cluster by a call of the control plane, but a call of the device
-- itself that names the cluster is sent to it: over the cluster's session, a CONNECT as a pipe to the
-- target it gives, if the next hop is open, and any other call at its own path.
pub device_handler-foreign :
    (b : Broker) (dc : DeviceConn) (r : Request) (c : ClusterConn)
    → b.dev_mode ≡ false
    → dc.admin ≡ false
    → str_eq c.org_id dc.org_id ≡ false
    → is_empty r.target ≡ false
    → lookup r.target b.clusters ≡ some c
    → (may_reach b.dev_mode (dc.org_id, dc.admin) c ≡ false)
      × (device_handler b dc.id r answered true ≡ (
          if str_eq r.method (codes "CONNECT")
          then if is_empty (connect_target r)
            then error 400
            else piped c.sess (connect_target r) dc.id
          else forwarded (record {
            sess = c.sess;
            url_host = codes "cluster-" ++ r.target;
            path = r.path;
            query = r.query;
            forwarded_device = some dc.id;
            target_header = [];
          })))
unfolding device_handler route_device handle_device_connect serve_http may_reach connect_target
device_handler-foreign b dc r c mode plain other named found =
    (ground (arith, mode, plain, other), ground (arith, named, found))
