-- ===== src/Bridge/Proxy.antt =====
-- The routing handlers of pkg/bridge/bridge.go: the control plane's calls into a cluster, and the
-- requests of a connected device. `httputil.ReverseProxy` and the tunnels are not modelled: an
-- argument says how the round trip ends.
use agentry.Base.{
  ℕ, Bool, not, ◌&&◌, ◌||◌, Option, none, some, List, [], ◌∷◌, ◌++◌, if◌then◌else◌, Text, codes,
  str_eq, is_empty, Map, lookup,
}
use agentry.Bridge.Identity.{Request, peer_org_identity}
use agentry.Bridge.State.{ClusterConn, Broker}

-- The request that the transport of a cluster sends: its session, and what the Director rewrites.
pub record Forward : Type 0 where
  pub sess : ℕ
  pub url_host : Text
  pub path : Text
  pub query : Text
  pub forwarded_device : Option Text  -- X-Forwarded-Device, where the bridge sets it
  pub target_header : Text  -- X-Cluster

-- The end of a round trip through a tunnel.
pub data Transport : Type 0 where
  answered session_closed failed : Transport

pub data Reply : Type 0 where
  error : ℕ → Reply
  forwarded : Forward → Reply
  piped : (sess : ℕ) (target device : Text) → Reply

-- `proxy.ServeHTTP`: the upstream's answer, or the ErrorHandler's.
unfoldable pub serve_http : Transport → Forward → Reply
serve_http answered f = forwarded f
serve_http session_closed f = error 502
serve_http failed f = error 502

-- `cluster == nil || (!reqAdmin && !b.cfg.DevMode && cluster.orgID != reqOrg)`, negated
unfoldable pub may_reach : Bool → Text × Bool → ClusterConn → Bool
may_reach dev_mode (org, admin) cluster = admin || dev_mode || str_eq cluster.org_id org

unfoldable pub proxy_to_cluster : Broker → Request → Text → Text → Transport → Reply
proxy_to_cluster b r id upstream_path t = elim (lookup id b.clusters) [
  | none ↦ error 502
  | some cluster ↦
      if may_reach b.dev_mode (peer_org_identity r) cluster
      then serve_http t (record {
        sess = cluster.sess;
        url_host = codes "cluster-" ++ id;
        path = upstream_path;
        query = r.query;
        forwarded_device = none;
        target_header = r.target;
      })
      else error 502
]

-- The census of `handleClustersList`: the clusters that the requester may see.
unfoldable pub clusters_list : Bool → Text × Bool → Map ClusterConn → List ClusterConn
clusters_list dev_mode who [] = []
clusters_list dev_mode who ((id, c) ∷ m) =
    let rest = clusters_list dev_mode who m in
    if not dev_mode && not who.1 && not (str_eq c.org_id who.0) then rest else c ∷ rest

unfoldable pub handle_clusters_list : Broker → Request → List ClusterConn
handle_clusters_list b r = clusters_list b.dev_mode (peer_org_identity r) b.clusters

-- `handleDeviceConnect`; `dialled` says whether the next hop was opened and answered 200.
unfoldable pub connect_target : Request → Text
connect_target r = if is_empty r.request_uri then r.url_host else r.request_uri

unfoldable pub handle_device_connect : Request → Text → ClusterConn → Bool → Reply
handle_device_connect r device_id cluster dialled =
    let target = connect_target r in
    if is_empty target
    then error 400
    else if dialled
    then piped cluster.sess target device_id
    else error 502

unfoldable pub route_device : Request → Text → Option ClusterConn → Transport → Bool → Reply
route_device r device_id none t dialled = error 502
route_device r device_id (some cluster) t dialled =
    if str_eq r.method (codes "CONNECT")
    then handle_device_connect r device_id cluster dialled
    else serve_http t (record {
      sess = cluster.sess;
      url_host = codes "cluster-" ++ r.target;
      path = r.path;
      query = r.query;
      forwarded_device = some device_id;
      target_header = [];
    })

-- `deviceHandler`, the handler behind every stream of a connected device.
unfoldable pub device_handler : Broker → Text → Request → Transport → Bool → Reply
device_handler b device_id r t dialled =
    if is_empty r.target
    then error 400
    else route_device r device_id (lookup r.target b.clusters) t dialled
