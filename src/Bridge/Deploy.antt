-- ===== src/Bridge/Deploy.antt =====
-- `HandleDeployment` and the admin handlers of pkg/bridge/deploy_routes.go: browser requests for a
-- host of the deploy domain, and the pushes of the route table.
pub mod Ownership
use agentry.Base.{
  ℕ, Bool, true, false, not, ◌&&◌, ◌||◌, Option, none, some, List, [], ◌∷◌, ◌++◌, ◌==◌, ltb,
  if◌then◌else◌, Text, codes, str_eq, is_empty, take, index_byte, Map, lookup, to_lower, decimal,
}
use agentry.Base.Int.{is_zero_ℤ, format_int}
use agentry.Bridge.Identity.{Request}
use agentry.Bridge.State.{ClusterConn, Broker}
use agentry.Bridge.Routes.{DeployRoute, DeployRegistry, route_of, replace_all}
use agentry.Bridge.Cookies.{filter_clerk_cookies}
use agentry.Bridge.Proxy.{Transport, answered, session_closed, failed}
use agentry.Bridge.Revocation.{require_admin}

-- What the Director makes of the request. An empty header is not sent.
pub record DeployForward : Type 0 where
  pub sess : ℕ
  pub url_host : Text
  pub path : Text
  pub query : Text
  pub forwarded_host : Text
  pub forwarded_proto : Text
  pub cookie : Text
  pub authorization : Text
  pub inject_badge : Bool

pub data DeployReply : Type 0 where
  error : ℕ → DeployReply
  forwarded : DeployForward → DeployReply

-- The host without its port.
unfoldable pub strip_port : Text → Text
strip_port host = elim (index_byte host b':') [
  | none ↦ host
  | some i ↦ if ltb 0 i then take i host else host
]

-- The upstream path of a route, or none where a field that its kind needs is missing.
unfoldable pub deploy_path : DeployRoute → Text → Option Text
deploy_path route rest =
    if str_eq route.kind (codes "deployment")
    then (if is_empty route.deployment_id
        then none
        else some (codes "/api/deployments/" ++ route.deployment_id ++ codes "/proxy" ++ rest))
    else if is_empty route.sandbox_id || is_zero_ℤ route.port
    then none
    else some (
        codes "/api/sandboxes/"
        ++ route.sandbox_id
        ++ codes "/runtime/v1/proxy/"
        ++ format_int route.port
        ++ rest)

abbrev or_else : Text → Text → Text
or_else t d = if is_empty t then d else t

unfoldable pub direct : DeployRoute → ClusterConn → Request → Text → DeployForward
direct route cluster r upstream_path = record {
  sess = cluster.sess;
  url_host = codes "cluster-" ++ route.cluster_id;
  path = upstream_path;
  query = r.query;
  forwarded_host = or_else r.forwarded_host r.host;
  forwarded_proto = or_else r.forwarded_proto (codes "https");
  cookie = filter_clerk_cookies r.cookie;
  authorization = [];
  inject_badge =
      not (str_eq route.kind (codes "deployment"))
      && str_eq (to_lower route.auth_mode) (codes "public");
}

unfoldable pub serve_deploy : Transport → DeployForward → DeployReply
serve_deploy answered f = forwarded f
serve_deploy session_closed f = error 502
serve_deploy failed f = error 502

unfoldable pub forward_to :
    Option Text → DeployRoute → ClusterConn → Request → Transport → DeployReply
forward_to none route cluster r t = error 500
forward_to (some path) route cluster r t = serve_deploy t (direct route cluster r path)

-- The cross-organisation check, which fails closed.
unfoldable pub org_mismatch : Bool → DeployRoute → ClusterConn → Bool
org_mismatch dev_mode route cluster =
    not dev_mode && not (is_empty route.org_id) && not (str_eq route.org_id cluster.org_id)

unfoldable pub serve_route :
    Bool → Option ClusterConn → DeployRoute → Request → Transport → DeployReply
serve_route dev_mode none route r t = error 502
serve_route dev_mode (some cluster) route r t =
    if org_mismatch dev_mode route cluster
    then error 502
    else forward_to (deploy_path route r.path) route cluster r t

unfoldable pub serve_host : Broker → Option DeployRoute → Request → Transport → DeployReply
serve_host b none r t = error 404
serve_host b (some route) r t =
    serve_route b.dev_mode (lookup route.cluster_id b.clusters) route r t

unfoldable pub handle_deployment : Broker → Request → Transport → DeployReply
handle_deployment b r t = elim b.deploy [
  | none ↦ error 503
  | some reg ↦ serve_host b (route_of reg (strip_port r.host)) r t
]

-- `handleDeployRoutesPut`: the new broker and the status.
unfoldable pub put_routes : Broker → DeployRegistry → Option (List DeployRoute) → Broker × ℕ
put_routes b reg none = (b, 400)
put_routes b reg (some routes) = (record b { deploy = some (replace_all reg routes) }, 204)

unfoldable pub handle_deploy_routes_put : Broker → Request → Option (List DeployRoute) → Broker × ℕ
handle_deploy_routes_put b r body = elim b.deploy [
  | none ↦ (b, 503)
  | some reg ↦ if require_admin b r then put_routes b reg body else (b, 403)
]
