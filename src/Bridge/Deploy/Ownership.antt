-- ===== src/Bridge/Deploy/Ownership.antt =====
-- What `HandleDeployment` of pkg/bridge/deploy_routes.go lets through.
use agentry.Base.{
  ◌≡◌, ◌⊎◌, inl, inr, refl, Bool, true, false, Option, none, some, List, [], arith, if◌then◌else◌,
  Text, eq_of_str_eq, is_empty, is_empty_iff, lookup, to_lower, Option-cases, Bool-cases,
}
use agentry.Bridge.Identity.{Request}
use agentry.Bridge.State.{ClusterConn, Broker}
use agentry.Bridge.Routes.{DeployRoute, DeployRegistry, route_of}
use agentry.Bridge.Routes.Lookups.{last_for, route_of-replace_all}
use agentry.Bridge.Cookies.{filter_clerk_cookies}
use agentry.Bridge.Proxy.{Transport}
use agentry.Bridge.Revocation.{require_admin}
use agentry.Bridge.Deploy.{
  DeployForward, forwarded, strip_port, deploy_path, direct, serve_deploy, forward_to, org_mismatch,
  serve_route, serve_host, handle_deployment, put_routes, handle_deploy_routes_put,
}

-- `b.deploy.Lookup(host)`, where there is a registry.
unfoldable pub route_in : Broker → Text → Option DeployRoute
route_in b host = elim b.deploy [ none ↦ none | some reg ↦ route_of reg host ]

org_agrees :
    (dev_mode : Bool) (route : DeployRoute) (c : ClusterConn)
    → org_mismatch dev_mode route c ≡ false
    → (dev_mode ≡ true) ⊎ ((route.org_id ≡ []) ⊎ (route.org_id ≡ c.org_id))
unfolding org_mismatch
org_agrees true route c h = inl refl
org_agrees false route c h = elim (Bool-cases (is_empty route.org_id)) [
  | inl e ↦ inr (inl ((is_empty_iff route.org_id).0 e))
  | inr e ↦ inr (inr (eq_of_str_eq route.org_id c.org_id (ground arith)))
]

serve_route-forwarded :
    (dev_mode : Bool) (cluster : Option ClusterConn) (route : DeployRoute) (r : Request)
    (t : Transport) {f : DeployForward}
    → serve_route dev_mode cluster route r t ≡ forwarded f
    → (c : ClusterConn) × (path : Text) × (cluster ≡ some c)
      × (org_mismatch dev_mode route c ≡ false)
      × (deploy_path route r.path ≡ some path)
      × (f ≡ direct route c r path)
unfolding serve_route forward_to serve_deploy
serve_route-forwarded dev_mode none route r t h = absurd (ground arith)
serve_route-forwarded dev_mode (some c) route r t {f} h =
    elim (Option-cases (deploy_path route r.path)) [
      | inl missing ↦ absurd (ground arith)
      | inr (path, found) ↦ (c, path, refl, ground arith, found, ground arith)
    ]

-- A request that is forwarded goes to the cluster that the route of its host names, with the path
-- of the route, the request's query, and no cookie of Clerk's and no Authorization header; and
-- outside of development a route that names an organisation names the cluster's own.
pub deployment_ownership :
    (b : Broker) (r : Request) (t : Transport) {f : DeployForward}
    → handle_deployment b r t ≡ forwarded f
    → (route : DeployRoute) × (c : ClusterConn) × (path : Text) × (route_in b (strip_port r.host)
        ≡ some route)
      × (lookup route.cluster_id b.clusters ≡ some c)
      × ((b.dev_mode ≡ true) ⊎ ((route.org_id ≡ []) ⊎ (route.org_id ≡ c.org_id)))
      × (deploy_path route r.path ≡ some path)
      × (f ≡ direct route c r path)
      × ((f.sess ≡ c.sess) × (f.cookie ≡ filter_clerk_cookies r.cookie) × (f.authorization ≡ []))
unfolding handle_deployment serve_host route_in
deployment_ownership b r t {f} h = elim (Option-cases b.deploy) [
  | inl off ↦ absurd (ground arith)
  | inr (reg, on) ↦ elim (Option-cases (route_of reg (strip_port r.host))) [
    | inl missing ↦ absurd (ground arith)
    | inr (route, found) ↦
        let cluster = lookup route.cluster_id b.clusters in
        let served : serve_route b.dev_mode cluster route r t ≡ forwarded f = ground arith in
        let (c, path, there, agrees, at, made) =
          serve_route-forwarded b.dev_mode cluster route r t served in
        (
          route,
          c,
          path,
          ground arith,
          there,
          org_agrees b.dev_mode route c agrees,
          at,
          made,
          unfold direct in (ground arith, ground arith, ground arith),
        )
  ]
]

-- A push of the route table takes effect only for an administrator, and then a host name has the last
-- route pushed for it; otherwise every host name keeps its route.
pub routes_put :
    (b : Broker) (r : Request) (routes : List DeployRoute) (hostname : Text) {reg : DeployRegistry}
    → b.deploy ≡ some reg
    → (route_in (handle_deploy_routes_put b r (some routes)).0 hostname ≡ (
        if require_admin b r
        then last_for (to_lower hostname) routes none
        else route_in b hostname))
      × ((handle_deploy_routes_put b r (some routes)).1 ≡ (if require_admin b r then 204 else 403))
unfolding handle_deploy_routes_put put_routes route_in
routes_put b r routes hostname {reg} e =
    (ground (arith, route_of-replace_all reg routes hostname), ground arith)
