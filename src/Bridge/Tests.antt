-- ===== src/Bridge/Tests.antt =====
-- Runs of pkg/bridge at concrete inputs, and the instances of its theorems there.
use agentry.Base.{
  ℕ, ◌≡◌, ◌≢◌, ◌⊎◌, refl, true, false, Option, none, some, [], ◌∷◌, ◌++◌, Text, codes, str_eq,
  is_empty, lookup, insert, delete, to_lower, has_prefix, index_byte, split_byte, join, trim_space,
  decimal, if◌then◌else◌,
}
use agentry.Base.Int.{pos, format_int}
use agentry.Bridge.Identity.{
  Cert, Request, peer_org_identity, peer_cn_has_prefix, peer_cn_equals, uris_identity,
}
use agentry.Bridge.State.{DeviceConn, ClusterConn, Broker, new_with_config, attach_deploy}
use agentry.Bridge.Handshake.{
  refused, serve_device, serve_cluster, accept_device, accept_cluster, tunnel_device,
  tunnel_cluster, handle_tunnel,
}
use agentry.Bridge.Handshake.Admission.{cluster_admission}
use agentry.Bridge.Sessions.{sessions_of, attach_device, attach_cluster}
use agentry.Bridge.Proxy.{
  answered, Forward, forwarded, serve_http, may_reach, proxy_to_cluster, device_handler, error,
  piped, connect_target,
}
use agentry.Bridge.Endpoints.{sandboxes, upstream_path, handle_endpoint}
use agentry.Bridge.Tenancy.{cluster_conn, device_conn, cluster_up, Reach, here, next, attach}
use agentry.Bridge.Isolation.{Entitled, endpoint_isolation, device_handler-foreign}
use agentry.Bridge.Cookies.{filter_clerk_cookies, survivors, cookie_name, is_clerk_cookie_name}
use agentry.Bridge.Cookies.Survivors.{cookies_of, without_clerk, cookies_of-filter}
use agentry.Bridge.Routes.{DeployRoute, route_of, replace_all}
use agentry.Bridge.Routes.Lookups.{last_for, route_of-replace_all}
use agentry.Bridge.Deploy
use agentry.Bridge.Deploy.{
  DeployForward, strip_port, deploy_path, direct, serve_deploy, forward_to, org_mismatch,
  serve_route, serve_host, handle_deployment, handle_deploy_routes_put,
}
use agentry.Bridge.Deploy.Ownership.{route_in, deployment_ownership}

abbrev plain : Request
plain = record {
  method = codes "GET";
  role = [];
  device_id = [];
  cluster_id = [];
  target = [];
  request_uri = [];
  url_host = [];
  host = codes "App.agentry.live:443";
  path = codes "/x";
  query = [];
  cookie = codes "a=1; __session=s";
  forwarded_host = [];
  forwarded_proto = [];
  authorization = [];
  peer = none;
}

abbrev org_cert : Text → Cert
org_cert cn = record { cn = cn; uris = codes "urn:agentry:org:acme" ∷ [] }

abbrev acme : Text
acme = codes "acme"

-- A provisioner that registers the cluster `lab` of the organisation `acme`.
abbrev provisioner : Request
provisioner = record plain {
  role = codes "cluster";
  cluster_id = codes "lab";
  peer = some (org_cert (codes "cluster-lab"));
}

abbrev laptop : Request
laptop = record plain {
  role = codes "device";
  device_id = codes "mac";
  target = codes "lab";
  peer = some (org_cert (codes "device-mac"));
}

abbrev admin : Request
admin = record plain {
  peer = some (record { cn = codes "syncer"; uris = codes "urn:agentry:admin" ∷ [] });
}

lab_joins : handle_tunnel false provisioner (some 7) ≡ serve_cluster (codes "lab") acme 7
unfolding handle_tunnel tunnel_cluster accept_cluster peer_cn_equals peer_org_identity uris_identity
    str_eq is_empty
lab_joins = refl

mac_joins : handle_tunnel false laptop (some 3) ≡ serve_device (codes "mac") acme false 3
unfolding handle_tunnel tunnel_device accept_device peer_cn_has_prefix peer_org_identity
    uris_identity str_eq is_empty
mac_joins = refl

-- The certificate of a device does not register a cluster.
wrong_role :
    handle_tunnel false
      (record laptop { role = codes "cluster"; cluster_id = codes "lab" })
      (some 3)
    ≡ refused 403
unfolding handle_tunnel tunnel_cluster peer_cn_equals str_eq is_empty
wrong_role = refl

abbrev lab : ClusterConn
lab = cluster_conn (codes "lab") acme 7 100

abbrev joined : Broker
joined = attach_cluster (attach_deploy (new_with_config false) []) lab

joined_reached : Reach (new_with_config false) joined
unfolding new_with_config attach_deploy
joined_reached =
    next (next here (attach []))
      (cluster_up provisioner (some 7) (codes "lab") acme 7 100 lab_joins)

lab_found : lookup (codes "lab") joined.clusters ≡ some lab
unfolding attach_cluster new_with_config lookup insert str_eq
lab_found = refl

cluster_admission_example :
    (codes "lab" ≢ [])
    × (acme ≢ [])
    × (peer_cn_equals provisioner (codes "cluster-" ++ codes "lab") ≡ true)
    × ((peer_org_identity provisioner).0 ≡ acme)
    × ◌≡◌ {A = Option ℕ} (some 7) (some 7)
cluster_admission_example = cluster_admission provisioner (some 7) lab_joins

abbrev lab_sandboxes : Forward
lab_sandboxes = record {
  sess = 7;
  url_host = codes "cluster-lab";
  path = codes "/api/sandboxes";
  query = [];
  forwarded_device = none;
  target_header = codes "lab";
}

laptop_reaches :
    handle_endpoint joined laptop (codes "lab") sandboxes answered ≡ forwarded lab_sandboxes
unfolding handle_endpoint proxy_to_cluster attach_cluster new_with_config lookup insert str_eq
    may_reach peer_org_identity uris_identity serve_http upstream_path attach_deploy
laptop_reaches = refl

endpoint_isolation_example :
    (c : ClusterConn) × (lookup (codes "lab") joined.clusters ≡ some c)
    × Entitled laptop c
    × (lab_sandboxes.sess ≡ c.sess)
    × (codes "/api/sandboxes" ≡ upstream_path sandboxes)
    × ([] ≡ laptop.query)
endpoint_isolation_example =
    endpoint_isolation laptop (codes "lab") sandboxes answered joined_reached laptop_reaches

-- A laptop of another organisation reaches the cluster all the same.
abbrev foreign : Text
foreign = codes "umbrella"

abbrev stranger : DeviceConn
stranger = device_conn (codes "mac") foreign false 3 10

device_handler-foreign_example :
    (may_reach joined.dev_mode (foreign, false) lab ≡ false)
    × (device_handler joined (codes "mac") laptop answered true ≡ (
        if str_eq laptop.method (codes "CONNECT")
        then if is_empty (connect_target laptop)
          then error 400
          else piped lab.sess (connect_target laptop) (codes "mac")
        else forwarded (record {
          sess = lab.sess;
          url_host = codes "cluster-" ++ laptop.target;
          path = laptop.path;
          query = laptop.query;
          forwarded_device = some (codes "mac");
          target_header = [];
        })))
unfolding str_eq is_empty attach_cluster new_with_config attach_deploy
device_handler-foreign_example =
    device_handler-foreign joined stranger laptop lab refl refl refl refl lab_found

abbrev first_sess : DeviceConn
first_sess = device_conn (codes "mac") acme false 3 10

abbrev second_sess : DeviceConn
second_sess = device_conn (codes "mac") acme false 4 11

abbrev two_sessions : Broker
two_sessions = attach_device (attach_device (new_with_config false) first_sess) second_sess

both_listed : sessions_of (codes "mac") two_sessions.devices ≡ [] ++ first_sess ∷ second_sess ∷ []
unfolding sessions_of attach_device new_with_config lookup insert str_eq delete
both_listed = refl

abbrev lab_again : ClusterConn
lab_again = cluster_conn (codes "lab") acme 8 200

cookies_of-filter_example :
    cookies_of (filter_clerk_cookies plain.cookie) ≡ without_clerk (cookies_of plain.cookie)
cookies_of-filter_example = cookies_of-filter plain.cookie

session_stripped : filter_clerk_cookies plain.cookie ≡ codes "a=1"
unfolding filter_clerk_cookies survivors cookie_name is_clerk_cookie_name str_eq is_empty has_prefix
    index_byte split_byte join trim_space
session_stripped = refl

abbrev share : DeployRoute
share = record {
  hostname = codes "app.AGENTRY.live";
  kind = codes "share";
  cluster_id = codes "lab";
  org_id = acme;
  auth_mode = codes "public";
  sandbox_id = codes "s1";
  port = pos 3000;
  deployment_id = [];
}

abbrev routed : Broker
routed = attach_deploy joined (replace_all [] (share ∷ []))

abbrev share_forward : DeployForward
share_forward = direct share lab plain (codes "/api/sandboxes/s1/runtime/v1/proxy/3000/x")

share_served : handle_deployment routed plain answered ≡ Deploy.forwarded share_forward
unfolding handle_deployment attach_deploy serve_host serve_route forward_to serve_deploy
    org_mismatch deploy_path strip_port route_of replace_all attach_cluster new_with_config lookup
    insert delete str_eq is_empty to_lower index_byte decimal format_int
share_served = refl

deployment_ownership_example :
    (route : DeployRoute) × (c : ClusterConn) × (path : Text) × (route_in routed
        (strip_port plain.host)
      ≡ some route)
    × (lookup route.cluster_id routed.clusters ≡ some c)
    × ((routed.dev_mode ≡ true) ⊎ ((route.org_id ≡ []) ⊎ (route.org_id ≡ c.org_id)))
    × (deploy_path route plain.path ≡ some path)
    × (share_forward ≡ direct route c plain path)
    × ((share_forward.sess ≡ c.sess)
        × (share_forward.cookie ≡ filter_clerk_cookies plain.cookie)
        × (share_forward.authorization ≡ []))
deployment_ownership_example = deployment_ownership routed plain answered share_served

route_of-replace_all_example :
    route_of (replace_all [] (share ∷ [])) (codes "APP.agentry.live")
    ≡ last_for (to_lower (codes "APP.agentry.live")) (share ∷ []) none
route_of-replace_all_example = route_of-replace_all [] (share ∷ []) (codes "APP.agentry.live")
