-- ===== src/Bridge/Endpoints.antt =====
-- The handlers of pkg/bridge/bridge.go that pass one call on to a cluster's provisioner. They
-- differ in the path only. `sid` and `rest` are the path values that the mux has matched.
use agentry.Base.{◌++◌, if◌then◌else◌, Text, codes, is_empty}
use agentry.Bridge.Identity.{Request}
use agentry.Bridge.State.{Broker}
use agentry.Bridge.Proxy.{Transport, Reply, proxy_to_cluster}

pub data Endpoint : Type 0 where
  sandboxes : Endpoint
  sandbox_get sandbox_delete sandbox_renew : (sid : Text) → Endpoint
  runtime : (sid rest : Text) → Endpoint
  deploy_build deploy_push : (sid : Text) → Endpoint
  bindings bindings_env secrets_list secret_set : (sid : Text) → Endpoint
  deployments_root : Endpoint
  deployments : (rest : Text) → Endpoint
  gc_candidates gc version update : Endpoint

abbrev sandbox_path : Text → Text
sandbox_path sid = codes "/api/sandboxes/" ++ sid

unfoldable pub upstream_path : Endpoint → Text
upstream_path sandboxes = codes "/api/sandboxes"
upstream_path (sandbox_get sid) = sandbox_path sid
upstream_path (sandbox_delete sid) = sandbox_path sid
upstream_path (sandbox_renew sid) = sandbox_path sid ++ codes "/renew"
upstream_path (runtime sid rest) = sandbox_path sid ++ codes "/runtime/" ++ rest
upstream_path (deploy_build sid) = sandbox_path sid ++ codes "/deploy-build"
upstream_path (deploy_push sid) = sandbox_path sid ++ codes "/deploy-push"
upstream_path (bindings sid) = sandbox_path sid ++ codes "/bindings"
upstream_path (bindings_env sid) = sandbox_path sid ++ codes "/bindings/env"
upstream_path (secrets_list sid) = sandbox_path sid ++ codes "/secrets"
upstream_path (secret_set sid) = sandbox_path sid ++ codes "/secrets"
upstream_path deployments_root = codes "/api/deployments"
upstream_path (deployments rest) =
    if is_empty rest then codes "/api/deployments" else codes "/api/deployments/" ++ rest
upstream_path gc_candidates = codes "/api/gc/candidates"
upstream_path gc = codes "/api/gc"
upstream_path version = codes "/api/version"
upstream_path update = codes "/api/update"

unfoldable pub handle_endpoint : Broker → Request → Text → Endpoint → Transport → Reply
handle_endpoint b r id e t = proxy_to_cluster b r id (upstream_path e) t
