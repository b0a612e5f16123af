-- ===== src/Bridge/Routes.antt =====
-- The registry of pkg/bridge/deploy_routes.go: from a public host name to its target.
pub mod Lookups
use agentry.Base.Int.{ℤ}
use agentry.Base.{
  ℕ, Bool, Option, none, some, List, [], ◌∷◌, Text, Map, lookup, insert, delete, to_lower,
}

-- The password fields are read elsewhere, in cmd/bridge.
pub record DeployRoute : Type 0 where
  pub hostname : Text
  pub kind : Text
  pub cluster_id : Text
  pub org_id : Text
  pub auth_mode : Text
  pub sandbox_id : Text
  pub port : ℤ
  pub deployment_id : Text

-- The registry is its map from lower-case host names.
abbrev pub DeployRegistry : Type 0
DeployRegistry = Map DeployRoute

unfoldable pub route_of : DeployRegistry → Text → Option DeployRoute
route_of reg hostname = lookup (to_lower hostname) reg

unfoldable pub set_route : DeployRegistry → DeployRoute → DeployRegistry
set_route reg route = insert (to_lower route.hostname) route reg

unfoldable pub delete_route : DeployRegistry → Text → DeployRegistry
delete_route reg hostname = delete (to_lower hostname) reg

-- The loop of `ReplaceAll`.
unfoldable pub fill : DeployRegistry → List DeployRoute → DeployRegistry
fill next [] = next
fill next (r ∷ routes) = fill (insert (to_lower r.hostname) r next) routes

unfoldable pub replace_all : DeployRegistry → List DeployRoute → DeployRegistry
unfolding fill
replace_all reg routes = fill [] routes
