-- ===== src/Bridge/Routes/Lookups.antt =====
-- What a lookup in the registry of pkg/bridge/deploy_routes.go finds after a change.
use agentry.Base.{
  ◌≡◌, ◌∙◌, refl, Option, none, some, List, [], ◌∷◌, arith, if◌then◌else◌, Text, lookup, insert,
  lookup-insert, lookup-delete, to_lower, to_lower-to_lower, str_eq,
}
use agentry.Bridge.Routes.{
  DeployRoute, DeployRegistry, route_of, set_route, delete_route, fill, replace_all,
}

-- The last route of a list for a host name, whatever its case.
unfoldable pub last_for : Text → List DeployRoute → Option DeployRoute → Option DeployRoute
last_for h [] found = found
last_for h (r ∷ routes) found =
    last_for h routes (if str_eq (to_lower r.hostname) h then some r else found)

route_of-fill :
    (next : DeployRegistry) (routes : List DeployRoute) (hostname : Text)
    → route_of (fill next routes) hostname
      ≡ last_for (to_lower hostname) routes (route_of next hostname)
unfolding route_of fill last_for
route_of-fill next [] hostname = refl
route_of-fill next (r ∷ routes) hostname = ground (
  arith,
  route_of-fill (insert (to_lower r.hostname) r next) routes hostname,
  lookup-insert (to_lower r.hostname) (to_lower hostname) r next,
)

-- After a push of the control plane a host name has the last route that was pushed for it, in
-- whatever case, and none if there is no such route: nothing of the older table is left.
pub route_of-replace_all :
    (reg : DeployRegistry) (routes : List DeployRoute) (hostname : Text)
    → route_of (replace_all reg routes) hostname ≡ last_for (to_lower hostname) routes none
unfolding replace_all route_of lookup
route_of-replace_all reg routes hostname = route_of-fill [] routes hostname ∙ refl

-- A route that is set is found by its host name in any case, and a route that is deleted is not;
-- every other name finds what it found before.
pub route_of-changes :
    (reg : DeployRegistry) (route : DeployRoute) (hostname : Text)
    → (route_of (set_route reg route) hostname ≡ (
        if str_eq (to_lower route.hostname) (to_lower hostname)
        then some route
        else route_of reg hostname))
      × (route_of (delete_route reg route.hostname) hostname ≡ (
          if str_eq (to_lower route.hostname) (to_lower hostname)
          then none
          else route_of reg hostname))
      × (route_of reg (to_lower hostname) ≡ route_of reg hostname)
unfolding route_of set_route delete_route
route_of-changes reg route hostname = (
  lookup-insert (to_lower route.hostname) (to_lower hostname) route reg,
  lookup-delete (to_lower route.hostname) (to_lower hostname) reg,
  rw to_lower-to_lower,
)
