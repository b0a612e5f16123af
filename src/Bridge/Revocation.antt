-- ===== src/Bridge/Revocation.antt =====
-- pkg/bridge/revocation.go: the denylist of certificate names that the control plane pushes.
use agentry.Base.{
  ℕ, ◌≡◌, refl, Bool, false, not, ◌&&◌, ◌||◌, Option, none, some, List, [], ◌∷◌, arith,
  if◌then◌else◌, Text, str_eq, str_eq_iff, is_empty, is_empty_iff,
}
use agentry.Bridge.Identity.{Request, peer_org_identity}
use agentry.Bridge.State.{Broker}

-- The set of names as a list; `none` for the nil pointer that a broker without a denylist holds.
unfoldable pub has : List Text → Text → Bool
has [] cn = false
has (c ∷ cns) cn = str_eq c cn || has cns cn

-- The set that `Replace` builds: every name but the empty one.
unfoldable pub deny_set : List Text → List Text
deny_set [] = []
deny_set (c ∷ cns) = let rest = deny_set cns in if is_empty c then rest else c ∷ rest

unfoldable pub replace : List Text → Option (List Text) → Option (List Text)
replace cns none = none
replace cns (some old) = some (deny_set cns)

unfoldable pub denies : Option (List Text) → Text → Bool
denies none cn = false
denies (some cns) cn = if is_empty cn then false else has cns cn

unfoldable pub is_revoked : Broker → Text → Bool
is_revoked b cn = denies b.revoked cn

-- `requireAdmin` of deploy_routes.go
unfoldable pub require_admin : Broker → Request → Bool
require_admin b r = b.dev_mode || (peer_org_identity r).1

-- `handleRevokedCNsPut`; `body` is the decoded list, `none` where the body does not decode. The
-- result is the new broker and the status.
unfoldable pub put_list : Broker → Option (List Text) → Broker × ℕ
put_list b none = (b, 400)
put_list b (some cns) = (record b { revoked = replace cns b.revoked }, 204)

unfoldable pub handle_revoked_cns_put : Broker → Request → Option (List Text) → Broker × ℕ
unfolding put_list
handle_revoked_cns_put b r body = if require_admin b r then put_list b body else (b, 403)

has-deny_set :
    (cns : List Text) (cn : Text) → is_empty cn ≡ false → has (deny_set cns) cn ≡ has cns cn
unfolding has deny_set
has-deny_set [] cn h = refl
has-deny_set (c ∷ cns) cn h =
    ground (arith, has-deny_set cns cn h, str_eq_iff c cn, is_empty_iff c, is_empty_iff cn)

-- After an administrator's push exactly the pushed names that are not empty are revoked, and a push
-- by anybody else or of a body that does not decode changes nothing.
pub is_revoked-put :
    (b : Broker) (r : Request) (body : Option (List Text)) (old : List Text) (cn : Text)
    → b.revoked ≡ some old
    → is_revoked (handle_revoked_cns_put b r body).0 cn
      ≡ elim (if require_admin b r then body else none) as (λ x. Bool) [
        | none ↦ is_revoked b cn
        | some cns ↦ not (is_empty cn) && has cns cn
      ]
unfolding is_revoked handle_revoked_cns_put denies replace put_list
is_revoked-put b r none old cn e = ground arith
is_revoked-put b r (some cns) old cn e = ground (arith, has-deny_set cns cn)
