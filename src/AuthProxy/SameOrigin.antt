-- ===== src/AuthProxy/SameOrigin.antt =====
-- cmd/authproxy/same_origin.go: a POST comes from the host that it lands on.
use agentry.Base.{
  ◌∷◌, not, ◌||◌, ◌↔◌, ◌≡◌, refl, false, ◌&&◌, none, some, [], arith, if◌then◌else◌, inl, inr, Text,
  codes, str_eq, str_eq_iff, is_empty, to_lower, Option-cases,
}
use agentry.AuthProxy.Request.{Request, Packages}

-- The errors, and nil.
pub data OriginCheck : Type 0 where
  same_origin : OriginCheck
  no_origin_or_referer : OriginCheck
  origin_mismatch : OriginCheck

unfoldable pub public_host : Request → Text
public_host r = if is_empty r.forwarded_host then r.host else r.forwarded_host

unfoldable pub check_origin_host : Packages → Text → Text → OriginCheck
check_origin_host pk raw expected = elim (pk.url_host raw) [
  | none ↦ origin_mismatch
  | some host ↦ if str_eq (to_lower host) expected then same_origin else origin_mismatch
]

unfoldable pub validate_same_origin : Packages → Request → OriginCheck
validate_same_origin pk r =
    let expected = to_lower (public_host r) in
    if is_empty expected
    then no_origin_or_referer
    else if not (is_empty r.origin) && not (str_eq (to_lower r.origin) (codes "null"))
    then check_origin_host pk r.origin expected
    else if not (is_empty r.referer)
    then check_origin_host pk r.referer expected
    else no_origin_or_referer

-- The header that decides: Origin, unless it is empty or null, and else Referer.
unfoldable pub deciding_header : Request → Text
deciding_header r =
    if is_empty r.origin || str_eq (to_lower r.origin) (codes "null") then r.referer else r.origin

is_empty-to_lower : (s : Text) → is_empty (to_lower s) ≡ is_empty s
unfolding is_empty to_lower
is_empty-to_lower [] = refl
is_empty-to_lower (a ∷ s) = refl

validate-deciding :
    (pk : Packages) (r : Request)
    → validate_same_origin pk r ≡ (
        if is_empty (public_host r) || is_empty (deciding_header r)
        then no_origin_or_referer
        else check_origin_host pk (deciding_header r) (to_lower (public_host r)))
unfolding validate_same_origin deciding_header
validate-deciding pk r = ground (arith, is_empty-to_lower (public_host r))

-- A request passes exactly when the host that the browser saw is not empty, and the deciding
-- header is not empty and is a URL with that host, in any case.
pub validate_same_origin-same :
    (pk : Packages) (r : Request)
    → (validate_same_origin pk r ≡ same_origin) ↔ (
        (is_empty (public_host r) ≡ false)
        × (is_empty (deciding_header r) ≡ false)
        × ((host : Text) × (pk.url_host (deciding_header r) ≡ some host)
            × (to_lower host ≡ to_lower (public_host r))))
unfolding check_origin_host
validate_same_origin-same pk r = elim (Option-cases (pk.url_host (deciding_header r))) [
  | inl unparsed ↦ (
    λ e. absurd (ground (arith, validate-deciding pk r)),
    λ e. absurd (ground (arith, unparsed, e.2.1)),
  )
  | inr (host, found) ↦
      let same = str_eq_iff (to_lower host) (to_lower (public_host r)) in
      (
        λ e. (
          ground (arith, validate-deciding pk r),
          ground (arith, validate-deciding pk r),
          (host, found, ground (arith, validate-deciding pk r, same)),
        ),
        λ e.
            let one : host ≡ e.2.0 = ground (arith, found, e.2.1) in
            ground (arith, validate-deciding pk r, same, e.0, e.1, e.2.2, one),
      )
]
