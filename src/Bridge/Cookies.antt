-- ===== src/Bridge/Cookies.antt =====
-- `filterClerkCookies` of pkg/bridge/deploy_routes.go: the cookies that go on to a deployed app.
pub mod Survivors
use agentry.Base.{
  ℕ, Bool, true, false, not, ◌||◌, Option, none, some, List, [], ◌∷◌, if◌then◌else◌, Text, codes,
  take, str_eq, is_empty, has_prefix, index_byte, split_byte, join, trim_space,
}

unfoldable pub is_clerk_cookie_name : Text → Bool
is_clerk_cookie_name name =
    str_eq name (codes "__session")
    || str_eq name (codes "__client_uat")
    || has_prefix name (codes "__client_")

-- The name half of a cookie, all of it where there is no `=`.
unfoldable pub cookie_name : Text → Text
cookie_name p = elim (index_byte p b'=') [ none ↦ p | some eq ↦ take eq p ]

-- The loop over the parts.
unfoldable pub survivors : List Text → List Text
survivors [] = []
survivors (part ∷ parts) =
    let p = trim_space part in
    let rest = survivors parts in
    if is_empty p then rest else if is_clerk_cookie_name (cookie_name p) then rest else p ∷ rest

unfoldable pub filter_clerk_cookies : Text → Text
filter_clerk_cookies raw =
    if is_empty raw then [] else join (codes "; ") (survivors (split_byte b';' raw))
