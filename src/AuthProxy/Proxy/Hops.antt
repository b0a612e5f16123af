-- ===== src/AuthProxy/Proxy/Hops.antt =====
-- The headers that the reverse proxy behind cmd/authproxy/proxy.go removes.
use agentry.Base.{
  ◌≡◌, ◌∙◌, refl, Bool, false, ◌||◌, none, List, [], ◌∷◌, if◌then◌else◌, Text, codes, str_eq, Map,
  lookup, delete, lookup-delete, arith,
}
use agentry.AuthProxy.Proxy.{connection_keys, hop_headers, delete_keys, remove_hop_by_hop}

-- The text is one of the list.
unfoldable pub is_listed : Text → List Text → Bool
is_listed j [] = false
is_listed j (k ∷ ks) = str_eq k j || is_listed j ks

lookup-delete_keys :
    (ks : List Text) (j : Text) (h : Map Text)
    → lookup j (delete_keys ks h) ≡ (if is_listed j ks then none else lookup j h)
unfolding delete_keys is_listed
lookup-delete_keys [] j h = refl
lookup-delete_keys (k ∷ ks) j h =
    ground (arith, lookup-delete_keys ks j (delete k h), lookup-delete k j h)

pub lookup-remove_hop_by_hop :
    (j : Text) (h : Map Text)
    → is_listed j hop_headers ≡ false
    → lookup j (remove_hop_by_hop h)
      ≡ (if is_listed j (connection_keys h) then none else lookup j h)
unfolding remove_hop_by_hop
lookup-remove_hop_by_hop j h e =
    lookup-delete_keys hop_headers j (delete_keys (connection_keys h) h)
    ∙ rw e (lookup-delete_keys (connection_keys h) j h)

pub connection_keys-same :
    (h sent : Map Text)
    → lookup (codes "Connection") h ≡ lookup (codes "Connection") sent
    → connection_keys h ≡ connection_keys sent
unfolding connection_keys
connection_keys-same h sent same = ground (arith, same)

pub lookup-remove_hop_by_hop-none :
    (j : Text) (h : Map Text) → lookup j h ≡ none → lookup j (remove_hop_by_hop h) ≡ none
unfolding remove_hop_by_hop
lookup-remove_hop_by_hop-none j h e = ground (
  arith,
  lookup-delete_keys hop_headers j (delete_keys (connection_keys h) h),
  lookup-delete_keys (connection_keys h) j h,
)
