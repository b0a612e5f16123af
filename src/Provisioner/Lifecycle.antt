-- ===== src/Provisioner/Lifecycle.antt =====
-- pkg/provisioner/provisioner.go: the handlers for a sandbox that is there, handleGet, handleRenew,
-- handleList, handleDelete and handleEvict.
pub mod Renewals
use agentry.Base.{
  ℕ, zero, suc, ◌+◌, ◌-◌, ◌*◌, ◌≤◌, ◌<◌, ◌≡◌, Bool, true, false, not, ◌&&◌, ◌||◌, Option, none,
  some, List, [], ◌∷◌, ◌++◌, ltb, ◌==◌, if◌then◌else◌, Text, codes, is_empty, str_eq, contains_text,
  quoted, join, parse_decimal, is_digit, Map, length, Result, ok, err,
}
use agentry.Base.Int.{ℤ, pos, negsuc, ltb_ℤ}
use agentry.Provisioner.{Reply, writes_json, writes_error}
use agentry.Provisioner.Expiry.{annotation_expires_at, annotation_ttl_sec, ttl_annotations}
use agentry.Provisioner.Backend.{SandboxInfo, Backend, pod_name, svc_name, value_of}
use agentry.Provisioner.Sandboxes.{Config, Env, sandbox_url, unless_says}

abbrev not_found : Text → Text
not_found id = codes "sandbox '" ++ (id ++ codes "' not found")

-- fmt.Sscanf of "%d": blanks, a sign, and the digits up to what is none. A number out of the range
-- of an int64 is an error.
unfoldable pub leading_digits : Text → Text
leading_digits [] = []
leading_digits (c ∷ s) = let rest = leading_digits s in if is_digit c then c ∷ rest else []

unfoldable pub scan_unsigned : Text → Option ℕ
unfolding leading_digits
scan_unsigned s = parse_decimal (leading_digits s)

-- The least int64 is the one number below that has no opposite; no lifetime is near it.
unfoldable pub scan_signed : Text → Option ℤ
unfolding scan_unsigned
scan_signed [] = none
scan_signed (c ∷ s) =
    if c == b'-'
    then elim (scan_unsigned s) [
      | none ↦ none
      | some zero ↦ some (pos 0)
      | some (suc n) ↦ some (negsuc n)
    ]
    else elim (scan_unsigned (if c == b'+' then s else c ∷ s)) [
      | none ↦ none
      | some n ↦ some (pos n)
    ]

unfoldable pub skip_blanks : Text → Text
skip_blanks [] = []
skip_blanks (c ∷ s) = let rest = skip_blanks s in if c == 32 || c == 9 then rest else c ∷ s

unfoldable pub parse_int64 : Text → Option ℤ
unfolding scan_signed skip_blanks
parse_int64 s = scan_signed (skip_blanks s)

pub record Renewal : Type 0 where
  pub sandbox_id : Text
  pub expires_at : Text
  pub ttl_seconds : ℤ

pub record Listing : Type 0 where
  pub sandboxes : List SandboxInfo
  pub count : ℕ

-- The bodies of handleDelete and handleEvict that say it is done: the id, and what was done.
pub data Done : Type 0 where
  deleted already_gone evicted : Text → Done

module _ {World Quantity : Type 0} (env : Env World Quantity) (config : Config) where
  unfoldable pub handle_get : Text → World → Reply SandboxInfo
  handle_get id w = elim (env.backend.get_node_port (svc_name id) w) [
    | err e ↦ writes_error 404 (not_found id)
    | ok port ↦
        if port == 0
        then writes_error 404 (not_found id)
        else writes_json 200 (record {
          sandbox_id = id;
          sandbox_url = sandbox_url config id port;
          status = env.backend.get_pod_phase (pod_name id) w;
          expires_at = elim (env.backend.get_pod_annotations (pod_name id) w) [
            | ok a ↦ value_of annotation_expires_at a
            | err e ↦ []
          ];
        })
  ]

  -- The lifetime that a renewal asks for, or the one that the pod keeps.
  unfoldable pub effective_ttl : ℤ → Map Text → Reply ℤ
  effective_ttl (pos zero) existing =
      let stored = value_of annotation_ttl_sec existing in
      if is_empty stored
      then writes_error 400 (codes "sandbox has no prior TTL; provide ttl_seconds")
      else elim (parse_int64 stored) [
        | none ↦ writes_error 500 (codes "stored TTL invalid: " ++ quoted stored)
        | some ttl ↦
            if ltb_ℤ (pos 0) ttl
            then writes_json 200 ttl
            else writes_error 500 (codes "stored TTL invalid: " ++ quoted stored)
      ]
  effective_ttl (pos (suc n)) existing = writes_json 200 (pos (suc n))
  effective_ttl (negsuc n) existing = writes_json 200 (negsuc n)

  unfoldable pub renew_with : Text → ℤ → ℤ → World → Reply Renewal × World
  renew_with id ttl now w =
      let updated : Map Text = elim (ttl_annotations env.format now ttl) [
        | none ↦ []
        | some a ↦ a
      ] in
      let (error, w') = env.backend.set_pod_annotations (pod_name id) updated w in
      elim error [
        | some e ↦ (writes_error 500 (codes "renew failed: " ++ e), w')
        | none ↦ (
          writes_json 200 (record {
            sandbox_id = id;
            expires_at = value_of annotation_expires_at updated;
            ttl_seconds = ttl;
          }),
          w',
        )
      ]

  -- The lifetime of the body, which is zero when there is no body; an error is one that does not
  -- decode.
  unfoldable pub handle_renew : Text → Result ℤ → ℤ → World → Reply Renewal × World
  handle_renew id (err e) now w = (writes_error 400 (codes "invalid request body"), w)
  handle_renew id (ok asked) now w =
      if ltb_ℤ asked (pos 0)
      then (writes_error 400 (codes "ttl_seconds must be non-negative"), w)
      else elim (env.backend.get_pod_annotations (pod_name id) w) [
        | err e ↦ (writes_error 404 (not_found id), w)
        | ok existing ↦ elim (effective_ttl asked existing) [
          | writes_error code message ↦ (writes_error code message, w)
          | writes_json code ttl ↦ renew_with id ttl now w
        ]
      ]

  -- A provisioner behind a bridge writes its own URLs.
  unfoldable pub public_urls : List SandboxInfo → List SandboxInfo
  public_urls [] = []
  public_urls (s ∷ ss) =
      record s { sandbox_url = sandbox_url config s.sandbox_id 0 } ∷ public_urls ss

  unfoldable pub handle_list : World → Reply Listing
  unfolding public_urls
  handle_list w = elim (env.backend.list_sandboxes w) [
    | err e ↦ writes_error 500 (codes "list failed: " ++ e)
    | ok sandboxes ↦ writes_json 200 (record {
      sandboxes = if is_empty config.bridge_url then sandboxes else public_urls sandboxes;
      count = length sandboxes;
    })
  ]

  abbrev failure : Text → Option Text → List Text
  failure what none = []
  failure what (some e) = (what ++ e) ∷ []

  abbrev deletion : Text → List Text → Reply Done
  deletion id [] = writes_json 200 (deleted id)
  deletion id (e ∷ es) = writes_error 500 (codes "partial cleanup: " ++ join (codes ", ") (e ∷ es))

  -- The service first, then the pod, whatever the first call answers.
  unfoldable pub handle_delete : Text → World → Reply Done × World
  unfolding unless_says
  handle_delete id w =
      let (service, w1) = env.backend.delete_service (svc_name id) w in
      let (pod, w2) = env.backend.delete_pod (pod_name id) 0 w1 in
      (
        deletion id (
            failure (codes "service: ") (unless_says (codes "not found") service)
            ++ failure (codes "pod: ") (unless_says (codes "not found") pod)),
        w2,
      )

  unfoldable pub handle_evict : Text → World → Reply Done × World
  handle_evict id w =
      let phase = env.backend.get_pod_phase (pod_name id) w in
      let (error, w1) = env.backend.delete_pod (pod_name id) 30 w in
      if not (str_eq phase (codes "Running")) && not (str_eq phase (codes "Pending"))
      then (writes_json 200 (already_gone id), w)
      else elim error [
        | some e ↦
            if contains_text e (codes "not found")
            then (writes_json 200 (already_gone id), w1)
            else (writes_error 500 (codes "eviction failed: " ++ e), w1)
        | none ↦ (writes_json 200 (evicted id), (env.backend.delete_service (svc_name id) w1).1)
      ]
