-- ===== src/AuthProxy/Handlers/Mails.antt =====
-- The two emails of cmd/authproxy/handlers_reset.go, with the address of the app from tokens.go.
use agentry.Base.{
  ℕ, ◌+◌, ◌*◌, not, Option, none, some, if◌then◌else◌, Text, codes, [], ◌∷◌, ◌++◌, is_empty, ◌==◌,
}
use agentry.AuthProxy.Request.{Request, Packages}
use agentry.AuthProxy.Store.Statements.{User, done, failed}
use agentry.AuthProxy.Store.Security.{create_email_token, hash_token}
use agentry.AuthProxy.Handlers.State.{Config, State, World, Mail, with_db}

abbrev pub purpose_reset : Text
purpose_reset = codes "reset"

abbrev pub purpose_verify : Text
purpose_verify = codes "verify"

abbrev pub second : ℕ
second = 1_000_000_000

abbrev pub reset_token_ttl : ℕ
reset_token_ttl = 3600 * second

abbrev pub verify_token_ttl : ℕ
verify_token_ttl = 24 * 3600 * second

-- `strings.TrimRight(s, "/")`
unfoldable pub trim_slashes : Text → Text
trim_slashes [] = []
trim_slashes (a ∷ s) =
    let rest = trim_slashes s in
    if is_empty rest then (if a == b'/' then [] else a ∷ []) else a ∷ rest

unfoldable pub public_base_url : Request → Text
public_base_url r =
    let proto =
      if is_empty r.forwarded_proto
      then (if r.tls then codes "https" else codes "http")
      else r.forwarded_proto in
    let host = if is_empty r.forwarded_host then r.host else r.forwarded_host in
    proto ++ (codes "://" ++ trim_slashes host)

pub record Sent : Type 0 where
  pub state : State
  pub mail : Option Mail

-- The shape that both functions have: mint, store the hash, and mail the link.
unfoldable pub send_link :
    Packages → Config → World → Request → User → Text → ℕ → Text → Text → State → Sent
send_link pk cfg w r user purpose ttl path subject s =
    if not cfg.mailer then record { state = s; mail = none } else elim w.raw_token [
      | none ↦ record { state = s; mail = none }
      | some raw ↦
          let created =
            create_email_token w.token_delete_fails w.token_insert_fails user.id purpose
              (hash_token pk raw) (w.now + ttl) s.db in
          record {
            state = with_db created.1 s;
            mail = elim created.0 [
              | failed e ↦ none
              | done n ↦ some (record {
                to = user.email;
                subject = subject;
                link = public_base_url r ++ (path ++ raw);
              })
            ];
          }
    ]

unfoldable pub send_reset_email : Packages → Config → World → Request → User → State → Sent
send_reset_email pk cfg w r user s =
    send_link pk cfg w r user purpose_reset reset_token_ttl (codes "/auth/reset?token=")
      (codes "Reset your password") s

unfoldable pub send_verify_email : Packages → Config → World → Request → User → State → Sent
send_verify_email pk cfg w r user s =
    send_link pk cfg w r user purpose_verify verify_token_ttl (codes "/auth/verify?token=")
      (codes "Verify your email") s
