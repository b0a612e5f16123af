-- ===== src/AuthProxy/Handlers/Reset.antt =====
-- cmd/authproxy/handlers_reset.go: forgotten passwords and verification.
use agentry.Base.{not, none, some, if◌then◌else◌, Text, codes, is_empty, [], str_eq, trim_space}
use agentry.AuthProxy.Password.{validate_password}
use agentry.AuthProxy.Request.{Request, Packages}
use agentry.AuthProxy.SameOrigin.{same_origin, validate_same_origin}
use agentry.AuthProxy.Csrf.{csrf_valid, validate_csrf}
use agentry.AuthProxy.Store.{get_user_by_email}
use agentry.AuthProxy.Store.Statements.{StoreError, token_invalid, done, failed}
use agentry.AuthProxy.Store.Security.{
  consume_email_token, update_password, mark_email_verified, hash_token,
}
use agentry.AuthProxy.Handlers.State.{
  Config, State, World, unix, Reply, redirect, page, http_error, Effect, answer, with_db,
  rate_limited, form_email_of,
}
use agentry.AuthProxy.Handlers.Mails.{send_reset_email, purpose_reset, purpose_verify}

abbrev pub forgot_notice : Reply
forgot_notice = page 200 (codes "Check your email") []

unfoldable pub forgot_email : Packages → Config → World → Request → Text → State → Effect
forgot_email pk cfg w r email s =
    if is_empty email
    then answer s forgot_notice
    else elim (get_user_by_email w.lookup_fails email s.db) [
      | failed e ↦ answer s forgot_notice
      | done user ↦
          let sent = send_reset_email pk cfg w r user s in
          record { reply = forgot_notice; state = sent.state; mail = sent.mail }
    ]

-- The result of validateCSRF is dropped.
unfoldable pub post_forgot : Packages → Config → World → Request → State → Effect
post_forgot pk cfg w r s =
    let limited = rate_limited w r s in
    if limited.0 then answer limited.1 (http_error 429) else elim (validate_same_origin pk r) [
      | same_origin ↦ forgot_email pk cfg w r (form_email_of r) limited.1
      | _ ↦ answer limited.1 (http_error 403)
    ]

unfoldable pub reset_error : Text → Reply
reset_error msg = page 400 msg []

unfoldable pub consume_error : StoreError → Reply
consume_error token_invalid = page 400 (codes "Link expired") []
consume_error _ = http_error 500

-- Behind the policy: the token is used, and the password set.
unfoldable pub reset_password : Packages → World → Request → Text → State → Effect
reset_password pk w r raw s =
    let consumed =
      consume_email_token w.token_update_fails w.token_select_fails w.now purpose_reset
        (hash_token pk raw) s.db in
    elim consumed.0 [
      | failed e ↦ answer (with_db consumed.1 s) (consume_error e)
      | done uid ↦
          let updated = update_password pk w.update_fails uid r.form_password consumed.1 in
          answer (with_db updated.1 s) (elim updated.0 [
            | failed e ↦ http_error 500
            | done n ↦ redirect (codes "/auth/login?reset=1") none
          ])
    ]

unfoldable pub reset_checked : Packages → Config → World → Request → State → Effect
reset_checked pk cfg w r s =
    let raw = trim_space r.form_token in
    elim (validate_csrf pk (unix w.now) r cfg.secret) [
      | csrf_valid ↦
          if is_empty raw
          then answer s (page 400 (codes "Invalid link") [])
          else if not (str_eq r.form_password r.form_confirm)
          then answer s (reset_error (codes "The two passwords don't match."))
          else elim (validate_password pk r.form_password) [
            | some msg ↦ answer s (reset_error msg)
            | none ↦ reset_password pk w r raw s
          ]
      | _ ↦
          answer s
            (reset_error (codes "Your session expired -- please re-enter your new password."))
    ]

unfoldable pub post_reset : Packages → Config → World → Request → State → Effect
post_reset pk cfg w r s =
    let limited = rate_limited w r s in
    if limited.0 then answer limited.1 (http_error 429) else elim (validate_same_origin pk r) [
      | same_origin ↦ reset_checked pk cfg w r limited.1
      | _ ↦ answer limited.1 (http_error 403)
    ]

unfoldable pub get_verify : Packages → World → Request → State → Effect
get_verify pk w r s =
    let raw = trim_space r.query_token in
    let consumed =
      consume_email_token w.token_update_fails w.token_select_fails w.now purpose_verify
        (hash_token pk raw) s.db in
    if is_empty raw then answer s (page 400 (codes "Invalid link") []) else elim consumed.0 [
      | failed e ↦ answer (with_db consumed.1 s) (page 400 (codes "Link expired") [])
      | done uid ↦
          let marked = mark_email_verified w.update_fails uid consumed.1 in
          answer (with_db marked.1 s) (elim marked.0 [
            | failed e ↦ http_error 500
            | done n ↦ redirect (codes "/auth/login?verified=1") none
          ])
    ]
