-- ===== src/AuthProxy/Handlers/Login.antt =====
-- postLogin of cmd/authproxy/handlers.go, and postLogout. A dash in a message is written in ASCII.
use agentry.Base.{
  ◌+◌, Bool, true, not, ◌&&◌, ◌||◌, some, if◌then◌else◌, Text, codes, ◌∷◌, ◌++◌, is_empty, [], leb,
  ◌-◌, ◌==◌, str_eq,
}
use agentry.AuthProxy.Lockout.{lockout_until, is_locked}
use agentry.AuthProxy.Request.{Request, Packages}
use agentry.AuthProxy.SameOrigin.{same_origin, validate_same_origin}
use agentry.AuthProxy.Csrf.{csrf_valid, validate_csrf}
use agentry.AuthProxy.Session.{clear_session_cookie}
use agentry.AuthProxy.Store.{get_user_by_email}
use agentry.AuthProxy.Store.Statements.{User, StoreError, no_rows, done, failed}
use agentry.AuthProxy.Store.Security.{record_login_failure, reset_login_attempts}
use agentry.AuthProxy.Handlers.State.{
  Config, State, World, unix, Reply, redirect, page, http_error, Effect, answer, with_db,
  rate_limited, sign_in, form_email_of,
}
use agentry.AuthProxy.Handlers.Mails.{send_verify_email}

-- `strings.Title`, over ASCII: each letter behind a byte that is no letter, digit or underscore.
unfoldable pub title_from : Bool → Text → Text
title_from start [] = []
title_from start (c ∷ s) =
    let upper = if start && leb b'a' c && leb c b'z' then c - 32 else c in
    let in_word =
      (leb b'a' c && leb c b'z')
      || (leb b'A' c && leb c b'Z')
      || (leb b'0' c && leb c b'9')
      || c == b'_' in
    upper ∷ title_from (not in_word) s

-- providerDisplayName of templates.go
unfoldable pub provider_display_name : Text → Text
provider_display_name n =
    if str_eq n (codes "google")
    then codes "Google"
    else if str_eq n (codes "github")
    then codes "GitHub"
    else if str_eq n (codes "microsoft")
    then codes "Microsoft"
    else if str_eq n (codes "apple")
    then codes "Apple"
    else if str_eq n (codes "generic-oidc")
    then codes "SSO"
    else title_from true n

unfoldable pub login_error : Text → Text → Reply
login_error msg email = page 401 msg email

unfoldable pub record_failure : World → User → State → State
record_failure w user s =
    let attempts = user.failed_attempts + 1 in
    let until = lockout_until w.now attempts in
    with_db (record_login_failure w.update_fails user.id attempts until s.db).1 s

unfoldable pub lookup_message : StoreError → Text
lookup_message no_rows = codes "Invalid email or password"
lookup_message _ = codes "Sign-in is temporarily unavailable"

-- Behind the password: the verification gate, and the session.
unfoldable pub login_verified : Packages → Config → World → Request → Text → User → State → Effect
login_verified pk cfg w r email user s =
    if cfg.require_verification && not user.email_verified
    then (let sent = send_verify_email pk cfg w r user s in
        record {
          reply =
              login_error (codes "Please verify your email -- we just sent you a fresh link.")
                email;
          state = sent.state;
          mail = sent.mail;
        })
    else answer (with_db (reset_login_attempts w.update_fails user.id s.db).1 s)
        (sign_in pk cfg w r user)

unfoldable pub login_user : Packages → Config → World → Request → Text → User → State → Effect
login_user pk cfg w r email user s =
    if is_locked user.locked_until w.now
    then answer s
        (login_error (codes "Too many failed attempts. Try again in a few minutes.") email)
    else if is_empty user.password_hash
    then answer s (
        login_error
          (codes "This account uses "
            ++ (provider_display_name user.provider ++ codes " sign-in. Use the button above."))
          email)
    else if not (pk.bcrypt_matches user.password_hash r.form_password)
    then answer (record_failure w user s) (login_error (codes "Invalid email or password") email)
    else login_verified pk cfg w r email user s

unfoldable pub login_email : Packages → Config → World → Request → Text → State → Effect
login_email pk cfg w r email s =
    if is_empty email || is_empty r.form_password
    then answer s (login_error (codes "Email and password are required") email)
    else elim (get_user_by_email w.lookup_fails email s.db) [
      | failed e ↦ answer s (login_error (lookup_message e) email)
      | done user ↦ login_user pk cfg w r email user s
    ]

unfoldable pub login_checked : Packages → Config → World → Request → State → Effect
login_checked pk cfg w r s = elim (validate_same_origin pk r) [
  | same_origin ↦ elim (validate_csrf pk (unix w.now) r cfg.secret) [
    | csrf_valid ↦ login_email pk cfg w r (form_email_of r) s
    | _ ↦
        answer s (
          login_error (codes "Your sign-in session expired -- please try again.") (form_email_of r))
  ]
  | _ ↦ answer s (http_error 403)
]

unfoldable pub post_login : Packages → Config → World → Request → State → Effect
post_login pk cfg w r s =
    let limited = rate_limited w r s in
    if limited.0 then answer limited.1 (http_error 429) else login_checked pk cfg w r limited.1

unfoldable pub post_logout : Packages → World → Request → State → Effect
post_logout pk w r s = elim (validate_same_origin pk r) [
  | same_origin ↦ answer s (redirect (codes "/auth/login") (some (clear_session_cookie r)))
  | _ ↦ answer s (http_error 403)
]
