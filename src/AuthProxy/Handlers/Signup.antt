-- ===== src/AuthProxy/Handlers/Signup.antt =====
-- postSignup of cmd/authproxy/handlers.go.
use agentry.Base.{◌||◌, if◌then◌else◌, Text, codes, is_empty, length, ltb, trim_space}
use agentry.AuthProxy.Request.{Request, Packages}
use agentry.AuthProxy.SameOrigin.{same_origin, validate_same_origin}
use agentry.AuthProxy.Csrf.{csrf_valid, validate_csrf}
use agentry.AuthProxy.Store.{create_user_password}
use agentry.AuthProxy.Store.Statements.{User, StoreError, email_taken, done, failed}
use agentry.AuthProxy.Handlers.State.{
  Config, State, World, unix, Reply, page, http_error, Effect, answer, with_db, rate_limited,
  sign_in, form_email_of,
}
use agentry.AuthProxy.Handlers.Mails.{send_verify_email}

unfoldable pub signup_error : Text → Text → Reply
signup_error msg email = page 400 msg email

unfoldable pub create_message : StoreError → Text
create_message email_taken =
    codes "An account with that email already exists. Try signing in instead."
create_message _ = codes "Sign-up is temporarily unavailable"

-- Behind the new row: the verification link, or the session.
unfoldable pub signed_up : Packages → Config → World → Request → User → State → Effect
signed_up pk cfg w r user s =
    if cfg.require_verification
    then (let sent = send_verify_email pk cfg w r user s in
        record {
          reply = page 200 (codes "Check your email") user.email;
          state = sent.state;
          mail = sent.mail;
        })
    else answer s (sign_in pk cfg w r user)

unfoldable pub signup_email : Packages → Config → World → Request → Text → State → Effect
signup_email pk cfg w r email s =
    let created =
      create_user_password pk w.insert_fails w.new_id w.now email r.form_password
        (trim_space r.form_name) s.db in
    if is_empty email || is_empty r.form_password
    then answer s (signup_error (codes "Email and password are required") email)
    else if ltb (length r.form_password) 8
    then answer s (signup_error (codes "Password must be at least 8 characters") email)
    else elim created.0 [
      | failed e ↦ answer (with_db created.1 s) (signup_error (create_message e) email)
      | done user ↦ signed_up pk cfg w r user (with_db created.1 s)
    ]

unfoldable pub signup_checked : Packages → Config → World → Request → State → Effect
signup_checked pk cfg w r s = elim (validate_same_origin pk r) [
  | same_origin ↦ elim (validate_csrf pk (unix w.now) r cfg.secret) [
    | csrf_valid ↦ signup_email pk cfg w r (form_email_of r) s
    | _ ↦
        answer s (
          signup_error (codes "Your sign-up session expired -- please try again.")
            (form_email_of r))
  ]
  | _ ↦ answer s (http_error 403)
]

unfoldable pub post_signup : Packages → Config → World → Request → State → Effect
post_signup pk cfg w r s =
    let limited = rate_limited w r s in
    if limited.0 then answer limited.1 (http_error 429) else signup_checked pk cfg w r limited.1
