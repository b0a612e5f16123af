-- ===== src/AuthProxy/Handlers/Admission.antt =====
-- Who postLogin of cmd/authproxy/handlers.go signs in.
use agentry.Base.{◌≡◌, inl, inr, true, false, not, ◌||◌, some, Text, arith}
use agentry.AuthProxy.Lockout.{is_locked}
use agentry.AuthProxy.Request.{Request, Packages}
use agentry.AuthProxy.SameOrigin.{same_origin, validate_same_origin}
use agentry.AuthProxy.Csrf.{csrf_valid, validate_csrf}
use agentry.AuthProxy.Session.{Cookie, set_session_cookie}
use agentry.AuthProxy.Store.{get_user_by_email}
use agentry.AuthProxy.Store.Statements.{User, Outcome-cases, done}
use agentry.AuthProxy.Handlers.State.{
  Config, State, World, unix, redirect, rate_limited, sign_in, payload_of, form_email_of,
}
use agentry.AuthProxy.Handlers.Login.{
  login_error, login_verified, login_user, login_email, login_checked, post_login,
}

-- What a sign-in says of the request and of the state that it came to.
pub record IsAdmitted (pk : Packages) (cfg : Config) (w : World) (r : Request) (s : State)
    (c : Cookie) : Type 0 where
  pub user : User
  pub not_limited : (rate_limited w r s).0 ≡ false
  pub from_here : validate_same_origin pk r ≡ same_origin
  pub own_form : validate_csrf pk (unix w.now) r cfg.secret ≡ csrf_valid
  pub known : get_user_by_email w.lookup_fails (form_email_of r) s.db ≡ done user
  pub unlocked : is_locked user.locked_until w.now ≡ false
  pub right_password : pk.bcrypt_matches user.password_hash r.form_password ≡ true
  pub verified : (not cfg.require_verification || user.email_verified) ≡ true
  pub own_cookie : set_session_cookie pk (unix w.now) r (payload_of user) cfg.secret ≡ some c

-- The rate limit leaves the tables alone.
pub rate_limited-db : (w : World) (r : Request) (s : State) → (rate_limited w r s).1.db ≡ s.db
unfolding rate_limited
rate_limited-db w r s = ground arith

-- The gates before the credentials.
pub login_gates :
    (pk : Packages) (cfg : Config) (w : World) (r : Request) (s : State) (to : Text) (c : Cookie)
    → (post_login pk cfg w r s).reply ≡ redirect to (some c)
    → ((rate_limited w r s).0 ≡ false)
      × (validate_same_origin pk r ≡ same_origin)
      × (validate_csrf pk (unix w.now) r cfg.secret ≡ csrf_valid)
      × ((login_email pk cfg w r (form_email_of r) (rate_limited w r s).1).reply
          ≡ redirect to (some c))
unfolding post_login login_checked login_error
login_gates pk cfg w r s to c h = (ground arith, ground arith, ground arith, ground arith)

sign_in_cookie :
    (pk : Packages) (cfg : Config) (w : World) (r : Request) (user : User) (to : Text) (c : Cookie)
    → sign_in pk cfg w r user ≡ redirect to (some c)
    → set_session_cookie pk (unix w.now) r (payload_of user) cfg.secret ≡ some c
unfolding sign_in
sign_in_cookie pk cfg w r user to c h = ground arith

login_user-sign_in :
    (pk : Packages) (cfg : Config) (w : World) (r : Request) (email : Text) (user : User)
    (s : State) (to : Text) (c : Cookie)
    → (login_user pk cfg w r email user s).reply ≡ redirect to (some c)
    → (is_locked user.locked_until w.now ≡ false)
      × (pk.bcrypt_matches user.password_hash r.form_password ≡ true)
      × ((not cfg.require_verification || user.email_verified) ≡ true)
      × (sign_in pk cfg w r user ≡ redirect to (some c))
unfolding login_user login_verified login_error
login_user-sign_in pk cfg w r email user s to c h =
    (ground arith, ground arith, ground arith, ground arith)

-- A sign-in, the redirect that carries a cookie, happens only for a request that is not over the
-- rate limit, comes from the same origin and carries a valid form token, with the password of an
-- account that is not locked and, where verification is required, is verified; the cookie is the
-- session of that account.
pub post_login-IsAdmitted :
    (pk : Packages) (cfg : Config) (w : World) (r : Request) (s : State) (to : Text) (c : Cookie)
    → (post_login pk cfg w r s).reply ≡ redirect to (some c)
    → IsAdmitted pk cfg w r s c
unfolding login_email login_error
post_login-IsAdmitted pk cfg w r s to c h =
    let gates = login_gates pk cfg w r s to c h in
    elim (Outcome-cases (get_user_by_email w.lookup_fails (form_email_of r) s.db)) [
      | inl (e, missing) ↦ absurd (ground (arith, gates.3, rate_limited-db w r s))
      | inr (user, found) ↦
          let same = rate_limited-db w r s in
          let entered : (login_user pk cfg w r (form_email_of r) user (rate_limited w r s).1).reply
              ≡ redirect to (some c) =
            ground (arith, gates.3, same, found) in
          let accepted =
            login_user-sign_in pk cfg w r (form_email_of r) user (rate_limited w r s).1 to c
              entered in
          record {
            user = user;
            not_limited = gates.0;
            from_here = gates.1;
            own_form = gates.2;
            known = found;
            unlocked = accepted.0;
            right_password = accepted.1;
            verified = accepted.2;
            own_cookie = sign_in_cookie pk cfg w r user to c accepted.3;
          }
    ]
