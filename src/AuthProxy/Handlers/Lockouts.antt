-- ===== src/AuthProxy/Handlers/Lockouts.antt =====
-- How postLogin of cmd/authproxy/handlers.go counts wrong passwords, and what a lock stops.
use agentry.Base.{
  ◌+◌, ◌-◌, ◌*◌, ◌^◌, min, ◌≡◌, refl, sym, ap, inl, inr, Bool, true, false, ◌||◌, none, some,
  if◌then◌else◌, Text, codes, ◌∷◌, [], List, is_empty, arith, Bool-cases, str_eq, str_eq_iff, ltb,
}
use agentry.AuthProxy.Lockout.{
  lockout_until, is_locked, lockout_until-min, minute, lockout_threshold, lockout_max_delay,
}
use agentry.AuthProxy.Request.{Request, Packages}
use agentry.AuthProxy.SameOrigin.{same_origin, validate_same_origin}
use agentry.AuthProxy.Csrf.{csrf_valid, validate_csrf}
use agentry.AuthProxy.Store.{get_user_by_email, has_email, clean_email}
use agentry.AuthProxy.Store.Statements.{User, done, first_user, find_user, set_rows, update_users}
use agentry.AuthProxy.Store.Security.{record_login_failure, with_failures}
use agentry.AuthProxy.Handlers.State.{Config, State, World, unix, page, rate_limited, form_email_of}
use agentry.AuthProxy.Handlers.Login.{
  login_error, record_failure, login_user, login_email, login_checked, post_login,
}
use agentry.AuthProxy.Handlers.Admission.{rate_limited-db}

-- The attempt reaches the account `user`: it passes the gates and names that account.
pub record Reaches (pk : Packages) (cfg : Config) (w : World) (r : Request) (s : State)
    (user : User) : Type 0 where
  pub not_limited : (rate_limited w r s).0 ≡ false
  pub from_here : validate_same_origin pk r ≡ same_origin
  pub own_form : validate_csrf pk (unix w.now) r cfg.secret ≡ csrf_valid
  pub filled : (is_empty (form_email_of r) || is_empty r.form_password) ≡ false
  pub known : get_user_by_email w.lookup_fails (form_email_of r) s.db ≡ done user

post_login-Reaches :
    (pk : Packages) (cfg : Config) (w : World) (r : Request) (s : State) (user : User)
    → Reaches pk cfg w r s user
    → post_login pk cfg w r s ≡ login_user pk cfg w r (form_email_of r) user (rate_limited w r s).1
unfolding post_login login_checked login_email
post_login-Reaches pk cfg w r s user h =
    ground (arith, h.not_limited, h.from_here, h.own_form, h.filled, h.known, rate_limited-db w r s)

-- An update of the row that a lookup finds shows in the same lookup.
first_user-set_rows :
    (f : User → Bool) (g : User → User) (uid : Text) (us : List User) (u : User)
    → ((v : User) → f (g v) ≡ f v)
    → first_user f us ≡ some u
    → u.id ≡ uid
    → first_user f (set_rows uid g us) ≡ some (g u)
unfolding first_user set_rows
first_user-set_rows f g uid [] u k h e = ground arith
first_user-set_rows f g uid (v ∷ us) u k h e = elim (Bool-cases (f v)) [
  | inl hit ↦
      let same : v ≡ u = ground arith in
      let own : str_eq v.id uid ≡ true = ground (arith, str_eq_iff v.id uid, ap (λ x. x.id) same) in
      ground (arith, k v, same, own)
  | inr miss ↦ ground (arith, k v, first_user-set_rows f g uid us u k)
]

record_failure-lookup :
    (w : World) (email : Text) (user : User) (s : State) (fails : Bool)
    → get_user_by_email fails email s.db ≡ done user
    → w.update_fails ≡ false
    → get_user_by_email false email (record_failure w user s).db
      ≡ done (
          with_failures
            (user.failed_attempts + 1)
            (lockout_until w.now (user.failed_attempts + 1))
            user)
unfolding get_user_by_email find_user record_failure record_login_failure update_users has_email
record_failure-lookup w email user s fails h works =
    let g : User → User =
      with_failures (user.failed_attempts + 1) (lockout_until w.now (user.failed_attempts + 1)) in
    let hit : first_user (has_email (clean_email email)) s.db.users ≡ some user = ground arith in
    let after =
      first_user-set_rows (has_email (clean_email email)) g user.id s.db.users user
        (λ v. unfold with_failures in refl) hit refl in
    rw (works, after) refl

-- A wrong password for an account that is not locked and has a password, with no statement failing,
-- counts one more failure, and locks the account, from the fifth failure on, for a minute that
-- doubles with each failure more and is at most half an hour; nobody is signed in.
pub post_login-wrong :
    (pk : Packages) (cfg : Config) (w : World) (r : Request) (s : State) (user : User)
    → Reaches pk cfg w r s user
    → is_locked user.locked_until w.now ≡ false
    → is_empty user.password_hash ≡ false
    → pk.bcrypt_matches user.password_hash r.form_password ≡ false
    → w.update_fails ≡ false
    → ((post_login pk cfg w r s).reply
        ≡ page 401 (codes "Invalid email or password") (form_email_of r))
      × (get_user_by_email false (form_email_of r) (post_login pk cfg w r s).state.db
          ≡ done (
              with_failures
                (user.failed_attempts + 1)
                (if ltb (user.failed_attempts + 1) lockout_threshold
                  then none
                  else some (
                      w.now
                      + min lockout_max_delay
                          (minute * 2 ^ (user.failed_attempts + 1 - lockout_threshold))))
                user))
unfolding login_user login_error
post_login-wrong pk cfg w r s user h unlocked has_password wrong works =
    let counted =
      record_failure-lookup w (form_email_of r) user (rate_limited w r s).1 w.lookup_fails
        (rw (rate_limited-db w r s) h.known) works in
    rw (post_login-Reaches pk cfg w r s user h, unlocked, has_password, wrong)
      (refl, rw (sym (lockout_until-min w.now (user.failed_attempts + 1))) counted)
