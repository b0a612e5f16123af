-- ===== src/AuthProxy/Tests/Accounts.antt =====
-- Accounts of cmd/authproxy at concrete inputs.
use agentry.Base.{
  trim_left, trim_right, ◌≡◌, refl, true, false, ◌||◌, none, some, [], ◌∷◌, ◌++◌, arith, codes,
  str_eq, is_empty, to_lower, trim_space, split_byte, decimal, digits, parse_decimal, parse_from,
  has_prefix, lookup, insert, delete,
}
use agentry.AuthProxy.Request.{Request, SessionPayload}
use agentry.Base.Int.{pos, format_int}
use agentry.AuthProxy.Lockout.{is_locked}
use agentry.AuthProxy.Session.{Cookie, session_max_age}
use agentry.AuthProxy.RateLimit.{allow, times_of, prune, collect, new_rate_limiter}
use agentry.AuthProxy.SameOrigin.{same_origin, validate_same_origin, check_origin_host, public_host}
use agentry.AuthProxy.Csrf.{
  csrf_valid, validate_csrf, validate_token, validate_parts, parse_int, csrf_sign,
}
use agentry.AuthProxy.Store.{create_user_password, get_user_by_email, has_email}
use agentry.AuthProxy.Store.Statements.{
  has_token, drop_tokens, insert_token, clashes, User, Db, Outcome, done, failed, token_invalid,
  find_user, first_user, use_tokens, live_token, any_token,
}
use agentry.AuthProxy.Store.Security.{create_email_token, consume_email_token, with_failures}
use agentry.AuthProxy.Store.Keys.{Keyed}
use agentry.AuthProxy.Store.Accounts.{step-Keyed, created}
use agentry.AuthProxy.Handlers.State.{
  Config, State, World, unix, Reply, redirect, page, Effect, rate_limited, form_email_of,
}
use agentry.AuthProxy.Handlers.Login.{post_login}
use agentry.AuthProxy.Handlers.Reset.{post_forgot, post_reset}
use agentry.AuthProxy.Handlers.Admission.{IsAdmitted, post_login-IsAdmitted}
use agentry.AuthProxy.Handlers.Lockouts.{Reaches, post_login-wrong}
use agentry.AuthProxy.Store.Security.{reset_login_attempts}
use agentry.AuthProxy.Store.Accounts.{attempts_reset}
use agentry.AuthProxy.Store.Spent.{at_once, and_then}
use agentry.AuthProxy.Handlers.Resets.{post_forgot-blind, post_reset-once}
use agentry.AuthProxy.Tests.Models.{
  write_payload, alice_payload, model, shift_up, secret, world, config, login_with, alice,
  locked_alice, accounts, state,
}

abbrev right : Request
right = login_with (codes "tr0ub4dor")

abbrev wrong : Request
wrong = login_with (codes "hunter22")

verify_token_created :
    (create_email_token false false
      (codes "u1")
      (codes "verify")
      (codes "h2")
      5000
      (accounts alice)).0
    ≡ done 1
unfolding create_email_token insert_token has_token drop_tokens str_eq
verify_token_created = refl

step-Keyed_example :
    Keyed
      (create_user_password model false
        (some (codes "u2"))
        0
        (codes "bo@x.io")
        (codes "correcthorse")
        (codes "Bo")
        (accounts alice)).1.users
step-Keyed_example =
    step-Keyed model 0 (accounts alice)
      (create_user_password model false (some (codes "u2")) 0 (codes "bo@x.io")
        (codes "correcthorse") (codes "Bo") (accounts alice)).1
      (unfold clashes in refl, tt)
      (created false (some (codes "u2")) (codes "bo@x.io") (codes "correcthorse") (codes "Bo"))

request_same_origin : validate_same_origin model wrong ≡ same_origin
unfolding validate_same_origin check_origin_host public_host is_empty str_eq to_lower has_prefix
request_same_origin = refl

request_csrf_valid : validate_csrf model (unix world.now) wrong secret ≡ csrf_valid
unfolding validate_csrf validate_token validate_parts is_empty split_byte parse_int parse_decimal
    parse_from csrf_sign format_int decimal digits str_eq
request_csrf_valid = refl

request_in_limit : (u : User) → (rate_limited world wrong (state u)).0 ≡ false
unfolding rate_limited allow new_rate_limiter times_of prune lookup
request_in_limit u = refl

alice_found : get_user_by_email false (form_email_of wrong) (accounts alice) ≡ done alice
unfolding get_user_by_email find_user first_user has_email to_lower trim_space trim_left trim_right
    str_eq is_empty
alice_found = refl

locked_alice_found :
    get_user_by_email false (form_email_of wrong) (accounts locked_alice) ≡ done locked_alice
unfolding get_user_by_email find_user first_user has_email to_lower trim_space trim_left trim_right
    str_eq is_empty
locked_alice_found = refl

form_filled : (is_empty (form_email_of wrong) || is_empty wrong.form_password) ≡ false
unfolding is_empty to_lower trim_space trim_left trim_right
form_filled = refl

alice_reached : Reaches model config world wrong (state alice) alice
alice_reached = record {
  not_limited = request_in_limit alice;
  from_here = request_same_origin;
  own_form = request_csrf_valid;
  filled = form_filled;
  known = alice_found;
}

-- The fifth failure locks the account for a minute.
post_login-wrong_example :
    ((post_login model config world wrong (state alice)).reply
      ≡ page 401 (codes "Invalid email or password") (form_email_of wrong))
    × (get_user_by_email false
          (form_email_of wrong)
          (post_login model config world wrong (state alice)).state.db
        ≡ done (with_failures 5 (some 1_060_000_000_000) alice))
post_login-wrong_example =
    post_login-wrong model config world wrong (state alice) alice alice_reached
      (unfold is_locked in refl) (unfold is_empty in refl) (unfold str_eq in refl) refl

abbrev fresh_payload : SessionPayload
fresh_payload = record alice_payload { exp = pos 2_593_000 }

abbrev alice_cookie : Cookie
alice_cookie = record {
  value =
      shift_up (write_payload fresh_payload)
      ++ (b'.' ∷ shift_up (secret ++ shift_up (write_payload fresh_payload)));
  secure = true;
  max_age = pos session_max_age;
}

alice_signs_in :
    (post_login model config world right (state alice)).reply
    ≡ redirect (codes "/") (some alice_cookie)
unfolding post_login rate_limited allow new_rate_limiter prune times_of lookup validate_same_origin
    is_empty to_lower public_host str_eq check_origin_host has_prefix validate_csrf validate_token
    validate_parts csrf_sign format_int parse_int collect decimal digits parse_decimal parse_from
    delete insert split_byte trim_left trim_right trim_space
    agentry.AuthProxy.Handlers.Login.login_checked agentry.AuthProxy.Handlers.Login.login_email
    agentry.AuthProxy.Handlers.Login.login_user agentry.AuthProxy.Handlers.Login.login_verified
    agentry.AuthProxy.Handlers.State.payload_of agentry.AuthProxy.Handlers.State.sign_in is_locked
    agentry.AuthProxy.Session.request_is_https agentry.AuthProxy.Session.seal_session
    agentry.AuthProxy.Session.set_session_cookie find_user first_user get_user_by_email has_email
alice_signs_in = refl

post_login-IsAdmitted_example : IsAdmitted model config world right (state alice) alice_cookie
post_login-IsAdmitted_example =
    post_login-IsAdmitted model config world right (state alice) (codes "/") alice_cookie
      alice_signs_in

-- Known or not, an address gets the same reply.
post_forgot-blind_example :
    (post_forgot model config world right (state alice)).reply
    ≡ (post_forgot model config world right
        (record { db = record { users = []; tokens = [] }; limiter = (state alice).limiter })).reply
post_forgot-blind_example =
    post_forgot-blind model config world world right (state alice)
      (record { db = record { users = []; tokens = [] }; limiter = (state alice).limiter }) refl
      refl

alice_resets :
    (post_reset model config world right (state alice)).reply
    ≡ redirect (codes "/auth/login?reset=1") none
unfolding post_reset rate_limited allow new_rate_limiter prune times_of lookup validate_same_origin
    is_empty to_lower public_host str_eq check_origin_host has_prefix validate_csrf validate_token
    validate_parts csrf_sign format_int parse_int collect decimal digits parse_decimal parse_from
    delete insert split_byte trim_left trim_right trim_space
    agentry.AuthProxy.Handlers.Reset.reset_checked agentry.AuthProxy.Handlers.Reset.reset_password
    agentry.AuthProxy.Handlers.Reset.consume_error agentry.AuthProxy.Password.all_runes
    agentry.AuthProxy.Password.all_same_rune agentry.AuthProxy.Password.is_member
    agentry.AuthProxy.Password.is_space_rune agentry.AuthProxy.Password.validate_password
    consume_email_token agentry.AuthProxy.Store.Security.hash_token
    agentry.AuthProxy.Store.Security.some_affected agentry.AuthProxy.Store.Security.update_password
    any_token live_token use_tokens agentry.AuthProxy.Store.Statements.count_rows
    agentry.AuthProxy.Store.Statements.token_owner agentry.AuthProxy.Store.Statements.update_users
    agentry.AuthProxy.Store.Statements.use_token
alice_resets = refl

-- The state after the reset of Al, and a counter of failures that is cleared since.
abbrev reset_done : State
reset_done = (post_reset model config world right (state alice)).state

abbrev cleared_since : State
cleared_since = record reset_done { db = (reset_login_attempts false (codes "u1") reset_done.db).1 }

post_reset-once_example : ¬ (
    (post_reset model config world wrong cleared_since).reply
    ≡ redirect (codes "/auth/login?reset=1") none)
unfolding agentry.AuthProxy.Store.Spent.stores_token
post_reset-once_example =
    post_reset-once model config world world right wrong (state alice) cleared_since
      (codes "/auth/login?reset=1") (codes "/auth/login?reset=1") none none alice_resets
      (and_then 0 at_once (attempts_reset false (codes "u1")) refl) (omega arith) refl
