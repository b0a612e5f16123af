-- ===== src/AuthProxy/Handlers/State.antt =====
-- What the handlers of cmd/authproxy share: their state and configuration, what a call takes from
-- the clock, from random bytes and from the database, and what it writes. A page stands for its
-- message and the email in its form; the fresh form token in it is left out.
use agentry.Base.{
  ℕ, ◌/◌, Bool, true, false, not, Option, none, some, if◌then◌else◌, Text, codes, ◌∷◌, ◌++◌,
  to_lower, trim_space,
}
use agentry.AuthProxy.RateLimit.{RateLimiter, allow}
use agentry.AuthProxy.Request.{Request, Packages, SessionPayload}
use agentry.AuthProxy.Session.{Cookie, set_session_cookie}
use agentry.AuthProxy.Store.Statements.{User, Db}

pub record Config : Type 0 where
  pub secret : Text
  pub require_verification : Bool
  pub mailer : Bool

pub record State : Type 0 where
  pub db : Db
  pub limiter : Option RateLimiter

-- Each `fails` is the outcome of one statement, and `sends` that of the mailer.
pub record World : Type 0 where
  pub now : ℕ
  pub new_id : Option Text
  pub raw_token : Option Text
  pub lookup_fails : Bool
  pub insert_fails : Bool
  pub update_fails : Bool
  pub token_delete_fails : Bool
  pub token_insert_fails : Bool
  pub token_update_fails : Bool
  pub token_select_fails : Bool

abbrev pub unix : ℕ → ℕ
unix now = now / 1_000_000_000

pub data Reply : Type 0 where
  redirect : Text → Option Cookie → Reply
  page : ℕ → Text → Text → Reply
  http_error : ℕ → Reply

pub record Mail : Type 0 where
  pub to : Text
  pub subject : Text
  pub link : Text

pub record Effect : Type 0 where
  pub reply : Reply
  pub state : State
  pub mail : Option Mail

abbrev pub answer : State → Reply → Effect
answer s reply = record { reply = reply; state = s; mail = none }

abbrev pub with_db : Db → State → State
with_db db s = record { db = db; limiter = s.limiter }

-- Whether the caller is over the limit, and the state with the attempt in it.
unfoldable pub rate_limited : World → Request → State → Bool × State
rate_limited w r s = elim s.limiter [
  | none ↦ (false, s)
  | some limiter ↦
      let answered = allow w.now r.remote_ip limiter in
      (not answered.0, record { db = s.db; limiter = some answered.1 })
]

unfoldable pub payload_of : User → SessionPayload
payload_of user = record {
  uid = user.id;
  email = user.email;
  name = user.name;
  provider = user.provider;
  exp = agentry.Base.Int.pos 0;
}

-- The end of a sign-in: the cookie and the way home, or an internal error.
unfoldable pub sign_in : Packages → Config → World → Request → User → Reply
sign_in pk cfg w r user = elim (set_session_cookie pk (unix w.now) r (payload_of user) cfg.secret) [
  | none ↦ http_error 500
  | some c ↦ redirect (codes "/") (some c)
]

abbrev pub form_email_of : Request → Text
form_email_of r = to_lower (trim_space r.form_email)
