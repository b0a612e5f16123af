-- ===== src/AuthProxy/Tests/Models.antt =====
-- Stand-ins for the packages that cmd/authproxy calls, which obey the hypotheses on them, and inputs.
use agentry.Base.{
  zero, suc, ◌+◌, ◌-◌, ◌≡◌, refl, ap, true, false, Option, none, some, [], ◌∷◌, ◌++◌, arith,
  if◌then◌else◌, Text, codes, str_eq, str_eq_refl, contains_byte, has_prefix, length, take, drop,
}
use agentry.Base.Int.{ℤ, pos, negsuc}
use agentry.AuthProxy.Request.{Request, SessionPayload, Packages}
use agentry.AuthProxy.Signed.{Works}
use agentry.AuthProxy.Csrf.{csrf_sign}
use agentry.AuthProxy.RateLimit.{new_rate_limiter}
use agentry.AuthProxy.Store.Statements.{User, EmailToken, Db}
use agentry.AuthProxy.Handlers.State.{Config, State, World}

-- Each byte moved up past the dot.
abbrev pub shift_up : Text → Text
shift_up [] = []
shift_up (a ∷ s) = (a + 47) ∷ shift_up s

abbrev shift_down : Text → Text
shift_down [] = []
shift_down (a ∷ s) = (a - 47) ∷ shift_down s

shift_down-up : (s : Text) → shift_down (shift_up s) ≡ s
shift_down-up [] = refl
shift_down-up (a ∷ s) = grind (arith, shift_down-up s)

shift_up_no_dot : (s : Text) → contains_byte (shift_up s) b'.' ≡ false
unfolding contains_byte
shift_up_no_dot [] = refl
shift_up_no_dot (a ∷ s) = ground (arith, shift_up_no_dot s)

-- A text behind its length.
unfoldable pub frame : Text → Text → Text
frame s t = length s ∷ (s ++ t)

unfoldable pub first_of : Text → Text
first_of [] = []
first_of (n ∷ s) = take n s

unfoldable pub rest_of : Text → Text
rest_of [] = []
rest_of (n ∷ s) = drop n s

first_of-frame : (s t : Text) → first_of (frame s t) ≡ s
unfolding frame first_of
first_of-frame [] t = refl
first_of-frame (a ∷ s) t = ap (λ x. a ∷ x) (first_of-frame s t)

rest_of-frame : (s t : Text) → rest_of (frame s t) ≡ t
unfolding frame rest_of
rest_of-frame [] t = refl
rest_of-frame (a ∷ s) t = rest_of-frame s t

abbrev exp_code : ℤ → Text
exp_code (pos n) = 0 ∷ n ∷ []
exp_code (negsuc n) = 1 ∷ n ∷ []

abbrev exp_of : Text → ℤ
exp_of (zero ∷ n ∷ s) = pos n
exp_of (suc k ∷ n ∷ s) = negsuc n
exp_of _ = pos 0

exp_of-code : (e : ℤ) → exp_of (exp_code e) ≡ e
exp_of-code (pos n) = refl
exp_of-code (negsuc n) = refl

abbrev pub write_payload : SessionPayload → Text
write_payload p = frame p.uid (frame p.email (frame p.name (frame p.provider (exp_code p.exp))))

abbrev read_payload : Text → SessionPayload
read_payload s = record {
  uid = first_of s;
  email = first_of (rest_of s);
  name = first_of (rest_of (rest_of s));
  provider = first_of (rest_of (rest_of (rest_of s)));
  exp = exp_of (rest_of (rest_of (rest_of (rest_of s))));
}

abbrev https_host : Text → Option Text
https_host s = if has_prefix s (codes "https://") then some (drop 8 s) else none

abbrev pub model : Packages
model = record {
  hmac_sha256 = λ key s. key ++ s;
  sha256_hex = shift_up;
  base64_encode = shift_up;
  base64_decode = λ s. some (shift_down s);
  json_marshal = λ p. some (write_payload p);
  json_unmarshal = λ s. some (read_payload s);
  bcrypt_generate = λ s. some (shift_up s);
  bcrypt_matches = λ hash s. str_eq hash (shift_up s);
  url_host = https_host;
  runes = λ s. s;
}

read-write : (p : SessionPayload) → read_payload (write_payload p) ≡ p
read-write p =
    let t4 : Text = exp_code p.exp in
    let t3 : Text = frame p.provider t4 in
    let t2 : Text = frame p.name t3 in
    let t1 : Text = frame p.email t2 in
    ground (
      arith,
      first_of-frame p.uid t1,
      rest_of-frame p.uid t1,
      first_of-frame p.email t2,
      rest_of-frame p.email t2,
      first_of-frame p.name t3,
      rest_of-frame p.name t3,
      first_of-frame p.provider t4,
      rest_of-frame p.provider t4,
      exp_of-code p.exp,
    )

pub model-Works : Works model
model-Works = record {
  decode-encode = λ s. ap some (shift_down-up s);
  encode_no_dot = shift_up_no_dot;
  unmarshal-marshal = λ p raw valid e. ground (arith, read-write p);
  bcrypt_own = λ password hash e. ground (arith, str_eq_refl hash);
}

abbrev pub secret : Text
secret = codes "key"

abbrev pub alice_payload : SessionPayload
alice_payload = record {
  uid = codes "u1";
  email = codes "al@x.io";
  name = codes "Al";
  provider = codes "password";
  exp = pos 0;
}

-- A user whose password is `tr0ub4dor`, with four failures behind her.
abbrev pub alice : User
alice = record {
  id = codes "u1";
  email = codes "al@x.io";
  password_hash = shift_up (codes "tr0ub4dor");
  name = codes "Al";
  provider = codes "password";
  provider_id = [];
  created_at = 0;
  email_verified = true;
  failed_attempts = 4;
  locked_until = none;
}

abbrev pub locked_alice : User
locked_alice = record alice { locked_until = some 9_000_000_000_000 }

abbrev pub reset_token : EmailToken
reset_token = record {
  token_hash = shift_up (codes "raw");
  user_id = codes "u1";
  purpose = codes "reset";
  expires_at = 9_000_000_000_000;
  used_at = none;
}

abbrev pub accounts : User → Db
accounts u = record { users = u ∷ []; tokens = reset_token ∷ [] }

abbrev pub state : User → State
state u = record { db = accounts u; limiter = some (new_rate_limiter 10 60_000_000_000) }

abbrev pub config : Config
config = record { secret = secret; require_verification = true; mailer = true }

-- One thousand seconds after 1970.
abbrev pub world : World
world = record {
  now = 1_000_000_000_000;
  new_id = some (codes "u2");
  raw_token = some (codes "raw2");
  lookup_fails = false;
  insert_fails = false;
  update_fails = false;
  token_delete_fails = false;
  token_insert_fails = false;
  token_update_fails = false;
  token_select_fails = false;
}

-- The token that a form rendered at second 900 carries.
abbrev pub form_token : Text
form_token =
    shift_up (codes "n")
    ++ (b'.' ∷ (codes "2700" ++ (b'.' ∷ csrf_sign model secret (shift_up (codes "n")) (pos 2700))))

abbrev pub login_with : Text → Request
login_with password = record {
  method = codes "POST";
  path = codes "/auth/login";
  host = codes "127.0.0.1:3000";
  remote_ip = codes "10.0.0.1";
  tls = false;
  url_scheme = [];
  forwarded_host = codes "App.agentry.live";
  forwarded_proto = codes "https";
  origin = codes "https://app.agentry.live";
  referer = [];
  session_cookie = none;
  form_csrf_token = form_token;
  form_email = codes " Al@x.io";
  form_password = password;
  form_name = [];
  form_token = codes "raw";
  form_confirm = password;
  query_token = [];
}
