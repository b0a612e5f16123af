-- ===== src/AuthProxy/Store.antt =====
-- cmd/authproxy/store.go and store_security.go: the two tables, each statement as its SQL text says.
-- A Boolean `fails` says that the database refuses a statement for a reason of its own; the keys
-- of the tables are those of `migrate` and `migrateSecurity`.
pub mod Statements
pub mod Security
pub mod Tokens
pub mod Keys
pub mod Accounts
pub mod Spent
use agentry.Base.{
  ℕ, ◌≡◌, Bool, true, false, not, ◌&&◌, ◌||◌, Option, none, some, List, [], ◌∷◌, ◌++◌, arith,
  if◌then◌else◌, Text, codes, str_eq, is_empty, contains_byte, to_lower, trim_space, ltb, length,
}
use agentry.AuthProxy.Request.{Packages}
use agentry.AuthProxy.Store.Statements.{
  User, EmailToken, Db, StoreError, no_rows, email_taken, token_invalid, other_error, Outcome, done,
  failed, find_user, update_users, insert_user, live_token, use_tokens, any_token, token_owner,
  drop_tokens, insert_token,
}

abbrev pub clean_email : Text → Text
clean_email email = to_lower (trim_space email)

unfoldable pub password_user : Text → Text → Text → Text → ℕ → User
password_user uid email hash name now = record {
  id = uid;
  email = email;
  password_hash = hash;
  name = trim_space name;
  provider = codes "password";
  provider_id = [];
  created_at = now;
  email_verified = false;
  failed_attempts = 0;
  locked_until = none;
}

-- The new id, `none` when reading random bytes fails, is an argument.
unfoldable pub create_user_password :
    Packages → Bool → Option Text → ℕ → Text → Text → Text → Db → Outcome User × Db
create_user_password pk fails new_id now email password name db =
    let email2 = clean_email email in
    if is_empty email2 || not (contains_byte email2 b'@')
    then (failed other_error, db)
    else if ltb (length password) 8
    then (failed other_error, db)
    else elim (pk.bcrypt_generate password) [
      | none ↦ (failed other_error, db)
      | some hash ↦ elim new_id [
        | none ↦ (failed other_error, db)
        | some uid ↦ insert_user fails (password_user uid email2 hash name now) db
      ]
    ]

unfoldable pub has_email : Text → User → Bool
has_email email u = str_eq u.email email

unfoldable pub has_identity : Text → Text → User → Bool
has_identity provider provider_id u = str_eq u.provider provider && str_eq u.provider_id provider_id

unfoldable pub get_user_by_email : Bool → Text → Db → Outcome User
get_user_by_email fails email db = find_user fails (has_email (clean_email email)) db

-- The row behind `UPDATE ... SET name = ?`, and the value that the function returns.
unfoldable pub with_name : Text → User → User
with_name name u = record {
  id = u.id;
  email = u.email;
  password_hash = u.password_hash;
  name = name;
  provider = u.provider;
  provider_id = u.provider_id;
  created_at = u.created_at;
  email_verified = u.email_verified;
  failed_attempts = u.failed_attempts;
  locked_until = u.locked_until;
}

unfoldable pub with_identity : Text → Text → User → User
with_identity provider provider_id u = record {
  id = u.id;
  email = u.email;
  password_hash = u.password_hash;
  name = u.name;
  provider = provider;
  provider_id = provider_id;
  created_at = u.created_at;
  email_verified = u.email_verified;
  failed_attempts = u.failed_attempts;
  locked_until = u.locked_until;
}

-- The error of the name's update is dropped.
unfoldable pub refresh_name : Bool → Text → User → Db → Outcome User × Db
refresh_name fails name u db =
    if not (is_empty name) && not (str_eq name u.name)
    then (done (with_name name u), (update_users fails u.id (with_name name) db).1)
    else (done u, db)

unfoldable pub link_identity : Bool → Text → Text → Text → User → Db → Outcome User × Db
link_identity fails provider provider_id name u db =
    let updated =
      update_users fails u.id (λ row. with_name name (with_identity provider provider_id row)) db in
    elim updated.0 [
      | failed e ↦ (failed e, db)
      | done affected ↦
          let linked = with_identity provider provider_id u in
          (done (if is_empty name then linked else with_name name linked), updated.1)
    ]

unfoldable pub oauth_user : Text → Text → Text → Text → Text → ℕ → User
oauth_user uid provider provider_id email name now = record {
  id = uid;
  email = email;
  password_hash = [];
  name = trim_space name;
  provider = provider;
  provider_id = provider_id;
  created_at = now;
  email_verified = false;
  failed_attempts = 0;
  locked_until = none;
}

unfoldable pub insert_oauth_user :
    Bool → Option Text → ℕ → Text → Text → Text → Text → Db → Outcome User × Db
insert_oauth_user fails new_id now provider provider_id email name db = elim new_id [
  | none ↦ (failed other_error, db)
  | some uid ↦
      let inserted = insert_user fails (oauth_user uid provider provider_id email name now) db in
      elim inserted.0 [ failed e ↦ (failed other_error, db) | done u ↦ inserted ]
]

-- The statements that fail: the two lookups, and the one that writes.
unfoldable pub upsert_user_from_oauth :
    Bool → Bool → Bool → Option Text → ℕ → Text → Text → Text → Text → Db → Outcome User × Db
upsert_user_from_oauth down1 down2 down3 new_id now provider provider_id email name db =
    let email2 = clean_email email in
    elim (find_user down1 (has_identity provider provider_id) db) [
      | done u ↦ refresh_name down3 name u db
      | failed no_rows ↦ elim (find_user down2 (has_email email2) db) [
        | done u ↦ link_identity down3 provider provider_id name u db
        | failed no_rows ↦ insert_oauth_user down3 new_id now provider provider_id email2 name db
        | failed e ↦ (failed e, db)
      ]
      | failed e ↦ (failed e, db)
    ]
