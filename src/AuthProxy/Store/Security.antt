-- ===== src/AuthProxy/Store/Security.antt =====
-- cmd/authproxy/store_security.go: password reset, verification and lockout in the tables, and the
-- hash of a token from tokens.go.
use agentry.Base.{ℕ, not, Bool, true, Option, none, some, if◌then◌else◌, Text, length, ltb, ◌==◌}
use agentry.AuthProxy.Request.{Packages}
use agentry.AuthProxy.Store.Statements.{
  User, Db, no_rows, token_invalid, other_error, Outcome, done, failed, update_users, use_tokens,
  any_token, token_owner, drop_tokens, insert_token,
}

-- The row behind an update of the password, of the counter, and of the flag.
unfoldable pub with_password : Text → User → User
with_password hash u = record {
  id = u.id;
  email = u.email;
  password_hash = hash;
  name = u.name;
  provider = u.provider;
  provider_id = u.provider_id;
  created_at = u.created_at;
  email_verified = u.email_verified;
  failed_attempts = 0;
  locked_until = none;
}

unfoldable pub with_failures : ℕ → Option ℕ → User → User
with_failures attempts until u = record {
  id = u.id;
  email = u.email;
  password_hash = u.password_hash;
  name = u.name;
  provider = u.provider;
  provider_id = u.provider_id;
  created_at = u.created_at;
  email_verified = u.email_verified;
  failed_attempts = attempts;
  locked_until = until;
}

unfoldable pub with_verified : User → User
with_verified u = record {
  id = u.id;
  email = u.email;
  password_hash = u.password_hash;
  name = u.name;
  provider = u.provider;
  provider_id = u.provider_id;
  created_at = u.created_at;
  email_verified = true;
  failed_attempts = u.failed_attempts;
  locked_until = u.locked_until;
}

-- No row affected is an error; any other number is nil.
unfoldable pub some_affected : Outcome ℕ → Outcome ℕ
some_affected (failed e) = failed e
some_affected (done n) = if n == 0 then failed no_rows else done n

unfoldable pub update_password : Packages → Bool → Text → Text → Db → Outcome ℕ × Db
update_password pk fails uid new_password db =
    if ltb (length new_password) 8
    then (failed other_error, db)
    else elim (pk.bcrypt_generate new_password) [
      | none ↦ (failed other_error, db)
      | some hash ↦
          let updated = update_users fails uid (with_password hash) db in
          (some_affected updated.0, updated.1)
    ]

unfoldable pub mark_email_verified : Bool → Text → Db → Outcome ℕ × Db
mark_email_verified fails uid db = update_users fails uid with_verified db

-- A zero time, `none`, clears the column.
unfoldable pub record_login_failure : Bool → Text → ℕ → Option ℕ → Db → Outcome ℕ × Db
record_login_failure fails uid attempts until db =
    update_users fails uid (with_failures attempts until) db

unfoldable pub reset_login_attempts : Bool → Text → Db → Outcome ℕ × Db
reset_login_attempts fails uid db = update_users fails uid (with_failures 0 none) db

-- The delete is best-effort: its error is dropped.
unfoldable pub create_email_token : Bool → Bool → Text → Text → Text → ℕ → Db → Outcome ℕ × Db
create_email_token delete_fails insert_fails uid purpose token_hash expires_at db =
    let cleared : Db =
      if delete_fails
      then db
      else record { users = db.users; tokens = drop_tokens uid purpose db.tokens } in
    insert_token insert_fails
      (record {
        token_hash = token_hash;
        user_id = uid;
        purpose = purpose;
        expires_at = expires_at;
        used_at = none;
      })
      cleared

unfoldable pub consume_email_token : Bool → Bool → ℕ → Text → Text → Db → Outcome Text × Db
consume_email_token update_fails select_fails now purpose token_hash db =
    let marked : Db = record {
      users = db.users;
      tokens = use_tokens purpose token_hash now db.tokens;
    } in
    if update_fails
    then (failed other_error, db)
    else if not (any_token purpose token_hash now db.tokens)
    then (failed token_invalid, marked)
    else if select_fails
    then (failed other_error, marked)
    else elim (token_owner token_hash marked.tokens) [
      | none ↦ (failed other_error, marked)
      | some uid ↦ (done uid, marked)
    ]

unfoldable pub hash_token : Packages → Text → Text
hash_token pk raw = pk.sha256_hex raw
