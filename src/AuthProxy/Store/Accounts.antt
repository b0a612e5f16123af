-- ===== src/AuthProxy/Store/Accounts.antt =====
-- The keys of the table of cmd/authproxy/store.go, through every operation of the store.
use agentry.Base.{
  contains_byte, ltb, length, ℕ, ◌≡◌, refl, ◌⊎◌, inl, inr, Bool, not, ◌||◌, Option, none, some,
  arith, Text, Bool-cases, Option-cases, is_empty, if_both,
}
use agentry.AuthProxy.Request.{Packages}
use agentry.AuthProxy.Store.{
  password_user, oauth_user, clean_email, create_user_password, has_email, has_identity, with_name,
  with_identity, refresh_name, link_identity, insert_oauth_user, upsert_user_from_oauth,
}
use agentry.AuthProxy.Store.Statements.{
  User, Db, no_rows, email_taken, token_invalid, other_error, Outcome-cases, Outcome, done, failed,
  find_user, update_users, insert_user, insert_token,
}
use agentry.AuthProxy.Store.Security.{
  with_password, with_failures, with_verified, update_password, mark_email_verified,
  record_login_failure, reset_login_attempts, create_email_token, consume_email_token,
}
use agentry.AuthProxy.Store.Keys.{insert_user-Keyed, update_users-Keyed, Keyed, set_rows-Keyed}

-- One call of the store, with any outcome of its statements, of the random bytes and of bcrypt.
pub data StoreStep (pk : Packages) (now : ℕ) (db : Db) : Db → Type 0 where
  created :
      (fails : Bool) (new_id : Option Text) (email password name : Text)
      → StoreStep pk now db (create_user_password pk fails new_id now email password name db).1
  upserted :
      (down1 down2 down3 : Bool) (new_id : Option Text) (provider provider_id email name : Text)
      → StoreStep pk now db
          (upsert_user_from_oauth down1 down2 down3 new_id now provider provider_id email name db).1
  password_set :
      (fails : Bool) (uid password : Text)
      → StoreStep pk now db (update_password pk fails uid password db).1
  verified : (fails : Bool) (uid : Text) → StoreStep pk now db (mark_email_verified fails uid db).1
  failure_recorded :
      (fails : Bool) (uid : Text) (attempts : ℕ) (until : Option ℕ)
      → StoreStep pk now db (record_login_failure fails uid attempts until db).1
  attempts_reset :
      (fails : Bool) (uid : Text) → StoreStep pk now db (reset_login_attempts fails uid db).1
  token_created :
      (down1 down2 : Bool) (uid purpose hash : Text) (expires : ℕ)
      → StoreStep pk now db (create_email_token down1 down2 uid purpose hash expires db).1
  token_consumed :
      (down1 down2 : Bool) (purpose hash : Text)
      → StoreStep pk now db (consume_email_token down1 down2 now purpose hash db).1

abbrev UsersKeyed : Outcome User × Db → Type 0
UsersKeyed x = Keyed x.1.users

create-cases :
    (pk : Packages) (fails : Bool) (new_id : Option Text) (now : ℕ) (email password name : Text)
    (db : Db)
    → ((create_user_password pk fails new_id now email password name db).1 ≡ db)
      ⊎ ((u : User) × ((create_user_password pk fails new_id now email password name db)
            ≡ insert_user fails u db))
unfolding create_user_password
create-cases pk fails new_id now email password name db =
    elim (Bool-cases
      (is_empty (clean_email email) || not (contains_byte (clean_email email) b'@'))) [
        | inl bad ↦ inl (ground arith)
        | inr good ↦ elim (Bool-cases (ltb (length password) 8)) [
          | inl short ↦ inl (ground arith)
          | inr long ↦ elim (Option-cases (pk.bcrypt_generate password)) [
            | inl unhashed ↦ inl (ground arith)
            | inr (hash, hashed) ↦ elim (Option-cases new_id) [
              | inl no_id ↦ inl (ground arith)
              | inr (uid, got_id) ↦
                  inr (password_user uid (clean_email email) hash name now, ground arith)
            ]
          ]
        ]
      ]

create-Keyed :
    (pk : Packages) (fails : Bool) (new_id : Option Text) (now : ℕ) (email password name : Text)
    (db : Db)
    → Keyed db.users
    → UsersKeyed (create_user_password pk fails new_id now email password name db)
create-Keyed pk fails new_id now email password name db h =
    elim (create-cases pk fails new_id now email password name db) [
      | inl same ↦ rw same h
      | inr (u, stored) ↦ rw stored (insert_user-Keyed fails u db h)
    ]

link-Keyed :
    (fails : Bool) (provider provider_id name : Text) (u : User) (db : Db)
    → Keyed db.users
    → UsersKeyed (link_identity fails provider provider_id name u db)
unfolding link_identity update_users
link-Keyed fails provider provider_id name u db h = elim (Bool-cases fails) [
  | inl down ↦ rw down h
  | inr up ↦ rw up (
      set_rows-Keyed (λ row. with_name name (with_identity provider provider_id row)) u.id db.users
        (λ v. unfold with_name in unfold with_identity in (refl, refl)) h)
]

refresh-Keyed :
    (fails : Bool) (name : Text) (u : User) (db : Db)
    → Keyed db.users
    → UsersKeyed (refresh_name fails name u db)
unfolding refresh_name
refresh-Keyed fails name u db h =
    if_both UsersKeyed _
      (update_users-Keyed fails u.id (with_name name) db (λ v. unfold with_name in (refl, refl)) h)
      h

insert-cases :
    (fails : Bool) (new_id : Option Text) (now : ℕ) (provider provider_id email name : Text)
    (db : Db)
    → ((insert_oauth_user fails new_id now provider provider_id email name db).1 ≡ db)
      ⊎ ((u : User) × (insert_oauth_user fails new_id now provider provider_id email name db
            ≡ insert_user fails u db))
unfolding insert_oauth_user
insert-cases fails none now provider provider_id email name db = inl refl
insert-cases fails (some uid) now provider provider_id email name db =
    let u : User = oauth_user uid provider provider_id email name now in
    elim (Outcome-cases (insert_user fails u db).0) [
      | inl (e, refused) ↦ inl (ground (arith, refused))
      | inr (v, stored) ↦ inr (u, ground (arith, stored))
    ]

insert-Keyed :
    (fails : Bool) (new_id : Option Text) (now : ℕ) (provider provider_id email name : Text)
    (db : Db)
    → Keyed db.users
    → UsersKeyed (insert_oauth_user fails new_id now provider provider_id email name db)
insert-Keyed fails new_id now provider provider_id email name db h =
    elim (insert-cases fails new_id now provider provider_id email name db) [
      | inl same ↦ rw same h
      | inr (u, stored) ↦ rw stored (insert_user-Keyed fails u db h)
    ]

oauth-Keyed :
    (down1 down2 down3 : Bool) (new_id : Option Text) (now : ℕ)
    (provider provider_id email name : Text) (db : Db)
    → Keyed db.users
    → Keyed
        (upsert_user_from_oauth down1 down2 down3 new_id now provider provider_id email name
          db).1.users
unfolding upsert_user_from_oauth
oauth-Keyed down1 down2 down3 new_id now provider provider_id email name db h =
    by_identity (find_user down1 (has_identity provider provider_id) db)
      (find_user down2 (has_email (clean_email email)) db)
  where
    by_identity :
        (o o2 : Outcome User)
        → UsersKeyed (elim o [
          | done u ↦ refresh_name down3 name u db
          | failed no_rows ↦ elim o2 [
            | done u ↦ link_identity down3 provider provider_id name u db
            | failed no_rows ↦
                insert_oauth_user down3 new_id now provider provider_id (clean_email email) name db
            | failed e ↦ (failed e, db)
          ]
          | failed e ↦ (failed e, db)
        ])
    by_identity (done u) o2 = refresh-Keyed down3 name u db h
    by_identity (failed no_rows) (done u) = link-Keyed down3 provider provider_id name u db h
    by_identity (failed no_rows) (failed no_rows) =
        insert-Keyed down3 new_id now provider provider_id (clean_email email) name db h
    by_identity (failed no_rows) (failed email_taken) = h
    by_identity (failed no_rows) (failed token_invalid) = h
    by_identity (failed no_rows) (failed other_error) = h
    by_identity (failed email_taken) o2 = h
    by_identity (failed token_invalid) o2 = h
    by_identity (failed other_error) o2 = h

consume-users :
    (down1 down2 : Bool) (now : ℕ) (purpose hash : Text) (db : Db)
    → (consume_email_token down1 down2 now purpose hash db).1.users ≡ db.users
unfolding consume_email_token
consume-users down1 down2 now purpose hash db = ground arith

token-users :
    (down1 down2 : Bool) (uid purpose hash : Text) (expires : ℕ) (db : Db)
    → (create_email_token down1 down2 uid purpose hash expires db).1.users ≡ db.users
unfolding create_email_token insert_token
token-users down1 down2 uid purpose hash expires db = ground arith

password-cases :
    (pk : Packages) (fails : Bool) (uid password : Text) (db : Db)
    → ((update_password pk fails uid password db).1 ≡ db)
      ⊎ ((hash : Text) × ((update_password pk fails uid password db).1
            ≡ (update_users fails uid (with_password hash) db).1))
unfolding update_password
password-cases pk fails uid password db = elim (Option-cases (pk.bcrypt_generate password)) [
  | inl unhashed ↦ inl (ground arith)
  | inr (hash, hashed) ↦ elim (Bool-cases (ltb (length password) 8)) [
    | inl short ↦ inl (ground arith)
    | inr long ↦ inr (hash, ground arith)
  ]
]

password-Keyed :
    (pk : Packages) (fails : Bool) (uid password : Text) (db : Db)
    → Keyed db.users
    → Keyed (update_password pk fails uid password db).1.users
unfolding with_password
password-Keyed pk fails uid password db h = elim (password-cases pk fails uid password db) [
  | inl same ↦ rw same h
  | inr (hash, stored) ↦
      rw stored (update_users-Keyed fails uid (with_password hash) db (λ u. (refl, refl)) h)
]

-- No call of the store gives two accounts the same id or the same email.
pub step-Keyed :
    (pk : Packages) (now : ℕ) (db after : Db)
    → Keyed db.users
    → StoreStep pk now db after
    → Keyed after.users
unfolding mark_email_verified record_login_failure reset_login_attempts with_verified with_failures
step-Keyed pk now db _ h (created fails new_id email password name) =
    create-Keyed pk fails new_id now email password name db h
step-Keyed pk now db _ h (upserted down1 down2 down3 new_id provider provider_id email name) =
    oauth-Keyed down1 down2 down3 new_id now provider provider_id email name db h
step-Keyed pk now db _ h (password_set fails uid password) =
    password-Keyed pk fails uid password db h
step-Keyed pk now db _ h (verified fails uid) =
    update_users-Keyed fails uid with_verified db (λ u. (refl, refl)) h
step-Keyed pk now db _ h (failure_recorded fails uid attempts until) =
    update_users-Keyed fails uid (with_failures attempts until) db (λ u. (refl, refl)) h
step-Keyed pk now db _ h (attempts_reset fails uid) =
    update_users-Keyed fails uid (with_failures 0 none) db (λ u. (refl, refl)) h
step-Keyed pk now db _ h (token_created down1 down2 uid purpose hash expires) =
    rw (token-users down1 down2 uid purpose hash expires db) h
step-Keyed pk now db _ h (token_consumed down1 down2 purpose hash) =
    rw (consume-users down1 down2 now purpose hash db) h
