-- ===== src/AuthProxy/Store/Statements.antt =====
-- The tables of cmd/authproxy/store.go and the SQL statements that its functions run on them.
use agentry.Base.{
  ◌≡◌, refl, ◌⊎◌, inl, inr, ℕ, ◌+◌, Bool, true, false, ◌&&◌, ◌||◌, Option, none, some, List, [],
  ◌∷◌, ◌++◌, if◌then◌else◌, Text, str_eq, ltb,
}

pub record User : Type 0 where
  pub id : Text
  pub email : Text
  pub password_hash : Text
  pub name : Text
  pub provider : Text
  pub provider_id : Text
  pub created_at : ℕ
  pub email_verified : Bool
  pub failed_attempts : ℕ
  pub locked_until : Option ℕ

pub record EmailToken : Type 0 where
  pub token_hash : Text
  pub user_id : Text
  pub purpose : Text
  pub expires_at : ℕ
  pub used_at : Option ℕ

pub record Db : Type 0 where
  pub users : List User
  pub tokens : List EmailToken

pub data StoreError : Type 0 where
  no_rows : StoreError
  email_taken : StoreError
  token_invalid : StoreError
  other_error : StoreError

pub data Outcome (A : Type 0) : Type 0 where
  done : A → Outcome A
  failed : StoreError → Outcome A

pub Outcome-cases :
    {A : Type 0} (o : Outcome A) → ((e : StoreError) × (o ≡ failed e)) ⊎ ((a : A) × (o ≡ done a))
Outcome-cases (failed e) = inl (e, refl)
Outcome-cases (done a) = inr (a, refl)

unfoldable pub first_user : (User → Bool) → List User → Option User
first_user f [] = none
first_user f (u ∷ us) = if f u then some u else first_user f us

-- SELECT ... FROM agentry_users WHERE ...
unfoldable pub find_user : Bool → (User → Bool) → Db → Outcome User
find_user fails f db =
    if fails
    then failed other_error
    else elim (first_user f db.users) [ none ↦ failed no_rows | some u ↦ done u ]

-- The rows that an update has changed, and the number of them.
unfoldable pub set_rows : Text → (User → User) → List User → List User
set_rows uid f [] = []
set_rows uid f (u ∷ us) = (if str_eq u.id uid then f u else u) ∷ set_rows uid f us

unfoldable pub count_rows : Text → List User → ℕ
count_rows uid [] = 0
count_rows uid (u ∷ us) = (if str_eq u.id uid then 1 else 0) + count_rows uid us

-- UPDATE agentry_users SET ... WHERE id = ?, with the rows affected
unfoldable pub update_users : Bool → Text → (User → User) → Db → Outcome ℕ × Db
update_users fails uid f db = if fails then (failed other_error, db) else (
  done (count_rows uid db.users),
  record { users = set_rows uid f db.users; tokens = db.tokens },
)

-- A row with the same primary key, or with the same unique email.
unfoldable pub clashes : User → List User → Bool
clashes u [] = false
clashes u (v ∷ us) = str_eq v.id u.id || str_eq v.email u.email || clashes u us

-- INSERT INTO agentry_users
unfoldable pub insert_user : Bool → User → Db → Outcome User × Db
insert_user fails u db =
    if fails
    then (failed other_error, db)
    else if clashes u db.users
    then (failed email_taken, db)
    else (done u, record { users = db.users ++ (u ∷ []); tokens = db.tokens })

-- token_hash = ? AND purpose = ? AND used_at IS NULL AND expires_at > ?
unfoldable pub live_token : Text → Text → ℕ → EmailToken → Bool
live_token purpose hash now t =
    str_eq t.token_hash hash
    && str_eq t.purpose purpose
    && (elim t.used_at [ none ↦ true | some at ↦ false ])
    && ltb now t.expires_at

unfoldable pub use_token : ℕ → EmailToken → EmailToken
use_token now t = record {
  token_hash = t.token_hash;
  user_id = t.user_id;
  purpose = t.purpose;
  expires_at = t.expires_at;
  used_at = some now;
}

-- UPDATE agentry_email_tokens SET used_at = ? WHERE ...
unfoldable pub use_tokens : Text → Text → ℕ → List EmailToken → List EmailToken
use_tokens purpose hash now [] = []
use_tokens purpose hash now (t ∷ ts) =
    (if live_token purpose hash now t then use_token now t else t) ∷ use_tokens purpose hash now ts

unfoldable pub any_token : Text → Text → ℕ → List EmailToken → Bool
any_token purpose hash now [] = false
any_token purpose hash now (t ∷ ts) = live_token purpose hash now t || any_token purpose hash now ts

-- SELECT user_id FROM agentry_email_tokens WHERE token_hash = ?
unfoldable pub token_owner : Text → List EmailToken → Option Text
token_owner hash [] = none
token_owner hash (t ∷ ts) = if str_eq t.token_hash hash then some t.user_id else token_owner hash ts

-- DELETE FROM agentry_email_tokens WHERE user_id = ? AND purpose = ?
unfoldable pub drop_tokens : Text → Text → List EmailToken → List EmailToken
drop_tokens uid purpose [] = []
drop_tokens uid purpose (t ∷ ts) =
    let rest = drop_tokens uid purpose ts in
    if str_eq t.user_id uid && str_eq t.purpose purpose then rest else t ∷ rest

unfoldable pub has_token : Text → List EmailToken → Bool
has_token hash [] = false
has_token hash (t ∷ ts) = str_eq t.token_hash hash || has_token hash ts

-- INSERT INTO agentry_email_tokens
unfoldable pub insert_token : Bool → EmailToken → Db → Outcome ℕ × Db
insert_token fails t db =
    if fails || has_token t.token_hash db.tokens
    then (failed other_error, db)
    else (done 1, record { users = db.users; tokens = db.tokens ++ (t ∷ []) })
