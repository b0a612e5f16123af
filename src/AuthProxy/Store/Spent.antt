-- ===== src/AuthProxy/Store/Spent.antt =====
-- Tokens of cmd/authproxy/store.go that are used or gone, through the calls of the store that follow.
use agentry.Base.{ℕ, ◌≡◌, refl, Bool, false, ◌++◌, [], ◌∷◌, List, Text, arith, str_eq, Option, none}
use agentry.AuthProxy.Request.{Packages}
use agentry.AuthProxy.Store.{
  create_user_password, upsert_user_from_oauth, insert_oauth_user, link_identity, refresh_name,
}
use agentry.AuthProxy.Store.Statements.{
  EmailToken, Db, update_users, insert_user, insert_token, live_token, use_token, use_tokens,
  any_token, drop_tokens, User,
}
use agentry.AuthProxy.Store.Security.{
  update_password, mark_email_verified, record_login_failure, reset_login_attempts,
  create_email_token, consume_email_token, with_verified, with_failures,
}
use agentry.AuthProxy.Store.Accounts.{
  StoreStep, created, upserted, password_set, verified, failure_recorded, attempts_reset,
  token_created, token_consumed,
}

-- The step asks for a token with this hash.
unfoldable pub stores_token :
    {pk : Packages} {now : ℕ} {a b : Db} → Text → StoreStep pk now a b → Bool
stores_token hash (created fails new_id email password name) = false
stores_token hash (upserted down1 down2 down3 new_id provider provider_id email name) = false
stores_token hash (password_set fails uid password) = false
stores_token hash (verified fails uid) = false
stores_token hash (failure_recorded fails uid attempts until) = false
stores_token hash (attempts_reset fails uid) = false
stores_token hash (token_created down1 down2 uid purpose own expires) = str_eq own hash
stores_token hash (token_consumed down1 down2 purpose own) = false

-- Calls of the store, none of which stores a token with this hash.
pub data Later (pk : Packages) (hash : Text) (a : Db) : Db → Type 0 where
  at_once : Later pk hash a a
  and_then :
      {b c : Db} (now : ℕ)
      → Later pk hash a b
      → (s : StoreStep pk now b c) → stores_token hash s ≡ false
      → Later pk hash a c

module _ (purpose hash : Text) (later : ℕ) where
  any_token-used :
      (other own : Text) (now : ℕ) (ts : List EmailToken)
      → any_token purpose hash later ts ≡ false
      → any_token purpose hash later (use_tokens other own now ts) ≡ false
  unfolding any_token use_tokens use_token live_token
  any_token-used other own now [] h = refl
  any_token-used other own now (t ∷ ts) h =
      let rest = any_token-used other own now ts (ground arith) in ground (arith, rest)

  any_token-drop :
      (uid other : Text) (ts : List EmailToken)
      → any_token purpose hash later ts ≡ false
      → any_token purpose hash later (drop_tokens uid other ts) ≡ false
  unfolding any_token drop_tokens
  any_token-drop uid other [] h = refl
  any_token-drop uid other (t ∷ ts) h =
      let rest = any_token-drop uid other ts (ground arith) in ground (arith, rest)

  any_token-append :
      (ts : List EmailToken) (t : EmailToken)
      → any_token purpose hash later ts ≡ false
      → str_eq t.token_hash hash ≡ false
      → any_token purpose hash later (ts ++ (t ∷ [])) ≡ false
  unfolding any_token live_token
  any_token-append [] t h e = ground arith
  any_token-append (u ∷ ts) t h e = ground (arith, any_token-append ts t (ground arith) e)

create-tokens :
    (pk : Packages) (fails : Bool) (new_id : Option Text) (now : ℕ) (email password name : Text)
    (db : Db)
    → (create_user_password pk fails new_id now email password name db).1.tokens ≡ db.tokens
unfolding create_user_password insert_user
create-tokens pk fails new_id now email password name db = ground arith

upsert-tokens :
    (down1 down2 down3 : Bool) (new_id : Option Text) (now : ℕ)
    (provider provider_id email name : Text) (db : Db)
    → (upsert_user_from_oauth down1 down2 down3 new_id now provider provider_id email name
        db).1.tokens
      ≡ db.tokens
unfolding upsert_user_from_oauth insert_oauth_user link_identity refresh_name insert_user
    update_users
upsert-tokens down1 down2 down3 new_id now provider provider_id email name db = ground arith

password-tokens :
    (pk : Packages) (fails : Bool) (uid password : Text) (db : Db)
    → (update_password pk fails uid password db).1.tokens ≡ db.tokens
unfolding update_password update_users
password-tokens pk fails uid password db = ground arith

update-tokens :
    (fails : Bool) (uid : Text) (f : User → User) (db : Db)
    → (update_users fails uid f db).1.tokens ≡ db.tokens
unfolding update_users
update-tokens fails uid f db = ground arith

module _ (pk : Packages) (purpose hash : Text) (later : ℕ) where
  token_created-spent :
      (down1 down2 : Bool) (uid other own : Text) (expires : ℕ) (db : Db)
      → any_token purpose hash later db.tokens ≡ false
      → str_eq own hash ≡ false
      → any_token purpose hash later
          (create_email_token down1 down2 uid other own expires db).1.tokens
        ≡ false
  unfolding create_email_token insert_token
  token_created-spent down1 down2 uid other own expires db h e =
      let t : EmailToken = record {
        token_hash = own;
        user_id = uid;
        purpose = other;
        expires_at = expires;
        used_at = none;
      } in
      let cleared = any_token-drop purpose hash later uid other db.tokens h in
      ground (
        arith,
        cleared,
        any_token-append purpose hash later db.tokens t h e,
        any_token-append purpose hash later (drop_tokens uid other db.tokens) t cleared e,
      )

  consume-spent :
      (down1 down2 : Bool) (now : ℕ) (other own : Text) (db : Db)
      → any_token purpose hash later db.tokens ≡ false
      → any_token purpose hash later (consume_email_token down1 down2 now other own db).1.tokens
        ≡ false
  unfolding consume_email_token
  consume-spent down1 down2 now other own db h =
      ground (arith, any_token-used purpose hash later other own now db.tokens h)

  step-spent :
      {now : ℕ} {a b : Db} (s : StoreStep pk now a b)
      → stores_token hash s ≡ false
      → any_token purpose hash later a.tokens ≡ false
      → any_token purpose hash later b.tokens ≡ false
  unfolding stores_token mark_email_verified record_login_failure reset_login_attempts
  step-spent {now} {a} (created fails new_id email password name) e h =
      rw (create-tokens pk fails new_id now email password name a) h
  step-spent {now} {a} (upserted down1 down2 down3 new_id provider provider_id email name) e h =
      rw (upsert-tokens down1 down2 down3 new_id now provider provider_id email name a) h
  step-spent {now} {a} (password_set fails uid password) e h =
      rw (password-tokens pk fails uid password a) h
  step-spent {now} {a} (verified fails uid) e h = rw (update-tokens fails uid with_verified a) h
  step-spent {now} {a} (failure_recorded fails uid attempts until) e h =
      rw (update-tokens fails uid (with_failures attempts until) a) h
  step-spent {now} {a} (attempts_reset fails uid) e h =
      rw (update-tokens fails uid (with_failures 0 none) a) h
  step-spent {now} {a} (token_created down1 down2 uid other own expires) e h =
      token_created-spent down1 down2 uid other own expires a h e
  step-spent {now} {a} (token_consumed down1 down2 other own) e h =
      consume-spent down1 down2 now other own a h

  -- A token that is not live stays so, while none with its hash is stored.
  pub later-spent :
      {a b : Db}
      → Later pk hash a b
      → any_token purpose hash later a.tokens ≡ false
      → any_token purpose hash later b.tokens ≡ false
  later-spent at_once h = h
  later-spent (and_then now before s e) h = step-spent s e (later-spent before h)
