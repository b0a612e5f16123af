-- ===== src/AuthProxy/Store/Tokens.antt =====
-- A token of cmd/authproxy/store_security.go is used once, and only while it is live.
use agentry.Base.{
  ◌++◌, ℕ, ◌≡◌, refl, ◌≤◌, Bool, true, false, ◌&&◌, none, some, List, [], ◌∷◌, arith, ◌∙◌,
  if◌then◌else◌, Text, str_eq, str_eq_iff, str_eq_refl, ltb,
}
use agentry.AuthProxy.Store.Statements.{
  drop_tokens, has_token, insert_token, EmailToken, Db, token_invalid, done, failed, live_token,
  use_token, use_tokens, any_token, token_owner,
}
use agentry.AuthProxy.Store.Security.{create_email_token, consume_email_token}

pub any_token-use_tokens :
    (purpose hash : Text) (now later : ℕ) (ts : List EmailToken)
    → now ≤ later
    → any_token purpose hash later (use_tokens purpose hash now ts) ≡ false
unfolding use_tokens any_token live_token use_token
any_token-use_tokens purpose hash now later [] h = refl
any_token-use_tokens purpose hash now later (t ∷ ts) h =
    ground (arith, any_token-use_tokens purpose hash now later ts h)

tokens-consume :
    (select_fails : Bool) (now : ℕ) (purpose hash : Text) (db : Db)
    → (consume_email_token false select_fails now purpose hash db).1.tokens
      ≡ use_tokens purpose hash now db.tokens
unfolding consume_email_token
tokens-consume select_fails now purpose hash db = ground arith

pub consume-invalid :
    (select_fails : Bool) (now : ℕ) (purpose hash : Text) (db : Db)
    → any_token purpose hash now db.tokens ≡ false
    → (consume_email_token false select_fails now purpose hash db).0 ≡ failed token_invalid
unfolding consume_email_token
consume-invalid select_fails now purpose hash db h = ground arith

-- After an attempt to consume a token that the database carries out, every later one for the same
-- hash and purpose is refused as an invalid token, whatever the lookup of the owner does.
pub consume_email_token-once :
    (select_fails select_fails2 : Bool) (now later : ℕ) (purpose hash : Text) (db : Db)
    → now ≤ later
    → (consume_email_token false select_fails2 later purpose hash
        (consume_email_token false select_fails now purpose hash db).1).0
      ≡ failed token_invalid
consume_email_token-once select_fails select_fails2 now later purpose hash db h =
    let after : Db = (consume_email_token false select_fails now purpose hash db).1 in
    let used : any_token purpose hash later after.tokens ≡ false =
      rw (tokens-consume select_fails now purpose hash db)
        (any_token-use_tokens purpose hash now later db.tokens h) in
    consume-invalid select_fails2 later purpose hash after used

any_token-fresh :
    (purpose hash : Text) (now : ℕ) (ts : List EmailToken) (t : EmailToken)
    → has_token hash ts ≡ false
    → any_token purpose hash now (ts ++ (t ∷ [])) ≡ live_token purpose hash now t
unfolding has_token any_token live_token
any_token-fresh purpose hash now [] t h = ground arith
any_token-fresh purpose hash now (u ∷ ts) t h =
    ground (arith, any_token-fresh purpose hash now ts t)

token_owner-fresh :
    (purpose hash : Text) (now : ℕ) (ts : List EmailToken) (t : EmailToken)
    → has_token hash ts ≡ false
    → t.token_hash ≡ hash
    → token_owner hash (use_tokens purpose hash now (ts ++ (t ∷ []))) ≡ some t.user_id
unfolding has_token token_owner use_tokens live_token use_token
token_owner-fresh purpose hash now [] t h e = ground (arith, str_eq_iff t.token_hash hash)
token_owner-fresh purpose hash now (u ∷ ts) t h e =
    ground (arith, token_owner-fresh purpose hash now ts t)

consume-fresh :
    (now : ℕ) (asked hash : Text) (db : Db) (ts : List EmailToken) (t : EmailToken) {b : Bool}
    → db.tokens ≡ ts ++ (t ∷ [])
    → has_token hash ts ≡ false
    → t.token_hash ≡ hash
    → live_token asked hash now t ≡ b
    → (consume_email_token false false now asked hash db).0
      ≡ (if b then done t.user_id else failed token_invalid)
unfolding consume_email_token
consume-fresh now asked hash db ts t {b} e fresh own live =
    let any : any_token asked hash now db.tokens ≡ b =
      rw e (any_token-fresh asked hash now ts t fresh ∙ live) in
    let owner : token_owner hash (use_tokens asked hash now db.tokens) ≡ some t.user_id =
      rw e (token_owner-fresh asked hash now ts t fresh own) in
    ground (arith, any, owner)

-- A token that is created without an error can be consumed by its hash, for its purpose, before it
-- expires, and gives its owner; from its expiry on, and for any other purpose, it is refused.
pub consume-create :
    (delete_fails : Bool) (uid purpose asked hash : Text) (expires now : ℕ) (db : Db)
    → (create_email_token delete_fails false uid purpose hash expires db).0 ≡ done 1
    → (consume_email_token false false now asked hash
        (create_email_token delete_fails false uid purpose hash expires db).1).0
      ≡ (if str_eq purpose asked && ltb now expires then done uid else failed token_invalid)
unfolding create_email_token insert_token
consume-create delete_fails uid purpose asked hash expires now db h =
    let t : EmailToken = record {
      token_hash = hash;
      user_id = uid;
      purpose = purpose;
      expires_at = expires;
      used_at = none;
    } in
    let cleared : Db =
      if delete_fails
      then db
      else record { users = db.users; tokens = drop_tokens uid purpose db.tokens } in
    let fresh : has_token hash cleared.tokens ≡ false = ground arith in
    let stored : (create_email_token delete_fails false uid purpose hash expires db).1.tokens
        ≡ cleared.tokens ++ (t ∷ []) =
      ground arith in
    let live : live_token asked hash now t ≡ (str_eq purpose asked && ltb now expires) =
      unfold live_token in ground (arith, str_eq_refl hash) in
    consume-fresh now asked hash
      (create_email_token delete_fails false uid purpose hash expires db).1 cleared.tokens t stored
      fresh refl live

-- What a consumption says that gives an owner.
pub consume-done :
    (update_fails select_fails : Bool) (now : ℕ) (purpose hash uid : Text) (db : Db)
    → (consume_email_token update_fails select_fails now purpose hash db).0 ≡ done uid
    → (any_token purpose hash now db.tokens ≡ true)
      × ((consume_email_token update_fails select_fails now purpose hash db).1
          ≡ record { users = db.users; tokens = use_tokens purpose hash now db.tokens })
      × (token_owner hash (use_tokens purpose hash now db.tokens) ≡ some uid)
unfolding consume_email_token
consume-done update_fails select_fails now purpose hash uid db h =
    (ground arith, ground arith, ground arith)
