-- ===== src/AuthProxy/Handlers/Resets.antt =====
-- What a reset of cmd/authproxy/handlers_reset.go shows of the accounts, and what it changes.
use mathlib.Core.Path.{subst₂}
use agentry.Base.{
  ℕ, ◌≤◌, ◌≡◌, refl, sym, ap, inl, inr, Bool, true, false, Option, none, some, Text, arith,
  Option-cases, trim_space,
}
use agentry.AuthProxy.Password.{validate_password}
use agentry.AuthProxy.Request.{Request, Packages}
use agentry.AuthProxy.Store.Statements.{
  Db, Outcome, Outcome-cases, done, set_rows, update_users, use_tokens, any_token, token_owner,
}
use agentry.AuthProxy.Store.Security.{
  consume_email_token, update_password, some_affected, with_password, hash_token,
}
use agentry.AuthProxy.Store.Tokens.{any_token-use_tokens, consume-done}
use agentry.AuthProxy.Store.Spent.{Later, later-spent}
use agentry.AuthProxy.Session.{Cookie}
use agentry.AuthProxy.Handlers.State.{Config, State, World, redirect, rate_limited, form_email_of}
use agentry.AuthProxy.Handlers.Mails.{purpose_reset}
use agentry.AuthProxy.Handlers.Reset.{
  forgot_notice, forgot_email, post_forgot, reset_error, consume_error, reset_password,
  reset_checked, post_reset,
}
use agentry.AuthProxy.Handlers.Admission.{rate_limited-db}

rate_limited-answer :
    (w w2 : World) (r : Request) (s s2 : State)
    → w.now ≡ w2.now
    → s.limiter ≡ s2.limiter
    → (rate_limited w r s).0 ≡ (rate_limited w2 r s2).0
unfolding rate_limited
rate_limited-answer w w2 r s s2 e l = ground arith

forgot_email-notice :
    (pk : Packages) (cfg : Config) (w : World) (r : Request) (email : Text) (s : State)
    → (forgot_email pk cfg w r email s).reply ≡ forgot_notice
unfolding forgot_email
forgot_email-notice pk cfg w r email s = ground arith

-- The reply to a forgotten password depends on the request, the clock and the rate limiter alone:
-- it is the same whatever accounts there are and whatever the database, the random bytes and the
-- mailer do.
pub post_forgot-blind :
    (pk : Packages) (cfg : Config) (w w2 : World) (r : Request) (s s2 : State)
    → w.now ≡ w2.now
    → s.limiter ≡ s2.limiter
    → (post_forgot pk cfg w r s).reply ≡ (post_forgot pk cfg w2 r s2).reply
unfolding post_forgot
post_forgot-blind pk cfg w w2 r s s2 e l = ground (
  arith,
  rate_limited-answer w w2 r s s2 e l,
  forgot_email-notice pk cfg w r (form_email_of r) (rate_limited w r s).1,
  forgot_email-notice pk cfg w2 r (form_email_of r) (rate_limited w2 r s2).1,
)

-- A reset that took place: the token was live and is used, and the owner has the new password.
pub record WasReset (pk : Packages) (w : World) (r : Request) (before after : Db) : Type 0 where
  pub uid : Text
  pub password_hash : Text
  pub good_password : validate_password pk r.form_password ≡ none
  pub hashed : pk.bcrypt_generate r.form_password ≡ some password_hash
  pub was_live :
      any_token purpose_reset (hash_token pk (trim_space r.form_token)) w.now before.tokens ≡ true
  pub owned : token_owner (hash_token pk (trim_space r.form_token)) after.tokens ≡ some uid
  pub tokens_after :
      after.tokens
      ≡ use_tokens purpose_reset (hash_token pk (trim_space r.form_token)) w.now before.tokens
  pub users_after : after.users ≡ set_rows uid (with_password password_hash) before.users

reset_gates :
    (pk : Packages) (cfg : Config) (w : World) (r : Request) (s : State) (to : Text)
    (c : Option Cookie)
    → (post_reset pk cfg w r s).reply ≡ redirect to c
    → (validate_password pk r.form_password ≡ none)
      × (post_reset pk cfg w r s
          ≡ reset_password pk w r (trim_space r.form_token) (rate_limited w r s).1)
unfolding post_reset reset_checked reset_error
reset_gates pk cfg w r s to c h = (ground arith, ground arith)

update_password-done :
    (pk : Packages) (fails : Bool) (uid password : Text) (n : ℕ) (db : Db)
    → (update_password pk fails uid password db).0 ≡ done n
    → (hash : Text) × (pk.bcrypt_generate password ≡ some hash)
      × ((update_password pk fails uid password db).1
          ≡ record { users = set_rows uid (with_password hash) db.users; tokens = db.tokens })
unfolding update_password update_users some_affected
update_password-done pk fails uid password n db h =
    elim (Option-cases (pk.bcrypt_generate password)) [
      | inl none_made ↦ absurd (ground arith)
      | inr (hash, made) ↦ (hash, made, ground arith)
    ]

reset_password-WasReset :
    (pk : Packages) (w : World) (r : Request) (s : State) (to : Text) (c : Option Cookie)
    → validate_password pk r.form_password ≡ none
    → (reset_password pk w r (trim_space r.form_token) s).reply ≡ redirect to c
    → WasReset pk w r s.db (reset_password pk w r (trim_space r.form_token) s).state.db
unfolding reset_password consume_error
reset_password-WasReset pk w r s to c good h =
    let hash : Text = hash_token pk (trim_space r.form_token) in
    let consumed : Outcome Text × Db =
      consume_email_token w.token_update_fails w.token_select_fails w.now purpose_reset hash s.db in
    elim (Outcome-cases consumed.0) [
      | inl (e, refused) ↦ absurd (ground arith)
      | inr (uid, used) ↦
          let updated : Outcome ℕ × Db =
            update_password pk w.update_fails uid r.form_password consumed.1 in
          elim (Outcome-cases updated.0) [
            | inl (e, refused) ↦ absurd (ground arith)
            | inr (n, set) ↦
                let first =
                  consume-done w.token_update_fails w.token_select_fails w.now purpose_reset hash
                    uid s.db used in
                let second =
                  update_password-done pk w.update_fails uid r.form_password n consumed.1 set in
                let same : (reset_password pk w r (trim_space r.form_token) s).state.db
                    ≡ updated.1 =
                  ground (arith, used) in
                record {
                  uid = uid;
                  password_hash = second.0;
                  good_password = good;
                  hashed = second.1;
                  was_live = first.0;
                  owned = rw (same, second.2, first.1) first.2;
                  tokens_after = rw (same, second.2, first.1) refl;
                  users_after = rw (same, second.2, first.1) refl;
                }
          ]
    ]

-- A reset that ends in the redirect to the sign-in page carried a password that the policy accepts
-- and a reset token that was live, which is used now; the account of the owner of the token, and no
-- other, has the new password, no failures and no lock, and nothing else of the tables changes.
pub post_reset-WasReset :
    (pk : Packages) (cfg : Config) (w : World) (r : Request) (s : State) (to : Text)
    (c : Option Cookie)
    → (post_reset pk cfg w r s).reply ≡ redirect to c
    → WasReset pk w r s.db (post_reset pk cfg w r s).state.db
post_reset-WasReset pk cfg w r s to c h =
    let gates = reset_gates pk cfg w r s to c h in
    let inner =
      reset_password-WasReset pk w r (rate_limited w r s).1 to c gates.0 (rw (sym gates.1) h) in
    subst₂ (λ before after. WasReset pk w r before after) (rate_limited-db w r s)
      (ap (λ e. e.state.db) (sym gates.1)) inner

-- A reset token works once: after a reset, and after any calls of the store that follow, none of
-- which stores a token with the same hash, no request with the same token, not earlier than the
-- reset, resets a password.
pub post_reset-once :
    (pk : Packages) (cfg : Config) (w later : World) (r r2 : Request) (s s2 : State) (to to2 : Text)
    (c c2 : Option Cookie)
    → (post_reset pk cfg w r s).reply ≡ redirect to c
    → Later pk (hash_token pk (trim_space r.form_token)) (post_reset pk cfg w r s).state.db s2.db
    → w.now ≤ later.now
    → trim_space r2.form_token ≡ trim_space r.form_token
    → ¬ ((post_reset pk cfg later r2 s2).reply ≡ redirect to2 c2)
post_reset-once pk cfg w later r r2 s s2 to to2 c c2 h between order same again =
    let hash : Text = hash_token pk (trim_space r.form_token) in
    let first = post_reset-WasReset pk cfg w r s to c h in
    let second = post_reset-WasReset pk cfg later r2 s2 to2 c2 again in
    let used : any_token purpose_reset hash later.now (post_reset pk cfg w r s).state.db.tokens
        ≡ false =
      rw first.tokens_after
        (any_token-use_tokens purpose_reset hash w.now later.now s.db.tokens order) in
    let spent = later-spent pk purpose_reset hash later.now between used in
    ground (arith, second.was_live, spent, same)
