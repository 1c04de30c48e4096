-- ===== src/Accounts/Resets.antt =====
-- Password resets and the verification of addresses (crates/server/src/auth.rs, `request_reset`,
-- `reset` and `verify_email`).
pub mod Once
pub mod Requests
pub mod Revocation
pub mod Lockout
use toot_tok.Common.{
  ℕ, Bool, true, false, ◌&&◌, not, ltb, if◌then◌else◌, Option, none, some, is_none, any, List, [],
  ◌∷◌, String,
}
use toot_tok.Common.Text.{Text, codes, trim}
use toot_tok.Db.Tokens
use toot_tok.Db.Tokens.{TokenKind, verify, password_reset}
use toot_tok.Db.Users
use toot_tok.Db.Users.{User, is_active}
use toot_tok.Json.{json}
use toot_tok.Accounts.{
  Env, Accounts, Statement, Response, problem, reply, unavailable, database_error, byte_length,
  issue_email_token, run_all, answer_all, user_read, token_consume, token_user_read, password_write,
  tokens_invalidate, sessions_delete, verified_write,
}
use toot_tok.Accounts.Emails.{is_valid_email}

mail_reset : Env → Accounts → ℕ → Option Text → Accounts
mail_reset e a user_id none = a
mail_reset e a user_id (some email) = issue_email_token e a user_id email password_reset

reset_for : Env → Accounts → Option User → Accounts
unfolding mail_reset
reset_for e a none = a
reset_for e a (some user) =
    if is_none user.deleted_at && is_active user.status
    then mail_reset e a user.id user.email
    else a

-- A read that fails is one that finds nobody.
unfoldable pub request_reset : Env → Accounts → Text → Accounts × Response
unfolding reset_for
request_reset e a email =
    if not e.has_pool
    then (a, unavailable)
    else if is_valid_email (trim email)
    then (
      reset_for e a (if e.fails user_read then none else Users.fetch_by_email a.users (trim email)),
      reply 202 (some (json [])) none,
    )
    else (a, problem 400 "invalid email")

-- The statements of a reset, after the token was consumed.
unfoldable pub reset_steps : Env → ℕ → Text → List (Statement × (Accounts → Accounts))
reset_steps e id hash =
    (password_write, λ a. record a { users = Users.set_password a.users id hash })
    ∷ (
      tokens_invalidate,
      λ a. record a { tokens = Tokens.invalidate_for_user a.tokens e.now id password_reset },
    )
    ∷ (sessions_delete, λ a. record a { sessions = Tokens.delete_sessions_of a.sessions id })
    ∷ []

reset_password : Env → Accounts → ℕ → Option Text → Accounts × Response
reset_password e a id none = (a, problem 500 "password hashing failed")
reset_password e a id (some hash) =
    answer_all (run_all e a (reset_steps e id hash)) (reply 204 none none)

reset_user : Env → Accounts → Text → Option User → Accounts × Response
unfolding reset_password
reset_user e a new_password none = (a, problem 400 "invalid token")
reset_user e a new_password (some user) = reset_password e a user.id (e.hash_password new_password)

-- The tables after the token of the kind was looked up and stamped, and its owner.
unfoldable pub consumed : Env → Accounts → Text → TokenKind → Accounts × Option User
consumed e a token kind =
    let done = Tokens.consume a.tokens a.users (e.hash_token token) kind e.now in
    (record a { tokens = done.0 }, done.1)

-- The owner of a token that was stamped cannot be read: the token is used up all the same.
unfoldable pub owner_unread : Env → Accounts → Text → TokenKind → Bool
owner_unread e a token kind =
    any (Tokens.is_usable (e.hash_token token) kind e.now) a.tokens && e.fails token_user_read

unfoldable pub reset : Env → Accounts → Text → Text → Accounts × Response
unfolding reset_user
reset e a token new_password =
    if not e.has_pool
    then (a, unavailable)
    else if ltb (byte_length new_password) 10
    then (a, problem 400 "weak password")
    else if e.fails token_consume
    then (a, database_error)
    else let after = consumed e a token password_reset in
      if owner_unread e a token password_reset
      then (after.0, database_error)
      else reset_user e after.0 new_password after.1

verify_user : Env → Accounts → Option User → Accounts × Response
verify_user e a none = (a, problem 400 "invalid token")
verify_user e a (some user) =
    answer_all
      (run_all e a (
        (verified_write, λ a. record a { users = Users.set_email_verified a.users e.now user.id })
        ∷ []))
      (reply 204 none none)

unfoldable pub verify_email : Env → Accounts → Text → Accounts × Response
unfolding verify_user
verify_email e a token =
    if not e.has_pool
    then (a, unavailable)
    else if e.fails token_consume
    then (a, database_error)
    else let after = consumed e a token verify in
      if owner_unread e a token verify
      then (after.0, database_error)
      else verify_user e after.0 after.1
