-- ===== src/Accounts/Login.antt =====
-- Login and logout (crates/server/src/auth.rs, `login`, `find_user_for_login`, `forwarded_ip` and
-- `logout`).
pub mod Opened
pub mod Tried
use toot_tok.Common.{
  ℕ, ◌+◌, Bool, true, false, not, if◌then◌else◌, Option, none, some, is_some, List, [], ◌∷◌, String,
}
use toot_tok.Common.Text.{Text, codes, trim, first_part, to_str}
use toot_tok.Db.Actors
use toot_tok.Db.Actors.{Actor}
use toot_tok.Db.Tokens.{create_session, delete_session}
use toot_tok.Db.Users
use toot_tok.Db.Users.{User, is_active}
use toot_tok.Json.{Value, string, integer, pos, non_empty, json}
use toot_tok.Sessions.{Session}
use toot_tok.Accounts.{
  Env, Accounts, AuthUser, Response, problem, reply, unavailable, database_error, session_cookie,
  clear_cookie, session_lifetime_secs, user_read, actor_read, session_insert, session_delete,
}

pub record LoginRequest : Type 0 where
  pub username_or_email : Text
  pub password : Text
  pub forwarded_for : Option Text
  pub user_agent : Option Text

abbrev pub invalid_credentials : Response
invalid_credentials = problem 401 "invalid credentials"

unfoldable user_of_actor : Accounts → Text → Option Actor → Option User
user_of_actor a login (some actor) = Users.fetch_by_actor_id a.users actor.id
user_of_actor a login none = Users.fetch_by_email a.users login

-- The local name comes first, also when it has no user.
unfoldable pub find_user_for_login : Accounts → Text → Option User
unfolding user_of_actor
find_user_for_login a login = user_of_actor a login (Actors.fetch_by_username_local a.actors login)

abbrev text_of : Option Text → Option Text
text_of none = none
text_of (some v) = to_str v

abbrev first_hop : Option Text → Option Text
first_hop none = none
first_hop (some s) = non_empty (some (trim (first_part b',' s)))

unfoldable pub forwarded_ip : Option Text → Option Text
forwarded_ip header = first_hop (text_of header)

abbrev pub new_session : Env → LoginRequest → ℕ → Session
new_session e req user_id = record {
  id = e.hash_token e.token;
  user_id = user_id;
  expires_at = e.now + session_lifetime_secs;
  ip = forwarded_ip req.forwarded_for;
  ua = text_of req.user_agent;
  csrf_token = e.second_token;
}

abbrev logged_in : Env → Actor → Value
logged_in e actor = json (
    (codes "actor_id", integer (pos actor.id))
    ∷ (codes "username", string actor.username)
    ∷ (codes "status", string (codes "active"))
    ∷ (codes "csrf_token", string e.second_token)
    ∷ [])

unfoldable with_session : Env → Accounts → Actor → Option (List Session) → Accounts × Response
with_session e a actor none = (a, database_error)
with_session e a actor (some sessions) = (
  record a { sessions = sessions },
  reply 200 (some (logged_in e actor)) (some (session_cookie e.token e.behind_tls)),
)

unfoldable open_session : Env → Accounts → LoginRequest → ℕ → Actor → Accounts × Response
unfolding with_session
open_session e a req user_id actor =
    if e.fails session_insert
    then (a, database_error)
    else with_session e a actor (create_session a.sessions (new_session e req user_id))

unfoldable login_actor : Env → Accounts → LoginRequest → ℕ → Option Actor → Accounts × Response
unfolding open_session
login_actor e a req user_id none = (a, invalid_credentials)
login_actor e a req user_id (some actor) =
    if is_some actor.deleted_at
    then (a, invalid_credentials)
    else if is_some actor.suspended_at
    then (a, problem 403 "account suspended")
    else open_session e a req user_id actor

unfoldable login_verified : Env → Accounts → LoginRequest → User → Accounts × Response
unfolding login_actor
login_verified e a req user =
    if e.fails actor_read
    then (a, database_error)
    else login_actor e a req user.id (Actors.fetch_by_id a.actors user.actor_id)

unfoldable login_hash : Env → Accounts → LoginRequest → User → Option Text → Accounts × Response
unfolding login_verified
login_hash e a req user none = (a, invalid_credentials)
login_hash e a req user (some hash) =
    if e.verify_password req.password hash
    then login_verified e a req user
    else (a, invalid_credentials)

unfoldable login_user : Env → Accounts → LoginRequest → Option User → Accounts × Response
unfolding login_hash
login_user e a req none = (a, invalid_credentials)
login_user e a req (some user) =
    if is_some user.deleted_at
    then (a, invalid_credentials)
    else if not (is_active user.status)
    then (a, problem 403 "account pending approval")
    else login_hash e a req user user.password_hash

unfoldable pub login : Env → Accounts → LoginRequest → Accounts × Response
unfolding login_user
login e a req =
    if not e.has_pool
    then (a, unavailable)
    else if e.fails user_read
    then (a, database_error)
    else login_user e a req (find_user_for_login a req.username_or_email)

unfoldable pub logout : Env → Accounts → AuthUser → Accounts × Response
logout e a auth =
    if not e.has_pool
    then (a, unavailable)
    else if e.fails session_delete
    then (a, database_error)
    else (
      record a { sessions = delete_session a.sessions auth.session.id },
      reply 204 none (some clear_cookie),
    )
