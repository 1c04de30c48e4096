-- ===== src/Examples/Members.antt =====
-- Accounts (crates/server/src/auth.rs, crates/server/src/accounts.rs) on one member.
use toot_tok.Common.{◌≡◌, refl, true, false, none, some, [], ◌∷◌, arith}
use toot_tok.Common.Text.{
  Text, codes, text_eq, eq_ignore_case, to_lower, trim, is_whitespace, to_str,
}
use toot_tok.Common.Table.{update_where, delete_where}
use toot_tok.Db.Actors
use toot_tok.Db.Actors.{Actor}
use toot_tok.Db.Tokens
use toot_tok.Db.Tokens.{EmailToken, password_reset}
use toot_tok.Db.Users
use toot_tok.Db.Users.{User, active}
use toot_tok.Sessions
use toot_tok.Sessions.{Session, Request, get, session_token, parts_from, authenticate}
use toot_tok.Accounts.{Env, Accounts, AuthUser, problem, byte_length, run_all}
use toot_tok.Accounts.Login.{LoginRequest, login, new_session, find_user_for_login}
use toot_tok.Accounts.Login.Opened.{login_authenticates}
use toot_tok.Accounts.Profile.{delete_me, delete_steps}
use toot_tok.Accounts.Profile.Erasure.{IsGone, delete_me-IsGone}
use toot_tok.Accounts.Registration.{RegisterRequest, register}
use toot_tok.Accounts.Registration.Outcome.{IsDone, register-IsDone}
use toot_tok.Accounts.Resets.{owner_unread, reset, consumed, request_reset, reset_steps}
use toot_tok.Accounts.Resets.Once.{reset_once}
use toot_tok.Accounts.Resets.Requests.{IsMailed, looked_up, request_reset_reveals_nothing}
use toot_tok.Accounts.Resets.Revocation.{IsRevoked, reset-IsRevoked}
use toot_tok.Accounts.Resets.Lockout.{logins, Shows, reset_locks_out}
use toot_tok.Accounts.Steps.{database_of, user_view, actor_view}

abbrev env : Env
env = record {
  now = 1000;
  has_pool = true;
  base_url = codes "https://here.test";
  behind_tls = true;
  fails = λ _. false;
  registration_mode = none;
  hash_password = λ p. some p;
  verify_password = text_eq;
  hash_token = λ t. t;
  keypair = some (codes "public", codes "private");
  token = codes "tok2";
  second_token = codes "csrf";
  io = λ _. none;
}

abbrev member : User
member = record {
  id = 3;
  actor_id = 7;
  email = some (codes "a@b.cd");
  email_verified_at = none;
  password_hash = some (codes "old password");
  is_admin = false;
  status = active;
  deleted_at = none;
}

abbrev pub actor : Actor
actor = record {
  id = 7;
  username = codes "ada";
  domain = none;
  inbox_url = [];
  shared_inbox_url = none;
  followers_url = [];
  is_locked = false;
  deleted_at = none;
  ap_id = codes "https://here.test/users/ada";
  public_key_pem = [];
  private_key_pem = none;
  outbox_url = [];
  display_name = none;
  summary = none;
  avatar_path = none;
  suspended_at = none;
}

abbrev session : Session
session = record {
  id = codes "tok1";
  user_id = 3;
  expires_at = 5000;
  ip = none;
  ua = none;
  csrf_token = codes "c";
}

-- Another member's session.
abbrev other_session : Session
other_session = record session { id = codes "tok9"; user_id = 4 }

abbrev other_member : User
other_member = record member { id = 4; actor_id = 7; email = none }

abbrev reset_token : EmailToken
reset_token = record {
  user_id = 3;
  kind = password_reset;
  token_hash = codes "r";
  expires_at = 2000;
  used_at = none;
}

abbrev tables : Accounts
tables = record {
  users = member ∷ other_member ∷ [];
  next_user = 5;
  actors = actor ∷ [];
  next_actor = 8;
  tokens = reset_token ∷ [];
  sessions = session ∷ other_session ∷ [];
  clips = [];
  assets = [];
  tombs = [];
  files = [];
  sent = [];
}

abbrev new_password : Text
new_password = codes "new password"

abbrev visit : Request
visit = record {
  method = get;
  path = codes "/";
  cookie = some (codes "toottok_session=tok9");
  csrf_header = none;
}

reset-IsRevoked_example :
    (u : User) × (hash : Text) × ((consumed env tables (codes "r") password_reset).1 ≡ some u)
    × (some new_password ≡ some hash)
    × IsRevoked u.id hash (reset env tables (codes "r") new_password).0
unfolding reset owner_unread consumed byte_length Tokens.consume update_where text_eq
    Users.fetch_by_id run_all reset_steps
reset-IsRevoked_example = reset-IsRevoked env tables _ (codes "r") new_password refl

-- The member logs in again, with the new password.
abbrev again : LoginRequest
again = record {
  username_or_email = codes "ada";
  password = new_password;
  forwarded_for = none;
  user_agent = none;
}

abbrev fresh_visit : Request
fresh_visit = record {
  method = get;
  path = codes "/";
  cookie = some (codes "toottok_session=tok2");
  csrf_header = none;
}

reset_locks_out_example :
    (hash : Text) × (some new_password ≡ some hash) × Shows hash ((env, again) ∷ [])
unfolding reset owner_unread consumed byte_length Tokens.consume update_where text_eq
    Users.fetch_by_id run_all reset_steps logins login find_user_for_login
    Actors.fetch_by_username_local eq_ignore_case to_lower Users.fetch_by_actor_id
    Actors.fetch_by_id Tokens.create_session Tokens.delete_sessions_of delete_where
    Tokens.fetch_session session_token to_str parts_from trim is_whitespace Sessions.authenticate
    Users.set_password
reset_locks_out_example =
    reset_locks_out env tables (reset env tables (codes "r") new_password).0 (codes "r")
      new_password member ((env, again) ∷ []) (λ t. t) 1500 fresh_visit
      (record {
        user = user_view (record member { password_hash = some new_password });
        actor = actor_view actor;
        session = new_session env again 3;
      })
      refl refl refl refl

reset_once_example :
    reset env (reset env tables (codes "r") new_password).0 (codes "r") (codes "third password")
    ≡ ((reset env tables (codes "r") new_password).0, problem 400 "invalid token")
unfolding reset owner_unread consumed byte_length Tokens.consume update_where text_eq
    Users.fetch_by_id run_all reset_steps
reset_once_example =
    reset_once env env tables (reset env tables (codes "r") new_password).0
      (reset env tables (codes "r") new_password).0 (codes "r") new_password
      (codes "third password") refl refl (omega arith) refl refl refl refl

request_reset_reveals_nothing_example :
    ((request_reset env tables (codes "a@b.cd")).1
      ≡ (request_reset env (record tables { users = [] }) (codes "a@b.cd")).1)
    × IsMailed env tables
        (looked_up env tables (codes "a@b.cd"))
        (request_reset env tables (codes "a@b.cd")).0
request_reset_reveals_nothing_example =
    request_reset_reveals_nothing env tables (record tables { users = [] }) (codes "a@b.cd")

abbrev login_request : LoginRequest
login_request = record {
  username_or_email = codes "Ada";
  password = codes "old password";
  forwarded_for = none;
  user_agent = none;
}

abbrev return_visit : Request
return_visit = record visit { cookie = some (codes "a=b; toottok_session=tok2") }

login_authenticates_example :
    (u : User) × (x : Actor) × (find_user_for_login tables (codes "Ada") ≡ some u)
    × (authenticate env.hash_token
          (database_of (login env tables login_request).0)
          2000
          return_visit
        ≡ Sessions.authenticated (record {
          user = user_view u;
          actor = actor_view x;
          session = new_session env login_request u.id;
        }))
unfolding login find_user_for_login Actors.fetch_by_username_local eq_ignore_case to_lower
    Users.fetch_by_actor_id text_eq Actors.fetch_by_id Tokens.create_session Users.fetch_by_id
    session_token to_str parts_from trim is_whitespace
login_authenticates_example =
    login_authenticates env tables (login env tables login_request).0 login_request _ _ 2000
      return_visit refl (refl, (refl, tt)) refl (omega arith)

abbrev pub caller : AuthUser
caller = record { user = member; actor = actor; session = session }

delete_me-IsGone_example :
    ((hash : Text) × (some (codes "old password") ≡ some hash)
      × (text_eq (codes "old password") hash ≡ true))
    × IsGone 1000 caller (delete_me env tables caller (codes "old password")).0
unfolding delete_me text_eq run_all delete_steps
delete_me-IsGone_example =
    delete_me-IsGone env tables (delete_me env tables caller (codes "old password")).0 caller
      (codes "old password") refl

abbrev register_request : RegisterRequest
register_request = record {
  username = codes " grace ";
  email = none;
  password = codes "ten letters";
}

register-IsDone_example : IsDone env tables register_request (register env tables register_request)
register-IsDone_example = register-IsDone env tables register_request (refl, tt)
