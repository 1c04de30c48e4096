-- ===== src/Examples/Logins.antt =====
-- Sessions and the CSRF check (crates/server/src/session.rs, crates/server/src/csrf.rs) on one
-- logged-in user.
use toot_tok.Common.{◌≡◌, ◌⊎◌, refl, true, false, some, none}
use toot_tok.Common.Text.{Text, text_eq, codes, trim, is_whitespace, to_str}
use toot_tok.Sessions.{
  Session, User, Actor, AuthUser, Database, Request, found, failed, missing, post, provided, csrf,
  authenticate, is_read, is_exempt, session_token, parts_from,
}
use toot_tok.Sessions.Access.{IsLogin, authenticate-IsLogin}
use toot_tok.Sessions.Writes.{write_shows_token}

abbrev session : Session
session = record {
  id = codes "abc";
  user_id = 7;
  expires_at = 100;
  ip = none;
  ua = none;
  csrf_token = codes "tok";
}

abbrev user : User
user = record { actor_id = 9; is_active = true; is_deleted = false }

abbrev actor : Actor
actor = record { is_deleted = false; is_suspended = false }

abbrev database : Database
database = record {
  is_configured = true;
  session_of = λ t. found session;
  user_of = λ n. found user;
  actor_of = λ n. found actor;
}

abbrev write : Request
write = record {
  method = post;
  path = codes "/api/v1/clips";
  cookie = some (codes "a=b; toottok_session=abc");
  csrf_header = some (codes "tok");
}

abbrev login : AuthUser
login = record { user = user; actor = actor; session = session }

-- The database as the check meets it: the query for the session fails.
abbrev failing : Database
failing = record database { session_of = λ t. failed }

write_shows_token_example :
    (provided (record write { csrf_header = none }) ≡ login.session.csrf_token)
    ⊎ ((token : Text) × (session_token (record write { csrf_header = none }) ≡ some token)
        × ((failing.session_of token ≡ failed) ⊎ (failing.session_of token ≡ missing)))
unfolding is_read is_exempt csrf session_token to_str parts_from trim is_whitespace text_eq
    authenticate
write_shows_token_example =
    write_shows_token (λ t. t) failing database 50 (record write { csrf_header = none }) login refl
      (λ id s r h k. absurd (cc h)) refl refl refl refl

authenticate-IsLogin_example : IsLogin (λ t. t) database 50 write login
unfolding session_token to_str parts_from trim is_whitespace text_eq authenticate
authenticate-IsLogin_example = authenticate-IsLogin (λ t. t) database 50 write login refl
