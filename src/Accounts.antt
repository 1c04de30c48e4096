-- ===== src/Accounts.antt =====
-- Accounts (crates/server/src/auth.rs, crates/server/src/accounts.rs): registration, login, the
-- tokens that are mailed, the profile and the deletion. A handler takes the tables to those after
-- it, with its answer. The statements on the database and the hashing fail when the environment
-- says so; an answer's headers other than the cookie, and the details of a problem, are left out.
pub mod Emails
pub mod Registration
pub mod Login
pub mod Resets
pub mod Profile
pub mod Steps
use toot_tok.Common.{
  ℕ, suc, ◌+◌, ◌*◌, Bool, true, false, not, ltb, if◌then◌else◌, Option, none, some, List, [], ◌∷◌,
  ◌++◌, String,
}
use toot_tok.Common.Text.{Text, codes}
use toot_tok.Db.Actors.{Actor}
use toot_tok.Db.Assets.{MediaAsset}
use toot_tok.Db.Clips.{Clip}
use toot_tok.Db.Ledger.{Tombstones}
use toot_tok.Db.Tokens
use toot_tok.Db.Tokens.{EmailToken, TokenKind, verify, password_reset}
use toot_tok.Db.Users.{User}
use toot_tok.Json.{Value}
use toot_tok.Media.{Files}
use toot_tok.Sessions.{Session}

-- The statements whose errors are answered 500.
pub data Statement : Type 0 where
  mode_read user_read actor_insert user_insert actor_read : Statement
  session_insert session_delete token_insert token_consume token_user_read : Statement
  password_write tokens_invalidate sessions_delete verified_write : Statement
  profile_write avatar_write : Statement
  clips_delete assets_read tombstone_insert user_erase actor_delete tokens_delete : Statement

-- What one request meets. `token` and `second_token` are the random tokens that it draws.
pub record Env : Type 0 where
  pub now : ℕ
  pub has_pool : Bool
  pub base_url : Text
  pub behind_tls : Bool
  pub fails : Statement → Bool
  pub registration_mode : Option Value
  pub hash_password : Text → Option Text
  pub verify_password : Text → Text → Bool
  pub hash_token : Text → Text
  pub keypair : Option (Text × Text)
  pub token : Text
  pub second_token : Text
  -- The errors of the file system, by key.
  pub io : Text → Option String

pub record Mail : Type 0 where
  pub address : Text
  pub subject : Text
  pub body : Text

pub record Accounts : Type 0 where
  pub users : List User
  pub next_user : ℕ
  pub actors : List Actor
  pub next_actor : ℕ
  pub tokens : List EmailToken
  pub sessions : List Session
  pub clips : List Clip
  pub assets : List MediaAsset
  pub tombs : Tombstones
  pub files : Files
  pub sent : List Mail

pub data Response : Type 0 where
  -- problem+json, with its status and title.
  problem : ℕ → String → Response
  -- The status, the body and the `Set-Cookie` header.
  reply : ℕ → Option Value → Option Text → Response

abbrev pub unavailable : Response
unavailable = problem 503 "database unavailable"

abbrev pub database_error : Response
database_error = problem 500 "database error"

-- The rows of the `AuthUser` extractor.
pub record AuthUser : Type 0 where
  pub user : User
  pub actor : Actor
  pub session : Session

-- The number of bytes of a code point, and of a text (`str::len`).
abbrev pub utf8_width : ℕ → ℕ
utf8_width c = if ltb c 0x80 then 1 else if ltb c 0x800 then 2 else if ltb c 0x10000 then 3 else 4

unfoldable pub byte_length : Text → ℕ
byte_length [] = 0
byte_length (c ∷ s) = utf8_width c + byte_length s

-- Statements one after another, up to the first that fails, and whether all ran.
unfoldable pub run_all : Env → Accounts → List (Statement × (Accounts → Accounts)) → Accounts × Bool
run_all e a [] = (a, true)
run_all e a ((s, f) ∷ rest) =
    let ran = run_all e (f a) rest in if e.fails s then (a, false) else ran

abbrev pub answer_all : Accounts × Bool → Response → Accounts × Response
answer_all (a, true) r = (a, r)
answer_all (a, false) r = (a, database_error)

abbrev pub session_lifetime_secs : ℕ
session_lifetime_secs = 30 * 24 * 60 * 60

abbrev pub email_token_ttl_secs : ℕ
email_token_ttl_secs = 60 * 60

unfoldable pub session_cookie : Text → Bool → Text
session_cookie token behind_tls =
    codes "toottok_session="
    ++ (token
        ++ (codes "; Path=/; HttpOnly; SameSite=Lax; Max-Age=2592000"
            ++ (if behind_tls then codes "; Secure" else [])))

abbrev pub clear_cookie : Text
clear_cookie = codes "toottok_session=; Path=/; HttpOnly; SameSite=Lax; Max-Age=0"

abbrev kind_name : TokenKind → Text
kind_name verify = codes "verify"
kind_name password_reset = codes "password_reset"

abbrev subject_of : TokenKind → Text
subject_of verify = codes "TootTok email verification"
subject_of password_reset = codes "TootTok password reset"

abbrev pub token_mail : Text → TokenKind → Text → Mail
token_mail email kind token = record {
  address = email;
  subject = subject_of kind;
  body =
      codes "TootTok "
      ++ (kind_name kind
          ++ (codes " code: "
              ++ (token ++ 10 ∷ (codes "This code expires in 1 hour." ++ 10 ∷ []))));
}

with_mail : Accounts → Mail → Option (List EmailToken) → Accounts
with_mail a m none = a
with_mail a m (some tokens) = record a { tokens = tokens; sent = a.sent ++ m ∷ [] }

-- A token that cannot be stored is not mailed, and the request goes on.
unfoldable pub issue_email_token : Env → Accounts → ℕ → Text → TokenKind → Accounts
unfolding with_mail
issue_email_token e a user_id email kind =
    if e.fails token_insert
    then a
    else with_mail a (token_mail email kind e.token)
        (Tokens.create a.tokens user_id kind (e.hash_token e.token) (e.now + email_token_ttl_secs))
