-- ===== src/Accounts/Registration.antt =====
-- Registration (crates/server/src/auth.rs, `register` and what it calls).
pub mod Outcome
use toot_tok.Common.{
  ℕ, suc, Bool, true, false, ◌&&◌, ◌||◌, not, leb, ltb, ◌==◌, if◌then◌else◌, Option, none, some,
  List, [], ◌∷◌, ◌++◌, all, String,
}
use toot_tok.Common.Text.{Text, codes, trim, text_eq, is_digit}
use toot_tok.Db.Actors
use toot_tok.Db.Actors.{Actor, NewActor}
use toot_tok.Db.Tokens.{verify}
use toot_tok.Db.Users
use toot_tok.Db.Users.{User, UserStatus, active, pending}
use toot_tok.Json.{Value, string, integer, pos, as_str, non_empty, json}
use toot_tok.Accounts.{
  Env, Accounts, Response, problem, reply, unavailable, database_error, byte_length,
  issue_email_token, Statement, mode_read, actor_insert, user_insert, actor_delete,
}
use toot_tok.Accounts.Emails.{is_valid_email, is_empty}

pub record RegisterRequest : Type 0 where
  pub username : Text
  pub email : Option Text
  pub password : Text

abbrev pub is_name_char : ℕ → Bool
is_name_char c = leb b'a' c && leb c b'z' || (is_digit c || c == b'_')

-- `^[a-z0-9_]{3,30}$`.
unfoldable pub is_username : Text → Bool
is_username name = leb 3 (byte_length name) && (leb (byte_length name) 30 && all is_name_char name)

abbrev pub email_given : Option Text → Option Text
email_given none = none
email_given (some email) = non_empty (some (trim email))

abbrev is_acceptable : Option Text → Bool
is_acceptable none = true
is_acceptable (some email) = is_valid_email email

-- The problem, if there is one.
unfoldable pub validate_register : RegisterRequest → Option Response
validate_register req =
    if is_username (trim req.username)
    then (if ltb (byte_length req.password) 10
        then some (problem 400 "weak password")
        else if is_acceptable (email_given req.email)
        then none
        else some (problem 400 "invalid email"))
    else some (problem 400 "invalid username")

pub data Mode : Type 0 where
  open_to_all approval invite unknown : Mode

abbrev mode_named : Text → Mode
mode_named name =
    if text_eq name (codes "open")
    then open_to_all
    else if text_eq name (codes "approval")
    then approval
    else if text_eq name (codes "invite")
    then invite
    else unknown

abbrev or_open : Option Text → Text
or_open none = codes "open"
or_open (some s) = s

-- A setting that is missing, or is no text, is `open`.
unfoldable pub registration_mode : Option Value → Mode
registration_mode none = open_to_all
registration_mode (some v) = mode_named (or_open (as_str v))

abbrev pub created : Actor → UserStatus → Value
created actor status = json (
    (codes "actor_id", integer (pos actor.id))
    ∷ (codes "username", string actor.username)
    ∷ (codes "status", string (elim status [ active ↦ codes "active" | pending ↦ codes "pending" ]))
    ∷ [])

-- Only an account that is active at once is sent a token.
abbrev pub welcome : Env → Accounts → ℕ → Option Text → UserStatus → Accounts
welcome e a user_id none status = a
welcome e a user_id (some email) pending = a
welcome e a user_id (some email) active = issue_email_token e a user_id email verify

-- The actor is taken back, when its deletion succeeds.
abbrev pub without_actor : Env → Accounts → ℕ → Accounts
without_actor e a id =
    if e.fails actor_delete then a else record a { actors = Actors.delete_by_id a.actors id }

insert_user :
    Env → Accounts → Actor → Option Text → UserStatus → Option (List User) → Accounts × Response
insert_user e a actor email status none = (without_actor e a actor.id, problem 409 "email taken")
insert_user e a actor email status (some users) = (
  welcome e (record a { users = users; next_user = suc a.next_user }) a.next_user email status,
  reply 201 (some (created actor status)) none,
)

register_user : Env → Accounts → RegisterRequest → UserStatus → Text → Actor → Accounts × Response
unfolding insert_user
register_user e a req status hash actor =
    if e.fails user_insert
    then (without_actor e a actor.id, database_error)
    else insert_user e a actor (email_given req.email) status
        (Users.create_with_status a.users a.next_user actor.id (email_given req.email) hash status)

-- The row that a registration asks for. The name is taken as it was sent.
unfoldable pub new_actor : Env → RegisterRequest → Text → Text → NewActor
new_actor e req public_key private_key =
    let ap_id = e.base_url ++ (codes "/users/" ++ req.username) in
    record {
      username = req.username;
      public_key_pem = public_key;
      private_key_pem = private_key;
      inbox_url = ap_id ++ codes "/inbox";
      shared_inbox_url = e.base_url ++ codes "/ap/inbox";
      outbox_url = ap_id ++ codes "/outbox";
      followers_url = ap_id ++ codes "/followers";
      ap_id = ap_id;
    }

insert_actor :
    Env
    → Accounts
    → RegisterRequest
    → UserStatus
    → Text
    → NewActor
    → Option (List Actor)
    → Accounts × Response
unfolding register_user
insert_actor e a req status hash row none = (a, problem 409 "username taken")
insert_actor e a req status hash row (some actors) =
    register_user e (record a { actors = actors; next_actor = suc a.next_actor }) req status hash
      (Actors.local_row a.next_actor row)

register_actor :
    Env → Accounts → RegisterRequest → UserStatus → Text → NewActor → Accounts × Response
unfolding insert_actor
register_actor e a req status hash row =
    if e.fails actor_insert
    then (a, database_error)
    else insert_actor e a req status hash row (Actors.create a.actors a.next_actor row)

register_keys :
    Env
    → Accounts
    → RegisterRequest
    → UserStatus
    → Text
    → Option (Text × Text)
    → Accounts × Response
unfolding register_actor new_actor
register_keys e a req status hash none = (a, problem 500 "key generation failed")
register_keys e a req status hash (some (public_key, private_key)) =
    register_actor e a req status hash (new_actor e req public_key private_key)

register_hash : Env → Accounts → RegisterRequest → UserStatus → Option Text → Accounts × Response
unfolding register_keys
register_hash e a req status none = (a, problem 500 "password hashing failed")
register_hash e a req status (some hash) = register_keys e a req status hash e.keypair

register_mode : Env → Accounts → RegisterRequest → Mode → Accounts × Response
unfolding register_hash
register_mode e a req open_to_all = register_hash e a req active (e.hash_password req.password)
register_mode e a req approval = register_hash e a req pending (e.hash_password req.password)
register_mode e a req invite = (a, problem 403 "registration closed")
register_mode e a req unknown = (a, problem 500 "invalid setting")

register_valid : Env → Accounts → RegisterRequest → Option Response → Accounts × Response
unfolding register_mode
register_valid e a req (some p) = (a, p)
register_valid e a req none =
    if e.fails mode_read
    then (a, database_error)
    else register_mode e a req (registration_mode e.registration_mode)

unfoldable pub register : Env → Accounts → RegisterRequest → Accounts × Response
unfolding register_valid
register e a req =
    if e.has_pool then register_valid e a req (validate_register req) else (a, unavailable)
