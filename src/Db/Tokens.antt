-- ===== src/Db/Tokens.antt =====
-- The tables `email_tokens` and `sessions` (crates/db/src/email_token.rs,
-- crates/db/src/session.rs). Keys of tokens are left out. Only hashes of tokens are stored.
use toot_tok.Common.{
  ℕ, Bool, true, false, ◌&&◌, ltb, if◌then◌else◌, Option, none, some, is_none, List, [], ◌∷◌, ◌++◌,
  find, any, ◌==◌,
}
use toot_tok.Common.Table.{update_where, delete_where}
use toot_tok.Common.Text.{Text, text_eq}
use toot_tok.Db.Users
use toot_tok.Db.Users.{User}
use toot_tok.Sessions.{Session}

pub data TokenKind : Type 0 where
  verify password_reset : TokenKind

abbrev pub same_kind : TokenKind → TokenKind → Bool
same_kind verify verify = true
same_kind password_reset password_reset = true
same_kind _ _ = false

pub record EmailToken : Type 0 where
  pub user_id : ℕ
  pub kind : TokenKind
  pub token_hash : Text
  pub expires_at : ℕ
  pub used_at : Option ℕ

-- `none` is a violation of UNIQUE (token_hash).
unfoldable pub create : List EmailToken → ℕ → TokenKind → Text → ℕ → Option (List EmailToken)
create tokens user_id kind token_hash expires_at =
    if any (λ t. text_eq t.token_hash token_hash) tokens
    then none
    else some (
        tokens
        ++ record {
          user_id = user_id;
          kind = kind;
          token_hash = token_hash;
          expires_at = expires_at;
          used_at = none;
        }
          ∷ [])

abbrev pub is_usable : Text → TokenKind → ℕ → EmailToken → Bool
is_usable token_hash kind now t =
    text_eq t.token_hash token_hash
    && (same_kind t.kind kind && (is_none t.used_at && ltb now t.expires_at))

abbrev pub used : ℕ → EmailToken → EmailToken
used now t = record t { used_at = some now }

abbrev owner_of : List User → Option EmailToken → Option User
owner_of users none = none
owner_of users (some t) = Users.fetch_by_id users t.user_id

-- The tokens after the update, and the owner of the one that was consumed.
unfoldable pub consume :
    List EmailToken → List User → Text → TokenKind → ℕ → List EmailToken × Option User
consume tokens users token_hash kind now = (
  update_where (is_usable token_hash kind now) (used now) tokens,
  owner_of users (find (is_usable token_hash kind now) tokens),
)

abbrev pub is_outstanding : ℕ → TokenKind → EmailToken → Bool
is_outstanding user_id kind t = t.user_id == user_id && (same_kind t.kind kind && is_none t.used_at)

unfoldable pub invalidate_for_user : List EmailToken → ℕ → ℕ → TokenKind → List EmailToken
invalidate_for_user tokens now user_id kind =
    update_where (is_outstanding user_id kind) (used now) tokens

unfoldable pub delete_for_user : List EmailToken → ℕ → List EmailToken
delete_for_user tokens user_id = delete_where (λ t. t.user_id == user_id) tokens

abbrev pub is_session : Text → Session → Bool
is_session id s = text_eq s.id id

-- `none` is a violation of the primary key.
unfoldable pub create_session : List Session → Session → Option (List Session)
create_session sessions s =
    if any (is_session s.id) sessions then none else some (sessions ++ s ∷ [])

unfoldable pub fetch_session : List Session → Text → Option Session
fetch_session sessions id = find (is_session id) sessions

unfoldable pub delete_session : List Session → Text → List Session
delete_session sessions id = delete_where (is_session id) sessions

abbrev pub is_session_of : ℕ → Session → Bool
is_session_of user_id s = s.user_id == user_id

unfoldable pub delete_sessions_of : List Session → ℕ → List Session
delete_sessions_of sessions user_id = delete_where (is_session_of user_id) sessions
