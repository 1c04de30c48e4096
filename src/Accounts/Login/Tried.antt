-- ===== src/Accounts/Login/Tried.antt =====
-- What an answer of login leaves of the tables, and which row it reads (crates/server/src/auth.rs,
-- `login` and `find_user_for_login`).
use toot_tok.Common.{
  ℕ, ◌≡◌, refl, Bool, true, false, not, Option, none, some, is_some, List, inl, inr, ◌⊎◌,
  if◌then◌else◌, All, find-All,
}
use toot_tok.Common.Text.{Text}
use toot_tok.Db.Actors.{Actor}
use toot_tok.Db.Users
use toot_tok.Db.Users.{User, is_active}
use toot_tok.Json.{Value}
use toot_tok.Sessions.{Session}
use toot_tok.Accounts.{Env, Accounts, Response, user_read, actor_read, session_insert}
use toot_tok.Accounts.Login.{
  LoginRequest, login, login_user, login_hash, login_verified, login_actor, open_session,
  with_session, find_user_for_login, user_of_actor,
}
use toot_tok.Accounts.Login.Opened.{welcomed}

-- A login leaves the tables as they were, or is answered 200.
abbrev pub IsAttempt : Accounts → Accounts × Response → Type 0
IsAttempt a o =
    (o.0 ≡ a)
    ⊎ ((after : Accounts) × (body : Option Value) × (cookie : Option Text) × (o
          ≡ welcomed after body cookie))

either_tried :
    (a : Accounts) (b : Bool) (p q : Accounts × Response)
    → IsAttempt a p
    → IsAttempt a q
    → IsAttempt a (if b then p else q)
either_tried a true p q x y = x
either_tried a false p q x y = y

module _ (e : Env) (a : Accounts) (req : LoginRequest) where
  tried_session : (x : Actor) (o : Option (List Session)) → IsAttempt a (with_session e a x o)
  unfolding with_session
  tried_session x none = inl refl
  tried_session x (some ss) = inr (_, _, _, refl)

  tried_actor : (id : ℕ) (o : Option Actor) → IsAttempt a (login_actor e a req id o)
  unfolding login_actor open_session
  tried_actor id none = inl refl
  tried_actor id (some x) = either_tried a (is_some x.deleted_at) _ _ (inl refl) (
      either_tried a (is_some x.suspended_at) _ _ (inl refl)
        (either_tried a (e.fails session_insert) _ _ (inl refl) (tried_session x _)))

  tried_hash : (u : User) (o : Option Text) → IsAttempt a (login_hash e a req u o)
  unfolding login_hash login_verified
  tried_hash u none = inl refl
  tried_hash u (some hash) =
      either_tried a (e.verify_password req.password hash) _ _
        (either_tried a (e.fails actor_read) _ _ (inl refl) (tried_actor u.id _)) (inl refl)

  tried_user : (o : Option User) → IsAttempt a (login_user e a req o)
  unfolding login_user
  tried_user none = inl refl
  tried_user (some u) =
      either_tried a (is_some u.deleted_at) _ _ (inl refl)
        (either_tried a (not (is_active u.status)) _ _ (inl refl) (tried_hash u u.password_hash))

  pub login-IsAttempt : IsAttempt a (login e a req)
  unfolding login
  login-IsAttempt =
      either_tried a (not e.has_pool) _ _ (inl refl)
        (either_tried a (e.fails user_read) _ _ (inl refl) (tried_user _))

found_row :
    (P : User → Type 0) (a : Accounts) (o : Option Actor) (name : Text) (u : User)
    → All P a.users
    → user_of_actor a name o ≡ some u
    → P u
unfolding user_of_actor Users.fetch_by_actor_id Users.fetch_by_email
found_row P a none name u h f = find-All _ P a.users u f h
found_row P a (some x) name u h f = find-All _ P a.users u f h

-- The user that a login finds has what every row has.
pub find_user_for_login-All :
    (P : User → Type 0) (a : Accounts) (name : Text) (u : User)
    → All P a.users
    → find_user_for_login a name ≡ some u
    → P u
unfolding find_user_for_login
find_user_for_login-All P a name u h f = found_row P a _ name u h f
