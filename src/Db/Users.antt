-- ===== src/Db/Users.antt =====
-- The `users` table (crates/db/src/user.rs). The TOTP columns, which nothing sets, are left out.
-- Addresses are compared as CITEXT is, which for ASCII ignores the case.
use toot_tok.Common.{
  ℕ, Bool, true, false, ◌||◌, if◌then◌else◌, Option, none, some, List, [], ◌∷◌, ◌++◌, find, any,
  ◌==◌,
}
use toot_tok.Common.Table.{update_where}
use toot_tok.Common.Text.{Text, eq_ignore_case}

pub data UserStatus : Type 0 where
  active pending : UserStatus

abbrev pub is_active : UserStatus → Bool
is_active active = true
is_active pending = false

pub record User : Type 0 where
  pub id : ℕ
  pub actor_id : ℕ
  pub email : Option Text
  pub email_verified_at : Option ℕ
  -- An erased account has none.
  pub password_hash : Option Text
  pub is_admin : Bool
  pub status : UserStatus
  pub deleted_at : Option ℕ

abbrev pub has_id : ℕ → User → Bool
has_id id u = u.id == id

abbrev pub has_actor : ℕ → User → Bool
has_actor actor_id u = u.actor_id == actor_id

-- NULL equals nothing.
abbrev pub same_email : Option Text → Text → Bool
same_email none email = false
same_email (some e) email = eq_ignore_case e email

abbrev pub has_email : Text → User → Bool
has_email email u = same_email u.email email

unfoldable pub fetch_by_id : List User → ℕ → Option User
fetch_by_id users id = find (has_id id) users

unfoldable pub fetch_by_actor_id : List User → ℕ → Option User
fetch_by_actor_id users actor_id = find (has_actor actor_id) users

unfoldable pub fetch_by_email : List User → Text → Option User
fetch_by_email users email = find (has_email email) users

abbrev takes : Option Text → User → Bool
takes none u = false
takes (some email) u = has_email email u

abbrev pub user_row : ℕ → ℕ → Option Text → Text → UserStatus → User
user_row fresh actor_id email password_hash status = record {
  id = fresh;
  actor_id = actor_id;
  email = email;
  email_verified_at = none;
  password_hash = some password_hash;
  is_admin = false;
  status = status;
  deleted_at = none;
}

-- `none` is a violation of UNIQUE (email) or UNIQUE (actor_id).
unfoldable pub create_with_status :
    List User → ℕ → ℕ → Option Text → Text → UserStatus → Option (List User)
create_with_status users fresh actor_id email password_hash status =
    if any (λ u. has_actor actor_id u || takes email u) users
    then none
    else some (users ++ user_row fresh actor_id email password_hash status ∷ [])

unfoldable pub set_email_verified : List User → ℕ → ℕ → List User
set_email_verified users now id =
    update_where (has_id id) (λ u. record u { email_verified_at = some now }) users

unfoldable pub set_password : List User → ℕ → Text → List User
set_password users id hash =
    update_where (has_id id) (λ u. record u { password_hash = some hash }) users

unfoldable pub set_status : List User → ℕ → UserStatus → List User
set_status users id status = update_where (has_id id) (λ u. record u { status = status }) users

abbrev pub erased : ℕ → User → User
erased now u = record u {
  deleted_at = some now;
  email = none;
  password_hash = none;
  is_admin = false;
}

unfoldable pub mark_deleted_and_erase : List User → ℕ → ℕ → List User
mark_deleted_and_erase users now id = update_where (has_id id) (erased now) users
