-- ===== src/Db/Actors.antt =====
-- The `actors` table (crates/db/src/actor.rs). The type and the header image, which the modelled
-- code does not read, are left out. Usernames are compared as CITEXT is, which for ASCII ignores
-- the case.
use toot_tok.Common.{
  ℕ, Bool, false, ◌&&◌, ◌||◌, if◌then◌else◌, Option, none, some, is_none, List, [], ◌∷◌, ◌++◌, find,
  any, ◌==◌,
}
use toot_tok.Common.Table.{update_where, delete_where}
use toot_tok.Common.Text.{Text, text_eq, eq_ignore_case}

pub record Actor : Type 0 where
  pub id : ℕ
  pub username : Text
  -- `none` is a local actor.
  pub domain : Option Text
  pub inbox_url : Text
  pub shared_inbox_url : Option Text
  pub followers_url : Text
  pub is_locked : Bool
  pub deleted_at : Option ℕ
  pub ap_id : Text
  pub public_key_pem : Text
  pub private_key_pem : Option Text
  pub outbox_url : Text
  pub display_name : Option Text
  pub summary : Option Text
  pub avatar_path : Option Text
  pub suspended_at : Option ℕ

unfoldable pub fetch_by_id : List Actor → ℕ → Option Actor
fetch_by_id actors id = find (λ a. a.id == id) actors

unfoldable pub fetch_by_ap_id : List Actor → Text → Option Actor
fetch_by_ap_id actors ap_id = find (λ a. text_eq a.ap_id ap_id) actors

unfoldable pub mark_remote_deleted_by_ap_id : List Actor → ℕ → Text → List Actor
mark_remote_deleted_by_ap_id actors now ap_id =
    update_where (λ a. text_eq a.ap_id ap_id) (λ a. record a { deleted_at = some now }) actors

abbrev or_else : Option Text → Text → Text
or_else none t = t
or_else (some s) t = s

-- `shared_inbox_or_inbox` (crates/federation/src/deliver.rs).
unfoldable pub shared_inbox_or_inbox : Actor → Text
shared_inbox_or_inbox a = or_else a.shared_inbox_url a.inbox_url

-- Whether the row is of the local actor with the name.
abbrev pub is_local_name : Text → Actor → Bool
is_local_name username a = is_none a.domain && eq_ignore_case a.username username

unfoldable pub fetch_by_username_local : List Actor → Text → Option Actor
fetch_by_username_local actors username = find (is_local_name username) actors

abbrev pub has_id : ℕ → Actor → Bool
has_id id a = a.id == id

unfoldable pub update_profile : List Actor → ℕ → Option Text → Option Text → List Actor
update_profile actors id display_name summary =
    update_where (has_id id) (λ a. record a { display_name = display_name; summary = summary })
      actors

unfoldable pub set_avatar_path : List Actor → ℕ → Text → List Actor
set_avatar_path actors id path =
    update_where (has_id id) (λ a. record a { avatar_path = some path }) actors

unfoldable pub suspend : List Actor → ℕ → ℕ → List Actor
suspend actors now id = update_where (has_id id) (λ a. record a { suspended_at = some now }) actors

unfoldable pub mark_deleted : List Actor → ℕ → ℕ → List Actor
mark_deleted actors now id =
    update_where (has_id id) (λ a. record a { deleted_at = some now }) actors

-- What `create` binds, for a local actor.
pub record NewActor : Type 0 where
  pub username : Text
  pub public_key_pem : Text
  pub private_key_pem : Text
  pub inbox_url : Text
  pub shared_inbox_url : Text
  pub outbox_url : Text
  pub followers_url : Text
  pub ap_id : Text

abbrev pub local_row : ℕ → NewActor → Actor
local_row fresh n = record {
  id = fresh;
  username = n.username;
  domain = none;
  inbox_url = n.inbox_url;
  shared_inbox_url = some n.shared_inbox_url;
  followers_url = n.followers_url;
  is_locked = false;
  deleted_at = none;
  ap_id = n.ap_id;
  public_key_pem = n.public_key_pem;
  private_key_pem = some n.private_key_pem;
  outbox_url = n.outbox_url;
  display_name = none;
  summary = none;
  avatar_path = none;
  suspended_at = none;
}

-- `none` is a violation of a unique index: of the ActivityPub ids, or of the local names.
unfoldable pub create : List Actor → ℕ → NewActor → Option (List Actor)
create actors fresh n =
    if any (λ a. text_eq a.ap_id n.ap_id || is_local_name n.username a) actors
    then none
    else some (actors ++ local_row fresh n ∷ [])

unfoldable pub delete_by_id : List Actor → ℕ → List Actor
delete_by_id actors id = delete_where (has_id id) actors
