-- ===== src/Accounts/Profile.antt =====
-- The profile of the own account, the avatar and the deletion (crates/server/src/accounts.rs).
pub mod Erasure
use toot_tok.Common.{
  ℕ, ◌*◌, Bool, true, false, ◌&&◌, not, if◌then◌else◌, Option, none, some, is_none, is_some, List,
  [], ◌∷◌, ◌++◌, map, filter, any, ◌==◌, String,
}
use toot_tok.Common.Map.{lookup, insert}
use toot_tok.Common.Result.{Result, ok, err}
use toot_tok.Common.Table.{update_where}
use toot_tok.Common.Text.{Text, codes, starts_with}
use toot_tok.Common.Text.Same.{text_key}
use toot_tok.Assets.Decimal.{print_u64}
use toot_tok.Db.Actors
use toot_tok.Db.Actors.{Actor}
use toot_tok.Db.Assets.{MediaAsset}
use toot_tok.Db.Clips.{Clip, deleted_row}
use toot_tok.Db.Ledger.{Tombstones, exists}
use toot_tok.Db.Tokens
use toot_tok.Db.Users
use toot_tok.Db.Users.{User, is_active}
use toot_tok.Json.{Value, null, string, boolean, integer, pos, json}
use toot_tok.Media
use toot_tok.Media.{Files}
use toot_tok.Accounts.{
  Env, Accounts, Statement, AuthUser, Response, problem, reply, unavailable, database_error,
  clear_cookie, run_all, answer_all, actor_read, profile_write, avatar_write, clips_delete,
  assets_read, tombstone_insert, user_erase, actor_delete, sessions_delete, tokens_delete,
}

abbrev or_null : Option Text → Value
or_null none = null
or_null (some s) = string s

-- The date of the account's creation, which no table here has, is left out.
unfoldable pub profile : Actor → User → Text → Value
profile actor user csrf_token = json (
    (codes "actor_id", integer (pos actor.id))
    ∷ (codes "username", string actor.username)
    ∷ (codes "display_name", or_null actor.display_name)
    ∷ (codes "summary", or_null actor.summary)
    ∷ (codes "avatar_path", or_null actor.avatar_path)
    ∷ (codes "email", or_null user.email)
    ∷ (codes "email_verified", boolean (is_some user.email_verified_at))
    ∷ (codes "is_admin", boolean user.is_admin)
    ∷ (codes "status", string (if is_active user.status then codes "active" else codes "pending"))
    ∷ (codes "csrf_token", string csrf_token)
    ∷ [])

abbrev shown : Accounts → AuthUser → Option Actor → Accounts × Response
shown a auth none = (a, problem 404 "account not found")
shown a auth (some actor) =
    (a, reply 200 (some (profile actor auth.user auth.session.csrf_token)) none)

unfoldable pub me : Env → Accounts → AuthUser → Accounts × Response
me e a auth =
    if not e.has_pool
    then (a, unavailable)
    else if e.fails actor_read
    then (a, database_error)
    else shown a auth (Actors.fetch_by_id a.actors auth.actor.id)

unfoldable pub patch_me :
    Env → Accounts → AuthUser → Option Text → Option Text → Accounts × Response
patch_me e a auth display_name summary =
    if not e.has_pool
    then (a, unavailable)
    else if e.fails profile_write
    then (a, database_error)
    else let after = record a {
      actors = Actors.update_profile a.actors auth.actor.id display_name summary;
    } in
      shown after auth (Actors.fetch_by_id after.actors auth.actor.id)

-- The extension of an image, by its first bytes.
unfoldable pub sniff_image : List ℕ → Option Text
sniff_image bytes =
    if starts_with bytes (0x89 ∷ b'P' ∷ b'N' ∷ b'G' ∷ 0x0D ∷ 0x0A ∷ 0x1A ∷ 0x0A ∷ [])
    then some (codes "png")
    else if starts_with bytes (0xFF ∷ 0xD8 ∷ 0xFF ∷ [])
    then some (codes "jpg")
    else none

unfoldable pub avatar_key : ℕ → Text → Text
avatar_key actor_id ext = codes "avatars/" ++ (print_u64 actor_id ++ b'.' ∷ ext)

stamp_avatar : Env → Accounts → AuthUser → Text → Accounts × Response
stamp_avatar e a auth key = if e.fails avatar_write then (a, database_error) else (
  record a { actors = Actors.set_avatar_path a.actors auth.actor.id key },
  (if is_some (Actors.fetch_by_id a.actors auth.actor.id)
      then reply 200 (some (json ((codes "avatar_path", string key) ∷ []))) none
      else problem 404 "account not found"),
)

save_avatar : Env → Accounts → AuthUser → Text → Result String Files → Accounts × Response
unfolding stamp_avatar
save_avatar e a auth key (err x) = (a, problem 500 "storage error")
save_avatar e a auth key (ok files) = stamp_avatar e (record a { files = files }) auth key

avatar_image : Env → Accounts → AuthUser → List ℕ → Option Text → Accounts × Response
unfolding save_avatar
avatar_image e a auth bytes none = (a, problem 415 "unsupported image")
avatar_image e a auth bytes (some ext) =
    let key = avatar_key auth.actor.id ext in
    save_avatar e a auth key (Media.save_bytes (e.io key) a.files key bytes)

avatar_field : Env → Accounts → AuthUser → Result Response (Option (List ℕ)) → Accounts × Response
unfolding avatar_image
avatar_field e a auth (err p) = (a, p)
avatar_field e a auth (ok none) = (a, problem 400 "missing file")
avatar_field e a auth (ok (some bytes)) = avatar_image e a auth bytes (sniff_image bytes)

-- `field` is what `read_file_field` gives for the request.
unfoldable pub avatar :
    Env → Accounts → AuthUser → Result Response (Option (List ℕ)) → Accounts × Response
unfolding avatar_field
avatar e a auth field = if e.has_pool then avatar_field e a auth field else (a, unavailable)

abbrev pub is_live_of : ℕ → Clip → Bool
is_live_of actor_id c = c.actor_id == actor_id && is_none c.deleted_at

-- The assets of the actor's clips, by the join on the clip.
abbrev pub is_asset_of : List Clip → ℕ → MediaAsset → Bool
is_asset_of clips actor_id m = any (λ c. c.id == m.clip_id && c.actor_id == actor_id) clips

unfoldable pub delete_files : Env → Files → List MediaAsset → Files
delete_files e files [] = files
delete_files e files (m ∷ ms) =
    delete_files e
      (elim (Media.delete (e.io m.path) files m.path) [ ok next ↦ next | err x ↦ files ]) ms

-- INSERT … ON CONFLICT DO NOTHING.
unfoldable pub bury : Tombstones → Text → Tombstones
bury tombs ap_id = if exists tombs ap_id then tombs else insert ap_id (codes "Person") tombs

unfoldable pub delete_steps : Env → AuthUser → List (Statement × (Accounts → Accounts))
delete_steps e auth =
    let id = auth.actor.id in
    (
      clips_delete,
      λ a. record a { clips = update_where (is_live_of id) (deleted_row e.now) a.clips },
    )
    ∷ (
      assets_read,
      λ a. record a { files = delete_files e a.files (filter (is_asset_of a.clips id) a.assets) },
    )
    ∷ (tombstone_insert, λ a. record a { tombs = bury a.tombs auth.actor.ap_id })
    ∷ (
      user_erase,
      λ a. record a { users = Users.mark_deleted_and_erase a.users e.now auth.user.id },
    )
    ∷ (actor_delete, λ a. record a { actors = Actors.mark_deleted a.actors e.now id })
    ∷ (
      sessions_delete,
      λ a. record a { sessions = Tokens.delete_sessions_of a.sessions auth.user.id },
    )
    ∷ (tokens_delete, λ a. record a { tokens = Tokens.delete_for_user a.tokens auth.user.id })
    ∷ []

delete_confirmed : Env → Accounts → AuthUser → Text → Option Text → Accounts × Response
delete_confirmed e a auth password none = (a, problem 401 "invalid password")
delete_confirmed e a auth password (some hash) =
    if e.verify_password password hash
    then answer_all (run_all e a (delete_steps e auth)) (reply 204 none (some clear_cookie))
    else (a, problem 401 "invalid password")

unfoldable pub delete_me : Env → Accounts → AuthUser → Text → Accounts × Response
unfolding delete_confirmed
delete_me e a auth password =
    if e.has_pool
    then delete_confirmed e a auth password auth.user.password_hash
    else (a, unavailable)
