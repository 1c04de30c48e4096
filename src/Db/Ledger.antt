-- ===== src/Db/Ledger.antt =====
-- The `activities` log with its idempotency gate and the `tombstones` (crates/db/src/activity.rs,
-- crates/db/src/tombstone.rs). The raw JSON of an activity, which nothing reads back, is left out.
use toot_tok.Common.{
  ℕ, Bool, true, false, ◌&&◌, Option, none, some, is_none, is_some, List, [], ◌∷◌, ◌++◌, any,
  if◌then◌else◌,
}
use toot_tok.Common.Map.{lookup, insert}
use toot_tok.Common.Table.{update_where}
use toot_tok.Common.Text.{Text, text_eq}
use toot_tok.Common.Text.Same.{text_key}

pub data Direction : Type 0 where
  inbound outbound : Direction

pub record LoggedActivity : Type 0 where
  pub activity_id : Text
  pub direction : Direction
  pub actor_ap_id : Text
  pub object_ap_id : Option Text
  pub processed_at : Option ℕ

abbrev pub is_activity : Text → LoggedActivity → Bool
is_activity id a = text_eq a.activity_id id

-- INSERT … ON CONFLICT (activity_id) DO NOTHING, and whether a row was inserted.
unfoldable pub try_create :
    Direction → List LoggedActivity → Text → Text → Option Text → List LoggedActivity × Bool
try_create direction log id actor object = if any (is_activity id) log then (log, false) else (
  log
      ++ record {
        activity_id = id;
        direction = direction;
        actor_ap_id = actor;
        object_ap_id = object;
        processed_at = none;
      }
        ∷ [],
  true,
)

unfoldable pub stamp_processed : List LoggedActivity → ℕ → Text → List LoggedActivity
stamp_processed log now id =
    update_where (λ a. is_activity id a && is_none a.processed_at)
      (λ a. record a { processed_at = some now }) log

-- A tombstone's id and the type of what was deleted.
abbrev pub Tombstones : Type 0
Tombstones = List (Text × Text)

unfoldable pub upsert_tombstone : Tombstones → Text → Text → Tombstones
upsert_tombstone tombs ap_id kind = insert ap_id kind tombs

unfoldable pub exists : Tombstones → Text → Bool
exists tombs ap_id = is_some (lookup ap_id tombs)
