-- ===== src/Feeds.antt =====
-- The feeds of clips (crates/db/src/feed.rs, crates/server/src/social.rs) and their cursors. Times
-- of clips are in microseconds; the rows' join with the follows has one row for a clip, since a pair
-- of actors has one follow. The visibility, which nothing sets to other than public, is left out.
pub mod Pages
pub mod Continuation
use toot_tok.Common.{
  ℕ, ◌+◌, ◌*◌, ◌/◌, ◌^◌, min, max, Bool, true, false, ◌&&◌, ◌||◌, ltb, ◌==◌, if◌then◌else◌, Option,
  none, some, is_none, List, [], ◌∷◌, filter, take, length, any,
}
use toot_tok.Db.Actors
use toot_tok.Db.Actors.{Actor}
use toot_tok.Db.Clips.{Clip, Status, ready, Origin, remote}
use toot_tok.Db.Follows.{Follow, is_accepted}

-- Seconds and an id, of the last row of a page.
abbrev pub Cursor : Type 0
Cursor = Option (ℕ × ℕ)

abbrev pub micros : ℕ
micros = 1000000

-- The order of a feed, by the time and then by the id: whether the first is the newer one.
abbrev pub is_newer : Clip → Clip → Bool
is_newer a b = ltb b.created_at a.created_at || b.created_at == a.created_at && ltb b.id a.id

-- `(created_at, id) < (cursor's time, cursor's id)`.
abbrev pub is_past : Cursor → Clip → Bool
is_past none c = true
is_past (some (secs, id)) c =
    ltb c.created_at (secs * micros) || c.created_at == secs * micros && ltb c.id id

abbrev is_ready : Status → Bool
is_ready ready = true
is_ready _ = false

abbrev is_remote : Origin → Bool
is_remote remote = true
is_remote _ = false

-- The author is there and may be seen.
abbrev pub author_shown : Option Actor → Bool
author_shown none = false
author_shown (some a) = is_none a.suspended_at && is_none a.deleted_at

abbrev author_local : Option Actor → Bool
author_local none = false
author_local (some a) = is_none a.domain

abbrev pub is_shown : List Actor → Clip → Bool
is_shown actors c =
    is_none c.deleted_at
    && (author_shown (Actors.fetch_by_id actors c.actor_id)
        && (is_ready c.status || is_remote c.origin))

abbrev pub is_followed : List Follow → ℕ → Clip → Bool
is_followed follows viewer c =
    any
      (λ f.
        f.target_actor_id == c.actor_id && (f.follower_actor_id == viewer && is_accepted f.state))
      follows

-- A clip among those in the order of the feed.
unfoldable pub insert_newest : Clip → List Clip → List Clip
insert_newest c [] = c ∷ []
insert_newest c (x ∷ xs) = if is_newer c x then c ∷ x ∷ xs else x ∷ insert_newest c xs

unfoldable pub newest_first : List Clip → List Clip
newest_first [] = []
newest_first (c ∷ cs) = insert_newest c (newest_first cs)

-- WHERE … AND the cursor ORDER BY … LIMIT.
unfoldable pub select_page : (Clip → Bool) → List Clip → Cursor → ℕ → List Clip
select_page p clips cursor limit =
    take limit (newest_first (filter (λ c. p c && is_past cursor c) clips))

unfoldable pub following_feed : List Clip → List Actor → List Follow → ℕ → Cursor → ℕ → List Clip
following_feed clips actors follows viewer cursor limit =
    select_page (λ c. is_shown actors c && is_followed follows viewer c) clips cursor limit

unfoldable pub discover_feed : List Clip → List Actor → Cursor → ℕ → List Clip
discover_feed clips actors cursor limit = select_page (is_shown actors) clips cursor limit

unfoldable pub local_feed : List Clip → List Actor → Cursor → ℕ → List Clip
local_feed clips actors cursor limit =
    select_page (λ c. is_shown actors c && author_local (Actors.fetch_by_id actors c.actor_id))
      clips cursor limit

-- The page size: 20 without the parameter, and from 1 to 50. A parameter past i64 is negative.
unfoldable pub feed_limit : Option ℕ → ℕ
feed_limit none = 20
feed_limit (some p) = if ltb p (2 ^ 63) then min 50 (max 1 p) else 1

-- The cursor behind a clip: the time in whole seconds, rounded down.
abbrev pub cursor_at : Clip → ℕ × ℕ
cursor_at c = (c.created_at / micros, c.id)

abbrev last_cursor : List Clip → Cursor
last_cursor [] = none
last_cursor (c ∷ []) = some (cursor_at c)
last_cursor (c ∷ d ∷ cs) = last_cursor (d ∷ cs)

-- There is a next page only behind a full one.
unfoldable pub next_cursor : List Clip → ℕ → Cursor
next_cursor rows limit = if length rows == limit then last_cursor rows else none
