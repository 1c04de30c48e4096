-- ===== src/Db/Follows.antt =====
-- The `follows` table (crates/db/src/follow.rs), with one row for a pair of actors.
use toot_tok.Common.{
  ℕ, Bool, true, false, ◌&&◌, Option, none, some, is_some, List, [], ◌∷◌, ◌++◌, find, any, filter,
  ◌==◌, if◌then◌else◌,
}
use toot_tok.Common.Table.{update_where, delete_where}
use toot_tok.Common.Text.{Text, text_eq}
use toot_tok.Db.Actors.{Actor}

pub data FollowState : Type 0 where
  requested accepted rejected : FollowState

abbrev pub is_accepted : FollowState → Bool
is_accepted accepted = true
is_accepted _ = false

pub record Follow : Type 0 where
  pub follower_actor_id : ℕ
  pub target_actor_id : ℕ
  pub ap_activity_id : Option Text
  pub state : FollowState

abbrev pub is_pair : ℕ → ℕ → Follow → Bool
is_pair follower target f = f.follower_actor_id == follower && f.target_actor_id == target

unfoldable pub fetch_by_pair : List Follow → ℕ → ℕ → Option Follow
fetch_by_pair follows follower target = find (is_pair follower target) follows

abbrev pub coalesce : Option Text → Option Text → Option Text
coalesce none b = b
coalesce (some a) b = some a

-- INSERT … ON CONFLICT (follower_actor_id, target_actor_id) DO UPDATE.
unfoldable pub upsert : List Follow → ℕ → ℕ → Option Text → FollowState → List Follow
upsert follows follower target activity_id state =
    if any (is_pair follower target) follows
    then update_where (is_pair follower target)
        (λ f. record f { ap_activity_id = coalesce activity_id f.ap_activity_id; state = state })
        follows
    else follows
      ++ record {
        follower_actor_id = follower;
        target_actor_id = target;
        ap_activity_id = activity_id;
        state = state;
      }
        ∷ []

unfoldable pub set_state : List Follow → ℕ → ℕ → FollowState → List Follow
set_state follows follower target state =
    update_where (is_pair follower target) (λ f. record f { state = state }) follows

abbrev pub has_activity : Text → Follow → Bool
has_activity id f = elim f.ap_activity_id [ none ↦ false | some a ↦ text_eq a id ]

unfoldable pub fetch_by_activity_id : List Follow → Text → Option Follow
fetch_by_activity_id follows id = find (has_activity id) follows

unfoldable pub delete : List Follow → ℕ → ℕ → List Follow
delete follows follower target = delete_where (is_pair follower target) follows

-- The accepted remote followers of an actor, in the order of the table `actors`.
unfoldable pub remote_follower_actors : List Follow → List Actor → ℕ → List Actor
remote_follower_actors follows actors target =
    filter
      (λ a. is_some a.domain && any (λ f. is_pair a.id target f && is_accepted f.state) follows)
      actors
