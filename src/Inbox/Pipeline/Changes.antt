-- ===== src/Inbox/Pipeline/Changes.antt =====
-- What an inbound activity may do to the tables (crates/federation/src/activity.rs), as a relation
-- between the tables before and after one statement, for the delivered activity.
use toot_tok.Common.{ℕ, suc, ◌≡◌, Bool, true, false, Option, none, some, List, [], ◌∷◌, ◌++◌, any}
use toot_tok.Common.Result.{ok}
use toot_tok.Common.Text.{Text, codes}
use toot_tok.Db.Actors
use toot_tok.Db.Actors.{Actor, mark_remote_deleted_by_ap_id, shared_inbox_or_inbox}
use toot_tok.Db.Clips.{Clip, create_remote, mark_deleted, update_note_fields, fetch_by_ap_id}
use toot_tok.Db.Follows
use toot_tok.Db.Ledger.{LoggedActivity, is_activity, exists, upsert_tombstone}
use toot_tok.Egress.Guard.{Url}
use toot_tok.Inbox.{
  as_text, is_local_url, FollowObject, DeleteObject, follow, accept, reject, undo, delete, create,
  update, follow_id, deleted_id, undo_follow_target, embedded_object_id,
}
use toot_tok.Inbox.Pipeline.{
  Instance, Tables, Delivery, is_owner, remote_caption, note_row, local_id,
}
use toot_tok.Jobs
use toot_tok.Json.{Value, string, integer, pos, array, cons, nil, json}
use toot_tok.Notes.{ParsedNote, extract_note_fields, parse_inbound_note}

-- Every logged id of the one is in the other.
abbrev pub Extends : List LoggedActivity → List LoggedActivity → Type 0
Extends log log' = (id : Text) → any (is_activity id) log ≡ true → any (is_activity id) log' ≡ true

-- The follow that the activity asks for: of the local actor `target`, by the sender's own row.
pub record Asks (i : Instance) (d : Delivery) (t : Tables) : Type 0 where
  pub object : Url
  pub follower : Actor
  pub target : Actor
  pub content : d.activity.content ≡ follow object
  pub by_sender : Actors.fetch_by_ap_id t.actors (as_text d.activity.actor) ≡ some follower
  pub of_target : Actors.fetch_by_ap_id t.actors (as_text object) ≡ some target
  pub is_local : local_id i target.ap_id ≡ true

-- What becomes of the follows: the sender's own request, the acceptance of it by an actor who need
-- not approve it, or a change of the one row that an Accept, a Reject or an Undo names.
pub data FollowChange (i : Instance) (d : Delivery) (t : Tables)
    : List Follows.Follow → Type 0 where
  asks :
      (a : Asks i d t)
      → FollowChange i d t (
          Follows.upsert t.follows a.follower.id a.target.id
            (some (as_text d.activity.id))
            Follows.requested)
  answers :
      (a : Asks i d t)
      → a.target.is_locked ≡ false
      → FollowChange i d t (Follows.set_state t.follows a.follower.id a.target.id Follows.accepted)
  accepts :
      (o : FollowObject) (f : Follows.Follow)
      → d.activity.content ≡ accept o
      → Follows.fetch_by_activity_id t.follows (as_text (follow_id o)) ≡ some f
      → FollowChange i d t
          (Follows.set_state t.follows f.follower_actor_id f.target_actor_id Follows.accepted)
  rejects :
      (o : FollowObject) (f : Follows.Follow)
      → d.activity.content ≡ reject o
      → Follows.fetch_by_activity_id t.follows (as_text (follow_id o)) ≡ some f
      → FollowChange i d t
          (Follows.set_state t.follows f.follower_actor_id f.target_actor_id Follows.rejected)
  withdraws :
      (o : Value) (id : Text) (f : Follows.Follow)
      → d.activity.content ≡ undo o
      → undo_follow_target o ≡ some id
      → Follows.fetch_by_activity_id t.follows id ≡ some f
      → FollowChange i d t (Follows.delete t.follows f.follower_actor_id f.target_actor_id)

-- The Accept of the follow, from its target.
abbrev pub accept_of : (i : Instance) (d : Delivery) (t : Tables) → Asks i d t → Value
accept_of i d t a = json (
    (codes "@context", string (codes "https://www.w3.org/ns/activitystreams"))
    ∷ (codes "id", string (i.base_url ++ (codes "/activities/" ++ d.uuid)))
    ∷ (codes "type", string (codes "Accept"))
    ∷ (codes "actor", string a.target.ap_id)
    ∷ (
      codes "object",
      json (
          (codes "id", string (as_text d.activity.id))
          ∷ (codes "type", string (codes "Follow"))
          ∷ (codes "actor", string (as_text d.activity.actor))
          ∷ (codes "object", string (as_text a.object))
          ∷ []),
    )
    ∷ (codes "to", array (cons (string (as_text d.activity.actor)) nil))
    ∷ [])

-- The job that is queued, with its kind: the delivery of the Accept to the follower, or the import
-- of the posts of the actor whose Accept names the follow.
pub data Queues (i : Instance) (d : Delivery) (t : Tables) : Text → Value → Type 0 where
  sends :
      (a : Asks i d t)
      → a.target.is_locked ≡ false
      → Queues i d t (codes "deliver") (
          json (
            (codes "actor_id", integer (pos a.target.id))
            ∷ (codes "inbox_url", string (shared_inbox_or_inbox a.follower))
            ∷ (codes "activity", accept_of i d t a)
            ∷ []))
  imports :
      (o : FollowObject) (before : List Follows.Follow) (f : Follows.Follow)
      → d.activity.content ≡ accept o
      → Follows.fetch_by_activity_id before (as_text (follow_id o)) ≡ some f
      → t.follows ≡ Follows.set_state before f.follower_actor_id f.target_actor_id Follows.accepted
      → Queues i d t (codes "backfill_actor") (
          json (
            (codes "actor_id", integer (pos f.target_actor_id))
            ∷ (codes "max", integer (pos 20))
            ∷ []))

-- The activity is a Delete of the id.
abbrev pub IsDeletion : Delivery → Text → Type 0
IsDeletion d id =
    (o : DeleteObject) × (d.activity.content ≡ delete o) × (as_text (deleted_id o) ≡ id)

-- What a Delete may leave a tombstone of: an id that no clip has, as a person's, or the id of a
-- clip of the sender, as a note's.
pub data MayBury (d : Delivery) (t : Tables) (id : Text) : Text → Type 0 where
  unknown : fetch_by_ap_id t.clips id ≡ none → MayBury d t id (codes "Person")
  own :
      (c : Clip)
      → fetch_by_ap_id t.clips id ≡ some c
      → is_owner t (as_text d.activity.actor) c ≡ true
      → MayBury d t id (codes "Note")

-- The activity is an Update of the note, with its caption, its sensitivity and its warning.
abbrev pub IsUpdate : Delivery → Text → Option Text → Bool → Option Text → Type 0
IsUpdate d id html sensitive cw =
    (note : Value) × (d.activity.content ≡ update note)
    × (embedded_object_id note ≡ some id)
    × (extract_note_fields note
        ≡ record { content_html = html; sensitive = sensitive; summary = cw })

-- The activity is a Create of the note.
abbrev pub IsCreation : Instance → Delivery → ParsedNote → Type 0
IsCreation i d n =
    (note : Value) × (d.activity.content ≡ create note)
    × (parse_inbound_note i.parse_time note ≡ ok n)

pub data Change (i : Instance) (d : Delivery) (t u : Tables) : Type 0 where
  -- The log grows, and nothing else changes.
  logs :
      (log : List LoggedActivity) → Extends t.log log → u ≡ record t { log = log } → Change i d t u
  follows :
      (fs : List Follows.Follow)
      → FollowChange i d t fs
      → u ≡ record t { follows = fs }
      → Change i d t u
  enqueues :
      (kind : Text) (payload : Value)
      → Queues i d t kind payload
      → u ≡ record t {
        jobs = Jobs.create t.jobs t.next_job kind payload d.now;
        next_job = suc t.next_job;
      }
      → Change i d t u
  -- A Delete of what no clip is marks the actors of the id as deleted.
  marks :
      (id : Text)
      → IsDeletion d id
      → fetch_by_ap_id t.clips id ≡ none
      → u ≡ record t { actors = mark_remote_deleted_by_ap_id t.actors d.now id }
      → Change i d t u
  -- The row of the sender is fetched and stored.
  fetches :
      (rows : List Actor) (author : Actor)
      → i.dereference t.actors (as_text d.activity.actor) ≡ some (rows, author)
      → u ≡ record t { actors = rows }
      → Change i d t u
  -- An id is tombstoned.
  buries :
      (id kind : Text)
      → IsDeletion d id
      → MayBury d t id kind
      → u ≡ record t { tombs = upsert_tombstone t.tombs id kind }
      → Change i d t u
  -- The author of a clip deletes it, behind a tombstone of its id.
  deletes :
      (c : Clip) (now : ℕ) (object : Text)
      → IsDeletion d object
      → fetch_by_ap_id t.clips object ≡ some c
      → exists t.tombs object ≡ true
      → is_owner t (as_text d.activity.actor) c ≡ true
      → u ≡ record t { clips = mark_deleted t.clips now c.id }
      → Change i d t u
  -- The author of a live clip edits its caption, which is sanitized.
  edits :
      (c : Clip) (object : Text) (html : Option Text) (sensitive : Bool) (cw : Option Text)
      → IsUpdate d object html sensitive cw
      → fetch_by_ap_id t.clips object ≡ some c
      → is_owner t (as_text d.activity.actor) c ≡ true
      → c.deleted_at ≡ none
      → u ≡ record t { clips = update_note_fields t.clips c.id (remote_caption html) sensitive cw }
      → Change i d t u
  -- The sender's new clip, whose id is not tombstoned.
  adds :
      (rows : List Actor) (author : Actor) (n : ParsedNote) (attributed : Url) (now : ℕ)
      (clips : List Clip)
      → IsCreation i d n
      → i.parse_url n.attributed_to ≡ some attributed
      → as_text attributed ≡ as_text d.activity.actor
      → is_local_url attributed i.domain ≡ false
      → i.dereference t.actors (as_text d.activity.actor) ≡ some (rows, author)
      → exists t.tombs n.id ≡ false
      → create_remote t.clips now t.next_clip (note_row author n) ≡ some clips
      → u ≡ record t { actors = rows; clips = clips; next_clip = suc t.next_clip }
      → Change i d t u

-- A sequence of changes.
pub data Changes (i : Instance) (d : Delivery) (t : Tables) : Tables → Type 0 where
  nothing : Changes i d t t
  after : {u v : Tables} → Changes i d t u → Change i d u v → Changes i d t v
