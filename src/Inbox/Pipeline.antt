-- ===== src/Inbox/Pipeline.antt =====
-- The inbound pipeline (crates/federation/src/activity.rs, the `receive_inbound` methods): the gate,
-- the processing of each type, and the stamp. Each statement on the database succeeds and takes
-- effect at once; an error of the code leaves what was done before it.
pub mod Changes
pub mod FollowChanges
pub mod ClipChanges
pub mod Refinement
pub mod Gate
pub mod Ids
pub mod Deletion
pub mod Ownership
pub mod Captions
use toot_tok.Common.{
  ℕ, suc, ◌+◌, Bool, true, false, ◌&&◌, ◌||◌, not, if◌then◌else◌, Option, none, some, is_none, List,
  [], ◌∷◌, ◌++◌,
}
use toot_tok.Common.Result.{Result, ok, err}
use toot_tok.Common.Text.{Text, codes, text_eq}
use toot_tok.Db.Actors
use toot_tok.Db.Actors.{Actor, shared_inbox_or_inbox}
use toot_tok.Db.Clips
use toot_tok.Db.Clips.{Clip, RemoteClip}
use toot_tok.Db.Follows
use toot_tok.Db.Follows.{requested, accepted, rejected}
use toot_tok.Db.Ledger.{
  LoggedActivity, Tombstones, inbound, outbound, try_create, stamp_processed, upsert_tombstone,
  exists,
}
use toot_tok.Egress.Guard.{Url}
use toot_tok.Inbox.{
  Activity, Content, follow, accept, reject, undo, delete, create, update, move, passthrough,
  as_text, follow_id, deleted_id, undo_follow_target, raw_object_id, embedded_object_id,
  is_local_url,
}
use toot_tok.Jobs
use toot_tok.Jobs.{Job}
use toot_tok.Json.{Value, string, integer, pos, array, cons, nil, get, non_empty, json}
use toot_tok.Notes.{ParsedNote, NoteError, NoteFields, parse_inbound_note, extract_note_fields}
use toot_tok.Sanitize.{strip_html_tags}

-- The instance's configuration and the libraries. `dereference` is the fetch of an actor's row,
-- which may store the row.
pub record Instance : Type 0 where
  pub domain : Text
  pub base_url : Text
  pub parse_url : Text → Option Url
  pub parse_time : Text → Option ℕ
  pub dereference : List Actor → Text → Option (List Actor × Actor)

-- The tables, with the next value of the sequences of `clips` and `jobs`.
pub record Tables : Type 0 where
  pub log : List LoggedActivity
  pub tombs : Tombstones
  pub actors : List Actor
  pub follows : List Follows.Follow
  pub clips : List Clip
  pub jobs : List Job
  pub next_clip : ℕ
  pub next_job : ℕ

-- `failed` is an error of the pipeline, which the sender is told.
pub data Outcome : Type 0 where
  done failed : Outcome

-- One delivery: the time and the UUID that an answer would take.
pub record Delivery : Type 0 where
  pub now : ℕ
  pub uuid : Text
  pub activity : Activity

unfoldable pub finish : Tables → ℕ → Text → Tables × Outcome
finish t now id = (record t { log = stamp_processed t.log now id }, done)

unfoldable pub enqueue : Tables → ℕ → Text → Value → Tables
enqueue t now kind payload = record t {
  jobs = Jobs.create t.jobs t.next_job kind payload now;
  next_job = suc t.next_job;
}

unfoldable pub enqueue_delivery : Tables → ℕ → ℕ → Text → Value → Tables
unfolding enqueue
enqueue_delivery t now actor_id inbox activity = enqueue t now (codes "deliver") (
    json (
      (codes "actor_id", integer (pos actor_id))
      ∷ (codes "inbox_url", string inbox)
      ∷ (codes "activity", activity)
      ∷ []))

unfoldable pub enqueue_backfill : Tables → ℕ → ℕ → Tables
unfolding enqueue
enqueue_backfill t now actor_id =
    enqueue t now (codes "backfill_actor")
      (json ((codes "actor_id", integer (pos actor_id)) ∷ (codes "max", integer (pos 20)) ∷ []))

abbrev accept_id : Instance → Text → Text
accept_id i uuid = i.base_url ++ (codes "/activities/" ++ uuid)

unfoldable pub accept_activity : Instance → Text → Text → Text → Text → Text → Value
accept_activity i uuid actor id follow_actor follow_object = json (
    (codes "@context", string (codes "https://www.w3.org/ns/activitystreams"))
    ∷ (codes "id", string (accept_id i uuid))
    ∷ (codes "type", string (codes "Accept"))
    ∷ (codes "actor", string actor)
    ∷ (
      codes "object",
      json (
          (codes "id", string id)
          ∷ (codes "type", string (codes "Follow"))
          ∷ (codes "actor", string follow_actor)
          ∷ (codes "object", string follow_object)
          ∷ []),
    )
    ∷ (codes "to", array (cons (string follow_actor) nil))
    ∷ [])

abbrev pub local_id : Instance → Text → Bool
local_id i ap_id = elim (i.parse_url ap_id) [ none ↦ false | some u ↦ is_local_url u i.domain ]

-- The answer to a follow that needs no approval.
answer_follow : Instance → Delivery → Tables → Text → Actor → Actor → Tables
unfolding enqueue_delivery
answer_follow i d t object follower target =
    let a = d.activity in
    let answer = accept_activity i d.uuid target.ap_id (as_text a.id) (as_text a.actor) object in
    let logged = record t {
      follows = Follows.set_state t.follows follower.id target.id accepted;
      log = (try_create outbound t.log (accept_id i d.uuid) target.ap_id (some (as_text a.id))).0;
    } in
    enqueue_delivery logged d.now target.id (shared_inbox_or_inbox follower) answer

follow_by : Instance → Delivery → Tables → Text → Actor → Option Actor → Tables × Outcome
unfolding answer_follow
follow_by i d t object target none = (t, failed)
follow_by i d t object target (some follower) =
    let asked = record t {
      follows =
          Follows.upsert t.follows follower.id target.id (some (as_text d.activity.id)) requested;
    } in
    finish (if target.is_locked then asked else answer_follow i d asked object follower target)
      d.now (as_text d.activity.id)

follow_of : Instance → Delivery → Tables → Text → Option Actor → Tables × Outcome
unfolding follow_by
follow_of i d t object none = (t, failed)
follow_of i d t object (some target) =
    if local_id i target.ap_id
    then follow_by i d t object target (Actors.fetch_by_ap_id t.actors (as_text d.activity.actor))
    else finish t d.now (as_text d.activity.id)

unfoldable pub follow_inbound : Instance → Delivery → Tables → Text → Tables × Outcome
unfolding follow_of
follow_inbound i d t object =
    if exists t.tombs object
    then finish t d.now (as_text d.activity.id)
    else follow_of i d t object (Actors.fetch_by_ap_id t.actors object)

pub accept_row : Delivery → Tables → Option Follows.Follow → Tables
unfolding enqueue_backfill
accept_row d t none = t
accept_row d t (some f) =
    enqueue_backfill
      (record t {
        follows = Follows.set_state t.follows f.follower_actor_id f.target_actor_id accepted;
      })
      d.now f.target_actor_id

unfoldable pub accept_inbound : Delivery → Tables → Text → Tables × Outcome
unfolding accept_row
accept_inbound d t id =
    finish (accept_row d t (Follows.fetch_by_activity_id t.follows id)) d.now
      (as_text d.activity.id)

abbrev reject_row : Tables → Option Follows.Follow → Tables
reject_row t none = t
reject_row t (some f) = record t {
  follows = Follows.set_state t.follows f.follower_actor_id f.target_actor_id rejected;
}

unfoldable pub reject_inbound : Delivery → Tables → Text → Tables × Outcome
reject_inbound d t id =
    finish (reject_row t (Follows.fetch_by_activity_id t.follows id)) d.now (as_text d.activity.id)

abbrev undo_row : Tables → Option Follows.Follow → Tables
undo_row t none = t
undo_row t (some f) = record t {
  follows = Follows.delete t.follows f.follower_actor_id f.target_actor_id;
}

-- An Undo of anything but a follow is only stored.
abbrev undo_target : Tables → Option Text → Tables
undo_target t none = t
undo_target t (some id) = undo_row t (Follows.fetch_by_activity_id t.follows id)

unfoldable pub undo_inbound : Delivery → Tables → Value → Tables × Outcome
undo_inbound d t note =
    finish (undo_target t (undo_follow_target note)) d.now (as_text d.activity.id)

abbrev is_actor : Text → Option Actor → Bool
is_actor ap_id none = false
is_actor ap_id (some a) = text_eq a.ap_id ap_id

-- Whether the sender is the clip's author.
unfoldable pub is_owner : Tables → Text → Clip → Bool
is_owner t sender c = is_actor sender (Actors.fetch_by_id t.actors c.actor_id)

abbrev delete_clip : Delivery → Tables → Text → Option Clip → Tables
delete_clip d t object (some c) =
    if is_owner t (as_text d.activity.actor) c
    then record t {
      tombs = upsert_tombstone t.tombs object (codes "Note");
      clips = Clips.mark_deleted t.clips d.now c.id;
    }
    else t
delete_clip d t object none = record t {
  tombs = upsert_tombstone t.tombs object (codes "Person");
  actors = Actors.mark_remote_deleted_by_ap_id t.actors d.now object;
}

unfoldable pub delete_inbound : Delivery → Tables → Text → Tables × Outcome
delete_inbound d t object =
    finish (delete_clip d t object (Clips.fetch_by_ap_id t.clips object)) d.now
      (as_text d.activity.id)

-- A remote caption: sanitized, and absent when nothing is left of it.
unfoldable pub remote_caption : Option Text → Option Text
remote_caption none = none
remote_caption (some html) = non_empty (some (strip_html_tags html))

abbrev note_row : Actor → ParsedNote → RemoteClip
note_row author n = record {
  actor_id = author.id;
  ap_id = n.id;
  caption_html = remote_caption n.content_html;
  width = n.attachment.width;
  height = n.attachment.height;
  remote_media_url = n.attachment.media_url;
  is_sensitive = n.sensitive;
  cw_text = n.summary;
  published_at = n.published;
}

-- A clip that is known already, by its ActivityPub id, is skipped.
abbrev add_clip : Tables → Option (List Clip) → Tables
add_clip t none = t
add_clip t (some clips) = record t { clips = clips; next_clip = suc t.next_clip }

create_by : Delivery → Tables → ParsedNote → Option (List Actor × Actor) → Tables
create_by d t n none = t
create_by d t n (some (actors, author)) =
    add_clip (record t { actors = actors })
      (Clips.create_remote t.clips d.now t.next_clip (note_row author n))

create_from : Instance → Delivery → Tables → ParsedNote → Option Url → Tables
unfolding create_by
create_from i d t n none = t
create_from i d t n (some attributed) =
    let sender = as_text d.activity.actor in
    if is_local_url attributed i.domain || not (text_eq (as_text attributed) sender)
    then t
    else create_by d t n (i.dereference t.actors sender)

create_note : Instance → Delivery → Tables → Result NoteError ParsedNote → Tables
unfolding create_from
create_note i d t (err e) = t
create_note i d t (ok n) = create_from i d t n (i.parse_url n.attributed_to)

pub create_object : Instance → Delivery → Tables → Value → Option Text → Tables
unfolding create_note
create_object i d t note none = t
create_object i d t note (some id) =
    if exists t.tombs id then t else create_note i d t (parse_inbound_note i.parse_time note)

unfoldable pub create_inbound : Instance → Delivery → Tables → Value → Tables × Outcome
unfolding create_object
create_inbound i d t note =
    finish (create_object i d t note (embedded_object_id note)) d.now (as_text d.activity.id)

abbrev update_clip : Delivery → Tables → Value → Option Clip → Tables
update_clip d t note none = t
update_clip d t note (some c) =
    let fields = extract_note_fields note in
    if is_owner t (as_text d.activity.actor) c && is_none c.deleted_at
    then record t {
      clips =
          Clips.update_note_fields t.clips c.id (remote_caption fields.content_html)
            fields.sensitive fields.summary;
    }
    else t

abbrev update_object : Delivery → Tables → Value → Option Text → Tables
update_object d t note none = t
update_object d t note (some id) = update_clip d t note (Clips.fetch_by_ap_id t.clips id)

unfoldable pub update_inbound : Delivery → Tables → Value → Tables × Outcome
update_inbound d t note =
    finish (update_object d t note (embedded_object_id note)) d.now (as_text d.activity.id)

-- A Move, like an activity of any other type, is stored and not acted on.
abbrev move_inbound : Delivery → Tables → Tables × Outcome
move_inbound d t = finish t d.now (as_text d.activity.id)

abbrev passthrough_inbound : Delivery → Tables → Tables × Outcome
passthrough_inbound d t = finish t d.now (as_text d.activity.id)

-- What the gate logs as the activity's object.
abbrev or_some : Option Text → Option Text → Option Text
or_some none b = b
or_some (some a) b = some a

unfoldable pub logged_object : Content → Option Text
logged_object (follow o) = some (as_text o)
logged_object (accept f) = some (as_text (follow_id f))
logged_object (reject f) = some (as_text (follow_id f))
logged_object (undo o) = or_some (undo_follow_target o) (raw_object_id (some o))
logged_object (delete o) = some (as_text (deleted_id o))
logged_object (create o) = embedded_object_id o
logged_object (update o) = embedded_object_id o
logged_object (move o target) = some (as_text o)
logged_object (passthrough raw) = raw_object_id (get raw (codes "object"))

-- The handler of each type, behind the gate.
unfoldable pub process : Instance → Delivery → Tables → Content → Tables × Outcome
process i d t (follow o) = follow_inbound i d t (as_text o)
process i d t (accept f) = accept_inbound d t (as_text (follow_id f))
process i d t (reject f) = reject_inbound d t (as_text (follow_id f))
process i d t (undo o) = undo_inbound d t o
process i d t (delete o) = delete_inbound d t (as_text (deleted_id o))
process i d t (create o) = create_inbound i d t o
process i d t (update o) = update_inbound d t o
process i d t (move o target) = move_inbound d t
process i d t (passthrough raw) = passthrough_inbound d t

-- The gate: the activity is logged first, and skipped when its id is in the log already.
unfoldable pub receive : Instance → Tables → Delivery → Tables × Outcome
receive i t d =
    let a = d.activity in
    let (log, is_new) =
      try_create inbound t.log (as_text a.id) (as_text a.actor) (logged_object a.content) in
    if is_new then process i d (record t { log = log }) a.content else (t, done)

unfoldable pub receive_all : Instance → Tables → List Delivery → Tables
receive_all i t [] = t
receive_all i t (d ∷ ds) = receive_all i (receive i t d).0 ds
