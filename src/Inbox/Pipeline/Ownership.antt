-- ===== src/Inbox/Pipeline/Ownership.antt =====
-- Only its author changes a clip (crates/federation/src/activity.rs): the owner checks of Delete and
-- Update.
use mathlib.Core.Path.{subst}
use toot_tok.Common.{
  ℕ, ◌≡◌, refl, sym, true, false, some, List, [], ◌∷◌, find, All, arith, Bool-cases, inl, inr, ◌==◌,
  ==_iff,
}
use toot_tok.Common.Table.{find-update_where, find-append_some}
use toot_tok.Common.Text.{Text, text_eq}
use toot_tok.Db.Actors
use toot_tok.Db.Actors.{Actor, mark_remote_deleted_by_ap_id}
use toot_tok.Db.Clips.{
  Clip, has_id, has_ap_id, fetch_by_id, fetch_by_ap_id, mark_deleted, update_note_fields,
  deleted_row, noted,
}
use toot_tok.Inbox.{as_text}
use toot_tok.Inbox.Pipeline.{
  Instance, Tables, Delivery, receive, receive_all, is_owner, remote_caption,
}
use toot_tok.Inbox.Pipeline.Changes.{
  Change, logs, follows, enqueues, marks, fetches, buries, deletes, edits, adds,
}
use toot_tok.Inbox.Pipeline.Ids.{HasClipIds, Change-HasClipIds, same_row, created}
use toot_tok.Inbox.Pipeline.Refinement.{Changes-keep, receive-Changes}

-- The actor of the id is in the table, with the ActivityPub id.
abbrev pub HasAuthor : ℕ → Text → List Actor → Type 0
HasAuthor id ap_id rows = (a : Actor) × (Actors.fetch_by_id rows id ≡ some a) × (a.ap_id ≡ ap_id)

-- The fetch of an actor keeps the ids of the actors that are stored: it inserts a row, or updates
-- the one with the same ActivityPub id.
abbrev pub KeepsActors : Instance → Type 0
KeepsActors i =
    (rows stored : List Actor) (sender : Text) (a : Actor) (id : ℕ) (ap_id : Text)
    → i.dereference rows sender ≡ some (stored, a)
    → HasAuthor id ap_id rows
    → HasAuthor id ap_id stored

marks-HasAuthor :
    (rows : List Actor) (now : ℕ) (x : Text) (id : ℕ) (ap_id : Text)
    → HasAuthor id ap_id rows
    → HasAuthor id ap_id (mark_remote_deleted_by_ap_id rows now x)
unfolding Actors.fetch_by_id mark_remote_deleted_by_ap_id
marks-HasAuthor rows now x id ap_id (a, h, k) =
    let found =
      find-update_where (λ (r : Actor). r.id == id) (λ (r : Actor). text_eq r.ap_id x)
        (λ (r : Actor). record r { deleted_at = some now }) rows (λ _. refl) in
    elim (Bool-cases (text_eq a.ap_id x)) [
      | inl z ↦ (record a { deleted_at = some now }, rw (found, h, z) refl, k)
      | inr z ↦ (a, rw (found, h, z) refl, k)
    ]

-- The clip is in the table as it is, and its author too.
abbrev Stands : ℕ → Clip → Text → Tables → Type 0
Stands id r author t =
    HasClipIds t × (fetch_by_id t.clips id ≡ some r) × HasAuthor r.actor_id author t.actors

not_owner :
    (t : Tables) (sender author : Text) (r : Clip)
    → HasAuthor r.actor_id author t.actors
    → text_eq author sender ≡ false
    → is_owner t sender r ≡ false
unfolding is_owner
not_owner t sender author r (a, h, k) e = rw (h, k) e

-- A row that the sender owns is another one.
other_row :
    (t : Tables) (id : ℕ) (r c : Clip) (author sender object : Text)
    → Stands id r author t
    → text_eq author sender ≡ false
    → fetch_by_ap_id t.clips object ≡ some c
    → is_owner t sender c ≡ true
    → has_id c.id r ≡ false
unfolding fetch_by_ap_id
other_row t id r c author sender object (k, h, a) e f o = elim (Bool-cases (has_id c.id r)) [
  | inl z ↦
      let same = same_row t.clips (has_ap_id object) id r c k.0 h f ((==_iff r.id c.id).0 z) in
      let owned : is_owner t sender r ≡ true =
        subst (λ y. is_owner t sender y ≡ true) (sym same) o in
      let other = not_owner t sender author r a e in absurd (ground (arith, owned, other))
  | inr z ↦ z
]

module _ (i : Instance) (known : KeepsActors i) (id : ℕ) (r : Clip) (author : Text) where
  Change-Stands :
      (s : Delivery)
      → text_eq author (as_text s.activity.actor) ≡ false
      → (t u : Tables) → Change i s t u
      → (fetch_by_id t.clips id ≡ some r) × HasAuthor r.actor_id author t.actors
      → HasClipIds t
      → (fetch_by_id u.clips id ≡ some r) × HasAuthor r.actor_id author u.actors
  unfolding fetch_by_id mark_deleted update_note_fields
  Change-Stands s n t u (logs log g e) h k =
      subst
        (λ (v : Tables). (fetch_by_id v.clips id ≡ some r) × HasAuthor r.actor_id author v.actors)
        (sym e) h
  Change-Stands s n t u (follows fs w e) h k =
      subst
        (λ (v : Tables). (fetch_by_id v.clips id ≡ some r) × HasAuthor r.actor_id author v.actors)
        (sym e) h
  Change-Stands s n t u (enqueues js m w e) h k =
      subst
        (λ (v : Tables). (fetch_by_id v.clips id ≡ some r) × HasAuthor r.actor_id author v.actors)
        (sym e) h
  Change-Stands s n t u (marks x w y e) h k =
      subst
        (λ (v : Tables). (fetch_by_id v.clips id ≡ some r) × HasAuthor r.actor_id author v.actors)
        (sym e) (h.0, marks-HasAuthor t.actors s.now x r.actor_id author h.1)
  Change-Stands s n t u (fetches rows a f e) h k =
      subst
        (λ (v : Tables). (fetch_by_id v.clips id ≡ some r) × HasAuthor r.actor_id author v.actors)
        (sym e) (h.0, known t.actors rows (as_text s.activity.actor) a r.actor_id author f h.1)
  Change-Stands s n t u (buries x kind w y e) h k =
      subst
        (λ (v : Tables). (fetch_by_id v.clips id ≡ some r) × HasAuthor r.actor_id author v.actors)
        (sym e) h
  Change-Stands s n t u (deletes c now x w f b o e) h k =
      let found =
        find-update_where (has_id id) (has_id c.id) (deleted_row now) t.clips (λ _. refl) in
      let other = other_row t id r c author (as_text s.activity.actor) x (k, h.0, h.1) n f o in
      subst
        (λ (v : Tables). (fetch_by_id v.clips id ≡ some r) × HasAuthor r.actor_id author v.actors)
        (sym e) (rw (found, h.0, other) refl, h.1)
  Change-Stands s n t u (edits c x html sens cw w f o l e) h k =
      let found =
        find-update_where (has_id id) (has_id c.id) (noted (remote_caption html) sens cw) t.clips
          (λ _. refl) in
      let other = other_row t id r c author (as_text s.activity.actor) x (k, h.0, h.1) n f o in
      subst
        (λ (v : Tables). (fetch_by_id v.clips id ≡ some r) × HasAuthor r.actor_id author v.actors)
        (sym e) (rw (found, h.0, other) refl, h.1)
  Change-Stands s n t u (adds rows a note attributed now cs w p q l d x c e) h k =
      subst
        (λ (v : Tables). (fetch_by_id v.clips id ≡ some r) × HasAuthor r.actor_id author v.actors)
        (sym e)
        (
          subst (λ v. find (has_id id) v ≡ some r) (sym (created t.clips cs now t.next_clip _ c).0)
              (find-append_some (has_id id) t.clips _ r h.0),
          known t.actors rows (as_text s.activity.actor) a r.actor_id author d h.1,
        )

  receive_all-Stands :
      (t : Tables) (ds : List Delivery)
      → All (λ d. text_eq author (as_text d.activity.actor) ≡ false) ds
      → Stands id r author t
      → Stands id r author (receive_all i t ds)
  unfolding receive_all
  receive_all-Stands t [] n h = h
  receive_all-Stands t (d ∷ ds) n h = receive_all-Stands (receive i t d).0 ds n.1 (
      Changes-keep i (Stands id r author) d
        (λ t u c h.
          let next = Change-Stands d n.0 t u c (h.1, h.2) h.0 in
          (Change-HasClipIds i d t u c h.0, next.0, next.1))
        (receive-Changes i t d) h)

-- A clip whose author is stored is as it was, whatever activities the other actors send: nobody
-- else deletes or edits it. The fetch of an actor keeps the ids of the stored ones, and the clips'
-- ids are distinct and below the sequence, as the database keeps them.
pub others_clip_kept :
    (i : Instance) (t : Tables) (ds : List Delivery) (id : ℕ) (r : Clip) (author : Text)
    → KeepsActors i
    → HasClipIds t
    → fetch_by_id t.clips id ≡ some r
    → HasAuthor r.actor_id author t.actors
    → All (λ d. text_eq author (as_text d.activity.actor) ≡ false) ds
    → fetch_by_id (receive_all i t ds).clips id ≡ some r
others_clip_kept i t ds id r author known k h a n =
    (receive_all-Stands i known id r author t ds n (k, h, a)).1
