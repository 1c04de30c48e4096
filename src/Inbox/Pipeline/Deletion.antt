-- ===== src/Inbox/Pipeline/Deletion.antt =====
-- What is deleted stays deleted (crates/federation/src/activity.rs): the tombstones and the rows
-- that Delete leaves.
use mathlib.Core.Path.{subst}
use toot_tok.Common.{
  ℕ, ◌≡◌, refl, sym, ◌∙◌, ap, true, false, Option, some, is_none, List, any, find, arith,
  Bool-cases, inl, inr, ==_iff,
}
use toot_tok.Common.Map.{lookup-insert}
use toot_tok.Common.Table.{any-update_where, find-update_where, find-append_some}
use toot_tok.Common.Text.{Text, text_eq}
use toot_tok.Common.Text.Same.{text_eq_iff, text_key}
use toot_tok.Db.Clips.{
  Clip, deleted, has_id, has_ap_id, fetch_by_id, fetch_by_ap_id, mark_deleted, update_note_fields,
  deleted_row, noted,
}
use toot_tok.Db.Ledger.{Tombstones, exists, upsert_tombstone}
use toot_tok.Inbox.Pipeline.{Instance, Tables, Delivery, receive_all, remote_caption}
use toot_tok.Inbox.Pipeline.Changes.{
  Change, logs, follows, enqueues, marks, fetches, buries, deletes, edits, adds,
}
use toot_tok.Inbox.Pipeline.Ids.{any-append-false, HasClipIds, Change-HasClipIds, same_row, created}
use toot_tok.Inbox.Pipeline.Refinement.{receive_all-keep}

-- The id is tombstoned, and no clip has it.
abbrev pub IsGone : Text → Tables → Type 0
IsGone id t = (exists t.tombs id ≡ true) × (any (has_ap_id id) t.clips ≡ false)

exists-upsert :
    (tombs : Tombstones) (x kind id : Text)
    → exists tombs id ≡ true
    → exists (upsert_tombstone tombs x kind) id ≡ true
unfolding exists upsert_tombstone
exists-upsert tombs x kind id h = ground (arith, lookup-insert x id kind tombs)

other_id :
    (tombs : Tombstones) (id x : Text)
    → exists tombs id ≡ true
    → exists tombs x ≡ false
    → text_eq x id ≡ false
other_id tombs id x h k = elim (Bool-cases (text_eq x id)) [
  | inl e ↦
      let same : x ≡ id = (text_eq_iff x id).0 e in
      let both : exists tombs id ≡ false = subst (λ y. exists tombs y ≡ false) same k in cc
  | inr e ↦ e
]

Change-IsGone :
    (i : Instance) (id : Text) (s : Delivery) (t u : Tables)
    → Change i s t u
    → IsGone id t
    → IsGone id u
unfolding mark_deleted update_note_fields
Change-IsGone i id s t u (logs log g e) h = subst (IsGone id) (sym e) h
Change-IsGone i id s t u (follows fs w e) h = subst (IsGone id) (sym e) h
Change-IsGone i id s t u (enqueues js n w e) h = subst (IsGone id) (sym e) h
Change-IsGone i id s t u (marks x w y e) h = subst (IsGone id) (sym e) h
Change-IsGone i id s t u (fetches rows a f e) h = subst (IsGone id) (sym e) h
Change-IsGone i id s t u (buries x kind w y e) h =
    subst (IsGone id) (sym e) (exists-upsert t.tombs x kind id h.0, h.1)
Change-IsGone i id s t u (deletes c now x w f b o e) h =
    subst (IsGone id) (sym e) (h.0, any-update_where (has_ap_id id) _ _ t.clips (λ _. refl) ∙ h.1)
Change-IsGone i id s t u (edits c x html sens cw w f o l e) h =
    subst (IsGone id) (sym e) (h.0, any-update_where (has_ap_id id) _ _ t.clips (λ _. refl) ∙ h.1)
Change-IsGone i id s t u (adds rows a n attributed now cs w p q l d x c e) h =
    subst (IsGone id) (sym e) (
      h.0,
      subst (λ v. any (has_ap_id id) v ≡ false) (sym (created t.clips cs now t.next_clip _ c).0)
          (any-append-false (has_ap_id id) t.clips _ h.1 (other_id t.tombs id n.id h.0 x)),
    )

-- Once an id is tombstoned and no clip has it, no activity of any sender ever makes a clip of it.
pub tombstone_wins :
    (i : Instance) (t : Tables) (ds : List Delivery) (id : Text)
    → IsGone id t
    → IsGone id (receive_all i t ds)
tombstone_wins i t ds id = receive_all-keep i (IsGone id) (Change-IsGone i id) t ds

-- The row of the id is deleted, and has the caption.
abbrev pub IsDeleted : ℕ → Option Text → Tables → Type 0
IsDeleted id caption t =
    (c : Clip) × (fetch_by_id t.clips id ≡ some c)
    × (c.status ≡ deleted)
    × (is_none c.deleted_at ≡ false)
    × (c.caption_html ≡ caption)

abbrev Keeps : ℕ → Option Text → Tables → Type 0
Keeps id caption t = HasClipIds t × IsDeleted id caption t

Change-IsDeleted :
    (i : Instance) (id : ℕ) (caption : Option Text) (s : Delivery) (t u : Tables)
    → Change i s t u
    → HasClipIds t
    → IsDeleted id caption t
    → IsDeleted id caption u
unfolding fetch_by_id mark_deleted update_note_fields
Change-IsDeleted i id caption s t u (logs log g e) k h = subst (IsDeleted id caption) (sym e) h
Change-IsDeleted i id caption s t u (follows fs w e) k h = subst (IsDeleted id caption) (sym e) h
Change-IsDeleted i id caption s t u (enqueues js n w e) k h = subst (IsDeleted id caption) (sym e) h
Change-IsDeleted i id caption s t u (marks x w y e) k h = subst (IsDeleted id caption) (sym e) h
Change-IsDeleted i id caption s t u (fetches rows a f e) k h =
    subst (IsDeleted id caption) (sym e) h
Change-IsDeleted i id caption s t u (buries x kind w y e) k h =
    subst (IsDeleted id caption) (sym e) h
Change-IsDeleted i id caption s t u (deletes c now x w f b o e) k (r, h, st, gone, text) =
    let found = find-update_where (has_id id) (has_id c.id) (deleted_row now) t.clips (λ _. refl) in
    subst (IsDeleted id caption) (sym e) (elim (Bool-cases (has_id c.id r)) [
      | inl z ↦ (deleted_row now r, rw (found, h, z) refl, refl, refl, text)
      | inr z ↦ (r, rw (found, h, z) refl, st, gone, text)
    ])
Change-IsDeleted i id caption s t u (edits c x html sens cw w f o l e) k (r, h, st, gone, text) =
    let found =
      find-update_where (has_id id) (has_id c.id) (noted (remote_caption html) sens cw) t.clips
        (λ _. refl) in
    subst (IsDeleted id caption) (sym e) (elim (Bool-cases (has_id c.id r)) [
      | inl z ↦
          let same : r ≡ c =
            same_row t.clips (has_ap_id x) id r c k.0 h (unfold fetch_by_ap_id in f)
              ((==_iff r.id c.id).0 z) in
          absurd (ground (arith, gone, l, ap (λ y. y.deleted_at) same))
      | inr z ↦ (r, rw (found, h, z) refl, st, gone, text)
    ])
Change-IsDeleted i id caption s t u (adds rows a n attributed now cs w p q l d x c e) k
      (r, h, st, gone, text) =
    subst (IsDeleted id caption) (sym e) (
      r,
      subst (λ v. find (has_id id) v ≡ some r) (sym (created t.clips cs now t.next_clip _ c).0)
          (find-append_some (has_id id) t.clips _ r h),
      st,
      gone,
      text,
    )

Change-Keeps :
    (i : Instance) (id : ℕ) (caption : Option Text) (s : Delivery) (t u : Tables)
    → Change i s t u
    → Keeps id caption t
    → Keeps id caption u
Change-Keeps i id caption s t u c (k, h) =
    (Change-HasClipIds i s t u c k, Change-IsDeleted i id caption s t u c k h)

-- A deleted clip stays deleted, with its caption as it was, under all activities of all senders: no
-- Create, Update or second Delete brings it back or edits it. The clips' ids are distinct and below
-- the sequence, as the database keeps them.
pub deletion_lasts :
    (i : Instance) (t : Tables) (ds : List Delivery) (id : ℕ) (caption : Option Text)
    → HasClipIds t
    → IsDeleted id caption t
    → IsDeleted id caption (receive_all i t ds)
deletion_lasts i t ds id caption k h =
    (receive_all-keep i (Keeps id caption) (Change-Keeps i id caption) t ds (k, h)).1
