-- ===== src/Inbox/Pipeline/Captions.antt =====
-- What remote captions can do when they are shown (crates/federation/src/activity.rs, note.rs).
use mathlib.Core.Path.{subst}
use toot_tok.Common.{◌≡◌, sym, false, Option, none, some, List, [], ◌∷◌, any, All}
use toot_tok.Common.Table.{update_where-All, All-append}
use toot_tok.Common.Text.{Text}
use toot_tok.Db.Clips.{has_id, mark_deleted, update_note_fields}
use toot_tok.Inbox.Pipeline.{Instance, Tables, Delivery, receive_all, remote_caption}
use toot_tok.Inbox.Pipeline.Changes.{
  Change, logs, follows, enqueues, marks, fetches, buries, deletes, edits, adds,
}
use toot_tok.Inbox.Pipeline.Ids.{created}
use toot_tok.Inbox.Pipeline.Refinement.{receive_all-keep}
use toot_tok.Json.{non_empty}
use toot_tok.Sanitize.{strip_html_tags}
use toot_tok.Sanitize.Escape.{is_markup}
use toot_tok.Sanitize.Inert.{strip_html_tags_inert}

-- The text has no `<`, `>`, `"` or `'`.
abbrev pub IsInert : Option Text → Type 0
IsInert none = Unit
IsInert (some t) = any is_markup t ≡ false

abbrev pub AreInert : Tables → Type 0
AreInert t = All (λ c. IsInert c.caption_html) t.clips

non_empty-IsInert : (t : Text) → any is_markup t ≡ false → IsInert (non_empty (some t))
non_empty-IsInert [] h = tt
non_empty-IsInert (c ∷ cs) h = h

remote_caption-IsInert : (html : Option Text) → IsInert (remote_caption html)
unfolding remote_caption
remote_caption-IsInert none = tt
remote_caption-IsInert (some html) =
    non_empty-IsInert (strip_html_tags html) (strip_html_tags_inert html).0

Change-AreInert :
    (i : Instance) (s : Delivery) (t u : Tables) → Change i s t u → AreInert t → AreInert u
unfolding mark_deleted update_note_fields
Change-AreInert i s t u (logs log g e) h = subst AreInert (sym e) h
Change-AreInert i s t u (follows fs w e) h = subst AreInert (sym e) h
Change-AreInert i s t u (enqueues js m w e) h = subst AreInert (sym e) h
Change-AreInert i s t u (marks x w y e) h = subst AreInert (sym e) h
Change-AreInert i s t u (fetches rows a f e) h = subst AreInert (sym e) h
Change-AreInert i s t u (buries x kind w y e) h = subst AreInert (sym e) h
Change-AreInert i s t u (deletes c now x w f b o e) h =
    subst AreInert (sym e)
      (update_where-All (λ r. IsInert r.caption_html) (has_id c.id) _ t.clips (λ _ k. k) h)
Change-AreInert i s t u (edits c x html sens cw w f o l e) h = subst AreInert (sym e) (
    update_where-All (λ r. IsInert r.caption_html) (has_id c.id) _ t.clips
      (λ _ _. remote_caption-IsInert html) h)
Change-AreInert i s t u (adds rows a n attributed now cs w p q l d x c e) h =
    subst AreInert (sym e) (
      subst (All (λ r. IsInert r.caption_html)) (sym (created t.clips cs now t.next_clip _ c).0) (
        All-append (λ r. IsInert r.caption_html) t.clips _ h
          (remote_caption-IsInert n.content_html, tt)))

-- When no stored caption has a `<`, `>`, `"` or `'`, none has after any activities of any senders:
-- what they write is stored without.
pub captions_stay_inert :
    (i : Instance) (t : Tables) (ds : List Delivery) → AreInert t → AreInert (receive_all i t ds)
captions_stay_inert i t ds = receive_all-keep i AreInert (Change-AreInert i) t ds
