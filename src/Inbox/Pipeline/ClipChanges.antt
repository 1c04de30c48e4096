-- ===== src/Inbox/Pipeline/ClipChanges.antt =====
-- What an activity may do to the clips and the actors (crates/federation/src/activity.rs).
use mathlib.Core.Path.{subst}
use toot_tok.Common.{
  ℕ, ◌≡◌, refl, sym, ◌∙◌, ap, true, false, ◌&&◌, ◌||◌, not, Option, none, some, is_none, List,
  arith, Bool-cases, Option-cases, inl, inr,
}
use toot_tok.Common.Map.{lookup-insert_self}
use toot_tok.Common.Result.{ok, err, Result, ensure, or_err, or_err-ok, >>=-ok}
use toot_tok.Common.Text.{Text, codes, text_eq}
use toot_tok.Common.Text.Same.{text_eq_iff, text_key}
use toot_tok.Db.Actors.{Actor}
use toot_tok.Db.Clips.{Clip, create_remote, fetch_by_ap_id}
use toot_tok.Db.Ledger.{exists, upsert_tombstone}
use toot_tok.Egress.Guard.{Url}
use toot_tok.Inbox.{create, update, as_text, is_local_url, embedded_object_id}
use toot_tok.Inbox.Pipeline.{
  Instance, Tables, Delivery, is_owner, note_row, delete_clip, create_object, create_note,
  create_from, create_by, update_object, update_clip,
}
use toot_tok.Inbox.Pipeline.Changes.{
  Changes, IsDeletion, IsCreation, unknown, own, marks, fetches, buries, deletes, edits, adds,
  nothing, after,
}
use toot_tok.Json.{and_then, get, Value, str_field, non_empty}
use toot_tok.Notes.{
  ParsedNote, NoteError, not_a_note, is_text, no_id, no_attributed_to, no_mp4_attachment,
  first_string, find_mp4_attachment, parse_inbound_note,
}

-- The id that a note is parsed with is the one that was looked up.
parsed_id :
    (parse_time : Text → Option ℕ) (v : Value) (n : ParsedNote)
    → parse_inbound_note parse_time v ≡ ok n
    → embedded_object_id v ≡ some n.id
unfolding parse_inbound_note embedded_object_id
parsed_id parse_time v n e =
    let (_, a, _) = >>=-ok (ensure not_a_note (is_text (str_field v "type") "Note")) _ e in
    let (id, b, found) = >>=-ok (or_err no_id (non_empty (str_field v "id"))) _ a in
    let (_, c, _) =
      >>=-ok (or_err no_attributed_to (and_then (get v (codes "attributedTo")) first_string)) _ b in
    let (_, f, _) =
      >>=-ok (or_err no_mp4_attachment (and_then (get v (codes "attachment")) find_mp4_attachment))
        _ c in
    let same : id ≡ n.id = cc f in
    or_err-ok no_id (non_empty (str_field v "id")) found ∙ ap some same

alive : (deletion : Option ℕ) → is_none deletion ≡ true → deletion ≡ none
alive none e = refl
alive (some t) e = cc

module _ (i : Instance) (d : Delivery) where
  abbrev pub sender : Text
  sender = as_text d.activity.actor

  abbrev pub Permits : Tables → Tables → Type 0
  Permits t u = Changes i d t u

  pub may_delete :
      (t : Tables) (object : Text)
      → IsDeletion d object
      → (c : Option Clip) → fetch_by_ap_id t.clips object ≡ c
      → Permits t (delete_clip d t object c)
  unfolding is_owner
  may_delete t object h none e =
      after (after nothing (buries object _ h (unknown e) refl)) (marks object h e refl)
  may_delete t object h (some c) e = elim (Bool-cases (is_owner t sender c)) [
    | inl o ↦ rw o (
        after (after nothing (buries object (codes "Note") h (own c e o) refl)) (
          deletes c d.now object h e
            (unfold exists in (unfold upsert_tombstone in (rw (lookup-insert_self) refl))) o refl))
    | inr o ↦ rw o nothing
  ]

  may_create_by :
      (t : Tables) (n : ParsedNote) (h : IsCreation i d n) (attributed : Url)
      (fetched : Option (List Actor × Actor))
      → i.parse_url n.attributed_to ≡ some attributed
      → as_text attributed ≡ sender
      → is_local_url attributed i.domain ≡ false
      → exists t.tombs n.id ≡ false
      → i.dereference t.actors sender ≡ fetched
      → Permits t (create_by d t n fetched)
  unfolding create_by
  may_create_by t n h attributed none p s l x e = nothing
  may_create_by t n h attributed (some (rows, author)) p s l x e =
      elim (Option-cases (create_remote t.clips d.now t.next_clip (note_row author n))) [
        | inl c ↦ rw c (after nothing (fetches rows author e refl))
        | inr (clips, c) ↦
            rw c (after nothing (adds rows author n attributed d.now clips h p s l e x c refl))
      ]

  may_create_from :
      (t : Tables) (n : ParsedNote) (h : IsCreation i d n) (attributed : Option Url)
      → i.parse_url n.attributed_to ≡ attributed
      → exists t.tombs n.id ≡ false
      → Permits t (create_from i d t n attributed)
  unfolding create_from
  may_create_from t n h none p x = nothing
  may_create_from t n h (some u) p x =
      elim (Bool-cases (is_local_url u i.domain || not (text_eq (as_text u) sender))) [
        | inl e ↦ rw e nothing
        | inr e ↦ rw e (
            may_create_by t n h u (i.dereference t.actors sender) p
              ((text_eq_iff (as_text u) sender).0 (ground (arith, e))) (ground (arith, e)) x refl)
      ]

  may_create_note :
      (t : Tables) (r : Result NoteError ParsedNote)
      → ((n : ParsedNote) → r ≡ ok n → (exists t.tombs n.id ≡ false) × IsCreation i d n)
      → Permits t (create_note i d t r)
  unfolding create_note
  may_create_note t (err e) x = nothing
  may_create_note t (ok n) x =
      may_create_from t n (x n refl).1 (i.parse_url n.attributed_to) refl (x n refl).0

  pub may_create :
      (t : Tables) (note : Value)
      → d.activity.content ≡ create note
      → (id : Option Text) → embedded_object_id note ≡ id
      → Permits t (create_object i d t note id)
  unfolding create_object
  may_create t note h none e = nothing
  may_create t note h (some id) e = elim (Bool-cases (exists t.tombs id)) [
    | inl x ↦ rw x nothing
    | inr x ↦ rw x (
        may_create_note t (parse_inbound_note i.parse_time note) (λ n p.
          let same : n.id ≡ id = cc (parsed_id i.parse_time note n p, e) in
          (subst (λ k. exists t.tombs k ≡ false) (sym same) x, (note, h, p))))
  ]

  may_update :
      (t : Tables) (object : Text) (note : Value)
      → d.activity.content ≡ update note
      → embedded_object_id note ≡ some object
      → (c : Option Clip) → fetch_by_ap_id t.clips object ≡ c
      → Permits t (update_clip d t note c)
  may_update t object note h n none e = nothing
  may_update t object note h n (some c) e =
      elim (Bool-cases (is_owner t sender c && is_none c.deleted_at)) [
        | inl o ↦ rw o (
            after nothing (
              edits c object _ _ _ (note, h, n, refl) e (ground (arith, o))
                (alive c.deleted_at (ground (arith, o))) refl))
        | inr o ↦ rw o nothing
      ]

  pub may_update_object :
      (t : Tables) (note : Value)
      → d.activity.content ≡ update note
      → (id : Option Text) → embedded_object_id note ≡ id
      → Permits t (update_object d t note id)
  may_update_object t note h none n = nothing
  may_update_object t note h (some id) n = may_update t id note h n (fetch_by_ap_id t.clips id) refl
