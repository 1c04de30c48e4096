-- ===== src/Inbox/Pipeline/Gate.antt =====
-- The idempotency gate of the inbox (crates/federation/src/activity.rs, `inbound_begin`).
use mathlib.Core.Path.{subst}
use toot_tok.Common.{
  ◌≡◌, refl, sym, ap, true, false, if◌then◌else◌, Option, none, some, List, [], ◌∷◌, ◌++◌, any,
  arith, Bool-cases, inl, inr,
}
use toot_tok.Common.Text.{Text}
use toot_tok.Common.Text.Same.{text_eq_refl}
use toot_tok.Db.Actors
use toot_tok.Db.Actors.{Actor}
use toot_tok.Db.Ledger.{LoggedActivity, Direction, inbound, try_create, is_activity, exists}
use toot_tok.Inbox.{
  Content, as_text, follow, accept, reject, undo, delete, create, update, move, passthrough,
}
use toot_tok.Inbox.Pipeline.{
  Instance, Tables, Delivery, done, failed, receive, receive_all, process, logged_object, finish,
  follow_inbound, follow_of, follow_by, local_id, accept_inbound, reject_inbound, undo_inbound,
  delete_inbound, create_inbound, update_inbound,
}
use toot_tok.Inbox.Pipeline.Changes.{
  Extends, Change, logs, follows, enqueues, marks, fetches, buries, deletes, edits, adds,
}
use toot_tok.Inbox.Pipeline.Refinement.{Changes-keep, receive_all-keep, may_process}

Change-Extends : (i : Instance) (s : Delivery) (t u : Tables) → Change i s t u → Extends t.log u.log
Change-Extends i s t u (logs log g e) id h =
    subst (λ v. any (is_activity id) v.log ≡ true) (sym e) (g id h)
Change-Extends i s t u (follows fs w e) id h =
    subst (λ v. any (is_activity id) v.log ≡ true) (sym e) h
Change-Extends i s t u (enqueues js n w e) id h =
    subst (λ v. any (is_activity id) v.log ≡ true) (sym e) h
Change-Extends i s t u (marks x w y e) id h =
    subst (λ v. any (is_activity id) v.log ≡ true) (sym e) h
Change-Extends i s t u (fetches rows a f e) id h =
    subst (λ v. any (is_activity id) v.log ≡ true) (sym e) h
Change-Extends i s t u (buries x kind w y e) id h =
    subst (λ v. any (is_activity id) v.log ≡ true) (sym e) h
Change-Extends i s t u (deletes c now x w f b o e) id h =
    subst (λ v. any (is_activity id) v.log ≡ true) (sym e) h
Change-Extends i s t u (edits c x html sens cw w f o l e) id h =
    subst (λ v. any (is_activity id) v.log ≡ true) (sym e) h
Change-Extends i s t u (adds rows a n at now cs w p q l d x c e) id h =
    subst (λ v. any (is_activity id) v.log ≡ true) (sym e) h

abbrev IsLogged : Text → Tables → Type 0
IsLogged id t = any (is_activity id) t.log ≡ true

logged-append :
    (log : List LoggedActivity) (a : LoggedActivity)
    → any (is_activity a.activity_id) (log ++ a ∷ []) ≡ true
logged-append [] a = ground (arith, text_eq_refl a.activity_id)
logged-append (b ∷ log) a = ground (arith, logged-append log a)

try_create-logged :
    (dir : Direction) (log : List LoggedActivity) (id actor : Text) (object : Option Text)
    → any (is_activity id) (try_create dir log id actor object).0 ≡ true
unfolding try_create
try_create-logged dir log id actor object = elim (Bool-cases (any (is_activity id) log)) [
  | inl e ↦ rw (e, e) refl
  | inr e ↦ rw e (logged-append log _)
]

skipped :
    (dir : Direction) (log : List LoggedActivity) (id actor : Text) (object : Option Text)
    → any (is_activity id) log ≡ true
    → (try_create dir log id actor object).1 ≡ false
unfolding try_create
skipped dir log id actor object h = rw h refl

known :
    (dir : Direction) (log : List LoggedActivity) (id actor : Text) (object : Option Text)
    → (try_create dir log id actor object).1 ≡ false
    → any (is_activity id) log ≡ true
unfolding try_create
known dir log id actor object h = elim (Bool-cases (any (is_activity id) log)) [
  | inl e ↦ e
  | inr e ↦ ground (arith, e, h)
]

module _ (i : Instance) where
  receive-IsLogged :
      (t : Tables) (d : Delivery) → IsLogged (as_text d.activity.id) (receive i t d).0
  unfolding receive
  receive-IsLogged t d =
      let a = d.activity in
      let gate =
        try_create inbound t.log (as_text a.id) (as_text a.actor) (logged_object a.content) in
      elim (Bool-cases gate.1) [
        | inl e ↦ rw e (
            Changes-keep i (IsLogged (as_text a.id)) d
              (λ u v c. Change-Extends i d u v c (as_text a.id))
              (may_process i d (record t { log = gate.0 }) a.content refl)
              (try_create-logged inbound t.log _ _ _))
        | inr e ↦ rw e (known inbound t.log _ _ _ e)
      ]

  receive_skips :
      (t : Tables) (d : Delivery) → IsLogged (as_text d.activity.id) t → receive i t d ≡ (t, done)
  unfolding receive
  receive_skips t d h =
      rw (skipped inbound t.log _ (as_text d.activity.actor) (logged_object d.activity.content) h)
        refl

  -- A redelivery, whatever was received in between and whatever it says now, is answered as done
  -- and changes nothing: neither a table nor the stamp of the first delivery.
  pub redelivery_ignored :
      (t : Tables) (first again : Delivery) (between : List Delivery)
      → as_text again.activity.id ≡ as_text first.activity.id
      → let u = receive_all i (receive i t first).0 between in receive i u again ≡ (u, done)
  redelivery_ignored t first again between same =
      receive_skips (receive_all i (receive i t first).0 between) again (
        subst (λ id. IsLogged id (receive_all i (receive i t first).0 between)) (sym same)
          (receive_all-keep i (IsLogged (as_text first.activity.id))
            (λ s u v c. Change-Extends i s u v c (as_text first.activity.id)) (receive i t first).0
            between (receive-IsLogged t first)))

  failed_follow_by :
      (d : Delivery) (t : Tables) (object : Text) (target : Actor) (follower : Option Actor)
      → (follow_by i d t object target follower).1 ≡ failed
      → (follow_by i d t object target follower).0 ≡ t
  unfolding follow_by finish
  failed_follow_by d t object target none h = refl
  failed_follow_by d t object target (some f) h = cc

  failed_follow_of :
      (d : Delivery) (t : Tables) (object : Text) (target : Option Actor)
      → (follow_of i d t object target).1 ≡ failed
      → (follow_of i d t object target).0 ≡ t
  unfolding follow_of finish
  failed_follow_of d t object none h = refl
  failed_follow_of d t object (some target) h = elim (Bool-cases (local_id i target.ap_id)) [
    | inl e ↦ rw e (
        failed_follow_by d t object target _ (
          subst
            (λ b.
              (if b
                then follow_by i d t object target
                    (Actors.fetch_by_ap_id t.actors (as_text d.activity.actor))
                else finish t d.now (as_text d.activity.id)).1
              ≡ failed)
            e h))
    | inr e ↦ ground (arith, e, h)
  ]

  failed_process :
      (d : Delivery) (t : Tables) (c : Content)
      → (process i d t c).1 ≡ failed
      → (process i d t c).0 ≡ t
  unfolding process follow_inbound accept_inbound reject_inbound undo_inbound delete_inbound
      create_inbound update_inbound finish
  failed_process d t (follow o) h = elim (Bool-cases (exists t.tombs (as_text o))) [
    | inl e ↦ ground (arith, e, h)
    | inr e ↦ rw e (
        failed_follow_of d t (as_text o) (Actors.fetch_by_ap_id t.actors (as_text o))
          (ground (arith, e, h)))
  ]
  failed_process d t (accept f) h = cc
  failed_process d t (reject f) h = cc
  failed_process d t (undo o) h = cc
  failed_process d t (delete o) h = cc
  failed_process d t (create o) h = cc
  failed_process d t (update o) h = cc
  failed_process d t (move o x) h = cc
  failed_process d t (passthrough o) h = cc

  only_logged :
      (t : Tables) (d : Delivery)
      → (receive i t d).1 ≡ failed
      → ((receive i t d).0.follows ≡ t.follows) × ((receive i t d).0.clips ≡ t.clips)
  unfolding receive
  only_logged t d h =
      let a = d.activity in
      let gate =
        try_create inbound t.log (as_text a.id) (as_text a.actor) (logged_object a.content) in
      elim (Bool-cases gate.1) [
        | inl e ↦
            let same =
              failed_process d (record t { log = gate.0 }) a.content (ground (arith, e, h)) in
            rw e (ap (λ u. u.follows) same, ap (λ u. u.clips) same)
        | inr e ↦ ground (arith, e, h)
      ]

  -- An activity whose processing fails is lost: the failed delivery changes neither follows nor
  -- clips, and when the sender repeats it, however often and whatever came in between, it is
  -- answered as done without being processed.
  pub failed_is_lost :
      (t : Tables) (first again : Delivery) (between : List Delivery)
      → (receive i t first).1 ≡ failed
      → as_text again.activity.id ≡ as_text first.activity.id
      → ((receive i t first).0.follows ≡ t.follows)
        × ((receive i t first).0.clips ≡ t.clips)
        × (let u = receive_all i (receive i t first).0 between in receive i u again ≡ (u, done))
  failed_is_lost t first again between h same =
      let kept = only_logged t first h in
      (kept.0, kept.1, redelivery_ignored t first again between same)
