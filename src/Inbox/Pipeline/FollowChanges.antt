-- ===== src/Inbox/Pipeline/FollowChanges.antt =====
-- What an activity may do to the log, the follows and the jobs (crates/federation/src/activity.rs).
use toot_tok.Common.{
  ℕ, ◌≡◌, refl, ◌∙◌, Bool, true, false, Option, none, some, List, [], ◌∷◌, ◌++◌, any, arith,
  Bool-cases, inl, inr,
}
use toot_tok.Common.Table.{any-update_where}
use toot_tok.Common.Text.{Text}
use toot_tok.Common.Text.Same.{text_key}
use toot_tok.Db.Actors
use toot_tok.Db.Actors.{Actor}
use toot_tok.Db.Follows
use toot_tok.Db.Ledger.{
  LoggedActivity, Direction, outbound, try_create, stamp_processed, is_activity, exists,
}
use toot_tok.Json.{Value}
use toot_tok.Egress.Guard.{Url}
use toot_tok.Inbox.{
  as_text, FollowObject, follow, accept, reject, undo, follow_id, undo_follow_target,
}
use toot_tok.Inbox.Pipeline.{
  Instance, Tables, Delivery, finish, enqueue, enqueue_delivery, enqueue_backfill, follow_inbound,
  accept_activity, follow_of, follow_by, answer_follow, local_id, accept_row, reject_row, undo_row,
  undo_target,
}
use toot_tok.Inbox.Pipeline.Changes.{
  Extends, Changes, Asks, asks, answers, accepts, rejects, withdraws, sends, imports, logs, follows,
  enqueues, nothing, after,
}

stamp-Extends :
    (log : List LoggedActivity) (now : ℕ) (id : Text) → Extends log (stamp_processed log now id)
unfolding stamp_processed
stamp-Extends log now id x h = any-update_where (is_activity x) _ _ log (λ r. refl) ∙ h

any-append {ℓ} :
    {A : Type ℓ} (p : A → Bool) (xs ys : List A) → any p xs ≡ true → any p (xs ++ ys) ≡ true
any-append p [] ys h = cc
any-append p (x ∷ xs) ys h = ground (arith, any-append p xs ys)

pub try_create-Extends :
    (dir : Direction) (log : List LoggedActivity) (id actor : Text) (object : Option Text)
    → Extends log (try_create dir log id actor object).0
unfolding try_create
try_create-Extends dir log id actor object x h = elim (Bool-cases (any (is_activity id) log)) [
  | inl e ↦ rw e h
  | inr e ↦ rw e (any-append (is_activity x) log _ h)
]

module _ (i : Instance) (d : Delivery) where
  abbrev pub Permits : Tables → Tables → Type 0
  Permits t u = Changes i d t u

  pub may_finish : (t u : Tables) (id : Text) → Permits t u → Permits t (finish u d.now id).0
  unfolding finish
  may_finish t u id c = after c (logs _ (stamp-Extends u.log d.now id) refl)

  -- The request, on later tables with the same actors.
  abbrev carried : (s t : Tables) → Asks i d s → t.actors ≡ s.actors → Asks i d t
  carried s t a same = record {
    object = a.object;
    follower = a.follower;
    target = a.target;
    content = a.content;
    by_sender = rw same a.by_sender;
    of_target = rw same a.of_target;
    is_local = a.is_local;
  }

  may_answer :
      (s t u : Tables) (a : Asks i d s)
      → a.target.is_locked ≡ false
      → t.actors ≡ s.actors
      → Permits u t
      → Permits u (answer_follow i d t (as_text a.object) a.follower a.target)
  unfolding answer_follow enqueue_delivery enqueue accept_activity
  may_answer s t u a free same c =
      after
        (after (after c (follows _ (answers (carried s t a same) free) refl))
          (logs _ (try_create-Extends outbound t.log _ _ _) refl))
        (enqueues _ _ (sends (carried s _ a same) free) refl)

  may_follow_by :
      (t : Tables) (o : Url) (target : Actor) (follower : Option Actor)
      → d.activity.content ≡ follow o
      → Actors.fetch_by_ap_id t.actors (as_text o) ≡ some target
      → local_id i target.ap_id ≡ true
      → Actors.fetch_by_ap_id t.actors (as_text d.activity.actor) ≡ follower
      → Permits t (follow_by i d t (as_text o) target follower).0
  unfolding follow_by
  may_follow_by t o target none h x l f = nothing
  may_follow_by t o target (some follower) h x l f =
      let a : Asks i d t = record {
        object = o;
        follower = follower;
        target = target;
        content = h;
        by_sender = f;
        of_target = x;
        is_local = l;
      } in
      elim (Bool-cases target.is_locked) [
        | inl e ↦ rw e (may_finish t _ _ (after nothing (follows _ (asks a) refl)))
        | inr e ↦
            rw e (
              may_finish t _ _
                (may_answer t _ t a e refl (after nothing (follows _ (asks a) refl))))
      ]

  may_follow_of :
      (t : Tables) (o : Url) (target : Option Actor)
      → d.activity.content ≡ follow o
      → Actors.fetch_by_ap_id t.actors (as_text o) ≡ target
      → Permits t (follow_of i d t (as_text o) target).0
  unfolding follow_of
  may_follow_of t o none h x = nothing
  may_follow_of t o (some target) h x = elim (Bool-cases (local_id i target.ap_id)) [
    | inl e ↦ rw e (may_follow_by t o target _ h x e refl)
    | inr e ↦ rw e (may_finish t t _ nothing)
  ]

  pub may_follow :
      (t : Tables) (o : Url)
      → d.activity.content ≡ follow o
      → Permits t (follow_inbound i d t (as_text o)).0
  unfolding follow_inbound
  may_follow t o h = elim (Bool-cases (exists t.tombs (as_text o))) [
    | inl e ↦ rw e (may_finish t t _ nothing)
    | inr e ↦ rw e (may_follow_of t o _ h refl)
  ]

  pub may_accept_row :
      (t : Tables) (o : FollowObject)
      → d.activity.content ≡ accept o
      → (f : Option Follows.Follow)
      → Follows.fetch_by_activity_id t.follows (as_text (follow_id o)) ≡ f
      → Permits t (accept_row d t f)
  unfolding accept_row enqueue_backfill enqueue
  may_accept_row t o h none x = nothing
  may_accept_row t o h (some f) x =
      after (after nothing (follows _ (accepts o f h x) refl))
        (enqueues _ _ (imports o t.follows f h x refl) refl)

  pub may_reject_row :
      (t : Tables) (o : FollowObject)
      → d.activity.content ≡ reject o
      → (f : Option Follows.Follow)
      → Follows.fetch_by_activity_id t.follows (as_text (follow_id o)) ≡ f
      → Permits t (reject_row t f)
  may_reject_row t o h none x = nothing
  may_reject_row t o h (some f) x = after nothing (follows _ (rejects o f h x) refl)

  may_undo_row :
      (t : Tables) (o : Value) (id : Text)
      → d.activity.content ≡ undo o
      → undo_follow_target o ≡ some id
      → (f : Option Follows.Follow) → Follows.fetch_by_activity_id t.follows id ≡ f
      → Permits t (undo_row t f)
  may_undo_row t o id h n none x = nothing
  may_undo_row t o id h n (some f) x = after nothing (follows _ (withdraws o id f h n x) refl)

  pub may_undo :
      (t : Tables) (o : Value)
      → d.activity.content ≡ undo o
      → (id : Option Text) → undo_follow_target o ≡ id
      → Permits t (undo_target t id)
  may_undo t o h none n = nothing
  may_undo t o h (some id) n = may_undo_row t o id h n _ refl
