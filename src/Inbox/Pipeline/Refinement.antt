-- ===== src/Inbox/Pipeline/Refinement.antt =====
-- Every inbound activity is a sequence of the changes that its sender may make
-- (crates/federation/src/activity.rs).
use toot_tok.Common.{◌≡◌, refl, List, [], ◌∷◌, Bool-cases, inl, inr}
use toot_tok.Common.Text.Same.{text_key}
use toot_tok.Db.Ledger.{inbound, try_create}
use toot_tok.Inbox.{
  Content, follow, accept, reject, undo, delete, create, update, move, passthrough, as_text,
  deleted_id,
}
use toot_tok.Inbox.Pipeline.{
  Instance, Tables, Delivery, receive, receive_all, process, logged_object, accept_inbound,
  reject_inbound, undo_inbound, delete_inbound, create_inbound, update_inbound,
}
use toot_tok.Inbox.Pipeline.Changes.{Change, Changes, logs, nothing, after}
use toot_tok.Inbox.Pipeline.FollowChanges.{
  may_finish, may_follow, may_accept_row, may_reject_row, may_undo, try_create-Extends,
}
use toot_tok.Inbox.Pipeline.ClipChanges.{may_delete, may_create, may_update_object}

module _ (i : Instance) (d : Delivery) where
  abbrev pub Permits : Tables → Tables → Type 0
  Permits t u = Changes i d t u

  pub may_process :
      (t : Tables) (c : Content) → d.activity.content ≡ c → Permits t (process i d t c).0
  unfolding process accept_inbound reject_inbound undo_inbound delete_inbound create_inbound
      update_inbound
  may_process t (follow o) h = may_follow i d t o h
  may_process t (accept f) h = may_finish i d t _ _ (may_accept_row i d t f h _ refl)
  may_process t (reject f) h = may_finish i d t _ _ (may_reject_row i d t f h _ refl)
  may_process t (undo o) h = may_finish i d t _ _ (may_undo i d t o h _ refl)
  may_process t (delete o) h =
      may_finish i d t _ _ (may_delete i d t (as_text (deleted_id o)) (o, h, refl) _ refl)
  may_process t (create o) h = may_finish i d t _ _ (may_create i d t o h _ refl)
  may_process t (update o) h = may_finish i d t _ _ (may_update_object i d t o h _ refl)
  may_process t (move o target) h = may_finish i d t t _ nothing
  may_process t (passthrough raw) h = may_finish i d t t _ nothing

-- Changes compose.
pub compose :
    (i : Instance) (s : Delivery) {t u v : Tables}
    → Changes i s t u
    → Changes i s u v
    → Changes i s t v
compose i s a nothing = a
compose i s a (after b c) = after (compose i s a b) c

pub receive-Changes : (i : Instance) (t : Tables) (d : Delivery) → Changes i d t (receive i t d).0
unfolding receive
receive-Changes i t d =
    let a = d.activity in
    let log =
      (try_create inbound t.log (as_text a.id) (as_text a.actor) (logged_object a.content)).0 in
    elim (Bool-cases
      (try_create inbound t.log (as_text a.id) (as_text a.actor) (logged_object a.content)).1) [
        | inl e ↦ rw e (
            compose i d (after nothing (logs log (try_create-Extends inbound t.log _ _ _) refl))
              (may_process i d (record t { log = log }) a.content refl))
        | inr e ↦ rw e nothing
      ]

-- What every change of every sender keeps, a delivery keeps, and so do any number of them.
module _ {κ} (i : Instance) (P : Tables → Type κ) where
  pub Changes-keep :
      (s : Delivery)
      → ((t u : Tables) → Change i s t u → P t → P u)
      → {t u : Tables} → Changes i s t u
      → P t
      → P u
  Changes-keep s keep nothing p = p
  Changes-keep s keep (after {u} {v} c step) p = keep u v step (Changes-keep s keep c p)

  pub receive_all-keep :
      ((s : Delivery) (t u : Tables) → Change i s t u → P t → P u)
      → (t : Tables) (ds : List Delivery) → P t
      → P (receive_all i t ds)
  unfolding receive_all
  receive_all-keep keep t [] p = p
  receive_all-keep keep t (d ∷ ds) p =
      receive_all-keep keep (receive i t d).0 ds (Changes-keep d (keep d) (receive-Changes i t d) p)
