-- ===== src/Accounts/Profile/Erasure.antt =====
-- What the deletion of an account leaves (crates/server/src/accounts.rs, `delete_me`).
use mathlib.Core.Path.{subst}
use toot_tok.Common.{
  ℕ, ◌≡◌, refl, sym, ◌∙◌, true, false, Option, none, some, All, ◌==◌, arith, Bool-cases, inl, inr,
}
use toot_tok.Common.Map.{lookup-insert_self}
use toot_tok.Common.Table.{delete_where-All, update_where-settles}
use toot_tok.Common.Text.{Text}
use toot_tok.Common.Text.Same.{text_key}
use toot_tok.Db.Actors
use toot_tok.Db.Ledger.{Tombstones, exists}
use toot_tok.Db.Tokens
use toot_tok.Db.Tokens.{is_session_of}
use toot_tok.Db.Users
use toot_tok.Db.Users.{User}
use toot_tok.Accounts.{Env, Accounts, AuthUser, Response, reply, clear_cookie}
use toot_tok.Accounts.Profile.{delete_me, delete_confirmed, delete_steps, is_live_of, bury}
use toot_tok.Accounts.Steps.{applied, answer_all-applied, past_test}

abbrev pub goodbye : Response
goodbye = reply 204 none (some clear_cookie)

-- Nothing personal is left in the row of the user.
abbrev pub IsErased : ℕ → User → Type 0
IsErased now u =
    (u.email ≡ none) × (u.password_hash ≡ none) × (u.is_admin ≡ false) × (u.deleted_at ≡ some now)

-- What is left of an account: no session and no token, a row of the user without address and
-- password, a deleted actor with its tombstone, and no clip that is not deleted.
pub IsGone : ℕ → AuthUser → Accounts → Type 0
IsGone now auth a =
    All (λ s. is_session_of auth.user.id s ≡ false) a.sessions
    × All (λ t. (t.user_id == auth.user.id) ≡ false) a.tokens
    × All (λ u. (u.id == auth.user.id) ≡ true → IsErased now u) a.users
    × All (λ x. (x.id == auth.actor.id) ≡ true → x.deleted_at ≡ some now) a.actors
    × All (λ c. is_live_of auth.actor.id c ≡ false) a.clips
    × (exists a.tombs auth.actor.ap_id ≡ true)

bury-exists : (tombs : Tombstones) (ap_id : Text) → exists (bury tombs ap_id) ap_id ≡ true
unfolding bury exists
bury-exists tombs ap_id = elim (Bool-cases (exists tombs ap_id)) [
  | inl x ↦ rw x x
  | inr x ↦ rw (x, lookup-insert_self ap_id _ tombs) refl
]

steps-IsGone :
    (e : Env) (auth : AuthUser) (a : Accounts) → IsGone e.now auth (applied a (delete_steps e auth))
unfolding applied delete_steps IsGone Tokens.delete_sessions_of Tokens.delete_for_user
    Users.mark_deleted_and_erase Actors.mark_deleted
steps-IsGone e auth a = (
  delete_where-All (is_session_of auth.user.id) a.sessions,
  delete_where-All _ a.tokens,
  update_where-settles _ _ _ a.users (λ u x _. (refl, refl, refl, refl))
      (λ u x k. absurd (cc (sym x ∙ k))),
  update_where-settles _ _ _ a.actors (λ u x _. refl) (λ u x k. absurd (cc (sym x ∙ k))),
  update_where-settles _ _ _ a.clips (λ c x. ground arith) (λ c x. x),
  bury-exists a.tombs auth.actor.ap_id,
)

confirmed :
    (e : Env) (a after : Accounts) (auth : AuthUser) (password : Text) (o : Option Text)
    → delete_confirmed e a auth password o ≡ (after, goodbye)
    → (hash : Text) × (o ≡ some hash)
      × (e.verify_password password hash ≡ true)
      × (after ≡ applied a (delete_steps e auth))
unfolding delete_confirmed
confirmed e a after auth password none h = absurd (cc h)
confirmed e a after auth password (some hash) h =
    let right = past_test (e.verify_password password hash) _ _ _ (λ k. cc k) h in
    (
      hash,
      refl,
      right.0,
      answer_all-applied e a after (delete_steps e auth) goodbye (λ k. cc k) right.1,
    )

-- When the deletion of an account is answered 204, the password was the account's, and nothing of
-- the account is left: neither a session nor a token, the rows of the user have neither address
-- nor password nor rights, the actor is deleted and has a tombstone, and all its clips are deleted.
pub delete_me-IsGone :
    (e : Env) (a after : Accounts) (auth : AuthUser) (password : Text)
    → delete_me e a auth password ≡ (after, goodbye)
    → ((hash : Text) × (auth.user.password_hash ≡ some hash)
        × (e.verify_password password hash ≡ true))
      × IsGone e.now auth after
unfolding delete_me
delete_me-IsGone e a after auth password h =
    let pool = past_test e.has_pool _ _ _ (λ k. cc k) h in
    let done = confirmed e a after auth password auth.user.password_hash pool.1 in
    ((done.0, done.1, done.2), subst (IsGone e.now auth) (sym done.3) (steps-IsGone e auth a))
