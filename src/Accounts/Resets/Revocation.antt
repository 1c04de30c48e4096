-- ===== src/Accounts/Resets/Revocation.antt =====
-- What a password reset takes away (crates/server/src/auth.rs, `reset`).
use mathlib.Core.Path.{subst}
use toot_tok.Common.{
  ℕ, ◌≡◌, refl, sym, ◌∙◌, true, false, not, ltb, Option, none, some, All, ◌==◌, arith,
}
use toot_tok.Common.Table.{delete_where-All, update_where-settles}
use toot_tok.Common.Text.{Text}
use toot_tok.Db.Tokens.{
  password_reset, is_outstanding, is_session_of, invalidate_for_user, delete_sessions_of,
}
use toot_tok.Db.Users
use toot_tok.Db.Users.{User}
use toot_tok.Accounts.{Env, Accounts, Response, reply, byte_length, token_consume}
use toot_tok.Accounts.Resets.{
  owner_unread, consumed, reset, reset_steps, reset_user, reset_password,
}
use toot_tok.Accounts.Steps.{applied, answer_all-applied, past_guard}

abbrev pub no_content : Response
no_content = reply 204 none none

-- The statements of a reset ran for a user with the hash of the new password.
abbrev HasRun : Env → Accounts → Text → Option User → Accounts → Type 0
HasRun e a new_password owner after =
    (u : User) × (hash : Text) × (owner ≡ some u)
    × (e.hash_password new_password ≡ some hash)
    × (after ≡ applied a (reset_steps e u.id hash))

hash_set :
    (e : Env) (a after : Accounts) (id : ℕ) (o : Option Text)
    → reset_password e a id o ≡ (after, no_content)
    → (hash : Text) × (o ≡ some hash) × (after ≡ applied a (reset_steps e id hash))
unfolding reset_password
hash_set e a after id none h = absurd (cc h)
hash_set e a after id (some hash) h =
    (hash, refl, answer_all-applied e a after (reset_steps e id hash) no_content (λ k. cc k) h)

run_for :
    (e : Env) (a after : Accounts) (new_password : Text) (owner : Option User)
    → reset_user e a new_password owner ≡ (after, no_content)
    → HasRun e a new_password owner after
unfolding reset_user
run_for e a after pw none h = absurd (cc h)
run_for e a after pw (some u) h =
    let set = hash_set e a after u.id (e.hash_password pw) h in (u, set.0, refl, set.1, set.2)

-- The tables that a reset leaves when it is answered 204.
pub reset-HasRun :
    (e : Env) (a after : Accounts) (token new_password : Text)
    → reset e a token new_password ≡ (after, no_content)
    → let c = consumed e a token password_reset in HasRun e c.0 new_password c.1 after
unfolding reset
reset-HasRun e a after token pw h =
    let pool = past_guard (not e.has_pool) _ _ _ (λ k. cc k) h in
    let strong = past_guard (ltb (byte_length pw) 10) _ _ _ (λ k. cc k) pool.1 in
    let read = past_guard (e.fails token_consume) _ _ _ (λ k. cc k) strong.1 in
    let known = past_guard (owner_unread e a token password_reset) _ _ _ (λ k. cc k) read.1 in
    run_for e _ after pw _ known.1

-- No session of the user is left, none of its reset tokens can be used, and its password is the
-- one with the hash.
unfoldable pub IsRevoked : ℕ → Text → Accounts → Type 0
IsRevoked id hash a =
    All (λ s. is_session_of id s ≡ false) a.sessions
    × All (λ t. is_outstanding id password_reset t ≡ false) a.tokens
    × All (λ u. (u.id == id) ≡ true → u.password_hash ≡ some hash) a.users

steps-IsRevoked :
    (e : Env) (a : Accounts) (id : ℕ) (hash : Text)
    → IsRevoked id hash (applied a (reset_steps e id hash))
unfolding applied reset_steps IsRevoked delete_sessions_of invalidate_for_user Users.set_password
steps-IsRevoked e a id hash = (
  delete_where-All (is_session_of id) a.sessions,
  update_where-settles _ _ _ a.tokens (λ t x. ground arith) (λ t x. x),
  update_where-settles _ _ _ a.users (λ u x _. refl) (λ u x k. absurd (cc (sym x ∙ k))),
)

-- When a reset is answered 204, the token it was sent belongs to a user, the new password has a
-- hash, no session of that user is left, none of its reset tokens can be used any more, and its
-- row has that hash.
pub reset-IsRevoked :
    (e : Env) (a after : Accounts) (token new_password : Text)
    → reset e a token new_password ≡ (after, no_content)
    → (u : User) × (hash : Text) × ((consumed e a token password_reset).1 ≡ some u)
      × (e.hash_password new_password ≡ some hash)
      × IsRevoked u.id hash after
reset-IsRevoked e a after token pw h =
    let run = reset-HasRun e a after token pw h in
    (
      run.0,
      run.1,
      run.2,
      run.3,
      subst (IsRevoked run.0.id run.1) (sym run.4) (steps-IsRevoked e _ run.0.id run.1),
    )
