-- ===== src/Accounts/Login/Opened.antt =====
-- The session that a login opens (crates/server/src/auth.rs, `login`).
use toot_tok.Common.{
  ℕ, ◌+◌, ◌<◌, ◌≡◌, refl, sym, ap, Bool, true, false, not, Option, none, some, is_some, List, [],
  ◌∷◌, ◌++◌, All, any, find-All, find-append_new, arith, if◌then◌else◌,
}
use toot_tok.Common.Text.{Text}
use toot_tok.Common.Text.Same.{text_eq_refl}
use toot_tok.Db.Actors
use toot_tok.Db.Actors.{Actor}
use toot_tok.Db.Tokens.{create_session, fetch_session, is_session}
use toot_tok.Db.Users
use toot_tok.Db.Users.{User, is_active}
use toot_tok.Json.{Value}
use toot_tok.Sessions.{Session, Request, AuthUser, authenticated, authenticate, session_token}
use toot_tok.Sessions.Access.{IsLogin-authenticated}
use toot_tok.Accounts.{
  Env, Accounts, Response, reply, user_read, actor_read, session_insert, session_lifetime_secs,
}
use toot_tok.Accounts.Login.{
  LoginRequest, login, login_user, login_hash, login_verified, login_actor, open_session,
  with_session, new_session, find_user_for_login, user_of_actor,
}
use toot_tok.Accounts.Steps.{past_guard, past_test, database_of, user_view, actor_view}

abbrev pub welcomed : Accounts → Option Value → Option Text → Accounts × Response
welcomed after body cookie = (after, reply 200 body cookie)

-- The new session is the only change.
abbrev IsOpened : Env → Accounts → LoginRequest → ℕ → Accounts → Type 0
IsOpened e a req id after =
    (any (is_session (e.hash_token e.token)) a.sessions ≡ false)
    × (after ≡ record a { sessions = a.sessions ++ new_session e req id ∷ [] })

-- The actor is there, neither deleted nor suspended.
abbrev MayEnter : Option Actor → Type 0
MayEnter o =
    (x : Actor) × (o ≡ some x) × (is_some x.deleted_at ≡ false) × (is_some x.suspended_at ≡ false)

-- The user is active and not deleted, and the password is the one of its hash.
abbrev IsKnown : Env → LoginRequest → User → Type 0
IsKnown e req u =
    (hash : Text) × (is_some u.deleted_at ≡ false)
    × (is_active u.status ≡ true)
    × (u.password_hash ≡ some hash)
    × (e.verify_password req.password hash ≡ true)

abbrev pub IsLet : Env → Accounts → LoginRequest → Option User → Accounts → Type 0
IsLet e a req o after =
    (u : User) × (o ≡ some u)
    × IsKnown e req u
    × MayEnter (Actors.fetch_by_id a.actors u.actor_id)
    × IsOpened e a req u.id after

module _ (e : Env) (a after : Accounts) (req : LoginRequest) (body : Option Value)
    (cookie : Option Text) where
  stored :
      (actor : Actor) (taken : Bool) (sessions : List Session)
      → with_session e a actor (if taken then none else some sessions) ≡ welcomed after body cookie
      → (taken ≡ false) × (after ≡ record a { sessions = sessions })
  unfolding with_session
  stored actor true sessions h = absurd (cc h)
  stored actor false sessions h = (refl, sym (ap (λ t. t.0) h))

  opened :
      (id : ℕ) (actor : Actor)
      → open_session e a req id actor ≡ welcomed after body cookie
      → IsOpened e a req id after
  unfolding open_session create_session
  opened id actor h = stored actor _ _ (past_guard (e.fails session_insert) _ _ _ (λ k. cc k) h).1

  entered :
      (id : ℕ) (o : Option Actor)
      → login_actor e a req id o ≡ welcomed after body cookie
      → MayEnter o × IsOpened e a req id after
  unfolding login_actor
  entered id none h = absurd (cc h)
  entered id (some x) h =
      let alive = past_guard (is_some x.deleted_at) _ _ _ (λ k. cc k) h in
      let free = past_guard (is_some x.suspended_at) _ _ _ (λ k. cc k) alive.1 in
      ((x, refl, alive.0, free.0), opened id x free.1)

  verified :
      (u : User)
      → login_verified e a req u ≡ welcomed after body cookie
      → MayEnter (Actors.fetch_by_id a.actors u.actor_id) × IsOpened e a req u.id after
  unfolding login_verified
  verified u h = entered u.id _ (past_guard (e.fails actor_read) _ _ _ (λ k. cc k) h).1

  hashed :
      (u : User) (o : Option Text)
      → login_hash e a req u o ≡ welcomed after body cookie
      → ((hash : Text) × (o ≡ some hash) × (e.verify_password req.password hash ≡ true))
        × MayEnter (Actors.fetch_by_id a.actors u.actor_id)
        × IsOpened e a req u.id after
  unfolding login_hash
  hashed u none h = absurd (cc h)
  hashed u (some hash) h =
      let right = past_test (e.verify_password req.password hash) _ _ _ (λ k. cc k) h in
      let rest = verified u right.1 in ((hash, refl, right.0), rest.0, rest.1)

  admitted :
      (o : Option User) → login_user e a req o ≡ welcomed after body cookie → IsLet e a req o after
  unfolding login_user
  admitted none h = absurd (cc h)
  admitted (some u) h =
      let alive = past_guard (is_some u.deleted_at) _ _ _ (λ k. cc k) h in
      let ready = past_guard (not (is_active u.status)) _ _ _ (λ k. cc k) alive.1 in
      let known = hashed u u.password_hash ready.1 in
      (
        u,
        refl,
        (known.0.0, alive.0, ground (arith, ready.0), known.0.1, known.0.2),
        known.1,
        known.2,
      )

  pub login-IsLet :
      login e a req ≡ welcomed after body cookie
      → IsLet e a req (find_user_for_login a req.username_or_email) after
  unfolding login
  login-IsLet h =
      let pool = past_guard (not e.has_pool) _ _ _ (λ k. cc k) h in
      let read = past_guard (e.fails user_read) _ _ _ (λ k. cc k) pool.1 in admitted _ read.1

-- Ids of users are keys.
abbrev pub AreKeyed : List User → Type 0
AreKeyed users = All (λ u. Users.fetch_by_id users u.id ≡ some u) users

found-IsKeyed :
    (a : Accounts) (o : Option Actor) (name : Text) (u : User)
    → AreKeyed a.users
    → user_of_actor a name o ≡ some u
    → Users.fetch_by_id a.users u.id ≡ some u
unfolding user_of_actor Users.fetch_by_actor_id Users.fetch_by_email
found-IsKeyed a none name u keyed h = find-All _ _ a.users u h keyed
found-IsKeyed a (some x) name u keyed h = find-All _ _ a.users u h keyed

session_added :
    (ss : List Session) (s : Session)
    → any (is_session s.id) ss ≡ false
    → fetch_session (ss ++ s ∷ []) s.id ≡ some s
unfolding fetch_session
session_added ss s h = find-append_new (is_session s.id) ss s h (text_eq_refl s.id)

-- A login that is answered 200 opens a session that works: a request that carries the token,
-- made before the session expires, is authenticated with that session, as the user that the name
-- or the address belongs to and with that user's actor, when the ids of users are keys.
pub login_authenticates :
    (e : Env) (a after : Accounts) (req : LoginRequest) (body : Option Value) (cookie : Option Text)
    (later : ℕ) (request : Request)
    → login e a req ≡ welcomed after body cookie
    → AreKeyed a.users
    → session_token request ≡ some e.token
    → later < e.now + session_lifetime_secs
    → (u : User) × (x : Actor) × (find_user_for_login a req.username_or_email ≡ some u)
      × (authenticate e.hash_token (database_of after) later request
          ≡ authenticated (record {
            user = user_view u;
            actor = actor_view x;
            session = new_session e req u.id;
          }))
unfolding find_user_for_login
login_authenticates e a after req body cookie later request h keyed token time =
    let set = login-IsLet e a after req body cookie h in
    let u = set.0 in
    let x = set.3.0 in
    let row = session_added a.sessions (new_session e req u.id) set.4.0 in
    let user = found-IsKeyed a _ req.username_or_email u keyed set.1 in
    let l : AuthUser = record {
      user = user_view u;
      actor = actor_view x;
      session = new_session e req u.id;
    } in
    let known = set.2 in
    let entry = IsLogin-authenticated e.hash_token (database_of after) later request l refl in
    (
      u,
      x,
      set.1,
      entry (
        e.token,
        token,
        rw (set.4.1, row) refl,
        (
          time,
          rw (set.4.1, user) refl,
          (rw (set.4.1, set.3.1) refl, known.2, known.1, set.3.2, set.3.3),
        ),
      ),
    )
