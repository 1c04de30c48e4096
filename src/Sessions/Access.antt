-- ===== src/Sessions/Access.antt =====
-- Who is let in by the `AuthUser` extractor (crates/server/src/session.rs).
use mathlib.Core.Path.{subst}
use toot_tok.Common.{
  ℕ, ◌<◌, ◌≡◌, refl, sym, ◌∙◌, true, false, ◌||◌, not, leb, Option, none, some, arith, Bool-cases,
  inl, inr,
}
use toot_tok.Common.Text.{Text}
use toot_tok.Sessions.{
  Session, Request, Database, Query, failed, missing, found, AuthUser, authenticated, unauthorized,
  unavailable, deletes_session, authenticate, auth_token, auth_session, auth_user, auth_actor,
  session_token, User, Actor,
}

-- The actor is the user's, and both may act.
abbrev MayAct : Database → AuthUser → Type 0
MayAct db l =
    (db.actor_of l.user.actor_id ≡ found l.actor)
    × (l.user.is_active ≡ true)
    × (l.user.is_deleted ≡ false)
    × (l.actor.is_deleted ≡ false)
    × (l.actor.is_suspended ≡ false)

-- The rows belong together, the session has not expired, and user and actor may act.
abbrev IsLive : Database → ℕ → AuthUser → Type 0
IsLive db now l =
    (now < l.session.expires_at) × (db.user_of l.session.user_id ≡ found l.user) × MayAct db l

-- The request carries a token whose hash is the key of the session, which is live.
abbrev pub IsLogin : (Text → Text) → Database → ℕ → Request → AuthUser → Type 0
IsLogin hash_token db now req l =
    (token : Text) × (session_token req ≡ some token)
    × (db.session_of (hash_token token) ≡ found l.session)
    × IsLive db now l

actor_of-rows :
    (s : Session) (u : User) (q : Query Actor) (l : AuthUser)
    → auth_actor s u q ≡ authenticated l
    → (q ≡ found l.actor)
      × (u ≡ l.user)
      × (s ≡ l.session)
      × (l.actor.is_deleted ≡ false)
      × (l.actor.is_suspended ≡ false)
actor_of-rows s u failed l h = cc
actor_of-rows s u missing l h = cc
actor_of-rows s u (found a) l h = elim (Bool-cases (a.is_deleted || a.is_suspended)) [
  | inl e ↦
      let refused : auth_actor s u (found a) ≡ unauthorized = rw e refl in cc (sym refused ∙ h)
  | inr e ↦
      let login : record { user = u; actor = a; session = s } ≡ l = ground (arith, e, h) in
      let alive : a.is_deleted ≡ false = ground (arith, e) in
      let free : a.is_suspended ≡ false = ground (arith, e) in
      subst
        (λ t.
          (found a ≡ found t.actor)
          × (u ≡ t.user)
          × (s ≡ t.session)
          × (t.actor.is_deleted ≡ false)
          × (t.actor.is_suspended ≡ false))
        login (refl, refl, refl, alive, free)
]

user_of-rows :
    (db : Database) (s : Session) (q : Query User) (l : AuthUser)
    → auth_user db s q ≡ authenticated l
    → (q ≡ found l.user) × (s ≡ l.session) × MayAct db l
user_of-rows db s failed l h = cc
user_of-rows db s missing l h = cc
user_of-rows db s (found u) l h = elim (Bool-cases (u.is_deleted || not u.is_active)) [
  | inl e ↦
      let refused : auth_user db s (found u) ≡ unauthorized = rw e refl in cc (sym refused ∙ h)
  | inr e ↦
      let taken : auth_actor s u (db.actor_of u.actor_id) ≡ authenticated l =
        ground (arith, e, h) in
      let rows = actor_of-rows s u (db.actor_of u.actor_id) l taken in
      let active : u.is_active ≡ true = ground (arith, e) in
      let alive : u.is_deleted ≡ false = ground (arith, e) in
      subst
        (λ t.
          (found u ≡ found t)
          × (s ≡ l.session)
          × ((db.actor_of t.actor_id ≡ found l.actor)
              × (t.is_active ≡ true)
              × (t.is_deleted ≡ false)
              × (l.actor.is_deleted ≡ false)
              × (l.actor.is_suspended ≡ false)))
        rows.1 (refl, rows.2, (rows.0, active, alive, rows.3, rows.4))
]

session_of-rows :
    (db : Database) (now : ℕ) (q : Query Session) (l : AuthUser)
    → auth_session db now q ≡ authenticated l
    → (q ≡ found l.session) × IsLive db now l
session_of-rows db now failed l h = cc
session_of-rows db now missing l h = cc
session_of-rows db now (found s) l h = elim (Bool-cases (leb s.expires_at now)) [
  | inl e ↦
      let refused : auth_session db now (found s) ≡ deletes_session s.id = rw e refl in
      cc (sym refused ∙ h)
  | inr e ↦
      let taken : auth_user db s (db.user_of s.user_id) ≡ authenticated l = ground (arith, e, h) in
      let rows = user_of-rows db s (db.user_of s.user_id) l taken in
      let fresh : now < s.expires_at = ground (arith, e) in
      subst
        (λ t.
          (found s ≡ found t)
          × ((now < t.expires_at) × (db.user_of t.user_id ≡ found l.user) × MayAct db l))
        rows.1 (refl, (fresh, rows.0, rows.2))
]

token-rows :
    (hash_token : Text → Text) (db : Database) (now : ℕ) (token : Option Text) (l : AuthUser)
    → auth_token hash_token db now token ≡ authenticated l
    → (t : Text) × (token ≡ some t)
      × (db.session_of (hash_token t) ≡ found l.session)
      × IsLive db now l
token-rows hash_token db now none l h = cc
token-rows hash_token db now (some t) l h = elim (Bool-cases db.is_configured) [
  | inl e ↦
      let rows = session_of-rows db now (db.session_of (hash_token t)) l (ground (arith, e, h)) in
      (t, refl, rows.0, rows.1)
  | inr e ↦
      let refused : auth_token hash_token db now (some t) ≡ unavailable = rw e refl in
      cc (sym refused ∙ h)
]

-- Whoever is logged in has sent a token whose hash is the key of a session that has not expired,
-- and the session's user is active and not deleted, and the user's actor neither deleted nor
-- suspended.
pub authenticate-IsLogin :
    (hash_token : Text → Text) (db : Database) (now : ℕ) (req : Request) (l : AuthUser)
    → authenticate hash_token db now req ≡ authenticated l
    → IsLogin hash_token db now req l
unfolding authenticate
authenticate-IsLogin hash_token db now req l h =
    token-rows hash_token db now (session_token req) l h

-- Such a request is let in, when there is a database.
pub IsLogin-authenticated :
    (hash_token : Text → Text) (db : Database) (now : ℕ) (req : Request) (l : AuthUser)
    → db.is_configured ≡ true
    → IsLogin hash_token db now req l
    → authenticate hash_token db now req ≡ authenticated l
unfolding authenticate
IsLogin-authenticated hash_token db now req l conf
      (token, sent, row, (time, user, (actor, active, alive, present, free))) =
    let fresh : leb l.session.expires_at now ≡ false = ground (arith, time) in
    rw (sent, conf, row, fresh, user, alive, active, actor, present, free) refl
