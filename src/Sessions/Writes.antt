-- ===== src/Sessions/Writes.antt =====
-- What a state-changing request with a session has shown (crates/server/src/csrf.rs and
-- crates/server/src/session.rs).
use toot_tok.Common.{
  ℕ, ◌≡◌, refl, sym, ap, ◌∙◌, true, false, ◌||◌, Option, none, some, arith, Bool-cases, not, leb,
  inl, inr, ◌⊎◌,
}
use toot_tok.Common.Text.{Text}
use toot_tok.Sessions.{
  Session, Request, Database, Query, failed, missing, found, AuthUser, authenticated, unauthorized,
  authenticate, auth_token, auth_session, auth_user, auth_actor, passes, csrf, csrf_session,
  csrf_token_check, is_read, is_exempt, provided, session_token, constant_time_eq, User, Actor,
}
use toot_tok.Sessions.Compare.{constant_time_eq_iff}

actor_session :
    (s : Session) (u : User) (q : Query Actor) (user : AuthUser)
    → auth_actor s u q ≡ authenticated user
    → user.session ≡ s
actor_session s u failed user h = cc
actor_session s u missing user h = cc
actor_session s u (found a) user h = ground (arith, h)

user_session :
    (db : Database) (s : Session) (q : Query User) (user : AuthUser)
    → auth_user db s q ≡ authenticated user
    → user.session ≡ s
user_session db s failed user h = cc
user_session db s missing user h = cc
user_session db s (found u) user h = elim (Bool-cases (u.is_deleted || not u.is_active)) [
  | inl e ↦
      let refused : auth_user db s (found u) ≡ unauthorized = rw e refl in cc (sym refused ∙ h)
  | inr e ↦ actor_session s u (db.actor_of u.actor_id) user (ground (arith, e, h))
]

-- The session that a login goes by is the row that its own query finds.
login_session :
    (db : Database) (now : ℕ) (q : Query Session) (user : AuthUser)
    → auth_session db now q ≡ authenticated user
    → q ≡ found user.session
login_session db now failed user h = cc
login_session db now missing user h = cc
login_session db now (found s) user h = elim (Bool-cases (leb s.expires_at now)) [
  | inl e ↦ ground (arith, e, h)
  | inr e ↦
      let login : auth_user db s (db.user_of s.user_id) ≡ authenticated user =
        ground (arith, e, h) in
      ap (λ t. found t) (sym (user_session db s (db.user_of s.user_id) user login))
]

-- What a check that passed saw: a row whose token the request shows, or no row.
abbrev pub Saw : Request → Query Session → Type 0
Saw req q =
    ((s : Session) × (q ≡ found s) × (provided req ≡ s.csrf_token)) ⊎ ((q ≡ failed) ⊎ (q ≡ missing))

passed-Saw : (req : Request) (q : Query Session) → csrf_session req q ≡ passes → Saw req q
passed-Saw req failed k = inr (inl refl)
passed-Saw req missing k = inr (inr refl)
passed-Saw req (found s) k =
    let equal : constant_time_eq (provided req) s.csrf_token ≡ true = ground (arith, k) in
    inl (s, refl, (constant_time_eq_iff (provided req) s.csrf_token).0 equal)

-- The query of the check, with a session's token.
abbrev IsSeen : (Text → Text) → Database → Database → Request → Option Text → AuthUser → Type 0
IsSeen hash_token checked read req token user =
    (t : Text) × (token ≡ some t)
    × (read.session_of (hash_token t) ≡ found user.session)
    × Saw req (checked.session_of (hash_token t))

token_checked :
    (hash_token : Text → Text) (checked read : Database) (now : ℕ) (req : Request)
    (token : Option Text) (user : AuthUser)
    → checked.is_configured ≡ read.is_configured
    → auth_token hash_token read now token ≡ authenticated user
    → csrf_token_check hash_token checked req token ≡ passes
    → IsSeen hash_token checked read req token user
token_checked hash_token checked read now req none user same h k = cc
token_checked hash_token checked read now req (some token) user same h k =
    elim (Bool-cases read.is_configured) [
      | inl e ↦ (
        token,
        refl,
        login_session read now (read.session_of (hash_token token)) user (ground (arith, e, h)),
        passed-Saw req (checked.session_of (hash_token token)) (ground (arith, e, same, k)),
      )
      | inr e ↦ ground (arith, e, h)
    ]

-- A request that changes state, on no exempt path, and that both passes the CSRF check and logs a
-- user in, carries the CSRF token of that user's session, unless the check's own query for the
-- session answered an error or no row. The check and the extractor each query the database, which
-- both have or both lack, and may get other answers; when both find a row of the session, the two
-- rows have one CSRF token.
pub write_shows_token :
    (hash_token : Text → Text) (checked read : Database) (now : ℕ) (req : Request) (user : AuthUser)
    → checked.is_configured ≡ read.is_configured
    → ((id : Text) (s r : Session)
        → checked.session_of id ≡ found s
        → read.session_of id ≡ found r
        → s.csrf_token ≡ r.csrf_token)
    → is_read req.method ≡ false
    → is_exempt req.path ≡ false
    → csrf hash_token checked req ≡ passes
    → authenticate hash_token read now req ≡ authenticated user
    → (provided req ≡ user.session.csrf_token)
      ⊎ ((token : Text) × (session_token req ≡ some token)
          × ((checked.session_of (hash_token token) ≡ failed)
              ⊎ (checked.session_of (hash_token token) ≡ missing)))
unfolding csrf authenticate
write_shows_token hash_token checked read now req user same rows writes guarded passed login =
    let seen =
      token_checked hash_token checked read now req (session_token req) user same login
        (sym (rw (writes, guarded) refl) ∙ passed) in
    elim seen.3 [
      | inl (s, found_row, shown) ↦
          inl (shown ∙ rows (hash_token seen.0) s user.session found_row seen.2)
      | inr failing ↦ inr (seen.0, seen.1, failing)
    ]
