-- ===== src/Accounts/Resets/Lockout.antt =====
-- Who can be logged in after a reset (crates/server/src/auth.rs, `reset` and `login`;
-- crates/server/src/session.rs).
use mathlib.Core.Path.{subst}
use toot_tok.Common.{
  ℕ, ◌≡◌, sym, ◌∙◌, ap, true, false, some, List, [], ◌∷◌, All, find-All, ◌==◌, arith, Bool-cases,
  Option-cases, inl, inr, ◌⊎◌,
}
use toot_tok.Common.Table.{All-append}
use toot_tok.Common.Text.{Text}
use toot_tok.Db.Tokens.{password_reset, is_session_of, fetch_session, is_session}
use toot_tok.Db.Users.{User}
use toot_tok.Sessions.{Session, Request, AuthUser, authenticated, authenticate, found}
use toot_tok.Sessions.Access.{authenticate-IsLogin}
use toot_tok.Accounts.{Env, Accounts}
use toot_tok.Accounts.Login.{LoginRequest, login, find_user_for_login}
use toot_tok.Accounts.Login.Tried.{login-IsAttempt, find_user_for_login-All}
use toot_tok.Accounts.Login.Opened.{IsLet, login-IsLet}
use toot_tok.Accounts.Resets.{consumed, reset}
use toot_tok.Accounts.Resets.Revocation.{no_content, IsRevoked, reset-IsRevoked}
use toot_tok.Accounts.Steps.{database_of}

-- Logins one after another, each with what it meets.
unfoldable pub logins : Accounts → List (Env × LoginRequest) → Accounts
logins a [] = a
logins a ((e, req) ∷ rest) = logins (login e a req).0 rest

-- One of the logins shows a password that the hash accepts.
pub Shows : Text → List (Env × LoginRequest) → Type 0
Shows hash [] = ⊥
Shows hash ((e, req) ∷ rest) = (e.verify_password req.password hash ≡ true) ⊎ Shows hash rest

-- The rows of the user all have the hash.
abbrev HasHash : ℕ → Text → Accounts → Type 0
HasHash id hash a = All (λ u. (u.id == id) ≡ true → u.password_hash ≡ some hash) a.users

-- The user has no session.
abbrev IsSessionless : ℕ → Accounts → Type 0
IsSessionless id a = All (λ s. is_session_of id s ≡ false) a.sessions

-- What one login makes of the user who is out.
abbrev IsKept : ℕ → Text → Env → LoginRequest → Accounts → Type 0
IsKept id hash e req b =
    HasHash id hash b × (IsSessionless id b ⊎ (e.verify_password req.password hash ≡ true))

opened_keeps :
    (e : Env) (a after : Accounts) (req : LoginRequest) (id : ℕ) (hash : Text)
    → HasHash id hash a
    → IsSessionless id a
    → IsLet e a req (find_user_for_login a req.username_or_email) after
    → IsKept id hash e req after
opened_keeps e a after req id hash h out
      (u, f, (own, alive, active, row, right), actor, (free, same)) =
    subst (IsKept id hash e req) (sym same) (
      h,
      elim (Bool-cases (u.id == id)) [
        | inl x ↦
            let hashes : some own ≡ some hash =
              sym row
              ∙ find_user_for_login-All (λ v. (v.id == id) ≡ true → v.password_hash ≡ some hash) a
                  req.username_or_email u h f x in
            let equal : own ≡ hash = cc hashes in
            inr (subst (λ t. e.verify_password req.password t ≡ true) equal right)
        | inr x ↦ inl (All-append (λ s. is_session_of id s ≡ false) a.sessions _ out (x, tt))
      ],
    )

login_keeps :
    (e : Env) (a : Accounts) (req : LoginRequest) (id : ℕ) (hash : Text)
    → HasHash id hash a
    → IsSessionless id a
    → IsKept id hash e req (login e a req).0
login_keeps e a req id hash h out = elim (login-IsAttempt e a req) [
  | inl same ↦ subst (IsKept id hash e req) (sym same) (h, inl out)
  | inr (after, body, cookie, x) ↦
      subst (IsKept id hash e req) (sym (ap (λ t. t.0) x))
        (opened_keeps e a after req id hash h out (login-IsLet e a after req body cookie x))
]

-- After the logins the user is still out, or one of them showed the password.
logins_keep :
    (ls : List (Env × LoginRequest)) (a : Accounts) (id : ℕ) (hash : Text)
    → HasHash id hash a
    → IsSessionless id a
    → IsSessionless id (logins a ls) ⊎ Shows hash ls
unfolding logins Shows
logins_keep [] a id hash h out = inl out
logins_keep ((e, req) ∷ rest) a id hash h out =
    let kept = login_keeps e a req id hash h out in
    elim kept.1 [
      | inr x ↦ inr (inl x)
      | inl still ↦ elim (logins_keep rest (login e a req).0 id hash kept.0 still) [
        | inl y ↦ inl y
        | inr y ↦ inr (inr y)
      ]
    ]

session_row :
    (a : Accounts) (id : Text) (s : Session)
    → (database_of a).session_of id ≡ found s
    → fetch_session a.sessions id ≡ some s
session_row a id s h = elim (Option-cases (fetch_session a.sessions id)) [
  | inl x ↦ absurd (ground (arith, x, h))
  | inr (t, x) ↦ ground (arith, x, h)
]

not_out :
    (a : Accounts) (hash_token : Text → Text) (now : ℕ) (req : Request) (l : AuthUser) (id : ℕ)
    → authenticate hash_token (database_of a) now req ≡ authenticated l
    → l.session.user_id ≡ id
    → IsSessionless id a
    → ⊥
unfolding fetch_session
not_out a hash_token now req l id login same out =
    let who = authenticate-IsLogin hash_token (database_of a) now req l login in
    let row = session_row a (hash_token who.0) l.session who.2 in
    let other =
      find-All (is_session (hash_token who.0)) (λ s. is_session_of id s ≡ false) a.sessions
        l.session row out in
    ground (arith, other, same)

-- After a reset that is answered 204, and any logins by anyone, a request is authenticated as the
-- user whose password was reset only when one of those logins showed a password that the hash of
-- the new one accepts. So none is right after the reset, whatever sessions there were before.
pub reset_locks_out :
    (e : Env) (a after : Accounts) (token new_password : Text) (u : User)
    (ls : List (Env × LoginRequest)) (hash_token : Text → Text) (now : ℕ) (req : Request)
    (l : AuthUser)
    → reset e a token new_password ≡ (after, no_content)
    → (consumed e a token password_reset).1 ≡ some u
    → authenticate hash_token (database_of (logins after ls)) now req ≡ authenticated l
    → l.session.user_id ≡ u.id
    → (hash : Text) × (e.hash_password new_password ≡ some hash) × Shows hash ls
unfolding IsRevoked
reset_locks_out e a after token pw u ls hash_token now req l h owner login same =
    let revoked = reset-IsRevoked e a after token pw h in
    let owners : some revoked.0 ≡ some u = sym revoked.2 ∙ owner in
    let id : revoked.0 ≡ u = cc owners in
    let own : l.session.user_id ≡ revoked.0.id = same ∙ ap (λ v. v.id) (sym id) in
    elim (logins_keep ls after revoked.0.id revoked.1 revoked.4.2 revoked.4.0) [
      | inl out ↦ absurd (not_out (logins after ls) hash_token now req l revoked.0.id login own out)
      | inr shown ↦ (revoked.1, revoked.3, shown)
    ]
