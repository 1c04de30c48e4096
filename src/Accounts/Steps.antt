-- ===== src/Accounts/Steps.antt =====
-- Statements that run one after another (crates/server/src/auth.rs, crates/server/src/accounts.rs),
-- and the database as the extractor of crates/server/src/session.rs reads it.
use toot_tok.Common.{
  ◌≡◌, ◌≢◌, refl, ◌∙◌, ap, Bool, true, false, Option, none, some, is_some, if◌then◌else◌, List, [],
  ◌∷◌, Bool-cases, inl, inr,
}
use toot_tok.Db.Actors
use toot_tok.Db.Actors.{Actor}
use toot_tok.Db.Tokens.{fetch_session}
use toot_tok.Db.Users
use toot_tok.Db.Users.{User, is_active}
use toot_tok.Sessions.{Session, Database, Query, missing, found}
use toot_tok.Sessions
use toot_tok.Accounts.{Env, Accounts, Statement, Response, run_all, answer_all, database_error}

-- All the statements.
unfoldable pub applied : Accounts → List (Statement × (Accounts → Accounts)) → Accounts
applied a [] = a
applied a ((s, f) ∷ rest) = applied (f a) rest

-- When all statements ran, their effects are there.
run_all-applied :
    (e : Env) (a : Accounts) (l : List (Statement × (Accounts → Accounts)))
    → (run_all e a l).1 ≡ true
    → (run_all e a l).0 ≡ applied a l
unfolding run_all applied
run_all-applied e a [] h = refl
run_all-applied e a ((s, f) ∷ rest) h = elim (Bool-cases (e.fails s)) [
  | inl x ↦ let stopped : false ≡ true = rw (← h, x) refl in cc stopped
  | inr x ↦ rw x (run_all-applied e (f a) rest (rw (← h, x) refl))
]

all_ran :
    (p : Accounts × Bool) (after : Accounts) (r : Response)
    → database_error ≢ r
    → answer_all p r ≡ (after, r)
    → (p.1 ≡ true) × (after ≡ p.0)
all_ran (a, true) after r apart h = (refl, cc h)
all_ran (a, false) after r apart h = absurd (apart (cc h))

-- The answer of the success is given only when all statements ran.
pub answer_all-applied :
    (e : Env) (a after : Accounts) (l : List (Statement × (Accounts → Accounts))) (r : Response)
    → database_error ≢ r
    → answer_all (run_all e a l) r ≡ (after, r)
    → after ≡ applied a l
answer_all-applied e a after l r apart h =
    let ran = all_ran (run_all e a l) after r apart h in ran.1 ∙ run_all-applied e a l ran.0

-- A guard whose own answer is another one was passed.
pub past_guard {ℓ} :
    {S : Type ℓ} (b : Bool) (p q o : S × Response)
    → p.1 ≢ o.1
    → (if b then p else q) ≡ o
    → (b ≡ false) × (q ≡ o)
past_guard true p q o apart h = absurd (apart (ap (λ t. t.1) h))
past_guard false p q o apart h = (refl, h)

pub past_test {ℓ} :
    {S : Type ℓ} (b : Bool) (p q o : S × Response)
    → p.1 ≢ o.1
    → (if b then q else p) ≡ o
    → (b ≡ true) × (q ≡ o)
past_test true p q o apart h = (refl, h)
past_test false p q o apart h = absurd (apart (ap (λ t. t.1) h))

abbrev query {ℓ} : {A : Type ℓ} → Option A → Query A
query none = missing
query (some a) = found a

abbrev pub user_view : User → Sessions.User
user_view u = record {
  actor_id = u.actor_id;
  is_active = is_active u.status;
  is_deleted = is_some u.deleted_at;
}

abbrev pub actor_view : Actor → Sessions.Actor
actor_view x = record { is_deleted = is_some x.deleted_at; is_suspended = is_some x.suspended_at }

abbrev viewed {ℓ κ} : {A : Type ℓ} {B : Type κ} → (A → B) → Option A → Query B
viewed f none = missing
viewed f (some a) = found (f a)

-- The queries of the extractor on the tables.
abbrev pub database_of : Accounts → Database
database_of a = record {
  is_configured = true;
  session_of = λ id. query (fetch_session a.sessions id);
  user_of = λ id. viewed user_view (Users.fetch_by_id a.users id);
  actor_of = λ id. viewed actor_view (Actors.fetch_by_id a.actors id);
}
