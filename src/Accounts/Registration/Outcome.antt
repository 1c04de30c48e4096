-- ===== src/Accounts/Registration/Outcome.antt =====
-- How a registration ends (crates/server/src/auth.rs, `register`).
use toot_tok.Common.{
  ℕ, suc, ◌≡◌, refl, Bool, true, false, ltb, Option, none, some, List, [], ◌∷◌, ◌++◌, All, ==_refl,
  Bool-cases, inl, inr, ◌⊎◌, if◌then◌else◌, String,
}
use toot_tok.Common.Table.{delete_where}
use toot_tok.Common.Text.{Text, trim}
use toot_tok.Db.Actors
use toot_tok.Db.Actors.{Actor, NewActor}
use toot_tok.Db.Tokens.{EmailToken, verify}
use toot_tok.Db.Users
use toot_tok.Db.Users.{User, UserStatus, active, pending, user_row}
use toot_tok.Accounts.{
  Env, Accounts, Response, problem, reply, issue_email_token, with_mail, Mail, token_insert,
  mode_read, actor_insert, user_insert, actor_delete, byte_length,
}
use toot_tok.Accounts.Registration.{
  RegisterRequest, register, register_valid, register_mode, register_hash, register_keys,
  register_actor, insert_actor, register_user, insert_user, new_actor, email_given,
  validate_register, registration_mode, Mode, open_to_all, approval, invite, unknown, is_username,
  is_acceptable, created, welcome, without_actor,
}

-- The actor of the request is left behind without a user, since its deletion fails.
abbrev IsLeftBehind : Env → Accounts → RegisterRequest → List Actor → Type 0
IsLeftBehind e a req actors =
    (keys : Text × Text) × (e.fails actor_delete ≡ true)
    × (actors ≡ a.actors ++ Actors.local_row a.next_actor (new_actor e req keys.0 keys.1) ∷ [])

-- A problem is answered, and users, tokens and mail are as they were; so are the actors, unless the
-- request's one is left behind.
abbrev IsKept : Env → Accounts → RegisterRequest → Accounts × Response → Type 0
IsKept e a req o =
    (o.0.users ≡ a.users)
    × ((o.0.actors ≡ a.actors) ⊎ IsLeftBehind e a req o.0.actors)
    × (o.0.tokens ≡ a.tokens)
    × (o.0.sent ≡ a.sent)
    × ((status : ℕ) × (title : String) × (o.1 ≡ problem status title))

-- The request has one more actor with its user, under the name and the address of the request.
abbrev IsJoined :
    Env → Accounts → RegisterRequest → UserStatus → Text → Accounts × Response → Type 0
IsJoined e a req status hash o =
    (keys : Text × Text) × (e.keypair ≡ some keys)
    × (o.0.actors ≡ a.actors ++ Actors.local_row a.next_actor (new_actor e req keys.0 keys.1) ∷ [])
    × (o.0.users
        ≡ a.users ++ user_row a.next_user a.next_actor (email_given req.email) hash status ∷ [])
    × (o.1
        ≡ reply 201
            (some (created (Actors.local_row a.next_actor (new_actor e req keys.0 keys.1)) status))
            none)

-- The mode lets the status be given.
abbrev Lets : Mode → UserStatus → Type 0
Lets mode active = mode ≡ open_to_all
Lets mode pending = mode ≡ approval

pub IsDone : Env → Accounts → RegisterRequest → Accounts × Response → Type 0
IsDone e a req o =
    IsKept e a req o
    ⊎ ((status : UserStatus) × (hash : Text) × (validate_register req ≡ none)
        × Lets (registration_mode e.registration_mode) status
        × (e.hash_password req.password ≡ some hash)
        × IsJoined e a req status hash o)

-- No row has the next id.
abbrev pub IsFresh : Accounts → Type 0
IsFresh a = All (λ x. Actors.has_id a.next_actor x ≡ false) a.actors

abbrev SameRows : Accounts → Accounts → Type 0
SameRows a b = (b.users ≡ a.users) × (b.actors ≡ a.actors)

mail_keeps_rows :
    (a : Accounts) (m : Mail) (o : Option (List EmailToken)) → SameRows a (with_mail a m o)
unfolding with_mail
mail_keeps_rows a m none = (refl, refl)
mail_keeps_rows a m (some tokens) = (refl, refl)

issue_keeps_rows :
    (e : Env) (a : Accounts) (id : ℕ) (email : Text)
    → SameRows a (issue_email_token e a id email verify)
unfolding issue_email_token
issue_keeps_rows e a id email = elim (Bool-cases (e.fails token_insert)) [
  | inl x ↦ rw x (refl, refl)
  | inr x ↦ rw x (mail_keeps_rows a _ _)
]

welcome_keeps_rows :
    (e : Env) (a : Accounts) (id : ℕ) (o : Option Text) (status : UserStatus)
    → SameRows a (welcome e a id o status)
welcome_keeps_rows e a id none status = (refl, refl)
welcome_keeps_rows e a id (some email) pending = (refl, refl)
welcome_keeps_rows e a id (some email) active = issue_keeps_rows e a id email

-- The rows that are left when the added one is deleted again.
deleted_again :
    (id : ℕ) (xs : List Actor) (x : Actor)
    → All (λ y. Actors.has_id id y ≡ false) xs
    → Actors.has_id id x ≡ true
    → delete_where (Actors.has_id id) (xs ++ x ∷ []) ≡ xs
unfolding delete_where
deleted_again id [] x h k = rw k refl
deleted_again id (y ∷ ys) x h k = rw (h.0, deleted_again id ys x h.1 k) refl

either_way :
    (P : Accounts × Response → Type 0) (b : Bool) (p q : Accounts × Response)
    → P p
    → P q
    → P (if b then p else q)
either_way P true p q x y = x
either_way P false p q x y = y

module _ (e : Env) (a : Accounts) (req : RegisterRequest) (fresh : IsFresh a) where
  kept : (status : ℕ) (title : String) → IsKept e a req (a, problem status title)
  kept status title = (refl, inl refl, refl, refl, (status, title, refl))

  module _ (status : UserStatus) (hash : Text) (keys : Text × Text)
      (hashed : e.hash_password req.password ≡ some hash) (paired : e.keypair ≡ some keys) where
    abbrev Ends : Accounts × Response → Type 0
    Ends o = IsKept e a req o ⊎ IsJoined e a req status hash o

    abbrev row : Actor
    row = Actors.local_row a.next_actor (new_actor e req keys.0 keys.1)

    abbrev with_actor : Accounts
    with_actor = record a { actors = a.actors ++ row ∷ []; next_actor = suc a.next_actor }

    taken_back :
        (code : ℕ) (title : String)
        → IsKept e a req (without_actor e with_actor a.next_actor, problem code title)
    unfolding Actors.delete_by_id
    taken_back code title = elim (Bool-cases (e.fails actor_delete)) [
      | inl x ↦ rw x (refl, inr (keys, refl, refl), refl, refl, (code, title, refl))
      | inr x ↦
          rw (x, deleted_again a.next_actor a.actors row fresh (==_refl a.next_actor))
            (refl, inl refl, refl, refl, (code, title, refl))
    ]

    users_inserted :
        (b : Bool)
        → Ends (
            insert_user e with_actor row (email_given req.email) status (
              if b
              then none
              else some (
                  a.users
                  ++ user_row a.next_user a.next_actor (email_given req.email) hash status ∷ [])))
    unfolding insert_user
    users_inserted true = inl (taken_back 409 "email taken")
    users_inserted false =
        let same = welcome_keeps_rows e _ a.next_user (email_given req.email) status in
        inr (keys, paired, same.1, same.0, refl)

    user_registered : Ends (register_user e with_actor req status hash row)
    unfolding register_user Users.create_with_status
    user_registered =
        either_way Ends (e.fails user_insert) _ _ (inl (taken_back 500 "database error"))
          (users_inserted _)

    actors_inserted :
        (b : Bool)
        → Ends (
            insert_actor e a req status hash
              (new_actor e req keys.0 keys.1)
              (if b then none else some (a.actors ++ row ∷ [])))
    unfolding insert_actor
    actors_inserted true = inl (kept 409 "username taken")
    actors_inserted false = user_registered

    actor_registered : Ends (register_actor e a req status hash (new_actor e req keys.0 keys.1))
    unfolding register_actor Actors.create
    actor_registered =
        either_way Ends (e.fails actor_insert) _ _ (inl (kept 500 "database error"))
          (actors_inserted _)

  keys_made :
      (status : UserStatus) (hash : Text) (o : Option (Text × Text))
      → e.hash_password req.password ≡ some hash
      → e.keypair ≡ o
      → IsKept e a req (register_keys e a req status hash o)
        ⊎ IsJoined e a req status hash (register_keys e a req status hash o)
  unfolding register_keys
  keys_made status hash none h k = inl (kept 500 "key generation failed")
  keys_made status hash (some (public_key, private_key)) h k =
      actor_registered status hash (public_key, private_key) h k

  abbrev Hashes : UserStatus → Accounts × Response → Type 0
  Hashes status o =
      IsKept e a req o
      ⊎ ((hash : Text) × (e.hash_password req.password ≡ some hash)
          × IsJoined e a req status hash o)

  hash_made :
      (status : UserStatus) (o : Option Text)
      → e.hash_password req.password ≡ o
      → Hashes status (register_hash e a req status o)
  unfolding register_hash
  hash_made status none h = inl (kept 500 "password hashing failed")
  hash_made status (some hash) h = elim (keys_made status hash e.keypair h refl) [
    | inl x ↦ inl x
    | inr x ↦ inr (hash, h, x)
  ]

  abbrev Follows : Mode → Accounts × Response → Type 0
  Follows mode o =
      IsKept e a req o
      ⊎ ((status : UserStatus) × (hash : Text) × Lets mode status
          × (e.hash_password req.password ≡ some hash)
          × IsJoined e a req status hash o)

  granted :
      (mode : Mode) (status : UserStatus) (o : Accounts × Response)
      → Lets mode status
      → Hashes status o
      → Follows mode o
  granted mode status o l (inl x) = inl x
  granted mode status o l (inr (hash, h, x)) = inr (status, hash, l, h, x)

  mode_followed : (mode : Mode) → Follows mode (register_mode e a req mode)
  unfolding register_mode
  mode_followed open_to_all =
      granted open_to_all active (register_hash e a req active (e.hash_password req.password)) refl
        (hash_made active (e.hash_password req.password) refl)
  mode_followed approval =
      granted approval pending (register_hash e a req pending (e.hash_password req.password)) refl
        (hash_made pending (e.hash_password req.password) refl)
  mode_followed invite = inl (kept 403 "registration closed")
  mode_followed unknown = inl (kept 500 "invalid setting")

  -- The answer to what the request lacks is a problem.
  abbrev IsRefusal : Option Response → Type 0
  IsRefusal none = Unit
  IsRefusal (some r) = (status : ℕ) × (title : String) × (r ≡ problem status title)

  refused_way :
      (b : Bool) (o p : Option Response)
      → IsRefusal o
      → IsRefusal p
      → IsRefusal (if b then o else p)
  refused_way true o p x y = x
  refused_way false o p x y = y

  validated : IsRefusal (validate_register req)
  unfolding validate_register
  validated =
      refused_way (is_username (trim req.username)) _ _
        (refused_way (ltb (byte_length req.password) 10) _ _ (400, "weak password", refl)
          (refused_way (is_acceptable (email_given req.email)) _ _ tt (400, "invalid email", refl)))
        (400, "invalid username", refl)

  valid_followed :
      (o : Option Response)
      → validate_register req ≡ o
      → IsRefusal o
      → IsDone e a req (register_valid e a req o)
  unfolding register_valid IsDone
  valid_followed (some r) h k = inl (refl, inl refl, refl, refl, k)
  valid_followed none h k =
      either_way (IsDone e a req) (e.fails mode_read) _ _ (inl (kept 500 "database error"))
        (elim (mode_followed (registration_mode e.registration_mode)) [
          | inl y ↦ inl y
          | inr (status, hash, l, y, z) ↦ inr (status, hash, h, l, y, z)
        ])

  -- A registration either answers a problem and adds no user, token or mail, nor an actor, except
  -- that the actor it had added is left behind when the statement that takes it back fails; or it
  -- adds one actor and one user for it: the request was valid, the instance's mode gives the status,
  -- the user has the hash of the password and the address, trimmed, and the actor has the keys and
  -- the name exactly as it was sent, also when spaces stand around it. No actor has the next id.
  pub register-IsDone : IsDone e a req (register e a req)
  unfolding register IsDone
  register-IsDone =
      either_way (IsDone e a req) e.has_pool _ _
        (valid_followed (validate_register req) refl validated)
        (inl (kept 503 "database unavailable"))
