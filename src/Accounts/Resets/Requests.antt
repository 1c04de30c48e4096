-- ===== src/Accounts/Resets/Requests.antt =====
-- What a request for a reset shows and does (crates/server/src/auth.rs, `request_reset`).
use toot_tok.Common.{
  ◌≡◌, refl, Bool, true, false, not, ◌&&◌, Option, none, some, is_none, List, [], ◌∷◌, ◌++◌, inl,
  inr, ◌⊎◌, if◌then◌else◌,
}
use toot_tok.Common.Text.{Text, trim}
use toot_tok.Db.Tokens.{EmailToken, password_reset}
use toot_tok.Db.Users
use toot_tok.Db.Users.{User, is_active}
use toot_tok.Accounts.{
  Env, Accounts, Response, issue_email_token, with_mail, token_mail, token_insert, user_read,
}
use toot_tok.Accounts.Emails.{is_valid_email}
use toot_tok.Accounts.Resets.{request_reset, reset_for, mail_reset}

-- Nothing is done, or the user, who is active and not deleted, is mailed the token at its address.
abbrev pub IsMailed : Env → Accounts → Option User → Accounts → Type 0
IsMailed e a owner after =
    (after ≡ a)
    ⊎ ((u : User) × (address : Text) × (tokens : List EmailToken) × (owner ≡ some u)
        × (u.email ≡ some address)
        × ((is_none u.deleted_at && is_active u.status) ≡ true)
        × (after ≡ record a {
          tokens = tokens;
          sent = a.sent ++ token_mail address password_reset e.token ∷ [];
        }))

either_after :
    (P : Accounts → Type 0) (b : Bool) (p q : Accounts)
    → (b ≡ true → P p)
    → P q
    → P (if b then p else q)
either_after P true p q x y = x refl
either_after P false p q x y = y

stored_mail :
    (e : Env) (a : Accounts) (u : User) (address : Text) (o : Option (List EmailToken))
    → u.email ≡ some address
    → (is_none u.deleted_at && is_active u.status) ≡ true
    → IsMailed e a (some u) (with_mail a (token_mail address password_reset e.token) o)
unfolding with_mail
stored_mail e a u address none h k = inl refl
stored_mail e a u address (some tokens) h k = inr (u, address, tokens, refl, h, k, refl)

mailed :
    (e : Env) (a : Accounts) (u : User) (o : Option Text)
    → u.email ≡ o
    → (is_none u.deleted_at && is_active u.status) ≡ true
    → IsMailed e a (some u) (mail_reset e a u.id o)
unfolding mail_reset issue_email_token
mailed e a u none h k = inl refl
mailed e a u (some address) h k =
    either_after (IsMailed e a (some u)) (e.fails token_insert) _ _ (λ _. inl refl)
      (stored_mail e a u address _ h k)

posted : (e : Env) (a : Accounts) (o : Option User) → IsMailed e a o (reset_for e a o)
unfolding reset_for
posted e a none = inl refl
posted e a (some u) =
    either_after (IsMailed e a (some u)) (is_none u.deleted_at && is_active u.status) _ _
      (λ k. mailed e a u u.email refl k) (inl refl)

abbrev pub looked_up : Env → Accounts → Text → Option User
looked_up e a email = if e.fails user_read then none else Users.fetch_by_email a.users (trim email)

module _ (e : Env) (a : Accounts) (owner : Option User) where
  abbrev Reveals : Accounts × Response → Accounts × Response → Type 0
  Reveals o p = (o.1 ≡ p.1) × IsMailed e a owner o.0

  both_ways :
      (b : Bool) (o p o' p' : Accounts × Response)
      → Reveals o o'
      → Reveals p p'
      → Reveals (if b then o else p) (if b then o' else p')
  both_ways true o p o' p' x y = x
  both_ways false o p o' p' x y = y

-- The answer to a request for a reset says nothing about the accounts: it is the same whatever the
-- tables hold. The request changes nothing, or mails one token, to the address in the row of an
-- active user who is found under the address that was sent.
pub request_reset_reveals_nothing :
    (e : Env) (a b : Accounts) (email : Text)
    → ((request_reset e a email).1 ≡ (request_reset e b email).1)
      × IsMailed e a (looked_up e a email) (request_reset e a email).0
unfolding request_reset
request_reset_reveals_nothing e a b email =
    let owner = looked_up e a email in
    both_ways e a owner (not e.has_pool) _ _ _ _ (refl, inl refl)
      (both_ways e a owner (is_valid_email (trim email)) _ _ _ _ (refl, posted e a owner)
        (refl, inl refl))
