-- ===== src/Accounts/Resets/Once.antt =====
-- A reset token is used once (crates/server/src/auth.rs, `reset`; crates/db/src/email_token.rs,
-- `consume`).
use mathlib.Core.Path.{subst}
use toot_tok.Common.{
  ℕ, ◌≤◌, ◌≡◌, refl, sym, true, false, ltb, none, List, [], ◌∷◌, any, All, find, arith, Bool-cases,
  inl, inr,
}
use toot_tok.Common.Table.{update_where, update_where-All}
use toot_tok.Common.Text.{Text}
use toot_tok.Db.Tokens
use toot_tok.Db.Tokens.{
  EmailToken, TokenKind, password_reset, is_outstanding, same_kind, is_usable, used,
  invalidate_for_user,
}
use toot_tok.Accounts.{Env, Accounts, problem, byte_length, token_consume}
use toot_tok.Accounts.Resets.{owner_unread, consumed, reset, reset_steps, reset_user}
use toot_tok.Accounts.Resets.Revocation.{no_content, reset-HasRun}
use toot_tok.Accounts.Steps.{applied}

-- No later lookup of the token finds the row.
abbrev IsSpent : Text → TokenKind → ℕ → EmailToken → Type 0
IsSpent hash kind now t = (later : ℕ) → now ≤ later → is_usable hash kind later t ≡ false

used-IsSpent :
    (hash : Text) (kind : TokenKind) (now at_time : ℕ) (t : EmailToken)
    → IsSpent hash kind now (used at_time t)
used-IsSpent hash kind now at_time t later h = ground arith

expired-IsSpent :
    (hash : Text) (kind : TokenKind) (now : ℕ) (t : EmailToken)
    → is_usable hash kind now t ≡ false
    → IsSpent hash kind now t
expired-IsSpent hash kind now t h later k = ground (arith, h, k)

consume-IsSpent :
    (hash : Text) (kind : TokenKind) (now : ℕ) (ts : List EmailToken)
    → All (IsSpent hash kind now) (update_where (is_usable hash kind now) (used now) ts)
unfolding update_where
consume-IsSpent hash kind now [] = tt
consume-IsSpent hash kind now (t ∷ ts) = elim (Bool-cases (is_usable hash kind now t)) [
  | inl x ↦ rw x (used-IsSpent hash kind now now t, consume-IsSpent hash kind now ts)
  | inr x ↦ rw x (expired-IsSpent hash kind now t x, consume-IsSpent hash kind now ts)
]

none_usable :
    (hash : Text) (kind : TokenKind) (now later : ℕ) (ts : List EmailToken)
    → now ≤ later
    → All (IsSpent hash kind now) ts
    → (find (is_usable hash kind later) ts ≡ none)
      × (update_where (is_usable hash kind later) (used later) ts ≡ ts)
      × (any (is_usable hash kind later) ts ≡ false)
unfolding update_where
none_usable hash kind now later [] h k = (refl, refl, refl)
none_usable hash kind now later (t ∷ ts) h k =
    let rest = none_usable hash kind now later ts h k.1 in
    let spent = k.0 later h in
    (rw (spent, rest.0) refl, rw (spent, rest.1) refl, rw (spent, rest.2) refl)

-- After a reset that is answered 204, no row of the token can be found at any later time.
reset-IsSpent :
    (e : Env) (a after : Accounts) (token new_password : Text)
    → reset e a token new_password ≡ (after, no_content)
    → All (IsSpent (e.hash_token token) password_reset e.now) after.tokens
unfolding applied reset_steps consumed Tokens.consume invalidate_for_user
reset-IsSpent e a after token pw h =
    let run = reset-HasRun e a after token pw h in
    let hash = e.hash_token token in
    subst (λ b. All (IsSpent hash password_reset e.now) b.tokens) (sym run.4)
      (update_where-All (IsSpent hash password_reset e.now) (is_outstanding run.0.id password_reset)
        (used e.now) _ (λ t _. used-IsSpent hash password_reset e.now e.now t)
        (consume-IsSpent hash password_reset e.now a.tokens))

-- A reset token works once: after a reset that is answered 204, a request with the same token at
-- any later time is answered 400 and changes nothing, whatever was done to the tables except to
-- the tokens, and whatever the new password, when the database answers and the password is long
-- enough.
pub reset_once :
    (e later : Env) (a after b : Accounts) (token new_password other : Text)
    → reset e a token new_password ≡ (after, no_content)
    → b.tokens ≡ after.tokens
    → e.now ≤ later.now
    → later.hash_token token ≡ e.hash_token token
    → later.has_pool ≡ true
    → later.fails token_consume ≡ false
    → ltb (byte_length other) 10 ≡ false
    → reset later b token other ≡ (b, problem 400 "invalid token")
unfolding reset owner_unread consumed Tokens.consume reset_user
reset_once e later a after b token pw other h kept time same pool read strong =
    let spent =
      subst (All (IsSpent (e.hash_token token) password_reset e.now)) (sym kept)
        (reset-IsSpent e a after token pw h) in
    let gone =
      none_usable (e.hash_token token) password_reset e.now later.now b.tokens time spent in
    rw (pool, strong, read, same, gone.0, gone.1, gone.2) refl
