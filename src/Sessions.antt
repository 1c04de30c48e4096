-- ===== src/Sessions.antt =====
-- Cookie sessions and the CSRF check (crates/server/src/session.rs, crates/server/src/csrf.rs).
-- Header values and tokens are lists of bytes; `hash_token` is the SHA-256 of the password module.
pub mod Access
pub mod Compare
pub mod Writes
use Prim.Native.Nat.{bit_or, bit_xor}
use toot_tok.Common.{
  ℕ, Bool, true, false, ◌||◌, ◌&&◌, not, leb, ◌==◌, if◌then◌else◌, Option, none, some, is_some,
  List, [], ◌∷◌, ◌++◌, length,
}
use toot_tok.Common.Text.{text_eq, Text, codes, trim, split_once, first_part, to_str}

-- A row of `sessions` (crates/db/src/session.rs).
pub record Session : Type 0 where
  pub id : Text
  pub user_id : ℕ
  pub expires_at : ℕ
  pub ip : Option Text
  pub ua : Option Text
  pub csrf_token : Text

pub record User : Type 0 where
  pub actor_id : ℕ
  pub is_active : Bool
  pub is_deleted : Bool

pub record Actor : Type 0 where
  pub is_deleted : Bool
  pub is_suspended : Bool

-- What a query for one row answers: an error, no row, or the row.
pub data Query {ℓ} (A : Type ℓ) : Type ℓ where
  failed : Query A
  missing : Query A
  found : A → Query A

pub data Method : Type 0 where
  get head options trace post put patch delete : Method

pub record Request : Type 0 where
  pub method : Method
  pub path : Text
  pub cookie : Option Text
  pub csrf_header : Option Text

-- The database, as the queries see it, and whether there is one.
pub record Database : Type 0 where
  pub is_configured : Bool
  pub session_of : Text → Query Session
  pub user_of : ℕ → Query User
  pub actor_of : ℕ → Query Actor

-- `str::split` at one character, behind the first part.
unfoldable pub parts_from : ℕ → Text → Text → List Text
parts_from d part [] = part ∷ []
parts_from d part (c ∷ s) =
    if c == d then part ∷ parts_from d [] s else parts_from d (part ++ c ∷ []) s

abbrev session_cookie : Text
session_cookie = codes "toottok_session"

-- The loop over the pairs of the `Cookie` header. A pair of the right name without `=` ends it
-- with nothing.
find_token : List Text → Option Text
unfolding split_once
find_token [] = none
find_token (pair ∷ pairs) = elim (split_once b'=' (trim pair)) [
  | some (name, value) ↦ if text_eq name session_cookie then some (trim value) else find_token pairs
  | none ↦ if text_eq (trim pair) session_cookie then none else find_token pairs
]

abbrev text_of : Option Text → Option Text
text_of none = none
text_of (some v) = to_str v

abbrev token_in : Option Text → Option Text
token_in none = none
token_in (some header) = find_token (parts_from b';' [] header)

unfoldable pub session_token : Request → Option Text
unfolding find_token
session_token req = token_in (text_of req.cookie)

pub record AuthUser : Type 0 where
  pub user : User
  pub actor : Actor
  pub session : Session

-- `deletes_session` is an expired session: its row is deleted, and the answer is 401.
pub data Auth : Type 0 where
  authenticated : AuthUser → Auth
  unauthorized unavailable database_error : Auth
  deletes_session : Text → Auth

abbrev pub auth_actor : Session → User → Query Actor → Auth
auth_actor s u failed = database_error
auth_actor s u missing = unauthorized
auth_actor s u (found a) =
    if a.is_deleted || a.is_suspended
    then unauthorized
    else authenticated (record { user = u; actor = a; session = s })

abbrev pub auth_user : Database → Session → Query User → Auth
auth_user db s failed = database_error
auth_user db s missing = unauthorized
auth_user db s (found u) =
    if u.is_deleted || not u.is_active
    then unauthorized
    else auth_actor s u (db.actor_of u.actor_id)

abbrev pub auth_session : Database → ℕ → Query Session → Auth
auth_session db now failed = database_error
auth_session db now missing = unauthorized
auth_session db now (found s) =
    if leb s.expires_at now then deletes_session s.id else auth_user db s (db.user_of s.user_id)

abbrev pub auth_token : (Text → Text) → Database → ℕ → Option Text → Auth
auth_token hash_token db now none = unauthorized
auth_token hash_token db now (some token) =
    if db.is_configured then auth_session db now (db.session_of (hash_token token)) else unavailable

-- The `AuthUser` extractor.
unfoldable pub authenticate : (Text → Text) → Database → ℕ → Request → Auth
authenticate hash_token db now req = auth_token hash_token db now (session_token req)

unfoldable pub fold_diff : ℕ → Text → Text → ℕ
fold_diff acc (x ∷ a) (y ∷ b) = fold_diff (bit_or acc (bit_xor x y)) a b
fold_diff acc _ _ = acc

unfoldable pub constant_time_eq : Text → Text → Bool
constant_time_eq a b = if length a == length b then fold_diff 0 a b == 0 else false

pub data Csrf : Type 0 where
  passes no_database mismatch : Csrf

unfoldable pub is_read : Method → Bool
is_read get = true
is_read head = true
is_read options = true
is_read trace = true
is_read _ = false

unfoldable pub is_exempt : Text → Bool
is_exempt path =
    text_eq path (codes "/api/v1/auth/login") || text_eq path (codes "/api/v1/auth/register")

abbrev pub or_empty : Option Text → Text
or_empty none = []
or_empty (some v) = v

-- The header's text, and the empty text when there is none.
abbrev pub provided : Request → Text
provided req = or_empty (text_of req.csrf_header)

abbrev pub csrf_session : Request → Query Session → Csrf
csrf_session req failed = passes
csrf_session req missing = passes
csrf_session req (found s) =
    if constant_time_eq (provided req) s.csrf_token then passes else mismatch

abbrev pub csrf_token_check : (Text → Text) → Database → Request → Option Text → Csrf
csrf_token_check hash_token db req none = passes
csrf_token_check hash_token db req (some token) =
    if db.is_configured then csrf_session req (db.session_of (hash_token token)) else no_database

-- `csrf_middleware`: whether the request goes on to its handler.
unfoldable pub csrf : (Text → Text) → Database → Request → Csrf
csrf hash_token db req =
    if is_read req.method || is_exempt req.path
    then passes
    else csrf_token_check hash_token db req (session_token req)
