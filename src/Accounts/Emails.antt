-- ===== src/Accounts/Emails.antt =====
-- The check of email addresses (crates/server/src/auth.rs, `is_valid_email`).
use toot_tok.Common.{
  ℕ, Bool, true, false, ◌&&◌, ◌||◌, not, leb, ◌==◌, if◌then◌else◌, Option, none, some, List, [],
  ◌∷◌, any, all, length,
}
use toot_tok.Common.Text.{Text, is_whitespace}
use toot_tok.Sessions.{parts_from}

abbrev pub is_letter : ℕ → Bool
is_letter c = leb b'a' c && leb c b'z' || leb b'A' c && leb c b'Z'

-- `str::rsplit_once`: at the last occurrence of the character.
unfoldable pub rsplit_once : ℕ → Text → Option (Text × Text)
rsplit_once d [] = none
rsplit_once d (c ∷ s) = elim (rsplit_once d s) [
  | some (a, b) ↦ some (c ∷ a, b)
  | none ↦ if c == d then some ([], s) else none
]

abbrev pub is_empty : Text → Bool
is_empty [] = true
is_empty (c ∷ s) = false

abbrev pub is_dotted : Option (Text × Text) → Bool
is_dotted none = false
is_dotted (some (base, tld)) = not (is_empty base) && (leb 2 (length tld) && all is_letter tld)

-- The parts between the `@`s: a local part and a domain.
abbrev pub is_address : List Text → Bool
is_address (name ∷ domain ∷ []) = not (is_empty name) && is_dotted (rsplit_once b'.' domain)
is_address _ = false

unfoldable pub is_valid_email : Text → Bool
is_valid_email email = not (any is_whitespace email) && is_address (parts_from b'@' [] email)
