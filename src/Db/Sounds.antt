-- ===== src/Db/Sounds.antt =====
-- The `sounds` table (crates/db/src/sound.rs), in which an upload finds or makes its sound.
use toot_tok.Common.{ℕ, Bool, ◌&&◌, Option, none, some, List, [], ◌∷◌, ◌++◌, find, ◌==◌}
use toot_tok.Common.Text.{Text, text_eq}

pub record Sound : Type 0 where
  pub id : ℕ
  pub title : Text
  pub author_actor_id : ℕ

abbrev pub is_sound : Text → ℕ → Sound → Bool
is_sound title author s = text_eq s.title title && s.author_actor_id == author

abbrev made : List Sound → ℕ → Text → ℕ → Option Sound → List Sound × ℕ
made sounds fresh title author none =
    (sounds ++ record { id = fresh; title = title; author_actor_id = author } ∷ [], fresh)
made sounds fresh title author (some s) = (sounds, s.id)

-- INSERT … ON CONFLICT (title, author_actor_id) … RETURNING id, for a sound with an author.
unfoldable pub get_or_create : List Sound → ℕ → Text → ℕ → List Sound × ℕ
get_or_create sounds fresh title author =
    made sounds fresh title author (find (is_sound title author) sounds)
