-- ===== src/Feeds/Pages.antt =====
-- What a page of a feed has, and what the next one has (crates/db/src/feed.rs,
-- crates/server/src/social.rs).
use toot_tok.Common.{
  ℕ, zero, suc, ◌*◌, ◌/◌, ◌%◌, ◌≤◌, ◌<◌, ◌≡◌, Bool, true, false, ◌&&◌, ltb, some, List, [], ◌∷◌,
  All, filter, take, length, length-take, arith, Bool-cases, inl, inr, is_none, Option-cases, ◌⊎◌,
  none, ◌||◌, refl, Option,
}
use toot_tok.Db.Actors.{Actor}
use toot_tok.Db.Actors
use toot_tok.Db.Clips.{Clip, Status, ready, Origin, remote}
use toot_tok.Db.Follows.{Follow}
use toot_tok.Feeds.{
  Cursor, is_newer, is_past, is_shown, is_ready, is_remote, is_followed, insert_newest,
  newest_first, select_page, following_feed, micros, cursor_at,
}

module _ (P : Clip → Type 0) where
  pub insert_newest-All : (c : Clip) (xs : List Clip) → P c → All P xs → All P (insert_newest c xs)
  unfolding insert_newest
  insert_newest-All c [] h k = (h, tt)
  insert_newest-All c (x ∷ xs) h k = elim (Bool-cases (is_newer c x)) [
    | inl e ↦ rw e (h, k)
    | inr e ↦ rw e (k.0, insert_newest-All c xs h k.1)
  ]

  newest_first-All : (xs : List Clip) → All P xs → All P (newest_first xs)
  unfolding newest_first
  newest_first-All [] h = tt
  newest_first-All (x ∷ xs) h = insert_newest-All x (newest_first xs) h.0 (newest_first-All xs h.1)

  take-All : (n : ℕ) (xs : List Clip) → All P xs → All P (take n xs)
  take-All zero xs h = tt
  take-All (suc n) [] h = tt
  take-All (suc n) (x ∷ xs) h = (h.0, take-All n xs h.1)

  pub filter-All :
      (p : Clip → Bool) (xs : List Clip) → ((c : Clip) → p c ≡ true → P c) → All P (filter p xs)
  filter-All p [] h = tt
  filter-All p (x ∷ xs) h = elim (Bool-cases (p x)) [
    | inl e ↦ rw e (h x e, filter-All p xs h)
    | inr e ↦ rw e (filter-All p xs h)
  ]

  -- What the query's condition gives, all rows of the page have.
  select_page-All :
      (p : Clip → Bool) (clips : List Clip) (cursor : Cursor) (limit : ℕ)
      → ((c : Clip) → p c ≡ true → is_past cursor c ≡ true → P c)
      → All P (select_page p clips cursor limit)
  unfolding select_page
  select_page-All p clips cursor limit h = take-All limit _ (
      newest_first-All _ (
        filter-All (λ c. p c && is_past cursor c) clips
          (λ c k. h c (ground (arith, k)) (ground (arith, k)))))

-- Every row is newer than the next.
unfoldable pub AreNewestFirst : List Clip → Type 0
AreNewestFirst [] = Unit
AreNewestFirst (c ∷ cs) = All (λ x. is_newer x c ≡ false) cs × AreNewestFirst cs

newer_kept :
    (c x : Clip) → is_newer c x ≡ true → (y : Clip) → is_newer y x ≡ false → is_newer y c ≡ false
newer_kept c x h y k = ground (arith, h, k)

All-map : (P Q : Clip → Type 0) (xs : List Clip) → ((c : Clip) → P c → Q c) → All P xs → All Q xs
All-map P Q [] f h = tt
All-map P Q (x ∷ xs) f h = (f x h.0, All-map P Q xs f h.1)

insert-AreNewestFirst :
    (c : Clip) (xs : List Clip) → AreNewestFirst xs → AreNewestFirst (insert_newest c xs)
unfolding insert_newest AreNewestFirst
insert-AreNewestFirst c [] h = (tt, tt)
insert-AreNewestFirst c (x ∷ xs) h = elim (Bool-cases (is_newer c x)) [
  | inl e ↦
      rw e ((ground (arith, e), All-map _ (λ y. is_newer y c ≡ false) xs (newer_kept c x e) h.0), h)
  | inr e ↦
      rw e
        (insert_newest-All (λ y. is_newer y x ≡ false) c xs e h.0, insert-AreNewestFirst c xs h.1)
]

pub newest_first-AreNewestFirst : (xs : List Clip) → AreNewestFirst (newest_first xs)
unfolding newest_first AreNewestFirst
newest_first-AreNewestFirst [] = tt
newest_first-AreNewestFirst (x ∷ xs) =
    insert-AreNewestFirst x (newest_first xs) (newest_first-AreNewestFirst xs)

take-AreNewestFirst : (n : ℕ) (xs : List Clip) → AreNewestFirst xs → AreNewestFirst (take n xs)
unfolding AreNewestFirst
take-AreNewestFirst zero xs h = tt
take-AreNewestFirst (suc n) [] h = tt
take-AreNewestFirst (suc n) (x ∷ xs) h =
    (take-All (λ y. is_newer y x ≡ false) n xs h.0, take-AreNewestFirst n xs h.1)

-- The clip is live and finished, or remote, and its author is there and may be seen.
pub IsVisible : List Actor → Clip → Type 0
IsVisible actors c =
    (author : Actor) × (Actors.fetch_by_id actors c.actor_id ≡ some author)
    × (c.deleted_at ≡ none)
    × (author.suspended_at ≡ none)
    × (author.deleted_at ≡ none)
    × ((c.status ≡ ready) ⊎ (c.origin ≡ remote))

no_time : (o : Option ℕ) → is_none o ≡ true → o ≡ none
no_time none h = refl
no_time (some t) h = absurd (cc h)

finished :
    (s : Status) (o : Origin) → (is_ready s || is_remote o) ≡ true → (s ≡ ready) ⊎ (o ≡ remote)
finished ready o h = inl refl
finished _ remote h = inr refl
finished _ _ h = absurd (cc h)

shown-IsVisible : (actors : List Actor) (c : Clip) → is_shown actors c ≡ true → IsVisible actors c
unfolding IsVisible
shown-IsVisible actors c h = elim (Option-cases (Actors.fetch_by_id actors c.actor_id)) [
  | inl e ↦ absurd (ground (arith, h, e))
  | inr (author, e) ↦
      let seen : (is_none author.suspended_at && is_none author.deleted_at) ≡ true =
        ground (arith, h, e) in
      (
        author,
        e,
        no_time c.deleted_at (ground (arith, h)),
        no_time author.suspended_at (ground (arith, seen)),
        no_time author.deleted_at (ground (arith, seen)),
        finished c.status c.origin (ground (arith, h)),
      )
]

-- A page of the feed of those that a viewer follows has at most as many rows as the limit, the
-- newest first, and only clips that are not deleted, are ready or remote, are of an author who is
-- neither suspended nor deleted, and of one whom the viewer follows.
pub following_feed-AreNewestFirst :
    (clips : List Clip) (actors : List Actor) (follows : List Follow) (viewer : ℕ) (cursor : Cursor)
    (limit : ℕ)
    → let page = following_feed clips actors follows viewer cursor limit in
      (length page ≤ limit)
      × AreNewestFirst page
      × All (λ c. IsVisible actors c × (is_followed follows viewer c ≡ true)) page
unfolding following_feed select_page
following_feed-AreNewestFirst clips actors follows viewer cursor limit = (
  omega (
    arith,
    length-take limit (
        newest_first (
          filter (λ c. (is_shown actors c && is_followed follows viewer c) && is_past cursor c)
            clips)),
  ),
  take-AreNewestFirst limit _ (newest_first-AreNewestFirst _),
  select_page-All _ (λ c. is_shown actors c && is_followed follows viewer c) clips cursor limit
      (λ c h k. (shown-IsVisible actors c (ground (arith, h)), ground (arith, h))),
)

pub past-is_newer :
    (last c : Clip) → is_past (some (cursor_at last)) c ≡ true → is_newer last c ≡ true
past-is_newer last c k = ground (arith, k)

past_of_second :
    (last c : Clip)
    → is_past (some (cursor_at last)) c ≡ true
    → c.created_at / micros ≡ last.created_at / micros
    → c.created_at % micros ≡ 0
past_of_second last c k same =
    elim (Bool-cases (ltb c.created_at (last.created_at / micros * micros))) [
      | inl e ↦
          let before : c.created_at < last.created_at / micros * micros = ground (arith, e) in
          omega (arith, before, same)
      | inr e ↦
          let start : c.created_at ≡ last.created_at / micros * micros = ground (arith, e, k) in
          omega (arith, start, same)
    ]

-- The page behind a clip, whichever feed it is of, has only older clips, so that nothing is shown
-- twice; and of the clips made in the same second it has only those of the second's very start, so
-- that the others which are older than the clip are not on it.
pub next_page_older :
    (p : Clip → Bool) (clips : List Clip) (last : Clip) (limit : ℕ)
    → All
        (λ c.
          (is_newer last c ≡ true)
          × (c.created_at / micros ≡ last.created_at / micros → c.created_at % micros ≡ 0))
        (select_page p clips (some (cursor_at last)) limit)
next_page_older p clips last limit =
    select_page-All _ p clips (some (cursor_at last)) limit
      (λ c h k. (past-is_newer last c k, past_of_second last c k))
