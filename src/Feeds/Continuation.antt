-- ===== src/Feeds/Continuation.antt =====
-- How the pages of a feed continue one another (crates/db/src/feed.rs,
-- crates/server/src/social.rs).
use mathlib.Core.Path.{subst}
use toot_tok.Common.{
  ℕ, ◌*◌, ◌/◌, ◌<◌, ◌≤◌, ◌≡◌, ◌≢◌, refl, sym, ◌∙◌, Bool, true, false, ◌&&◌, some, List, [], ◌∷◌,
  ◌++◌, All, filter, take, arith, Bool-cases, inl, inr, if◌then◌else◌,
}
use toot_tok.Db.Clips.{Clip}
use toot_tok.Feeds.{is_newer, is_past, insert_newest, newest_first, select_page, micros, cursor_at}
use toot_tok.Feeds.Pages.{AreNewestFirst, newest_first-AreNewestFirst, past-is_newer}

inserted_first :
    (x : Clip) (zs : List Clip) → All (λ z. is_newer x z ≡ true) zs → insert_newest x zs ≡ x ∷ zs
unfolding insert_newest
inserted_first x [] h = refl
inserted_first x (z ∷ zs) h = rw (h.0) refl

-- What is kept of older clips is older.
older_kept :
    (q : Clip → Bool) (x y : Clip) (zs : List Clip)
    → is_newer x y ≡ true
    → All (λ z. is_newer z y ≡ false) zs
    → All (λ z. is_newer x z ≡ true) (filter q zs)
older_kept q x y [] h k = tt
older_kept q x y (z ∷ zs) h k = elim (Bool-cases (q z)) [
  | inl e ↦ rw e (ground (arith, h, k.0), older_kept q x y zs h k.1)
  | inr e ↦ rw e (older_kept q x y zs h k.1)
]

-- Clips are left out before or after they are put in order.
filter-insert :
    (q : Clip → Bool) (x : Clip) (ys : List Clip)
    → AreNewestFirst ys
    → filter q (insert_newest x ys) ≡ (if q x then insert_newest x (filter q ys) else filter q ys)
unfolding insert_newest AreNewestFirst
filter-insert q x [] h = refl
filter-insert q x (y ∷ ys) h = elim (Bool-cases (is_newer x y)) [
  | inl e ↦ elim (Bool-cases (q x)) [
    | inl f ↦
        let front =
          inserted_first x (filter q (y ∷ ys))
            (older_kept q x y (y ∷ ys) e (ground (arith, e), h.0)) in
        rw (e, f) (sym front)
    | inr f ↦ rw (e, f) refl
  ]
  | inr e ↦ elim (Bool-cases (q y)) [
    | inl g ↦ elim (Bool-cases (q x)) [
      | inl f ↦ rw (e, g, filter-insert q x ys h.1, f, e) refl
      | inr f ↦ rw (e, g, filter-insert q x ys h.1, f) refl
    ]
    | inr g ↦ rw (e, g) (filter-insert q x ys h.1)
  ]
]

filter-newest_first :
    (p q : Clip → Bool) (clips : List Clip)
    → newest_first (filter (λ c. p c && q c) clips) ≡ filter q (newest_first (filter p clips))
unfolding newest_first
filter-newest_first p q [] = refl
filter-newest_first p q (c ∷ cs) = elim (Bool-cases (p c)) [
  | inl e ↦ elim (Bool-cases (q c)) [
    | inl f ↦
        rw
          (
            e,
            f,
            filter-newest_first p q cs,
            filter-insert q c (newest_first (filter p cs))
                (newest_first-AreNewestFirst (filter p cs)),
            f,
          )
          refl
    | inr f ↦
        rw
          (
            e,
            f,
            filter-newest_first p q cs,
            filter-insert q c (newest_first (filter p cs))
                (newest_first-AreNewestFirst (filter p cs)),
            f,
          )
          refl
  ]
  | inr e ↦ rw e (filter-newest_first p q cs)
]

-- No clip of the list was made in the second of the clip.
abbrev pub AreApart : Clip → List Clip → Type 0
AreApart last cs = All (λ c. c.created_at / micros ≢ last.created_at / micros) cs

older_second :
    (last c : Clip)
    → is_newer c last ≡ false
    → c.created_at / micros ≢ last.created_at / micros
    → is_past (some (cursor_at last)) c ≡ true
older_second last c h apart =
    let not_later : c.created_at ≤ last.created_at = ground (arith, h) in
    let below : c.created_at < last.created_at / micros * micros =
      omega (arith, not_later, apart) in
    ground (arith, below)

not_newer-is_past :
    (last c : Clip) → is_newer last c ≡ false → is_past (some (cursor_at last)) c ≡ false
not_newer-is_past last c h = elim (Bool-cases (is_past (some (cursor_at last)) c)) [
  | inl e ↦ absurd (cc (sym h ∙ past-is_newer last c e))
  | inr e ↦ e
]

-- The cursor keeps all that follow the clip.
past_kept :
    (last : Clip) (rest : List Clip)
    → All (λ x. is_newer x last ≡ false) rest
    → AreApart last rest
    → filter (is_past (some (cursor_at last))) rest ≡ rest
past_kept last [] h k = refl
past_kept last (c ∷ cs) h k = rw (older_second last c h.0 k.0, past_kept last cs h.1 k.1) refl

of_last :
    (P : Clip → Type 0) (last : Clip) (page rest : List Clip) → All P (page ++ last ∷ rest) → P last
of_last P last [] rest h = h.0
of_last P last (c ∷ page) rest h = of_last P last page rest h.1

-- The cursor leaves out the clip and all before it.
past_cut :
    (last : Clip) (page rest : List Clip)
    → AreNewestFirst (page ++ last ∷ rest)
    → AreApart last rest
    → filter (is_past (some (cursor_at last))) (page ++ last ∷ rest) ≡ rest
unfolding AreNewestFirst
past_cut last [] rest h k =
    let itself : is_newer last last ≡ false = ground arith in
    rw (not_newer-is_past last last itself) (past_kept last rest h.0 k)
past_cut last (c ∷ page) rest h k =
    rw (not_newer-is_past last c (of_last (λ x. is_newer x c ≡ false) last page rest h.0))
      (past_cut last page rest h.1 k)

-- The page behind a clip begins where the page that ends with it stopped: it is the clips of the
-- feed that follow the clip, up to the limit, none left out and none repeated, when none of those
-- was made in the same second as the clip.
pub next_page_continues :
    (p : Clip → Bool) (clips page rest : List Clip) (last : Clip) (limit : ℕ)
    → newest_first (filter p clips) ≡ page ++ last ∷ rest
    → AreApart last rest
    → select_page p clips (some (cursor_at last)) limit ≡ take limit rest
unfolding select_page
next_page_continues p clips page rest last limit h apart =
    let sorted : AreNewestFirst (page ++ last ∷ rest) =
      subst AreNewestFirst h (newest_first-AreNewestFirst (filter p clips)) in
    rw
      (
        filter-newest_first p (is_past (some (cursor_at last))) clips,
        h,
        past_cut last page rest sorted apart,
      )
      refl
