-- ===== src/Inbox/Pipeline/Ids.antt =====
-- The ids of clips are distinct and below the sequence's next value, whatever the inbox does.
use mathlib.Core.Path.{subst}
use toot_tok.Common.{
  ℕ, suc, ◌<◌, ◌≡◌, refl, sym, ◌∙◌, ap, Bool, false, some, List, [], ◌∷◌, ◌++◌, any, find, All,
  arith, Bool-cases, inl, inr, ◌==◌, ==_iff, ==_refl,
}
use toot_tok.Common.Table.{update_where, update_where-All, All-append, any-update_where}
use toot_tok.Db.Clips.{
  Clip, RemoteClip, has_id, has_ap_id, fetch_by_id, create_remote, mark_deleted, update_note_fields,
  remote_row,
}
use toot_tok.Inbox.Pipeline.{Delivery, Instance, Tables}
use toot_tok.Inbox.Pipeline.Changes.{
  Change, logs, follows, enqueues, marks, fetches, buries, deletes, edits, adds,
}

abbrev pub Distinct : List Clip → Type 0
Distinct [] = Unit
Distinct (c ∷ cs) = (any (has_id c.id) cs ≡ false) × Distinct cs

-- The ids are distinct, and the sequence is ahead of them.
abbrev pub HasIds : List Clip → ℕ → Type 0
HasIds clips next = Distinct clips × All (λ c. c.id < next) clips

update_where-Distinct :
    (p : Clip → Bool) (f : Clip → Clip) (cs : List Clip)
    → ((c : Clip) → (f c).id ≡ c.id)
    → Distinct cs
    → Distinct (update_where p f cs)
unfolding update_where
update_where-Distinct p f [] keeps h = tt
update_where-Distinct p f (c ∷ cs) keeps h =
    let ih = update_where-Distinct p f cs keeps h.1 in
    let rest = λ (id : ℕ). any-update_where (has_id id) p f cs (λ r. ap (λ n. n == id) (keeps r)) in
    elim (Bool-cases (p c)) [
      | inl e ↦ rw e (rest (f c).id ∙ ap (λ n. any (has_id n) cs) (keeps c) ∙ h.0, ih)
      | inr e ↦ rw e (rest c.id ∙ h.0, ih)
    ]

fresh_id : (cs : List Clip) (n : ℕ) → All (λ c. c.id < n) cs → any (has_id n) cs ≡ false
fresh_id [] n h = refl
fresh_id (c ∷ cs) n h = ground (arith, h.0, fresh_id cs n h.1)

pub any-append-false :
    (p : Clip → Bool) (cs : List Clip) (r : Clip)
    → any p cs ≡ false
    → p r ≡ false
    → any p (cs ++ r ∷ []) ≡ false
any-append-false p [] r h k = ground (arith, k)
any-append-false p (c ∷ cs) r h k = ground (arith, any-append-false p cs r)

Distinct-append :
    (cs : List Clip) (r : Clip) → Distinct cs → All (λ c. c.id < r.id) cs → Distinct (cs ++ r ∷ [])
Distinct-append [] r d h = (refl, tt)
Distinct-append (c ∷ cs) r d h =
    (any-append-false (has_id c.id) cs r d.0 (ground (arith, h.0)), Distinct-append cs r d.1 h.1)

All-weaken : (cs : List Clip) (n : ℕ) → All (λ c. c.id < n) cs → All (λ c. c.id < suc n) cs
All-weaken [] n h = tt
All-weaken (c ∷ cs) n h = (omega (arith, h.0), All-weaken cs n h.1)

pub update_where-HasIds :
    (p : Clip → Bool) (f : Clip → Clip) (cs : List Clip) (n : ℕ)
    → ((c : Clip) → (f c).id ≡ c.id)
    → HasIds cs n
    → HasIds (update_where p f cs) n
update_where-HasIds p f cs n keeps h = (
  update_where-Distinct p f cs keeps h.0,
  update_where-All (λ c. c.id < n) p f cs (λ c l. rw (keeps c) l) h.1,
)

pub append-HasIds :
    (cs : List Clip) (r : Clip) (n : ℕ) → r.id ≡ n → HasIds cs n → HasIds (cs ++ r ∷ []) (suc n)
append-HasIds cs r n e h = (
  Distinct-append cs r h.0 (subst (λ k. All (λ c. c.id < k) cs) (sym e) h.1),
  All-append (λ c. c.id < suc n) cs (r ∷ []) (All-weaken cs n h.1) (omega (arith, e), tt),
)

pub created :
    (cs ds : List Clip) (now n : ℕ) (r : RemoteClip)
    → create_remote cs now n r ≡ some ds
    → (ds ≡ cs ++ remote_row now n r ∷ []) × (any (has_ap_id r.ap_id) cs ≡ false)
unfolding create_remote
created cs ds now n r h = elim (Bool-cases (any (has_ap_id r.ap_id) cs)) [
  | inl e ↦ ground (arith, e, h)
  | inr e ↦ (ground (arith, e, h), e)
]

-- A row found by its ActivityPub id is the one found by its id.
pub found_by_id :
    (cs : List Clip) (p : Clip → Bool) (c : Clip)
    → Distinct cs
    → find p cs ≡ some c
    → fetch_by_id cs c.id ≡ some c
unfolding fetch_by_id
found_by_id [] p c d h = cc
found_by_id (x ∷ cs) p c d h = elim (Bool-cases (p x)) [
  | inl e ↦ let same : x ≡ c = ground (arith, e, h) in rw (same, ==_refl c.id) refl
  | inr e ↦
      let rest : find p cs ≡ some c = ground (arith, e, h) in
      let ih = found_by_id cs p c d.1 rest in
      elim (Bool-cases (x.id == c.id)) [
        | inl k ↦
            let same : x.id ≡ c.id = (==_iff x.id c.id).0 k in
            let none_left : any (has_id c.id) cs ≡ false =
              subst (λ n. any (has_id n) cs ≡ false) same d.0 in
            absurd (absent cs (has_id c.id) c none_left ih)
        | inr k ↦ rw k ih
      ]
]
  where
    absent :
        (cs : List Clip) (p : Clip → Bool) (c : Clip) → any p cs ≡ false → find p cs ≡ some c → ⊥
    absent [] p c a f = cc
    absent (x ∷ cs) p c a f = ground (arith, absent cs p c)

pub fetched_id : (cs : List Clip) (id : ℕ) (c : Clip) → fetch_by_id cs id ≡ some c → c.id ≡ id
unfolding fetch_by_id
fetched_id [] id c h = cc
fetched_id (x ∷ cs) id c h = elim (Bool-cases (x.id == id)) [
  | inl e ↦
      let same : x ≡ c = ground (arith, e, h) in ap (λ r. r.id) (sym same) ∙ (==_iff x.id id).0 e
  | inr e ↦ fetched_id cs id c (ground (arith, e, h))
]

-- Two lookups of one row, by id and by any other test.
pub same_row :
    (cs : List Clip) (p : Clip → Bool) (id : ℕ) (r c : Clip)
    → Distinct cs
    → fetch_by_id cs id ≡ some r
    → find p cs ≡ some c
    → r.id ≡ c.id
    → r ≡ c
same_row cs p id r c d h f same =
    let e : id ≡ c.id = sym (fetched_id cs id r h) ∙ same in
    let k : fetch_by_id cs id ≡ some c =
      subst (λ n. fetch_by_id cs n ≡ some c) (sym e) (found_by_id cs p c d f) in
    cc

abbrev pub HasClipIds : Tables → Type 0
HasClipIds t = HasIds t.clips t.next_clip

-- No change of any sender gives an id twice.
pub Change-HasClipIds :
    (i : Instance) (s : Delivery) (t u : Tables) → Change i s t u → HasClipIds t → HasClipIds u
unfolding mark_deleted update_note_fields
Change-HasClipIds i s t u (logs log g e) h = subst HasClipIds (sym e) h
Change-HasClipIds i s t u (follows fs w e) h = subst HasClipIds (sym e) h
Change-HasClipIds i s t u (enqueues js n w e) h = subst HasClipIds (sym e) h
Change-HasClipIds i s t u (marks x w y e) h = subst HasClipIds (sym e) h
Change-HasClipIds i s t u (fetches rows a f e) h = subst HasClipIds (sym e) h
Change-HasClipIds i s t u (buries x kind w y e) h = subst HasClipIds (sym e) h
Change-HasClipIds i s t u (deletes c now x w f b o e) h =
    subst HasClipIds (sym e) (update_where-HasIds (has_id c.id) _ t.clips t.next_clip (λ _. refl) h)
Change-HasClipIds i s t u (edits c x html sens cw w f o l e) h =
    subst HasClipIds (sym e) (update_where-HasIds (has_id c.id) _ t.clips t.next_clip (λ _. refl) h)
Change-HasClipIds i s t u (adds rows a n attributed now cs w p q l d x c e) h =
    subst HasClipIds (sym e) (
      subst (λ v. HasIds v (suc t.next_clip)) (sym (created t.clips cs now t.next_clip _ c).0)
        (append-HasIds t.clips _ t.next_clip refl h))
