-- ===== src/Uploads/Accepted.antt =====
-- The upload that is accepted (crates/server/src/upload.rs, `upload`).
use mathlib.Core.Path.{subst}
use toot_tok.Common.{
  ℕ, suc, ◌+◌, ◌≤◌, ◌<◌, ◌≡◌, refl, sym, ap, Bool, true, false, ◌||◌, Option, none, some, List, [],
  ◌∷◌, ◌++◌, length, any, arith, Bool-cases, inl, inr, ◌⊎◌, if◌then◌else◌, ltb, String, ◌^◌, ◌-◌,
  min,
}
use toot_tok.Common.Map.{lookup, insert, lookup-insert_self}
use toot_tok.Common.Result.{Result, ok, err}
use toot_tok.Common.Text.{Text, codes}
use toot_tok.Common.Text.Same.{text_key}
use toot_tok.Accounts.{AuthUser, Response, reply}
use toot_tok.Accounts.Steps.{past_guard, past_test}
use toot_tok.Db.Clips
use toot_tok.Db.Clips.{Clip, is_active_hash}
use toot_tok.Jobs
use toot_tok.Jobs.{Job}
use toot_tok.Json.{Value, ℤ, pos}
use toot_tok.Worker.{numeric_setting}
use toot_tok.Media
use toot_tok.Media.{Files, Container, sniff_container}
use toot_tok.Uploads.{
  Env, World, upload, upload_capped, upload_form, upload_file, contained, new_upload, within_quota,
  stored_upload, insert_upload, inserted, insert_clip, add_sound, link_tags, enqueue_probe,
  finish_upload, probe_payload, file_key, caption_of, check_storage_quota, upload_size_cap_bytes,
  probe_enqueue, tags_link, sound_write, quota_for, is_unlimited, sum_read, megabytes, i64_max,
  used_bytes, quota_exceeded, sound_link, clip_insert, hash_read,
}
use toot_tok.Uploads.Fields.{Part, Form, read_upload_fields}
use toot_tok.Uploads.Fields.Bounds.{IsProblem, Gives, IsWithin, read_upload_fields-IsWithin}

abbrev pub taken : World → Option Value → World × Response
taken after body = (after, reply 201 body none)

-- The probe job of the upload is the one job that is added.
abbrev HasProbe : Env → World → Text → Container → ℕ → World → Type 0
HasProbe e w key container clip_id after =
    after.jobs
    ≡ Jobs.create w.jobs w.next_job (codes "probe") (probe_payload e key container clip_id) e.now

abbrev pub IsSounded : List Clip → ℕ → List Clip → Type 0
IsSounded clips clip_id after =
    (after ≡ clips) ⊎ ((sound : ℕ) × (after ≡ Clips.set_sound clips clip_id sound))

module _ (e : Env) (after : World) (body : Option Value) (key : Text) (container : Container)
    (size clip_id : ℕ) where
  abbrev IsMade : World → Type 0
  IsMade w =
      (after.files ≡ w.files) × HasProbe e w key container clip_id after × (after.clips ≡ w.clips)

  made : (w : World) → enqueue_probe e w key container size clip_id ≡ taken after body → IsMade w
  unfolding enqueue_probe finish_upload
  made w h =
      let run = (past_guard (e.fails probe_enqueue) _ _ _ (λ k. cc k) h).1 in
      (ap (λ t. t.0.files) (sym run), ap (λ t. t.0.jobs) (sym run), ap (λ t. t.0.clips) (sym run))

  tagged :
      (w : World) (caption : Option Text)
      → link_tags e w key container size clip_id caption ≡ taken after body
      → IsMade w
  unfolding link_tags
  tagged w none h = made w h
  tagged w (some caption) h = made _ (past_guard (e.fails tags_link) _ _ _ (λ k. cc k) h).1

  abbrev IsPut : World → Type 0
  IsPut w =
      (after.files ≡ w.files)
      × HasProbe e w key container clip_id after
      × IsSounded w.clips clip_id after.clips

  sounded :
      (w : World) (caption : Option Text) (actor_id : ℕ) (title : Option Text)
      → add_sound e w key container size clip_id caption actor_id title ≡ taken after body
      → IsPut w
  unfolding add_sound
  sounded w caption actor_id none h = let rest = tagged w caption h in (rest.0, rest.1, inl rest.2)
  sounded w caption actor_id (some title) h =
      let wrote = past_guard (e.fails sound_write) _ _ _ (λ k. cc k) h in
      let rest = tagged _ caption (past_guard (e.fails sound_link) _ _ _ (λ k. cc k) wrote.1).1 in
      (rest.0, rest.1, inr (_, rest.2))

-- The row that the upload adds.
abbrev pub with_upload : Env → World → AuthUser → Form → List ℕ → List Clip
with_upload e w auth f bytes =
    Clips.create_pending_upload (e.meanwhile w.clips) e.now w.next_clip auth.actor.id
      (codes "https://toottok.local/clips/" ++ e.ap_uuid) (e.sha256_hex bytes) (length bytes)
      (caption_of f)

-- What an accepted file makes: the file under its key, the job, and the clip, of which there was
-- no other active one with its hash when it was inserted.
abbrev IsStored : Env → World → AuthUser → Form → List ℕ → Container → World → Type 0
IsStored e w auth f bytes container after =
    (lookup (file_key e container) after.files ≡ some bytes)
    × HasProbe e w (file_key e container) container w.next_clip after
    × (any (is_active_hash (e.sha256_hex bytes)) (e.meanwhile w.clips) ≡ false)
    × IsSounded (with_upload e w auth f bytes) w.next_clip after.clips

any-or : (p q : Clip → Bool) (xs : List Clip) → any (λ c. p c || q c) xs ≡ false → any p xs ≡ false
any-or p q [] h = refl
any-or p q (x ∷ xs) h = ground (arith, any-or p q xs, h)

-- A refusal that is a problem.
abbrev RefusedBy : Option Response → Type 0
RefusedBy none = Unit
RefusedBy (some r) = IsProblem r

refused_either :
    (b : Bool) (x y : Option Response) → RefusedBy x → RefusedBy y → RefusedBy (if b then x else y)
refused_either true x y h k = h
refused_either false x y h k = k

quota_refused :
    (e : Env) (w : World) (id size : ℕ) (r : Result String ℤ) → RefusedBy (quota_for e w id size r)
unfolding quota_for
quota_refused e w id size (err x) = tt
quota_refused e w id size (ok mb) = elim (Bool-cases (is_unlimited mb)) [
  | inl x ↦ rw x tt
  | inr x ↦ rw x (elim (Bool-cases (e.fails sum_read)) [
    | inl y ↦ rw y tt
    | inr y ↦ rw y (
        refused_either
          (ltb (megabytes i64_max mb) (min i64_max (used_bytes w.clips id w.assets + size)))
          (some quota_exceeded) none tt tt)
  ])
]

quota-RefusedBy : (e : Env) (w : World) (id size : ℕ) → RefusedBy (check_storage_quota e w id size)
unfolding check_storage_quota
quota-RefusedBy e w id size =
    quota_refused e w id size (numeric_setting e.per_user_storage_quota_mb (pos 0))

not_taken :
    (w after : World) (body : Option Value) (r : Response)
    → IsProblem r
    → (w, r) ≡ taken after body
    → ⊥
not_taken w after body r k h =
    let same : r ≡ reply 201 body none = ap (λ t. t.1) h in subst IsProblem same k

found_again :
    (b : Bool) (io : Option String) (key : Text) (bytes : List ℕ) (old files : Files)
    → (if b
        then elim io [ some x ↦ err x | none ↦ ok (insert key bytes old) ]
        else err Media.invalid_key)
      ≡ ok files
    → lookup key files ≡ some bytes
found_again true none key bytes old files h =
    let same : insert key bytes old ≡ files = cc h in rw (← same) (lookup-insert_self key bytes old)
found_again true (some x) key bytes old files h = absurd (cc h)
found_again false io key bytes old files h = absurd (cc h)

module _ (e : Env) (w after : World) (auth : AuthUser) (body : Option Value) (f : Form) where
  module _ (container : Container) (bytes : List ℕ) where
    abbrev key : Text
    key = file_key e container

    abbrev base : Files → World
    base files = record w { files = files; clips = e.meanwhile w.clips }

    taken_in :
        (files : Files) (b : Bool) (clips : List Clip)
        → inserted e (base files) auth f container (length bytes) (if b then none else some clips)
          ≡ taken after body
        → (b ≡ false)
          × IsPut e after body key container
              (length bytes)
              w.next_clip
              (record (base files) { clips = clips; next_clip = suc w.next_clip })
    unfolding inserted
    taken_in files true clips h = absurd (cc h)
    taken_in files false clips h = (
      refl,
      sounded e after body key container (length bytes) w.next_clip _ (caption_of f) auth.actor.id _
          h,
    )

    put :
        (files : Files)
        → insert_upload e (base files) auth f container bytes ≡ taken after body
        → lookup key files ≡ some bytes
        → IsStored e w auth f bytes container after
    unfolding insert_upload insert_clip
    put files h k =
        let rest = taken_in files _ _ (past_guard (e.fails clip_insert) _ _ _ (λ x. cc x) h).1 in
        (rw (rest.1.0) k, rest.1.1, any-or _ _ (e.meanwhile w.clips) rest.0, rest.1.2)

    saved :
        (r : Result String Files)
        → ((files : Files) → r ≡ ok files → lookup key files ≡ some bytes)
        → stored_upload e w auth f container bytes r ≡ taken after body
        → IsStored e w auth f bytes container after
    unfolding stored_upload
    saved (err x) found h = absurd (cc h)
    saved (ok files) found h = put files h (found files refl)

    allowed :
        (o : Option Response)
        → RefusedBy o
        → within_quota e w auth f container bytes o ≡ taken after body
        → (o ≡ none) × IsStored e w auth f bytes container after
    unfolding within_quota Media.save_bytes
    allowed none k h = (refl, saved _ (found_again _ e.save_io key bytes w.files) h)
    allowed (some r) k h = absurd (not_taken w after body r k h)

    not_known :
        (o : Option Clip)
        → new_upload e w auth f container bytes o ≡ taken after body
        → (check_storage_quota e w auth.actor.id (length bytes) ≡ none)
          × IsStored e w auth f bytes container after
    unfolding new_upload
    not_known none h = allowed _ (quota-RefusedBy e w auth.actor.id (length bytes)) h
    not_known (some c) h = absurd (cc h)

  -- The bytes are of a container, and there is room for them.
  abbrev IsTaken : List ℕ → Type 0
  IsTaken bytes =
      (container : Container) × (sniff_container bytes ≡ some container)
      × (check_storage_quota e w auth.actor.id (length bytes) ≡ none)
      × IsStored e w auth f bytes container after

  in_container :
      (bytes : List ℕ) (o : Option Container)
      → sniff_container bytes ≡ o
      → contained e w auth f bytes o ≡ taken after body
      → IsTaken bytes
  unfolding contained
  in_container bytes none k h = absurd (cc h)
  in_container bytes (some container) k h =
      let read = past_guard (e.fails hash_read) _ _ _ (λ x. cc x) h in
      let rest = not_known container bytes _ read.1 in (container, k, rest.0, rest.1)

  in_form :
      (o : Option (List ℕ))
      → upload_file e w auth f o ≡ taken after body
      → (bytes : List ℕ) × (o ≡ some bytes) × IsTaken bytes
  unfolding upload_file
  in_form none h = absurd (cc h)
  in_form (some []) h = absurd (cc h)
  in_form (some (b ∷ bytes)) h = (b ∷ bytes, refl, in_container (b ∷ bytes) _ refl h)

-- An upload that was taken: the file is the form's, within the limit, of a container that is
-- accepted, and within the quota.
abbrev pub IsUploaded : Env → World → AuthUser → List (Option Part) → World → Type 0
IsUploaded e w auth parts after =
    (limit : ℕ) × (f : Form) × (bytes : List ℕ) × (upload_size_cap_bytes e ≡ ok limit)
    × (read_upload_fields limit parts ≡ ok f)
    × (f.file ≡ some bytes)
    × (limit < 2 ^ 64 - 1 → length bytes ≤ limit)
    × IsTaken e w after auth none f bytes

module _ (e : Env) (w after : World) (auth : AuthUser) (body : Option Value)
    (parts : List (Option Part)) where
  of_form :
      (limit : ℕ) (r : Result Response Form)
      → Gives (IsWithin limit) r
      → upload_form e w auth r ≡ taken after body
      → (f : Form) × (bytes : List ℕ) × (r ≡ ok f)
        × (f.file ≡ some bytes)
        × (limit < 2 ^ 64 - 1 → length bytes ≤ limit)
        × IsTaken e w after auth none f bytes
  unfolding upload_form
  of_form limit (err r) k h = absurd (not_taken w after body r k h)
  of_form limit (ok f) k h =
      let rest = in_form e w after auth body f f.file h in
      (f, rest.0, refl, rest.1, k rest.0 rest.1, rest.2)

  of_cap :
      (r : Result String ℕ)
      → upload_size_cap_bytes e ≡ r
      → upload_capped e w auth parts r ≡ taken after body
      → IsUploaded e w auth parts after
  unfolding upload_capped
  of_cap (err x) k h = absurd (cc h)
  of_cap (ok limit) k h =
      let rest = of_form limit _ (read_upload_fields-IsWithin limit parts) h in
      (limit, rest.0, rest.1, k, rest.2, rest.3, rest.4, rest.5)

  -- When an upload is answered 201, the form has a file, within the size limit when a length can
  -- pass it, of an accepted container, and within the quota; the file is stored under its key, the
  -- one job that is added is the probe of it, the one clip that is added has its hash, and no
  -- other active clip had that hash when it was inserted, whatever others did meanwhile.
  pub upload-IsUploaded : upload e w auth parts ≡ taken after body → IsUploaded e w auth parts after
  unfolding upload
  upload-IsUploaded h = of_cap _ refl (past_test e.has_pool _ _ _ (λ k. cc k) h).1
