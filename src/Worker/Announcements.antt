-- ===== src/Worker/Announcements.antt =====
-- Which clips are announced (crates/server/src/worker.rs, `process_finalize`).
use toot_tok.Common.{
  ℕ, ◌≡◌, refl, ap, true, Option, none, some, List, Bool-cases, inl, inr, ◌==◌, ==_iff, ◌∙◌,
}
use toot_tok.Common.Table.{update_where, find-update_where}
use toot_tok.Db.Assets.{mark_ready_for_clip}
use toot_tok.Db.Clips.{or_now, Clip, ready, has_id, fetch_by_id, mark_ready}
use toot_tok.Jobs.{Job, mark_done}
use toot_tok.Worker.{Env, World, end_job, job_end, id_field, asset_stamp, ready_flip, clip_read}
use toot_tok.Worker.Finalize.{process_finalize, enqueue_clip_create, is_remote}
use toot_tok.Inbox.Pipeline.Ids.{fetched_id}

-- What a lookup finds after an update of the row.
found_updated :
    (cs : List Clip) (id : ℕ) (f : Clip → Clip) (c : Clip)
    → ((r : Clip) → (f r).id ≡ r.id)
    → fetch_by_id cs id ≡ some c
    → fetch_by_id (update_where (has_id id) f cs) id ≡ some (f c)
unfolding fetch_by_id
found_updated cs id f c keeps h =
    let found = find-update_where (has_id id) (has_id id) f cs (λ r. ap (λ n. n == id) (keeps r)) in
    let same : has_id id c ≡ true = (==_iff c.id id).1 (fetched_id cs id c h) in
    found ∙ rw (h, same) refl

not_announced :
    (e : Env) (w : World) (id t : ℕ) (c : Clip)
    → e.fails clip_read ≡ none
    → fetch_by_id w.clips id ≡ some c
    → c.deleted_at ≡ some t
    → enqueue_clip_create e w id ≡ (w, none)
unfolding enqueue_clip_create
not_announced e w id t c r h d = elim (Bool-cases (is_remote c.origin)) [
  | inl o ↦ rw (r, h, d, o, enqueue_clip_create) refl
  | inr o ↦ rw (r, h, d, o, enqueue_clip_create) refl
]

on_none {ℓ} :
    {A : Type ℓ} (P : World → Type 0) (o : Option A) (f : World) (g : A → World)
    → o ≡ none
    → P f
    → P (elim o [ none ↦ f | some a ↦ g a ])
on_none P none f g e x = x
on_none P (some a) f g e x = cc

-- The clip and its files as the finalization shows them.
abbrev readied : Env → World → ℕ → World
readied e w id = record w {
  assets = mark_ready_for_clip w.assets e.now id;
  clips = mark_ready w.clips e.now id;
}

unannounced :
    (e : Env) (w : World) (job : Job) (id : ℕ)
    → id_field job.payload "clip_id" ≡ some id
    → e.fails asset_stamp ≡ none
    → e.fails ready_flip ≡ none
    → enqueue_clip_create e (readied e w id) id ≡ (readied e w id, none)
    → process_finalize e w job ≡ end_job e (readied e w id) job none
unfolding process_finalize
unannounced e w job id p a b skipped =
    let P = λ (v : World). v ≡ end_job e (readied e w id) job none in
    rw (p, process_finalize)
      (on_none P (e.fails asset_stamp) _ _ a
        (on_none P (e.fails ready_flip) _ _ b (rw skipped refl)))

ended :
    (e : Env) (w : World) (job : Job)
    → e.fails job_end ≡ none
    → end_job e w job none ≡ record w { jobs = mark_done w.jobs job.id none }
unfolding end_job
ended e w job run = rw (run, end_job) refl

-- A clip that its author deleted while it was processed is not announced: its finalization logs no
-- activity and enqueues no delivery, and only ends its own job. Yet the clip's status becomes ready
-- again. The reads and writes of the database succeed.
pub deleted_not_announced :
    (e : Env) (w : World) (job : Job) (id t : ℕ) (c : Clip)
    → id_field job.payload "clip_id" ≡ some id
    → e.fails asset_stamp ≡ none
    → e.fails ready_flip ≡ none
    → e.fails clip_read ≡ none
    → e.fails job_end ≡ none
    → fetch_by_id w.clips id ≡ some c
    → c.deleted_at ≡ some t
    → ((process_finalize e w job).log ≡ w.log)
      × ((process_finalize e w job).jobs ≡ mark_done w.jobs job.id none)
      × ((r : Clip) × (fetch_by_id (process_finalize e w job).clips id ≡ some r)
          × (r.status ≡ ready)
          × (r.deleted_at ≡ some t))
unfolding mark_ready
deleted_not_announced e w job id t c p a b r run h d =
    let shown =
      found_updated w.clips id
        (λ k. record k { status = ready; published_at = or_now k.published_at e.now }) c (λ _. refl)
        h in
    let skipped = not_announced e (readied e w id) id t _ r shown d in
    rw (unannounced e w job id p a b skipped, ended e (readied e w id) job run)
      (refl, refl, (_, shown, refl, d))
