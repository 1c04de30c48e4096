-- ===== src/Worker/Settled.antt =====
-- How a handled job ends (crates/server/src/worker.rs).
use toot_tok.Common.{
  ℕ, ◌≡◌, refl, Bool, true, false, if◌then◌else◌, Option, none, some, List, [], ◌∷◌, All, arith,
  Bool-cases, Option-cases, inl, inr, ◌==◌, String,
}
use toot_tok.Common.Result.{Result, ok, err}
use toot_tok.Common.Text.{codes, text_eq, starts_with}
use toot_tok.Jobs.{
  Job, is_running, update_where, has_id, is_exhausted, mark_done, dead_letter,
  schedule_deliver_retry,
}
use toot_tok.Json.{Value, get, and_then, as_i64, str_field}
use toot_tok.Media.{ProbeDecision, decide, accept, reject, transcode}
use toot_tok.Worker.{
  Env, World, end_job, bury_job, job_end, process_probe, reject_clip, id_field, numeric_setting,
  clip_max_seconds_default, probe_stamp, transcode_enqueue, finalize_enqueue, asset_stamp,
  ready_flip, follower_read, mime_or_mp4,
}
use toot_tok.Worker.Fanout.{
  schedule_retry, process_deliver_create, deliver_create_payload, of_clip, from_author,
  to_followers,
}
use toot_tok.Worker.Transcode.{process_transcode, fail_transcode, persist_outputs}
use toot_tok.Worker.Finalize.{process_finalize, enqueue_clip_create}
use toot_tok.Worker.Handling.{
  DeliverOutcome, delivered, rejected, failed, Senders, process_deliver, delivered_job, handle_job,
  process_backfill_job, backfill_payload, backfilled,
}
use toot_tok.Db.Assets.{mark_ready_for_clip}
use toot_tok.Db.Clips.{Clip, mark_ready}
use toot_tok.Db.Actors.{Actor}

-- No row of the id runs or is locked.
abbrev AreSettled : ℕ → List Job → Type 0
AreSettled id js =
    All (λ j. (j.id == id) ≡ true → (is_running j.state ≡ false) × (j.locked_by ≡ none)) js

abbrev pub IsSettled : ℕ → World → Type 0
IsSettled id w = AreSettled id w.jobs

settled :
    (id : ℕ) (f : Job → Job) (js : List Job)
    → ((j : Job) → (is_running (f j).state ≡ false) × ((f j).locked_by ≡ none))
    → AreSettled id (update_where (has_id id) f js)
unfolding update_where
settled id f [] h = tt
settled id f (j ∷ js) h = elim (Bool-cases (j.id == id)) [
  | inl e ↦ (rw e (λ _. h j), settled id f js h)
  | inr e ↦ (rw e (λ k. absurd (ground (arith, e, k))), settled id f js h)
]

mark_done-AreSettled :
    (id : ℕ) (m : Option String) (js : List Job) → AreSettled id (mark_done js id m)
unfolding mark_done
mark_done-AreSettled id m js = settled id _ js (λ _. (refl, refl))

dead_letter-AreSettled : (id : ℕ) (m : String) (js : List Job) → AreSettled id (dead_letter js id m)
unfolding dead_letter
dead_letter-AreSettled id m js = settled id _ js (λ _. (refl, refl))

retry-AreSettled :
    (job : Job) (now : ℕ) (m : String) (js : List Job)
    → AreSettled job.id (schedule_deliver_retry js job now m)
unfolding schedule_deliver_retry dead_letter
retry-AreSettled job now m js = elim (Bool-cases (is_exhausted job)) [
  | inl x ↦ rw x (settled job.id _ js (λ _. (refl, refl)))
  | inr x ↦ rw x (settled job.id _ js (λ _. (refl, refl)))
]

module _ (e : Env) (w : World) (job : Job) where
  end_job-IsSettled :
      (m : Option String) → e.fails job_end ≡ none → IsSettled job.id (end_job e w job m)
  unfolding end_job
  end_job-IsSettled m run = rw (run, end_job) (mark_done-AreSettled _ _ _)

  bury_job-IsSettled : (m : String) → e.fails job_end ≡ none → IsSettled job.id (bury_job e w job m)
  unfolding bury_job
  bury_job-IsSettled m run = rw (run, bury_job) (dead_letter-AreSettled _ _ _)

  schedule_retry-IsSettled :
      (m : String) → e.fails job_end ≡ none → IsSettled job.id (schedule_retry e w job m)
  unfolding schedule_retry
  schedule_retry-IsSettled m run = rw (run, schedule_retry) (retry-AreSettled job _ _ _)

-- A property of both branches.
on_option {ℓ} :
    {A : Type ℓ} (P : World → Type 0) (o : Option A) {f : World} {g : A → World}
    → P f
    → ((a : A) → P (g a))
    → P (elim o [ none ↦ f | some a ↦ g a ])
on_option P none x y = x
on_option P (some a) x y = y a

on_result {ℓ κ} :
    {E : Type ℓ} {A : Type κ} (P : World → Type 0) (r : Result E A) {f : E → World} {g : A → World}
    → ((x : E) → P (f x))
    → ((a : A) → P (g a))
    → P (elim r [ err x ↦ f x | ok a ↦ g a ])
on_result P (err x) h k = h x
on_result P (ok a) h k = k a

on_decision :
    (P : World → Type 0) (d : ProbeDecision) {f : World} {g : String → World}
    → P f
    → ((reason : String) → P (g reason))
    → P (elim d [ accept ↦ f | reject reason ↦ g reason ])
on_decision P accept x y = x
on_decision P (reject reason) x y = y reason

process_probe-IsSettled :
    (e : Env) (w : World) (job : Job)
    → e.fails job_end ≡ none
    → IsSettled job.id (process_probe e w job)
unfolding process_probe reject_clip
process_probe-IsSettled e w job run = elim (Option-cases (id_field job.payload "clip_id")) [
  | inl n ↦ rw n (bury_job-IsSettled e _ job _ run)
  | inr (clip_id, n) ↦ elim (Option-cases (str_field job.payload "path")) [
    | inl p ↦ rw (n, p) (bury_job-IsSettled e _ job _ run)
    | inr (path, p) ↦
        rw (n, p)
          (on_result (IsSettled job.id)
            (numeric_setting e.clip_max_seconds clip_max_seconds_default)
            (λ _. end_job-IsSettled e _ job _ run)
            (λ cap.
              on_result (IsSettled job.id) (e.tools.probe path)
                (λ _. end_job-IsSettled e _ job _ run)
                (λ info.
                  on_decision (IsSettled job.id) (decide info cap)
                    (on_option (IsSettled job.id) (e.fails probe_stamp)
                      (elim (Option-cases (str_field job.payload "key")) [
                        | inl k ↦ rw k (end_job-IsSettled e _ job _ run)
                        | inr (key, k) ↦ rw k (
                            on_option (IsSettled job.id) (e.fails transcode_enqueue)
                              (end_job-IsSettled e _ job _ run)
                              (λ _. end_job-IsSettled e _ job _ run))
                      ])
                      (λ _. bury_job-IsSettled e _ job _ run))
                    (λ _. end_job-IsSettled e _ job _ run))))
  ]
]

process_transcode-IsSettled :
    (e : Env) (w : World) (job : Job)
    → e.fails job_end ≡ none
    → IsSettled job.id (process_transcode e w job)
unfolding process_transcode fail_transcode
process_transcode-IsSettled e w job run = elim (Option-cases (id_field job.payload "clip_id")) [
  | inl n ↦ rw n (bury_job-IsSettled e _ job _ run)
  | inr (clip_id, n) ↦ elim (Option-cases (str_field job.payload "path")) [
    | inl p ↦ rw (n, p) (bury_job-IsSettled e _ job _ run)
    | inr (path, p) ↦ elim (Option-cases (str_field job.payload "key")) [
      | inl k ↦ rw (n, p, k) (bury_job-IsSettled e _ job _ run)
      | inr (key, k) ↦
          rw (n, p, k)
            (on_option (IsSettled job.id) e.scratch
              (on_result (IsSettled job.id) (transcode e.tools path)
                (λ _. end_job-IsSettled e _ job _ run)
                (λ outputs.
                  let mime = mime_or_mp4 (str_field job.payload "mime") in
                  let step = persist_outputs e w clip_id key mime outputs in
                  elim (Option-cases step.1) [
                    | inl x ↦ rw x (
                        on_option (IsSettled job.id) (e.fails finalize_enqueue)
                          (end_job-IsSettled e _ job _ run) (λ _. end_job-IsSettled e _ job _ run))
                    | inr (reason, x) ↦ rw x (end_job-IsSettled e _ job _ run)
                  ]))
              (λ _. end_job-IsSettled e _ job _ run))
    ]
  ]
]

process_finalize-IsSettled :
    (e : Env) (w : World) (job : Job)
    → e.fails job_end ≡ none
    → IsSettled job.id (process_finalize e w job)
unfolding process_finalize
process_finalize-IsSettled e w job run = elim (Option-cases (id_field job.payload "clip_id")) [
  | inl n ↦ rw n (bury_job-IsSettled e _ job _ run)
  | inr (clip_id, n) ↦ rw n (
      on_option (IsSettled job.id) (e.fails asset_stamp)
        (on_option (IsSettled job.id) (e.fails ready_flip)
          (let stamped = record w { assets = mark_ready_for_clip w.assets e.now clip_id } in
            let shown = record stamped { clips = mark_ready w.clips e.now clip_id } in
            let step = enqueue_clip_create e shown clip_id in
            elim (Option-cases step.1) [
              | inl x ↦ rw x (end_job-IsSettled e _ job _ run)
              | inr (reason, x) ↦ rw x (end_job-IsSettled e _ job _ run)
            ])
          (λ _. end_job-IsSettled e _ job _ run))
        (λ _. end_job-IsSettled e _ job _ run))
]

process_deliver_create-IsSettled :
    (e : Env) (w : World) (job : Job)
    → e.fails job_end ≡ none
    → IsSettled job.id (process_deliver_create e w job)
unfolding process_deliver_create deliver_create_payload of_clip from_author to_followers
process_deliver_create-IsSettled e w job run =
    payload (id_field job.payload "clip_id") (get job.payload (codes "activity"))
  where
    by_author : (v : Value) (a : Option Actor) → IsSettled job.id (from_author e w job v a)
    by_author v none = bury_job-IsSettled e _ job _ run
    by_author v (some a) =
        on_option (IsSettled job.id) (e.fails follower_read) (end_job-IsSettled e _ job _ run)
          (λ _. schedule_retry-IsSettled e _ job _ run)

    of_found : (v : Value) (c : Option Clip) → IsSettled job.id (of_clip e w job v c)
    of_found v none = bury_job-IsSettled e _ job _ run
    of_found v (some c) = by_author v _

    payload :
        (id : Option ℕ) (v : Option Value) → IsSettled job.id (deliver_create_payload e w job id v)
    payload none v = bury_job-IsSettled e _ job _ run
    payload (some id) none = bury_job-IsSettled e _ job _ run
    payload (some id) (some v) = of_found v _

process_deliver-IsSettled :
    (e : Env) (s : Senders) (w : World) (job : Job)
    → e.fails job_end ≡ none
    → IsSettled job.id (process_deliver e s w job)
unfolding process_deliver
process_deliver-IsSettled e s w job run =
    elim (Bool-cases (text_eq job.kind (codes "deliver_create"))) [
      | inl k ↦ rw k (process_deliver_create-IsSettled e w job run)
      | inr k ↦ rw k (outcome (s.deliver_job w job))
    ]
  where
    outcome : (r : Result String DeliverOutcome) → IsSettled job.id (delivered_job e w job r)
    outcome (ok delivered) = end_job-IsSettled e _ job _ run
    outcome (ok (rejected reason)) = end_job-IsSettled e _ job _ run
    outcome (ok (failed reason)) = schedule_retry-IsSettled e _ job _ run
    outcome (err reason) = schedule_retry-IsSettled e _ job _ run

-- A property of all branches of the dispatch.
either : (P : World → Type 0) (b : Bool) {f g : World} → P f → P g → P (if b then f else g)
either P true x y = x
either P false x y = y

process_backfill_job-IsSettled :
    (e : Env) (s : Senders) (w : World) (job : Job)
    → e.fails job_end ≡ none
    → IsSettled job.id (process_backfill_job e s w job)
unfolding process_backfill_job backfill_payload backfilled
process_backfill_job-IsSettled e s w job run =
    elim (Option-cases (and_then (get job.payload (codes "actor_id")) as_i64)) [
      | inl x ↦ rw x (bury_job-IsSettled e _ job _ run)
      | inr (actor_id, x) ↦ rw x (outcome _)
    ]
  where
    outcome : (r : World × Result String ℕ) → IsSettled job.id (backfilled e job r)
    outcome (v, ok created) = end_job-IsSettled e _ job _ run
    outcome (v, err detail) = bury_job-IsSettled e _ job _ run

-- Whatever else fails, when the update that ends the job succeeds, a handled job does not stay
-- claimed: no row of its id runs or is locked afterwards.
pub handle_job-IsSettled :
    (e : Env) (s : Senders) (w : World) (job : Job)
    → e.fails job_end ≡ none
    → IsSettled job.id (handle_job e s w job)
unfolding handle_job
handle_job-IsSettled e s w job run =
    let P = IsSettled job.id in
    either P (starts_with job.kind (codes "deliver")) (process_deliver-IsSettled e s w job run) (
      either P (text_eq job.kind (codes "probe")) (process_probe-IsSettled e w job run) (
        either P (text_eq job.kind (codes "transcode")) (process_transcode-IsSettled e w job run) (
          either P (text_eq job.kind (codes "finalize")) (process_finalize-IsSettled e w job run) (
            either P (text_eq job.kind (codes "backfill_actor"))
              (process_backfill_job-IsSettled e s w job run) (bury_job-IsSettled e _ job _ run)))))
