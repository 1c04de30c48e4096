-- ===== src/Worker/Deliveries.antt =====
-- The deliveries of an announcement (crates/server/src/worker.rs, `process_deliver_create`).
use toot_tok.Common.{
  ℕ, suc, ◌≡◌, refl, ◌∙◌, ap, Option, none, some, List, [], ◌∷◌, ◌++◌, Option-cases, inl, inr,
}
use toot_tok.Common.Text.{Text, codes}
use toot_tok.Db.Actors.{Actor, shared_inbox_or_inbox}
use toot_tok.Jobs.{Job, create, queued}
use toot_tok.Json.{Value, integer, pos, string, json}
use toot_tok.Worker.{Env, World, enqueue, delivery_enqueue}
use toot_tok.Worker.Fanout.{fan_out, delivery_payload}

-- The job of one delivery: the author signs, and the activity goes to the inbox.
abbrev pub delivery : Env → ℕ → ℕ → Text → Value → Job
delivery e id author inbox activity = record {
  id = id;
  kind = codes "deliver";
  payload = json (
      (codes "actor_id", integer (pos author))
      ∷ (codes "inbox_url", string inbox)
      ∷ (codes "activity", activity)
      ∷ []);
  run_after = e.now;
  attempts = 0;
  max_attempts = 5;
  last_error = none;
  state = queued;
  locked_by = none;
  locked_at = none;
}

-- The shared inbox of a server that advertises one, and the personal one of any other.
abbrev pub inbox_of : Option Text → Text → Text
inbox_of (some shared) personal = shared
inbox_of none personal = personal

-- One queued job for each follower whose enqueueing succeeds, numbered from the sequence's next
-- value, due now, and the number of the others.
abbrev pub deliveries : Env → ℕ → ℕ → Value → List Actor → List Job × ℕ
deliveries e next author activity [] = ([], 0)
deliveries e next author activity (f ∷ fs) =
    let rest = deliveries e next author activity fs in
    let sent = deliveries e (suc next) author activity fs in
    elim (e.fails (delivery_enqueue f.id)) [
      | some x ↦ (rest.0, suc rest.1)
      | none ↦ (
        delivery e next author (inbox_of f.shared_inbox_url f.inbox_url) activity ∷ sent.0,
        sent.1,
      )
    ]

inbox_of-actor : (f : Actor) → shared_inbox_or_inbox f ≡ inbox_of f.shared_inbox_url f.inbox_url
unfolding shared_inbox_or_inbox
inbox_of-actor f = elim (Option-cases f.shared_inbox_url) [
  | inl e ↦ rw e refl
  | inr (s, e) ↦ rw e refl
]

append_assoc : (xs ys zs : List Job) → (xs ++ ys) ++ zs ≡ xs ++ (ys ++ zs)
append_assoc [] ys zs = refl
append_assoc (x ∷ xs) ys zs = ap (λ v. x ∷ v) (append_assoc xs ys zs)

append-nil : (xs : List Job) → xs ≡ xs ++ []
append-nil [] = refl
append-nil (x ∷ xs) = ap (λ v. x ∷ v) (append-nil xs)

-- The fan-out puts behind the jobs that are there one delivery for each follower whose enqueueing
-- succeeds, to the follower's shared inbox or, when it has none, to its personal one, signed by the
-- author, and counts the followers whose enqueueing fails.
pub fan_out-deliveries :
    (e : Env) (w : World) (author : ℕ) (activity : Value) (fs : List Actor)
    → let jobs = deliveries e w.next_job author activity fs in
      (((fan_out e w author activity fs).0).jobs ≡ w.jobs ++ jobs.0)
      × ((fan_out e w author activity fs).1 ≡ jobs.1)
unfolding fan_out enqueue create delivery_payload
fan_out-deliveries e w author activity [] = (append-nil w.jobs, refl)
fan_out-deliveries e w author activity (f ∷ fs) =
    let payload = delivery_payload author (inbox_of f.shared_inbox_url f.inbox_url) activity in
    elim (Option-cases (e.fails (delivery_enqueue f.id))) [
      | inl h ↦
          let ih = fan_out-deliveries e (enqueue e w "deliver" payload) author activity fs in
          rw (h, fan_out, deliveries, inbox_of-actor f) (ih.0 ∙ append_assoc w.jobs _ _, ih.1)
      | inr (x, h) ↦
          let ih = fan_out-deliveries e w author activity fs in
          rw (h, fan_out, deliveries) (ih.0, ap suc ih.1)
    ]
