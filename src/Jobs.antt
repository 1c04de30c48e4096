-- ===== src/Jobs.antt =====
-- The job queue (crates/db/src/job.rs) and what the workers do to its rows
-- (crates/server/src/worker.rs: the reaper, the failure bump, the delivery retry and the delivery
-- worker). Each SQL statement is atomic, `now()` is an argument, in seconds, and a table is the
-- list of its rows. Columns with a CHECK on their values are data types.
pub mod Claims
pub mod Locks
pub mod Retries
pub mod Delivery
use toot_tok.Common.{
  ℕ, suc, ◌+◌, Bool, true, false, ◌&&◌, ◌||◌, leb, ltb, ◌==◌, if◌then◌else◌, Option, none, some,
  List, [], ◌∷◌, ◌++◌, map, filter, String,
}
use toot_tok.Common.Eq.{string_eq}
unfoldable pub use toot_tok.Common.Table.{update_where}
use toot_tok.Json.{Value}
use toot_tok.Common.Text.{Text, codes, starts_with}

pub data JobState : Type 0 where
  queued running done dead : JobState

pub record Job : Type 0 where
  pub id : ℕ
  pub kind : Text
  pub payload : Value
  pub run_after : ℕ
  pub attempts : ℕ
  pub max_attempts : ℕ
  pub last_error : Option String
  pub state : JobState
  pub locked_by : Option String
  pub locked_at : Option ℕ

abbrev pub is_queued : JobState → Bool
is_queued queued = true
is_queued _ = false

abbrev pub is_running : JobState → Bool
is_running running = true
is_running _ = false

-- SQL's `=` on a nullable column: NULL equals nothing.
abbrev pub same_worker : Option String → Option String → Bool
same_worker none w = false
same_worker (some v) none = false
same_worker (some v) (some w) = string_eq.beq v w

abbrev pub has_id : ℕ → Job → Bool
has_id id j = j.id == id

-- INSERT INTO jobs (kind, payload, run_after), with the defaults of the schema. `fresh` is the next
-- value of the sequence.
unfoldable pub create : List Job → ℕ → Text → Value → ℕ → List Job
create jobs fresh kind payload run_after =
    jobs
    ++ record {
      id = fresh;
      kind = kind;
      payload = payload;
      run_after = run_after;
      attempts = 0;
      max_attempts = 5;
      last_error = none;
      state = queued;
      locked_by = none;
      locked_at = none;
    }
      ∷ []

abbrev pub is_due : ℕ → Job → Bool
is_due now j = is_queued j.state && leb j.run_after now

abbrev earlier : Job → Option Job → Job
earlier j none = j
earlier j (some k) = if leb j.run_after k.run_after then j else k

-- ORDER BY run_after LIMIT 1, among the due rows. No other transaction holds a row's lock between
-- two statements, so SKIP LOCKED skips none.
unfoldable pub next_due : ℕ → List Job → Option Job
next_due now [] = none
next_due now (j ∷ js) =
    let rest = next_due now js in if is_due now j then some (earlier j rest) else rest

abbrev pub claimed : String → ℕ → Job → Job
claimed worker now j = record j { state = running; locked_by = some worker; locked_at = some now }

unfoldable pub claim_next_due : List Job → String → ℕ → List Job × Option Job
claim_next_due jobs worker now = elim (next_due now jobs) [
  | none ↦ (jobs, none)
  | some j ↦ (update_where (has_id j.id) (claimed worker now) jobs, some (claimed worker now j))
]

abbrev pub unlocked : JobState → Job → Job
unlocked state j = record j { state = state; locked_by = none; locked_at = none }

unfoldable pub mark_done : List Job → ℕ → Option String → List Job
mark_done jobs id last_error =
    update_where (has_id id) (λ j. record (unlocked done j) { last_error = last_error }) jobs

unfoldable pub dead_letter : List Job → ℕ → String → List Job
dead_letter jobs id error =
    update_where (has_id id) (λ j. record (unlocked dead j) { last_error = some error }) jobs

-- Whether one more failed attempt is the last one.
abbrev pub is_exhausted : Job → Bool
is_exhausted j = leb j.max_attempts (j.attempts + 1)

abbrev pub bumped : String → Job → Job
bumped reason j = record j {
  attempts = j.attempts + 1;
  state = if is_exhausted j then dead else queued;
  last_error = if is_exhausted j then some reason else j.last_error;
  locked_by = none;
  locked_at = none;
}

-- `locked_at < now() - timeout`, false of a NULL.
abbrev locked_before : ℕ → ℕ → Option ℕ → Bool
locked_before now timeout none = false
locked_before now timeout (some t) = ltb (t + timeout) now

unfoldable pub is_stale : ℕ → ℕ → Job → Bool
is_stale now timeout j = is_running j.state && locked_before now timeout j.locked_at

-- The statement of `reap_stale_jobs`.
unfoldable pub reap_stale : List Job → ℕ → ℕ → List Job
reap_stale jobs now timeout =
    update_where (is_stale now timeout) (bumped "reaper: max attempts") jobs

-- The condition of `bump_job_after_failure`: the row is still held by the worker of the snapshot.
unfoldable pub is_held : Job → Job → Bool
is_held snapshot j =
    j.id == snapshot.id && (same_worker j.locked_by snapshot.locked_by && is_running j.state)

unfoldable pub bump_after_failure : List Job → Job → String → List Job
bump_after_failure jobs snapshot reason = update_where (is_held snapshot) (bumped reason) jobs

-- attempts 0, 1, 2, … → 30 s, 2 min, 15 min.
unfoldable pub backoff_secs : ℕ → ℕ
backoff_secs attempts = if attempts == 0 then 30 else if attempts == 1 then 120 else 900

unfoldable pub schedule_deliver_retry : List Job → Job → ℕ → String → List Job
schedule_deliver_retry jobs job now reason =
    if is_exhausted job
    then dead_letter jobs job.id reason
    else update_where (has_id job.id)
        (λ j. record (unlocked queued j) {
          attempts = j.attempts + 1;
          last_error = some reason;
          run_after = now + backoff_secs job.attempts;
        })
        jobs

abbrev pub is_delivery : Job → Bool
is_delivery j = starts_with j.kind (codes "deliver")

-- The statement with which the delivery worker gives a job back.
unfoldable pub hand_back : List Job → ℕ → List Job
hand_back jobs id = update_where (has_id id) (unlocked queued) jobs

-- What a round of the delivery worker does: it sleeps, gives a job back, or delivers.
pub data Round : Type 0 where
  sleeps : Round
  gives_back : Round
  delivers : Job → Round

-- `deliver` is what `process_deliver` does to the table with a claimed job.
unfoldable pub delivery_round : (List Job → Job → List Job) → List Job → ℕ → List Job × Round
delivery_round deliver jobs now = elim ((claim_next_due jobs "delivery" now).1) [
  | none ↦ (jobs, sleeps)
  | some job ↦
      let held = (claim_next_due jobs "delivery" now).0 in
      if is_delivery job
      then (deliver held job, delivers job)
      else (hand_back held job.id, gives_back)
]
