-- ===== src/Jobs/Delivery.antt =====
-- The rounds of the delivery worker (crates/server/src/worker.rs, `spawn_delivery_worker`).
use toot_tok.Common.{
  ℕ, ◌≡◌, refl, sym, ap, ◌∙◌, true, false, if◌then◌else◌, some, List, [], ◌∷◌, All, Bool-cases, inl,
  inr, String, ◌==◌,
}
use toot_tok.Jobs.{
  Job, queued, update_where, claimed, unlocked, has_id, claim_next_due, next_due, hand_back,
  is_delivery, delivery_round, gives_back,
}

unfoldable pub delivery_rounds : (List Job → Job → List Job) → List Job → List ℕ → List Job
delivery_rounds deliver jobs [] = jobs
delivery_rounds deliver jobs (t ∷ ts) = delivery_rounds deliver (delivery_round deliver jobs t).0 ts

-- Every row with the id is queued and holds no lock.
abbrev pub IsWaiting : ℕ → List Job → Type 0
IsWaiting id js = All (λ k. (k.id == id) ≡ true → k ≡ unlocked queued k) js

back-claimed :
    (id : ℕ) (worker : String) (now : ℕ) (j : Job)
    → ((j.id == id) ≡ true → j ≡ unlocked queued j)
    → (if has_id id (if has_id id j then claimed worker now j else j)
        then unlocked queued (if has_id id j then claimed worker now j else j)
        else (if has_id id j then claimed worker now j else j))
      ≡ j
back-claimed id worker now j h = elim (Bool-cases (j.id == id)) [
  | inl e ↦ rw e (rw e (sym (h e)))
  | inr e ↦ rw e (rw e refl)
]

hand_back-claimed :
    (js : List Job) (id : ℕ) (worker : String) (now : ℕ)
    → IsWaiting id js
    → hand_back (update_where (has_id id) (claimed worker now) js) id ≡ js
unfolding update_where hand_back
hand_back-claimed [] id worker now h = refl
hand_back-claimed (j ∷ js) id worker now h =
    rw (hand_back-claimed js id worker now h.1)
      (ap (λ t. t ∷ js) (back-claimed id worker now j h.0))

round-gives_back :
    (deliver : List Job → Job → List Job) (jobs : List Job) (now : ℕ) (j : Job)
    → next_due now jobs ≡ some j
    → is_delivery j ≡ false
    → IsWaiting j.id jobs
    → delivery_round deliver jobs now ≡ (jobs, gives_back)
unfolding delivery_round claim_next_due
round-gives_back deliver jobs now j e d w =
    rw (e, delivery_round, claim_next_due)
      (rw (d, e, claim_next_due)
        (ap (λ t. (t, gives_back)) (hand_back-claimed jobs j.id "delivery" now w)))

-- As long as the first due job, at the time of every round, is one job that is not a delivery and
-- whose row holds no lock, the delivery worker's rounds leave the table as it is: no delivery that
-- is due behind that job is sent, however many rounds there are.
pub delivery_starves :
    (deliver : List Job → Job → List Job) (jobs : List Job) (times : List ℕ) (j : Job)
    → All (λ t. next_due t jobs ≡ some j) times
    → is_delivery j ≡ false
    → IsWaiting j.id jobs
    → delivery_rounds deliver jobs times ≡ jobs
unfolding delivery_rounds
delivery_starves deliver jobs [] j e d w = refl
delivery_starves deliver jobs (t ∷ ts) j e d w =
    ap (λ r. delivery_rounds deliver r.0 ts) (round-gives_back deliver jobs t j e.0 d w)
    ∙ delivery_starves deliver jobs ts j e.1 d w
