-- ===== src/StorageWorker/Jobs.antt =====
-- Histories of app/storage_worker.py, and what becomes of the jobs in them.
use mathlib.Core.List.{append_assoc, append-nil}
use sigenergy_optimizer.Prelude.{
  ℕ, ◌-◌, ◌<◌, ◌≡◌, ◌≢◌, ◌⊎◌, length, refl, true, false, Option, none, some, List, [], ◌∷◌, ◌++◌,
  arith,
}
use sigenergy_optimizer.StorageWorker.{
  Job, Worker, create, submit, take_next, finish, cancel_all, close, ordinary_count,
}
use sigenergy_optimizer.StorageWorker.Admission.{
  IsValid, active, ordinary_jobs, create-IsValid, submit-IsValid, take_next-IsValid, finish-IsValid,
  close-IsValid,
}

-- Histories, with the jobs accepted so far.
pub data Reach : Worker → List Job → Type 0 where
  opened : (n : ℕ) {w : Worker} → create n ≡ some w → Reach w []
  submits :
      {w w' : Worker} {js : List Job} (j : Job)
      → Reach w js
      → submit j w ≡ some w'
      → Reach w' (js ++ j ∷ [])
  takes : {w : Worker} {js : List Job} → Reach w js → Reach (take_next w) js
  finishes : {w : Worker} {js : List Job} → Reach w js → Reach (finish w) js
  closes : {w : Worker} {js : List Job} → Reach w js → Reach (close w) js

-- Finished, running, waiting and cancelled jobs, in this order, are the accepted ones; jobs are
-- cancelled only by a stopping worker, whose queue is empty.
pub record Accounts (w : Worker) (js : List Job) : Type 0 where
  pub all : w.finished ++ (active w.running ++ (w.queue ++ w.cancelled)) ≡ js
  pub admission :
      ((w.stopping ≡ false) × (w.cancelled ≡ [])) ⊎ ((w.stopping ≡ true) × (w.queue ≡ []))

cancel_all_moves :
    (js : List Job) (w : Worker)
    → ((cancel_all js w).cancelled ≡ w.cancelled ++ js)
      × ((cancel_all js w).finished ≡ w.finished)
      × ((cancel_all js w).running ≡ w.running)
      × ((cancel_all js w).queue ≡ [])
      × ((cancel_all js w).stopping ≡ w.stopping)
unfolding cancel_all
cancel_all_moves [] w = ground (arith, append-nil w.cancelled)
cancel_all_moves (j ∷ js) w = ground (
  arith,
  append_assoc w.cancelled (j ∷ []) js,
  cancel_all_moves js (record w {
    outstanding = w.outstanding - 1;
    ordinary = w.ordinary - ordinary_count j;
    cancelled = w.cancelled ++ j ∷ [];
  }),
)

create-Accounts : (n : ℕ) (w : Worker) → create n ≡ some w → Accounts w []
unfolding create
create-Accounts n w h = ground arith

-- A job that joins the queue of an open worker is the last of all.
regroup :
    (f r q : List Job) (j : Job)
    → f ++ (r ++ ((q ++ j ∷ []) ++ [])) ≡ (f ++ (r ++ (q ++ []))) ++ j ∷ []
regroup f r q j = simp (append_assoc, append-nil)

submit-Accounts :
    (j : Job) (w w' : Worker) (js : List Job)
    → Accounts w js
    → submit j w ≡ some w'
    → Accounts w' (js ++ j ∷ [])
unfolding submit
submit-Accounts j w w' js a h = ground (arith, regroup w.finished (active w.running) w.queue j)

take_next-Accounts : (w : Worker) (js : List Job) → Accounts w js → Accounts (take_next w) js
unfolding take_next
take_next-Accounts w js a = ground arith

finish-Accounts : (w : Worker) (js : List Job) → Accounts w js → Accounts (finish w) js
unfolding finish
finish-Accounts w js a = from w.running refl
  where
    from : (o : Option Job) → w.running ≡ o → Accounts (finish w) js
    from none e = ground arith
    from (some j) e = ground (arith, append_assoc w.finished (j ∷ []) (w.queue ++ w.cancelled))

close-Accounts : (w : Worker) (js : List Job) → Accounts w js → Accounts (close w) js
unfolding close
close-Accounts w js a = ground (
  arith,
  cancel_all_moves w.queue (record w { stopping = true }),
  append-nil w.queue,
  append-nil w.cancelled,
)

-- In every history of a worker, the jobs that finished, the one that runs, those that wait and those
-- that were cancelled are, in this order, exactly the jobs that were accepted: none is lost, none is
-- resolved twice, and the order of acceptance is kept. Only a stopping worker has cancelled jobs.
pub accepted_jobs_are_resolved_in_order : {w : Worker} {js : List Job} → Reach w js → Accounts w js
accepted_jobs_are_resolved_in_order {w} (opened n h) = create-Accounts n w h
accepted_jobs_are_resolved_in_order {w} (submits {w = v} {js = js} j r h) =
    submit-Accounts j v w js (accepted_jobs_are_resolved_in_order r) h
accepted_jobs_are_resolved_in_order (takes {w = v} {js = js} r) =
    take_next-Accounts v js (accepted_jobs_are_resolved_in_order r)
accepted_jobs_are_resolved_in_order (finishes {w = v} {js = js} r) =
    finish-Accounts v js (accepted_jobs_are_resolved_in_order r)
accepted_jobs_are_resolved_in_order (closes {w = v} {js = js} r) =
    close-Accounts v js (accepted_jobs_are_resolved_in_order r)

-- In every history the counters count the queued and running jobs and stay within the capacity.
pub Reach-IsValid : {w : Worker} {js : List Job} → Reach w js → IsValid w
Reach-IsValid {w} (opened n h) = create-IsValid n w h
Reach-IsValid {w} (submits {w = v} j r h) = submit-IsValid j v w (Reach-IsValid r) h
Reach-IsValid (takes {w = v} r) = take_next-IsValid v (Reach-IsValid r)
Reach-IsValid (finishes {w = v} r) = finish-IsValid v (Reach-IsValid r)
Reach-IsValid (closes {w = v} r) = close-IsValid v (Reach-IsValid r)

-- Jobs none of which is an accounting job.
abbrev pub AllOrdinary : List Job → Type 0
AllOrdinary [] = Unit
AllOrdinary (j ∷ js) = (j.accounting ≡ false) × AllOrdinary js

all_count : (js : List Job) → AllOrdinary js → ordinary_jobs js ≡ length js
all_count [] o = refl
all_count (j ∷ js) (o, os) = ground (arith, all_count js os)

open_place :
    (j : Job) (w : Worker)
    → w.outstanding < w.capacity
    → w.stopping ≡ false
    → j.accounting ≡ true
    → submit j w ≢ none
unfolding submit
open_place j w room s o = ground arith

-- In every history, while no waiting and no running job is an accounting job, a worker that is not
-- stopping accepts an accounting job, however many ordinary jobs wait.
pub accounting_is_admitted :
    {w : Worker} {js : List Job} (j : Job)
    → Reach w js
    → w.stopping ≡ false
    → AllOrdinary (active w.running)
    → AllOrdinary w.queue
    → j.accounting ≡ true
    → submit j w ≢ none
unfolding submit
accounting_is_admitted {w} j r s a q o =
    let v = Reach-IsValid r in
    let running = all_count (active w.running) a in
    let waiting = all_count w.queue q in
    let room : w.outstanding < w.capacity =
      omega (arith, v.outstanding, v.ordinary, v.reserved, running, waiting) in
    open_place j w room s o
