-- ===== src/StorageWorker/Admission.antt =====
-- The counters of app/storage_worker.py and the jobs that they count.
use sigenergy_optimizer.Prelude.{
  ℕ, ◌+◌, ◌-◌, ◌≤◌, ◌<◌, ◌≡◌, true, Option, none, some, List, [], ◌∷◌, ◌++◌, arith, length,
  length-append,
}
use sigenergy_optimizer.StorageWorker.{
  Job, Worker, create, submit, take_next, finish, cancel_all, close, ordinary_count,
}

abbrev pub ordinary_jobs : List Job → ℕ
ordinary_jobs [] = 0
ordinary_jobs (j ∷ js) = ordinary_count j + ordinary_jobs js

abbrev pub active : Option Job → List Job
active none = []
active (some j) = j ∷ []

ordinary-append :
    (xs ys : List Job) → ordinary_jobs (xs ++ ys) ≡ ordinary_jobs xs + ordinary_jobs ys
ordinary-append [] ys = omega arith
ordinary-append (x ∷ xs) ys = omega (arith, ordinary-append xs ys)

ordinary-le-length : (xs : List Job) → ordinary_jobs xs ≤ length xs
ordinary-le-length [] = omega arith
ordinary-le-length (x ∷ xs) = ground (arith, ordinary-le-length xs)

-- The counters count the queued and the running jobs, and stay within the capacity, of which one
-- place is kept from ordinary jobs. A stopping worker has an empty queue.
pub record IsValid (w : Worker) : Type 0 where
  pub room : 2 ≤ w.capacity
  pub outstanding : w.outstanding ≡ length (active w.running) + length w.queue
  pub ordinary : w.ordinary ≡ ordinary_jobs (active w.running) + ordinary_jobs w.queue
  pub bounded : w.outstanding ≤ w.capacity
  pub reserved : w.ordinary < w.capacity

pub create-IsValid : (n : ℕ) (w : Worker) → create n ≡ some w → IsValid w
unfolding create
create-IsValid n w h = ground arith

pub submit-IsValid : (j : Job) (w w' : Worker) → IsValid w → submit j w ≡ some w' → IsValid w'
unfolding submit
submit-IsValid j w w' v h =
    ground (arith, length-append w.queue (j ∷ []), ordinary-append w.queue (j ∷ []))

pub take_next-IsValid : (w : Worker) → IsValid w → IsValid (take_next w)
unfolding take_next
take_next-IsValid w v = ground arith

pub finish-IsValid : (w : Worker) → IsValid w → IsValid (finish w)
unfolding finish
finish-IsValid w v = ground arith

-- `close` takes exactly the queued jobs off the counters.
cancel_all_counts :
    (js : List Job) (w : Worker)
    → length js ≤ w.outstanding
    → ordinary_jobs js ≤ w.ordinary
    → ((cancel_all js w).outstanding + length js ≡ w.outstanding)
      × ((cancel_all js w).ordinary + ordinary_jobs js ≡ w.ordinary)
      × ((cancel_all js w).queue ≡ [])
      × ((cancel_all js w).running ≡ w.running)
      × ((cancel_all js w).capacity ≡ w.capacity)
      × ((cancel_all js w).stopping ≡ w.stopping)
unfolding cancel_all
cancel_all_counts [] w h k = ground arith
cancel_all_counts (j ∷ js) w h k = ground (
  arith,
  cancel_all_counts js (record w {
    outstanding = w.outstanding - 1;
    ordinary = w.ordinary - ordinary_count j;
    cancelled = w.cancelled ++ j ∷ [];
  }),
)

pub close-IsValid : (w : Worker) → IsValid w → IsValid (close w)
unfolding close
close-IsValid w v = ground (arith, cancel_all_counts w.queue (record w { stopping = true }))

-- After `close` nothing is queued, only a running job is still counted, and nothing is admitted.
close_drains :
    (w : Worker) (j : Job)
    → IsValid w
    → ((close w).queue ≡ [])
      × ((close w).outstanding ≡ length (active w.running))
      × ((close w).running ≡ w.running)
      × (submit j (close w) ≡ none)
unfolding close submit
close_drains w j v = ground (arith, cancel_all_counts w.queue (record w { stopping = true }))
