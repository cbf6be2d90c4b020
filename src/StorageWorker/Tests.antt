-- ===== src/StorageWorker/Tests.antt =====
-- Runs of app/storage_worker.py, and the theorems at them.
use sigenergy_optimizer.Prelude.{◌≡◌, ◌≢◌, refl, true, false, none, [], ◌∷◌}
use sigenergy_optimizer.StorageWorker.{Job, Worker, create, submit, take_next, close}
use sigenergy_optimizer.StorageWorker.Admission.{IsValid}
use sigenergy_optimizer.StorageWorker.Jobs.{
  Reach, opened, submits, takes, closes, Accounts, accepted_jobs_are_resolved_in_order,
  Reach-IsValid, accounting_is_admitted,
}

abbrev new_worker : Worker
new_worker = record {
  capacity = 2;
  queue = [];
  running = none;
  outstanding = 0;
  ordinary = 0;
  stopping = false;
  closed = false;
  finished = [];
  cancelled = [];
}

abbrev ordinary_job : Job
ordinary_job = record { number = 1; accounting = false }

abbrev accounting_job : Job
accounting_job = record { number = 2; accounting = true }

abbrev one_job : Worker
one_job = record new_worker { queue = ordinary_job ∷ []; outstanding = 1; ordinary = 1 }

to_one_job : Reach one_job (ordinary_job ∷ [])
unfolding create submit
to_one_job = submits ordinary_job (opened 2 refl) refl

-- A second ordinary job is refused, an accounting job is not.
second_ordinary : submit ordinary_job one_job ≡ none
unfolding submit
second_ordinary = refl

accounting_is_admitted_example : submit accounting_job one_job ≢ none
accounting_is_admitted_example =
    accounting_is_admitted accounting_job to_one_job refl tt (refl, tt) refl

accepted_jobs_are_resolved_in_order_example :
    Accounts (close (take_next one_job)) (ordinary_job ∷ [])
accepted_jobs_are_resolved_in_order_example =
    accepted_jobs_are_resolved_in_order (closes (takes to_one_job))

Reach-IsValid_example : IsValid (close (take_next one_job))
Reach-IsValid_example = Reach-IsValid (closes (takes to_one_job))
