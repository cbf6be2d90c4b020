-- ===== src/StorageWorker.antt =====
-- app/storage_worker.py: one database thread with bounded admission. A job is its number and its
-- `accounting` flag; `finished` and `cancelled` list the futures that were resolved, oldest first.
-- What a job computes, and the waiter's timeouts, which leave the worker alone, are not part of it.
pub mod Admission
pub mod Jobs
pub mod Tests
use sigenergy_optimizer.Prelude.{
  ℕ, suc, ◌+◌, ◌-◌, Bool, true, false, not, ◌&&◌, ◌||◌, Option, none, some, List, [], ◌∷◌, ◌++◌,
  ltb, leb, if◌then◌else◌,
}

pub record Job : Type 0 where
  pub number : ℕ
  pub accounting : Bool

pub record Worker : Type 0 where
  pub capacity : ℕ
  pub queue : List Job
  pub running : Option Job
  pub outstanding : ℕ
  pub ordinary : ℕ
  pub stopping : Bool
  pub closed : Bool
  pub finished : List Job
  pub cancelled : List Job

-- `__init__`; `none` is the `ValueError`.
unfoldable pub create : ℕ → Option Worker
create capacity =
    if ltb capacity 2
    then none
    else some (record {
      capacity = capacity;
      queue = [];
      running = none;
      outstanding = 0;
      ordinary = 0;
      stopping = false;
      closed = false;
      finished = [];
      cancelled = [];
    })

-- `int(not accounting)`
abbrev pub ordinary_count : Job → ℕ
ordinary_count j = if j.accounting then 0 else 1

-- `submit`; `none` is `StorageUnavailable`.
unfoldable pub submit : Job → Worker → Option Worker
submit j w =
    if w.stopping
      || (leb w.capacity w.outstanding || not j.accounting && leb (w.capacity - 1) w.ordinary)
    then none
    else some (record w {
      outstanding = w.outstanding + 1;
      ordinary = w.ordinary + ordinary_count j;
      queue = w.queue ++ j ∷ [];
    })

abbrev pop : List Job → Worker → Worker
pop [] w = w
pop (j ∷ js) w = record w { queue = js; running = some j }

abbrev pick : Option Job → Worker → Worker
pick (some j) w = w
pick none w = if w.stopping then record w { closed = true } else pop w.queue w

-- The loop of `_run` when no job runs: it waits, ends the thread, or takes the oldest job.
unfoldable pub take_next : Worker → Worker
take_next w = if w.closed then w else pick w.running w

abbrev release : Option Job → Worker → Worker
release none w = w
release (some j) w = record w {
  running = none;
  outstanding = w.outstanding - 1;
  ordinary = w.ordinary - ordinary_count j;
  finished = w.finished ++ j ∷ [];
}

-- The `finally` of a job, whether it returned or raised.
unfoldable pub finish : Worker → Worker
finish w = release w.running w

-- `while self._queue:` of `close`
unfoldable pub cancel_all : List Job → Worker → Worker
cancel_all [] w = record w { queue = [] }
cancel_all (j ∷ js) w = cancel_all js (record w {
  outstanding = w.outstanding - 1;
  ordinary = w.ordinary - ordinary_count j;
  cancelled = w.cancelled ++ j ∷ [];
})

unfoldable pub close : Worker → Worker
unfolding cancel_all
close w = cancel_all w.queue (record w { stopping = true })
