-- ===== src/Pool/Tests.antt =====
-- A pool of one thread, which locks first, or after a job is pushed.
use cand_cppwith_linux.Base.{ℕ, ◌<◌, ◌≡◌, ◌≢◌, refl, true, false, List, [], ◌∷◌, ◌++◌, ok, arith}
use cand_cppwith_linux.Pool.{
  Work, ThreadPool, testing, fronted, holding, signalling, producer, worker, Event, called, pushed,
  took, other, lock, front, pop_front, signal_none, leave, call, enter, push, of_worker, of_queue,
  Steps, start, after, thread_pool_init, new_pool, moved, set_worker,
}
use cand_cppwith_linux.Pool.Order.{jobs, pushes, takes, worker-takes_in_order}
use cand_cppwith_linux.Pool.Lock.{is_inside, is_calling, worker-excludes}
use cand_cppwith_linux.Pool.Progress.{Goes, thread_pool_init-Goes}

abbrev a_job : Work
a_job = record { f = 1; arg = 2 }

abbrev locked_pool : ThreadPool
locked_pool = record (moved (new_pool 1) 0 testing) { mu = worker 0 }

locks : Steps (new_pool 1) (other ∷ []) locked_pool
locks = after other start (of_worker 0 (omega arith) (lock refl refl))

abbrev full_pool : ThreadPool
full_pool = record (new_pool 1) { caller = signalling; mu = producer; queue = a_job ∷ [] }

abbrev queued : List Event
queued = called a_job ∷ other ∷ pushed a_job ∷ []

queues : Steps (new_pool 1) queued full_pool
queues =
    after (pushed a_job)
      (after other (after (called a_job) start (of_queue (call a_job refl)))
        (of_queue (enter a_job refl refl)))
      (of_queue (push a_job refl))

one_thread : thread_pool_init 1 ≡ ok (new_pool 1)
unfolding thread_pool_init
one_thread = refl

not_empty : full_pool.queue ≢ []
not_empty e = cc

-- the worker takes the job behind the call
abbrev left_pool : ThreadPool
left_pool = record (new_pool 1) { queue = a_job ∷ [] }

abbrev front_pool : ThreadPool
front_pool =
    record (moved (record (moved left_pool 0 testing) { mu = worker 0 }) 0 (fronted a_job)) {
      mu = worker 0;
    }

abbrev taken_pool : ThreadPool
taken_pool = record (moved front_pool 0 (holding a_job)) { queue = [] }

abbrev served : List Event
served = queued ++ (other ∷ other ∷ other ∷ other ∷ took a_job ∷ [])

serves : Steps (new_pool 1) served taken_pool
unfolding set_worker
serves =
    let signalled = after other queues (of_queue (signal_none refl (λ i h. refl))) in
    let left = after other signalled (of_queue (leave refl)) in
    let inside = after other left (of_worker 0 (omega arith) (lock refl refl)) in
    let seen = after other inside (of_worker 0 (omega arith) (front a_job [] refl refl)) in
    after (took a_job) seen (of_worker 0 (omega arith) (pop_front a_job a_job [] refl refl))

worker-takes_in_order_example : jobs pushes served ≡ jobs takes served ++ []
worker-takes_in_order_example =
    worker-takes_in_order 1 (new_pool 1) taken_pool served one_thread serves

worker_inside : is_inside (locked_pool.workers 0) ≡ true
unfolding set_worker
worker_inside = refl

worker-excludes_example :
    ((j : ℕ) → j < 1 → is_inside (locked_pool.workers j) ≡ true → j ≡ 0)
    × (is_calling (locked_pool.caller) ≡ false)
worker-excludes_example =
    worker-excludes 1 (new_pool 1) locked_pool (other ∷ []) 0 one_thread locks (omega arith)
      worker_inside

thread_pool_init-Goes_example : Goes full_pool
thread_pool_init-Goes_example =
    thread_pool_init-Goes 1 (new_pool 1) full_pool queued one_thread queues not_empty
