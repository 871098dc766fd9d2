-- ===== src/Pool.antt =====
-- ownRedisUsingCpp/thread_pool.h and thread_pool.cpp: the queue of jobs, its mutex and its condition
-- variable, with the threads that run worker and one thread that calls thread_pool_queue. A step is
-- what a thread does between two points at which others can interfere; of the mutex and the condition
-- variable it takes what pthreads documents: a lock is granted when the mutex is free,
-- pthread_cond_wait releases the mutex and takes it again after it woke, pthread_cond_signal wakes a
-- waiting thread if there is one, and a waiting thread may wake without a signal. The creation of
-- mutex, condition variable and threads succeeds.
pub mod Lock
pub mod Front
pub mod Order
pub mod Progress
mod Tests
use cand_cppwith_linux.Base.{
  ℕ, ◌<◌, ◌≡◌, Bool, true, false, Option, none, some, List, [], ◌∷◌, ◌++◌, Run, ok, check, ◌>>◌,
  ltb, ◌==◌, if◌then◌else◌,
}
use cand_cppwith_linux.Memory.{Ptr}

-- a function and its argument
pub record Work : Type 0 where
  pub f : Ptr
  pub arg : Ptr

-- where a thread in worker is: before the lock, at the test of the queue, behind front(), in the
-- wait, back in it for the mutex, with a job before the unlock, and in the job
pub data Worker : Type 0 where
  locking : Worker
  testing : Worker
  fronted : Work → Worker
  waiting : Worker
  woken : Worker
  holding : Work → Worker
  running : Work → Worker

-- where the caller of thread_pool_queue is: in no call, before the lock, before the push, before the
-- signal, and before the unlock
pub data Producer : Type 0 where
  outside : Producer
  asking : Work → Producer
  pushing : Work → Producer
  signalling : Producer
  leaving : Producer

pub data Owner : Type 0 where
  nobody : Owner
  producer : Owner
  worker : ℕ → Owner

pub record ThreadPool : Type 0 where
  pub threads : ℕ
  pub workers : ℕ → Worker
  pub caller : Producer
  pub queue : List Work
  pub mu : Owner

-- what a step does for the jobs
pub data Event : Type 0 where
  called : Work → Event
  pushed : Work → Event
  took : Work → Event
  ran : Work → Event
  woke : Event
  other : Event

unfoldable pub set_worker : (ℕ → Worker) → ℕ → Worker → ℕ → Worker
set_worker workers i w j = if j == i then w else workers j

abbrev pub new_pool : ℕ → ThreadPool
new_pool num_threads = record {
  threads = num_threads;
  workers = λ _. locking;
  caller = outside;
  queue = [];
  mu = nobody;
}

unfoldable pub thread_pool_init : ℕ → Run ThreadPool
thread_pool_init num_threads = check (ltb 0 num_threads) >> ok (new_pool num_threads)

-- thread `i` of worker, to the state `w`
abbrev pub moved : ThreadPool → ℕ → Worker → ThreadPool
moved tp i w = record tp { workers = set_worker tp.workers i w }

-- a step of a thread in worker
pub data WorkerStep (tp : ThreadPool) (i : ℕ) : Event → ThreadPool → Type 0 where
  lock :
      tp.workers i ≡ locking
      → tp.mu ≡ nobody
      → WorkerStep tp i other (record (moved tp i testing) { mu = worker i })
  wait :
      tp.workers i ≡ testing
      → tp.queue ≡ []
      → WorkerStep tp i other (record (moved tp i waiting) { mu = nobody })
  spurious : tp.workers i ≡ waiting → WorkerStep tp i woke (moved tp i woken)
  relock :
      tp.workers i ≡ woken
      → tp.mu ≡ nobody
      → WorkerStep tp i other (record (moved tp i testing) { mu = worker i })
  front :
      (w : Work) (rest : List Work)
      → tp.workers i ≡ testing
      → tp.queue ≡ w ∷ rest
      → WorkerStep tp i other (moved tp i (fronted w))
  pop_front :
      (w head : Work) (rest : List Work)
      → tp.workers i ≡ fronted w
      → tp.queue ≡ head ∷ rest
      → WorkerStep tp i (took w) (record (moved tp i (holding w)) { queue = rest })
  unlock :
      (w : Work)
      → tp.workers i ≡ holding w
      → WorkerStep tp i other (record (moved tp i (running w)) { mu = nobody })
  run : (w : Work) → tp.workers i ≡ running w → WorkerStep tp i (ran w) (moved tp i locking)

abbrev pub is_waiting : Worker → Bool
is_waiting waiting = true
is_waiting _ = false

-- a step of thread_pool_queue
pub data QueueStep (tp : ThreadPool) : Event → ThreadPool → Type 0 where
  call :
      (w : Work) → tp.caller ≡ outside → QueueStep tp (called w) (record tp { caller = asking w })
  enter :
      (w : Work)
      → tp.caller ≡ asking w
      → tp.mu ≡ nobody
      → QueueStep tp other (record tp { caller = pushing w; mu = producer })
  push :
      (w : Work)
      → tp.caller ≡ pushing w
      → QueueStep tp (pushed w) (record tp { caller = signalling; queue = tp.queue ++ (w ∷ []) })
  signal :
      (i : ℕ)
      → tp.caller ≡ signalling
      → i < tp.threads
      → tp.workers i ≡ waiting
      → QueueStep tp other (record (moved tp i woken) { caller = leaving })
  signal_none :
      tp.caller ≡ signalling
      → ((i : ℕ) → i < tp.threads → is_waiting (tp.workers i) ≡ false)
      → QueueStep tp other (record tp { caller = leaving })
  leave : tp.caller ≡ leaving → QueueStep tp other (record tp { caller = outside; mu = nobody })

pub data Step (tp : ThreadPool) (e : Event) (tp' : ThreadPool) : Type 0 where
  of_worker : (i : ℕ) → i < tp.threads → WorkerStep tp i e tp' → Step tp e tp'
  of_queue : QueueStep tp e tp' → Step tp e tp'

pub data Steps (tp : ThreadPool) : List Event → ThreadPool → Type 0 where
  start : Steps tp [] tp
  after :
      {es : List Event} {tp' tp'' : ThreadPool} (e : Event)
      → Steps tp es tp'
      → Step tp' e tp''
      → Steps tp (es ++ (e ∷ [])) tp''
