-- ===== src/Pool/Order.antt =====
-- The order in which the workers take the jobs.
use mathlib.Core.List.{append_assoc, append-nil}
use cand_cppwith_linux.Base.{ℕ, ◌<◌, ◌≡◌, refl, sym, ap, ◌∙◌, List, [], ◌∷◌, ◌++◌, ok}
use cand_cppwith_linux.Pool.{
  Work, ThreadPool, Event, pushed, took, WorkerStep, lock, wait, spurious, relock, front, pop_front,
  unlock, run, QueueStep, call, enter, push, signal, signal_none, leave, Step, of_worker, of_queue,
  Steps, start, after, thread_pool_init,
}
use cand_cppwith_linux.Pool.Lock.{init-new}
use cand_cppwith_linux.Pool.Front.{IsFront, new-IsFront, steps-IsFront, front-head}

-- the jobs that a step pushes and takes
unfoldable pub pushes : Event → List Work
pushes (pushed w) = w ∷ []
pushes _ = []

unfoldable pub takes : Event → List Work
takes (took w) = w ∷ []
takes _ = []

unfoldable pub jobs : (Event → List Work) → List Event → List Work
jobs f [] = []
jobs f (e ∷ es) = f e ++ jobs f es

jobs-append :
    (f : Event → List Work) (es fs : List Event) → jobs f (es ++ fs) ≡ jobs f es ++ jobs f fs
unfolding jobs
jobs-append f [] fs = refl
jobs-append f (e ∷ es) fs =
    ap (λ l. f e ++ l) (jobs-append f es fs) ∙ sym (append_assoc (f e) (jobs f es) (jobs f fs))

jobs-last :
    (f : Event → List Work) (es : List Event) (e : Event)
    → jobs f (es ++ (e ∷ [])) ≡ jobs f es ++ f e
unfolding jobs
jobs-last f es e = jobs-append f es (e ∷ []) ∙ ap (λ l. jobs f es ++ l) (append-nil (f e))

-- a step appends what it pushes to the queue, and what it takes was at its head
worker_queue :
    {tp : ThreadPool} {e : Event} (i : ℕ) {tp' : ThreadPool}
    → IsFront tp
    → i < tp.threads
    → WorkerStep tp i e tp'
    → tp.queue ++ pushes e ≡ takes e ++ tp'.queue
unfolding pushes takes
worker_queue {tp} i v h (lock a b) = append-nil (tp.queue)
worker_queue {tp} i v h (wait a b) = append-nil (tp.queue)
worker_queue {tp} i v h (spurious a) = append-nil (tp.queue)
worker_queue {tp} i v h (relock a b) = append-nil (tp.queue)
worker_queue {tp} i v h (front w rest a b) = append-nil (tp.queue)
worker_queue {tp} i v h (pop_front w head rest a b) =
    append-nil (tp.queue) ∙ (b ∙ ap (λ x. x ∷ rest) (front-head tp v i h w head rest a b))
worker_queue {tp} i v h (unlock w a) = append-nil (tp.queue)
worker_queue {tp} i v h (run w a) = append-nil (tp.queue)

caller_queue :
    {tp : ThreadPool} {e : Event} {tp' : ThreadPool}
    → QueueStep tp e tp'
    → tp.queue ++ pushes e ≡ takes e ++ tp'.queue
unfolding pushes takes
caller_queue {tp} (call w a) = append-nil (tp.queue)
caller_queue {tp} (enter w a b) = append-nil (tp.queue)
caller_queue {tp} (push w a) = refl
caller_queue {tp} (signal i a b c) = append-nil (tp.queue)
caller_queue {tp} (signal_none a b) = append-nil (tp.queue)
caller_queue {tp} (leave a) = append-nil (tp.queue)

Step-queue :
    {tp : ThreadPool} {e : Event} {tp' : ThreadPool}
    → IsFront tp
    → Step tp e tp'
    → tp.queue ++ pushes e ≡ takes e ++ tp'.queue
Step-queue v (of_worker i h s) = worker_queue i v h s
Step-queue v (of_queue s) = caller_queue s

steps_queue :
    {tp tp' : ThreadPool} {es : List Event}
    → IsFront tp
    → tp.queue ≡ []
    → Steps tp es tp'
    → jobs pushes es ≡ jobs takes es ++ tp'.queue
unfolding jobs
steps_queue v empty start = sym empty
steps_queue {tp} v empty (after {es} {tp'} {tp''} e before step) =
    jobs-last pushes es e
    ∙ (ap (λ l. l ++ pushes e) (steps_queue v empty before)
        ∙ (append_assoc (jobs takes es) (tp'.queue) (pushes e)
            ∙ (ap (λ l. jobs takes es ++ l) (Step-queue (steps-IsFront tp v before) step)
                ∙ (sym (append_assoc (jobs takes es) (takes e) (tp''.queue))
                    ∙ ap (λ l. l ++ tp''.queue) (sym (jobs-last takes es e))))))

-- In whatever order the threads of a new pool take their steps, the jobs that were pushed are those
-- that workers took, in the same order, and behind them those that are still in the queue: no job is
-- lost, taken twice or taken before an earlier one.
pub worker-takes_in_order :
    (n : ℕ) (tp tp' : ThreadPool) (es : List Event)
    → thread_pool_init n ≡ ok tp
    → Steps tp es tp'
    → jobs pushes es ≡ jobs takes es ++ tp'.queue
worker-takes_in_order n tp tp' es init steps =
    let same = (init-new n tp init).1 in
    steps_queue (rw same (new-IsFront n)) (ap ThreadPool.queue same) steps
