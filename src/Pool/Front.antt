-- ===== src/Pool/Front.antt =====
-- The head of the queue between front() and pop_front() of a worker.
use mathlib.Core.Path.{subst}
use cand_cppwith_linux.Base.{
  ℕ, ◌<◌, ◌≡◌, sym, ap, ◌∙◌, true, false, Bool-cases, inl, inr, List, [], ◌∷◌, ◌++◌, ◌==◌, ==_iff,
}
use cand_cppwith_linux.Pool.{
  Work, Worker, locking, testing, fronted, waiting, woken, holding, running, ThreadPool, Event,
  WorkerStep, lock, wait, spurious, relock, front, pop_front, unlock, run, QueueStep, call, enter,
  push, signal, signal_none, leave, Step, of_worker, of_queue, Steps, start, after, new_pool,
  set_worker,
}
use cand_cppwith_linux.Pool.Lock.{
  IsLocked, is_inside, is_owner, owner_is, set-same, set-other, new-IsLocked, Step-IsLocked,
}

-- the job of a worker behind front() is the head of the queue
abbrev pub AtHead : Worker → List Work → Type 0
AtHead (fronted w) q = (rest : List Work) × (q ≡ w ∷ rest)
AtHead _ q = Unit {0}

pub record IsFront (tp : ThreadPool) : Type 0 where
  pub locked : IsLocked tp
  pub heads : (i : ℕ) → i < tp.threads → AtHead (tp.workers i) (tp.queue)

outside-AtHead : (w : Worker) (q : List Work) → is_inside w ≡ false → AtHead w q
outside-AtHead locking q e = tt
outside-AtHead testing q e = tt
outside-AtHead (fronted w) q e = absurd (cc)
outside-AtHead waiting q e = tt
outside-AtHead woken q e = tt
outside-AtHead (holding w) q e = tt
outside-AtHead (running w) q e = tt

pushed-AtHead : (w : Worker) (q last : List Work) → AtHead w q → AtHead w (q ++ last)
pushed-AtHead (fronted w) q last (rest, e) = (rest ++ last, ap (λ l. l ++ last) e)
pushed-AtHead locking q last e = tt
pushed-AtHead testing q last e = tt
pushed-AtHead waiting q last e = tt
pushed-AtHead woken q last e = tt
pushed-AtHead (holding w) q last e = tt
pushed-AtHead (running w) q last e = tt

module _ (tp : ThreadPool) (v : IsFront tp) (i : ℕ) (h : i < tp.threads) where
  -- a thread comes to the state `w`, and the queue is `q`
  move-AtHead :
      (w : Worker) (q : List Work)
      → AtHead w q
      → ((j : ℕ) → j < tp.threads → (j == i) ≡ false → AtHead (tp.workers j) q)
      → (j : ℕ) → j < tp.threads
      → AtHead (set_worker tp.workers i w j) q
  move-AtHead w q own others j k = elim (Bool-cases (j == i)) [
    | inl e ↦
        subst (λ a. AtHead (set_worker tp.workers i w a) q) (sym ((==_iff j i).0 e))
          (subst (λ x. AtHead x q) (sym (set-same tp.workers i w)) own)
    | inr e ↦ subst (λ x. AtHead x q) (sym (set-other tp.workers i j w e)) (others j k e)
  ]

  stay-AtHead :
      (w : Worker)
      → AtHead w (tp.queue)
      → (j : ℕ) → j < tp.threads
      → AtHead (set_worker tp.workers i w j) (tp.queue)
  stay-AtHead w own = move-AtHead w (tp.queue) own λ j k e. v.heads j k

  -- while a worker has the mutex, no other is behind front()
  alone-AtHead :
      is_inside (tp.workers i) ≡ true
      → (q : List Work) (j : ℕ) → j < tp.threads
      → (j == i) ≡ false
      → AtHead (tp.workers j) q
  alone-AtHead inside q j k e =
      let own = owner_is i (tp.mu) (sym (v.locked.workers i h) ∙ inside) in
      outside-AtHead (tp.workers j) q (v.locked.workers j k ∙ (ap (is_owner j) own ∙ e))

  worker-AtHead :
      {e : Event} {tp' : ThreadPool}
      → WorkerStep tp i e tp'
      → (j : ℕ) → j < tp'.threads
      → AtHead (tp'.workers j) (tp'.queue)
  worker-AtHead (lock a b) = stay-AtHead testing tt
  worker-AtHead (wait a b) = stay-AtHead waiting tt
  worker-AtHead (spurious a) = stay-AtHead woken tt
  worker-AtHead (relock a b) = stay-AtHead testing tt
  worker-AtHead (front w rest a b) = stay-AtHead (fronted w) (rest, b)
  worker-AtHead (pop_front w head rest a b) =
      move-AtHead (holding w) rest tt (alone-AtHead (ap is_inside a) rest)
  worker-AtHead (unlock w a) = stay-AtHead (running w) tt
  worker-AtHead (run w a) = stay-AtHead locking tt

  -- pop_front() removes the job that front() gave
  pub front-head :
      (w head : Work) (rest : List Work)
      → tp.workers i ≡ fronted w
      → tp.queue ≡ head ∷ rest
      → head ≡ w
  front-head w head rest a b =
      let (tail, c) = subst (λ x. AtHead x (tp.queue)) a (v.heads i h) in
      ap (λ (l : List Work). elim l [ [] ↦ w | x ∷ xs ↦ x ]) (sym b ∙ c)

caller-AtHead :
    (tp : ThreadPool) {e : Event} {tp' : ThreadPool}
    → IsFront tp
    → QueueStep tp e tp'
    → (j : ℕ) → j < tp'.threads
    → AtHead (tp'.workers j) (tp'.queue)
caller-AtHead tp v (call w a) = v.heads
caller-AtHead tp v (enter w a b) = v.heads
caller-AtHead tp v (push w a) =
    λ j k. pushed-AtHead (tp.workers j) (tp.queue) (w ∷ []) (v.heads j k)
caller-AtHead tp v (signal i a b c) = stay-AtHead tp v i b woken tt
caller-AtHead tp v (signal_none a b) = v.heads
caller-AtHead tp v (leave a) = v.heads

Step-AtHead :
    (tp : ThreadPool) {e : Event} {tp' : ThreadPool}
    → IsFront tp
    → Step tp e tp'
    → (j : ℕ) → j < tp'.threads
    → AtHead (tp'.workers j) (tp'.queue)
Step-AtHead tp v (of_worker i h s) = worker-AtHead tp v i h s
Step-AtHead tp v (of_queue s) = caller-AtHead tp v s

pub new-IsFront : (n : ℕ) → IsFront (new_pool n)
new-IsFront n = record { locked = new-IsLocked n; heads = λ i h. tt }

pub steps-IsFront :
    (tp : ThreadPool) {es : List Event} {tp' : ThreadPool}
    → IsFront tp
    → Steps tp es tp'
    → IsFront tp'
steps-IsFront tp v start = v
steps-IsFront tp v (after {tp' = tp'} e before s) =
    let u = steps-IsFront tp v before in
    record { locked = Step-IsLocked tp' u.locked s; heads = Step-AtHead tp' u s }
