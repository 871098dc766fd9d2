-- ===== src/Pool/Progress.antt =====
-- The wakeups: what a pool with a job in its queue can do.
use cand_cppwith_linux.Base.{
  ℕ, zero, suc, ◌<◌, ◌≡◌, ◌≢◌, refl, sym, ap, ◌∙◌, Bool, true, false, Bool-cases, ◌⊎◌, inl, inr,
  List, [], ◌∷◌, ok, arith, ◌==◌, ==_iff,
}
use cand_cppwith_linux.Pool.{
  Work, Worker, locking, testing, fronted, waiting, woken, holding, running, Producer, outside,
  asking, pushing, signalling, leaving, Owner, nobody, producer, worker, ThreadPool, Event, called,
  pushed, took, ran, woke, other, WorkerStep, lock, wait, spurious, relock, front, pop_front,
  unlock, run, QueueStep, call, enter, push, signal, signal_none, leave, Step, of_worker, of_queue,
  Steps, start, after, thread_pool_init, set_worker, is_waiting,
}
use cand_cppwith_linux.Pool.Lock.{
  init-new, IsLocked, is_inside, is_calling, is_owner, is_caller, is_known, set-same, new-IsLocked,
  Step-IsLocked,
}

-- a job in the queue is not forgotten: a signal is due, or a worker does not wait
pub record IsAwake (tp : ThreadPool) : Type 0 where
  pub locked : IsLocked tp
  pub some_thread : 0 < tp.threads
  pub awake :
      (tp.queue ≡ [])
      ⊎ ((tp.caller ≡ signalling)
          ⊎ ((i : ℕ) × (i < tp.threads) × (is_waiting (tp.workers i) ≡ false)))

moved-awake :
    (tp : ThreadPool) (i : ℕ) (w : Worker)
    → i < tp.threads
    → is_waiting w ≡ false
    → (j : ℕ) × (j < tp.threads) × (is_waiting (set_worker tp.workers i w j) ≡ false)
moved-awake tp i w h e = (i, h, ap is_waiting (set-same tp.workers i w) ∙ e)

worker-IsAwake :
    (tp : ThreadPool) (i : ℕ) {e : Event} {tp' : ThreadPool}
    → IsAwake tp
    → i < tp.threads
    → WorkerStep tp i e tp'
    → IsAwake tp'
worker-IsAwake tp i v h s = record {
  locked = Step-IsLocked tp v.locked (of_worker i h s);
  some_thread = threads s;
  awake = next s;
}
  where
    threads : {e : Event} {tp' : ThreadPool} → WorkerStep tp i e tp' → 0 < tp'.threads
    threads (lock a b) = v.some_thread
    threads (wait a b) = v.some_thread
    threads (spurious a) = v.some_thread
    threads (relock a b) = v.some_thread
    threads (front w rest a b) = v.some_thread
    threads (pop_front w head rest a b) = v.some_thread
    threads (unlock w a) = v.some_thread
    threads (run w a) = v.some_thread

    next :
        {e : Event} {tp' : ThreadPool}
        → WorkerStep tp i e tp'
        → (tp'.queue ≡ [])
          ⊎ ((tp'.caller ≡ signalling)
              ⊎ ((j : ℕ) × (j < tp'.threads) × (is_waiting (tp'.workers j) ≡ false)))
    next (lock a b) = inr (inr (moved-awake tp i testing h refl))
    next (wait a b) = inl b
    next (spurious a) = inr (inr (moved-awake tp i woken h refl))
    next (relock a b) = inr (inr (moved-awake tp i testing h refl))
    next (front w rest a b) = inr (inr (moved-awake tp i (fronted w) h refl))
    next (pop_front w head rest a b) = inr (inr (moved-awake tp i (holding w) h refl))
    next (unlock w a) = inr (inr (moved-awake tp i (running w) h refl))
    next (run w a) = inr (inr (moved-awake tp i locking h refl))

abbrev is_due : Producer → Bool
is_due signalling = true
is_due _ = false

not_due :
    (tp : ThreadPool) (c : Producer)
    → is_due c ≡ false
    → tp.caller ≡ c
    → IsAwake tp
    → (tp.queue ≡ []) ⊎ ((i : ℕ) × (i < tp.threads) × (is_waiting (tp.workers i) ≡ false))
not_due tp c e at v = elim (v.awake) [
  | inl empty ↦ inl empty
  | inr (inl due) ↦ absurd (no_due (sym (ap is_due due) ∙ (ap is_due at ∙ e)))
  | inr (inr one) ↦ inr one
]
  where
    no_due : true ≡ false → ⊥
    no_due e = cc

caller-IsAwake :
    (tp : ThreadPool) {e : Event} {tp' : ThreadPool} → IsAwake tp → QueueStep tp e tp' → IsAwake tp'
caller-IsAwake tp v s = record {
  locked = Step-IsLocked tp v.locked (of_queue s);
  some_thread = threads s;
  awake = next s;
}
  where
    threads : {e : Event} {tp' : ThreadPool} → QueueStep tp e tp' → 0 < tp'.threads
    threads (call w a) = v.some_thread
    threads (enter w a b) = v.some_thread
    threads (push w a) = v.some_thread
    threads (signal i a b c) = v.some_thread
    threads (signal_none a b) = v.some_thread
    threads (leave a) = v.some_thread

    same :
        (c : Producer)
        → is_due c ≡ false
        → tp.caller ≡ c
        → {d : Producer}
        → (tp.queue ≡ [])
          ⊎ ((d ≡ signalling) ⊎ ((i : ℕ) × (i < tp.threads) × (is_waiting (tp.workers i) ≡ false)))
    same c e at = elim (not_due tp c e at v) [ inl empty ↦ inl empty | inr one ↦ inr (inr one) ]

    next :
        {e : Event} {tp' : ThreadPool}
        → QueueStep tp e tp'
        → (tp'.queue ≡ [])
          ⊎ ((tp'.caller ≡ signalling)
              ⊎ ((j : ℕ) × (j < tp'.threads) × (is_waiting (tp'.workers j) ≡ false)))
    next (call w a) = same outside refl a
    next (enter w a b) = same (asking w) refl a
    next (push w a) = inr (inl refl)
    next (signal i a b c) = inr (inr (moved-awake tp i woken b refl))
    next (signal_none a b) = inr (inr (0, v.some_thread, b 0 v.some_thread))
    next (leave a) = same leaving refl a

steps-IsAwake :
    (tp : ThreadPool) {es : List Event} {tp' : ThreadPool}
    → IsAwake tp
    → Steps tp es tp'
    → IsAwake tp'
steps-IsAwake tp v start = v
steps-IsAwake tp v (after {tp' = tp'} e before s) = on_step tp' (steps-IsAwake tp v before) s
  where
    on_step :
        (tp' : ThreadPool) {e : Event} {tp'' : ThreadPool}
        → IsAwake tp'
        → Step tp' e tp''
        → IsAwake tp''
    on_step tp' v (of_worker i h s) = worker-IsAwake tp' i v h s
    on_step tp' v (of_queue s) = caller-IsAwake tp' v s

-- a step on behalf of the jobs: no new call, and no wakeup without a signal
abbrev pub is_progress : Event → Bool
is_progress (called w) = false
is_progress woke = false
is_progress _ = true

abbrev pub Goes : ThreadPool → Type 0
Goes tp = (e : Event) × (tp' : ThreadPool) × Step tp e tp' × (is_progress e ≡ true)

waiting_is : (w : Worker) → is_waiting w ≡ true → w ≡ waiting
waiting_is waiting e = refl
waiting_is locking e = absurd (cc)
waiting_is testing e = absurd (cc)
waiting_is (fronted w) e = absurd (cc)
waiting_is woken e = absurd (cc)
waiting_is (holding w) e = absurd (cc)
waiting_is (running w) e = absurd (cc)

some_waiting :
    (ws : ℕ → Worker) (n : ℕ)
    → ((i : ℕ) × (i < n) × (ws i ≡ waiting)) ⊎ ((i : ℕ) → i < n → is_waiting (ws i) ≡ false)
some_waiting ws zero = inr λ i h. absurd (omega (arith, h))
some_waiting ws (suc n) = elim (some_waiting ws n) [
  | inl (i, h, e) ↦ inl (i, omega (arith, h), e)
  | inr none_before ↦ elim (Bool-cases (is_waiting (ws n))) [
    | inl e ↦ inl (n, omega arith, waiting_is (ws n) e)
    | inr e ↦ inr λ i h. elim (Bool-cases (i == n)) [
      | inl t ↦ ap (λ j. is_waiting (ws j)) ((==_iff i n).0 t) ∙ e
      | inr f ↦ none_before i (ground (arith, h, f))
    ]
  ]
]

inside_awake : (w : Worker) → is_inside w ≡ true → is_waiting w ≡ false
inside_awake locking e = refl
inside_awake testing e = refl
inside_awake (fronted w) e = refl
inside_awake waiting e = absurd (cc)
inside_awake woken e = refl
inside_awake (holding w) e = refl
inside_awake (running w) e = refl

module _ (tp : ThreadPool) (v : IsAwake tp) (busy : tp.queue ≢ []) where
  -- a worker that does not wait, where the mutex is not in its way
  worker-Goes :
      (i : ℕ)
      → i < tp.threads
      → (w : Worker) → tp.workers i ≡ w
      → is_waiting w ≡ false
      → (is_inside w ≡ true) ⊎ (tp.mu ≡ nobody)
      → Goes tp
  worker-Goes i h locking at e (inr free) = (other, _, of_worker i h (lock at free), refl)
  worker-Goes i h locking at e (inl inside) = absurd (cc)
  worker-Goes i h woken at e (inr free) = (other, _, of_worker i h (relock at free), refl)
  worker-Goes i h woken at e (inl inside) = absurd (cc)
  worker-Goes i h waiting at e m = absurd (cc)
  worker-Goes i h testing at e m = taken (tp.queue) refl
    where
      taken : (q : List Work) → tp.queue ≡ q → Goes tp
      taken [] empty = absurd (busy empty)
      taken (w ∷ rest) full = (other, _, of_worker i h (front w rest at full), refl)
  worker-Goes i h (fronted w) at e m = taken (tp.queue) refl
    where
      taken : (q : List Work) → tp.queue ≡ q → Goes tp
      taken [] empty = absurd (busy empty)
      taken (head ∷ rest) full = (took w, _, of_worker i h (pop_front w head rest at full), refl)
  worker-Goes i h (holding w) at e m = (other, _, of_worker i h (unlock w at), refl)
  worker-Goes i h (running w) at e m = (ran w, _, of_worker i h (run w at), refl)

  caller-Goes : (c : Producer) → tp.caller ≡ c → is_calling c ≡ true → Goes tp
  caller-Goes outside at e = absurd (cc)
  caller-Goes (asking w) at e = absurd (cc)
  caller-Goes (pushing w) at e = (pushed w, _, of_queue (push w at), refl)
  caller-Goes leaving at e = (other, _, of_queue (leave at), refl)
  caller-Goes signalling at e = elim (some_waiting tp.workers tp.threads) [
    | inl (i, h, waits) ↦ (other, _, of_queue (signal i at h waits), refl)
    | inr all ↦ (other, _, of_queue (signal_none at all), refl)
  ]

  owner-Goes : (m : Owner) → tp.mu ≡ m → Goes tp
  owner-Goes (worker i) at =
      let range : i < tp.threads =
        let k = sym (ap (is_known tp.threads) at) ∙ v.locked.known in ground (arith, k) in
      let inside = v.locked.workers i range ∙ (ap (is_owner i) at ∙ (==_iff i i).1 refl) in
      worker-Goes i range (tp.workers i) refl (inside_awake (tp.workers i) inside) (inl inside)
  owner-Goes producer at = caller-Goes (tp.caller) refl (v.locked.caller ∙ ap is_caller at)
  owner-Goes nobody at = elim (v.awake) [
    | inl empty ↦ absurd (busy empty)
    | inr (inl due) ↦ caller-Goes signalling due refl
    | inr (inr (i, h, e)) ↦ worker-Goes i h (tp.workers i) refl e (inr at)
  ]

-- In whatever order the threads take their steps, a pool with a job in its queue is not stuck: a
-- thread can take a step that is neither a new call of thread_pool_queue nor a wakeup without a
-- signal. Not all workers sleep while a job is due.
pub thread_pool_init-Goes :
    (n : ℕ) (tp tp' : ThreadPool) (es : List Event)
    → thread_pool_init n ≡ ok tp
    → Steps tp es tp'
    → tp'.queue ≢ []
    → Goes tp'
thread_pool_init-Goes n tp tp' es init steps busy =
    let (positive, same) = init-new n tp init in
    let v : IsAwake tp =
      rw same (record { locked = new-IsLocked n; some_thread = positive; awake = inl refl }) in
    owner-Goes tp' (steps-IsAwake tp v steps) busy (tp'.mu) refl
