-- ===== src/Pool/Lock.antt =====
-- The mutex: which thread is between the lock and the unlock.
use cand_cppwith_linux.Base.{
  ℕ, ◌<◌, ◌≡◌, refl, sym, ap, ◌∙◌, Bool, true, false, Bool-cases, inl, inr, List, Run, ok, fault,
  out_of_fuel, arith, ltb, ◌==◌, ==_iff,
}
use cand_cppwith_linux.Pool.{
  Work, Worker, locking, testing, fronted, waiting, woken, holding, running, Producer, outside,
  asking, pushing, signalling, leaving, Owner, nobody, producer, worker, ThreadPool, Event,
  WorkerStep, lock, wait, spurious, relock, front, pop_front, unlock, run, QueueStep, call, enter,
  push, signal, signal_none, leave, Step, of_worker, of_queue, Steps, start, after,
  thread_pool_init, new_pool, set_worker, moved,
}

-- between the lock and the unlock, and not in the wait
abbrev pub is_inside : Worker → Bool
is_inside testing = true
is_inside (fronted w) = true
is_inside (holding w) = true
is_inside _ = false

abbrev pub is_calling : Producer → Bool
is_calling (pushing w) = true
is_calling signalling = true
is_calling leaving = true
is_calling _ = false

abbrev pub is_owner : ℕ → Owner → Bool
is_owner i (worker j) = i == j
is_owner i _ = false

abbrev pub is_caller : Owner → Bool
is_caller producer = true
is_caller _ = false

abbrev pub is_known : ℕ → Owner → Bool
is_known n (worker j) = ltb j n
is_known n _ = true

-- the mutex is owned by the thread that is inside, if there is one
pub record IsLocked (tp : ThreadPool) : Type 0 where
  pub workers : (i : ℕ) → i < tp.threads → is_inside (tp.workers i) ≡ is_owner i tp.mu
  pub caller : is_calling tp.caller ≡ is_caller tp.mu
  pub known : is_known tp.threads tp.mu ≡ true

pub set-same : (ws : ℕ → Worker) (i : ℕ) (w : Worker) → set_worker ws i w i ≡ w
unfolding set_worker
set-same ws i w = let e : (i == i) ≡ true = (==_iff i i).1 refl in rw e refl

pub set-other :
    (ws : ℕ → Worker) (i j : ℕ) (w : Worker) → (j == i) ≡ false → set_worker ws i w j ≡ ws j
unfolding set_worker
set-other ws i j w e = rw e refl

pub owner_is : (i : ℕ) (m : Owner) → is_owner i m ≡ true → m ≡ worker i
owner_is i nobody h = absurd (cc)
owner_is i producer h = absurd (cc)
owner_is i (worker j) h = ap worker (sym ((==_iff i j).0 h))

module _ (tp : ThreadPool) (v : IsLocked tp) (i : ℕ) (h : i < tp.threads) where
  -- a thread comes to the state `w`, and the mutex to the owner `m`
  move-IsLocked :
      (w : Worker) (m : Owner) (q : List Work)
      → is_inside w ≡ is_owner i m
      → ((j : ℕ) → (j == i) ≡ false → is_owner j m ≡ is_owner j tp.mu)
      → is_caller m ≡ is_caller tp.mu
      → is_known tp.threads m ≡ true
      → IsLocked (record (moved tp i w) { mu = m; queue = q })
  move-IsLocked w m q own others as_before range = record {
    workers = λ j k. elim (Bool-cases (j == i)) [
      | inl e ↦
          let same : j ≡ i = (==_iff j i).0 e in
          ap (λ a. is_inside (set_worker tp.workers i w a)) same
          ∙ (ap is_inside (set-same tp.workers i w) ∙ (own ∙ ap (λ a. is_owner a m) (sym same)))
      | inr e ↦ ap is_inside (set-other tp.workers i j w e) ∙ (v.workers j k ∙ sym (others j e))
    ];
    caller = v.caller ∙ sym as_before;
    known = range;
  }

  stay-IsLocked : (w : Worker) → is_inside w ≡ is_inside (tp.workers i) → IsLocked (moved tp i w)
  stay-IsLocked w e =
      move-IsLocked w (tp.mu) (tp.queue) (e ∙ v.workers i h) (λ j k. refl) refl (v.known)

  -- the free mutex is taken
  take-IsLocked :
      (w : Worker)
      → is_inside w ≡ true
      → tp.mu ≡ nobody
      → IsLocked (record (moved tp i w) { mu = worker i })
  take-IsLocked w e free =
      move-IsLocked w (worker i) (tp.queue) (e ∙ sym ((==_iff i i).1 refl))
        (λ j k. k ∙ ap (is_owner j) (sym free)) (ap is_caller (sym free)) (ground arith)

  mine : is_inside (tp.workers i) ≡ true → tp.mu ≡ worker i
  mine e = owner_is i (tp.mu) (sym (v.workers i h) ∙ e)

  -- the thread that has the mutex frees it
  free-IsLocked :
      (w : Worker)
      → is_inside w ≡ false
      → is_inside (tp.workers i) ≡ true
      → IsLocked (record (moved tp i w) { mu = nobody })
  free-IsLocked w e inside =
      move-IsLocked w nobody (tp.queue) e (λ j k. sym (ap (is_owner j) (mine inside) ∙ k))
        (ap is_caller (sym (mine inside))) refl

  worker-IsLocked : {e : Event} {tp' : ThreadPool} → WorkerStep tp i e tp' → IsLocked tp'
  worker-IsLocked (lock a b) = take-IsLocked testing refl b
  worker-IsLocked (wait a b) = free-IsLocked waiting refl (ap is_inside a)
  worker-IsLocked (spurious a) = stay-IsLocked woken (ap is_inside (sym a))
  worker-IsLocked (relock a b) = take-IsLocked testing refl b
  worker-IsLocked (front w rest a b) = stay-IsLocked (fronted w) (ap is_inside (sym a))
  worker-IsLocked (pop_front w head rest a b) =
      move-IsLocked (holding w) (tp.mu) rest (ap is_inside (sym a) ∙ v.workers i h) (λ j k. refl)
        refl (v.known)
  worker-IsLocked (unlock w a) = free-IsLocked (running w) refl (ap is_inside a)
  worker-IsLocked (run w a) = stay-IsLocked locking (ap is_inside (sym a))

module _ (tp : ThreadPool) (v : IsLocked tp) where
  -- the caller comes to the state `c`, and the mutex, which no thread of worker has, to the owner `m`
  turn-IsLocked :
      (c : Producer) (m : Owner) (q : List Work)
      → is_calling c ≡ is_caller m
      → ((i : ℕ) → is_owner i m ≡ is_owner i tp.mu)
      → is_known tp.threads m ≡ true
      → IsLocked (record tp { caller = c; mu = m; queue = q })
  turn-IsLocked c m q own others range = record {
    workers = λ i h. v.workers i h ∙ sym (others i);
    caller = own;
    known = range;
  }

  keep-IsLocked :
      (c : Producer) (q : List Work)
      → is_calling c ≡ is_calling tp.caller
      → IsLocked (record tp { caller = c; queue = q })
  keep-IsLocked c q e = turn-IsLocked c (tp.mu) q (e ∙ v.caller) (λ i. refl) (v.known)

  none_own : is_caller tp.mu ≡ true → (i : ℕ) → is_owner i tp.mu ≡ false
  none_own e i = no (tp.mu) e
    where
      no : (m : Owner) → is_caller m ≡ true → is_owner i m ≡ false
      no nobody e = refl
      no producer e = refl
      no (worker j) e = absurd (cc)

  caller-IsLocked : {e : Event} {tp' : ThreadPool} → QueueStep tp e tp' → IsLocked tp'
  caller-IsLocked (call w a) = keep-IsLocked (asking w) (tp.queue) (ap is_calling (sym a))
  caller-IsLocked (enter w a b) =
      turn-IsLocked (pushing w) producer (tp.queue) refl (λ i. ap (is_owner i) (sym b)) refl
  caller-IsLocked (push w a) = keep-IsLocked signalling _ (ap is_calling (sym a))
  caller-IsLocked (signal i a b c) =
      let woken_up = stay-IsLocked tp v i b woken (ap is_inside (sym c)) in
      record {
        workers = woken_up.workers;
        caller = ap is_calling (sym a) ∙ v.caller;
        known = v.known;
      }
  caller-IsLocked (signal_none a b) = keep-IsLocked leaving (tp.queue) (ap is_calling (sym a))
  caller-IsLocked (leave a) =
      turn-IsLocked outside nobody (tp.queue) refl
        (λ i. sym (none_own (sym (v.caller) ∙ ap is_calling a) i)) refl

pub Step-IsLocked :
    (tp : ThreadPool) {e : Event} {tp' : ThreadPool} → IsLocked tp → Step tp e tp' → IsLocked tp'
Step-IsLocked tp v (of_worker i h s) = worker-IsLocked tp v i h s
Step-IsLocked tp v (of_queue s) = caller-IsLocked tp v s

pub new-IsLocked : (n : ℕ) → IsLocked (new_pool n)
new-IsLocked n = record { workers = λ i h. refl; caller = refl; known = refl }

pub steps-IsLocked :
    (tp : ThreadPool) {es : List Event} {tp' : ThreadPool}
    → IsLocked tp
    → Steps tp es tp'
    → IsLocked tp'
steps-IsLocked tp v start = v
steps-IsLocked tp v (after {tp' = tp'} e before s) =
    Step-IsLocked tp' (steps-IsLocked tp v before) s

pub init-new : (n : ℕ) (tp : ThreadPool) → thread_pool_init n ≡ ok tp → (0 < n) × (tp ≡ new_pool n)
unfolding thread_pool_init
init-new n tp e = elim (Bool-cases (ltb 0 n)) [
  | inl positive ↦ (ground arith, sym (inside (rw positive at e)))
  | inr none_asked ↦ absurd (refused (rw none_asked at e))
]
  where
    inside : ok (new_pool n) ≡ ok tp → new_pool n ≡ tp
    inside e = ap (λ (r : Run ThreadPool). elim r [ ok v ↦ v | fault ↦ tp | out_of_fuel ↦ tp ]) e

    refused : fault ≡ ok tp → ⊥
    refused e = cc

-- In whatever order the threads take their steps, at most one thread of a pool is between its lock
-- and its unlock: if a worker is, no other worker is, nor the caller of thread_pool_queue.
pub worker-excludes :
    (n : ℕ) (tp tp' : ThreadPool) (es : List Event) (i : ℕ)
    → thread_pool_init n ≡ ok tp
    → Steps tp es tp'
    → i < tp'.threads
    → is_inside (tp'.workers i) ≡ true
    → ((j : ℕ) → j < tp'.threads → is_inside (tp'.workers j) ≡ true → j ≡ i)
      × (is_calling tp'.caller ≡ false)
worker-excludes n tp tp' es i init steps h inside =
    let v = steps-IsLocked tp (rw ((init-new n tp init).1) (new-IsLocked n)) steps in
    let own = mine tp' v i h inside in
    (
      λ j k also. (==_iff j i).0 (ap (is_owner j) (sym own) ∙ (sym (v.workers j k) ∙ also)),
      v.caller ∙ ap is_caller own,
    )
