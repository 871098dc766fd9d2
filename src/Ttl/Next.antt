-- ===== src/Ttl/Next.antt =====
-- next_timer_ms: the time to the first deadline.
use mathlib.Core.Path.{subst}
use cand_cppwith_linux.Base.{
  Bool, ℕ, ◌+◌, ◌-◌, ◌*◌, ◌/◌, ◌%◌, ◌^◌, ◌≤◌, ◌<◌, ◌≡◌, refl, sym, ap, ◌⊎◌, Bool-cases, inl, inr,
  true, false, Option, none, some, List, [], ◌∷◌, arith, leb, ltb, ◌==◌, ==_iff, if◌then◌else◌,
  length,
}
use cand_cppwith_linux.Base.Array.{get_or}
use cand_cppwith_linux.Base.Count.{count_p}
use cand_cppwith_linux.Heap.{HeapMem, HeapItem, no_index}
use cand_cppwith_linux.Heap.Order.{key}
use cand_cppwith_linux.Ttl.{
  deadline, k_idle_timeout_ms, no_timer, next_idle, next_ttl, next_timer_ms,
}
use cand_cppwith_linux.Ttl.Deadline.{IsValid, is_timer, deadline-some}
use cand_cppwith_linux.Ttl.SetTtl.{root-earliest}

-- a deadline: that of the first idle connection, or that of an entry
pub data IsDeadline (idle : Option ℕ) (m : HeapMem) : ℕ → Type 0 where
  of_idle :
      (idle_start : ℕ)
      → idle ≡ some idle_start
      → IsDeadline idle m ((idle_start + k_idle_timeout_ms * 1000) % 2 ^ 64)
  of_entry : (r d : ℕ) → deadline m r ≡ some d → IsDeadline idle m d

-- the timeout in milliseconds at the time `now_us`: 10 seconds if no deadline is below the largest
-- 64-bit number, and else the time to the first deadline, 0 if it is past, in 32 bits
pub data Timeout (now_us : ℕ) (idle : Option ℕ) (m : HeapMem) : ℕ → Type 0 where
  unset : ((d : ℕ) → IsDeadline idle m d → no_timer ≤ d) → Timeout now_us idle m 10000
  first :
      (d : ℕ)
      → IsDeadline idle m d
      → ((d' : ℕ) → IsDeadline idle m d' → d ≤ d')
      → Timeout now_us idle m (if leb d now_us then 0 else (d - now_us) / 1000 % 2 ^ 32)

next_ttl-le : (next_us : ℕ) (items : List HeapItem) → next_ttl next_us items ≤ next_us
unfolding next_ttl
next_ttl-le next_us [] = omega arith
next_ttl-le next_us (x ∷ items) = ground arith

next_ttl-key :
    (next_us : ℕ) (items : List HeapItem) → 0 < length items → next_ttl next_us items ≤ key items 0
unfolding next_ttl get_or
next_ttl-key next_us [] busy = absurd (omega (arith, busy))
next_ttl-key next_us (x ∷ items) busy = ground arith

some_item : (m : HeapMem) (r d : ℕ) → deadline m r ≡ some d → 0 < length m.items
unfolding deadline
some_item m r d e = go (m.items) refl
  where
    off : (b : Bool) → (if b then none else none) ≡ some d → ⊥
    off true f = cc
    off false f = cc

    go : (items : List HeapItem) → m.items ≡ items → 0 < length items
    go (x ∷ items) same = omega arith
    go [] same = absurd (off (m.cell r == no_index) (rw same at e))

-- the first deadline is not later than any
next_ttl-least :
    (idle : Option ℕ) (m : HeapMem)
    → IsValid m
    → (d : ℕ) → IsDeadline idle m d
    → next_ttl (next_idle idle) (m.items) ≤ d
unfolding next_idle
next_ttl-least idle m v _ (of_idle idle_start e) =
    omega (arith, next_ttl-le (next_idle idle) (m.items), ap next_idle e)
next_ttl-least idle m v _ (of_entry r d e) =
    omega
      (arith, next_ttl-key (next_idle idle) (m.items) (some_item m r d e), root-earliest m r d v e)

idle-IsDeadline :
    (idle : Option ℕ) (m : HeapMem)
    → (next_idle idle ≡ no_timer) ⊎ IsDeadline idle m (next_idle idle)
unfolding next_idle
idle-IsDeadline none m = inl refl
idle-IsDeadline (some idle_start) m = inr (of_idle idle_start refl)

root-IsDeadline :
    (idle : Option ℕ) (m : HeapMem) (x : HeapItem) (heap : List HeapItem)
    → IsValid m
    → m.items ≡ x ∷ heap
    → IsDeadline idle m (x.val)
unfolding count_p
root-IsDeadline idle m x heap v e =
    let e1 : (x.ref == x.ref) ≡ true = (==_iff x.ref x.ref).1 refl in
    let e2 : (x.val == x.val) ≡ true = (==_iff x.val x.val).1 refl in
    let counted : 0 < count_p (is_timer x.val x.ref) (x ∷ heap) = rw (e1, e2) (omega arith) in
    of_entry x.ref x.val (
      deadline-some m v x.ref x.val
        (subst (λ l. 0 < count_p (is_timer x.val x.ref) l) (sym e) counted))

-- if there is any, it is one
next_ttl-IsDeadline :
    (idle : Option ℕ) (m : HeapMem)
    → IsValid m
    → (items : List HeapItem) → m.items ≡ items
    → (next_ttl (next_idle idle) items ≡ no_timer)
      ⊎ IsDeadline idle m (next_ttl (next_idle idle) items)
unfolding next_ttl
next_ttl-IsDeadline idle m v [] e = idle-IsDeadline idle m
next_ttl-IsDeadline idle m v (x ∷ heap) e = elim (Bool-cases (ltb x.val (next_idle idle))) [
  | inl t ↦ rw t (inr (root-IsDeadline idle m x heap v e))
  | inr f ↦ rw f (idle-IsDeadline idle m)
]

-- In a state in order, next_timer_ms returns the time from now to the first of the deadlines of the
-- first idle connection and of all entries, in whole milliseconds and 32 bits: 0 if it is past, and
-- 10 seconds if there is none below the largest 64-bit number.
pub next_timer_ms-Timeout :
    (now_us : ℕ) (idle : Option ℕ) (m : HeapMem)
    → IsValid m
    → Timeout now_us idle m (next_timer_ms now_us idle m)
unfolding next_timer_ms
next_timer_ms-Timeout now_us idle m v =
    let next_us : ℕ = next_ttl (next_idle idle) (m.items) in
    let least = next_ttl-least idle m v in
    elim (Bool-cases (next_us == no_timer)) [
      | inl t ↦
          let e : next_us ≡ no_timer = (==_iff next_us no_timer).0 t in
          rw t (unset λ d due. omega (arith, e, least d due))
      | inr f ↦ rw f (elim (next_ttl-IsDeadline idle m v (m.items) refl) [
        | inl e ↦ absurd (ground (arith, e, f))
        | inr due ↦ first next_us due least
      ])
    ]
