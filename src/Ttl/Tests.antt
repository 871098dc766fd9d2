-- ===== src/Ttl/Tests.antt =====
-- Two entries with timers, one of which is changed.
use cand_cppwith_linux.Base.{
  ℕ, zero, suc, ◌≡◌, refl, [], ◌∷◌, some, Returns, arith, ◌==◌, if◌then◌else◌,
}
use cand_cppwith_linux.Base.Int.{pos}
use cand_cppwith_linux.Base.Array.{get_or}
use cand_cppwith_linux.Heap.{HeapMem, no_index}
use cand_cppwith_linux.Heap.Order.{IsDistinct, IsForeign, IsHeap, IsLinked}
use cand_cppwith_linux.Ttl.{entry_set_ttl, next_timer_ms}
use cand_cppwith_linux.Ttl.Next.{Timeout, next_timer_ms-Timeout}
use cand_cppwith_linux.Ttl.Deadline.{IsValid}
use cand_cppwith_linux.Ttl.SetTtl.{SetsDeadline, asked, entry_set_ttl-SetsDeadline}

abbrev timers : HeapMem
timers = record {
  items = record { val = 1; ref = 10 } ∷ record { val = 5; ref = 11 } ∷ [];
  cell = λ a. if a == 10 then 0 else if a == 11 then 1 else no_index;
}

timers-apart : IsDistinct (timers.items)
unfolding get_or
timers-apart zero zero h k e = refl
timers-apart zero (suc zero) h k e = absurd (omega (arith, e))
timers-apart (suc zero) zero h k e = absurd (omega (arith, e))
timers-apart (suc zero) (suc zero) h k e = refl
timers-apart (suc (suc i)) j h k e = absurd (omega arith)
timers-apart zero (suc (suc j)) h k e = absurd (omega arith)
timers-apart (suc zero) (suc (suc j)) h k e = absurd (omega arith)

timers-IsHeap : IsHeap (timers.items)
unfolding get_or
timers-IsHeap zero h k = absurd (omega arith)
timers-IsHeap (suc zero) h k = omega arith
timers-IsHeap (suc (suc c)) h k = absurd (omega arith)

timers-IsLinked : IsLinked timers
unfolding get_or
timers-IsLinked zero h = refl
timers-IsLinked (suc zero) h = refl
timers-IsLinked (suc (suc c)) h = absurd (omega arith)

timers-idle : (r : ℕ) → IsForeign (timers.items) r → timers.cell r ≡ no_index
unfolding get_or
timers-idle r f = let ne0 = f 0 (omega arith) in let ne1 = f 1 (omega arith) in ground arith

timers-IsValid : IsValid timers
timers-IsValid = record {
  heap = timers-IsHeap;
  apart = timers-apart;
  linked = timers-IsLinked;
  idle = timers-idle;
  small = omega arith;
}

entry_set_ttl-SetsDeadline_example :
    Returns (SetsDeadline timers 10 (asked (pos 7) 100)) (entry_set_ttl timers 10 (pos 7) 100)
entry_set_ttl-SetsDeadline_example =
    entry_set_ttl-SetsDeadline timers 10 (pos 7) 100 timers-IsValid (omega arith)

next_timer_ms-Timeout_example :
    Timeout 3 (some 2000000) timers (next_timer_ms 3 (some 2000000) timers)
next_timer_ms-Timeout_example = next_timer_ms-Timeout 3 (some 2000000) timers timers-IsValid
