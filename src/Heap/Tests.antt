-- ===== src/Heap/Tests.antt =====
-- An item changed in a heap of two.
use cand_cppwith_linux.Base.{
  ℕ, zero, suc, ◌<◌, ◌≤◌, ◌≢◌, refl, [], ◌∷◌, Returns, arith, ◌==◌, if◌then◌else◌,
}
use cand_cppwith_linux.Base.Array.{get_or}
use cand_cppwith_linux.Heap.{HeapMem, no_index, heap_update}
use cand_cppwith_linux.Heap.Order.{key, up, IsDistinct, IsLinkedBut, Sifted}
use cand_cppwith_linux.Heap.Update.{IsHeapBut, heap_update-Sifted}

abbrev changed : HeapMem
changed = record {
  items = record { val = 5; ref = 10 } ∷ record { val = 1; ref = 11 } ∷ [];
  cell = λ a. if a == 10 then 0 else if a == 11 then 1 else no_index;
}

changed-near : IsHeapBut (changed.items) 1
changed-near = record { edges = edges; bridged = λ c h k e _. absurd (omega arith) }
  where
    edges :
        (c : ℕ)
        → 0 < c
        → c < 2
        → c ≢ 1
        → up c ≢ 1
        → key (changed.items) (up c) ≤ key (changed.items) c
    edges c h k n _ = absurd (n (omega arith))

changed-apart : IsDistinct (changed.items)
unfolding get_or
changed-apart zero zero h k e = refl
changed-apart zero (suc zero) h k e = absurd (omega (arith, e))
changed-apart (suc zero) zero h k e = absurd (omega (arith, e))
changed-apart (suc zero) (suc zero) h k e = refl
changed-apart (suc (suc i)) j h k e = absurd (omega arith)
changed-apart zero (suc (suc j)) h k e = absurd (omega arith)
changed-apart (suc zero) (suc (suc j)) h k e = absurd (omega arith)

changed-linked : IsLinkedBut 1 (changed.items) (changed.cell)
unfolding get_or
changed-linked zero h n = refl
changed-linked (suc i) h n = absurd (n (omega arith))

heap_update-Sifted_example :
    Returns (Sifted (changed.items) (changed.cell)) (heap_update changed 1 2)
heap_update-Sifted_example =
    heap_update-Sifted changed 1 (omega arith) (omega arith) changed-near changed-apart
      changed-linked
