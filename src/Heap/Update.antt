-- ===== src/Heap/Update.antt =====
-- heap_update: one item has a new value, or is new at its place.
use cand_cppwith_linux.Base.{
  ℕ, zero, suc, ◌==◌, ◌≤◌, ◌<◌, ◌≡◌, ◌≢◌, List, Returns, Bool-cases, inl, inr, arith, ltb, length,
}
use cand_cppwith_linux.Heap.{HeapItem, HeapMem, heap_update}
use cand_cppwith_linux.Heap.Order.{
  key, up, limit, heap_parent-up, IsHeap, IsBridged, IsDistinct, IsLinkedBut, Sifted, load-ok,
}
use cand_cppwith_linux.Heap.Up.{heap_up-Sifted}
use cand_cppwith_linux.Heap.Down.{heap_down-Sifted}

-- only the edges above and below `i` may be out of order
pub record IsHeapBut (a : List HeapItem) (i : ℕ) : Type 0 where
  pub edges : (c : ℕ) → 0 < c → c < length a → c ≢ i → up c ≢ i → key a (up c) ≤ key a c
  pub bridged : IsBridged a i

-- heap_update on an array of distinct cells, in heap order but for the edges at `pos` and linked but
-- for `pos`, ends without a fault. The array is then a heap of the same items, every item's cell
-- holds its index, and no other cell has changed.
pub heap_update-Sifted :
    (m : HeapMem) (pos : ℕ)
    → pos < length m.items
    → length m.items < limit
    → IsHeapBut m.items pos
    → IsDistinct m.items
    → IsLinkedBut pos m.items m.cell
    → Returns (Sifted m.items m.cell) (heap_update m pos (length m.items))
unfolding heap_update
heap_update-Sifted m i h small near apart linked = elim (Bool-cases (ltb 0 i)) [
  | inr root ↦ rw root (
      heap_down-Sifted m i h small
        (record { edges = λ c p q ne. near.edges c p q (ground arith) ne; bridged = near.bridged })
        apart linked)
  | inl low ↦
      rw
        (
          low,
          heap_parent-up i (ground arith) (omega arith),
          load-ok m (up i) (omega arith),
          load-ok m i h,
        )
        (elim (Bool-cases (ltb (key m.items i) (key m.items (up i)))) [
          | inl less ↦ rw less (
              heap_up-Sifted m i h small
                (record {
                  edges = λ c p q ne. elim (Bool-cases (up c == i)) [
                    | inl e ↦
                        let e' : up c ≡ i = ground arith in
                        let b = near.bridged c p q e' (ground arith) in ground arith
                    | inr e ↦ near.edges c p q ne (ground arith)
                  ];
                  bridged = near.bridged;
                })
                apart linked)
          | inr more ↦ rw more (
              heap_down-Sifted m i h small
                (record {
                  edges = λ c p q ne. elim (Bool-cases (c == i)) [
                    | inl e ↦ let e' : c ≡ i = ground arith in rw e' (ground arith)
                    | inr e ↦ near.edges c p q (ground arith) ne
                  ];
                  bridged = near.bridged;
                })
                apart linked)
        ])
]

-- The first item of a heap has the smallest value.
root-le_below :
    (k : ℕ) (a : List HeapItem) (i : ℕ) → IsHeap a → i < k → i < length a → key a 0 ≤ key a i
root-le_below zero a i h f p = absurd (omega arith)
root-le_below (suc k) a i h f p = ground (arith, h i, root-le_below k a (up i) h)

pub root-le : (a : List HeapItem) (i : ℕ) → IsHeap a → i < length a → key a 0 ≤ key a i
root-le a i h p = root-le_below (suc i) a i h (omega arith) p
