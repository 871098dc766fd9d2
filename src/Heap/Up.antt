-- ===== src/Heap/Up.antt =====
-- heap_up: an item that is too small for its place rises to where it belongs.
use cand_cppwith_linux.Base.{
  ℕ, zero, suc, ◌+◌, ◌≡◌, ◌≤◌, ◌<◌, ◌≢◌, List, Returns, returns, Returns-map, Bool-cases, inl, inr,
  arith, ltb, length, set, length-set,
}
use cand_cppwith_linux.Base.Array.{get_or-set, set_self}
use cand_cppwith_linux.Heap.{HeapItem, HeapMem, heap_up_loop, heap_up}
use cand_cppwith_linux.Heap.Order.{
  blank, item, key, up, limit, heap_parent-up, IsBridged, IsDistinct, IsLinkedBut, Sifted, load-ok,
  place-ok, placed, moved, item-moved, moved-IsDistinct, moved-IsLinkedBut, Sifted-move,
  placed-Sifted,
}

-- only the edge above `i` may be out of order
pub record UpInv (a : List HeapItem) (i : ℕ) : Type 0 where
  pub edges : (c : ℕ) → 0 < c → c < length a → c ≢ i → key a (up c) ≤ key a c
  pub bridged : IsBridged a i

module _ (m : HeapMem) (t : HeapItem) (i : ℕ) (pos : 0 < i) (hi : i < length m.items) where
  above : up i < length m.items
  above = omega arith

  moved-UpInv :
      UpInv (set m.items i t) i
      → t.val < key m.items (up i)
      → UpInv (moved m t i (up i) hi above (omega arith)) (up i)
  moved-UpInv v less =
      let at = item-moved m t i (up i) hi above (omega arith) in
      let same = get_or-set m.items i (up i) t blank in
      let self = get_or-set m.items i i t blank in
      let size = length-set m.items i t in
      let size₂ = length-set m.items i (item m.items (up i)) in
      let size₃ = length-set (set m.items i (item m.items (up i))) (up i) t in
      record {
        edges = λ c p q ne.
            ground (arith, at c, at (up c), v.edges c, v.bridged c, same, self, size, size₂, size₃);
        bridged = λ c p q e r. ground (
          arith,
          at c,
          at (up c),
          at (up (up i)),
          v.edges c,
          v.edges (up i),
          same,
          self,
          size,
          size₂,
          size₃,
        );
      }

-- what holds at the head of the loop, the item `t` being put back at `i`
record Rising (m : HeapMem) (t : HeapItem) (i : ℕ) : Type 0 where
  inside : i < length m.items
  small : length m.items < limit
  inv : UpInv (set m.items i t) i
  apart : IsDistinct (set m.items i t)
  linked : IsLinkedBut i (set m.items i t) m.cell

heap_up_loop-Sifted :
    (k : ℕ) (t : HeapItem) (m : HeapMem) (i : ℕ)
    → i < k
    → Rising m t i
    → Returns (Sifted (set m.items i t) m.cell) (heap_up_loop k t m i)
unfolding heap_up_loop
heap_up_loop-Sifted zero t m i f v = absurd (omega arith)
heap_up_loop-Sifted (suc k) t m i f v = elim (Bool-cases (ltb 0 i)) [
  | inr root ↦
      rw (root, place-ok m i t v.inside)
        (returns (
          placed-Sifted m t i v.inside (λ c p q. v.inv.edges c p q (ground arith)) v.apart
            v.linked))
  | inl low ↦
      let pos : 0 < i = ground arith in
      let ha = above m t i pos v.inside in
      rw (low, heap_parent-up i pos (omega arith), load-ok m (up i) ha)
        (elim (Bool-cases (ltb t.val (key m.items (up i)))) [
          | inr settled ↦
              rw (settled, place-ok m i t v.inside)
                (returns (
                  placed-Sifted m t i v.inside
                    (λ c p q. ground (
                      arith,
                      v.inv.edges c,
                      get_or-set m.items i c t blank,
                      get_or-set m.items i (up i) t blank,
                    ))
                    v.apart v.linked))
          | inl rise ↦
              let ne : i ≢ up i = omega arith in
              rw (rise, place-ok m i (item m.items (up i)) v.inside)
                (Returns-map
                  (heap_up_loop-Sifted k t (placed m i (item m.items (up i))) (up i) (omega arith)
                    (record {
                      inside = rw length-set ha;
                      small = rw length-set v.small;
                      inv = moved-UpInv m t i pos v.inside v.inv (ground arith);
                      apart = moved-IsDistinct m t i (up i) v.inside ha ne v.apart;
                      linked = moved-IsLinkedBut m t i (up i) v.inside ha ne v.apart v.linked;
                    }))
                  (λ r. Sifted-move m t i (up i) v.inside ha ne v.apart))
        ])
]

-- heap_up ends without a fault and restores the heap order and the links, if only the edge above
-- `i` is out of order.
pub heap_up-Sifted :
    (m : HeapMem) (i : ℕ)
    → i < length m.items
    → length m.items < limit
    → UpInv m.items i
    → IsDistinct m.items
    → IsLinkedBut i m.items m.cell
    → Returns (Sifted m.items m.cell) (heap_up m i)
unfolding heap_up
heap_up-Sifted m i h small inv apart linked =
    let x = item m.items i in
    let same : set m.items i x ≡ m.items = set_self m.items i blank in
    let v : Rising m x i = record {
      inside = h;
      small = small;
      inv = rw same inv;
      apart = rw same apart;
      linked = rw same linked;
    } in
    rw (load-ok m i h) (rw same at (heap_up_loop-Sifted (i + 1) x m i (omega arith) v))
