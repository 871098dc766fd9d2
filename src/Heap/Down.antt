-- ===== src/Heap/Down.antt =====
-- heap_down: an item that is too large for its place sinks to where it belongs.
use cand_cppwith_linux.Base.{
  ℕ, zero, suc, ◌+◌, ◌-◌, ◌*◌, ◌≡◌, ◌≤◌, ◌<◌, ◌≢◌, refl, ◌⊎◌, List, Returns, returns, Returns-bind,
  Returns-map, Bool-cases, inl, inr, arith, false, ok, ltb, ◌==◌, if◌then◌else◌, ◌&&◌, length, set,
  length-set,
}
use cand_cppwith_linux.Base.Array.{get_or-set, set_self}
use cand_cppwith_linux.Heap.{
  HeapItem, HeapMem, no_index, try_kid, smallest_kid, heap_down_loop, heap_down,
}
use cand_cppwith_linux.Heap.Order.{
  blank, item, key, up, limit, heap_left-eq, heap_right-eq, IsBridged, IsDistinct, IsLinkedBut,
  Sifted, load-ok, place-ok, placed, moved, item-moved, moved-IsDistinct, moved-IsLinkedBut,
  Sifted-move, placed-Sifted,
}

-- only the edges below `i` may be out of order
pub record DownInv (a : List HeapItem) (i : ℕ) : Type 0 where
  pub edges : (c : ℕ) → 0 < c → c < length a → up c ≢ i → key a (up c) ≤ key a c
  pub bridged : IsBridged a i

-- What one round finds in `a`, whose item at `i` is being sifted: no smaller kid, or the smallest.
data Found (a : List HeapItem) (i : ℕ) (p : ℕ) : Type 0 where
  settled :
      p ≡ no_index → ((c : ℕ) → 0 < c → c < length a → up c ≡ i → key a i ≤ key a c) → Found a i p
  smaller :
      p < length a
      → (p ≡ i * 2 + 1) ⊎ (p ≡ i * 2 + 2)
      → key a p < key a i
      → ((c : ℕ) → 0 < c → c < length a → up c ≡ i → key a p ≤ key a c)
      → Found a i p

try_kid-ok :
    (m : HeapMem) (kid p v : ℕ)
    → try_kid m kid (length m.items) (p, v)
      ≡ ok (
          if ltb kid (length m.items) && ltb (key m.items kid) v
          then (kid, key m.items kid)
          else (p, v))
unfolding try_kid
try_kid-ok m kid p v = ground (arith, load-ok m kid)

-- the result of the two tests, by the keys `l` and `r` of the kids
abbrev choice : ℕ → ℕ → ℕ → ℕ → ℕ → ℕ
choice n i t l r =
    if ltb (i * 2 + 2) n && ltb r (if ltb (i * 2 + 1) n && ltb l t then l else t)
    then i * 2 + 2
    else if ltb (i * 2 + 1) n && ltb l t
    then i * 2 + 1
    else no_index

smallest_kid-ok :
    (t : HeapItem) (m : HeapMem) (i : ℕ)
    → i < limit
    → smallest_kid t m i (length m.items)
      ≡ ok (choice (length m.items) i t.val (key m.items (i * 2 + 1)) (key m.items (i * 2 + 2)))
unfolding smallest_kid
smallest_kid-ok t m i h =
    rw (heap_left-eq i h, heap_right-eq i h, try_kid-ok m (i * 2 + 1) no_index t.val)
      (ground (
        arith,
        try_kid-ok m (i * 2 + 2) no_index t.val,
        try_kid-ok m (i * 2 + 2) (i * 2 + 1) (key m.items (i * 2 + 1)),
      ))

least_kid :
    (a : List HeapItem) (i p : ℕ)
    → (i * 2 + 1 < length a → key a p ≤ key a (i * 2 + 1))
    → (i * 2 + 2 < length a → key a p ≤ key a (i * 2 + 2))
    → (c : ℕ) → 0 < c
    → c < length a
    → up c ≡ i
    → key a p ≤ key a c
least_kid a i p left right c pos inside e = elim (Bool-cases (c == i * 2 + 1)) [
  | inl l ↦ let e' : c ≡ i * 2 + 1 = ground arith in rw e' (left (omega arith))
  | inr r ↦ let e' : c ≡ i * 2 + 2 = ground arith in rw e' (right (omega arith))
]

choice-Found :
    (a : List HeapItem) (i : ℕ)
    → i < length a
    → length a < limit
    → Found a i (choice (length a) i (key a i) (key a (i * 2 + 1)) (key a (i * 2 + 2)))
choice-Found a i h small =
    let n = length a in
    let t = key a i in
    let l = key a (i * 2 + 1) in
    let r = key a (i * 2 + 2) in
    elim (Bool-cases (ltb (i * 2 + 1) n && ltb l t)) [
      | inl left ↦ elim (Bool-cases (ltb (i * 2 + 2) n && ltb r l)) [
        | inl right ↦
            rw (left, right)
              (smaller (ground arith) (inr refl) (ground arith)
                (least_kid a i (i * 2 + 2) (λ _. ground arith) (λ _. omega arith)))
        | inr right ↦
            rw (left, right)
              (smaller (ground arith) (inl refl) (ground arith)
                (least_kid a i (i * 2 + 1) (λ _. omega arith) (λ q. ground arith)))
      ]
      | inr left ↦ elim (Bool-cases (ltb (i * 2 + 2) n && ltb r t)) [
        | inl right ↦
            rw (left, right)
              (smaller (ground arith) (inr refl) (ground arith)
                (least_kid a i (i * 2 + 2) (λ q. ground arith) (λ _. omega arith)))
        | inr right ↦
            rw (left, right)
              (settled refl (least_kid a i i (λ q. ground arith) (λ q. ground arith)))
      ]
    ]

smallest_kid-Found :
    (t : HeapItem) (m : HeapMem) (i : ℕ)
    → i < length m.items
    → length m.items < limit
    → Returns (Found (set m.items i t) i) (smallest_kid t m i (length m.items))
smallest_kid-Found t m i h small =
    let a = set m.items i t in
    let f = choice-Found a i (rw length-set h) (rw length-set small) in
    let self : key a i ≡ t.val = ground (arith, get_or-set m.items i i t blank) in
    let left : key a (i * 2 + 1) ≡ key m.items (i * 2 + 1) =
      ground (arith, get_or-set m.items i (i * 2 + 1) t blank) in
    let right : key a (i * 2 + 2) ≡ key m.items (i * 2 + 2) =
      ground (arith, get_or-set m.items i (i * 2 + 2) t blank) in
    rw (smallest_kid-ok t m i (omega arith))
      (returns (rw (length-set m.items i t, self, left, right) at f))

module _ (m : HeapMem) (t : HeapItem) (i j : ℕ) (hi : i < length m.items) (hj : j < length m.items)
    (ne : i ≢ j) where
  moved-DownInv :
      DownInv (set m.items i t) i
      → (j ≡ i * 2 + 1) ⊎ (j ≡ i * 2 + 2)
      → key (set m.items i t) j < key (set m.items i t) i
      → ((c : ℕ)
          → 0 < c
          → c < length m.items
          → up c ≡ i
          → key (set m.items i t) j ≤ key (set m.items i t) c)
      → DownInv (moved m t i j hi hj ne) j
  moved-DownInv v kid less least =
      let at = item-moved m t i j hi hj ne in
      let self = get_or-set m.items i i t blank in
      let size = length-set m.items i t in
      let size₂ = length-set m.items i (item m.items j) in
      let size₃ = length-set (set m.items i (item m.items j)) j t in
      record {
        edges = λ c p q e. ground (
          arith,
          at c,
          at (up c),
          v.edges c,
          v.bridged j,
          v.bridged c,
          least c,
          self,
          size,
          size₂,
          size₃,
        );
        bridged = λ c p q e r. ground (
          arith,
          at c,
          at (up c),
          at (up j),
          v.edges c,
          v.edges j,
          least c,
          self,
          size,
          size₂,
          size₃,
        );
      }

-- what holds at the head of the loop, the item `t` being put back at `i`
record Sinking (m : HeapMem) (t : HeapItem) (i len : ℕ) : Type 0 where
  inside : i < length m.items
  all : len ≡ length m.items
  small : length m.items < limit
  inv : DownInv (set m.items i t) i
  apart : IsDistinct (set m.items i t)
  linked : IsLinkedBut i (set m.items i t) m.cell

heap_down_loop-Sifted :
    (k : ℕ) (t : HeapItem) (m : HeapMem) (i len : ℕ)
    → len - i < k
    → Sinking m t i len
    → Returns (Sifted (set m.items i t) m.cell) (heap_down_loop k t m i len)
unfolding heap_down_loop
heap_down_loop-Sifted zero t m i len f v = absurd (omega arith)
heap_down_loop-Sifted (suc k) t m i len f v = rw v.all (
    Returns-bind (smallest_kid-Found t m i v.inside v.small) λ p found. elim found [
      | settled none_smaller least ↦
          rw (none_smaller, place-ok m i t v.inside)
            (returns (
              placed-Sifted m t i v.inside
                (λ c q r. elim (Bool-cases (up c == i)) [
                  | inl e ↦ let e' : up c ≡ i = ground arith in rw e' (least c q r e')
                  | inr e ↦ v.inv.edges c q r (ground arith)
                ])
                v.apart v.linked))
      | smaller inside kid less least ↦
          let hp : p < length m.items = rw length-set at inside in
          let ne : i ≢ p = omega arith in
          let found_one : (p == no_index) ≡ false = ground arith in
          rw (found_one, load-ok m p hp, place-ok m i (item m.items p) v.inside)
            (Returns-map
              (heap_down_loop-Sifted k t (placed m i (item m.items p)) p (length m.items)
                (omega arith)
                (record {
                  inside = rw length-set hp;
                  all = rw length-set refl;
                  small = rw length-set v.small;
                  inv =
                      moved-DownInv m t i p v.inside hp ne v.inv kid less
                        (λ c q r. least c q (rw length-set r));
                  apart = moved-IsDistinct m t i p v.inside hp ne v.apart;
                  linked = moved-IsLinkedBut m t i p v.inside hp ne v.apart v.linked;
                }))
              (λ r. Sifted-move m t i p v.inside hp ne v.apart))
    ])

-- heap_down over the whole array ends without a fault and restores the heap order and the links, if
-- only the edges below `i` are out of order.
pub heap_down-Sifted :
    (m : HeapMem) (i : ℕ)
    → i < length m.items
    → length m.items < limit
    → DownInv m.items i
    → IsDistinct m.items
    → IsLinkedBut i m.items m.cell
    → Returns (Sifted m.items m.cell) (heap_down m i (length m.items))
unfolding heap_down
heap_down-Sifted m i h small inv apart linked =
    let x = item m.items i in
    let n = length m.items in
    let same : set m.items i x ≡ m.items = set_self m.items i blank in
    let v : Sinking m x i n = record {
      inside = h;
      all = refl;
      small = small;
      inv = rw same inv;
      apart = rw same apart;
      linked = rw same linked;
    } in
    rw (load-ok m i h) (rw same at (heap_down_loop-Sifted (n + 1) x m i n (omega arith) v))
