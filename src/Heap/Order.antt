-- ===== src/Heap/Order.antt =====
-- The heap order, the links from items to cells, and what a write into the hole of a sift does.
use mathlib.Core.Logic.{◌≢◌}
use mathlib.Core.List.Perm
use cand_cppwith_linux.Base.{
  ℕ, ◌+◌, ◌-◌, ◌*◌, ◌/◌, ◌^◌, ◌≤◌, ◌<◌, ◌≡◌, List, Perm, ok, arith, length, set, length-set, ◌==◌,
  if◌then◌else◌,
}
use cand_cppwith_linux.Base.Array.{get_or, get_or-set, get_elem?-get_or, move_hole-perm}
use cand_cppwith_linux.Heap.{
  HeapItem, HeapMem, heap_parent, heap_left, heap_right, load, place, write_cell,
}

abbrev pub blank : HeapItem
blank = record { val = 0; ref = 0 }

abbrev pub item : List HeapItem → ℕ → HeapItem
item a i = get_or a i blank

abbrev pub key : List HeapItem → ℕ → ℕ
key a i = (item a i).val

abbrev pub up : ℕ → ℕ
up c = (c - 1) / 2

-- An array of 2^62 items would be larger than the address space.
abbrev pub limit : ℕ
limit = 2 ^ 62

pub heap_parent-up : (i : ℕ) → 0 < i → i < limit → heap_parent i ≡ up i
unfolding heap_parent
heap_parent-up i h k = omega arith

pub heap_left-eq : (i : ℕ) → i < limit → heap_left i ≡ i * 2 + 1
unfolding heap_left
heap_left-eq i h = omega arith

pub heap_right-eq : (i : ℕ) → i < limit → heap_right i ≡ i * 2 + 2
unfolding heap_right
heap_right-eq i h = omega arith

-- every item but the first has a parent that is not larger
abbrev pub IsHeap : List HeapItem → Type 0
IsHeap a = (c : ℕ) → 0 < c → c < length a → key a (up c) ≤ key a c

-- the parent of `i` is not larger than the kids of `i`
abbrev pub IsBridged : List HeapItem → ℕ → Type 0
IsBridged a i = (c : ℕ) → 0 < c → c < length a → up c ≡ i → 0 < i → key a (up i) ≤ key a c

-- no two items share a cell
abbrev pub IsDistinct : List HeapItem → Type 0
IsDistinct a = (i j : ℕ) → i < length a → j < length a → (item a i).ref ≡ (item a j).ref → i ≡ j

-- every item's cell holds its index, but for the item at `hole`
abbrev pub IsLinkedBut : ℕ → List HeapItem → (ℕ → ℕ) → Type 0
IsLinkedBut hole a f = (i : ℕ) → i < length a → i ≢ hole → f (item a i).ref ≡ i

abbrev pub IsLinked : HeapMem → Type 0
IsLinked m = (i : ℕ) → i < length m.items → m.cell (item m.items i).ref ≡ i

-- `r` is the cell of no item
abbrev pub IsForeign : List HeapItem → ℕ → Type 0
IsForeign a r = (i : ℕ) → i < length a → (item a i).ref ≢ r

-- What a sift of `a`, with cells `f`, must deliver.
pub record Sifted (a : List HeapItem) (f : ℕ → ℕ) (m : HeapMem) : Type 0 where
  pub heap : IsHeap m.items
  pub perm : Perm m.items a
  pub linked : IsLinked m
  pub distinct : IsDistinct m.items
  pub frame : (r : ℕ) → IsForeign a r → m.cell r ≡ f r

pub load-ok : (m : HeapMem) (i : ℕ) → i < length m.items → load m i ≡ ok (item m.items i)
unfolding load
load-ok m i h = rw (get_elem?-get_or m.items i blank h)

abbrev pub placed : HeapMem → ℕ → HeapItem → HeapMem
placed m i t = record { items = set m.items i t; cell = write_cell m.cell t.ref i }

pub place-ok :
    (m : HeapMem) (i : ℕ) (t : HeapItem) → i < length m.items → place m i t ≡ ok (placed m i t)
unfolding place
place-ok m i t h = ground arith

-- One round moves the item at `j` into the hole at `i`: the hole is then at `j`. `b` is the array
-- with the sifted item `t` in the hole before the move, `moved` after it.
module _ (m : HeapMem) (t : HeapItem) (i j : ℕ) (hi : i < length m.items) (hj : j < length m.items)
    (ne : i ≢ j) where
  abbrev before : List HeapItem
  before = set m.items i t

  abbrev pub next : HeapMem
  next = placed m i (item m.items j)

  abbrev pub moved : List HeapItem
  moved = set (next).items j t

  pub item-moved :
      (c : ℕ)
      → item moved c ≡ (if j == c then t else if i == c then item before j else item before c)
  item-moved c = ground (
    arith,
    get_or-set (next).items j c t blank,
    get_or-set m.items i c (item m.items j) blank,
    get_or-set m.items i c t blank,
    get_or-set m.items i j t blank,
    length-set m.items i (item m.items j),
  )

  pub moved-perm : Perm moved before
  moved-perm = move_hole-perm m.items i j t blank hi hj ne

  module _ (apart : IsDistinct before) where
    pub moved-IsDistinct : IsDistinct moved
    moved-IsDistinct = λ c d p q e. ground (
      arith,
      item-moved c,
      item-moved d,
      apart c d,
      apart c i,
      apart c j,
      apart i d,
      apart j d,
      apart i j,
      apart j i,
      length-set m.items i t,
      length-set m.items i (item m.items j),
      length-set (next).items j t,
      get_or-set m.items i i t blank,
    )

    pub moved-IsLinkedBut : IsLinkedBut i before m.cell → IsLinkedBut j moved (next).cell
    unfolding write_cell
    moved-IsLinkedBut linked = λ c p q. ground (
      arith,
      item-moved c,
      linked c,
      apart c j,
      length-set m.items i t,
      length-set m.items i (item m.items j),
      length-set (next).items j t,
      get_or-set m.items i j t blank,
    )

    pub Sifted-move : {r : HeapMem} → Sifted moved (next).cell r → Sifted before m.cell r
    unfolding write_cell
    Sifted-move {r} s = record {
      heap = s.heap;
      perm = Perm.trans s.perm moved-perm;
      linked = s.linked;
      distinct = s.distinct;
      frame = λ a foreign. ground (
        arith,
        s.frame a (λ c p. ground (
          arith,
          item-moved c,
          foreign c,
          foreign i,
          foreign j,
          length-set m.items i t,
          length-set m.items i (item m.items j),
          length-set (next).items j t,
          get_or-set m.items i i t blank,
        )),
        foreign j,
        length-set m.items i t,
        get_or-set m.items i j t blank,
      );
    }

-- Filling the hole ends a sift.
pub placed-Sifted :
    (m : HeapMem) (t : HeapItem) (i : ℕ)
    → i < length m.items
    → IsHeap (set m.items i t)
    → IsDistinct (set m.items i t)
    → IsLinkedBut i (set m.items i t) m.cell
    → Sifted (set m.items i t) m.cell (placed m i t)
unfolding write_cell
placed-Sifted m t i h heap apart linked = record {
  heap = heap;
  perm = Perm.rfl;
  linked = λ c p.
      ground (arith, linked c, apart c i, length-set m.items i t, get_or-set m.items i i t blank);
  distinct = apart;
  frame = λ a foreign.
      ground (arith, foreign i, length-set m.items i t, get_or-set m.items i i t blank);
}
