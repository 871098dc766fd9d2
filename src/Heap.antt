-- ===== src/Heap.antt =====
-- ownRedisUsingCpp/heap.h and heap.cpp: the array heap that orders the TTL timers. Each item holds
-- a pointer `ref` to a `size_t` cell of its owner (Entry::heap_idx), into which the heap writes the
-- item's index at every move. The array and those cells are the state; an access past the end of
-- the array is a fault.
pub mod Order
pub mod Up
pub mod Down
pub mod Update
mod Tests
use cand_cppwith_linux.Base.{
  ℕ, zero, suc, ◌+◌, ◌-◌, ◌*◌, ◌/◌, ◌%◌, ◌^◌, List, Run, ok, out_of_fuel, deref, check, ◌>>=◌, ◌>>◌,
  ltb, ◌==◌, if◌then◌else◌, length, get_elem?, set,
}

-- the number of values of a `size_t` or a `uint64_t`
abbrev pub size_mod : ℕ
size_mod = 2 ^ 64

-- `(size_t)-1`
abbrev pub no_index : ℕ
no_index = size_mod - 1

pub record HeapItem : Type 0 where
  pub val : ℕ
  pub ref : ℕ

-- the array, and the `size_t` cells by address
pub record HeapMem : Type 0 where
  pub items : List HeapItem
  pub cell : ℕ → ℕ

unfoldable pub heap_parent : ℕ → ℕ
heap_parent i = ((i + 1) % size_mod / 2 + size_mod - 1) % size_mod

unfoldable pub heap_left : ℕ → ℕ
heap_left i = (i * 2 + 1) % size_mod

unfoldable pub heap_right : ℕ → ℕ
heap_right i = (i * 2 + 2) % size_mod

-- `a[i]`
unfoldable pub load : HeapMem → ℕ → Run HeapItem
load m i = deref (get_elem? m.items i)

unfoldable pub write_cell : (ℕ → ℕ) → ℕ → ℕ → ℕ → ℕ
write_cell f r v a = if a == r then v else f a

-- `a[pos] = t; *a[pos].ref = pos;`
unfoldable pub place : HeapMem → ℕ → HeapItem → Run HeapMem
place m pos t = do
  check (ltb pos (length m.items))
  ok (record { items = set m.items pos t; cell = write_cell m.cell t.ref pos })

-- the loop of heap_up: `t` is the item that was at `a[pos]` at the start
heap_up_loop : ℕ → HeapItem → HeapMem → ℕ → Run HeapMem
heap_up_loop zero t m pos = out_of_fuel
heap_up_loop (suc k) t m pos =
    let stop = place m pos t in
    let test : Run HeapMem = do
      p ← load m (heap_parent pos)
      let climb : Run HeapMem = place m pos p >>= λ m'. heap_up_loop k t m' (heap_parent pos)
      if ltb t.val p.val then climb else stop
    in if ltb 0 pos then test else stop

unfoldable pub heap_up : HeapMem → ℕ → Run HeapMem
unfolding heap_up_loop place load
heap_up m pos = do t ← load m pos; heap_up_loop (pos + 1) t m pos

-- one test of a round of heap_down, `kid < len && a[kid].val < min_val`, on the smallest so far
try_kid : HeapMem → ℕ → ℕ → ℕ × ℕ → Run (ℕ × ℕ)
try_kid m kid len (min_pos, min_val) =
    let test : Run (ℕ × ℕ) = do
      x ← load m kid
      ok (if ltb x.val min_val then (kid, x.val) else (min_pos, min_val))
    in if ltb kid len then test else ok (min_pos, min_val)

-- the smallest of `t` and the kids of `pos`: `(size_t)-1` if that is `t`
smallest_kid : HeapItem → HeapMem → ℕ → ℕ → Run ℕ
smallest_kid t m pos len = do
  left ← try_kid m (heap_left pos) len (no_index, t.val)
  right ← try_kid m (heap_right pos) len left
  ok (right.0)

-- the loop of heap_down
heap_down_loop : ℕ → HeapItem → HeapMem → ℕ → ℕ → Run HeapMem
heap_down_loop zero t m pos len = out_of_fuel
heap_down_loop (suc k) t m pos len = do
  min_pos ← smallest_kid t m pos len
  let sink : Run HeapMem = do
    x ← load m min_pos
    m' ← place m pos x
    heap_down_loop k t m' min_pos len
  if min_pos == no_index then place m pos t else sink

unfoldable pub heap_down : HeapMem → ℕ → ℕ → Run HeapMem
unfolding heap_down_loop smallest_kid try_kid place load
heap_down m pos len = do t ← load m pos; heap_down_loop (len + 1) t m pos len

unfoldable pub heap_update : HeapMem → ℕ → ℕ → Run HeapMem
heap_update m pos len =
    let test : Run HeapMem = do
      p ← load m (heap_parent pos)
      x ← load m pos
      if ltb x.val p.val then heap_up m pos else heap_down m pos len
    in if ltb 0 pos then test else heap_down m pos len
