-- ===== src/Ttl.antt =====
-- The key expiry timers of ownRedisUsingCpp/server.cpp: entry_set_ttl and next_timer_ms over the
-- heap of g_data. The cells of the heap are the fields Entry::heap_idx, by the address of the
-- entry, with (size_t)-1 for an entry that has no timer. The clock is read by the caller and passed
-- in.
pub mod Deadline
pub mod Update
pub mod Erase
pub mod SetTtl
pub mod Next
mod Tests
use cand_cppwith_linux.Base.{
  ℕ, zero, suc, ◌+◌, ◌-◌, ◌*◌, ◌%◌, Bool, ◌&&◌, not, Option, none, some, List, [], ◌∷◌, ◌++◌, Run,
  ok, fault, check, deref, ◌>>=◌, ◌>>◌, ltb, leb, ◌/◌, ◌^◌, ◌==◌, if◌then◌else◌, length, get_elem?,
  set,
}
use cand_cppwith_linux.Base.Int.{ℤ, pos, pos_part, ltb_ℤ}
use cand_cppwith_linux.Heap.{HeapItem, HeapMem, no_index, size_mod, load, write_cell, heap_update}

-- `v.pop_back()`: undefined on an empty vector
unfoldable pub pop_back {ℓ} : {A : Type ℓ} → List A → Run (List A)
pop_back [] = fault
pop_back (x ∷ []) = ok []
pop_back (x ∷ (y ∷ xs)) = do rest ← pop_back (y ∷ xs); ok (x ∷ rest)

-- `v[i] = x`
unfoldable pub store : HeapMem → ℕ → HeapItem → Run HeapMem
store m i x = do check (ltb i (length m.items)); ok (record m { items = set m.items i x })

-- erase the item at `ent->heap_idx`
unfoldable pub erase_timer : HeapMem → ℕ → Run HeapMem
erase_timer m ent =
    let i = m.cell ent in
    do
      last ← load m (length m.items - 1)
      m₁ ← store m i last
      shorter ← pop_back m₁.items
      let m₂ : HeapMem = record m₁ { items = shorter }
      m₃ ← if ltb i (length shorter) then heap_update m₂ i (length shorter) else ok m₂
      ok (record m₃ { cell = write_cell m₃.cell ent no_index })

-- `heap[pos].val = v; heap_update(heap, pos, size)`
unfoldable pub update_timer : HeapMem → ℕ → ℕ → Run HeapMem
update_timer m i v = do
  x ← load m i
  m₁ ← store m i (record x { val = v })
  heap_update m₁ i (length m₁.items)

-- `get_monotonic_usec() + (uint64_t)ttl_ms * 1000`, for a `ttl_ms` that is not negative
unfoldable pub deadline_at : ℕ → ℤ → ℕ
deadline_at now ttl_ms = (now + pos_part ttl_ms * 1000) % size_mod

-- the item pushed for an entry without a timer
unfoldable pub push_timer : HeapMem → ℕ → HeapMem
push_timer m ent = record m { items = m.items ++ record { val = 0; ref = ent } ∷ [] }

unfoldable pub entry_set_ttl : HeapMem → ℕ → ℤ → ℕ → Run HeapMem
entry_set_ttl m ent ttl_ms now =
    let i = m.cell ent in
    if ltb_ℤ ttl_ms (pos 0) && not (i == no_index)
    then erase_timer m ent
    else if not (ltb_ℤ ttl_ms (pos 0))
    then (if i == no_index
        then update_timer (push_timer m ent) (length (push_timer m ent).items - 1)
            (deadline_at now ttl_ms)
        else update_timer m i (deadline_at now ttl_ms))
    else ok m

-- What do_ttl reads: `heap[ent->heap_idx].val`, for an entry with a timer.
unfoldable pub deadline : HeapMem → ℕ → Option ℕ
deadline m ent =
    if m.cell ent == no_index
    then none
    else elim (get_elem? m.items (m.cell ent)) [ none ↦ none | some x ↦ some (x.val) ]

abbrev pub k_idle_timeout_ms : ℕ
k_idle_timeout_ms = 5 * 1000

-- `(uint64_t)-1`
abbrev pub no_timer : ℕ
no_timer = 2 ^ 64 - 1

-- `next_us` from the idle list; `idle` is the field idle_start of its first connection
unfoldable pub next_idle : Option ℕ → ℕ
next_idle none = no_timer
next_idle (some idle_start) = (idle_start + k_idle_timeout_ms * 1000) % 2 ^ 64

-- `next_us` from the heap
unfoldable pub next_ttl : ℕ → List HeapItem → ℕ
next_ttl next_us [] = next_us
next_ttl next_us (x ∷ heap) = if ltb x.val next_us then x.val else next_us

unfoldable pub next_timer_ms : ℕ → Option ℕ → HeapMem → ℕ
next_timer_ms now_us idle m =
    let next_us = next_ttl (next_idle idle) (m.items) in
    if next_us == no_timer
    then 10000
    else if leb next_us now_us
    then 0
    else (next_us - now_us) / 1000 % 2 ^ 32
