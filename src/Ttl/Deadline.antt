-- ===== src/Ttl/Deadline.antt =====
-- The heap of timers as a map from entries to deadlines.
use cand_cppwith_linux.Base.{
  ℕ, ◌<◌, ◌≡◌, Bool, ◌&&◌, none, some, Option-cases, Bool-cases, inl, inr, arith, ltb, ◌⊎◌, ◌==◌,
  length,
}
use cand_cppwith_linux.Base.Array.{get_elem?-get_or}
use cand_cppwith_linux.Base.Count.{count_p, count_p-pos, index_of_count}
use cand_cppwith_linux.Heap.{HeapItem, HeapMem, no_index}
use cand_cppwith_linux.Heap.Order.{blank, item, limit, IsHeap, IsDistinct, IsLinked, IsForeign}
use cand_cppwith_linux.Ttl.{deadline}

-- The state between two calls: a heap of at most `limit` items with distinct cells, in which the
-- cell of every item holds its index and the cell of any other entry holds (size_t)-1.
pub record IsValid (m : HeapMem) : Type 0 where
  pub heap : IsHeap m.items
  pub apart : IsDistinct m.items
  pub linked : IsLinked m
  pub idle : (r : ℕ) → IsForeign m.items r → m.cell r ≡ no_index
  pub small : length m.items < limit

-- the item of entry `r` with value `v`
abbrev pub is_timer : ℕ → ℕ → HeapItem → Bool
is_timer v r x = (x.ref == r) && (x.val == v)

-- An entry is in the heap exactly if its cell holds the index of an item that points back.
pub foreign_or_item :
    (m : HeapMem) (r : ℕ)
    → IsValid m
    → (m.cell r ≡ no_index) ⊎ ((m.cell r < length m.items) × ((item m.items (m.cell r)).ref ≡ r))
foreign_or_item m r v =
    elim (Bool-cases (ltb (m.cell r) (length m.items) && ((item m.items (m.cell r)).ref == r))) [
      | inl e ↦ inr (ground arith, ground arith)
      | inr e ↦ inl (v.idle r (λ i p q. ground (arith, v.linked i)))
    ]

module _ (m : HeapMem) (valid : IsValid m) (r : ℕ) where
  pub deadline-some : (v : ℕ) → 0 < count_p (is_timer v r) m.items → deadline m r ≡ some v
  unfolding deadline
  deadline-some v h =
      let (i, inside, found) = index_of_count (is_timer v r) m.items blank h in
      let e : (item m.items i).ref ≡ r = ground arith in
      let at : m.cell r ≡ i = rw e at (valid.linked i inside) in
      ground (arith, valid.small, get_elem?-get_or m.items i blank)

  pub count-deadline : (v : ℕ) → deadline m r ≡ some v → 0 < count_p (is_timer v r) m.items
  unfolding deadline
  count-deadline v h = elim (foreign_or_item m r valid) [
    | inl e ↦ absurd (ground arith)
    | inr (inside, back) ↦
        count_p-pos (is_timer v r) m.items (m.cell r) blank inside
          (ground (arith, valid.small, get_elem?-get_or m.items (m.cell r) blank))
  ]

  pub deadline-none : ((v : ℕ) → count_p (is_timer v r) m.items ≡ 0) → deadline m r ≡ none
  deadline-none h = elim (Option-cases (deadline m r)) [
    | inl e ↦ e
    | inr (v, e) ↦ absurd (omega (arith, h v, count-deadline v e))
  ]

-- Equal counts give equal deadlines.
pub deadline_ext :
    (m n : HeapMem) (r : ℕ)
    → IsValid m
    → IsValid n
    → ((v : ℕ) → count_p (is_timer v r) n.items ≡ count_p (is_timer v r) m.items)
    → deadline n r ≡ deadline m r
deadline_ext m n r vm vn same = elim (Option-cases (deadline m r)) [
  | inr (v, e) ↦ rw e (deadline-some n vn r v (omega (arith, same v, count-deadline m vm r v e)))
  | inl e ↦ elim (Option-cases (deadline n r)) [
    | inl f ↦ rw (e, f)
    | inr (v, f) ↦
        let g = deadline-some m vm r v (omega (arith, same v, count-deadline n vn r v f)) in cc
  ]
]
