-- ===== src/Ttl/Update.antt =====
-- Giving an entry a deadline: a new item at the end of the heap, or a new value in place.
use cand_cppwith_linux.Base.{
  ℕ, ◌+◌, ◌-◌, ◌<◌, ◌≡◌, ◌≢◌, ◌/◌, ◌∙◌, List, [], ◌∷◌, Perm, some, Returns, Returns-map, ok, arith,
  ◌==◌, length, length-set, length-append, set,
}
use cand_cppwith_linux.Base.Array.{get_or-set, get_or-append_left, get_or-append_self, length-perm}
use cand_cppwith_linux.Base.Count.{count_p, count_p-pos, count_p-perm, count_p-set, index_of_count}
use cand_cppwith_linux.Heap.{HeapItem, HeapMem, no_index}
use cand_cppwith_linux.Heap.Order.{
  blank, item, limit, IsDistinct, IsLinkedBut, IsForeign, Sifted, load-ok,
}
use cand_cppwith_linux.Heap.Update.{IsHeapBut, heap_update-Sifted}
use cand_cppwith_linux.Ttl.{store, update_timer, push_timer, deadline}
use cand_cppwith_linux.Ttl.Deadline.{IsValid, is_timer, deadline-some}

pub store-ok :
    (m : HeapMem) (i : ℕ) (x : HeapItem)
    → i < length m.items
    → store m i x ≡ ok (record m { items = set m.items i x })
unfolding store
store-ok m i x h = ground arith

-- An entry with no item after a sift had none before it.
pub IsForeign-perm : (a b : List HeapItem) (r : ℕ) → Perm b a → IsForeign b r → IsForeign a r
IsForeign-perm a b r p foreign i inside e =
    let here = count_p-pos (λ x. x.ref == r) a i blank inside (ground arith) in
    let (j, there, found) =
      index_of_count (λ x. x.ref == r) b blank
        (omega (arith, count_p-perm (λ x. x.ref == r) p, here)) in
    foreign j there (ground arith)

-- A heap in which only the item at `i`, of entry `r`, may be out of place.
pub record Ready (m : HeapMem) (i r : ℕ) : Type 0 where
  pub inside : i < length m.items
  pub owner : (item m.items i).ref ≡ r
  pub near : IsHeapBut m.items i
  pub apart : IsDistinct m.items
  pub linked : IsLinkedBut i m.items m.cell
  pub idle : (s : ℕ) → IsForeign m.items s → m.cell s ≡ no_index
  pub small : length m.items < limit

pub Sifted-IsValid :
    (m n : HeapMem) (i r : ℕ)
    → Ready m i r
    → Sifted m.items m.cell n
    → length n.items ≡ length m.items
    → IsValid n
Sifted-IsValid m n i r v s size = record {
  heap = s.heap;
  apart = s.distinct;
  linked = s.linked;
  idle = λ a foreign.
      let before = IsForeign-perm m.items n.items a s.perm foreign in
      s.frame a before ∙ v.idle a before;
  small = rw size v.small;
}

-- What update_timer delivers, for the item of entry `r` in `m`: a valid heap in which `r` has the
-- deadline `v` and the items of the others are as in `m`.
pub record Updated (m : HeapMem) (r v : ℕ) (n : HeapMem) : Type 0 where
  pub valid : IsValid n
  pub new : deadline n r ≡ some v
  pub others :
      (s : ℕ) → s ≢ r → (w : ℕ) → count_p (is_timer w s) n.items ≡ count_p (is_timer w s) m.items

module _ (m : HeapMem) (i r v : ℕ) (ready : Ready m i r) where
  abbrev timed : HeapItem
  timed = record (item m.items i) { val = v }

  abbrev stored : HeapMem
  stored = record m { items = set m.items i timed }

  stored-Ready : Ready stored i r
  stored-Ready =
      let at = λ (c : ℕ). get_or-set m.items i c timed blank in
      let size = length-set m.items i timed in
      record {
        inside = rw size ready.inside;
        owner = ground (arith, at i, ready.owner, ready.inside);
        near = record {
          edges = λ c p q e f.
              ground (arith, ready.near.edges c, at c, at ((c - 1) / 2), size, ready.inside);
          bridged = λ c p q e f.
              ground (arith, ready.near.bridged c, at c, at ((i - 1) / 2), size, ready.inside);
        };
        apart = λ c d p q e. ground (arith, ready.apart c d, at c, at d, size, ready.inside);
        linked = λ c p q. ground (arith, ready.linked c, at c, size, ready.inside);
        idle = λ s foreign.
            ready.idle s (λ c p e. foreign c (rw size p) (ground (arith, at c, ready.inside)));
        small = rw size ready.small;
      }

  pub update_timer-Updated : Returns (Updated m r v) (update_timer m i v)
  unfolding update_timer
  update_timer-Updated =
      let go = stored-Ready in
      rw (load-ok m i ready.inside, store-ok m i timed ready.inside)
        (Returns-map (heap_update-Sifted stored i go.inside go.small go.near go.apart go.linked)
          (λ n s.
            let size = length-perm s.perm in
            let valid = Sifted-IsValid stored n i r go s size in
            let counts =
              λ (w t : ℕ). count_p-set (is_timer w t) m.items i timed blank ready.inside in
            record {
              valid = valid;
              new = deadline-some n valid r v (
                  ground (
                    arith,
                    count_p-perm (is_timer v r) s.perm,
                    count_p-pos (is_timer v r) stored.items i blank go.inside (
                        ground
                          (arith, get_or-set m.items i i timed blank, ready.owner, ready.inside)),
                  ));
              others = λ t ne w.
                  ground (arith, count_p-perm (is_timer w t) s.perm, counts w t, ready.owner);
            }))

-- A new item at the end is ready to be sifted.
pub push_timer-Ready :
    (m : HeapMem) (ent : ℕ)
    → IsValid m
    → length m.items + 1 < limit
    → m.cell ent ≡ no_index
    → Ready (push_timer m ent) (length m.items) ent
unfolding push_timer
push_timer-Ready m ent v small fresh =
    let x : HeapItem = record { val = 0; ref = ent } in
    let n = length m.items in
    let size = length-append m.items (x ∷ []) in
    let old = λ (c : ℕ). get_or-append_left m.items (x ∷ []) c blank in
    let last = get_or-append_self m.items x blank [] in
    record {
      inside = omega (arith, size);
      owner = ground (arith, last);
      near = record {
        edges = λ c p q e f. ground (arith, v.heap c, old c, old ((c - 1) / 2), size);
        bridged = λ c p q e f. absurd (omega (arith, size));
      };
      apart = λ c d p q e.
          ground (arith, v.apart c d, v.linked c, v.linked d, v.small, old c, old d, last, size);
      linked = λ c p q. ground (arith, v.linked c, old c, size);
      idle =
          λ s foreign. v.idle s (λ c p e. foreign c (omega (arith, size)) (ground (arith, old c)));
      small = omega (arith, size);
    }
