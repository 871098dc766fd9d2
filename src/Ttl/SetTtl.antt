-- ===== src/Ttl/SetTtl.antt =====
-- entry_set_ttl as an update of the map from entries to deadlines.
use cand_cppwith_linux.Base.{
  ℕ, ◌+◌, ◌-◌, ◌≤◌, ◌<◌, ◌≡◌, ◌≢◌, [], ◌∷◌, Option, none, some, Bool-cases, inl, inr, Returns,
  returns, Returns-map, arith, ◌==◌, if◌then◌else◌, length, length-append,
}
use cand_cppwith_linux.Base.Int.{ℤ, pos, ltb_ℤ}
use cand_cppwith_linux.Base.Array.{get_elem?-get_or}
use cand_cppwith_linux.Base.Count.{count_p, count_p-append}
use cand_cppwith_linux.Heap.{HeapItem, HeapMem, no_index}
use cand_cppwith_linux.Heap.Order.{blank, key, limit}
use cand_cppwith_linux.Heap.Update.{root-le}
use cand_cppwith_linux.Ttl.{entry_set_ttl, update_timer, push_timer, deadline, deadline_at}
use cand_cppwith_linux.Ttl.Deadline.{IsValid, is_timer, foreign_or_item, deadline_ext}
use cand_cppwith_linux.Ttl.Update.{Ready, update_timer-Updated, push_timer-Ready}
use cand_cppwith_linux.Ttl.Erase.{erase_timer-Erased}

-- the deadline that a call asks for
abbrev pub asked : ℤ → ℕ → Option ℕ
asked ttl_ms now = if ltb_ℤ ttl_ms (pos 0) then none else some (deadline_at now ttl_ms)

-- `n` is `m` with the deadline of `ent` set to `d`
pub record SetsDeadline (m : HeapMem) (ent : ℕ) (d : Option ℕ) (n : HeapMem) : Type 0 where
  pub valid : IsValid n
  pub deadlines : (r : ℕ) → deadline n r ≡ (if r == ent then d else deadline m r)

-- An item of an entry with a timer is ready to be given a new value.
item-Ready : (m : HeapMem) (ent : ℕ) → IsValid m → m.cell ent ≢ no_index → Ready m (m.cell ent) ent
item-Ready m ent v busy = elim (foreign_or_item m ent v) [
  | inl e ↦ absurd (busy e)
  | inr (inside, own) ↦ record {
    inside = inside;
    owner = own;
    near = record {
      edges = λ c p q e f. v.heap c p q;
      bridged = λ c p q e f. ground (arith, v.heap c, v.heap (m.cell ent));
    };
    apart = v.apart;
    linked = λ c p e. v.linked c p;
    idle = v.idle;
    small = v.small;
  }
]

module _ (m : HeapMem) (ent : ℕ) (v : IsValid m) where
  update-SetsDeadline :
      (d : ℕ)
      → m.cell ent ≢ no_index
      → Returns (SetsDeadline m ent (some d)) (update_timer m (m.cell ent) d)
  update-SetsDeadline d busy =
      Returns-map (update_timer-Updated m (m.cell ent) ent d (item-Ready m ent v busy)) λ n u.
        record {
          valid = u.valid;
          deadlines = λ r. elim (Bool-cases (r == ent)) [
            | inl e ↦ let e' : r ≡ ent = ground arith in rw (e', u.new) (ground arith)
            | inr e ↦ rw e (deadline_ext m n r v u.valid (u.others r (ground arith)))
          ];
        }

  push-SetsDeadline :
      (d : ℕ)
      → m.cell ent ≡ no_index
      → length m.items + 1 < limit
      → Returns
          (SetsDeadline m ent (some d))
          (update_timer (push_timer m ent) (length (push_timer m ent).items - 1) d)
  unfolding push_timer count_p
  push-SetsDeadline d fresh small =
      let x : HeapItem = record { val = 0; ref = ent } in
      let n = length m.items in
      let end : length (push_timer m ent).items - 1 ≡ n =
        omega (arith, length-append m.items (x ∷ [])) in
      rw end (
        Returns-map
          (update_timer-Updated (push_timer m ent) n ent d (push_timer-Ready m ent v small fresh))
          λ r u. record {
            valid = u.valid;
            deadlines = λ s. elim (Bool-cases (s == ent)) [
              | inl e ↦ let e' : s ≡ ent = ground arith in rw (e', u.new) (ground arith)
              | inr e ↦ rw e (
                  deadline_ext m r s v u.valid (λ w. ground (
                    arith,
                    u.others s,
                    u.others s (ground arith) w,
                    count_p-append (is_timer w s) m.items (x ∷ []),
                  )))
            ];
          })

  idle-deadline : m.cell ent ≡ no_index → deadline m ent ≡ none
  unfolding deadline
  idle-deadline e = ground arith

-- From a valid state with room for one more item entry_set_ttl ends without a fault, in a valid
-- state in which the deadline of `ent` is the one asked for (none for a negative ttl_ms) and every
-- other entry's deadline is unchanged.
pub entry_set_ttl-SetsDeadline :
    (m : HeapMem) (ent : ℕ) (ttl_ms : ℤ) (now : ℕ)
    → IsValid m
    → length m.items + 1 < limit
    → Returns (SetsDeadline m ent (asked ttl_ms now)) (entry_set_ttl m ent ttl_ms now)
unfolding entry_set_ttl
entry_set_ttl-SetsDeadline m ent ttl now v small = elim (Bool-cases (ltb_ℤ ttl (pos 0))) [
  | inl negative ↦ elim (Bool-cases (m.cell ent == no_index)) [
    | inl fresh ↦
        rw (negative, fresh)
          (returns (record {
            valid = v;
            deadlines = λ r. elim (Bool-cases (r == ent)) [
              | inl e ↦
                  let e' : r ≡ ent = ground arith in
                  rw e' (ground (arith, idle-deadline m ent v (ground arith)))
              | inr e ↦ rw e
            ];
          }))
    | inr busy ↦
        rw (negative, busy)
          (elim (foreign_or_item m ent v) [
            | inl e ↦ absurd (ground arith)
            | inr (inside, own) ↦
                Returns-map
                  (erase_timer-Erased m v ent (length m.items - 1) (omega arith) inside own)
                  λ n u. record {
                    valid = u.valid_after;
                    deadlines = λ r. elim (Bool-cases (r == ent)) [
                      | inl e ↦ let e' : r ≡ ent = ground arith in rw (e', u.gone) (ground arith)
                      | inr e ↦ rw e (u.others r (ground arith))
                    ];
                  }
          ])
  ]
  | inr later ↦ elim (Bool-cases (m.cell ent == no_index)) [
    | inl fresh ↦
        rw (later, fresh) (push-SetsDeadline m ent v (deadline_at now ttl) (ground arith) small)
    | inr busy ↦ rw (later, busy) (update-SetsDeadline m ent v (deadline_at now ttl) (ground arith))
  ]
]

-- In a valid state the first item of the heap has the earliest of all deadlines.
pub root-earliest : (m : HeapMem) (r d : ℕ) → IsValid m → deadline m r ≡ some d → key m.items 0 ≤ d
unfolding deadline
root-earliest m r d v e = elim (foreign_or_item m r v) [
  | inl idle ↦ absurd (ground arith)
  | inr (inside, own) ↦
      let least = root-le m.items (m.cell r) v.heap inside in
      ground (arith, v.small, get_elem?-get_or m.items (m.cell r) blank)
]
