-- ===== src/HashTable/Find.antt =====
-- hm_lookup, hm_pop and hm_size: the operations as finds in the collection of all nodes.
use mathlib.Core.List.{flatten, perm_middle}
use mathlib.Core.List.Perm
use cand_cppwith_linux.Base.{
  ℕ, ◌<◌, ◌≡◌, sym, ◌∙◌, true, Option, none, some, List, [], ◌∷◌, Perm, ok, Returns, returns,
  Returns-bind, Returns-map, Returns-eq, ◌>>=◌, arith, ◌==◌, length, length-append, get_elem?,
  Bool-cases, inl, inr,
}
use cand_cppwith_linux.Base.Array.{get_or, get_or-set, length-perm}
use cand_cppwith_linux.Base.Count.{count_p, count_p-append, count_p-perm}
use cand_cppwith_linux.HashTable.{
  HNode, HTab, HMap, Callback, no_tab, size_mod, h_lookup, h_node, h_detach, hm_lookup, hm_pop,
  hm_size,
}
use cand_cppwith_linux.HashTable.Slots.{is_match, flatten-set_unlink}
use cand_cppwith_linux.HashTable.Table.{
  IsTable, slots_of, contents, Looked, absent, present, h_lookup-Looked, h_node-ok, Detached,
  h_detach-Detached,
}
use cand_cppwith_linux.HashTable.Map.{
  map_contents, Part, IsMap, slots_of-tab, IsTable-Part, Part-counted,
}
use cand_cppwith_linux.HashTable.Resize.{Helped, hm_help_resizing-Helped, table_exists}

module _ {P : Type 0} (key : HNode P) (eq : Callback P) where
  -- h_lookup in a table that need not be allocated
  data Answer (t : HTab P) : Option (ℕ × ℕ) → Type 0 where
    missing : count_p (is_match eq key) (contents t) ≡ 0 → Answer t none
    found :
        (v : IsTable t (slots_of t)) (pos k : ℕ) (n : HNode P)
        → pos < length (slots_of t)
        → get_elem? (get_or (slots_of t) pos []) k ≡ some n
        → is_match eq key n ≡ true
        → Answer t (some (pos, k))

  h_lookup-Answer : (t : HTab P) → Part t → Returns (Answer t) (h_lookup t key eq)
  unfolding h_lookup flatten count_p
  h_lookup-Answer t (inl e) =
      let run : h_lookup t key eq ≡ ok none = rw e in Returns-eq run (returns (missing (rw e)))
  h_lookup-Answer t (inr v) = Returns-map (h_lookup-Looked t (slots_of t) v key eq) λ r a. from a
    where
      from : {r : Option (ℕ × ℕ)} → Looked t (slots_of t) v key eq r → Answer t r
      from (absent e) = missing e
      from (present pos k n here at m) = found v pos k n here at m

  -- What hm_lookup delivers: the same nodes, and a node that matches the key, or none if none does.
  pub data Found (m : HMap P) : Option (HNode P) × HMap P → Type 0 where
    no_match :
        {r : HMap P}
        → IsMap r
        → Perm (map_contents r) (map_contents m)
        → count_p (is_match eq key) (map_contents m) ≡ 0
        → Found m (none, r)
    one_match :
        {r : HMap P} (n : HNode P) (rest : List (HNode P))
        → IsMap r
        → Perm (map_contents r) (map_contents m)
        → Perm (n ∷ rest) (map_contents m)
        → is_match eq key n ≡ true
        → Found m (some n, r)

  -- What hm_pop delivers: the same nodes if none matches the key, or all but the one returned.
  pub data Popped (m : HMap P) : Option (HNode P) × HMap P → Type 0 where
    nothing :
        {r : HMap P}
        → IsMap r
        → Perm (map_contents r) (map_contents m)
        → count_p (is_match eq key) (map_contents m) ≡ 0
        → Popped m (none, r)
    popped :
        {r : HMap P} (n : HNode P)
        → IsMap r
        → Perm (n ∷ map_contents r) (map_contents m)
        → is_match eq key n ≡ true
        → Popped m (some n, r)

  split_count :
      (m : HMap P)
      → count_p (is_match eq key) (contents m.ht1) ≡ 0
      → count_p (is_match eq key) (contents m.ht2) ≡ 0
      → count_p (is_match eq key) (map_contents m) ≡ 0
  split_count m a b =
      omega (arith, count_p-append (is_match eq key) (contents m.ht1) (contents m.ht2))

  -- hm_lookup, on a map in order, ends without a fault. It keeps the nodes, and returns one that
  -- matches the key (same hash value, equal by `eq`) exactly if there is one.
  pub hm_lookup-Found : (m : HMap P) → IsMap m → Returns (Found m) (hm_lookup m key eq)
  unfolding hm_lookup
  hm_lookup-Found m v =
      Returns-bind (hm_help_resizing-Helped m v)
        λ r d. Returns-bind (h_lookup-Answer (r.ht1) d.valid.new) λ a₁ first. in_new r d a₁ first
    where
      same_count :
          (r : HMap P)
          → Helped m r
          → count_p (is_match eq key) (map_contents r) ≡ count_p (is_match eq key) (map_contents m)
      same_count r d = count_p-perm (is_match eq key) d.same

      in_old :
          (r : HMap P)
          → Helped m r
          → count_p (is_match eq key) (contents r.ht1) ≡ 0
          → (a : Option (ℕ × ℕ)) → Answer (r.ht2) a
          → Returns (Found m) (elim a [
            | some from ↦ (h_node (r.ht2) from >>= λ n. ok (some n, r))
            | none ↦ ok (none, r)
          ])
      in_old r d e none (missing f) =
          returns (no_match d.valid d.same (sym (same_count r d) ∙ split_count r e f))
      in_old r d e a (found t pos k n here at m) =
          rw (h_node-ok (r.ht2) (slots_of (r.ht2)) t pos k n here at) (
            returns (
              one_match n _ d.valid d.same
                (Perm.trans
                  (Perm.trans (Perm.symm (perm_middle (contents r.ht1) _)) (
                    Perm.append_left (contents r.ht1)
                      (flatten-set_unlink (slots_of (r.ht2)) pos k n here at)))
                  d.same)
                m))

      in_new :
          (r : HMap P)
          → Helped m r
          → (a : Option (ℕ × ℕ)) → Answer (r.ht1) a
          → Returns (Found m) (elim a [
            | some from ↦ (h_node (r.ht1) from >>= λ n. ok (some n, r))
            | none ↦
                (h_lookup (r.ht2) key eq >>= λ second. elim second [
                  | some from ↦ (h_node (r.ht2) from >>= λ n. ok (some n, r))
                  | none ↦ ok (none, r)
                ])
          ])
      in_new r d none (missing e) =
          Returns-bind (h_lookup-Answer (r.ht2) d.valid.old) λ a second. in_old r d e a second
      in_new r d a (found t pos k n here at m) =
          rw (h_node-ok (r.ht1) (slots_of (r.ht1)) t pos k n here at) (
            returns (
              one_match n _ d.valid d.same
                (Perm.trans
                  (Perm.append_right (contents r.ht2)
                    (flatten-set_unlink (slots_of (r.ht1)) pos k n here at))
                  d.same)
                m))

  -- the map without a node of its newer table
  popped_new :
      (r : HMap P) (pos k : ℕ) (n : HNode P) (v : IsMap r) (t : IsTable (r.ht1) (slots_of (r.ht1)))
      (q : HNode P × HTab P)
      → Detached (r.ht1) (slots_of (r.ht1)) t pos k n q
      → IsMap (record r { ht1 = q.1 })
        × Perm (n ∷ map_contents (record r { ht1 = q.1 })) (map_contents r)
  popped_new r pos k n v t q d =
      let same = slots_of-tab (q.1) _ d.table.tab in
      let removes : Perm (n ∷ map_contents (record r { ht1 = q.1 })) (map_contents r) =
        rw same (Perm.append_right (contents r.ht2) d.removes) in
      (
        record {
          new = inr (IsTable-Part (q.1) _ d.table);
          old = v.old;
          order = λ e. absurd (table_exists (q.1) _ d.table.tab e);
          pow = (v.pow.0, rw d.same_mask (v.pow.1));
          swept = v.swept;
          fits = (rw d.same_mask v.fits.0, v.fits.1);
          small = omega (arith, length-perm removes, v.small);
        },
        removes,
      )

  popped_old :
      (r : HMap P) (pos k : ℕ) (n : HNode P) (v : IsMap r) (t : IsTable (r.ht2) (slots_of (r.ht2)))
      (q : HNode P × HTab P)
      → pos < length (slots_of (r.ht2))
      → get_elem? (get_or (slots_of (r.ht2)) pos []) k ≡ some n
      → Detached (r.ht2) (slots_of (r.ht2)) t pos k n q
      → IsMap (record r { ht2 = q.1 })
        × Perm (n ∷ map_contents (record r { ht2 = q.1 })) (map_contents r)
  popped_old r pos k n v t q here at d =
      let same = slots_of-tab (q.1) _ d.table.tab in
      let removes : Perm (n ∷ map_contents (record r { ht2 = q.1 })) (map_contents r) = rw same (
        Perm.trans (Perm.symm (perm_middle (contents r.ht1) _))
          (Perm.append_left (contents r.ht1) d.removes)) in
      (
        record {
          new = v.new;
          old = inr (IsTable-Part (q.1) _ d.table);
          order = λ e. absurd (not_alone (r.ht2) t (v.order e));
          pow = v.pow;
          swept = λ i p. elim (Bool-cases (pos == i)) [
            | inl e ↦
                let here_too : pos ≡ i = ground arith in
                let empty = v.swept i p in
                absurd (no_node (get_or (slots_of (r.ht2)) pos []) k n (rw here_too empty) at)
            | inr e ↦ rw (same, get_or-set (slots_of (r.ht2)) pos i _ [] here, e) (v.swept i p)
          ];
          fits = (v.fits.0, rw d.same_mask v.fits.1);
          small = omega (arith, length-perm removes, v.small);
        },
        removes,
      )
    where
      not_alone : (t : HTab P) → IsTable t (slots_of t) → t ≡ no_tab → ⊥
      not_alone t v e = table_exists t (slots_of t) v.tab e

      no_node :
          (chain : List (HNode P)) (k : ℕ) (n : HNode P)
          → chain ≡ []
          → get_elem? chain k ≡ some n
          → ⊥
      no_node chain k n e f =
          let g : get_elem? (let c : List (HNode P) = [] in c) k ≡ some n = rw e at f in cc

  -- hm_pop, on a map in order, ends without a fault. It returns a node that matches the key exactly
  -- if there is one; the nodes are then all the others, and otherwise the same.
  pub hm_pop-Popped : (m : HMap P) → IsMap m → Returns (Popped m) (hm_pop m key eq)
  unfolding hm_pop
  hm_pop-Popped m v =
      Returns-bind (hm_help_resizing-Helped m v)
        λ r d. Returns-bind (h_lookup-Answer (r.ht1) d.valid.new) λ a₁ first. in_new r d a₁ first
    where
      same_count :
          (r : HMap P)
          → Helped m r
          → count_p (is_match eq key) (map_contents r) ≡ count_p (is_match eq key) (map_contents m)
      same_count r d = count_p-perm (is_match eq key) d.same

      few : (r : HMap P) → IsMap r → (r.ht1.size < size_mod) × (r.ht2.size < size_mod)
      few r v =
          let all = length-append (contents r.ht1) (contents r.ht2) in
          (
            omega (arith, Part-counted (r.ht1) v.new, v.small),
            omega (arith, Part-counted (r.ht2) v.old, v.small),
          )

      in_old :
          (r : HMap P)
          → Helped m r
          → count_p (is_match eq key) (contents r.ht1) ≡ 0
          → (a : Option (ℕ × ℕ)) → Answer (r.ht2) a
          → Returns (Popped m) (elim a [
            | some from ↦ (h_detach (r.ht2) from >>= λ (n, t). ok (some n, record r { ht2 = t }))
            | none ↦ ok (none, r)
          ])
      in_old r d e none (missing f) =
          returns (nothing d.valid d.same (sym (same_count r d) ∙ split_count r e f))
      in_old r d e a (found t pos k n here at m) =
          Returns-bind
            (h_detach-Detached (r.ht2) (slots_of (r.ht2)) t pos k n here at (few r d.valid).1)
            λ q g.
              let (valid, removes) = popped_old r pos k n d.valid t q here at g in
              rw g.node (returns (popped n valid (Perm.trans removes d.same) m))

      in_new :
          (r : HMap P)
          → Helped m r
          → (a : Option (ℕ × ℕ)) → Answer (r.ht1) a
          → Returns (Popped m) (elim a [
            | some from ↦ (h_detach (r.ht1) from >>= λ (n, t). ok (some n, record r { ht1 = t }))
            | none ↦
                (h_lookup (r.ht2) key eq >>= λ second. elim second [
                  | some from ↦
                      (h_detach (r.ht2) from >>= λ (n, t). ok (some n, record r { ht2 = t }))
                  | none ↦ ok (none, r)
                ])
          ])
      in_new r d none (missing e) =
          Returns-bind (h_lookup-Answer (r.ht2) d.valid.old) λ a second. in_old r d e a second
      in_new r d a (found t pos k n here at m) =
          Returns-bind
            (h_detach-Detached (r.ht1) (slots_of (r.ht1)) t pos k n here at (few r d.valid).0)
            λ q g.
              let (valid, removes) = popped_new r pos k n d.valid t q g in
              rw g.node (returns (popped n valid (Perm.trans removes d.same) m))

-- hm_size is the number of nodes.
pub hm_size-length : {P : Type 0} (m : HMap P) → IsMap m → hm_size m ≡ length (map_contents m)
unfolding hm_size
hm_size-length m v = omega (
  arith,
  Part-counted (m.ht1) v.new,
  Part-counted (m.ht2) v.old,
  length-append (contents m.ht1) (contents m.ht2),
  v.small,
)
