-- ===== src/HashTable/Insert.antt =====
-- hm_insert, with the first allocation and the start of a resizing.
use mathlib.Core.List.{flatten, append-nil}
use mathlib.Core.List.Perm
use cand_cppwith_linux.Base.{
  ℕ, suc, ◌+◌, ◌-◌, ◌*◌, ◌/◌, ◌%◌, ◌^◌, bit_and, ◌≤◌, ◌<◌, ◌≡◌, refl, sym, ap, ◌∙◌, true, false,
  ◌&&◌, some, List, [], ◌∷◌, ◌++◌, Perm, ok, Returns, returns, Returns-bind, Returns-map,
  Returns-eq, ltb, leb, leb→le, arith, ◌==◌, length, length-append, length-replicate, replicate,
  Bool-cases, inl, inr,
}
use native.Mathlib.Nat.{one-le-pow, pow-suc}
use cand_cppwith_linux.Base.Array.{get_or, length-perm}
use cand_cppwith_linux.Base.Bits.{bit_and_pow2}
use cand_cppwith_linux.HashTable.{
  HNode, HTab, HMap, no_tab, is_null, size_mod, h_init, first_table, check_load, hm_start_resizing,
  hm_insert, k_max_load_factor,
}
use cand_cppwith_linux.HashTable.Slots.{get_or-replicate, flatten-replicate}
use cand_cppwith_linux.HashTable.Table.{IsTable, slots_of, contents, Inserted, h_insert-Inserted}
use cand_cppwith_linux.HashTable.Map.{
  map_contents, Part, IsMap, slots_of-tab, IsTable-Part, max_nodes,
}
use cand_cppwith_linux.HashTable.Resize.{hm_help_resizing-Helped, table_exists}

Perm_of_eq {ℓ} : {A : Type ℓ} {xs ys : List A} → xs ≡ ys → Perm xs ys
Perm_of_eq e = rw e Perm.rfl

module _ {P : Type 0} where
  abbrev fresh : ℕ → HTab P
  fresh n = record { tab = some (replicate n []); mask = n - 1; size = 0 }

  fresh-IsTable : (n : ℕ) → 0 < n → IsTable (fresh n) (replicate n [])
  fresh-IsTable n h = record {
    tab = refl;
    width = omega (arith, length-replicate {A = List (HNode P)} n []);
    counted = sym (ap length (flatten-replicate {A = HNode P} n));
    placed = λ i. rw (get_or-replicate {A = List (HNode P)} n i []) tt;
  }

  h_init-ok : (k : ℕ) → h_init {P = P} (2 ^ k) ≡ ok (fresh (2 ^ k))
  unfolding h_init
  h_init-ok k =
      let positive = one-le-pow k 2 in
      let test : (ltb 0 (2 ^ k) && (bit_and (2 ^ k - 1) (2 ^ k) == 0)) ≡ true =
        ground (arith, bit_and_pow2 k) in
      rw test

  unallocated : (t : HTab P) → Part t → is_null (t.tab) ≡ true → t ≡ no_tab
  unfolding is_null
  unallocated t (inl e) n = e
  unallocated t (inr v) n = let f = v.tab in absurd (ground arith)

  allocated : (t : HTab P) → Part t → is_null (t.tab) ≡ false → IsTable t (slots_of t)
  unfolding is_null
  allocated t (inl e) n = let f = ap HTab.tab e in absurd (ground arith)
  allocated t (inr v) n = v

  -- after step 1: the newer table exists, and the contents are as they were
  record Started (m r : HMap P) : Type 0 where
    valid : IsMap r
    table : IsTable (r.ht1) (slots_of (r.ht1))
    same : map_contents r ≡ map_contents m
    count : r.ht1.size ≤ length (map_contents m)

  first_table-Started : (m : HMap P) → IsMap m → Returns (Started m) (first_table m)
  unfolding first_table flatten
  first_table-Started m v = elim (Bool-cases (is_null (m.ht1.tab))) [
    | inr e ↦
        let t = allocated (m.ht1) v.new e in
        rw e (
          returns (record {
            valid = v;
            table = t;
            same = refl;
            count = omega (arith, t.counted, length-append (contents m.ht1) (contents m.ht2));
          }))
    | inl e ↦
        let none₁ = unallocated (m.ht1) v.new e in
        let t = fresh-IsTable 4 (omega arith) in
        let empty : contents (fresh 4) ≡ [] = flatten-replicate {A = HNode P} 4 in
        let same : map_contents (record m { ht1 = fresh 4 }) ≡ map_contents m =
          ap (λ c. c ++ contents m.ht2) (empty ∙ sym (ap contents none₁)) in
        rw (e, h_init-ok 2)
          (returns (record {
            valid = record {
              new = inr t;
              old = v.old;
              order = λ _. v.order none₁;
              pow = (2, refl);
              swept = v.swept;
              fits = (omega arith, v.fits.1);
              small = rw same v.small;
            };
            table = t;
            same = same;
            count = omega arith;
          }))
  ]

  -- the same nodes in a map that is in order
  record Kept (m r : HMap P) : Type 0 where
    valid : IsMap r
    same : Perm (map_contents r) (map_contents m)

  start_resizing-Kept :
      (m : HMap P)
      → IsMap m
      → m.ht2 ≡ no_tab
      → m.ht1.mask * 4 < max_nodes
      → Returns (Kept m) (hm_start_resizing m)
  unfolding hm_start_resizing flatten is_null get_or
  start_resizing-Kept m v none₂ fits =
      let (k, pow) = v.pow in
      let double : (m.ht1.mask + 1) * 2 % size_mod ≡ 2 ^ suc k = omega (arith, pow-suc 2 k, pow) in
      let positive = one-le-pow (suc k) 2 in
      let t = fresh-IsTable (2 ^ suc k) (omega arith) in
      let empty : contents (fresh (2 ^ suc k)) ≡ [] = flatten-replicate {A = HNode P} (2 ^ suc k) in
      let gone : contents (m.ht2) ≡ [] = rw none₂ in
      let after : map_contents (record { ht1 = fresh (2 ^ suc k); ht2 = m.ht1; resizing_pos = 0 })
          ≡ contents m.ht1 =
        ap (λ c. c ++ contents m.ht1) empty in
      let before : map_contents m ≡ contents m.ht1 =
        ap (λ c. contents m.ht1 ++ c) gone ∙ append-nil (contents m.ht1) in
      let run : hm_start_resizing m
          ≡ ok (record { ht1 = fresh (2 ^ suc k); ht2 = m.ht1; resizing_pos = 0 }) =
        rw (none₂, double, h_init-ok (suc k)) in
      Returns-eq run (
        returns (record {
          valid = record {
            new = inr (IsTable-Part _ _ t);
            old = v.new;
            order = λ e. absurd (table_exists (fresh (2 ^ suc k)) _ refl e);
            pow = (suc k, omega arith);
            swept = λ i p. absurd (omega arith);
            fits = (omega (arith, pow-suc 2 k, pow), v.fits.0);
            small = rw (after ∙ sym before) (v.small);
          };
          same = Perm_of_eq (after ∙ sym before);
        }))

  check_load-Kept :
      (m : HMap P) → IsMap m → IsTable (m.ht1) (slots_of (m.ht1)) → Returns (Kept m) (check_load m)
  unfolding check_load
  check_load-Kept m v t = elim (Bool-cases (is_null (m.ht2.tab))) [
    | inr e ↦ rw e (returns (record { valid = v; same = Perm.rfl }))
    | inl e ↦
        elim (Bool-cases (leb k_max_load_factor (m.ht1.size / ((m.ht1.mask + 1) % size_mod)))) [
          | inr f ↦ rw (e, f) (returns (record { valid = v; same = Perm.rfl }))
          | inl f ↦
              rw (e, f)
                (start_resizing-Kept m v (unallocated (m.ht2) v.old e) (
                  loaded (m.ht1.size) (m.ht1.mask) f v.fits.0 (
                    omega (
                      arith,
                      t.counted,
                      v.small,
                      length-append (contents m.ht1) (contents m.ht2),
                    ))))
        ]
  ]
    where
      loaded :
          (size mask : ℕ)
          → leb k_max_load_factor (size / ((mask + 1) % size_mod)) ≡ true
          → mask < max_nodes
          → size < max_nodes
          → mask * 4 < max_nodes
      loaded size mask f p q =
          let same : (mask + 1) % size_mod ≡ mask + 1 = omega arith in
          let full : 8 ≤ size / (mask + 1) =
            rw same at (leb→le 8 (size / ((mask + 1) % size_mod)) f) in
          grind arith

  -- What hm_insert delivers: a map in order that has the node besides what was there.
  pub record Added (m : HMap P) (n : HNode P) (r : HMap P) : Type 0 where
    pub valid : IsMap r
    pub adds : Perm (map_contents r) (n ∷ map_contents m)

  Inserted-IsMap :
      (m : HMap P) (v : IsMap m) (t : IsTable (m.ht1) (slots_of (m.ht1))) (n : HNode P) (r : HTab P)
      → Inserted (m.ht1) (slots_of (m.ht1)) t n r
      → length (map_contents m) + 1 < max_nodes
      → Added m n (record m { ht1 = r })
  Inserted-IsMap m v t n r a room =
      let same = slots_of-tab r a.new_slots a.table.tab in
      let adds : Perm (map_contents (record m { ht1 = r })) (n ∷ map_contents m) =
        rw same (Perm.append_right (contents m.ht2) a.adds) in
      record {
        valid = record {
          new = inr (IsTable-Part r a.new_slots a.table);
          old = v.old;
          order = λ e. absurd (table_exists r a.new_slots a.table.tab e);
          pow = (v.pow.0, rw a.same_mask (v.pow.1));
          swept = v.swept;
          fits = (rw a.same_mask v.fits.0, v.fits.1);
          small = omega (arith, length-perm adds);
        };
        adds = adds;
      }

  -- On a map in order with room, hm_insert ends without a fault or a failed assertion. The map is in
  -- order again, and its nodes are those before and the new one.
  pub hm_insert-Added :
      (m : HMap P) (n : HNode P)
      → IsMap m
      → length (map_contents m) + 1 < max_nodes
      → Returns (Added m n) (hm_insert m n)
  unfolding hm_insert
  hm_insert-Added m n v room = Returns-bind (first_table-Started m v) λ m₁ s.
      let small = ap length s.same in
      Returns-bind
        (h_insert-Inserted (m₁.ht1) (slots_of (m₁.ht1)) s.table n (omega (arith, s.count)))
        λ t a.
          let b = Inserted-IsMap m₁ s.valid s.table n t a (omega arith) in
          Returns-bind
            (check_load-Kept (record m₁ { ht1 = t }) b.valid (IsTable-Part t a.new_slots a.table))
            λ m₂ c. Returns-map (hm_help_resizing-Helped m₂ c.valid) λ r d. record {
              valid = d.valid;
              adds = Perm.trans d.same (Perm.trans c.same (rw s.same at (b.adds)));
            }
