-- ===== src/HashTable/Resize.antt =====
-- hm_help_resizing: nodes move from the older table to the newer one.
use mathlib.Core.List.{flatten, perm_middle}
use mathlib.Core.List.Perm
use cand_cppwith_linux.Base.{
  ℕ, zero, suc, ◌+◌, ◌-◌, ◌%◌, ◌≤◌, ◌<◌, ◌≡◌, refl, ap, ◌∙◌, true, false, not, ◌&&◌, some, List, [],
  ◌∷◌, Perm, Returns, returns, Returns-bind, Returns-map, Returns-inv, ltb, arith, ◌==◌, length,
  length-append, length-set, get_elem?, Bool-cases, inl, inr, ◌⊎◌,
}
use cand_cppwith_linux.Base.Array.{get_or, get_or-set, get_elem?-get_or, length-perm}
use cand_cppwith_linux.HashTable.{
  HNode, HTab, HMap, no_tab, is_null, size_mod, move_loop, drop_empty, hm_help_resizing,
  k_resizing_work, unlink,
}
use cand_cppwith_linux.HashTable.Slots.{flatten_empty}
use cand_cppwith_linux.HashTable.Table.{
  IsTable, slots_of, contents, Inserted, h_insert-Inserted, Detached, h_detach-Detached,
}
use cand_cppwith_linux.HashTable.Map.{
  map_contents, Part, IsMap, slots_of-tab, IsTable-Part, Part-counted,
}

List-cases {ℓ} :
    {A : Type ℓ} (xs : List A) → (xs ≡ []) ⊎ ((x : A) × (rest : List A) × (xs ≡ x ∷ rest))
List-cases [] = inl refl
List-cases (x ∷ xs) = inr (x, xs, refl)

no_nodes : {A : Type 0} (xs : List A) → length xs ≡ 0 → xs ≡ []
no_nodes [] e = refl
no_nodes (x ∷ xs) e = absurd (omega arith)

module _ {P : Type 0} where
  -- A map in order with the same nodes, `left` of them in the older table.
  pub record Migrated (m : HMap P) (left : ℕ) (r : HMap P) : Type 0 where
    pub valid : IsMap r
    pub same : Perm (map_contents r) (map_contents m)
    pub remaining : r.ht2.size ≡ left

  pub table_exists : (t : HTab P) (s : List (List (HNode P))) → t.tab ≡ some s → t ≡ no_tab → ⊥
  table_exists t s e f = let g = ap HTab.tab f in cc

  module _ (m : HMap P) (v : IsMap m) (busy : 0 < m.ht2.size) where
    old-IsTable : IsTable (m.ht2) (slots_of (m.ht2))
    old-IsTable = go (v.old)
      where
        go : Part (m.ht2) → IsTable (m.ht2) (slots_of (m.ht2))
        go (inl e) = absurd (omega (arith, ap HTab.size e))
        go (inr t) = t

    new-IsTable : IsTable (m.ht1) (slots_of (m.ht1))
    new-IsTable = go (v.new)
      where
        go : Part (m.ht1) → IsTable (m.ht1) (slots_of (m.ht1))
        go (inl e) = absurd (omega (arith, ap HTab.size (v.order e)))
        go (inr t) = t

    -- the position stays inside the older table while that has nodes
    pos_inside : m.resizing_pos < length (slots_of (m.ht2))
    pos_inside = elim (Bool-cases (ltb m.resizing_pos (length (slots_of (m.ht2))))) [
      | inl e ↦ ground arith
      | inr e ↦
          let none_left = flatten_empty (slots_of (m.ht2)) (λ i p. v.swept i (ground arith)) in
          absurd (omega (arith, old-IsTable.counted, ap length none_left))
    ]

    chain-ok :
        get_elem? (slots_of (m.ht2)) m.resizing_pos
        ≡ some (get_or (slots_of (m.ht2)) m.resizing_pos [])
    chain-ok = get_elem?-get_or (slots_of (m.ht2)) m.resizing_pos [] pos_inside

    next_pos : (m.resizing_pos + 1) % size_mod ≡ m.resizing_pos + 1
    next_pos = omega (arith, pos_inside, old-IsTable.width, v.fits)

    -- an empty slot is passed
    skip-IsMap :
        get_or (slots_of (m.ht2)) m.resizing_pos [] ≡ []
        → IsMap (record m { resizing_pos = m.resizing_pos + 1 })
    skip-IsMap empty = record {
      new = v.new;
      old = v.old;
      order = v.order;
      pow = v.pow;
      swept = λ i p. elim (Bool-cases (i == m.resizing_pos)) [
        | inl e ↦ let same : i ≡ m.resizing_pos = ground arith in rw same empty
        | inr e ↦ v.swept i (ground arith)
      ];
      fits = v.fits;
      small = v.small;
    }

    -- a node is moved
    module _ (n : HNode P) (r : HNode P × HTab P)
        (d : Detached (m.ht2) (slots_of (m.ht2)) old-IsTable m.resizing_pos 0 n r) (t : HTab P)
        (a : Inserted (m.ht1) (slots_of (m.ht1)) new-IsTable n t) where
      abbrev step : HMap P
      step = record m { ht1 = t; ht2 = r.1 }

      step_same : Perm (map_contents step) (map_contents m)
      step_same =
          let e₁ = slots_of-tab t a.new_slots a.table.tab in
          let e₂ = slots_of-tab (r.1) _ d.table.tab in
          rw (e₁, e₂)
            (Perm.trans (Perm.append_right _ a.adds) (
              Perm.trans (Perm.symm (perm_middle (contents m.ht1) _))
                (Perm.append_left (contents m.ht1) d.removes)))

      step_width : length (slots_of (r.1)) ≡ length (slots_of (m.ht2))
      step_width =
          ap length (slots_of-tab (r.1) _ d.table.tab)
          ∙ length-set (slots_of (m.ht2)) m.resizing_pos _

      step-IsMap : IsMap step
      step-IsMap = record {
        new = inr (IsTable-Part t a.new_slots a.table);
        old = inr (IsTable-Part (r.1) _ d.table);
        order = λ e. absurd (table_exists t a.new_slots a.table.tab e);
        pow = (v.pow.0, rw a.same_mask (v.pow.1));
        swept = λ i p.
            rw
              (
                slots_of-tab (r.1) _ d.table.tab,
                get_or-set (slots_of (m.ht2)) m.resizing_pos i
                    (unlink (get_or (slots_of (m.ht2)) m.resizing_pos []) 0) [] pos_inside,
              )
              (let apart : (m.resizing_pos == i) ≡ false = ground arith in rw apart (v.swept i p));
        fits = (rw a.same_mask v.fits.0, rw d.same_mask v.fits.1);
        small = omega (arith, length-perm step_same, v.small);
      }

  -- The loop ends with its fuel: `work` more nodes may move, and each slot is passed once.
  move_loop-Migrated :
      (k nwork : ℕ) (m : HMap P)
      → nwork ≤ k_resizing_work
      → (length (slots_of (m.ht2)) - m.resizing_pos) + (k_resizing_work - nwork) < k
      → IsMap m
      → Returns (Migrated m (m.ht2.size - (k_resizing_work - nwork))) (move_loop k nwork m)
  unfolding move_loop
  move_loop-Migrated zero nwork m w f v = absurd (omega arith)
  move_loop-Migrated (suc k) nwork m w f v =
      elim (Bool-cases (ltb nwork k_resizing_work && ltb 0 m.ht2.size)) [
        | inr done ↦
            rw done (returns (record { valid = v; same = Perm.rfl; remaining = ground arith }))
        | inl more ↦
            let busy : 0 < m.ht2.size = ground arith in
            let t = old-IsTable m v busy in
            let room : nwork < k_resizing_work = ground arith in
            let pos = m.resizing_pos in
            let chain = get_or (slots_of (m.ht2)) pos [] in
            elim (List-cases chain) [
              | inl empty ↦
                  rw (more, t.tab, chain-ok m v busy, empty, next_pos m v busy)
                    (Returns-map
                      (move_loop-Migrated k nwork (record m { resizing_pos = pos + 1 }) w
                        (omega (arith, pos_inside m v busy)) (skip-IsMap m v busy empty))
                      λ r g. record { valid = g.valid; same = g.same; remaining = g.remaining })
              | inr (n, rest, full) ↦
                  let (r, run, d) = Returns-inv (
                    h_detach-Detached (m.ht2) (slots_of (m.ht2)) t pos 0 n (pos_inside m v busy)
                      (ap (λ c. get_elem? c 0) full)
                      (omega (
                        arith,
                        Part-counted (m.ht2) v.old,
                        length-append (contents m.ht1) (contents m.ht2),
                        v.small,
                      ))) in
                  let (t₁, run₁, a) = Returns-inv (
                    h_insert-Inserted (m.ht1) (slots_of (m.ht1)) (new-IsTable m v busy) n (
                      omega (
                        arith,
                        Part-counted (m.ht1) v.new,
                        length-append (contents m.ht1) (contents m.ht2),
                        v.small,
                      ))) in
                  let next = step m v busy n r d t₁ a in
                  rw (more, t.tab, chain-ok m v busy, full, run, d.node, run₁)
                    (Returns-map
                      (move_loop-Migrated k (nwork + 1) next (omega arith)
                        (omega (arith, step_width m v busy n r d t₁ a))
                        (step-IsMap m v busy n r d t₁ a))
                      λ q g. record {
                        valid = g.valid;
                        same = Perm.trans g.same (step_same m v busy n r d t₁ a);
                        remaining =
                            omega (
                              arith,
                              g.remaining,
                              length-perm d.removes,
                              d.table.counted,
                              t.counted,
                            );
                      })
            ]
      ]

  -- What hm_help_resizing delivers: the same nodes, and 128 fewer of them in the older table, which is
  -- given up when it is empty.
  pub record Helped (m r : HMap P) : Type 0 where
    pub valid : IsMap r
    pub same : Perm (map_contents r) (map_contents m)
    pub remaining : r.ht2.size ≡ m.ht2.size - k_resizing_work
    pub given_up : r.ht2.size ≡ 0 → r.ht2 ≡ no_tab

  emptied-IsMap : (r : HMap P) → IsMap r → IsMap (record r { ht2 = no_tab })
  unfolding get_or flatten
  emptied-IsMap r v = record {
    new = v.new;
    old = inl refl;
    order = λ _. refl;
    pow = v.pow;
    swept = λ i p. refl;
    fits = (v.fits.0, omega arith);
    small = omega (
      arith,
      v.small,
      length-append (contents r.ht1) (contents r.ht2),
      length-append (contents r.ht1) [],
    );
  }

  dropped-Helped :
      (m r : HMap P) → Migrated m (m.ht2.size - k_resizing_work) r → Helped m (drop_empty r)
  unfolding drop_empty is_null flatten
  dropped-Helped m r g = elim (Bool-cases ((r.ht2.size == 0) && not (is_null (r.ht2.tab)))) [
    | inl e ↦
        let none_left : contents r.ht2 ≡ [] =
          no_nodes (contents r.ht2)
            (omega (arith, Part-counted (r.ht2) g.valid.old, size_zero (r.ht2) e)) in
        rw e (record {
          valid = emptied-IsMap r g.valid;
          same = rw none_left at (g.same);
          remaining = omega (arith, g.remaining, size_zero (r.ht2) e);
          given_up = λ _. refl;
        })
    | inr e ↦ rw e (record {
      valid = g.valid;
      same = g.same;
      remaining = g.remaining;
      given_up = λ z. unallocated (r.ht2) g.valid.old z e;
    })
  ]
    where
      size_zero : (t : HTab P) → ((t.size == 0) && not (is_null (t.tab))) ≡ true → t.size ≡ 0
      size_zero t e = ground arith

      unallocated :
          (t : HTab P)
          → Part t
          → t.size ≡ 0
          → ((t.size == 0) && not (is_null (t.tab))) ≡ false
          → t ≡ no_tab
      unallocated t (inl f) z e = f
      unallocated t (inr v) z e = let f = v.tab in absurd (ground arith)

  pub hm_help_resizing-Helped : (m : HMap P) → IsMap m → Returns (Helped m) (hm_help_resizing m)
  unfolding hm_help_resizing
  hm_help_resizing-Helped m v =
      Returns-bind
        (move_loop-Migrated (m.ht2.mask + 1 + k_resizing_work + 1) 0 m (omega arith) (old_width m v)
          v)
        λ r g. returns (dropped-Helped m r g)
    where
      old_width :
          (m : HMap P)
          → IsMap m
          → (length (slots_of (m.ht2)) - m.resizing_pos) + (k_resizing_work - 0)
            < m.ht2.mask + 1 + k_resizing_work + 1
      old_width m v = go (v.old)
        where
          go :
              Part (m.ht2)
              → (length (slots_of (m.ht2)) - m.resizing_pos) + (k_resizing_work - 0)
                < m.ht2.mask + 1 + k_resizing_work + 1
          go (inl e) = rw e (omega arith)
          go (inr t) = omega (arith, t.width)
