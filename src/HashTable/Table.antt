-- ===== src/HashTable/Table.antt =====
-- One table: h_init, h_insert, h_lookup and h_detach.
use mathlib.Core.List.{flatten}
use mathlib.Core.Path.{subst}
use cand_cppwith_linux.Base.{
  ℕ, ◌+◌, bit_and, ◌<◌, ◌≡◌, ◌≢◌, refl, sym, ap, ◌∙◌, true, Option, none, some, List, [], ◌∷◌, Perm,
  ok, Returns, returns, arith, ◌==◌, length, length-set, get_elem?, set, Bool-cases, Option-cases,
  inl, inr,
}
use cand_cppwith_linux.Base.Array.{get_or, get_or-set, get_elem?-get_or, length-perm}
use cand_cppwith_linux.Base.Bits.{bit_and-le}
use cand_cppwith_linux.Base.Count.{count_p}
use cand_cppwith_linux.HashTable.{
  HNode, HTab, Callback, size_mod, h_insert, h_lookup, h_node, h_detach, find_in, unlink,
}
use cand_cppwith_linux.HashTable.Slots.{
  All, All-unlink, flatten-set_cons, flatten-set_unlink, count_p-flatten, is_match, find_in-none,
  find_in-some,
}

module _ {P : Type 0} where
  abbrev pub slots_of : HTab P → List (List (HNode P))
  slots_of t = elim t.tab [ none ↦ [] | some slots ↦ slots ]

  abbrev pub contents : HTab P → List (HNode P)
  contents t = flatten (slots_of t)

  -- the node stands in the slot of its hash value
  abbrev pub IsHome : ℕ → ℕ → HNode P → Type 0
  IsHome mask i n = bit_and n.hcode mask ≡ i

  -- an allocated table: mask + 1 slots, every node in the slot of its hash value, and all counted
  pub record IsTable (t : HTab P) (slots : List (List (HNode P))) : Type 0 where
    pub tab : t.tab ≡ some slots
    pub width : length slots ≡ t.mask + 1
    pub counted : t.size ≡ length (flatten slots)
    pub placed : (i : ℕ) → All (IsHome t.mask i) (get_or slots i [])

  module _ (t : HTab P) (slots : List (List (HNode P))) (v : IsTable t slots) where
    pub slot-lt : (h : ℕ) → bit_and h t.mask < length slots
    slot-lt h = omega (arith, v.width, bit_and-le h t.mask)

    chain-ok : (i : ℕ) → i < length slots → get_elem? slots i ≡ some (get_or slots i [])
    chain-ok i p = get_elem?-get_or slots i [] p

    -- h_insert adds the node to the contents, and nothing else.
    pub record Inserted (n : HNode P) (r : HTab P) : Type 0 where
      pub new_slots : List (List (HNode P))
      pub table : IsTable r new_slots
      pub adds : Perm (flatten new_slots) (n ∷ flatten slots)
      pub same_mask : r.mask ≡ t.mask

    pub h_insert-Inserted :
        (n : HNode P) → t.size + 1 < size_mod → Returns (Inserted n) (h_insert t n)
    unfolding h_insert
    h_insert-Inserted n room =
        let pos = bit_and n.hcode t.mask in
        let here = slot-lt (n.hcode) in
        let chain = get_or slots pos [] in
        let adds = flatten-set_cons slots pos n here in
        rw (v.tab, chain-ok pos here)
          (returns (record {
            new_slots = set slots pos (n ∷ chain);
            table = record {
              tab = refl;
              width = length-set slots pos (n ∷ chain) ∙ v.width;
              counted = omega (arith, length-perm adds, v.counted);
              placed = λ i. elim (Bool-cases (pos == i)) [
                | inl e ↦
                    let same : pos ≡ i = ground arith in
                    rw (get_or-set slots pos i (n ∷ chain) [] here, e)
                      (subst (λ j. All (IsHome t.mask j) (n ∷ chain)) same (refl, v.placed pos))
                | inr e ↦ rw (get_or-set slots pos i (n ∷ chain) [] here, e) (v.placed i)
              ];
            };
            adds = adds;
            same_mask = refl;
          }))

    -- h_detach returns the node at the position, and removes just that node from the contents.
    pub record Detached (pos k : ℕ) (n : HNode P) (r : HNode P × HTab P) : Type 0 where
      pub node : r.0 ≡ n
      pub table : IsTable (r.1) (set slots pos (unlink (get_or slots pos []) k))
      pub removes :
          Perm (n ∷ flatten (set slots pos (unlink (get_or slots pos []) k))) (flatten slots)
      pub same_mask : r.1.mask ≡ t.mask

    module _ (pos k : ℕ) (n : HNode P) (here : pos < length slots)
        (at : get_elem? (get_or slots pos []) k ≡ some n) where
      pub h_node-ok : h_node t (pos, k) ≡ ok n
      unfolding h_node
      h_node-ok = rw (v.tab, chain-ok pos here, at)

      pub h_detach-Detached : t.size < size_mod → Returns (Detached pos k n) (h_detach t (pos, k))
      unfolding h_detach
      h_detach-Detached small =
          let chain = get_or slots pos [] in
          let c = unlink chain k in
          let removes = flatten-set_unlink slots pos k n here at in
          rw (v.tab, chain-ok pos here, at)
            (returns (record {
              node = refl;
              table = record {
                tab = refl;
                width = length-set slots pos c ∙ v.width;
                counted = omega (arith, length-perm removes, v.counted);
                placed = λ i. elim (Bool-cases (pos == i)) [
                  | inl e ↦
                      let same : pos ≡ i = ground arith in
                      rw (get_or-set slots pos i c [] here, e, ← same)
                        (All-unlink (IsHome t.mask pos) chain k (v.placed pos))
                  | inr e ↦ rw (get_or-set slots pos i c [] here, e) (v.placed i)
                ];
              };
              removes = removes;
              same_mask = refl;
            }))

    module _ (key : HNode P) (eq : Callback P) where
      elsewhere :
          (i : ℕ) (chain : List (HNode P))
          → i ≢ bit_and key.hcode t.mask
          → All (IsHome t.mask i) chain
          → count_p (is_match eq key) chain ≡ 0
      unfolding count_p
      elsewhere i [] ne a = refl
      elsewhere i (n ∷ chain) ne a = elim (Bool-cases (n.hcode == key.hcode)) [
        | inl e ↦
            let same : n.hcode ≡ key.hcode = ground arith in
            absurd (ne (sym a.0 ∙ ap (λ h. bit_and h t.mask) same))
        | inr e ↦ rw e (omega (arith, elsewhere i chain ne a.1))
      ]

      matches_at_home :
          count_p (is_match eq key) (flatten slots)
          ≡ count_p (is_match eq key) (get_or slots (bit_and key.hcode t.mask) [])
      matches_at_home =
          count_p-flatten (is_match eq key) slots (bit_and key.hcode t.mask)
            (λ i ne. elsewhere i (get_or slots i []) ne (v.placed i))

      -- The answer of h_lookup: a node of the table that matches the key, or none if none does.
      pub data Looked : Option (ℕ × ℕ) → Type 0 where
        absent : count_p (is_match eq key) (flatten slots) ≡ 0 → Looked none
        present :
            (pos k : ℕ) (n : HNode P)
            → pos < length slots
            → get_elem? (get_or slots pos []) k ≡ some n
            → is_match eq key n ≡ true
            → Looked (some (pos, k))

      pub h_lookup-Looked : Returns Looked (h_lookup t key eq)
      unfolding h_lookup
      h_lookup-Looked =
          let pos = bit_and key.hcode t.mask in
          let here = slot-lt (key.hcode) in
          let chain = get_or slots pos [] in
          rw (v.tab, chain-ok pos here)
            (elim (Option-cases (find_in eq key chain)) [
              | inl e ↦ rw e (returns (absent (matches_at_home ∙ find_in-none eq key chain e)))
              | inr (k, e) ↦
                  let (n, at, m) = find_in-some eq key chain k e in
                  rw e (returns (present pos k n here at m))
            ])
