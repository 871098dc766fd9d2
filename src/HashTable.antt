-- ===== src/HashTable.antt =====
-- ownRedisUsingCpp/hashtable.h and hashtable.cpp: the intrusive chained
-- hashtable with progressive resizing. A chain is the list of its nodes; the pointer `from` that
-- h_lookup returns is the slot and the index of the node in its chain. A read of a NULL table, or
-- past its end, is a fault.
pub mod Slots
pub mod Table
pub mod Map
pub mod Resize
pub mod Insert
pub mod Find
pub mod Tests
use cand_cppwith_linux.Base.{
  ℕ, zero, suc, ◌+◌, ◌-◌, ◌*◌, ◌/◌, ◌%◌, ◌^◌, bit_and, Bool, true, false, ◌&&◌, not, Option, none,
  some, List, [], ◌∷◌, Run, ok, fault, out_of_fuel, check, deref, ◌>>=◌, ◌>>◌, ltb, leb, ◌==◌,
  if◌then◌else◌, length, get_elem?, set, replicate,
}

-- the number of values of a `size_t` or a `uint64_t`
abbrev pub size_mod : ℕ
size_mod = 2 ^ 64

-- a node with its cached hash value, embedded in the payload
pub record HNode (P : Type 0) : Type 0 where
  pub hcode : ℕ
  pub payload : P

pub record HTab (P : Type 0) : Type 0 where
  pub tab : Option (List (List (HNode P)))
  pub mask : ℕ
  pub size : ℕ

pub record HMap (P : Type 0) : Type 0 where
  pub ht1 : HTab P
  pub ht2 : HTab P
  pub resizing_pos : ℕ

abbrev pub Callback : Type 0 → Type 0
Callback P = HNode P → HNode P → Bool

-- `*from = node->next`
unfoldable pub unlink {ℓ} : {A : Type ℓ} → List A → ℕ → List A
unlink [] i = []
unlink (x ∷ xs) zero = xs
unlink (x ∷ xs) (suc i) = x ∷ unlink xs i

abbrev pub k_resizing_work : ℕ
k_resizing_work = 128

abbrev pub k_max_load_factor : ℕ
k_max_load_factor = 8

unfoldable pub is_null {ℓ} : {A : Type ℓ} → Option A → Bool
is_null none = true
is_null (some _) = false

module _ {P : Type 0} where
  -- `HTab{}`
  abbrev pub no_tab : HTab P
  no_tab = record { tab = none; mask = 0; size = 0 }

  -- `HMap{}`
  abbrev pub no_map : HMap P
  no_map = record { ht1 = no_tab; ht2 = no_tab; resizing_pos = 0 }

  unfoldable pub h_init : ℕ → Run (HTab P)
  h_init n = do
    check (ltb 0 n && (bit_and (n - 1) n == 0))
    ok (record { tab = some (replicate n []); mask = n - 1; size = 0 })

  unfoldable pub h_insert : HTab P → HNode P → Run (HTab P)
  h_insert t node = do
    slots ← deref t.tab
    let pos : ℕ = bit_and node.hcode t.mask
    chain ← deref (get_elem? slots pos)
    ok (record t { tab = some (set slots pos (node ∷ chain)); size = (t.size + 1) % size_mod })

  -- the loop of h_lookup: the index of the first match in a chain
  unfoldable pub find_in : Callback P → HNode P → List (HNode P) → Option ℕ
  find_in eq key [] = none
  find_in eq key (curr ∷ chain) =
      if (curr.hcode == key.hcode) && eq curr key
      then some 0
      else elim (find_in eq key chain) [ none ↦ none | some i ↦ some (suc i) ]

  unfoldable pub h_lookup : HTab P → HNode P → Callback P → Run (Option (ℕ × ℕ))
  h_lookup t key eq = elim t.tab [
    | none ↦ ok none
    | some slots ↦ do
      let pos : ℕ = bit_and key.hcode t.mask
      chain ← deref (get_elem? slots pos)
      ok (elim (find_in eq key chain) [ none ↦ none | some i ↦ some (pos, i) ])
  ]

  -- `*from`
  unfoldable pub h_node : HTab P → ℕ × ℕ → Run (HNode P)
  h_node t (pos, i) = do
    slots ← deref t.tab
    chain ← deref (get_elem? slots pos)
    deref (get_elem? chain i)

  unfoldable pub h_detach : HTab P → ℕ × ℕ → Run (HNode P × HTab P)
  h_detach t (pos, i) = do
    slots ← deref t.tab
    chain ← deref (get_elem? slots pos)
    node ← deref (get_elem? chain i)
    ok (
      node,
      record t {
        tab = some (set slots pos (unlink chain i));
        size = (t.size + size_mod - 1) % size_mod;
      },
    )

  -- the loop of hm_help_resizing
  unfoldable pub move_loop : ℕ → ℕ → HMap P → Run (HMap P)
  move_loop zero nwork m = out_of_fuel
  move_loop (suc k) nwork m =
      let step : Run (HMap P) = do
        slots ← deref (m.ht2.tab)
        chain ← deref (get_elem? slots m.resizing_pos)
        elim chain [
          | [] ↦ move_loop k nwork (record m { resizing_pos = (m.resizing_pos + 1) % size_mod })
          | _ ∷ _ ↦ do
            (node, t2) ← h_detach (m.ht2) (m.resizing_pos, 0)
            t1 ← h_insert (m.ht1) node
            move_loop k (nwork + 1) (record m { ht1 = t1; ht2 = t2 })
        ]
      in if ltb nwork k_resizing_work && ltb 0 m.ht2.size then step else ok m

  -- what follows the loop: an empty older table is freed
  unfoldable pub drop_empty : HMap P → HMap P
  drop_empty m =
      if (m.ht2.size == 0) && not (is_null (m.ht2.tab)) then record m { ht2 = no_tab } else m

  -- The loop runs once for every slot and every node at most: mask + 1 and k_resizing_work rounds.
  unfoldable pub hm_help_resizing : HMap P → Run (HMap P)
  hm_help_resizing m = do
    m' ← move_loop (m.ht2.mask + 1 + k_resizing_work + 1) 0 m
    ok (drop_empty m')

  unfoldable pub hm_start_resizing : HMap P → Run (HMap P)
  hm_start_resizing m = do
    check (is_null (m.ht2.tab))
    t ← h_init ((m.ht1.mask + 1) * 2 % size_mod)
    ok (record { ht1 = t; ht2 = m.ht1; resizing_pos = 0 })

  unfoldable pub hm_lookup : HMap P → HNode P → Callback P → Run (Option (HNode P) × HMap P)
  hm_lookup m key eq = do
    m' ← hm_help_resizing m
    first ← h_lookup (m'.ht1) key eq
    elim first [
      | some from ↦ do n ← h_node (m'.ht1) from; ok (some n, m')
      | none ↦ do
        second ← h_lookup (m'.ht2) key eq
        elim second [
          | some from ↦ do n ← h_node (m'.ht2) from; ok (some n, m')
          | none ↦ ok (none, m')
        ]
    ]

  -- step 1 of hm_insert
  unfoldable pub first_table : HMap P → Run (HMap P)
  first_table m = if is_null (m.ht1.tab) then (do t ← h_init 4; ok (record m { ht1 = t })) else ok m

  -- step 3 of hm_insert
  unfoldable pub check_load : HMap P → Run (HMap P)
  check_load m =
      if is_null (m.ht2.tab)
      then (if leb k_max_load_factor (m.ht1.size / ((m.ht1.mask + 1) % size_mod))
          then hm_start_resizing m
          else ok m)
      else ok m

  unfoldable pub hm_insert : HMap P → HNode P → Run (HMap P)
  hm_insert m node = do
    m₁ ← first_table m
    t ← h_insert (m₁.ht1) node
    m₂ ← check_load (record m₁ { ht1 = t })
    hm_help_resizing m₂

  unfoldable pub hm_pop : HMap P → HNode P → Callback P → Run (Option (HNode P) × HMap P)
  hm_pop m key eq = do
    m' ← hm_help_resizing m
    first ← h_lookup (m'.ht1) key eq
    elim first [
      | some from ↦ do (n, t) ← h_detach (m'.ht1) from; ok (some n, record m' { ht1 = t })
      | none ↦ do
        second ← h_lookup (m'.ht2) key eq
        elim second [
          | some from ↦ do (n, t) ← h_detach (m'.ht2) from; ok (some n, record m' { ht2 = t })
          | none ↦ ok (none, m')
        ]
    ]

  unfoldable pub hm_size : HMap P → ℕ
  hm_size m = (m.ht1.size + m.ht2.size) % size_mod

  unfoldable pub hm_destroy : HMap P → HMap P
  hm_destroy m = no_map
