-- ===== src/HashTable/Map.antt =====
-- The two tables of an HMap: the invariant and the abstract contents.
use mathlib.Core.List.{flatten}
use cand_cppwith_linux.Base.{ℕ, ◌+◌, ◌^◌, ◌<◌, ◌≡◌, ◌⊎◌, inl, inr, some, List, [], ◌++◌, length}
use cand_cppwith_linux.Base.Array.{get_or}
use cand_cppwith_linux.HashTable.{HNode, HTab, HMap, no_tab}
use cand_cppwith_linux.HashTable.Table.{IsTable, slots_of, contents}

-- Nodes are 16 bytes or more, so fewer than 2^60 fit the address space.
abbrev pub max_nodes : ℕ
max_nodes = 2 ^ 60

module _ {P : Type 0} where
  abbrev pub map_contents : HMap P → List (HNode P)
  map_contents m = contents m.ht1 ++ contents m.ht2

  -- a table that is not allocated, or one that is in order
  abbrev pub Part : HTab P → Type 0
  Part t = (t ≡ no_tab) ⊎ IsTable t (slots_of t)

  -- The state between two calls: both tables are in order, the older one exists only beside a newer
  -- one, the newer one has a power of two of slots, and the slots of the older one that
  -- hm_help_resizing has passed are empty.
  pub record IsMap (m : HMap P) : Type 0 where
    pub new : Part (m.ht1)
    pub old : Part (m.ht2)
    pub order : m.ht1 ≡ no_tab → m.ht2 ≡ no_tab
    pub pow : (k : ℕ) × (m.ht1.mask + 1 ≡ 2 ^ k)
    pub swept : (i : ℕ) → i < m.resizing_pos → get_or (slots_of (m.ht2)) i [] ≡ []
    pub fits : (m.ht1.mask < max_nodes) × (m.ht2.mask < max_nodes)
    pub small : length (map_contents m) < max_nodes

  pub slots_of-tab : (t : HTab P) (s : List (List (HNode P))) → t.tab ≡ some s → slots_of t ≡ s
  slots_of-tab t s e = rw e

  pub IsTable-Part : (t : HTab P) (s : List (List (HNode P))) → IsTable t s → IsTable t (slots_of t)
  IsTable-Part t s v = rw (slots_of-tab t s v.tab) v

  pub Part-counted : (t : HTab P) → Part t → t.size ≡ length (contents t)
  unfolding flatten
  Part-counted t (inl e) = rw e
  Part-counted t (inr v) = v.counted
