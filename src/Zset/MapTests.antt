-- ===== src/Zset/MapTests.antt =====
-- A map with the node of the member "a", in the slot 2 of 4.
use mathlib.Core.List.{flatten}
use cand_cppwith_linux.Base.{
  ℕ, zero, suc, ◌≡◌, refl, inl, inr, some, none, [], ◌∷◌, Returns, arith, ◌==◌, if◌then◌else◌,
}
use cand_cppwith_linux.Base.Array.{get_or}
use cand_cppwith_linux.Base.Count.{count_p}
use cand_cppwith_linux.Memory.{Ptr}
use cand_cppwith_linux.HashTable.{HNode, HTab, HMap, no_tab}
use cand_cppwith_linux.HashTable.Slots.{All}
use cand_cppwith_linux.HashTable.Table.{IsTable, IsHome, slots_of}
use cand_cppwith_linux.HashTable.Map.{IsMap, map_contents}
use cand_cppwith_linux.Wire.{str_hash, hash_loop}
use cand_cppwith_linux.Zset.{ZNodes, zset_lookup}
use cand_cppwith_linux.Zset.Lookup.{is_stray, LookedUp, zset_lookup-LookedUp}

abbrev lone_member : ZNodes
lone_member a = if a == 1 then some (record { score = 0; name = 97 ∷ [] }) else none

abbrev node_a : HNode Ptr
node_a = record { hcode = 1712125394; payload = 1 }

abbrev slots : HTab Ptr
slots = record { tab = some ([] ∷ [] ∷ (node_a ∷ []) ∷ [] ∷ []); mask = 3; size = 1 }

abbrev map_a : HMap Ptr
map_a = record { ht1 = slots; ht2 = no_tab; resizing_pos = 0 }

slots-placed : (i : ℕ) → All (IsHome 3 i) (get_or (slots_of slots) i [])
unfolding get_or
slots-placed zero = tt
slots-placed (suc zero) = tt
slots-placed (suc (suc zero)) = (refl, tt)
slots-placed (suc (suc (suc zero))) = tt
slots-placed (suc (suc (suc (suc i)))) = tt

slots-IsTable : IsTable slots (slots_of slots)
unfolding flatten
slots-IsTable = record { tab = refl; width = refl; counted = refl; placed = slots-placed }

map_a-IsMap : IsMap map_a
unfolding get_or flatten
map_a-IsMap = record {
  new = inr slots-IsTable;
  old = inl refl;
  order = λ _. refl;
  pow = (2, refl);
  swept = λ i h. refl;
  fits = (omega arith, omega arith);
  small = omega arith;
}

map_a-tidy : count_p (is_stray lone_member) (map_contents map_a) ≡ 0
unfolding count_p flatten is_stray str_hash hash_loop
map_a-tidy = refl

zset_lookup-LookedUp_example :
    Returns (LookedUp lone_member map_a (97 ∷ [])) (zset_lookup lone_member 1 map_a (97 ∷ []))
zset_lookup-LookedUp_example =
    zset_lookup-LookedUp lone_member 1 map_a (97 ∷ []) (ground arith) map_a-IsMap map_a-tidy
