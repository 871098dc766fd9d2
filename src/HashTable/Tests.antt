-- ===== src/HashTable/Tests.antt =====
-- A map with one node, of the hash value 5, in the slot 1 of 4.
use mathlib.Core.List.{flatten}
use cand_cppwith_linux.Base.{ℕ, zero, suc, refl, inl, inr, some, [], ◌∷◌, Returns, arith, ◌==◌}
use cand_cppwith_linux.Base.Array.{get_or}
use cand_cppwith_linux.HashTable.{HNode, HTab, HMap, Callback, no_tab, hm_insert, hm_lookup, hm_pop}
use cand_cppwith_linux.HashTable.Slots.{All}
use cand_cppwith_linux.HashTable.Table.{IsTable, IsHome, slots_of}
use cand_cppwith_linux.HashTable.Map.{IsMap}
use cand_cppwith_linux.HashTable.Insert.{Added, hm_insert-Added}
use cand_cppwith_linux.HashTable.Find.{Found, Popped, hm_lookup-Found, hm_pop-Popped}

abbrev five : HNode ℕ
five = record { hcode = 5; payload = 50 }

abbrev nine : HNode ℕ
nine = record { hcode = 9; payload = 90 }

abbrev same_payload : Callback ℕ
same_payload a b = a.payload == b.payload

module _ {P : Type 0} (payload : P) where
  abbrev four_slots : HTab P
  four_slots = record {
    tab = some ([] ∷ (record { hcode = 5; payload = payload } ∷ []) ∷ [] ∷ [] ∷ []);
    mask = 3;
    size = 1;
  }

  abbrev pub one_node_of : HMap P
  one_node_of = record { ht1 = four_slots; ht2 = no_tab; resizing_pos = 0 }

  four_slots-placed : (i : ℕ) → All (IsHome 3 i) (get_or (slots_of four_slots) i [])
  unfolding get_or
  four_slots-placed zero = tt
  four_slots-placed (suc zero) = (refl, tt)
  four_slots-placed (suc (suc zero)) = tt
  four_slots-placed (suc (suc (suc zero))) = tt
  four_slots-placed (suc (suc (suc (suc i)))) = tt

  four_slots-IsTable : IsTable four_slots (slots_of four_slots)
  unfolding flatten
  four_slots-IsTable = record {
    tab = refl;
    width = refl;
    counted = refl;
    placed = four_slots-placed;
  }

  pub one_node_of-IsMap : IsMap one_node_of
  unfolding get_or flatten
  one_node_of-IsMap = record {
    new = inr four_slots-IsTable;
    old = inl refl;
    order = λ _. refl;
    pow = (2, refl);
    swept = λ i h. refl;
    fits = (omega arith, omega arith);
    small = omega arith;
  }

abbrev one_node : HMap ℕ
one_node = one_node_of 50

one_node-IsMap : IsMap one_node
one_node-IsMap = one_node_of-IsMap 50

hm_insert-Added_example : Returns (Added one_node nine) (hm_insert one_node nine)
unfolding flatten
hm_insert-Added_example = hm_insert-Added one_node nine one_node-IsMap (omega arith)

hm_lookup-Found_example :
    Returns (Found five same_payload one_node) (hm_lookup one_node five same_payload)
hm_lookup-Found_example = hm_lookup-Found five same_payload one_node one_node-IsMap

hm_pop-Popped_example :
    Returns (Popped five same_payload one_node) (hm_pop one_node five same_payload)
hm_pop-Popped_example = hm_pop-Popped five same_payload one_node one_node-IsMap
