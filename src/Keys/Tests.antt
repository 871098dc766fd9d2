-- ===== src/Keys/Tests.antt =====
-- A map with one entry.
use mathlib.Core.List.{flatten}
use cand_cppwith_linux.Base.{◌≡◌, ◌<◌, [], ◌∷◌, ok, ◌++◌, arith, length}
use cand_cppwith_linux.HashTable.Map.{map_contents}
use cand_cppwith_linux.HashTable.Tests.{one_node_of, one_node_of-IsMap}
use cand_cppwith_linux.Wire.{u32_mod, out_arr}
use cand_cppwith_linux.Keys.{Entry, do_keys}
use cand_cppwith_linux.Keys.Scan.{out_keys, do_keys-lists}

abbrev entry : Entry
entry = record { key = 107 ∷ []; val = 118 ∷ []; type = 0; zset = 0; heap_idx = 0 }

one_entry-few : length (map_contents (one_node_of entry)) < u32_mod
unfolding flatten
one_entry-few = omega arith

do_keys-lists_example :
    do_keys (one_node_of entry) []
    ≡ ok (
        out_arr [] (length (map_contents (one_node_of entry)))
        ++ out_keys (map_contents (one_node_of entry)))
do_keys-lists_example = do_keys-lists (one_node_of entry) [] (one_node_of-IsMap entry) one_entry-few
