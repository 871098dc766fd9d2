-- ===== src/Keyspace/Tests.antt =====
-- A key space with the string "v" under the key "k", at the address 100, with a timer.
use mathlib.Core.List.{flatten}
use cand_cppwith_linux.Base.{
  ◌-◌, ℕ, zero, suc, ◌≤◌, ◌≡◌, refl, ◌⊎◌, inl, inr, Bool-cases, true, none, some, List, [], ◌∷◌,
  Returns, arith, ◌==◌, if◌then◌else◌,
}
use cand_cppwith_linux.Base.Int.{ℤ, pos}
use cand_cppwith_linux.Base.Count.{count_p}
use cand_cppwith_linux.Base.Array.{get_or}
use cand_cppwith_linux.Memory.{Ptr}
use cand_cppwith_linux.HashTable.{HNode, HTab, HMap, no_tab}
use cand_cppwith_linux.HashTable.Slots.{All}
use cand_cppwith_linux.HashTable.Table.{IsTable, IsHome, slots_of}
use cand_cppwith_linux.HashTable.Map.{IsMap, map_contents}
use cand_cppwith_linux.Heap.{HeapMem, no_index}
use cand_cppwith_linux.Heap.Order.{IsDistinct, IsForeign, IsHeap, IsLinked}
use cand_cppwith_linux.Ttl.{deadline}
use cand_cppwith_linux.Ttl.Deadline.{IsValid}
use cand_cppwith_linux.Wire.{Bytes, str_hash, hash_loop}
use cand_cppwith_linux.Keyspace.{
  Entry, GData, t_str, do_get, do_set, do_expire, do_ttl, do_del, c_str, bytes_eq,
}
use cand_cppwith_linux.Keyspace.Find.{ptr_of}
use cand_cppwith_linux.Keyspace.View.{IsKeyspace, view, address, key_is, is_dead, is_at, in_order}
use cand_cppwith_linux.Keyspace.Read.{Kept, get_reply, ttl_reply, do_get-Replies, do_ttl-Replies}
use cand_cppwith_linux.Keyspace.Set.{SetsKey}
use cand_cppwith_linux.Keyspace.Write.{IsMalloc, set_entry, set_reply, do_set-Sets}
use cand_cppwith_linux.Keyspace.Expire.{Expired, do_expire-Expired}
use cand_cppwith_linux.Keyspace.Del.{Deleted, do_del-Deletes}

abbrev key_k : Bytes
key_k = 107 ∷ []

abbrev val_v : Bytes
val_v = 118 ∷ []

abbrev entry_k : Entry
entry_k = record { key = key_k; val = val_v; type = t_str; zset = none }

abbrev node_k : HNode Ptr
node_k = record { hcode = 1879901584; payload = 100 }

abbrev slots : HTab Ptr
slots = record { tab = some ((node_k ∷ []) ∷ [] ∷ [] ∷ [] ∷ []); mask = 3; size = 1 }

abbrev db_k : HMap Ptr
db_k = record { ht1 = slots; ht2 = no_tab; resizing_pos = 0 }

slots-placed : (i : ℕ) → All (IsHome 3 i) (get_or (slots_of slots) i [])
unfolding get_or
slots-placed zero = (refl, tt)
slots-placed (suc zero) = tt
slots-placed (suc (suc zero)) = tt
slots-placed (suc (suc (suc zero))) = tt
slots-placed (suc (suc (suc (suc i)))) = tt

slots-IsTable : IsTable slots (slots_of slots)
unfolding flatten
slots-IsTable = record { tab = refl; width = refl; counted = refl; placed = slots-placed }

db_k-IsMap : IsMap db_k
unfolding get_or flatten
db_k-IsMap = record {
  new = inr slots-IsTable;
  old = inl refl;
  order = λ _. refl;
  pow = (2, refl);
  swept = λ i h. refl;
  fits = (omega arith, omega arith);
  small = omega arith;
}

abbrev timer_k : HeapMem
timer_k = record {
  items = record { val = 7000000; ref = 100 } ∷ [];
  cell = λ a. if a == 100 then 0 else no_index;
}

timer_k-apart : IsDistinct (timer_k.items)
unfolding get_or
timer_k-apart zero zero h k e = refl
timer_k-apart (suc i) j h k e = absurd (omega arith)
timer_k-apart zero (suc j) h k e = absurd (omega arith)

timer_k-IsHeap : IsHeap (timer_k.items)
timer_k-IsHeap c h k = absurd (omega (arith, h, k))

timer_k-IsLinked : IsLinked timer_k
unfolding get_or
timer_k-IsLinked zero h = refl
timer_k-IsLinked (suc c) h = absurd (omega arith)

timer_k-idle : (r : ℕ) → IsForeign (timer_k.items) r → timer_k.cell r ≡ no_index
unfolding get_or
timer_k-idle r f = let ne0 = f 0 (omega arith) in ground arith

timer_k-IsValid : IsValid timer_k
timer_k-IsValid = record {
  heap = timer_k-IsHeap;
  apart = timer_k-apart;
  linked = timer_k-IsLinked;
  idle = timer_k-idle;
  small = omega arith;
}

abbrev space : GData
space = record {
  db = db_k;
  entries = λ a. if a == 100 then some entry_k else none;
  timers = timer_k;
  jobs = [];
}

space-owned : (p : Ptr) → (deadline timer_k p ≡ none) ⊎ (count_p (is_at p) (map_contents db_k) ≡ 1)
unfolding deadline count_p flatten get_or
space-owned p = elim (Bool-cases (p == 100)) [
  | inl e ↦ inr (let t : (100 == p) ≡ true = ground arith in rw t refl)
  | inr e ↦ inl (rw e refl)
]

space-alone : (k : Bytes) → count_p (key_is (space.entries) k) (map_contents db_k) ≤ 1
unfolding count_p flatten key_is
space-alone k = elim (Bool-cases (bytes_eq key_k k)) [
  | inl e ↦ rw e (omega arith)
  | inr e ↦ rw e (omega arith)
]

space-IsKeyspace : IsKeyspace space
unfolding count_p flatten is_dead in_order str_hash hash_loop
space-IsKeyspace = record {
  map = db_k-IsMap;
  live = refl;
  alone = space-alone;
  timers = timer_k-IsValid;
  owned = space-owned;
}

-- `get k`
abbrev get_cmd : List Bytes
get_cmd = (103 ∷ 101 ∷ 116 ∷ []) ∷ key_k ∷ []

-- `set k w`
abbrev set_cmd : List Bytes
set_cmd = (115 ∷ 101 ∷ 116 ∷ []) ∷ key_k ∷ (119 ∷ []) ∷ []

-- strtoll on the one digit that the test needs
abbrev digit : Bytes → ℤ × ℕ
digit (b ∷ []) = (pos (b - 48), 1)
digit _ = (pos 0, 0)

free_address : IsMalloc (λ _. 200) space
free_address db = (ground arith, refl)

do_get-Replies_example :
    Returns
      (λ (r : GData × Bytes). Kept space (r.0) × (r.1 ≡ get_reply [] (view space key_k)))
      (do_get space get_cmd [])
do_get-Replies_example = do_get-Replies space get_cmd key_k [] refl space-IsKeyspace

do_ttl-Replies_example :
    Returns
      (λ (r : GData × Bytes).
        Kept space (r.0)
        × (r.1 ≡ ttl_reply 5000 [] (view space key_k) (deadline timer_k (address space key_k))))
      (do_ttl 5000 space get_cmd [])
do_ttl-Replies_example = do_ttl-Replies 5000 space get_cmd key_k [] refl space-IsKeyspace

do_set-Sets_example :
    Returns
      (λ (r : GData × Bytes).
        SetsKey space key_k (set_entry key_k (119 ∷ []) (view space key_k)) (r.0)
        × (r.0.timers ≡ timer_k)
        × (r.0.jobs ≡ [])
        × (r.1 ≡ set_reply [] (view space key_k)))
      (do_set (λ _. 200) space set_cmd [])
unfolding flatten
do_set-Sets_example =
    do_set-Sets (λ _. 200) space set_cmd key_k (119 ∷ []) [] free_address refl refl space-IsKeyspace
      (omega arith)

do_expire-Expired_example :
    Returns
      (Expired space key_k (51 ∷ []) 5000 [] (digit (c_str (51 ∷ []))))
      (do_expire digit 5000 space ([] ∷ key_k ∷ (51 ∷ []) ∷ []) [])
do_expire-Expired_example =
    do_expire-Expired digit 5000 space ([] ∷ key_k ∷ (51 ∷ []) ∷ []) key_k (51 ∷ []) [] refl refl
      space-IsKeyspace (omega arith)

do_del-Deletes_example : Returns (Deleted space key_k []) (do_del 5000 space get_cmd [])
do_del-Deletes_example =
    do_del-Deletes 5000 space get_cmd key_k [] refl space-IsKeyspace (omega arith)

-- the string is found
view_k : view space key_k ≡ some entry_k
unfolding view ptr_of flatten key_is bytes_eq
view_k = refl
