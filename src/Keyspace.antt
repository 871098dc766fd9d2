-- ===== src/Keyspace.antt =====
-- The key space of ownRedisUsingCpp/server.cpp: g_data, struct Entry and the commands on keys and on
-- strings. The map holds the addresses of entries; an entry's field heap_idx is its cell in the heap
-- of timers, and its ZSet, which no other pointer reaches, is a part of it. strtoll and the address
-- of a new entry are arguments; the clock is read by the caller and passed in. A response is
-- appended to `out`.
pub mod Find
pub mod View
pub mod Read
pub mod Set
pub mod Add
pub mod Write
pub mod Expire
pub mod Remove
pub mod Del
mod Tests
use cand_cppwith_linux.Base.{
  ℕ, zero, suc, ◌+◌, ◌-◌, ◌*◌, ◌/◌, ◌%◌, ◌^◌, Bool, true, false, ◌&&◌, not, Option, none, some,
  List, [], ◌∷◌, ◌++◌, Run, ok, fault, check, deref, ◌>>=◌, ◌>>◌, ltb, leb, ◌==◌, if◌then◌else◌,
  length, get_elem?,
}
use cand_cppwith_linux.Base.Int.{ℤ, pos, negsuc}
use cand_cppwith_linux.Memory.{Ptr, null, write}
use cand_cppwith_linux.Heap.{HeapMem, no_index, write_cell}
use cand_cppwith_linux.Heap
use cand_cppwith_linux.Ttl.{entry_set_ttl}
use cand_cppwith_linux.HashTable.{
  HNode, HMap, Callback, hm_lookup, hm_insert, hm_pop, hm_size, no_map,
}
use cand_cppwith_linux.Wire.{Bytes, str_hash, out_nil, out_str, out_int, out_err}

abbrev pub t_str : ℕ
t_str = 0

abbrev pub t_zset : ℕ
t_zset = 1

abbrev pub err_type : ℕ
err_type = 3

abbrev pub err_arg : ℕ
err_arg = 4

-- "expect string type"
abbrev pub expect_string : Bytes
expect_string =
    101 ∷ 120 ∷ 112 ∷ 101 ∷ 99 ∷ 116 ∷ 32 ∷ 115 ∷ 116 ∷ 114 ∷ 105 ∷ 110 ∷ 103 ∷ 32 ∷ 116 ∷ 121 ∷ 112
    ∷ 101 ∷ []

-- "expect int64"
abbrev pub expect_int64 : Bytes
expect_int64 = 101 ∷ 120 ∷ 112 ∷ 101 ∷ 99 ∷ 116 ∷ 32 ∷ 105 ∷ 110 ∷ 116 ∷ 54 ∷ 52 ∷ []

-- the tree and the map of the members of a sorted set
pub record ZSet : Type 0 where
  pub tree : Ptr
  pub hmap : HMap Ptr

-- without the node and heap_idx
pub record Entry : Type 0 where
  pub key : Bytes
  pub val : Bytes
  pub type : ℕ
  pub zset : Option ZSet

-- the jobs are those of the thread pool: entries to be destroyed
pub record GData : Type 0 where
  pub db : HMap Ptr
  pub entries : Ptr → Option Entry
  pub timers : HeapMem
  pub jobs : List Ptr

unfoldable pub bytes_eq : Bytes → Bytes → Bool
bytes_eq [] [] = true
bytes_eq (a ∷ s) (b ∷ t) = (a == b) && bytes_eq s t
bytes_eq _ _ = false

-- the entry of a node, compared with a key on the stack
unfoldable pub entry_eq : (Ptr → Option Entry) → Bytes → Callback Ptr
entry_eq entries key lhs rhs = elim (entries lhs.payload) [
  | none ↦ false
  | some le ↦ bytes_eq le.key key
]

-- the node of a key on the stack
abbrev pub key_node : Bytes → HNode Ptr
key_node key = record { hcode = str_hash key; payload = null }

-- the first lines of each command: the entry of a key
unfoldable pub find_entry : GData → Bytes → Run (Option Ptr × GData)
find_entry g key = do
  (node, db) ← hm_lookup (g.db) (key_node key) (entry_eq (g.entries) key)
  ok (elim node [ none ↦ none | some n ↦ some n.payload ], record g { db = db })

unfoldable pub do_get : GData → List Bytes → Bytes → Run (GData × Bytes)
do_get g cmd out = do
  key ← deref (get_elem? cmd 1)
  (node, g₁) ← find_entry g key
  elim node [
    | none ↦ ok (g₁, out_nil out)
    | some p ↦ do
      ent ← deref (g₁.entries p)
      ok (
        g₁,
        if not (ent.type == t_str) then out_err out err_type expect_string else out_str out ent.val,
      )
  ]

-- `new Entry()` at the address `p`, with its key
unfoldable pub new_entry : GData → Ptr → Entry → GData
new_entry g p ent = record g {
  entries = write g.entries p ent;
  timers = record (g.timers) { cell = write_cell (g.timers.cell) p no_index };
}

unfoldable pub do_set : (GData → Ptr) → GData → List Bytes → Bytes → Run (GData × Bytes)
do_set malloc g cmd out = do
  key ← deref (get_elem? cmd 1)
  val ← deref (get_elem? cmd 2)
  (node, g₁) ← find_entry g key
  elim node [
    | some p ↦ do
      ent ← deref (g₁.entries p)
      let set : GData = record g₁ { entries = write g₁.entries p (record ent { val = val }) }
      ok (
          if not (ent.type == t_str)
          then (g₁, out_err out err_type expect_string)
          else (set, out_nil out))
    | none ↦ do
      let p = malloc g₁
      let g₂ = new_entry g₁ p (record { key = key; val = val; type = t_str; zset = none })
      db ← hm_insert (g₂.db) (record { hcode = str_hash key; payload = p })
      ok (record g₂ { db = db }, out_nil out)
  ]

-- the C string of a string: up to a zero byte
unfoldable pub c_str : Bytes → Bytes
c_str [] = []
c_str (b ∷ s) = if b == 0 then [] else (b ∷ c_str s)

-- strtoll gives the value and the number of bytes read
unfoldable pub str2int : (Bytes → ℤ × ℕ) → Bytes → Option ℤ
str2int strtoll s =
    let (value, stop) = strtoll (c_str s) in if stop == length s then some value else none

unfoldable pub do_expire : (Bytes → ℤ × ℕ) → ℕ → GData → List Bytes → Bytes → Run (GData × Bytes)
do_expire strtoll now g cmd out = do
  arg ← deref (get_elem? cmd 2)
  key ← deref (get_elem? cmd 1)
  elim (str2int strtoll arg) [
    | none ↦ ok (g, out_err out err_arg expect_int64)
    | some ttl_ms ↦ do
      (node, g₁) ← find_entry g key
      elim node [
        | none ↦ ok (g₁, out_int out 0)
        | some p ↦ do
          timers ← entry_set_ttl (g₁.timers) p ttl_ms now
          ok (record g₁ { timers = timers }, out_int out 1)
      ]
  ]

-- negative results as 64-bit patterns
unfoldable pub do_ttl : ℕ → GData → List Bytes → Bytes → Run (GData × Bytes)
do_ttl now g cmd out = do
  key ← deref (get_elem? cmd 1)
  (node, g₁) ← find_entry g key
  elim node [
    | none ↦ ok (g₁, out_int out (2 ^ 64 - 2))
    | some p ↦
        let timed : Run (GData × Bytes) = (do
          item ← Heap.load (g₁.timers) (g₁.timers.cell p)
          ok (g₁, out_int out (if ltb now item.val then (item.val - now) / 1000 else 0))) in
        if g₁.timers.cell p == no_index then ok (g₁, out_int out (2 ^ 64 - 1)) else timed
  ]

abbrev pub k_large_container_size : ℕ
k_large_container_size = 10000

-- the entry, with its sorted set if it has one, is freed
unfoldable pub entry_destroy : (Ptr → Option Entry) → Ptr → Run (Ptr → Option Entry)
entry_destroy entries p = do
  ent ← deref (entries p)
  let freed : Run (Ptr → Option Entry) = ok (λ a. if a == p then none else entries a)
  if ent.type == t_zset then (do zset ← deref (ent.zset); freed) else freed

-- the test in entry_del for a large sorted set
unfoldable pub too_big : Entry → Run Bool
too_big ent =
    let large : Run Bool = (do
      zset ← deref (ent.zset)
      ok (ltb k_large_container_size (hm_size (zset.hmap)))) in
    if ent.type == t_zset then large else ok false

unfoldable pub entry_del : ℕ → GData → Ptr → Run GData
entry_del now g p = do
  timers ← entry_set_ttl (g.timers) p (negsuc 0) now
  ent ← deref (g.entries p)
  big ← too_big ent
  let later : Run GData = ok (record g { timers = timers; jobs = g.jobs ++ (p ∷ []) })
  let at_once : Run GData = do
    entries ← entry_destroy (g.entries) p
    ok (record g { timers = timers; entries = entries })
  if big then later else at_once

unfoldable pub do_del : ℕ → GData → List Bytes → Bytes → Run (GData × Bytes)
do_del now g cmd out = do
  key ← deref (get_elem? cmd 1)
  (node, db) ← hm_pop (g.db) (key_node key) (entry_eq (g.entries) key)
  let g₁ : GData = record g { db = db }
  elim node [
    | none ↦ ok (g₁, out_int out 0)
    | some n ↦ do g₂ ← entry_del now g₁ n.payload; ok (g₂, out_int out 1)
  ]
