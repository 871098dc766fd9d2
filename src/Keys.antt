-- ===== src/Keys.antt =====
-- The `keys` command of ownRedisUsingCpp/server.cpp: struct Entry, h_scan, cb_scan and do_keys, on
-- the map of all entries.
pub mod Scan
mod Tests
use cand_cppwith_linux.Base.{
  ℕ, zero, suc, ◌+◌, ◌%◌, Option, List, [], ◌∷◌, Run, ok, deref, ◌>>=◌, ◌==◌, if◌then◌else◌,
  get_elem?,
}
use cand_cppwith_linux.Memory.{Ptr}
use cand_cppwith_linux.HashTable.{HNode, HTab, HMap, hm_size}
use cand_cppwith_linux.Wire.{Bytes, u32_mod, out_arr, out_str}

-- without the node, in which it is embedded
pub record Entry : Type 0 where
  pub key : Bytes
  pub val : Bytes
  pub type : ℕ
  pub zset : Ptr
  pub heap_idx : ℕ

module _ {P A : Type 0} (f : HNode P → A → A) where
  -- the loop along a chain
  unfoldable pub scan_chain : List (HNode P) → A → A
  scan_chain [] arg = arg
  scan_chain (node ∷ next) arg = scan_chain next (f node arg)

  -- the loop over the slots, from `i` on
  unfoldable pub scan_slots : ℕ → ℕ → List (List (HNode P)) → A → Run A
  scan_slots zero i slots arg = ok arg
  scan_slots (suc n) i slots arg = do
    chain ← deref (get_elem? slots i)
    scan_slots n (i + 1) slots (scan_chain chain arg)

  unfoldable pub h_scan : HTab P → A → Run A
  h_scan t arg =
      let scan : Run A = do slots ← deref (t.tab); scan_slots (t.mask + 1) 0 slots arg
      in if t.size == 0 then ok arg else scan

unfoldable pub cb_scan : HNode Entry → Bytes → Bytes
cb_scan node out = out_str out (node.payload.key)

unfoldable pub do_keys : HMap Entry → Bytes → Run Bytes
do_keys db out = do
  out1 ← h_scan cb_scan (db.ht1) (out_arr out (hm_size db % u32_mod))
  h_scan cb_scan (db.ht2) out1
