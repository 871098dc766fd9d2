-- ===== src/Keys/Scan.antt =====
-- h_scan visits the contents of a table, and do_keys lists the keys of the map.
use mathlib.Core.List.{flatten, append_assoc, append-nil}
use cand_cppwith_linux.Base.{
  ℕ, zero, suc, ◌+◌, ◌%◌, ◌<◌, ◌≡◌, refl, sym, ap, ◌∙◌, inl, inr, Bool-cases, false, List, [], ◌∷◌,
  ◌++◌, ok, deref, ◌>>=◌, ◌==◌, length, drop, drop-length, drop-next, arith,
}
use cand_cppwith_linux.HashTable.{HNode, HTab, HMap, hm_size}
use cand_cppwith_linux.HashTable.Table.{slots_of, contents}
use cand_cppwith_linux.HashTable.Map.{map_contents, Part, IsMap, Part-counted}
use cand_cppwith_linux.HashTable.Find.{hm_size-length}
use cand_cppwith_linux.Wire.{Bytes, u32_mod, out_arr, out_str}
use cand_cppwith_linux.Keys.{Entry, scan_chain, scan_slots, h_scan, cb_scan, do_keys}

drop_all : {X : Type 0} (i : ℕ) (xs : List X) → i ≡ length xs → drop i xs ≡ []
drop_all i xs e = ap (λ k. drop k xs) e ∙ drop-length xs

length-zero : {X : Type 0} (xs : List X) → length xs ≡ 0 → xs ≡ []
length-zero [] h = refl
length-zero (x ∷ xs) h = absurd (omega arith)

module _ {P A : Type 0} (f : HNode P → A → A) where
  scan_chain-append :
      (xs ys : List (HNode P)) (arg : A)
      → scan_chain f (xs ++ ys) arg ≡ scan_chain f ys (scan_chain f xs arg)
  unfolding scan_chain
  scan_chain-append [] ys arg = refl
  scan_chain-append (x ∷ xs) ys arg = scan_chain-append xs ys (f x arg)

  scan_slots-flatten :
      (n i : ℕ) (slots : List (List (HNode P))) (arg : A)
      → i + n ≡ length slots
      → scan_slots f n i slots arg ≡ ok (scan_chain f (flatten (drop i slots)) arg)
  unfolding scan_slots scan_chain flatten
  scan_slots-flatten zero i slots arg e = rw (drop_all i slots (omega arith)) refl
  scan_slots-flatten (suc n) i slots arg e =
      let (chain, at, next) = drop-next i slots (omega arith) in
      rw (at, next)
        (scan_slots-flatten n (i + 1) slots (scan_chain f chain arg) (omega arith)
          ∙ ap ok (sym (scan_chain-append chain (flatten (drop (i + 1) slots)) arg)))

  -- A table in order, or one that is not allocated, is scanned without a fault, each node once.
  pub h_scan-contents :
      (t : HTab P) (arg : A) → Part t → h_scan f t arg ≡ ok (scan_chain f (contents t) arg)
  unfolding h_scan scan_chain
  h_scan-contents t arg p =
      let count = Part-counted t p in
      elim (Bool-cases (t.size == 0)) [
        | inl e ↦
            let none_there : contents t ≡ [] = length-zero (contents t) (ground arith) in
            rw (e, none_there) (empty arg)
        | inr e ↦ rw e (allocated p e)
      ]
    where
      empty : (arg : A) → ok arg ≡ ok (scan_chain f [] arg)
      empty arg = refl

      allocated :
          Part t
          → (t.size == 0) ≡ false
          → (deref (t.tab) >>= λ slots. scan_slots f (t.mask + 1) 0 slots arg)
            ≡ ok (scan_chain f (contents t) arg)
      allocated (inl e) busy = absurd (ground (arith, ap HTab.size e))
      allocated (inr v) busy =
          rw (v.tab) (scan_slots-flatten (t.mask + 1) 0 (slots_of t) arg (omega (arith, v.width)))

-- the keys of a list of nodes, as strings of the response
abbrev pub out_keys : List (HNode Entry) → Bytes
out_keys [] = []
out_keys (n ∷ ns) = out_str [] (n.payload.key) ++ out_keys ns

scan_cb : (ns : List (HNode Entry)) (out : Bytes) → scan_chain cb_scan ns out ≡ out ++ out_keys ns
unfolding scan_chain cb_scan out_str
scan_cb [] out = sym (append-nil out)
scan_cb (n ∷ ns) out =
    scan_cb ns (cb_scan n out) ∙ append_assoc out (out_str [] (n.payload.key)) (out_keys ns)

-- In a map in order with fewer than 2^32 entries, do_keys appends an array whose announced length is
-- the number of entries, followed by the key of each entry, those of the newer table first.
pub do_keys-lists :
    (db : HMap Entry) (out : Bytes)
    → IsMap db
    → length (map_contents db) < u32_mod
    → do_keys db out ≡ ok (out_arr out (length (map_contents db)) ++ out_keys (map_contents db))
unfolding do_keys
do_keys-lists db out v small =
    let size = hm_size-length db v in
    let e : hm_size db % u32_mod ≡ length (map_contents db) = omega arith in
    let array = out_arr out (length (map_contents db)) in
    rw
      (
        e,
        h_scan-contents cb_scan (db.ht1) array (v.new),
        h_scan-contents cb_scan (db.ht2) (scan_chain cb_scan (contents (db.ht1)) array) (v.old),
      )
      (ap ok (
        sym (scan_chain-append cb_scan (contents (db.ht1)) (contents (db.ht2)) array)
        ∙ scan_cb (map_contents db) array))
