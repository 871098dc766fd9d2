-- ===== src/Keyspace/Expire.antt =====
-- do_expire: the deadline of the entry of a key.
use cand_cppwith_linux.Base.{
  ℕ, ◌+◌, ◌≤◌, ◌<◌, ◌≡◌, refl, sym, ap, ◌∙◌, inl, inr, Bool-cases, Bool, true, Option, none, some,
  List, [], ◌∷◌, Perm, ok, ◌>>=◌, Returns, returns, Returns-bind, arith, ◌==◌, ==_iff,
  if◌then◌else◌, get_elem?, length, ◌≢◌,
}
use cand_cppwith_linux.Base.Int.{ℤ}
use cand_cppwith_linux.Base.Count.{to_nat, count_p, count_p-perm}
use cand_cppwith_linux.Memory.{Ptr}
use cand_cppwith_linux.HashTable.{HNode}
use cand_cppwith_linux.HashTable.Map.{map_contents}
use cand_cppwith_linux.Heap.{HeapMem}
use cand_cppwith_linux.Heap.Order.{limit}
use cand_cppwith_linux.Ttl.{deadline, entry_set_ttl}
use cand_cppwith_linux.Ttl.SetTtl.{asked, SetsDeadline, entry_set_ttl-SetsDeadline}
use cand_cppwith_linux.Wire.{Bytes, out_int, out_err}
use cand_cppwith_linux.Keyspace.{
  Entry, GData, err_arg, expect_int64, bytes_eq, str2int, c_str, do_expire,
}
use cand_cppwith_linux.Keyspace.Find.{count_p-head}
use cand_cppwith_linux.Keyspace.View.{
  IsKeyspace, Located, absent, located, view, address, key_is, is_at, key_is-at, bytes_eq_refl,
  view-absent, view-located, view-reordered, view-timers, address-located, address-reordered,
  find_entry-Located,
}
use cand_cppwith_linux.Keyspace.Read.{Kept}

count_p-le :
    {A : Type 0} (f g : A → Bool) (ns : List A)
    → ((n : A) → f n ≡ true → g n ≡ true)
    → count_p f ns ≤ count_p g ns
unfolding count_p
count_p-le f g [] h = omega arith
count_p-le f g (n ∷ ns) h = elim (Bool-cases (f n)) [
  | inl e ↦ omega (arith, count_p-le f g ns h, ap to_nat e, ap to_nat (h n e))
  | inr e ↦ omega (arith, count_p-le f g ns h, ap to_nat e)
]

-- the entry of a node stands at no other node
pub one_node_at :
    (g : GData) (k : Bytes) (n : HNode Ptr) (rest : List (HNode Ptr)) (ent : Entry)
    → IsKeyspace g
    → Perm (n ∷ rest) (map_contents g.db)
    → g.entries n.payload ≡ some ent
    → ent.key ≡ k
    → (count_p (is_at n.payload) (map_contents g.db) ≡ 1) × (count_p (is_at n.payload) rest ≡ 0)
one_node_at g k n rest ent v p at same =
    let few = count_p-le (is_at n.payload) (key_is g.entries k) (map_contents g.db) (λ m t.
      key_is-at g.entries k m ent (ap g.entries ((==_iff m.payload n.payload).0 t) ∙ at)
      ∙ (ap (λ s. bytes_eq s k) same ∙ bytes_eq_refl k)) in
    let self : is_at n.payload n ≡ true = (==_iff n.payload n.payload).1 refl in
    let head = count_p-head (is_at n.payload) n rest self in
    let moved = count_p-perm (is_at n.payload) p in
    (omega (arith, few, head, moved, v.alone k), omega (arith, few, head, moved, v.alone k))

-- The outcomes of `pexpire` on the key `k` with the argument `arg`, by the value and the end of the
-- number that strtoll finds in the C string of the argument: it does not end where the argument
-- does, and nothing changes; it does, and there is no such key; or the deadline of the key's entry
-- is the one asked for and no other changes.
pub data Expired (g : GData) (k arg : Bytes) (now : ℕ) (out : Bytes) (number : ℤ × ℕ)
    : GData × Bytes → Type 0 where
  bad_number :
      number.1 ≢ length arg → Expired g k arg now out number (g, out_err out err_arg expect_int64)
  no_key :
      (g' : GData)
      → number.1 ≡ length arg
      → Kept g g'
      → view g k ≡ none
      → Expired g k arg now out number (g', out_int out 0)
  timed :
      (g' : GData) (ent : Entry)
      → number.1 ≡ length arg
      → view g k ≡ some ent
      → IsKeyspace g'
      → ((k' : Bytes) → view g' k' ≡ view g k')
      → (g'.entries ≡ g.entries) × (g'.jobs ≡ g.jobs)
      → ((r : Ptr)
          → deadline g'.timers r
            ≡ (if r == address g k then asked number.0 now else deadline g.timers r))
      → Expired g k arg now out number (g', out_int out 1)

timed_valid :
    (g : GData) (p : Ptr) (d : Option ℕ) (m : HeapMem)
    → IsKeyspace g
    → count_p (is_at p) (map_contents g.db) ≡ 1
    → SetsDeadline g.timers p d m
    → IsKeyspace (record g { timers = m })
timed_valid g p d m v one s = record {
  map = v.map;
  live = v.live;
  alone = v.alone;
  timers = s.valid;
  owned = λ r. elim (Bool-cases (r == p)) [
    | inl e ↦ inr (ap (λ q. count_p (is_at q) (map_contents g.db)) ((==_iff r p).0 e) ∙ one)
    | inr e ↦ elim (v.owned r) [ inl off ↦ inl (s.deadlines r ∙ rw e off) | inr at ↦ inr at ]
  ];
}

-- From a state in order with room for one more timer, do_expire ends without a fault. Its answer is
-- an error, with nothing changed, if strtoll does not read the argument to its end; else 0 without
-- the key, with no key, entry, timer or job changed, and 1 once the deadline of the key's entry is
-- the one that the number asks for, with no other deadline, key, entry or job changed.
pub do_expire-Expired :
    (strtoll : Bytes → ℤ × ℕ) (now : ℕ) (g : GData) (cmd : List Bytes) (k arg out : Bytes)
    → get_elem? cmd 1 ≡ some k
    → get_elem? cmd 2 ≡ some arg
    → IsKeyspace g
    → length g.timers.items + 1 < limit
    → Returns (Expired g k arg now out (strtoll (c_str arg))) (do_expire strtoll now g cmd out)
unfolding do_expire str2int
do_expire-Expired strtoll now g cmd k arg out e1 e2 v room =
    rw (e1, e2)
      (elim (Bool-cases (number.1 == length arg)) [
        | inr f ↦ rw f (returns (bad_number (ground (arith, f))))
        | inl t ↦
            let ends : number.1 ≡ length arg = (==_iff number.1 (length arg)).0 t in
            rw t (Returns-bind (find_entry-Located g k v) λ r l. answer ends r l)
      ])
  where
    number : ℤ × ℕ
    number = strtoll (c_str arg)

    answer :
        number.1 ≡ length arg
        → (r : Option Ptr × GData) → Located g k r
        → Returns (Expired g k arg now out number) (elim (r.0) [
          | none ↦ ok (r.1, out_int out 0)
          | some p ↦
              (entry_set_ttl (r.1.timers) p number.0 now >>= λ timers.
              ok (record (r.1) { timers = timers }, out_int out 1))
        ])
    answer ends _ (absent db valid p count) =
        let e = sym (view-reordered g db k v p) ∙ view-absent (record g { db = db }) k count in
        returns (
          no_key _ ends
            (record {
              valid = valid;
              same = λ k'. view-reordered g db k' v p;
              timers = refl;
              jobs = refl;
              entries = refl;
            })
            e)
    answer ends _ (located db n rest ent valid p q ne at same) =
        let g₁ : GData = record g { db = db } in
        let e = sym (view-reordered g db k v p) ∙ view-located g₁ k n rest ent valid q ne at same in
        let here =
          sym (address-reordered g db k v p) ∙ address-located g₁ k n rest ent valid q at same in
        Returns-bind (entry_set_ttl-SetsDeadline g.timers n.payload number.0 now v.timers room)
          λ m s. returns (
            timed (record g₁ { timers = m }) ent ends e
              (timed_valid g₁ n.payload (asked number.0 now) m valid
                ((one_node_at g₁ k n rest ent valid q at same).0) s)
              (λ k'. view-timers g₁ m k' ∙ view-reordered g db k' v p) (refl, refl)
              (λ r. rw here (s.deadlines r)))
