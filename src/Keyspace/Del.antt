-- ===== src/Keyspace/Del.antt =====
-- do_del on every branch.
use cand_cppwith_linux.Base.{
  ℕ, ◌+◌, ◌<◌, ◌≡◌, ◌≢◌, refl, sym, ap, ◌∙◌, inl, inr, Bool-cases, true, false, Option, none, some,
  List, [], ◌∷◌, ◌++◌, Perm, ok, ◌>>=◌, Returns, returns, Returns-bind, arith, get_elem?, length,
  ◌==◌, if◌then◌else◌,
}
use cand_cppwith_linux.Base.Int.{negsuc}
use cand_cppwith_linux.Memory.{Ptr, null}
use cand_cppwith_linux.HashTable.{HNode, HMap}
use cand_cppwith_linux.HashTable.Slots.{is_match}
use cand_cppwith_linux.HashTable.Map.{map_contents, IsMap}
use cand_cppwith_linux.HashTable.Find.{Popped, nothing, popped, hm_pop-Popped}
use cand_cppwith_linux.Heap.Order.{limit}
use cand_cppwith_linux.Ttl.{deadline}
use cand_cppwith_linux.Ttl.SetTtl.{entry_set_ttl-SetsDeadline}
use cand_cppwith_linux.Wire.{Bytes, out_int}
use cand_cppwith_linux.Keyspace.{Entry, GData, entry_eq, key_node, entry_del, do_del}
use cand_cppwith_linux.Keyspace.Find.{count_p-agree}
use cand_cppwith_linux.Keyspace.View.{
  IsKeyspace, Store, view, address, key_is, is_dead, in_order, live_node, found_live, match_is_key,
  key_is-at, eq_of_bytes_eq, reordered, view-reordered, view-absent, view-located, address-located,
}
use cand_cppwith_linux.Keyspace.Read.{Kept}
use cand_cppwith_linux.Keyspace.Set.{SetsKey}
use cand_cppwith_linux.Keyspace.Remove.{
  is_large, freed, too_big-ok, entry_destroy-freed, removed-SetsKey,
}

-- The outcomes of `del` on the key `k`: there is no such key, its entry is freed, or its entry, a
-- large sorted set, is a job of the thread pool and is not freed yet.
pub data Deleted (g : GData) (k out : Bytes) : GData × Bytes → Type 0 where
  no_key : (g' : GData) → Kept g g' → view g k ≡ none → Deleted g k out (g', out_int out 0)
  gone :
      (g' : GData) (ent : Entry)
      → view g k ≡ some ent
      → is_large ent ≡ false
      → SetsKey g k none g'
      → g'.entries ≡ freed g.entries (address g k)
      → g'.jobs ≡ g.jobs
      → ((r : Ptr)
          → deadline g'.timers r ≡ (if r == address g k then none else deadline g.timers r))
      → Deleted g k out (g', out_int out 1)
  handed_over :
      (g' : GData) (ent : Entry)
      → view g k ≡ some ent
      → is_large ent ≡ true
      → SetsKey g k none g'
      → g'.entries ≡ g.entries
      → g'.jobs ≡ g.jobs ++ (address g k ∷ [])
      → ((r : Ptr)
          → deadline g'.timers r ≡ (if r == address g k then none else deadline g.timers r))
      → Deleted g k out (g', out_int out 1)

freed-other : (es : Store) (p a : Ptr) → a ≢ p → freed es p a ≡ es a
freed-other es p a ne = ground arith

entry_del-Deleted :
    (now : ℕ) (g : GData) (k out : Bytes) (n : HNode Ptr) (ent : Entry) (db : HMap Ptr)
    → IsKeyspace g
    → IsMap db
    → Perm (n ∷ map_contents db) (map_contents g.db)
    → n.payload ≢ null
    → g.entries n.payload ≡ some ent
    → in_order n ent ≡ true
    → ent.key ≡ k
    → length g.timers.items + 1 < limit
    → Returns
        (λ g₂. Deleted g k out (g₂, out_int out 1))
        (entry_del now (record g { db = db }) n.payload)
unfolding entry_del
entry_del-Deleted now g k out n ent db v map perm ne at order same room =
    let there = view-located g k n (map_contents db) ent v perm ne at same in
    let here = address-located g k n (map_contents db) ent v perm at same in
    Returns-bind (entry_set_ttl-SetsDeadline g.timers n.payload (negsuc 0) now v.timers room) λ m s.
      rw (at, too_big-ok n ent order)
        (elim (Bool-cases (is_large ent)) [
          | inl large ↦ rw large (
              returns (
                handed_over _ ent there large
                  (removed-SetsKey g k n ent db g.entries m (g.jobs ++ (n.payload ∷ [])) v perm at
                    same (λ a _. refl) map s)
                  refl (rw here refl) (λ r. rw here (s.deadlines r))))
          | inr small ↦
              rw (small, entry_destroy-freed g.entries n.payload n ent at order)
                (returns (
                  gone _ ent there small
                    (removed-SetsKey g k n ent db (freed g.entries n.payload) m g.jobs v perm at
                      same (freed-other g.entries n.payload) map s)
                    (ap (freed g.entries) (sym here)) refl (λ r. rw here (s.deadlines r))))
        ])

-- From a state in order with room for one more timer, do_del ends without a fault. It answers 0 and
-- changes no key, entry, timer or job if the key has no entry; otherwise it answers 1, the key has
-- no entry afterwards and its entry no deadline, no other key or deadline changes, and the entry is
-- freed, or is appended to the jobs of the thread pool if it is a large sorted set.
pub do_del-Deletes :
    (now : ℕ) (g : GData) (cmd : List Bytes) (k out : Bytes)
    → get_elem? cmd 1 ≡ some k
    → IsKeyspace g
    → length g.timers.items + 1 < limit
    → Returns (Deleted g k out) (do_del now g cmd out)
unfolding do_del
do_del-Deletes now g cmd k out arg v room =
    rw arg (
      Returns-bind (hm_pop-Popped (key_node k) (entry_eq g.entries k) g.db v.map) λ r f. answer r f)
  where
    answer :
        (r : Option (HNode Ptr) × HMap Ptr)
        → Popped (key_node k) (entry_eq g.entries k) g.db r
        → Returns (Deleted g k out) (elim (r.0) [
          | none ↦ ok (record g { db = r.1 }, out_int out 0)
          | some n ↦
              (entry_del now (record g { db = r.1 }) n.payload >>= λ g₂. ok (g₂, out_int out 1))
        ])
    answer _ (nothing {r} m p zero_count) =
        let same_test =
          count_p-agree (is_dead g.entries) (is_match (entry_eq g.entries k) (key_node k))
            (key_is g.entries k) (map_contents g.db) v.live (match_is_key g.entries k) in
        returns (
          no_key _
            (record {
              valid = reordered g r v m p;
              same = λ k'. view-reordered g r k' v p;
              timers = refl;
              jobs = refl;
              entries = refl;
            })
            (view-absent g k (sym same_test ∙ zero_count)))
    answer _ (popped {r} n m p hit) =
        let alive = found_live g.entries n (map_contents r) (map_contents g.db) p v.live in
        let (ne, ent, at, order) = live_node g.entries n alive in
        let same =
          eq_of_bytes_eq ent.key k (
            sym (key_is-at g.entries k n ent at)
            ∙ (sym (match_is_key g.entries k n alive) ∙ hit)) in
        Returns-bind (entry_del-Deleted now g k out n ent r v m p ne at order same room)
          λ g₂ d. returns d
