-- ===== src/Keyspace/View.antt =====
-- The key space as a map from keys to entries, and the invariant that makes it one.
use mathlib.Core.Path.{ap₂}
use mathlib.Core.List.Perm
use cand_cppwith_linux.Base.{
  ◌≤◌, ◌≡◌, ◌≢◌, refl, sym, ap, ◌∙◌, inl, inr, ◌⊎◌, Bool-cases, Option-cases, Bool, true, false,
  ◌&&◌, ◌||◌, not, Option, none, some, List, [], ◌∷◌, Perm, Returns, returns, Returns-bind, ==_iff,
  arith, ◌==◌, if◌then◌else◌,
}
use cand_cppwith_linux.Base.Count.{count_p, count_p-perm}
use cand_cppwith_linux.Memory.{Ptr, null}
use cand_cppwith_linux.HashTable.{HNode, HMap, is_null}
use cand_cppwith_linux.HashTable.Slots.{is_match}
use cand_cppwith_linux.HashTable.Map.{map_contents, IsMap}
use cand_cppwith_linux.HashTable.Find.{Found, no_match, one_match, hm_lookup-Found}
use cand_cppwith_linux.Heap.{HeapMem}
use cand_cppwith_linux.Ttl.{deadline}
use cand_cppwith_linux.Ttl.Deadline.{IsValid}
use cand_cppwith_linux.Wire.{Bytes, str_hash}
use cand_cppwith_linux.Keyspace.{Entry, GData, t_zset, bytes_eq, entry_eq, key_node, find_entry}
use cand_cppwith_linux.Keyspace.Find.{
  ptr_of, ptr_of-none, ptr_of-some, ptr_of-perm, count_p-agree, count_p-head,
}

abbrev pub Store : Type 0
Store = Ptr → Option Entry

pub bytes_eq_refl : (s : Bytes) → bytes_eq s s ≡ true
unfolding bytes_eq
bytes_eq_refl [] = refl
bytes_eq_refl (a ∷ s) = ground (arith, bytes_eq_refl s)

pub eq_of_bytes_eq : (s t : Bytes) → bytes_eq s t ≡ true → s ≡ t
unfolding bytes_eq
eq_of_bytes_eq [] [] h = refl
eq_of_bytes_eq [] (b ∷ t) h = absurd (cc)
eq_of_bytes_eq (a ∷ s) [] h = absurd (cc)
eq_of_bytes_eq (a ∷ s) (b ∷ t) h = elim (Bool-cases (a == b)) [
  | inl e ↦
      let same : a ≡ b = ground arith in ap₂ (λ x l. x ∷ l) same (eq_of_bytes_eq s t (rw e at h))
  | inr e ↦ absurd (ground (arith, e, h))
]

-- the entry of the node has the key
unfoldable pub key_is : Store → Bytes → HNode Ptr → Bool
key_is es k n = elim (es n.payload) [ none ↦ false | some e ↦ bytes_eq e.key k ]

-- the entry with its node is in order: the hash value, and a sorted set if the type says so
unfoldable pub in_order : HNode Ptr → Entry → Bool
in_order n e = (n.hcode == str_hash e.key) && (not (e.type == t_zset) || not (is_null e.zset))

unfoldable pub is_dead : Store → HNode Ptr → Bool
is_dead es n =
    (n.payload == null) || (elim (es n.payload) [ none ↦ true | some e ↦ not (in_order n e) ])

abbrev pub is_at : Ptr → HNode Ptr → Bool
is_at p n = n.payload == p

-- The state between two commands: the map of entries is in order, each of its nodes has a live entry
-- with its hash value, no two have the same key, and only entries of the map have timers.
pub record IsKeyspace (g : GData) : Type 0 where
  pub map : IsMap g.db
  pub live : count_p (is_dead g.entries) (map_contents g.db) ≡ 0
  pub alone : (k : Bytes) → count_p (key_is g.entries k) (map_contents g.db) ≤ 1
  pub timers : IsValid g.timers
  pub owned : (p : Ptr) → (deadline g.timers p ≡ none) ⊎ (count_p (is_at p) (map_contents g.db) ≡ 1)

-- the address of the entry of a key, and the entry
abbrev pub address : GData → Bytes → Ptr
address g k = ptr_of (key_is g.entries k) (map_contents g.db)

abbrev pub at_address : Store → Ptr → Option Entry
at_address es p = if p == null then none else es p

unfoldable pub view : GData → Bytes → Option Entry
view g k = at_address (g.entries) (address g k)

pub live_node :
    (es : Store) (n : HNode Ptr)
    → is_dead es n ≡ false
    → (n.payload ≢ null) × (e : Entry) × (es n.payload ≡ some e) × (in_order n e ≡ true)
unfolding is_dead
live_node es n h = elim (Option-cases (es n.payload)) [
  | inl e ↦ absurd (ground (arith, e, h))
  | inr (x, e) ↦ (ground (arith, e, h), x, e, ground (arith, e, h))
]

pub true_not_false : true ≡ false → ⊥
true_not_false e = cc

pub entry_eq-at :
    (es : Store) (k : Bytes) (n : HNode Ptr) (e : Entry)
    → es n.payload ≡ some e
    → entry_eq es k n (key_node k) ≡ bytes_eq e.key k
unfolding entry_eq
entry_eq-at es k n e at = rw (entry_eq, at) refl

pub key_is-at :
    (es : Store) (k : Bytes) (n : HNode Ptr) (e : Entry)
    → es n.payload ≡ some e
    → key_is es k n ≡ bytes_eq e.key k
unfolding key_is
key_is-at es k n e at = rw (key_is, at) refl

in_order-hash : (n : HNode Ptr) (e : Entry) → in_order n e ≡ true → n.hcode ≡ str_hash e.key
unfolding in_order
in_order-hash n e h = elim (Bool-cases (n.hcode == str_hash e.key)) [
  | inl same ↦ ground arith
  | inr other ↦ absurd (ground (arith, other, h))
]

and_implied : (a b : Bool) → (b ≡ true → a ≡ true) → (a && b) ≡ b
and_implied true b h = refl
and_implied false true h = h refl
and_implied false false h = refl

-- on live nodes the test of hm_lookup is that of the key
pub match_is_key :
    (es : Store) (k : Bytes) (n : HNode Ptr)
    → is_dead es n ≡ false
    → is_match (entry_eq es k) (key_node k) n ≡ key_is es k n
match_is_key es k n h =
    let (ne, e, at, order) = live_node es n h in
    let hash = in_order-hash n e order in
    ap (λ b. (n.hcode == str_hash k) && b) (entry_eq-at es k n e at)
    ∙ (and_implied (n.hcode == str_hash k) (bytes_eq e.key k)
          (λ t. (==_iff n.hcode (str_hash k)).1 (hash ∙ ap str_hash (eq_of_bytes_eq e.key k t)))
        ∙ sym (key_is-at es k n e at))

-- What the first lines of a command deliver: the same map, and the address of the key's entry.
pub data Located (g : GData) (k : Bytes) : Option Ptr × GData → Type 0 where
  absent :
      (db : HMap Ptr)
      → IsKeyspace (record g { db = db })
      → Perm (map_contents db) (map_contents g.db)
      → count_p (key_is g.entries k) (map_contents db) ≡ 0
      → Located g k (none, record g { db = db })
  located :
      (db : HMap Ptr) (n : HNode Ptr) (rest : List (HNode Ptr)) (e : Entry)
      → IsKeyspace (record g { db = db })
      → Perm (map_contents db) (map_contents g.db)
      → Perm (n ∷ rest) (map_contents db)
      → n.payload ≢ null
      → g.entries n.payload ≡ some e
      → e.key ≡ k
      → Located g k (some n.payload, record g { db = db })

-- only the map is reordered
pub reordered :
    (g : GData) (db : HMap Ptr)
    → IsKeyspace g
    → IsMap db
    → Perm (map_contents db) (map_contents g.db)
    → IsKeyspace (record g { db = db })
reordered g db v m p = record {
  map = m;
  live = count_p-perm (is_dead g.entries) p ∙ v.live;
  alone = λ k. omega (arith, count_p-perm (key_is g.entries k) p, v.alone k);
  timers = v.timers;
  owned = λ r. elim (v.owned r) [ inl e ↦ inl e | inr e ↦ inr (count_p-perm (is_at r) p ∙ e) ];
}

pub address-reordered :
    (g : GData) (db : HMap Ptr) (k : Bytes)
    → IsKeyspace g
    → Perm (map_contents db) (map_contents g.db)
    → address (record g { db = db }) k ≡ address g k
address-reordered g db k v p =
    ptr_of-perm (key_is g.entries k) (omega (arith, count_p-perm (key_is g.entries k) p, v.alone k))
      p

pub view-reordered :
    (g : GData) (db : HMap Ptr) (k : Bytes)
    → IsKeyspace g
    → Perm (map_contents db) (map_contents g.db)
    → view (record g { db = db }) k ≡ view g k
unfolding view
view-reordered g db k v p = ap (at_address g.entries) (address-reordered g db k v p)

pub found_live :
    (es : Store) (n : HNode Ptr) (rest ns : List (HNode Ptr))
    → Perm (n ∷ rest) ns
    → count_p (is_dead es) ns ≡ 0
    → is_dead es n ≡ false
found_live es n rest ns p h = elim (Bool-cases (is_dead es n)) [
  | inr e ↦ e
  | inl e ↦ absurd (omega (arith, count_p-perm (is_dead es) p, count_p-head (is_dead es) n rest e))
]

-- From a state in order, find_entry ends without a fault; it keeps the key space, and returns the
-- address of the entry of the key exactly if there is one.
pub find_entry-Located :
    (g : GData) (k : Bytes) → IsKeyspace g → Returns (Located g k) (find_entry g k)
unfolding find_entry
find_entry-Located g k v =
    Returns-bind (hm_lookup-Found (key_node k) (entry_eq g.entries k) g.db v.map)
      λ r f. returns (at r f)
  where
    at :
        (r : Option (HNode Ptr) × HMap Ptr)
        → Found (key_node k) (entry_eq g.entries k) g.db r
        → Located g k (elim (r.0) [ none ↦ none | some n ↦ some n.payload ], record g { db = r.1 })
    at _ (no_match {r} m p zero_count) = absent r (reordered g r v m p) p (
        count_p-perm (key_is g.entries k) p
        ∙ (sym (
              count_p-agree (is_dead g.entries) (is_match (entry_eq g.entries k) (key_node k))
                (key_is g.entries k) (map_contents g.db) v.live (match_is_key g.entries k))
            ∙ zero_count))
    at _ (one_match {r} n rest m p q hit) =
        let alive = found_live g.entries n rest (map_contents g.db) q v.live in
        let (ne, e, here, order) = live_node g.entries n alive in
        let same =
          eq_of_bytes_eq e.key k (
            sym (key_is-at g.entries k n e here)
            ∙ (sym (match_is_key g.entries k n alive) ∙ hit)) in
        located r n rest e (reordered g r v m p) p (Perm.trans q (Perm.symm p)) ne here same

pub view-absent :
    (g : GData) (k : Bytes) → count_p (key_is g.entries k) (map_contents g.db) ≡ 0 → view g k ≡ none
unfolding view
view-absent g k h = rw (ptr_of-none (key_is g.entries k) (map_contents g.db) h) refl

-- where the node of the key is, its address is that of the view
pub address-located :
    (g : GData) (k : Bytes) (n : HNode Ptr) (rest : List (HNode Ptr)) (e : Entry)
    → IsKeyspace g
    → Perm (n ∷ rest) (map_contents g.db)
    → g.entries n.payload ≡ some e
    → e.key ≡ k
    → address g k ≡ n.payload
unfolding ptr_of
address-located g k n rest e v p at same =
    let hit : key_is g.entries k n ≡ true =
      key_is-at g.entries k n e at ∙ (ap (λ s. bytes_eq s k) same ∙ bytes_eq_refl k) in
    sym (
      ptr_of-perm (key_is g.entries k)
        (omega (arith, count_p-perm (key_is g.entries k) p, v.alone k)) p)
    ∙ rw hit refl

pub at_address-some :
    (es : Store) (p : Ptr) (e : Entry) → p ≢ null → es p ≡ some e → at_address es p ≡ some e
at_address-some es p e ne at = let live : (p == null) ≡ false = ground (arith, ne) in rw live at

pub view-located :
    (g : GData) (k : Bytes) (n : HNode Ptr) (rest : List (HNode Ptr)) (e : Entry)
    → IsKeyspace g
    → Perm (n ∷ rest) (map_contents g.db)
    → n.payload ≢ null
    → g.entries n.payload ≡ some e
    → e.key ≡ k
    → view g k ≡ some e
unfolding view
view-located g k n rest e v p ne at same =
    ap (at_address g.entries) (address-located g k n rest e v p at same)
    ∙ at_address-some g.entries n.payload e ne at

pub key_is-none :
    (es : Store) (k : Bytes) (n : HNode Ptr) → es n.payload ≡ none → key_is es k n ≡ false
unfolding key_is
key_is-none es k n at = rw (key_is, at) refl

-- the address of a key is null, or that of a live entry with the key
pub address-cases :
    (es : Store) (k : Bytes) (ns : List (HNode Ptr))
    → (ptr_of (key_is es k) ns ≡ null)
      ⊎ ((e : Entry) × (es (ptr_of (key_is es k) ns) ≡ some e) × (e.key ≡ k))
address-cases es k ns = elim (ptr_of-some (key_is es k) ns) [
  | inl h ↦ inl (ptr_of-none (key_is es k) ns h)
  | inr (n, hit, at, _) ↦ elim (Option-cases (es n.payload)) [
    | inl e ↦ absurd (true_not_false (sym hit ∙ key_is-none es k n e))
    | inr (x, e) ↦ inr (x, ap es at ∙ e, eq_of_bytes_eq x.key k (sym (key_is-at es k n x e) ∙ hit))
  ]
]

-- the view does not depend on the timers
pub view-timers :
    (g : GData) (m : HeapMem) (k : Bytes) → view (record g { timers = m }) k ≡ view g k
unfolding view
view-timers g m k = refl
