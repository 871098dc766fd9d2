-- ===== src/Keyspace/Add.antt =====
-- do_set, and the entries that the commands add.
use mathlib.Core.Path.{fun_ext, subst}
use cand_cppwith_linux.Base.{
  ℕ, ◌≤◌, ◌≡◌, ◌≢◌, refl, sym, ap, ◌∙◌, ◌⊎◌, inl, inr, Bool-cases, Bool, true, false, Option, none,
  some, List, [], ◌∷◌, arith, ◌==◌, ==_iff, if◌then◌else◌,
}
use cand_cppwith_linux.Base.Count.{to_nat, count_p, count_p-perm}
use cand_cppwith_linux.Memory.{Ptr, null, write}
use cand_cppwith_linux.HashTable.{HNode, HMap}
use cand_cppwith_linux.HashTable.Map.{map_contents}
use cand_cppwith_linux.HashTable.Insert.{Added}
use cand_cppwith_linux.Heap.{HeapMem, no_index, write_cell}
use cand_cppwith_linux.Ttl.{deadline}
use cand_cppwith_linux.Ttl.Deadline.{IsValid}
use cand_cppwith_linux.Wire.{Bytes, str_hash}
use cand_cppwith_linux.Keyspace.{Entry, GData, bytes_eq, new_entry}
use cand_cppwith_linux.Keyspace.Find.{
  ptr_of, ptr_of-perm, count_p-agree, count_p-head, count_p-skip,
}
use cand_cppwith_linux.Keyspace.View.{
  Store, IsKeyspace, view, at_address, key_is, is_dead, is_at, in_order, live_node, key_is-at,
  address-cases, at_address-some, eq_of_bytes_eq,
}
use cand_cppwith_linux.Keyspace.Read.{timed_item, deadline_timed}
use cand_cppwith_linux.Keyspace.Set.{SetsKey, write-same, write-other}

count_p-false : {A : Type 0} (ns : List A) → count_p (λ _. false) ns ≡ 0
unfolding count_p
count_p-false [] = refl
count_p-false (n ∷ ns) = omega (arith, count_p-false ns)

alive_elsewhere :
    (es : Store) (p : Ptr) (n : HNode Ptr) → es p ≡ none → is_dead es n ≡ false → n.payload ≢ p
alive_elsewhere es p n free alive e =
    let (_, x, at, _) = live_node es n alive in
    let f : none ≡ some x = sym free ∙ (ap es (sym e) ∙ at) in cc

-- an address at which nothing lives is in no timer
pub untimed :
    (g : GData) (p : Ptr)
    → IsKeyspace g
    → g.entries p ≡ none
    → (deadline g.timers p ≡ none) × (count_p (is_at p) (map_contents g.db) ≡ 0)
untimed g p v free =
    let nowhere : count_p (is_at p) (map_contents g.db) ≡ 0 =
      count_p-agree (is_dead g.entries) (is_at p) (λ _. false) (map_contents g.db) v.live
        (λ n alive. let apart = alive_elsewhere g.entries p n free alive in ground arith)
      ∙ count_p-false (map_contents g.db) in
    elim (v.owned p) [ inl e ↦ (e, nowhere) | inr e ↦ absurd (omega (arith, e, nowhere)) ]

cell_idle :
    (m : HeapMem) (p : Ptr)
    → IsValid m
    → deadline m p ≡ none
    → write_cell (m.cell) p no_index ≡ m.cell
unfolding write_cell
cell_idle m p v off = fun_ext λ a. elim (timed_item m p v) [
  | inl e ↦ elim (Bool-cases (a == p)) [
    | inl t ↦ let here : a ≡ p = (==_iff a p).0 t in rw t (sym (ap (m.cell) here ∙ e))
    | inr f ↦ rw f refl
  ]
  | inr (x, at, on) ↦ absurd (none_some (sym off ∙ deadline_timed m p x at on))
]
  where
    none_some : {n : ℕ} → none ≡ some n → ⊥
    none_some e = cc

module _ (es : Store) (p : Ptr) (ent : Entry) (free : es p ≡ none) where
  dead_after : (n : HNode Ptr) → is_dead es n ≡ false → is_dead (write es p ent) n ≡ is_dead es n
  unfolding is_dead
  dead_after n alive =
      let (ne, x, at, order) = live_node es n alive in
      rw (write-other es p n.payload ent (alive_elsewhere es p n free alive)) refl

  key_after :
      (k : Bytes) (n : HNode Ptr)
      → is_dead es n ≡ false
      → key_is (write es p ent) k n ≡ key_is es k n
  unfolding key_is
  key_after k n alive =
      ap (λ (o : Option Entry). elim o [ none ↦ false | some x ↦ bytes_eq x.key k ])
        (write-other es p n.payload ent (alive_elsewhere es p n free alive))

pub ptr_of-agree :
    (bad f g : HNode Ptr → Bool) (ns : List (HNode Ptr))
    → count_p bad ns ≡ 0
    → ((n : HNode Ptr) → bad n ≡ false → f n ≡ g n)
    → ptr_of f ns ≡ ptr_of g ns
unfolding ptr_of count_p
ptr_of-agree bad f g [] h e = refl
ptr_of-agree bad f g (n ∷ ns) h e = elim (Bool-cases (bad n)) [
  | inl b ↦ absurd (omega (arith, h, ap to_nat b))
  | inr b ↦ rw (e n b, ptr_of-agree bad f g ns (omega (arith, h, ap to_nat b)) e) refl
]

new_alive :
    (es : Store) (k : Bytes) (p : Ptr) (ent : Entry)
    → p ≢ null
    → in_order (record { hcode = str_hash k; payload = p }) ent ≡ true
    → is_dead (write es p ent) (record { hcode = str_hash k; payload = p }) ≡ false
unfolding is_dead
new_alive es k p ent ne order =
    let live : (p == null) ≡ false = ground (arith, ne) in
    rw (live, write-same es p p ent refl, order) refl

-- what lives at the address of a key is not the new entry
view_before :
    (es : Store) (k : Bytes) (p : Ptr) (ent : Entry) (ns : List (HNode Ptr))
    → es p ≡ none
    → at_address (write es p ent) (ptr_of (key_is es k) ns)
      ≡ at_address es (ptr_of (key_is es k) ns)
view_before es k p ent ns free = elim (address-cases es k ns) [
  | inl z ↦ rw z refl
  | inr (x, found, _) ↦
      let apart : ptr_of (key_is es k) ns ≢ p =
        λ e. no_entry (sym free ∙ (ap es (sym e) ∙ found)) in
      ap (λ o. if ptr_of (key_is es k) ns == null then none else o)
        (write-other es p (ptr_of (key_is es k) ns) ent apart)
]
  where
    no_entry : {x : Entry} → none ≡ some x → ⊥
    no_entry e = cc

module _ (g : GData) (k : Bytes) (p : Ptr) (ent : Entry) (db : HMap Ptr) (v : IsKeyspace g)
    (ne : p ≢ null) (free : g.entries p ≡ none)
    (fresh : count_p (key_is g.entries k) (map_contents g.db) ≡ 0) (same : ent.key ≡ k) where
  abbrev node : HNode Ptr
  node = record { hcode = str_hash k; payload = p }

  abbrev after : Store
  after = write g.entries p ent

  -- the contents with the new node
  abbrev all : List (HNode Ptr)
  all = node ∷ map_contents g.db

  own_key : (k' : Bytes) → key_is after k' node ≡ bytes_eq k k'
  own_key k' =
      key_is-at after k' node ent (write-same g.entries p p ent refl) ∙ ap (λ s. bytes_eq s k') same

  old_count :
      (k' : Bytes)
      → count_p (key_is after k') (map_contents g.db)
        ≡ count_p (key_is g.entries k') (map_contents g.db)
  old_count k' =
      count_p-agree (is_dead g.entries) (key_is after k') (key_is g.entries k') (map_contents g.db)
        v.live (key_after g.entries p ent free k')

  alone_after : (k' : Bytes) → count_p (key_is after k') all ≤ 1
  alone_after k' = elim (Bool-cases (bytes_eq k k')) [
    | inl e ↦
        let none_else =
          ap (λ s. count_p (key_is g.entries s) (map_contents g.db)) (sym (eq_of_bytes_eq k k' e))
          ∙ fresh in
        omega (
          arith,
          count_p-head (key_is after k') node (map_contents g.db) (own_key k' ∙ e),
          old_count k',
          none_else,
        )
    | inr e ↦ omega (
      arith,
      count_p-skip (key_is after k') node (map_contents g.db) (own_key k' ∙ e),
      old_count k',
      v.alone k',
    )
  ]

  owned_after : (r : Ptr) → (deadline g.timers r ≡ none) ⊎ (count_p (is_at r) all ≡ 1)
  owned_after r =
      let (off, _) = untimed g p v free in
      elim (v.owned r) [
        | inl e ↦ inl e
        | inr e ↦ elim (Bool-cases (p == r)) [
          | inl t ↦ inl (ap (deadline g.timers) (sym ((==_iff p r).0 t)) ∙ off)
          | inr f ↦ inr (count_p-skip (is_at r) node (map_contents g.db) f ∙ e)
        ]
      ]

  view-after :
      (k' : Bytes)
      → at_address after (ptr_of (key_is after k') all)
        ≡ (if bytes_eq k k' then some ent else view g k')
  unfolding view ptr_of
  view-after k' = elim (Bool-cases (bytes_eq k k')) [
    | inl e ↦
        rw (own_key k', e) (at_address-some after p ent ne (write-same g.entries p p ent refl))
    | inr e ↦
        let rest =
          ptr_of-agree (is_dead g.entries) (key_is after k') (key_is g.entries k')
            (map_contents g.db) v.live (key_after g.entries p ent free k') in
        rw (own_key k', e, rest) (view_before g.entries k' p ent (map_contents g.db) free)
  ]

  -- a new entry is in no timer, and its heap_idx says so
  pub new_entry-timers : (new_entry g p ent).timers ≡ g.timers
  unfolding new_entry
  new_entry-timers =
      let (off, _) = untimed g p v free in
      ap (λ c. record (g.timers) { cell = c }) (cell_idle g.timers p v.timers off)

  -- the key space with a new entry of the key `k` at the address `p`
  pub add-SetsKey :
      in_order node ent ≡ true
      → Added g.db node db
      → SetsKey g k (some ent) (record (new_entry g p ent) { db = db })
  unfolding view new_entry
  add-SetsKey order added =
      let timers_same : record (g.timers) { cell = write_cell (g.timers.cell) p no_index }
          ≡ g.timers =
        new_entry-timers in
      let alive = new_alive g.entries k p ent ne order in
      record {
        valid = record {
          map = added.valid;
          live =
              count_p-perm (is_dead after) added.adds
              ∙ (count_p-skip (is_dead after) node (map_contents g.db) alive
                  ∙ (count_p-agree (is_dead g.entries) (is_dead after) (is_dead g.entries)
                        (map_contents g.db) v.live (dead_after g.entries p ent free)
                      ∙ v.live));
          alone = λ k'. omega (arith, count_p-perm (key_is after k') added.adds, alone_after k');
          timers = subst IsValid (sym timers_same) v.timers;
          owned = λ r. elim (owned_after r) [
            | inl e ↦ inl (ap (λ m. deadline m r) timers_same ∙ e)
            | inr e ↦ inr (count_p-perm (is_at r) added.adds ∙ e)
          ];
        };
        views = λ k'.
            ap (at_address after) (
              ptr_of-perm (key_is after k')
                (omega (arith, count_p-perm (key_is after k') added.adds, alone_after k'))
                added.adds)
            ∙ view-after k';
      }
