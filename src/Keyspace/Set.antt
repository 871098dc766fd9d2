-- ===== src/Keyspace/Set.antt =====
-- A write to the value of an entry of the key space.
use cand_cppwith_linux.Base.{
  ◌≡◌, ◌≢◌, refl, sym, ap, ◌∙◌, inl, inr, Bool-cases, true, false, Option, none, some, List, ◌∷◌,
  Perm, arith, ◌==◌, ==_iff, if◌then◌else◌,
}
use cand_cppwith_linux.Memory.{Ptr, null, write}
use cand_cppwith_linux.HashTable.{HNode}
use cand_cppwith_linux.HashTable.Map.{map_contents}
use cand_cppwith_linux.Wire.{Bytes}
use cand_cppwith_linux.Keyspace.{Entry, GData, bytes_eq}
use cand_cppwith_linux.Keyspace.Find.{ptr_of, ptr_of-ext, count_p-ext}
use cand_cppwith_linux.Keyspace.View.{
  Store, IsKeyspace, view, at_address, key_is, is_dead, in_order, key_is-at, address-cases,
  address-located, true_not_false, at_address-some, bytes_eq_refl, eq_of_bytes_eq,
}

-- `g'` is in order and maps the key `k` to `x`, and every other key as `g` does
pub record SetsKey (g : GData) (k : Bytes) (x : Option Entry) (g' : GData) : Type 0 where
  pub valid : IsKeyspace g'
  pub views : (k' : Bytes) → view g' k' ≡ (if bytes_eq k k' then x else view g k')

pub write-same : (es : Store) (p a : Ptr) (e : Entry) → a ≡ p → write es p e a ≡ some e
unfolding write
write-same es p a e h = let t : (a == p) ≡ true = ground arith in rw t refl

pub write-other : (es : Store) (p a : Ptr) (e : Entry) → a ≢ p → write es p e a ≡ es a
unfolding write
write-other es p a e h = let t : (a == p) ≡ false = ground arith in rw t refl

-- an entry that keeps the key, the type and the sorted set
abbrev pub SameShape : Entry → Entry → Type 0
SameShape e e' = (e'.key ≡ e.key) × (e'.type ≡ e.type) × (e'.zset ≡ e.zset)

in_order-same : (n : HNode Ptr) (e e' : Entry) → SameShape e e' → in_order n e' ≡ in_order n e
unfolding in_order
in_order-same n e e' (k, t, z) = rw (k, t, z) refl

module _ (es : Store) (p : Ptr) (ent ent' : Entry) (at : es p ≡ some ent)
    (shape : SameShape ent ent') where
  is_dead-write : (n : HNode Ptr) → is_dead (write es p ent') n ≡ is_dead es n
  unfolding is_dead
  is_dead-write n = elim (Bool-cases (n.payload == p)) [
    | inl e ↦
        let here : n.payload ≡ p = (==_iff n.payload p).0 e in
        rw (write-same es p n.payload ent' here, ap es here ∙ at, in_order-same n ent ent' shape)
          refl
    | inr e ↦ rw (write-other es p n.payload ent' (ground arith)) refl
  ]

  key_is-write : (k : Bytes) (n : HNode Ptr) → key_is (write es p ent') k n ≡ key_is es k n
  unfolding key_is
  key_is-write k n = elim (Bool-cases (n.payload == p)) [
    | inl e ↦
        let here : n.payload ≡ p = (==_iff n.payload p).0 e in
        key_is-at (write es p ent') k n ent' (write-same es p n.payload ent' here)
        ∙ (ap (λ s. bytes_eq s k) (shape.0) ∙ sym (key_is-at es k n ent (ap es here ∙ at)))
    | inr e ↦
        ap (λ (o : Option Entry). elim o [ none ↦ false | some x ↦ bytes_eq x.key k ])
          (write-other es p n.payload ent' (ground arith))
  ]

-- what the address of a key leads to after the write
at_address-write :
    (es : Store) (p : Ptr) (ent ent' : Entry) (k k' : Bytes) (ns : List (HNode Ptr))
    → p ≢ null
    → es p ≡ some ent
    → ent.key ≡ k
    → (ptr_of (key_is es k) ns ≡ p)
    → at_address (write es p ent') (ptr_of (key_is es k') ns)
      ≡ (if bytes_eq k k' then some ent' else at_address es (ptr_of (key_is es k') ns))
at_address-write es p ent ent' k k' ns ne at same here = elim (Bool-cases (bytes_eq k k')) [
  | inl e ↦
      let k_same = eq_of_bytes_eq k k' e in
      let there : ptr_of (key_is es k') ns ≡ p =
        ap (λ s. ptr_of (key_is es s) ns) (sym k_same) ∙ here in
      rw e (
        at_address-some (write es p ent') (ptr_of (key_is es k') ns) ent' (λ z. ne (sym there ∙ z))
          (write-same es p (ptr_of (key_is es k') ns) ent' there))
  | inr e ↦ elim (address-cases es k' ns) [
    | inl z ↦ rw (e, z) refl
    | inr (x, found, x_key) ↦
        let apart : ptr_of (key_is es k') ns ≢ p =
          λ z. not_both e (some_inj (sym at ∙ (ap es (sym z) ∙ found))) same x_key in
        rw (e, write-other es p (ptr_of (key_is es k') ns) ent' apart) refl
  ]
]
  where
    not_both : {x : Entry} → bytes_eq k k' ≡ false → ent ≡ x → ent.key ≡ k → x.key ≡ k' → ⊥
    not_both {x} e same_entry ke kx =
        let keys : k ≡ k' = sym ke ∙ (ap Entry.key same_entry ∙ kx) in
        let t = bytes_eq_refl k in true_not_false (sym t ∙ (ap (bytes_eq k) keys ∙ e))

    some_inj : {x y : Entry} → some x ≡ some y → x ≡ y
    some_inj {x} e = ap (λ (o : Option Entry). elim o [ none ↦ x | some z ↦ z ]) e

-- a write to the entry of a key
pub rewrite-SetsKey :
    (g : GData) (k : Bytes) (n : HNode Ptr) (rest : List (HNode Ptr)) (ent ent' : Entry)
    → IsKeyspace g
    → Perm (n ∷ rest) (map_contents g.db)
    → n.payload ≢ null
    → g.entries n.payload ≡ some ent
    → ent.key ≡ k
    → SameShape ent ent'
    → SetsKey g k (some ent') (record g { entries = write g.entries n.payload ent' })
unfolding view
rewrite-SetsKey g k n rest ent ent' v q ne at same shape =
    let es = g.entries in
    let es' = write g.entries n.payload ent' in
    let ns = map_contents g.db in
    let dead = is_dead-write es n.payload ent ent' at shape in
    let keyed = key_is-write es n.payload ent ent' at shape in
    let here = address-located g k n rest ent v q at same in
    record {
      valid = record {
        map = v.map;
        live = count_p-ext (is_dead es') (is_dead es) ns dead ∙ v.live;
        alone = λ k'.
            omega (arith, count_p-ext (key_is es' k') (key_is es k') ns (keyed k'), v.alone k');
        timers = v.timers;
        owned = v.owned;
      };
      views = λ k'.
          ap (at_address es') (ptr_of-ext (key_is es' k') (key_is es k') ns (keyed k'))
          ∙ at_address-write es n.payload ent ent' k k' ns ne at same here;
    }
