-- ===== src/Zset/Lookup.antt =====
-- zset_lookup finds the member with a name.
use cand_cppwith_linux.Base.{
  ◌≡◌, ◌≢◌, refl, sym, ap, ◌∙◌, Bool, true, false, Bool-cases, Option-cases, inl, inr, not, ◌&&◌,
  Option, some, none, List, [], ◌∷◌, Run, ok, arith, ltb, ◌==◌, ==_iff, length, Perm, Returns,
  returns, Returns-bind,
}
use cand_cppwith_linux.Base.Count.{count_p, count_p-perm}
use cand_cppwith_linux.Memory.{Ptr, null}
use cand_cppwith_linux.Wire.{Bytes, str_hash}
use cand_cppwith_linux.HashTable.{HNode, HMap}
use cand_cppwith_linux.HashTable.Slots.{is_match}
use cand_cppwith_linux.HashTable.Map.{map_contents, IsMap}
use cand_cppwith_linux.HashTable.Find.{Found, no_match, one_match, hm_lookup-Found}
use cand_cppwith_linux.Keyspace.{bytes_eq}
use cand_cppwith_linux.Keyspace.Find.{count_p-agree, count_p-head}
use cand_cppwith_linux.Keyspace.View.{eq_of_bytes_eq}
use cand_cppwith_linux.Zset.{ZNode, ZNodes, Sign, zero_sign, memcmp, hcmp, zset_lookup}

-- the node holds no member, or not the hash value of its name
unfoldable pub is_stray : ZNodes → HNode Ptr → Bool
is_stray zs n = elim (zs n.payload) [ none ↦ true | some z ↦ not (n.hcode == str_hash z.name) ]

-- the node of a member with the name
unfoldable pub is_named : ZNodes → Bytes → HNode Ptr → Bool
is_named zs name n = elim (zs n.payload) [ none ↦ false | some z ↦ bytes_eq z.name name ]

abbrev is_zero : Run Sign → Bool
is_zero r = elim r [ ok zero_sign ↦ true | _ ↦ false ]

memcmp-bytes_eq :
    (s t : Bytes) → length s ≡ length t → is_zero (memcmp (length s) s t) ≡ bytes_eq s t
unfolding memcmp bytes_eq
memcmp-bytes_eq [] [] h = refl
memcmp-bytes_eq [] (b ∷ t) h = absurd (omega (arith, h))
memcmp-bytes_eq (a ∷ s) [] h = absurd (omega (arith, h))
memcmp-bytes_eq (a ∷ s) (b ∷ t) h = elim (Bool-cases (ltb a b)) [
  | inl e ↦ let apart : (a == b) ≡ false = ground (arith, e) in rw (e, apart) refl
  | inr e ↦ elim (Bool-cases (ltb b a)) [
    | inl f ↦ let apart : (a == b) ≡ false = ground (arith, f) in rw (e, f, apart) refl
    | inr f ↦
        let same : (a == b) ≡ true = ground (arith, e, f) in
        rw (e, f, same) (memcmp-bytes_eq s t (omega (arith, h)))
  ]
]

bytes_eq-length : (s t : Bytes) → (length s == length t) ≡ false → bytes_eq s t ≡ false
unfolding bytes_eq
bytes_eq-length s t h = elim (Bool-cases (bytes_eq s t)) [
  | inl e ↦ let same = ap length (eq_of_bytes_eq s t e) in absurd (ground (arith, same, h))
  | inr e ↦ e
]

hcmp-named :
    (zs : ZNodes) (name : Bytes) (n key : HNode Ptr) (z : ZNode)
    → zs n.payload ≡ some z
    → hcmp zs name n key ≡ bytes_eq z.name name
unfolding hcmp
hcmp-named zs name n key z at =
    rw (hcmp, at)
      (elim (Bool-cases (length z.name == length name)) [
        | inl e ↦ rw e (memcmp-bytes_eq (z.name) name (ground arith))
        | inr e ↦ rw (e, bytes_eq-length (z.name) name e) refl
      ])

-- a node that is in order
held :
    (zs : ZNodes) (n : HNode Ptr)
    → is_stray zs n ≡ false
    → (z : ZNode) × (zs n.payload ≡ some z) × (n.hcode ≡ str_hash z.name)
unfolding is_stray
held zs n h = elim (Option-cases (zs n.payload)) [
  | inl e ↦ absurd (ground (arith, e, h))
  | inr (z, e) ↦ (z, e, ground (arith, e, h))
]

is_named-at :
    (zs : ZNodes) (name : Bytes) (n : HNode Ptr) (z : ZNode)
    → zs n.payload ≡ some z
    → is_named zs name n ≡ bytes_eq z.name name
unfolding is_named
is_named-at zs name n z at = rw (is_named, at) refl

and_same : (a b : Bool) → (b ≡ true → a ≡ true) → (a && b) ≡ b
and_same true b h = refl
and_same false true h = h refl
and_same false false h = refl

abbrev key_of : Bytes → HNode Ptr
key_of name = record { hcode = str_hash name; payload = null }

match-named :
    (zs : ZNodes) (name : Bytes) (n : HNode Ptr)
    → is_stray zs n ≡ false
    → is_match (hcmp zs name) (key_of name) n ≡ is_named zs name n
match-named zs name n h =
    let (z, at, hash) = held zs n h in
    ap (λ b. (n.hcode == str_hash name) && b) (hcmp-named zs name n (key_of name) z at)
    ∙ (and_same (n.hcode == str_hash name) (bytes_eq z.name name) (λ t.
          (==_iff n.hcode (str_hash name)).1 (hash ∙ ap str_hash (eq_of_bytes_eq z.name name t)))
        ∙ sym (is_named-at zs name n z at))

-- The set keeps its nodes, and the answer is none, if no node of the map is of a member with the
-- name, or the member of a node of the map, and it has the name.
pub data LookedUp (zs : ZNodes) (hmap : HMap Ptr) (name : Bytes)
    : Option Ptr × HMap Ptr → Type 0 where
  missing :
      (m : HMap Ptr)
      → IsMap m
      → Perm (map_contents m) (map_contents hmap)
      → count_p (is_named zs name) (map_contents hmap) ≡ 0
      → LookedUp zs hmap name (none, m)
  member :
      (m : HMap Ptr) (n : HNode Ptr) (rest : List (HNode Ptr)) (z : ZNode)
      → IsMap m
      → Perm (map_contents m) (map_contents hmap)
      → Perm (n ∷ rest) (map_contents hmap)
      → zs n.payload ≡ some z
      → z.name ≡ name
      → LookedUp zs hmap name (some n.payload, m)

-- In a set that is not empty, whose map is in order and has only nodes of members with the hash
-- values of their names, zset_lookup ends without a fault, keeps the nodes of the map, and returns the
-- member of a node of the map that has the name, or none exactly if no such node is in the map.
pub zset_lookup-LookedUp :
    (zs : ZNodes) (tree : Ptr) (hmap : HMap Ptr) (name : Bytes)
    → tree ≢ null
    → IsMap hmap
    → count_p (is_stray zs) (map_contents hmap) ≡ 0
    → Returns (LookedUp zs hmap name) (zset_lookup zs tree hmap name)
unfolding zset_lookup
zset_lookup-LookedUp zs tree hmap name busy v tidy =
    let live : (tree == null) ≡ false = ground (arith, busy) in
    rw live
      (Returns-bind (hm_lookup-Found (key_of name) (hcmp zs name) hmap v) λ r f. returns (at r f))
  where
    at :
        (r : Option (HNode Ptr) × HMap Ptr)
        → Found (key_of name) (hcmp zs name) hmap r
        → LookedUp zs hmap name (elim (r.0) [ none ↦ none | some n ↦ some n.payload ], r.1)
    at _ (no_match {r} m p zero_count) = missing r m p (
        sym (
          count_p-agree (is_stray zs) (is_match (hcmp zs name) (key_of name)) (is_named zs name)
            (map_contents hmap) tidy (match-named zs name))
        ∙ zero_count)
    at _ (one_match {r} n rest m p q hit) =
        let own = ordered n rest q in
        let (z, here, hash) = held zs n own in
        member r n rest z m p q here (
          eq_of_bytes_eq z.name name
            (sym (is_named-at zs name n z here) ∙ (sym (match-named zs name n own) ∙ hit)))
      where
        ordered :
            (n : HNode Ptr) (rest : List (HNode Ptr))
            → Perm (n ∷ rest) (map_contents hmap)
            → is_stray zs n ≡ false
        ordered n rest q = elim (Bool-cases (is_stray zs n)) [
          | inr e ↦ e
          | inl e ↦ absurd (
              omega
                (arith, count_p-perm (is_stray zs) q, count_p-head (is_stray zs) n rest e, tidy))
        ]
