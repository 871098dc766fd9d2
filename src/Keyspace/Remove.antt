-- ===== src/Keyspace/Remove.antt =====
-- entry_destroy and entry_del: an entry leaves the key space.
use cand_cppwith_linux.Base.{
  ◌≡◌, ◌≢◌, refl, sym, ap, ◌∙◌, ◌⊎◌, inl, inr, Bool-cases, Option-cases, Bool, true, false, not,
  ◌&&◌, ◌||◌, Option, none, some, List, [], ◌∷◌, Perm, ok, arith, ◌==◌, ==_iff, ltb, if◌then◌else◌,
}
use cand_cppwith_linux.Base.Count.{to_nat, count_p, count_p-cons, count_p-perm}
use cand_cppwith_linux.Memory.{Ptr, null}
use cand_cppwith_linux.HashTable.{HNode, HMap, hm_size, is_null}
use cand_cppwith_linux.HashTable.Map.{map_contents, IsMap}
use cand_cppwith_linux.Heap.{HeapMem}
use cand_cppwith_linux.Ttl.{deadline}
use cand_cppwith_linux.Ttl.SetTtl.{SetsDeadline}
use cand_cppwith_linux.Wire.{Bytes, str_hash}
use cand_cppwith_linux.Keyspace.{
  Entry, ZSet, GData, t_zset, bytes_eq, k_large_container_size, entry_destroy, too_big,
}
use cand_cppwith_linux.Keyspace.Find.{
  ptr_of, ptr_of-none, ptr_of-perm, count_p-agree, count_p-head, count_p-skip,
}
use cand_cppwith_linux.Keyspace.View.{
  IsKeyspace, Store, view, address, at_address, key_is, is_at, is_dead, in_order, found_live,
  key_is-at, bytes_eq_refl, eq_of_bytes_eq, address-cases, true_not_false,
}
use cand_cppwith_linux.Keyspace.Set.{SetsKey}
use cand_cppwith_linux.Keyspace.Add.{ptr_of-agree}
use cand_cppwith_linux.Keyspace.Expire.{one_node_at}

zset_there :
    (n : HNode Ptr) (e : Entry)
    → in_order n e ≡ true
    → (e.type == t_zset) ≡ true
    → (z : ZSet) × (e.zset ≡ some z)
unfolding in_order is_null
zset_there n e h t = elim (Option-cases (e.zset)) [
  | inr found ↦ found
  | inl missing ↦
      absurd
        (no (n.hcode == str_hash e.key) (e.type == t_zset) (is_null e.zset) h t (rw missing refl))
]
  where
    no : (a b c : Bool) → (a && (not b || not c)) ≡ true → b ≡ true → c ≡ true → ⊥
    no a b c h t u = ground arith

-- a sorted set with too many members to be freed at once
abbrev pub is_large : Entry → Bool
is_large e = (e.type == t_zset) && (elim (e.zset) [
  | none ↦ false
  | some zset ↦ ltb k_large_container_size (hm_size (zset.hmap))
])

pub too_big-ok : (n : HNode Ptr) (e : Entry) → in_order n e ≡ true → too_big e ≡ ok (is_large e)
unfolding too_big
too_big-ok n e h = elim (Bool-cases (e.type == t_zset)) [
  | inr f ↦ rw f refl
  | inl t ↦ let (z, at) = zset_there n e h t in rw (t, at) refl
]

-- the entries without that at `p`
abbrev pub freed : Store → Ptr → Store
freed es p a = if a == p then none else es a

pub entry_destroy-freed :
    (es : Store) (p : Ptr) (n : HNode Ptr) (e : Entry)
    → es p ≡ some e
    → in_order n e ≡ true
    → entry_destroy es p ≡ ok (freed es p)
unfolding entry_destroy
entry_destroy-freed es p n e at h = elim (Bool-cases (e.type == t_zset)) [
  | inr f ↦ rw (at, f) refl
  | inl t ↦ let (z, there) = zset_there n e h t in rw (at, t, there) refl
]

count_p-or :
    {A : Type 0} (f g : A → Bool) (ns : List A)
    → count_p f ns ≡ 0
    → count_p g ns ≡ 0
    → count_p (λ n. f n || g n) ns ≡ 0
unfolding count_p
count_p-or f g [] h k = refl
count_p-or f g (n ∷ ns) h k = elim (Bool-cases (f n)) [
  | inl e ↦ absurd (omega (arith, h, ap to_nat e))
  | inr e ↦ elim (Bool-cases (g n)) [
    | inl e' ↦ absurd (omega (arith, k, ap to_nat e'))
    | inr e' ↦ rw (e, e') (omega (arith, count_p-or f g ns (omega (arith, h)) (omega (arith, k))))
  ]
]

or_false : (a b : Bool) → (a || b) ≡ false → (a ≡ false) × (b ≡ false)
or_false true b h = absurd (true_not_false h)
or_false false b h = (refl, h)

-- The key space without the entry of the key `k`, at a node `n`, of which the map `db` has the
-- others; the entries `es` agree with those before but at the address of `n`.
module _ (g : GData) (k : Bytes) (n : HNode Ptr) (ent : Entry) (db : HMap Ptr) (es : Store)
    (m : HeapMem) (jobs : List Ptr) (v : IsKeyspace g)
    (perm : Perm (n ∷ map_contents db) (map_contents g.db)) (at : g.entries n.payload ≡ some ent)
    (same : ent.key ≡ k) (elsewhere : (a : Ptr) → a ≢ n.payload → es a ≡ g.entries a) where
  abbrev rest : List (HNode Ptr)
  rest = map_contents db

  -- the nodes that are no matter of `rest`
  abbrev is_out : HNode Ptr → Bool
  is_out x = is_dead g.entries x || is_at n.payload x

  alive : is_dead g.entries n ≡ false
  alive = found_live g.entries n rest (map_contents g.db) perm v.live

  none_dead : count_p (is_dead g.entries) rest ≡ 0
  none_dead = omega (
    arith,
    count_p-perm (is_dead g.entries) perm,
    count_p-skip (is_dead g.entries) n rest alive,
    v.live,
  )

  none_out : count_p is_out rest ≡ 0
  none_out =
      count_p-or (is_dead g.entries) (is_at n.payload) rest none_dead
        (one_node_at g k n rest ent v perm at same).1

  entry_after : (x : HNode Ptr) → is_out x ≡ false → es x.payload ≡ g.entries x.payload
  entry_after x h =
      let (_, off) = or_false (is_dead g.entries x) (is_at n.payload x) h in
      elsewhere x.payload (λ e. true_not_false (sym ((==_iff x.payload n.payload).1 e) ∙ off))

  dead_after : (x : HNode Ptr) → is_out x ≡ false → is_dead es x ≡ is_dead g.entries x
  unfolding is_dead
  dead_after x h =
      ap
        (λ (o : Option Entry).
          (x.payload == null) || (elim o [ none ↦ true | some e ↦ not (in_order x e) ]))
        (entry_after x h)

  key_after :
      (k' : Bytes) (x : HNode Ptr) → is_out x ≡ false → key_is es k' x ≡ key_is g.entries k' x
  unfolding key_is
  key_after k' x h =
      ap (λ (o : Option Entry). elim o [ none ↦ false | some e ↦ bytes_eq e.key k' ])
        (entry_after x h)

  own_key : (k' : Bytes) → key_is g.entries k' n ≡ bytes_eq k k'
  own_key k' = key_is-at g.entries k' n ent at ∙ ap (λ s. bytes_eq s k') same

  -- the address of another key is that of before; the key `k` has none
  address_after : (k' : Bytes) → bytes_eq k k' ≡ false → ptr_of (key_is es k') rest ≡ address g k'
  unfolding ptr_of
  address_after k' f =
      ptr_of-agree is_out (key_is es k') (key_is g.entries k') rest none_out (key_after k')
      ∙ (sym (rw (own_key k' ∙ f) refl ∙ refl)
          ∙ ptr_of-perm (key_is g.entries k')
              (omega (arith, count_p-perm (key_is g.entries k') perm, v.alone k')) perm)

  gone : count_p (key_is es k) rest ≡ 0
  gone =
      let hit = own_key k ∙ bytes_eq_refl k in
      omega (
        arith,
        count_p-agree is_out (key_is es k) (key_is g.entries k) rest none_out (key_after k),
        count_p-head (key_is g.entries k) n rest hit,
        count_p-perm (key_is g.entries k) perm,
        v.alone k,
      )

  view-after :
      (k' : Bytes)
      → at_address es (ptr_of (key_is es k') rest) ≡ (if bytes_eq k k' then none else view g k')
  unfolding view
  view-after k' = elim (Bool-cases (bytes_eq k k')) [
    | inl t ↦
        let none_left = ap (λ s. count_p (key_is es s) rest) (sym (eq_of_bytes_eq k k' t)) ∙ gone in
        rw (t, ptr_of-none (key_is es k') rest none_left) refl
    | inr f ↦
        rw (f, address_after k' f)
          (elim (address-cases g.entries k' (map_contents g.db)) [
            | inl z ↦ rw z refl
            | inr (x, found, x_key) ↦
                let apart : address g k' ≢ n.payload =
                  λ z. other_entry f (sym at ∙ (ap (g.entries) (sym z) ∙ found)) x_key in
                ap (λ o. if address g k' == null then none else o) (elsewhere (address g k') apart)
          ])
  ]
    where
      other_entry : {x : Entry} → bytes_eq k k' ≡ false → some ent ≡ some x → x.key ≡ k' → ⊥
      other_entry {x} f e x_key =
          let keys : k ≡ k' =
            sym same
            ∙ (ap (λ (o : Option Entry). elim o [ none ↦ k | some y ↦ y.key ]) e ∙ x_key) in
          true_not_false (sym (bytes_eq_refl k) ∙ (ap (bytes_eq k) keys ∙ f))

  owned_after :
      SetsDeadline g.timers n.payload none m
      → (r : Ptr) → (deadline m r ≡ none) ⊎ (count_p (is_at r) rest ≡ 1)
  owned_after s r = elim (Bool-cases (r == n.payload)) [
    | inl t ↦ inl (s.deadlines r ∙ rw t refl)
    | inr f ↦ elim (v.owned r) [
      | inl off ↦ inl (s.deadlines r ∙ rw f off)
      | inr one ↦
          let elsewhere_at : is_at r n ≡ false = ground arith in
          inr
            (sym (count_p-skip (is_at r) n rest elsewhere_at) ∙ (count_p-perm (is_at r) perm ∙ one))
    ]
  ]

  pub removed-SetsKey :
      IsMap db
      → SetsDeadline g.timers n.payload none m
      → SetsKey g k none (record { db = db; entries = es; timers = m; jobs = jobs })
  unfolding view
  removed-SetsKey map s = record {
    valid = record {
      map = map;
      live =
          count_p-agree is_out (is_dead es) (is_dead g.entries) rest none_out dead_after
          ∙ none_dead;
      alone = λ k'. omega (
        arith,
        count_p-agree is_out (key_is es k') (key_is g.entries k') rest none_out (key_after k'),
        count_p-cons (key_is g.entries k') n rest,
        count_p-perm (key_is g.entries k') perm,
        v.alone k',
      );
      timers = s.valid;
      owned = owned_after s;
    };
    views = view-after;
  }
