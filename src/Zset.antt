-- ===== src/Zset.antt =====
-- ownRedisUsingCpp/zset.h and zset.cpp: the order of the members of a sorted set, the insertion of
-- a member into the tree, and the searches by name and by score and name. The tree is that of Avl
-- and the map that of HashTable; the score and the name of the node at an address are in a store of
-- their own. A score is the bit pattern of a double that is no NaN, as str2dbl admits none.
pub mod Order
pub mod Query
pub mod Place
pub mod Add
pub mod Lookup
mod MapTests
mod Tests
use cand_cppwith_linux.Base.{
  ℕ, zero, suc, ◌+◌, ◌-◌, ◌%◌, ◌^◌, Bool, true, false, not, Option, none, some, List, [], ◌∷◌, Run,
  ok, fault, out_of_fuel, deref, ltb, leb, ◌==◌, if◌then◌else◌, length,
}
use cand_cppwith_linux.Base
use cand_cppwith_linux.Memory.{Ptr, null, Mem, Cmd, pure, ◌>>=◌, ◌>>◌, load}
use cand_cppwith_linux.Wire.{Bytes, u32_mod, str_hash}
use cand_cppwith_linux.HashTable.{HNode, HMap, Callback, hm_lookup}
use cand_cppwith_linux.Avl.{AvlNode, set_child, set_parent, avl_fix}

-- without the nodes of the tree and of the map
pub record ZNode : Type 0 where
  pub score : ℕ
  pub name : Bytes

abbrev pub ZNodes : Type 0
ZNodes = Ptr → Option ZNode

-- where a double stands among all doubles: those with the sign bit count down from zero
unfoldable pub dbl_rank : ℕ → ℕ
dbl_rank d = if leb (2 ^ 63) d then 2 ^ 63 - (d - 2 ^ 63) else 2 ^ 63 + d

-- `==` and `<` of doubles
unfoldable pub dbl_same : ℕ → ℕ → Bool
dbl_same a b = dbl_rank a == dbl_rank b

unfoldable pub dbl_less : ℕ → ℕ → Bool
dbl_less a b = ltb (dbl_rank a) (dbl_rank b)

unfoldable pub min_u32 : ℕ → ℕ → ℕ
min_u32 lhs rhs = (if ltb lhs rhs then lhs else rhs) % u32_mod

-- the sign of the result of memcmp
pub data Sign : Type 0 where
  negative : Sign
  zero_sign : Sign
  positive : Sign

unfoldable pub memcmp : ℕ → Bytes → Bytes → Run Sign
memcmp zero s t = ok zero_sign
memcmp (suc n) (a ∷ s) (b ∷ t) =
    let rest = memcmp n s t in
    if ltb a b then ok negative else if ltb b a then ok positive else rest
memcmp (suc n) _ _ = fault

-- the comparison of the names
unfoldable pub name_less : Bytes → Bytes → Run Bool
name_less zl_name name = elim (memcmp (min_u32 (length zl_name) (length name)) zl_name name) [
  | ok negative ↦ ok true
  | ok positive ↦ ok false
  | ok zero_sign ↦ ok (ltb (length zl_name) (length name))
  | fault ↦ fault
  | out_of_fuel ↦ out_of_fuel
]

unfoldable pub zless : ZNodes → Ptr → ℕ → Bytes → Run Bool
zless zs lhs score name = Base.◌>>=◌ (deref (zs lhs)) λ zl.
    (if not (dbl_same zl.score score) then ok (dbl_less zl.score score) else name_less zl.name name)

-- a run that does not touch the nodes of the tree
unfoldable pub lift : {A : Type 0} → Run A → Cmd AvlNode A
lift (ok a) h = ok (a, h)
lift fault h = fault
lift out_of_fuel h = out_of_fuel

unfoldable pub zless_node : ZNodes → Ptr → Ptr → Run Bool
zless_node zs lhs rhs = Base.◌>>=◌ (deref (zs rhs)) λ zr. zless zs lhs zr.score zr.name

-- the loop of tree_add, with fuel for the rounds: `cur`, and whether `from` is its left field
unfoldable pub add_loop : ZNodes → Ptr → ℕ → Ptr → Bool → Ptr → Cmd AvlNode (Ptr × Bool)
add_loop zs new_node zero cur side next = λ h. out_of_fuel
add_loop zs new_node (suc k) cur side next =
    let deeper : Cmd AvlNode (Ptr × Bool) = (do
      less ← lift (zless_node zs new_node next)
      n ← load next
      let left : Cmd AvlNode (Ptr × Bool) = add_loop zs new_node k next true (n.left)
      let right : Cmd AvlNode (Ptr × Bool) = add_loop zs new_node k next false (n.right)
      if less then left else right) in
    if next == null then pure (cur, side) else deeper

-- `*from = &node->tree; node->tree.parent = cur;`, where the field of the set is written again
unfoldable pub attach : Ptr → Bool → Ptr → Cmd AvlNode (Unit {0})
attach cur side new_node = do
  if cur == null then pure tt else set_child cur side new_node
  set_parent new_node cur

-- the new root
unfoldable pub tree_add : ZNodes → ℕ → Ptr → Ptr → Cmd AvlNode Ptr
tree_add zs fuel tree new_node = do
  (cur, side) ← add_loop zs new_node fuel null false tree
  attach cur side new_node
  avl_fix fuel new_node

-- the node of a member, compared with a name on the stack; memcmp gets names of one length, and its
-- fault on shorter ones, which it then cannot have, counts as a difference
unfoldable pub hcmp : ZNodes → Bytes → Callback Ptr
hcmp zs name node key = elim (zs node.payload) [
  | none ↦ false
  | some znode ↦
      let same : Bool = elim (memcmp (length znode.name) znode.name name) [
        | ok zero_sign ↦ true
        | _ ↦ false
      ] in
      (if not (length znode.name == length name) then false else same)
]

-- the address of the member with the name, if there is one
unfoldable pub zset_lookup : ZNodes → Ptr → HMap Ptr → Bytes → Run (Option Ptr × HMap Ptr)
zset_lookup zs tree hmap name =
    let found : Run (Option Ptr × HMap Ptr) =
      Base.◌>>=◌ (hm_lookup hmap (record { hcode = str_hash name; payload = null }) (hcmp zs name))
        λ (node, hmap'). ok (elim node [ none ↦ none | some n ↦ some n.payload ], hmap') in
    if tree == null then ok (none, hmap) else found

-- the loop of zset_query, with fuel for the rounds
unfoldable pub query_loop : ZNodes → ℕ → Bytes → ℕ → Ptr → Ptr → Cmd AvlNode Ptr
query_loop zs score name zero cur found = λ h. out_of_fuel
query_loop zs score name (suc k) cur found =
    let round : Cmd AvlNode Ptr = (do
      less ← lift (zless zs cur score name)
      n ← load cur
      let right : Cmd AvlNode Ptr = query_loop zs score name k (n.right) found
      let left : Cmd AvlNode Ptr = query_loop zs score name k (n.left) cur
      if less then right else left) in
    if cur == null then pure found else round

-- NULL if no node is found
unfoldable pub zset_query : ZNodes → ℕ → Ptr → ℕ → Bytes → Cmd AvlNode Ptr
zset_query zs fuel tree score name = query_loop zs score name fuel tree null
