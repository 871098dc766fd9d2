-- ===== src/Zset/Tests.antt =====
-- Two members, "a" below "b".
use cand_cppwith_linux.Base.{
  ◌≡◌, ℕ, refl, true, false, Option, none, some, [], ◌∷◌, ok, ap, sym, ◌∙◌, arith, ◌==◌,
  if◌then◌else◌,
}
use cand_cppwith_linux.Memory.{Mem, Ends}
use cand_cppwith_linux.Avl.{AvlNode}
use cand_cppwith_linux.Avl.Tree.{Tree, leaf, node, inorder}
use cand_cppwith_linux.Avl.Shape.{IsTree}
use cand_cppwith_linux.Zset.{ZNode, ZNodes, zless, dbl_rank, dbl_same, zset_query, tree_add}
use cand_cppwith_linux.Zset.Order.{before, the_tuple, zless-before, zless-orders}
use cand_cppwith_linux.Zset.Add.{Added, tree_add-Added}
use cand_cppwith_linux.Zset.Query.{IsSorted, is_less, first_from, zset_query-first}

-- 1.0 and 2.0
abbrev one : ℕ
one = 0x3FF0000000000000

abbrev two : ℕ
two = 0x4000000000000000

abbrev member_a : ZNode
member_a = record { score = one; name = 97 ∷ [] }

abbrev member_b : ZNode
member_b = record { score = two; name = 98 ∷ [] }

abbrev members : ZNodes
members a = if a == 1 then some member_a else if a == 2 then some member_b else none

abbrev two_nodes : Mem AvlNode
two_nodes a =
    if a == 2
    then some (record { depth = 2; cnt = 2; left = 1; right = 0; parent = 0 })
    else if a == 1
    then some (record { depth = 1; cnt = 1; left = 0; right = 0; parent = 2 })
    else none

abbrev two_tree : Tree
two_tree = node (node leaf 1 leaf) 2 leaf

two_nodes-IsTree : IsTree two_nodes 0 two_tree
two_nodes-IsTree = (ground arith, refl, (ground arith, refl, tt, tt), tt)

a_before_b : before member_a member_b ≡ true
unfolding dbl_rank
a_before_b = refl

some_inj : {x y : ZNode} → some x ≡ some y → x ≡ y
some_inj {x} e = ap (λ (o : Option ZNode). elim o [ none ↦ x | some z ↦ z ]) e

members-IsSorted : IsSorted members (inorder two_tree)
members-IsSorted = (
  (
    (λ x y e e'.
        ap (λ z. before z y) (sym (some_inj e))
        ∙ (ap (before member_a) (sym (some_inj e')) ∙ a_before_b)),
    tt,
  ),
  (tt, tt),
)

-- the first member that is not below the pair of 1.0 and "b"
zset_query-first_example :
    zset_query members 3 2 one (98 ∷ []) two_nodes
    ≡ ok (first_from (is_less members (the_tuple one (98 ∷ []))) 0 (1 ∷ 2 ∷ []), two_nodes)
zset_query-first_example =
    zset_query-first members 3 two_tree one (98 ∷ []) two_nodes (omega arith) (omega arith)
      two_nodes-IsTree ((member_a, refl, omega arith), ((member_b, refl, omega arith), tt))
      members-IsSorted

zless-before_example :
    zless members 1 two (98 ∷ []) ≡ ok (before member_a (the_tuple two (98 ∷ [])))
zless-before_example =
    zless-before members 1 member_a two (98 ∷ []) refl (omega arith) (omega arith)

zless-orders_example :
    (zless members 1 one (97 ∷ []) ≡ ok false)
    × (zless members 1 two (98 ∷ []) ≡ ok true
        → zless members 2 one (97 ∷ []) ≡ ok true
        → zless members 1 one (97 ∷ []) ≡ ok true)
    × (zless members 1 two (98 ∷ []) ≡ ok false
        → zless members 2 one (97 ∷ []) ≡ ok false
        → (dbl_same one two ≡ true) × (member_a.name ≡ member_b.name))
zless-orders_example =
    zless-orders members 1 2 1 member_a member_b member_a refl refl refl (omega arith) (omega arith)
      (omega arith)

-- the members "a", "b" and "c", and the nodes of which the third is not in the tree
abbrev member_c : ZNode
member_c = record { score = two; name = 99 ∷ [] }

abbrev three_members : ZNodes
three_members a = if a == 3 then some member_c else members a

abbrev three_nodes : Mem AvlNode
three_nodes a =
    if a == 3
    then some (record { depth = 1; cnt = 1; left = 0; right = 0; parent = 0 })
    else two_nodes a

three_nodes-IsTree : IsTree three_nodes 0 two_tree
three_nodes-IsTree = (ground arith, refl, (ground arith, refl, tt, tt), tt)

three_members-IsSorted : IsSorted three_members (inorder two_tree)
three_members-IsSorted = members-IsSorted

tree_add-Added_example :
    Ends (Added three_members member_c 3 two_tree) (tree_add three_members 3 2 3 three_nodes)
tree_add-Added_example =
    tree_add-Added three_members 3 two_tree 3 member_c three_nodes refl (omega arith) (omega arith)
      three_nodes-IsTree (refl, refl, (λ a m. refl), (refl, refl, (λ a m. refl), tt, tt), tt)
      (omega arith, omega arith, (omega arith, omega arith, tt, tt), tt) (omega arith)
      ((member_a, refl, omega arith), ((member_b, refl, omega arith), tt)) three_members-IsSorted
      refl (record { ne = ground arith; old_depth = 1; old_cnt = 1; at = refl })
