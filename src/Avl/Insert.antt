-- ===== src/Avl/Insert.antt =====
-- avl_fix from a new node: the end of an insertion.
use mathlib.Core.Path.{subst}
use cand_cppwith_linux.Base.{ℕ, ◌+◌, ◌<◌, ◌≡◌, refl, arith}
use cand_cppwith_linux.Memory.{Ptr, null, Mem, Ends, Ends-map}
use cand_cppwith_linux.Avl.Tree.{
  Tree, leaf, node, root, inorder, balance, Ctx, parent_of, plug, fix_up, ctx_depth, ctx_size,
}
use cand_cppwith_linux.Avl.{AvlNode, u32_mod, avl_fix}
use cand_cppwith_linux.Avl.Balance.{IsAvl, IsAvlCtx, inorder-fix_up, fix_up-IsAvl}
use cand_cppwith_linux.Avl.Nodes.{IsApart}
use cand_cppwith_linux.Avl.Shape.{IsTree, Links, IsCtx}
use cand_cppwith_linux.Avl.Loop.{avl_fix-Fixed}

-- a valid AVL tree in memory at `q`, with the nodes of `before` in their order
abbrev pub IsInserted : Tree → Ptr → Mem AvlNode → Type 0
IsInserted before q g =
    (t : Tree) × (q ≡ root t) × IsTree g null t × IsAvl t × (inorder t ≡ inorder before)

new_balance : (p : Ptr) → balance leaf p leaf ≡ node leaf p leaf
unfolding balance
new_balance p = refl

-- If a new node is hung at an empty place of an AVL tree and is linked there, avl_fix, with fuel for
-- the levels above it, ends without a fault and returns the root of an AVL tree in which every depth,
-- count and parent pointer is right and all nodes, the new one included, stand in their order.
pub avl_fix-Inserted :
    (k : ℕ) (h : Mem AvlNode) (p : Ptr) (c : Ctx)
    → ctx_depth c < k
    → Links h p null null (parent_of c)
    → IsCtx h p c
    → IsApart (node leaf p leaf) c
    → IsAvlCtx 0 c
    → ctx_size c + 3 < u32_mod
    → Ends (IsInserted (plug (node leaf p leaf) c)) (avl_fix k p h)
avl_fix-Inserted k h p c enough links ctx apart avl small =
    Ends-map
      (avl_fix-Fixed k h leaf p leaf c enough links tt tt ctx (refl, refl, (λ a h. refl), tt, tt)
        apart (omega arith))
      λ q g (e, tree, _). (
        fix_up (node leaf p leaf) c,
        subst (λ u. q ≡ root (fix_up u c)) (new_balance p) e,
        subst (λ u. IsTree g null (fix_up u c)) (new_balance p) tree,
        fix_up-IsAvl (node leaf p leaf) c 0 avl (omega arith, omega arith, tt, tt) (omega arith)
            (omega arith),
        inorder-fix_up (node leaf p leaf) c,
      )
