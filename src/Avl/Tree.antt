-- ===== src/Avl/Tree.antt =====
-- The abstract view of the intrusive tree: shapes of node addresses, a position in a tree, and the
-- rebalancing of a tree along the path from a position to the root.
use cand_cppwith_linux.Base.{
  ℕ, suc, ◌+◌, Bool, false, ◌||◌, List, [], ◌∷◌, ◌++◌, max, ltb, ◌==◌, if◌then◌else◌,
}
use cand_cppwith_linux.Memory.{Ptr, null}

pub data Tree : Type 0 where
  leaf : Tree
  node : Tree → Ptr → Tree → Tree

abbrev pub height : Tree → ℕ
height leaf = 0
height (node l p r) = suc (max (height l) (height r))

abbrev pub size : Tree → ℕ
size leaf = 0
size (node l p r) = suc (size l + size r)

-- the pointer to the root
abbrev pub root : Tree → Ptr
root leaf = null
root (node l p r) = p

-- the addresses in the order of the tree
abbrev pub inorder : Tree → List Ptr
inorder leaf = []
inorder (node l p r) = inorder l ++ (p ∷ inorder r)

abbrev pub has : Ptr → Tree → Bool
has a leaf = false
has a (node l p r) = (a == p) || (has a l || has a r)

abbrev pub rotate_left : Tree → Tree
rotate_left (node a p (node b q c)) = node (node a p b) q c
rotate_left t = t

abbrev pub rotate_right : Tree → Tree
rotate_right (node (node a q b) p c) = node a q (node b p c)
rotate_right t = t

-- rotate the left subtree first if its right side is the deeper one
abbrev pub prepare_left : Tree → Tree
prepare_left leaf = leaf
prepare_left (node a q b) =
    if ltb (height a) (height b) then rotate_left (node a q b) else node a q b

abbrev pub prepare_right : Tree → Tree
prepare_right leaf = leaf
prepare_right (node b q c) =
    if ltb (height c) (height b) then rotate_right (node b q c) else node b q c

unfoldable pub balance : Tree → Ptr → Tree → Tree
balance l p r =
    if height l == height r + 2
    then rotate_right (node (prepare_left l) p r)
    else if height l + 2 == height r
    then rotate_left (node l p (prepare_right r))
    else node l p r

-- The way from a subtree up to the root: the parent, its other subtree, and the way from there.
pub data Ctx : Type 0 where
  top : Ctx
  left_of : Ptr → Tree → Ctx → Ctx
  right_of : Tree → Ptr → Ctx → Ctx

abbrev pub parent_of : Ctx → Ptr
parent_of top = null
parent_of (left_of p r up) = p
parent_of (right_of l p up) = p

-- the whole tree with `t` at the position
abbrev pub plug : Tree → Ctx → Tree
plug t top = t
plug t (left_of p r up) = plug (node t p r) up
plug t (right_of l p up) = plug (node l p t) up

-- the whole tree, rebalanced at every node above the position
unfoldable pub fix_up : Tree → Ctx → Tree
fix_up t top = t
fix_up t (left_of p r up) = fix_up (balance t p r) up
fix_up t (right_of l p up) = fix_up (balance l p t) up

abbrev pub ctx_depth : Ctx → ℕ
ctx_depth top = 0
ctx_depth (left_of p r up) = suc (ctx_depth up)
ctx_depth (right_of l p up) = suc (ctx_depth up)

abbrev pub ctx_has : Ptr → Ctx → Bool
ctx_has a top = false
ctx_has a (left_of p r up) = (a == p) || (has a r || ctx_has a up)
ctx_has a (right_of l p up) = (a == p) || (has a l || ctx_has a up)

abbrev pub ctx_size : Ctx → ℕ
ctx_size top = 0
ctx_size (left_of p r up) = suc (size r + ctx_size up)
ctx_size (right_of l p up) = suc (size l + ctx_size up)
