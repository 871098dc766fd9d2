-- ===== src/Avl.antt =====
-- ownRedisUsingCpp/avl.h and avl.cpp: the intrusive AVL tree with parent pointers, over nodes at
-- addresses. A function that takes an `AVLNode *` is a command on that memory; a variable
-- `AVLNode **from` is the choice of a field of the parent.
pub mod Tree
pub mod Balance
pub mod Nodes
pub mod Shape
pub mod RotLeft
pub mod RotRight
pub mod Fix
pub mod Loop
pub mod Insert
mod Tests
use cand_cppwith_linux.Base.{
  ℕ, zero, suc, ◌+◌, ◌-◌, ◌*◌, ◌%◌, ◌^◌, Bool, true, false, ◌&&◌, out_of_fuel, ltb, ◌==◌,
  if◌then◌else◌,
}
use cand_cppwith_linux.Base.Int.{ℤ, pos, ◌+ℤ◌, ◌-ℤ◌, ltb_ℤ, leb_ℤ}
use cand_cppwith_linux.Memory.{Ptr, null, Cmd, pure, ◌>>=◌, ◌>>◌, load, modify}

-- the number of values of a `uint32_t`
abbrev pub u32_mod : ℕ
u32_mod = 2 ^ 32

pub record AvlNode : Type 0 where
  pub depth : ℕ
  pub cnt : ℕ
  pub left : Ptr
  pub right : Ptr
  pub parent : Ptr

unfoldable pub avl_init : Ptr → Cmd AvlNode (Unit {0})
avl_init p = modify p λ _. record { depth = 1; cnt = 1; left = null; right = null; parent = null }

unfoldable pub avl_depth : Ptr → Cmd AvlNode ℕ
avl_depth p = if p == null then pure 0 else do n ← load p; pure (n.depth)

unfoldable pub avl_cnt : Ptr → Cmd AvlNode ℕ
avl_cnt p = if p == null then pure 0 else do n ← load p; pure (n.cnt)

unfoldable pub max_u32 : ℕ → ℕ → ℕ
max_u32 lhs rhs = if ltb lhs rhs then rhs else lhs

unfoldable pub avl_update : Ptr → Cmd AvlNode (Unit {0})
avl_update p = do
  n ← load p
  l ← avl_depth (n.left)
  r ← avl_depth (n.right)
  modify p λ m. record m { depth = (1 + max_u32 l r) % u32_mod }
  a ← avl_cnt (n.left)
  b ← avl_cnt (n.right)
  modify p λ m. record m { cnt = (1 + a + b) % u32_mod }

abbrev pub set_parent : Ptr → Ptr → Cmd AvlNode (Unit {0})
set_parent p q = modify p λ m. record m { parent = q }

abbrev pub set_left : Ptr → Ptr → Cmd AvlNode (Unit {0})
set_left p q = modify p λ m. record m { left = q }

abbrev pub set_right : Ptr → Ptr → Cmd AvlNode (Unit {0})
set_right p q = modify p λ m. record m { right = q }

-- `if (p) p->parent = q;`
unfoldable pub adopt : Ptr → Ptr → Cmd AvlNode (Unit {0})
adopt p q = if p == null then pure tt else set_parent p q

unfoldable pub rot_left : Ptr → Cmd AvlNode Ptr
rot_left p = do
  n ← load p
  let q = n.right
  m ← load q
  adopt (m.left) p
  set_right p (m.left)
  set_left q p
  n' ← load p
  set_parent q (n'.parent)
  set_parent p q
  avl_update p
  avl_update q
  pure q

unfoldable pub rot_right : Ptr → Cmd AvlNode Ptr
rot_right p = do
  n ← load p
  let q = n.left
  m ← load q
  adopt (m.right) p
  set_left p (m.right)
  set_right q p
  n' ← load p
  set_parent q (n'.parent)
  set_parent p q
  avl_update p
  avl_update q
  pure q

unfoldable pub avl_fix_left : Ptr → Cmd AvlNode Ptr
avl_fix_left root = do
  n ← load root
  m ← load (n.left)
  a ← avl_depth (m.left)
  b ← avl_depth (m.right)
  if ltb a b then (do q ← rot_left (n.left); set_left root q) else pure tt
  rot_right root

unfoldable pub avl_fix_right : Ptr → Cmd AvlNode Ptr
avl_fix_right root = do
  n ← load root
  m ← load (n.right)
  a ← avl_depth (m.right)
  b ← avl_depth (m.left)
  if ltb a b then (do q ← rot_right (n.right); set_right root q) else pure tt
  rot_left root

-- the two tests on the depths `l` and `r` of the kids
unfoldable pub rebalance : Ptr → ℕ → ℕ → Cmd AvlNode Ptr
rebalance p l r =
    if l == (r + 2) % u32_mod
    then avl_fix_left p
    else if (l + 2) % u32_mod == r
    then avl_fix_right p
    else pure p

-- one round of avl_fix up to `if (!from)`: the new root of the subtree, the parent, and whether
-- `from` is the parent's left field
unfoldable pub fix_round : Ptr → Cmd AvlNode (Ptr × Ptr × Bool)
fix_round p = do
  avl_update p
  n ← load p
  l ← avl_depth (n.left)
  r ← avl_depth (n.right)
  is_left ← if n.parent == null then pure false else do m ← load (n.parent); pure (m.left == p)
  q ← rebalance p l r
  pure (q, n.parent, is_left)

-- `*from = q`
unfoldable pub set_child : Ptr → Bool → Ptr → Cmd AvlNode (Unit {0})
set_child parent true q = set_left parent q
set_child parent false q = set_right parent q

-- avl_fix, with fuel for the rounds
unfoldable pub avl_fix : ℕ → Ptr → Cmd AvlNode Ptr
avl_fix zero p = λ h. out_of_fuel
avl_fix (suc k) p = do
  (q, parent, is_left) ← fix_round p
  let up : Cmd AvlNode Ptr = do set_child parent is_left q; m ← load q; avl_fix k (m.parent)
  if parent == null then pure q else up

-- `while (victim->left) { victim = victim->left; }`, with fuel for the rounds
unfoldable pub leftmost : ℕ → Ptr → Cmd AvlNode Ptr
leftmost zero p = λ h. out_of_fuel
leftmost (suc k) p = do n ← load p; if n.left == null then pure p else leftmost k (n.left)

-- `(parent->left == node ? parent->left : parent->right) = q`
unfoldable pub replace_child : Ptr → Ptr → Ptr → Cmd AvlNode (Unit {0})
replace_child parent node q = do m ← load parent; set_child parent (m.left == node) q

-- avl_del where the node has no right subtree
unfoldable pub del_no_right : ℕ → Ptr → AvlNode → Cmd AvlNode Ptr
del_no_right fuel p n = do
  adopt (n.left) (n.parent)
  if n.parent == null
      then pure (n.left)
      else (replace_child (n.parent) p (n.left) >>= λ _. avl_fix fuel (n.parent))

-- `fuel` bounds the rounds of each loop; the recursive call is on a node without a left subtree
unfoldable pub avl_del : ℕ → ℕ → Ptr → Cmd AvlNode Ptr
avl_del zero fuel p = λ h. out_of_fuel
avl_del (suc calls) fuel p = do
  n ← load p
  let swap : Cmd AvlNode Ptr = do
    victim ← leftmost fuel (n.right)
    root ← avl_del calls fuel victim
    n' ← load p
    modify victim λ _. n'
    adopt (n'.left) victim
    adopt (n'.right) victim
    if n'.parent == null
        then pure victim
        else (replace_child (n'.parent) p victim >>= λ _. pure root)
  if n.right == null then del_no_right fuel p n else swap

-- one round of avl_offset: the next node and its position relative to the start, which
-- the sizes of a tree keep far from the ends of int64_t; NULL past the ends
unfoldable pub offset_round : Ptr → ℤ → ℤ → Cmd AvlNode (Ptr × ℤ)
offset_round p at offset = do
  n ← load p
  r ← avl_cnt (n.right)
  l ← avl_cnt (n.left)
  let to_right : Cmd AvlNode (Ptr × ℤ) = do
    m ← load (n.right)
    d ← avl_cnt (m.left)
    pure (n.right, at +ℤ pos ((d + 1) % u32_mod))
  let to_left : Cmd AvlNode (Ptr × ℤ) = do
    m ← load (n.left)
    d ← avl_cnt (m.right)
    pure (n.left, at -ℤ pos ((d + 1) % u32_mod))
  let to_parent : Cmd AvlNode (Ptr × ℤ) = do
    m ← load (n.parent)
    pure (
      n.parent,
      if m.right == p then at -ℤ pos ((l + 1) % u32_mod) else at +ℤ pos ((r + 1) % u32_mod),
    )
  if ltb_ℤ at offset && leb_ℤ offset (at +ℤ pos r)
      then to_right
      else if ltb_ℤ offset at && leb_ℤ (at -ℤ pos l) offset
      then to_left
      else if n.parent == null
      then pure (null, at)
      else to_parent

unfoldable pub offset_loop : ℕ → Ptr → ℤ → ℤ → Cmd AvlNode Ptr
offset_loop zero p at offset = λ h. out_of_fuel
offset_loop (suc k) p at offset =
    let round : Cmd AvlNode Ptr = do
      (q, at') ← offset_round p at offset
      if q == null then pure null else offset_loop k q at' offset
    in if leb_ℤ at offset && leb_ℤ offset at then pure p else round

unfoldable pub avl_offset : ℕ → Ptr → ℤ → Cmd AvlNode Ptr
avl_offset fuel p offset = offset_loop fuel p (pos 0) offset
