-- ===== src/Avl/Shape.antt =====
-- When the memory holds a tree: every field of every node agrees with the abstract tree, and so do
-- the fields of the nodes on the way to the root, but for their depths and counts.
use cand_cppwith_linux.Base.{
  ℕ, suc, ◌+◌, ◌≤◌, ◌<◌, ◌≡◌, ◌≢◌, refl, ◌∙◌, true, false, some, max, ok, arith, ◌==◌, ltb,
  Bool-cases, inl, inr, ◌%◌,
}
use cand_cppwith_linux.Memory.{
  Ptr, null, Mem, Ends, ends, load-ok, modify-ok, write, write_self, write_ne,
}
use cand_cppwith_linux.Avl.Tree.{
  Tree, leaf, node, height, size, root, has, Ctx, top, left_of, right_of, parent_of, ctx_has,
}
use cand_cppwith_linux.Avl.Nodes.{IsDistinct}
use cand_cppwith_linux.Avl.{AvlNode, u32_mod, avl_depth, avl_cnt, max_u32, avl_update, adopt}

-- the node with subtrees `l` and `r` under the parent `par`, its depth and count up to date
abbrev pub cell : Tree → Tree → Ptr → AvlNode
cell l r par = record {
  depth = suc (max (height l) (height r));
  cnt = suc (size l + size r);
  left = root l;
  right = root r;
  parent = par;
}

abbrev pub IsTree : Mem AvlNode → Ptr → Tree → Type 0
IsTree h par leaf = Unit {0}
IsTree h par (node l p r) = (p ≢ null) × (h p ≡ some (cell l r par)) × IsTree h p l × IsTree h p r

-- the links of the node at `p`, with any depth and count
pub record Links (h : Mem AvlNode) (p left right par : Ptr) : Type 0 where
  pub ne : p ≢ null
  pub old_depth : ℕ
  pub old_cnt : ℕ
  pub at :
      h p
      ≡ some (record { depth = old_depth; cnt = old_cnt; left = left; right = right; parent = par })

-- `from` is the pointer to the subtree at the position
abbrev pub IsCtx : Mem AvlNode → Ptr → Ctx → Type 0
IsCtx h from top = Unit {0}
IsCtx h from (left_of p r up) = Links h p from (root r) (parent_of up) × IsTree h p r × IsCtx h p up
IsCtx h from (right_of l p up) =
    Links h p (root l) from (parent_of up) × IsTree h p l × IsCtx h p up

pub frame :
    (h g : Mem AvlNode) (par : Ptr) (t : Tree)
    → ((a : Ptr) → has a t ≡ true → g a ≡ h a)
    → IsTree h par t
    → IsTree g par t
frame h g par leaf same i = tt
frame h g par (node l p r) same (ne, at, il, ir) = (
  ne,
  same p (ground arith) ∙ at,
  frame h g p l (λ a m. same a (ground arith)) il,
  frame h g p r (λ a m. same a (ground arith)) ir,
)

pub Links-frame :
    (h g : Mem AvlNode) {p l r par : Ptr} → g p ≡ h p → Links h p l r par → Links g p l r par
Links-frame h g same k = record {
  ne = k.ne;
  old_depth = k.old_depth;
  old_cnt = k.old_cnt;
  at = same ∙ k.at;
}

pub frame_ctx :
    (h g : Mem AvlNode) (from : Ptr) (c : Ctx)
    → ((a : Ptr) → ctx_has a c ≡ true → g a ≡ h a)
    → IsCtx h from c
    → IsCtx g from c
frame_ctx h g from top same i = tt
frame_ctx h g from (left_of p r up) same (k, ir, iu) = (
  Links-frame h g (same p (ground arith)) k,
  frame h g p r (λ a m. same a (ground arith)) ir,
  frame_ctx h g p up (λ a m. same a (ground arith)) iu,
)
frame_ctx h g from (right_of l p up) same (k, il, iu) = (
  Links-frame h g (same p (ground arith)) k,
  frame h g p l (λ a m. same a (ground arith)) il,
  frame_ctx h g p up (λ a m. same a (ground arith)) iu,
)

pub height-le-size : (t : Tree) → height t ≤ size t
height-le-size leaf = omega arith
height-le-size (node l p r) = omega (arith, height-le-size l, height-le-size r)

module _ (h : Mem AvlNode) (par : Ptr) where
  pub avl_depth-height : (t : Tree) → IsTree h par t → avl_depth (root t) h ≡ ok (height t, h)
  unfolding avl_depth
  avl_depth-height leaf i = refl
  avl_depth-height (node l p r) i =
      let ne : (p == null) ≡ false = ground (arith, i.0) in rw (ne, load-ok h i.0 i.1)

  pub avl_cnt-size : (t : Tree) → IsTree h par t → avl_cnt (root t) h ≡ ok (size t, h)
  unfolding avl_cnt
  avl_cnt-size leaf i = refl
  avl_cnt-size (node l p r) i =
      let ne : (p == null) ≡ false = ground (arith, i.0) in rw (ne, load-ok h i.0 i.1)

-- `g` is `h` outside the tree `t`
abbrev pub SameOutside : Tree → Mem AvlNode → Mem AvlNode → Type 0
SameOutside t h g = (x : Ptr) → has x t ≡ false → g x ≡ h x

-- `g` is `h` but for the node at `p`
abbrev pub SameBut : Ptr → Mem AvlNode → Mem AvlNode → Type 0
SameBut p h g = (a : Ptr) → a ≢ p → g a ≡ h a

depth_fits :
    (l r : Tree)
    → suc (size l + size r) < u32_mod
    → (1 + max_u32 (height l) (height r)) % u32_mod ≡ suc (max (height l) (height r))
unfolding max_u32
depth_fits l r small =
    let a = height-le-size l in
    let b = height-le-size r in
    elim (Bool-cases (ltb (height l) (height r))) [
      | inl e ↦ rw e (ground arith)
      | inr e ↦ rw e (ground arith)
    ]

-- avl_update makes a node's depth and count agree with its subtrees.
pub avl_update_lem :
    (h : Mem AvlNode) (l : Tree) (p : Ptr) (r : Tree) (par : Ptr)
    → Links h p (root l) (root r) par
    → IsTree h p l
    → IsTree h p r
    → has p l ≡ false
    → has p r ≡ false
    → suc (size l + size r) < u32_mod
    → Ends (λ _ g. IsTree g par (node l p r) × SameBut p h g) (avl_update p h)
unfolding avl_update
avl_update_lem h l p r par k il ir nl nr small =
    let n₁ : AvlNode = record {
      depth = (1 + max_u32 (height l) (height r)) % u32_mod;
      cnt = k.old_cnt;
      left = root l;
      right = root r;
      parent = par;
    } in
    let h₁ = write h p n₁ in
    let il₁ = frame h h₁ p l (λ a m. write_ne h p n₁ a (ground arith)) il in
    let ir₁ = frame h h₁ p r (λ a m. write_ne h p n₁ a (ground arith)) ir in
    rw
      (
        load-ok h k.ne k.at,
        avl_depth-height h p l il,
        avl_depth-height h p r ir,
        modify-ok h k.ne k.at _,
        avl_cnt-size h₁ p l il₁,
        avl_cnt-size h₁ p r ir₁,
        modify-ok h₁ k.ne (write_self h p n₁) _,
      )
      (ends (
        (
          k.ne,
          write_self h₁ p _ ∙ up_to_date,
          frame h₁ _ p l (λ a m. write_ne h₁ p _ a (ground arith)) il₁,
          frame h₁ _ p r (λ a m. write_ne h₁ p _ a (ground arith)) ir₁,
        ),
        λ a ne. write_ne h₁ p _ a ne ∙ write_ne h p n₁ a ne,
      ))
  where
    up_to_date :
        some (record {
          depth = (1 + max_u32 (height l) (height r)) % u32_mod;
          cnt = (1 + size l + size r) % u32_mod;
          left = root l;
          right = root r;
          parent = par;
        })
        ≡ some (cell l r par)
    up_to_date = rw (
      depth_fits l r small,
      let e : (1 + size l + size r) % u32_mod ≡ suc (size l + size r) = omega arith in e,
    )

-- adopt makes `p` the parent of the root of `t`.
pub adopt_lem :
    (h : Mem AvlNode) (par p : Ptr) (t : Tree)
    → IsTree h par t
    → IsDistinct t
    → Ends (λ _ g. IsTree g p t × ((a : Ptr) → has a t ≡ false → g a ≡ h a)) (adopt (root t) p h)
unfolding adopt
adopt_lem h par p leaf i d = ends (tt, λ a ne. refl)
adopt_lem h par p (node l q r) (ne, at, il, ir) (nl, nr, apart, dl, dr) =
    let live : (q == null) ≡ false = ground arith in
    rw (live, modify-ok h ne at _)
      (ends (
        (
          ne,
          write_self h q _,
          frame h _ q l (λ a m. write_ne h q _ a (ground arith)) il,
          frame h _ q r (λ a m. write_ne h q _ a (ground arith)) ir,
        ),
        λ a other. write_ne h q _ a (ground arith),
      ))
