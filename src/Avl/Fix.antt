-- ===== src/Avl/Fix.antt =====
-- avl_fix_left, avl_fix_right and one round of avl_fix: the subtree at a node is rebalanced.
use cand_cppwith_linux.Base.{
  suc, ◌+◌, ◌%◌, ◌<◌, ◌≡◌, refl, sym, ◌∙◌, true, false, max, arith, ◌==◌, ltb, Bool-cases, inl, inr,
}
use cand_cppwith_linux.Memory.{
  Ptr, Mem, Ends, ends, Ends-map, Ends-inv, load-ok, modify-ok, write, write_self, write_ne,
  and_then,
}
use cand_cppwith_linux.Avl.Tree.{
  Tree, leaf, node, height, size, root, rotate_left, rotate_right, prepare_left, prepare_right,
  balance,
}
use cand_cppwith_linux.Avl.{
  AvlNode, u32_mod, rot_left, rot_right, avl_fix_left, avl_fix_right, rebalance, set_left,
  set_right,
}
use cand_cppwith_linux.Avl.Shape.{
  IsTree, Links, frame, Links-frame, SameOutside, avl_depth-height, height-le-size,
}
use cand_cppwith_linux.Avl.Nodes.{
  IsDistinct, Disjoint-symm, out_node, has-left, IsDistinct-left, IsDistinct-right, replace_left,
  replace_right, has_moved_left, has_moved_right,
}
use cand_cppwith_linux.Avl.RotLeft.{rot_left_lem}
use cand_cppwith_linux.Avl.RotRight.{rot_right_lem}

-- what a rebalancing of the subtree `t` to `u` under `par` must deliver
abbrev pub Becomes : Tree → Tree → Ptr → Mem AvlNode → Ptr → Mem AvlNode → Type 0
Becomes t u par h r g = (r ≡ root u) × IsTree g par u × SameOutside t h g

pub IsTree-Links :
    (h : Mem AvlNode) (par : Ptr) (l : Tree) (p : Ptr) (r : Tree)
    → IsTree h par (node l p r)
    → Links h p (root l) (root r) par
IsTree-Links h par l p r i = record {
  ne = i.0;
  old_depth = suc (max (height l) (height r));
  old_cnt = suc (size l + size r);
  at = i.1;
}

-- `root->left = rot_left(root->left); return rot_right(root);` from the state after the call
relink_left :
    (h : Mem AvlNode) (par : Ptr) (x : Tree) (s : Ptr) (c : Tree) (p : Ptr) (r : Tree) (old : Ptr)
    → Links h p old (root r) par
    → IsTree h p (node x s c)
    → IsTree h p r
    → IsDistinct (node (node x s c) p r)
    → suc (suc (size x + size c + size r)) < u32_mod
    → Ends
        (Becomes (node (node x s c) p r) (node x s (node c p r)) par h)
        (and_then (set_left p s h) (λ _. rot_right p))
relink_left h par x s c p r old k il ir d small =
    let n : AvlNode = record {
      depth = k.old_depth;
      cnt = k.old_cnt;
      left = s;
      right = root r;
      parent = par;
    } in
    let g = write h p n in
    let il' = frame h g p (node x s c) (λ y m. write_ne h p n y (ground (arith, d.0))) il in
    rw (modify-ok h k.ne k.at _) (
      Ends-map
        (rot_right_lem g x s c p r par p
          (record {
            ne = k.ne;
            old_depth = k.old_depth;
            old_cnt = k.old_cnt;
            at = write_self h p n;
          })
          (IsTree-Links g p x s c il') il'.2 il'.3
          (frame h g p r (λ y m. write_ne h p n y (ground (arith, d.1))) ir) d small)
        λ t h' (same, tree, out).
          (same, tree, λ y o. out y o ∙ write_ne h p n y (out_node (node x s c) p r y o).0))

relink_right :
    (h : Mem AvlNode) (par : Ptr) (l : Tree) (p : Ptr) (b : Tree) (s : Ptr) (x : Tree) (old : Ptr)
    → Links h p (root l) old par
    → IsTree h p (node b s x)
    → IsTree h p l
    → IsDistinct (node l p (node b s x))
    → suc (suc (size l + size b + size x)) < u32_mod
    → Ends
        (Becomes (node l p (node b s x)) (node (node l p b) s x) par h)
        (and_then (set_right p s h) (λ _. rot_left p))
relink_right h par l p b s x old k ir il d small =
    let n : AvlNode = record {
      depth = k.old_depth;
      cnt = k.old_cnt;
      left = root l;
      right = s;
      parent = par;
    } in
    let g = write h p n in
    let ir' = frame h g p (node b s x) (λ y m. write_ne h p n y (ground (arith, d.1))) ir in
    rw (modify-ok h k.ne k.at _) (
      Ends-map
        (rot_left_lem g l p b s x par p
          (record {
            ne = k.ne;
            old_depth = k.old_depth;
            old_cnt = k.old_cnt;
            at = write_self h p n;
          })
          (IsTree-Links g p b s x ir')
          (frame h g p l (λ y m. write_ne h p n y (ground (arith, d.0))) il) ir'.2 ir'.3 d small)
        λ t h' (same, tree, out).
          (same, tree, λ y o. out y o ∙ write_ne h p n y (out_node l p (node b s x) y o).0))

module _ (h : Mem AvlNode) (par : Ptr) where
  avl_fix_left_plain :
      (a : Tree) (q : Ptr) (b : Tree) (p : Ptr) (r : Tree)
      → ltb (height a) (height b) ≡ false
      → IsTree h par (node (node a q b) p r)
      → IsDistinct (node (node a q b) p r)
      → suc (suc (size a + size b + size r)) < u32_mod
      → Ends (Becomes (node (node a q b) p r) (node a q (node b p r)) par h) (avl_fix_left p h)
  unfolding avl_fix_left
  avl_fix_left_plain a q b p r e i d small =
      let iq = i.2 in
      rw
        (
          load-ok h i.0 i.1,
          load-ok h iq.0 iq.1,
          avl_depth-height h q a iq.2,
          avl_depth-height h q b iq.3,
          e,
        )
        (rot_right_lem h a q b p r par p (IsTree-Links h par (node a q b) p r i)
          (IsTree-Links h p a q b iq) iq.2 iq.3 i.3 d small)

  avl_fix_left_double :
      (a : Tree) (q : Ptr) (b : Tree) (s : Ptr) (c : Tree) (p : Ptr) (r : Tree)
      → ltb (height a) (height (node b s c)) ≡ true
      → IsTree h par (node (node a q (node b s c)) p r)
      → IsDistinct (node (node a q (node b s c)) p r)
      → suc (suc (suc (size a + size b + size c + size r))) < u32_mod
      → Ends
          (Becomes (node (node a q (node b s c)) p r) (node (node a q b) s (node c p r)) par h)
          (avl_fix_left p h)
  unfolding avl_fix_left
  avl_fix_left_double a q b s c p r e i d small =
      let iq = i.2 in
      let is = iq.3 in
      let moved = node (node a q b) s c in
      let d' =
        replace_left (node a q (node b s c)) moved p r (λ x. ground arith)
          (IsDistinct-left a q b s c d.3) d in
      let (t, h₁, run, done) = Ends-inv (
        rot_left_lem h a q b s c p q (IsTree-Links h p a q (node b s c) iq)
          (IsTree-Links h q b s c is) iq.2 is.2 is.3 d.3 (omega arith)) in
      let (same, il, out) = done in
      rw
        (
          load-ok h i.0 i.1,
          load-ok h iq.0 iq.1,
          avl_depth-height h q a iq.2,
          avl_depth-height h q (node b s c) is,
          e,
          run,
          same,
        )
        (Ends-map
          (relink_left h₁ par (node a q b) s c p r q
            (Links-frame h h₁ (out p d.0) (IsTree-Links h par (node a q (node b s c)) p r i)) il
            (frame h h₁ p r (λ x m. out x (Disjoint-symm (node a q (node b s c)) r d.2 x m)) i.3) d'
            (omega arith))
          λ t' h₃ (same', tree, out'). (
            same',
            tree,
            λ x o.
                let away = out_node (node a q (node b s c)) p r x o in
                out' x (has_moved_left moved (node a q (node b s c)) p r x (has-left a q b s c x) o)
                ∙ out x away.1,
          ))

  avl_fix_right_plain :
      (l : Tree) (p : Ptr) (b : Tree) (q : Ptr) (c : Tree)
      → ltb (height c) (height b) ≡ false
      → IsTree h par (node l p (node b q c))
      → IsDistinct (node l p (node b q c))
      → suc (suc (size l + size b + size c)) < u32_mod
      → Ends (Becomes (node l p (node b q c)) (node (node l p b) q c) par h) (avl_fix_right p h)
  unfolding avl_fix_right
  avl_fix_right_plain l p b q c e i d small =
      let iq = i.3 in
      rw
        (
          load-ok h i.0 i.1,
          load-ok h iq.0 iq.1,
          avl_depth-height h q c iq.3,
          avl_depth-height h q b iq.2,
          e,
        )
        (rot_left_lem h l p b q c par p (IsTree-Links h par l p (node b q c) i)
          (IsTree-Links h p b q c iq) i.2 iq.2 iq.3 d small)

  avl_fix_right_double :
      (l : Tree) (p : Ptr) (a : Tree) (s : Ptr) (b : Tree) (q : Ptr) (c : Tree)
      → ltb (height c) (height (node a s b)) ≡ true
      → IsTree h par (node l p (node (node a s b) q c))
      → IsDistinct (node l p (node (node a s b) q c))
      → suc (suc (suc (size l + size a + size b + size c))) < u32_mod
      → Ends
          (Becomes (node l p (node (node a s b) q c)) (node (node l p a) s (node b q c)) par h)
          (avl_fix_right p h)
  unfolding avl_fix_right
  avl_fix_right_double l p a s b q c e i d small =
      let iq = i.3 in
      let is = iq.2 in
      let moved = node a s (node b q c) in
      let d' =
        replace_right l p (node (node a s b) q c) moved (λ x. sym (has-left a s b q c x))
          (IsDistinct-right a s b q c d.4) d in
      let (t, h₁, run, done) = Ends-inv (
        rot_right_lem h a s b q c p q (IsTree-Links h p (node a s b) q c iq)
          (IsTree-Links h q a s b is) is.2 is.3 iq.3 d.4 (omega arith)) in
      let (same, ir, out) = done in
      rw
        (
          load-ok h i.0 i.1,
          load-ok h iq.0 iq.1,
          avl_depth-height h q c iq.3,
          avl_depth-height h q (node a s b) is,
          e,
          run,
          same,
        )
        (Ends-map
          (relink_right h₁ par l p a s (node b q c) q
            (Links-frame h h₁ (out p d.1) (IsTree-Links h par l p (node (node a s b) q c) i)) ir
            (frame h h₁ p l (λ x m. out x (d.2 x m)) i.2) d' (omega arith))
          λ t' h₃ (same', tree, out'). (
            same',
            tree,
            λ x o.
                let away = out_node l p (node (node a s b) q c) x o in
                out' x (
                  has_moved_right moved (node (node a s b) q c) p l x (sym (has-left a s b q c x))
                    o)
                ∙ out x away.2,
          ))

  left_heavy :
      (l : Tree) (p : Ptr) (r : Tree)
      → height l ≡ height r + 2
      → IsTree h par (node l p r)
      → IsDistinct (node l p r)
      → suc (size l + size r) < u32_mod
      → Ends
          (Becomes (node l p r) (rotate_right (node (prepare_left l) p r)) par h)
          (avl_fix_left p h)
  left_heavy leaf p r e i d small = absurd (omega arith)
  left_heavy (node a q leaf) p r e i d small = elim (Bool-cases (ltb (height a) 0)) [
    | inl f ↦ absurd (ground arith)
    | inr f ↦ rw f (avl_fix_left_plain a q leaf p r f i d (omega arith))
  ]
  left_heavy (node a q (node b s c)) p r e i d small =
      elim (Bool-cases (ltb (height a) (height (node b s c)))) [
        | inl f ↦ rw f (avl_fix_left_double a q b s c p r f i d (omega arith))
        | inr f ↦ rw f (avl_fix_left_plain a q (node b s c) p r f i d (omega arith))
      ]

  right_heavy :
      (l : Tree) (p : Ptr) (r : Tree)
      → height l + 2 ≡ height r
      → IsTree h par (node l p r)
      → IsDistinct (node l p r)
      → suc (size l + size r) < u32_mod
      → Ends
          (Becomes (node l p r) (rotate_left (node l p (prepare_right r))) par h)
          (avl_fix_right p h)
  right_heavy l p leaf e i d small = absurd (omega arith)
  right_heavy l p (node leaf q c) e i d small = elim (Bool-cases (ltb (height c) 0)) [
    | inl f ↦ absurd (ground arith)
    | inr f ↦ rw f (avl_fix_right_plain l p leaf q c f i d (omega arith))
  ]
  right_heavy l p (node (node a s b) q c) e i d small =
      elim (Bool-cases (ltb (height c) (height (node a s b)))) [
        | inl f ↦ rw f (avl_fix_right_double l p a s b q c f i d (omega arith))
        | inr f ↦ rw f (avl_fix_right_plain l p (node a s b) q c f i d (omega arith))
      ]

  -- The tests and rotations of one round turn the tree at `p` into its rebalanced form.
  pub rebalance-Becomes :
      (l : Tree) (p : Ptr) (r : Tree)
      → IsTree h par (node l p r)
      → IsDistinct (node l p r)
      → suc (size l + size r) + 2 < u32_mod
      → Ends (Becomes (node l p r) (balance l p r) par h) (rebalance p (height l) (height r) h)
  unfolding rebalance balance
  rebalance-Becomes l p r i d small =
      let bl = height-le-size l in
      let br = height-le-size r in
      let er : (height r + 2) % u32_mod ≡ height r + 2 = omega arith in
      let el : (height l + 2) % u32_mod ≡ height l + 2 = omega arith in
      rw (er, el)
        (elim (Bool-cases (height l == height r + 2)) [
          | inl e ↦ rw e (left_heavy l p r (ground arith) i d (omega arith))
          | inr e ↦ elim (Bool-cases (height l + 2 == height r)) [
            | inl f ↦ rw (e, f) (right_heavy l p r (ground arith) i d (omega arith))
            | inr f ↦ rw (e, f) (ends (refl, i, λ x o. refl))
          ]
        ])
