-- ===== src/Avl/Loop.antt =====
-- avl_fix: the loop from a node up to the root.
use mathlib.Core.Path.{subst}
use cand_cppwith_linux.Base.{
  ℕ, zero, suc, ◌+◌, ◌<◌, ◌≡◌, ◌≢◌, refl, sym, ap, ◌∙◌, Bool, true, false, ◌||◌, ok, arith, ◌==◌,
  if◌then◌else◌, Bool-cases, inl, inr,
}
use cand_cppwith_linux.Memory.{
  Ptr, null, Mem, Cmd, pure, ◌>>=◌, Ends, ends, Ends-map, Ends-inv, load, load-ok, modify-ok, write,
  write_self, write_ne,
}
use cand_cppwith_linux.Avl.Tree.{
  Tree, leaf, node, size, root, has, balance, Ctx, top, left_of, right_of, parent_of, fix_up,
  ctx_depth, ctx_has, ctx_size,
}
use cand_cppwith_linux.Avl.{AvlNode, u32_mod, fix_round, set_child, avl_fix}
use cand_cppwith_linux.Avl.Nodes.{
  IsDistinct, IsApart, SameNodes-balance, SameNodes-balance, IsDistinct-balance, IsApart-same,
  away_from_ctx, out_node, size-balance,
}
use cand_cppwith_linux.Avl.Shape.{
  cell, IsTree, Links, IsCtx, frame, frame_ctx, Links-frame, SameOutside, avl_depth-height,
  avl_update_lem,
}
use cand_cppwith_linux.Avl.Fix.{rebalance-Becomes}

-- whether the position is the left child of its parent
abbrev is_left : Ctx → Bool
is_left top = false
is_left (left_of p r up) = true
is_left (right_of l p up) = false

-- what one round delivers at the node `p` with subtrees `l` and `r`, on the way `c`
record Round (h : Mem AvlNode) (l : Tree) (p : Ptr) (r : Tree) (c : Ctx) (out : Ptr × Ptr × Bool)
    (g : Mem AvlNode) : Type 0 where
  new_root : out.0 ≡ root (balance l p r)
  up : out.1 ≡ parent_of c
  side : out.2 ≡ is_left c
  tree : IsTree g (parent_of c) (balance l p r)
  same : SameOutside (node l p r) h g

-- the choice of `from`
abbrev side_test : Ptr → Ptr → Cmd AvlNode Bool
side_test parent p = if parent == null then pure false else do m ← load parent; pure (m.left == p)

side_test-is_left :
    (h : Mem AvlNode) (t : Tree) (p : Ptr) (c : Ctx)
    → IsCtx h p c
    → IsApart t c
    → p ≢ null
    → has p t ≡ true
    → side_test (parent_of c) p h ≡ ok (is_left c, h)
side_test-is_left h t p top i a ne m = refl
side_test-is_left h t p (left_of s r up) (k, ir, iu) a ne m =
    let live : (s == null) ≡ false = ground (arith, k.ne) in
    rw (live, load-ok h k.ne k.at) (ground arith)
side_test-is_left h t p (right_of leaf s up) (k, il, iu) a ne m =
    let live : (s == null) ≡ false = ground (arith, k.ne) in
    rw (live, load-ok h k.ne k.at) (ground arith)
side_test-is_left h t p (right_of (node x q y) s up) (k, il, iu) a ne m =
    let live : (s == null) ≡ false = ground (arith, k.ne) in
    let other = a.0 p m in rw (live, load-ok h k.ne k.at) (ground arith)

module _ (h : Mem AvlNode) (l : Tree) (p : Ptr) (r : Tree) where
  fix_round-Round :
      (c : Ctx)
      → Links h p (root l) (root r) (parent_of c)
      → IsTree h p l
      → IsTree h p r
      → IsCtx h p c
      → IsDistinct (node l p r)
      → IsApart (node l p r) c
      → suc (size l + size r) + 2 < u32_mod
      → Ends (Round h l p r c) (fix_round p h)
  unfolding fix_round
  fix_round-Round c k il ir ic d a small =
      let (_, h₁, run, done) =
        Ends-inv (avl_update_lem h l p r (parent_of c) k il ir d.0 d.1 (omega arith)) in
      let (tree₁, same₁) = done in
      let (q, h₂, run₂, done₂) =
        Ends-inv (rebalance-Becomes h₁ (parent_of c) l p r tree₁ d small) in
      let (new, tree₂, out₂) = done₂ in
      rw
        (
          run,
          load-ok h₁ tree₁.0 tree₁.1,
          avl_depth-height h₁ p l tree₁.2,
          avl_depth-height h₁ p r tree₁.3,
          side_test-is_left h₁ (node l p r) p c
              (frame_ctx h h₁ p c
                (λ x m. same₁ x (ground (arith, away_from_ctx (node l p r) c x a m))) ic)
              a k.ne (ground arith),
          run₂,
        )
        (ends (record {
          new_root = new;
          up = refl;
          side = refl;
          tree = tree₂;
          same = λ x o. out₂ x o ∙ same₁ x (ground arith);
        }))

-- what avl_fix delivers from the node `p` on the way `c`: the whole tree, rebalanced
abbrev pub Fixed : Tree → Ptr → Tree → Ctx → Mem AvlNode → Ptr → Mem AvlNode → Type 0
Fixed l p r c h q g =
    (q ≡ root (fix_up (balance l p r) c))
    × IsTree g null (fix_up (balance l p r) c)
    × ((x : Ptr) → has x (node l p r) ≡ false → ctx_has x c ≡ false → g x ≡ h x)

-- `node` after one round, given that a tree is not empty: the parent of its root
load-root :
    (h : Mem AvlNode) (par q : Ptr) (l : Tree) (p : Ptr) (r : Tree)
    → q ≡ root (balance l p r)
    → IsTree h par (balance l p r)
    → (n : AvlNode) × (load q h ≡ ok (n, h)) × (n.parent ≡ par)
load-root h par q l p r e i = go (balance l p r) refl
  where
    go : (t : Tree) → balance l p r ≡ t → (n : AvlNode) × (load q h ≡ ok (n, h)) × (n.parent ≡ par)
    go leaf same = absurd (omega (arith, size-balance l p r, ap size same))
    go (node a s b) same =
        let i' = subst (IsTree h par) same i in
        let e' : q ≡ s = e ∙ ap root same in (cell a b par, rw e' (load-ok h i'.0 i'.1), refl)

-- One step up. In `g`, which differs from `h` only in the subtree `u`, that subtree has become `t`;
-- its parent is `s`, the parent's other subtree is `o`, and the way goes on by `up`.
record Around (h g : Mem AvlNode) (u t : Tree) (s : Ptr) (o : Tree) (up : Ctx) : Type 0 where
  same : SameOutside u h g
  nodes : (x : Ptr) → has x t ≡ has x u
  tree : IsTree g s t
  other : IsTree h s o
  ctx : IsCtx h s up
  away : (x : Ptr) → has x u ≡ true → (x ≢ s) × (has x o ≡ false)
  apart : (x : Ptr) → ctx_has x up ≡ true → (x ≢ s) × (has x u ≡ false)
  alone : has s o ≡ false

module _ {h g : Mem AvlNode} {u t : Tree} {s : Ptr} {o : Tree} {up : Ctx}
    (z : Around h g u t s o up) where
  parent_outside : has s u ≡ false
  parent_outside = elim (Bool-cases (has s u)) [ inl e ↦ absurd ((z.away s e).0 refl) | inr e ↦ e ]

  other_outside : (x : Ptr) → has x o ≡ true → has x u ≡ false
  other_outside x m = elim (Bool-cases (has x u)) [
    | inl e ↦ let f = (z.away x e).1 in cc
    | inr e ↦ e
  ]

  -- writing the parent disturbs none of the three parts
  hung-IsTree : (n : AvlNode) → IsTree (write g s n) s t
  hung-IsTree n =
      frame g (write g s n) s t (λ x m. write_ne g s n x (z.away x (sym (z.nodes x) ∙ m)).0) z.tree

  hung_other : (n : AvlNode) → IsTree (write g s n) s o
  hung_other n =
      frame h (write g s n) s o
        (λ x m. write_ne g s n x (ground (arith, z.alone)) ∙ z.same x (other_outside x m)) z.other

  hung-IsCtx : (n : AvlNode) → IsCtx (write g s n) s up
  hung-IsCtx n =
      frame_ctx h (write g s n) s up
        (λ x m. write_ne g s n x (z.apart x m).0 ∙ z.same x (z.apart x m).1) z.ctx

not_null : {p q : Ptr} → p ≡ q → q ≢ null → (p == null) ≡ false
not_null e ne = ground arith

is_null : {p : Ptr} → p ≡ null → (p == null) ≡ true
is_null e = ground arith

outside_step :
    (u t : Tree) (s : Ptr) (up : Ctx) (x : Ptr)
    → has x u ≡ false
    → ctx_has x (left_of s t up) ≡ false
    → (((x == s) || (has x u || has x t)) ≡ false)
      × (ctx_has x up ≡ false)
      × (x ≢ s)
      × (((x == s) || (has x t || has x u)) ≡ false)
outside_step u t s up x o o' = ground arith

pub avl_fix-Fixed :
    (k : ℕ) (h : Mem AvlNode) (l : Tree) (p : Ptr) (r : Tree) (c : Ctx)
    → ctx_depth c < k
    → Links h p (root l) (root r) (parent_of c)
    → IsTree h p l
    → IsTree h p r
    → IsCtx h p c
    → IsDistinct (node l p r)
    → IsApart (node l p r) c
    → suc (size l + size r) + ctx_size c + 2 < u32_mod
    → Ends (Fixed l p r c h) (avl_fix k p h)
unfolding avl_fix fix_up set_child
avl_fix-Fixed zero h l p r c f k il ir ic d a small = absurd (omega arith)
avl_fix-Fixed (suc n) h l p r top f k il ir ic d a small =
    let ((q, parent, side), h₁, run, round) =
      Ends-inv (fix_round-Round h l p r top k il ir ic d a (omega arith)) in
    let live : (parent == null) ≡ true = is_null round.up in
    rw (run, live) (ends (round.new_root, round.tree, λ x o _. round.same x o))
avl_fix-Fixed (suc n) h l p r (left_of s t up) f k il ir ic d a small =
    let ((q, parent, side), h₁, run, round) =
      Ends-inv (fix_round-Round h l p r (left_of s t up) k il ir ic d a (omega arith)) in
    let live : (parent == null) ≡ false = not_null round.up ic.0.ne in
    let u = node l p r in
    let b = balance l p r in
    let nodes = SameNodes-balance l p r in
    let z : Around h h₁ u b s t up = record {
      same = round.same;
      nodes = nodes;
      tree = round.tree;
      other = ic.1;
      ctx = ic.2;
      away = a.0;
      apart = λ x m. let w = out_node u s t x (away_from_ctx (node u s t) up x a.3 m) in (w.0, w.1);
      alone = a.1;
    } in
    let links = Links-frame h h₁ (round.same s (parent_outside z)) ic.0 in
    let n₁ : AvlNode = record {
      depth = links.old_depth;
      cnt = links.old_cnt;
      left = q;
      right = root t;
      parent = parent_of up;
    } in
    let h₂ = write h₁ s n₁ in
    let (m, loaded, above) = load-root h₂ s q l p r round.new_root (hung-IsTree z n₁) in
    rw (run, live, round.up, round.side, modify-ok h₁ links.ne links.at _, loaded, above)
      (Ends-map
        (avl_fix-Fixed n h₂ b s t up (omega arith)
          (record {
            ne = links.ne;
            old_depth = links.old_depth;
            old_cnt = links.old_cnt;
            at = rw (← round.new_root) (write_self h₁ s n₁);
          })
          (hung-IsTree z n₁) (hung_other z n₁) (hung-IsCtx z n₁)
          (
            nodes s ∙ parent_outside z,
            a.1,
            λ x m'. (a.0 x (sym (nodes x) ∙ m')).1,
            IsDistinct-balance l p r d,
            a.2,
          )
          (IsApart-same (node b s t) (node u s t) up (λ x. rw (nodes x)) a.3)
          (omega (arith, size-balance l p r)))
        λ q' g (e, tree, out). (
          e,
          tree,
          λ x o o'.
              out x (rw (nodes x) (outside_step u t s up x o o').0) (outside_step u t s up x o o').1
              ∙ write_ne h₁ s n₁ x (outside_step u t s up x o o').2
              ∙ round.same x o,
        ))
avl_fix-Fixed (suc n) h l p r (right_of t s up) f k il ir ic d a small =
    let ((q, parent, side), h₁, run, round) =
      Ends-inv (fix_round-Round h l p r (right_of t s up) k il ir ic d a (omega arith)) in
    let live : (parent == null) ≡ false = not_null round.up ic.0.ne in
    let u = node l p r in
    let b = balance l p r in
    let nodes = SameNodes-balance l p r in
    let z : Around h h₁ u b s t up = record {
      same = round.same;
      nodes = nodes;
      tree = round.tree;
      other = ic.1;
      ctx = ic.2;
      away = a.0;
      apart = λ x m. let w = out_node t s u x (away_from_ctx (node t s u) up x a.3 m) in (w.0, w.2);
      alone = a.1;
    } in
    let links = Links-frame h h₁ (round.same s (parent_outside z)) ic.0 in
    let n₁ : AvlNode = record {
      depth = links.old_depth;
      cnt = links.old_cnt;
      left = root t;
      right = q;
      parent = parent_of up;
    } in
    let h₂ = write h₁ s n₁ in
    let (m, loaded, above) = load-root h₂ s q l p r round.new_root (hung-IsTree z n₁) in
    rw (run, live, round.up, round.side, modify-ok h₁ links.ne links.at _, loaded, above)
      (Ends-map
        (avl_fix-Fixed n h₂ t s b up (omega arith)
          (record {
            ne = links.ne;
            old_depth = links.old_depth;
            old_cnt = links.old_cnt;
            at = rw (← round.new_root) (write_self h₁ s n₁);
          })
          (hung_other z n₁) (hung-IsTree z n₁) (hung-IsCtx z n₁)
          (
            a.1,
            nodes s ∙ parent_outside z,
            λ x m'. nodes x ∙ other_outside z x m',
            a.2,
            IsDistinct-balance l p r d,
          )
          (IsApart-same (node t s b) (node t s u) up (λ x. rw (nodes x)) a.3)
          (omega (arith, size-balance l p r)))
        λ q' g (e, tree, out). (
          e,
          tree,
          λ x o o'.
              out x (rw (nodes x) (outside_step u t s up x o o').3) (outside_step u t s up x o o').1
              ∙ write_ne h₁ s n₁ x (outside_step u t s up x o o').2
              ∙ round.same x o,
        ))
