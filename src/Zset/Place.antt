-- ===== src/Zset/Place.antt =====
-- The empty place in a sorted tree to which tree_add descends.
use mathlib.Core.List.{append_assoc, append-nil}
use cand_cppwith_linux.Base.{
  ℕ, zero, suc, ◌+◌, ◌<◌, ◌≤◌, ◌≡◌, refl, sym, ap, ◌∙◌, Bool, true, false, Bool-cases, inl, inr,
  Option, some, none, List, [], ◌∷◌, ◌++◌, ok, arith, ◌==◌, length, not,
}
use cand_cppwith_linux.Memory.{Ptr, null, Mem, Ends, ends, load-ok}
use cand_cppwith_linux.Wire.{u32_mod}
use cand_cppwith_linux.Avl.{AvlNode}
use cand_cppwith_linux.Avl.Tree.{
  Tree, leaf, node, height, size, root, has, inorder, Ctx, top, left_of, right_of, parent_of, plug,
  ctx_depth, ctx_size,
}
use cand_cppwith_linux.Avl.Balance.{IsAvl, IsAvlCtx}
use cand_cppwith_linux.Avl.Nodes.{IsDistinct, IsApart, Disjoint-symm}
use cand_cppwith_linux.Avl.Shape.{IsTree, Links, IsCtx}
use cand_cppwith_linux.Zset.{ZNode, ZNodes, zless_node, lift, add_loop}
use cand_cppwith_linux.Zset.Order.{before, zless-before}
use cand_cppwith_linux.Zset.Query.{
  Members, AllFail, IsCut, contradict, fails_at, IsCut-left, IsCut-right, Members-left,
  Members-right,
}

-- the addresses of the tree before and after a position
abbrev pub left_part : Ctx → List Ptr
left_part top = []
left_part (left_of p r up) = left_part up
left_part (right_of l p up) = left_part up ++ (inorder l ++ (p ∷ []))

abbrev pub right_part : Ctx → List Ptr
right_part top = []
right_part (left_of p r up) = p ∷ (inorder r ++ right_part up)
right_part (right_of l p up) = right_part up

pub inorder-plug :
    (t : Tree) (c : Ctx) → inorder (plug t c) ≡ left_part c ++ (inorder t ++ right_part c)
inorder-plug t top = sym (append-nil (inorder t))
inorder-plug t (left_of p r up) =
    inorder-plug (node t p r) up
    ∙ ap (λ l. left_part up ++ l) (append_assoc (inorder t) (p ∷ inorder r) (right_part up))
inorder-plug t (right_of l p up) = inorder-plug (node l p t) up ∙ (simp append_assoc)

pub size-plug : (t : Tree) (c : Ctx) → size (plug t c) ≡ size t + ctx_size c
size-plug t top = omega arith
size-plug t (left_of p r up) = omega (arith, size-plug (node t p r) up)
size-plug t (right_of l p up) = omega (arith, size-plug (node l p t) up)

-- the new member is not less than the member at an address
abbrev pub not_above : ZNodes → ZNode → Ptr → Bool
not_above zs x q = elim (zs q) [ none ↦ true | some y ↦ not (before x y) ]

abbrev pub AllPass : (Ptr → Bool) → List Ptr → Type 0
AllPass f [] = Unit {0}
AllPass f (p ∷ ps) = (f p ≡ true) × AllPass f ps

pass_append : (f : Ptr → Bool) (l r : List Ptr) → AllPass f l → AllPass f r → AllPass f (l ++ r)
pass_append f [] r a b = b
pass_append f (p ∷ l) r (e, a) b = (e, pass_append f l r a b)

fail_append : (f : Ptr → Bool) (l r : List Ptr) → AllFail f l → AllFail f r → AllFail f (l ++ r)
fail_append f [] r a b = b
fail_append f (p ∷ l) r (e, a) b = (e, fail_append f l r a b)

module _ (f : Ptr → Bool) where
  pass_before :
      (l : List Ptr) (p : Ptr) (r : List Ptr) → IsCut f (l ++ (p ∷ r)) → f p ≡ true → AllPass f l
  pass_before [] p r c e = tt
  pass_before (a ∷ l) p r (h, c) e = elim (Bool-cases (f a)) [
    | inl t ↦ (t, pass_before l p r c e)
    | inr t ↦ absurd (contradict e (fails_at f l p r (h t)))
  ]

  fail_behind :
      (l : List Ptr) (p : Ptr) (r : List Ptr) → IsCut f (l ++ (p ∷ r)) → f p ≡ false → AllFail f r
  fail_behind [] p r (h, c) e = h e
  fail_behind (a ∷ l) p r (h, c) e = fail_behind l p r c e

-- `side` tells which field of the parent is the place
abbrev pub IsSide : Ctx → Bool → Type 0
IsSide top side = Unit {0}
IsSide (left_of p r up) side = side ≡ true
IsSide (right_of l p up) side = side ≡ false

-- The place is empty, in the tree `whole`, with fewer levels above it than the tree is high; those
-- that pass the test stand before it, and the others behind.
pub record Place (h : Mem AvlNode) (whole : Tree) (f : Ptr → Bool) (at : Ptr × Bool)
    (g : Mem AvlNode) : Type 0 where
  pub way : Ctx
  pub memory : g ≡ h
  pub cur : at.0 ≡ parent_of way
  pub side : IsSide way at.1
  pub same : plug leaf way ≡ whole
  pub ctx : IsCtx h null way
  pub apart : IsApart leaf way
  pub avl : IsAvlCtx 0 way
  pub near : ctx_depth way ≤ height whole
  pub before_it : AllPass f (left_part way)
  pub behind_it : AllFail f (right_part way)

zless_node-before :
    (zs : ZNodes) (p q : Ptr) (x y : ZNode)
    → zs p ≡ some x
    → zs q ≡ some y
    → length x.name < u32_mod
    → length y.name < u32_mod
    → zless_node zs p q ≡ ok (before x y)
unfolding zless_node
zless_node-before zs p q x y ep eq hx hy = rw eq (zless-before zs p x y.score y.name ep hx hy)

pub not_above-at :
    (zs : ZNodes) (x : ZNode) (q : Ptr) (y : ZNode)
    → zs q ≡ some y
    → not_above zs x q ≡ not (before x y)
not_above-at zs x q y at =
    ap (λ (o : Option ZNode). elim o [ none ↦ true | some y ↦ not (before x y) ]) at

module _ (zs : ZNodes) (p : Ptr) (x : ZNode) (at_p : zs p ≡ some x)
    (short : length x.name < u32_mod) (h : Mem AvlNode) (whole : Tree) where
  abbrev passes : Ptr → Bool
  passes = not_above zs x

  pub add_loop-Place :
      (k : ℕ) (t : Tree) (c : Ctx) (cur : Ptr) (side : Bool)
      → height t < k
      → IsTree h (parent_of c) t
      → IsCtx h (root t) c
      → IsDistinct t
      → IsApart t c
      → IsAvl t
      → IsAvlCtx (height t) c
      → ctx_depth c + height t ≤ height whole
      → plug t c ≡ whole
      → cur ≡ parent_of c
      → IsSide c side
      → Members zs (inorder t)
      → IsCut passes (inorder t)
      → AllPass passes (left_part c)
      → AllFail passes (right_part c)
      → Ends (Place h whole passes) (add_loop zs p k cur side (root t) h)
  unfolding add_loop lift
  add_loop-Place zero t c cur side enough i ic d a avl ac near same up s m cut pass fail =
      absurd (omega (arith, enough))
  add_loop-Place (suc k) leaf c cur side enough i ic d a avl ac near same up s m cut pass fail =
      ends (record {
        way = c;
        memory = refl;
        cur = up;
        side = s;
        same = same;
        ctx = ic;
        apart = a;
        avl = ac;
        near = omega (arith, near);
        before_it = pass;
        behind_it = fail;
      })
  add_loop-Place (suc k) (node l q r) c cur side enough (ne, at, il, ir) ic (nl, nr, dj, dl, dr) a
        (hl, hr, al, ar) ac near same up s m cut pass fail =
      let live : (q == null) ≡ false = ground (arith, ne) in
      let ((y, here, small), mr) = Members-right zs (inorder l) (q ∷ inorder r) m in
      let tested = zless_node-before zs p q x y at_p here short small in
      let links : Links h q (root l) (root r) (parent_of c) = record {
        ne = ne;
        old_depth = _;
        old_cnt = _;
        at = at;
      } in
      let test : passes q ≡ not (before x y) = not_above-at zs x q y here in
      let to_left : before x y ≡ true
          → Ends (Place h whole passes) (add_loop zs p k q true (root l) h) =
        λ e.
          let out : passes q ≡ false = test ∙ ap not e in
          add_loop-Place k l (left_of q r c) q true (omega arith) il (links, ir, ic) dl
            ((λ b hb. ((λ e. contradict hb (ap (λ z. has z l) e ∙ nl)), dj b hb)), nr, dr, a) al
            (hl, hr, ar, ac) (omega arith) same refl refl
            (Members-left zs (inorder l) (q ∷ inorder r) m)
            (IsCut-left passes (inorder l) (q ∷ inorder r) cut) pass
            (
              out,
              fail_append passes (inorder r) (right_part c)
                  (fail_behind passes (inorder l) q (inorder r) cut out) fail,
            ) in
      let to_right : before x y ≡ false
          → Ends (Place h whole passes) (add_loop zs p k q false (root r) h) =
        λ e.
          let into : passes q ≡ true = test ∙ ap not e in
          add_loop-Place k r (right_of l q c) q false (omega arith) ir (links, il, ic) dr
            (
              (λ b hb.
                  ((λ e. contradict hb (ap (λ z. has z r) e ∙ nr)), Disjoint-symm l r dj b hb)),
              nl,
              dl,
              a,
            )
            ar (hr, hl, al, ac) (omega arith) same refl refl mr
            (IsCut-right passes (inorder l) q (inorder r) cut)
            (pass_append passes (left_part c) (inorder l ++ (q ∷ [])) pass (
              pass_append passes (inorder l) (q ∷ [])
                (pass_before passes (inorder l) q (inorder r) cut into) (into, tt)))
            fail in
      rw (live, tested, load-ok h ne at)
        (elim (Bool-cases (before x y)) [ inl e ↦ rw e (to_left e) | inr e ↦ rw e (to_right e) ])
