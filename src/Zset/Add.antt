-- ===== src/Zset/Add.antt =====
-- tree_add: a member enters the tree of a sorted set.
use cand_cppwith_linux.Base.{
  ℕ, ◌+◌, ◌<◌, ◌≡◌, ◌≢◌, refl, sym, ap, ◌∙◌, Bool, true, false, Bool-cases, inl, inr, ◌⊎◌, ◌||◌,
  some, List, [], ◌∷◌, ◌++◌, arith, ◌==◌, length, not,
}
use cand_cppwith_linux.Memory.{
  Ptr, null, Mem, Ends, ends, Ends-bind, Ends-map, modify-ok, write, write_self, write_ne,
}
use cand_cppwith_linux.Wire.{u32_mod}
use cand_cppwith_linux.Avl.{AvlNode, set_child}
use cand_cppwith_linux.Avl.Tree.{
  Tree, leaf, node, height, size, root, has, inorder, Ctx, top, left_of, right_of, parent_of, plug,
  ctx_has,
}
use cand_cppwith_linux.Avl.Balance.{IsAvl}
use cand_cppwith_linux.Avl.Nodes.{IsDistinct, IsApart, away_from_ctx}
use cand_cppwith_linux.Avl.Shape.{IsTree, Links, IsCtx, frame, frame_ctx}
use cand_cppwith_linux.Avl.Insert.{avl_fix-Inserted}
use cand_cppwith_linux.Zset.{ZNode, ZNodes, attach, tree_add}
use cand_cppwith_linux.Zset.Order.{before, before_trans}
use cand_cppwith_linux.Zset.Query.{Members, AllAfter, IsSorted, AllFail, IsCut}
use cand_cppwith_linux.Zset.Place.{
  left_part, right_part, inorder-plug, size-plug, not_above, not_above-at, AllPass, IsSide,
  add_loop-Place,
}

has-plug : (a : Ptr) (t : Tree) (c : Ctx) → has a (plug t c) ≡ (has a t || ctx_has a c)
has-plug a t top = ground arith
has-plug a t (left_of p r up) = has-plug a (node t p r) up ∙ ground arith
has-plug a t (right_of l p up) = has-plug a (node l p t) up ∙ ground arith

-- a subtree may grow by a new address
IsApart-grow :
    (p : Ptr) (t u : Tree) (c : Ctx)
    → ((a : Ptr) → has a u ≡ true → (has a t ≡ true) ⊎ (a ≡ p))
    → ctx_has p c ≡ false
    → IsApart t c
    → IsApart u c
IsApart-grow p t u top sub new a = tt
IsApart-grow p t u (left_of s r up) sub new (away, n, d, a) = (
  (λ b m. elim (sub b m) [
    | inl e ↦ away b e
    | inr e ↦ (ground arith, ap (λ z. has z r) e ∙ ground arith)
  ]),
  n,
  d,
  IsApart-grow p (node t s r) (node u s r) up
      (λ b m. elim (Bool-cases (has b u)) [
        | inl e ↦ elim (sub b e) [ inl f ↦ inl (ground arith) | inr f ↦ inr f ]
        | inr e ↦ inl (ground arith)
      ])
      (ground arith) a,
)
IsApart-grow p t u (right_of l s up) sub new (away, n, d, a) = (
  (λ b m. elim (sub b m) [
    | inl e ↦ away b e
    | inr e ↦ (ground arith, ap (λ z. has z l) e ∙ ground arith)
  ]),
  n,
  d,
  IsApart-grow p (node l s t) (node l s u) up
      (λ b m. elim (Bool-cases (has b u)) [
        | inl e ↦ elim (sub b e) [ inl f ↦ inl (ground arith) | inr f ↦ inr f ]
        | inr e ↦ inl (ground arith)
      ])
      (ground arith) a,
)

-- the new node hangs at the place
abbrev Hung : Ptr → Ctx → Mem AvlNode → Type 0
Hung p c g = Links g p null null (parent_of c) × IsCtx g p c

module _ (p : Ptr) (h : Mem AvlNode) (par : Ptr) (new : Links h p null null par) where
  around :
      (s : Ptr) (o : Tree) (up : Ctx) (g : Mem AvlNode)
      → ((a : Ptr) → a ≢ s → a ≢ p → g a ≡ h a)
      → has s o ≡ false
      → has p o ≡ false
      → ctx_has p up ≡ false
      → ((a : Ptr) → ctx_has a up ≡ true → a ≢ s)
      → IsTree h s o
      → IsCtx h s up
      → IsTree g s o × IsCtx g s up
  around s o up g same so po pu su it ic = (
    frame h g s o (λ a m. same a (ground arith) (ground arith)) it,
    frame_ctx h g s up (λ a m. same a (su a m) (ground arith)) ic,
  )

  attach-Hung :
      (c : Ctx) (side : Bool)
      → IsSide c side
      → IsCtx h null c
      → IsApart leaf c
      → ctx_has p c ≡ false
      → Ends (λ _ g. Hung p c g) (attach (parent_of c) side p h)
  unfolding attach set_child
  attach-Hung top side s ic a free =
      rw (modify-ok h new.ne new.at _)
        (ends (record { ne = new.ne; old_depth = _; old_cnt = _; at = write_self h p _ }, tt))
  attach-Hung (left_of s r up) side e (k, ir, iu) (away, n, d, a) free =
      let live : (s == null) ≡ false = ground (arith, k.ne) in
      let apart : p ≢ s = ground arith in
      let n₁ : AvlNode = record {
        depth = k.old_depth;
        cnt = k.old_cnt;
        left = p;
        right = root r;
        parent = parent_of up;
      } in
      let h₁ = write h s n₁ in
      let at₁ = write_ne h s n₁ p apart ∙ new.at in
      let n₂ : AvlNode = record {
        depth = new.old_depth;
        cnt = new.old_cnt;
        left = null;
        right = null;
        parent = s;
      } in
      let g = write h₁ p n₂ in
      let (tree, way) =
        around s r up g (λ b bs bp. write_ne h₁ p n₂ b bp ∙ write_ne h s n₁ b bs) n (ground arith)
          (ground arith) (λ b m. let out = away_from_ctx (node leaf s r) up b a m in ground arith)
          ir iu in
      rw (e, live, modify-ok h k.ne k.at _, modify-ok h₁ new.ne at₁ _)
        (ends (
          record { ne = new.ne; old_depth = _; old_cnt = _; at = write_self h₁ p n₂ },
          (
            record {
              ne = k.ne;
              old_depth = _;
              old_cnt = _;
              at = write_ne h₁ p n₂ s (λ z. apart (sym z)) ∙ write_self h s n₁;
            },
            tree,
            way,
          ),
        ))
  attach-Hung (right_of l s up) side e (k, il, iu) (away, n, d, a) free =
      let live : (s == null) ≡ false = ground (arith, k.ne) in
      let apart : p ≢ s = ground arith in
      let n₁ : AvlNode = record {
        depth = k.old_depth;
        cnt = k.old_cnt;
        left = root l;
        right = p;
        parent = parent_of up;
      } in
      let h₁ = write h s n₁ in
      let at₁ = write_ne h s n₁ p apart ∙ new.at in
      let n₂ : AvlNode = record {
        depth = new.old_depth;
        cnt = new.old_cnt;
        left = null;
        right = null;
        parent = s;
      } in
      let g = write h₁ p n₂ in
      let (tree, way) =
        around s l up g (λ b bs bp. write_ne h₁ p n₂ b bp ∙ write_ne h s n₁ b bs) n (ground arith)
          (ground arith) (λ b m. let out = away_from_ctx (node l s leaf) up b a m in ground arith)
          il iu in
      rw (e, live, modify-ok h k.ne k.at _, modify-ok h₁ new.ne at₁ _)
        (ends (
          record { ne = new.ne; old_depth = _; old_cnt = _; at = write_self h₁ p n₂ },
          (
            record {
              ne = k.ne;
              old_depth = _;
              old_cnt = _;
              at = write_ne h₁ p n₂ s (λ z. apart (sym z)) ∙ write_self h s n₁;
            },
            tree,
            way,
          ),
        ))

-- of the members behind one that is above the new one, each is above it
above_behind :
    (zs : ZNodes) (x : ZNode) (q : Ptr) (y : ZNode) (qs : List Ptr)
    → zs q ≡ some y
    → before x y ≡ true
    → AllAfter zs q qs
    → Members zs qs
    → AllFail (not_above zs x) qs
above_behind zs x q y [] at e a m = tt
above_behind zs x q y (r ∷ qs) at e (h, a) ((z, zr, _), m) = (
  not_above-at zs x r z zr ∙ ap not (before_trans x y z e (h y z at zr)),
  above_behind zs x q y qs at e a m,
)

sorted_above :
    (zs : ZNodes) (x : ZNode) (qs : List Ptr)
    → IsSorted zs qs
    → Members zs qs
    → IsCut (not_above zs x) qs
sorted_above zs x [] s m = tt
sorted_above zs x (q ∷ qs) (a, s) ((y, at, _), m) = (
  (λ e.
      above_behind zs x q y qs at (not_false (before x y) (sym (not_above-at zs x q y at) ∙ e)) a
        m),
  sorted_above zs x qs s m,
)
  where
    not_false : (b : Bool) → not b ≡ false → b ≡ true
    not_false true e = refl
    not_false false e = absurd (cc)

-- The tree at `q` in `g` is that of `t` with the address `p` between those whose members the new
-- one is not less than and the others.
pub record Added (zs : ZNodes) (x : ZNode) (p : Ptr) (t : Tree) (q : Ptr) (g : Mem AvlNode)
    : Type 0 where
  pub after : Tree
  pub at_root : q ≡ root after
  pub memory : IsTree g null after
  pub avl : IsAvl after
  pub low : List Ptr
  pub high : List Ptr
  pub was : inorder t ≡ low ++ high
  pub is : inorder after ≡ low ++ (p ∷ high)
  pub not_less : AllPass (not_above zs x) low
  pub less : AllFail (not_above zs x) high

-- On an AVL tree in memory whose members are sorted by zless, with more fuel than the tree is high,
-- tree_add of a new initialised node ends without a fault. It returns the root of an AVL tree in which
-- every depth, count and parent pointer is right; the old members stand in it in their order, and the
-- new one between those that it is not less than and those that it is less than.
pub tree_add-Added :
    (zs : ZNodes) (fuel : ℕ) (t : Tree) (p : Ptr) (x : ZNode) (h : Mem AvlNode)
    → zs p ≡ some x
    → length x.name < u32_mod
    → height t < fuel
    → IsTree h null t
    → IsDistinct t
    → IsAvl t
    → size t + 3 < u32_mod
    → Members zs (inorder t)
    → IsSorted zs (inorder t)
    → has p t ≡ false
    → Links h p null null null
    → Ends (Added zs x p t) (tree_add zs fuel (root t) p h)
unfolding tree_add
tree_add-Added zs fuel t p x h at short enough tree distinct avl few members sorted fresh new =
    Ends-bind
      (add_loop-Place zs p x at short h t fuel t top null false enough tree tt distinct tt avl tt
        (omega arith) refl refl tt members (sorted_above zs x (inorder t) sorted members) tt tt)
      λ (cur, side) g place.
        let way = place.way in
        let there : (false || ctx_has p way) ≡ false =
          sym (has-plug p leaf way) ∙ (ap (has p) place.same ∙ fresh) in
        let free : ctx_has p way ≡ false = there in
        let grown =
          IsApart-grow p leaf (node leaf p leaf) way (λ b m. inr (ground (arith, m))) free
            place.apart in
        rw (place.cur, place.memory)
          (Ends-bind (attach-Hung p h null new way side place.side place.ctx place.apart free)
            λ _ g₁ (links, ctx).
              Ends-map
                (avl_fix-Inserted fuel g₁ p way (omega (arith, place.near)) links ctx grown
                  place.avl (omega (arith, size-plug leaf way, ap size place.same)))
                λ q g₂ (after, e, memory, is_avl, order). record {
                  after = after;
                  at_root = e;
                  memory = memory;
                  avl = is_avl;
                  low = left_part way;
                  high = right_part way;
                  was = ap inorder (sym place.same) ∙ inorder-plug leaf way;
                  is = order ∙ inorder-plug (node leaf p leaf) way;
                  not_less = place.before_it;
                  less = place.behind_it;
                })
