-- ===== src/Avl/Balance.antt =====
-- What rebalancing preserves and restores, on the abstract trees.
use mathlib.Core.List.{append_assoc}
use cand_cppwith_linux.Base.{
  ℕ, suc, ◌+◌, ◌≤◌, ◌≡◌, refl, ◌∙◌, ◌∷◌, ◌++◌, ◌⊎◌, max, ltb, ◌==◌, arith, Bool-cases, inl, inr,
}
use cand_cppwith_linux.Avl.Tree.{
  Tree, leaf, node, height, inorder, rotate_left, rotate_right, prepare_left, prepare_right,
  balance, Ctx, top, left_of, right_of, plug, fix_up,
}

abbrev pub IsAvl : Tree → Type 0
IsAvl leaf = Unit {0}
IsAvl (node l p r) = (height l ≤ height r + 1) × (height r ≤ height l + 1) × IsAvl l × IsAvl r

inorder-rotate_left : (t : Tree) → inorder (rotate_left t) ≡ inorder t
inorder-rotate_left leaf = refl
inorder-rotate_left (node a p leaf) = refl
inorder-rotate_left (node a p (node b q c)) = simp append_assoc

inorder-rotate_right : (t : Tree) → inorder (rotate_right t) ≡ inorder t
inorder-rotate_right leaf = refl
inorder-rotate_right (node leaf p c) = refl
inorder-rotate_right (node (node a q b) p c) = simp append_assoc

inorder-prepare_left : (t : Tree) → inorder (prepare_left t) ≡ inorder t
inorder-prepare_left leaf = refl
inorder-prepare_left (node a q b) = elim (Bool-cases (ltb (height a) (height b))) [
  | inl e ↦ rw e (inorder-rotate_left (node a q b))
  | inr e ↦ rw e
]

inorder-prepare_right : (t : Tree) → inorder (prepare_right t) ≡ inorder t
inorder-prepare_right leaf = refl
inorder-prepare_right (node b q c) = elim (Bool-cases (ltb (height c) (height b))) [
  | inl e ↦ rw e (inorder-rotate_right (node b q c))
  | inr e ↦ rw e
]

pub inorder-balance :
    (l : Tree) (p : ℕ) (r : Tree) → inorder (balance l p r) ≡ inorder l ++ (p ∷ inorder r)
unfolding balance
inorder-balance l p r = elim (Bool-cases (height l == height r + 2)) [
  | inl e ↦ rw (e, inorder-rotate_right, inorder-prepare_left)
  | inr e ↦ elim (Bool-cases (height l + 2 == height r)) [
    | inl f ↦ rw (e, f, inorder-rotate_left, inorder-prepare_right)
    | inr f ↦ rw (e, f)
  ]
]

inorder-plug :
    (s t : Tree) (c : Ctx) → inorder s ≡ inorder t → inorder (plug s c) ≡ inorder (plug t c)
inorder-plug s t top e = e
inorder-plug s t (left_of p r up) e = inorder-plug (node s p r) (node t p r) up (rw e)
inorder-plug s t (right_of l p up) e = inorder-plug (node l p s) (node l p t) up (rw e)

-- Rebalancing along a path keeps the order of all nodes.
pub inorder-fix_up : (t : Tree) (c : Ctx) → inorder (fix_up t c) ≡ inorder (plug t c)
unfolding fix_up
inorder-fix_up t top = refl
inorder-fix_up t (left_of p r up) =
    inorder-fix_up (balance t p r) up
    ∙ inorder-plug (balance t p r) (node t p r) up (inorder-balance t p r)
inorder-fix_up t (right_of l p up) =
    inorder-fix_up (balance l p t) up
    ∙ inorder-plug (balance l p t) (node l p t) up (inorder-balance l p t)

-- `t` is an AVL tree of the height `h` or `h + 1`
abbrev Near : ℕ → Tree → Type 0
Near h t = IsAvl t × (h ≤ height t) × (height t ≤ h + 1)

lean_left :
    (l : Tree) (p : ℕ) (r : Tree)
    → IsAvl l
    → IsAvl r
    → height l ≡ height r + 2
    → Near (height l) (rotate_right (node (prepare_left l) p r))
lean_left leaf p r a b e = absurd (omega arith)
lean_left (node x q leaf) p r a b e = ground arith
lean_left (node x q (node y s z)) p r a b e =
    elim (Bool-cases (ltb (height x) (height (node y s z)))) [
      | inl c ↦ rw c (ground arith)
      | inr c ↦ rw c (ground arith)
    ]

lean_right :
    (l : Tree) (p : ℕ) (r : Tree)
    → IsAvl l
    → IsAvl r
    → height l + 2 ≡ height r
    → Near (height r) (rotate_left (node l p (prepare_right r)))
lean_right l p leaf a b e = absurd (omega arith)
lean_right l p (node leaf q x) a b e = ground arith
lean_right l p (node (node y s z) q x) a b e =
    elim (Bool-cases (ltb (height x) (height (node y s z)))) [
      | inl c ↦ rw c (ground arith)
      | inr c ↦ rw c (ground arith)
    ]

pub balance-IsAvl :
    (l : Tree) (p : ℕ) (r : Tree)
    → IsAvl l
    → IsAvl r
    → height l ≤ height r + 2
    → height r ≤ height l + 2
    → Near (max (height l) (height r)) (balance l p r)
unfolding balance
balance-IsAvl l p r a b h k = elim (Bool-cases (height l == height r + 2)) [
  | inl e ↦ let n = lean_left l p r a b (ground arith) in rw e (n.0, ground arith, ground arith)
  | inr e ↦ elim (Bool-cases (height l + 2 == height r)) [
    | inl f ↦
        let n = lean_right l p r a b (ground arith) in rw (e, f) (n.0, ground arith, ground arith)
    | inr f ↦ rw (e, f) ((ground arith, ground arith, a, b), omega arith, omega arith)
  ]
]

-- Only nodes whose subtrees differ by more than one are changed.
balance_level :
    (l : Tree) (p : ℕ) (r : Tree)
    → (height (balance l p r) ≡ suc (max (height l) (height r)))
      ⊎ ((height r + 2 ≤ height l) ⊎ (height l + 2 ≤ height r))
unfolding balance
balance_level l p r = elim (Bool-cases (height l == height r + 2)) [
  | inl e ↦ inr (inl (ground arith))
  | inr e ↦ elim (Bool-cases (height l + 2 == height r)) [
    | inl f ↦ inr (inr (ground arith))
    | inr f ↦ rw (e, f) (inl refl)
  ]
]

-- every node above the position was balanced when the subtree there had the height `h`
abbrev pub IsAvlCtx : ℕ → Ctx → Type 0
IsAvlCtx h top = Unit {0}
IsAvlCtx h (left_of p r up) =
    (h ≤ height r + 1) × (height r ≤ h + 1) × IsAvl r × IsAvlCtx (suc (max h (height r))) up
IsAvlCtx h (right_of l p up) =
    (h ≤ height l + 1) × (height l ≤ h + 1) × IsAvl l × IsAvlCtx (suc (max (height l) h)) up

-- If a subtree of an AVL tree is replaced by an AVL tree whose height differs by at most one, then
-- rebalancing along the path makes the whole an AVL tree.
pub fix_up-IsAvl :
    (t : Tree) (c : Ctx) (h : ℕ)
    → IsAvlCtx h c
    → IsAvl t
    → h ≤ height t + 1
    → height t ≤ h + 1
    → IsAvl (fix_up t c)
unfolding fix_up
fix_up-IsAvl t top h v a p q = a
fix_up-IsAvl t (left_of s r up) h v a p q =
    let n = balance-IsAvl t s r a v.2 (omega arith) (omega arith) in
    fix_up-IsAvl (balance t s r) up (suc (max h (height r))) v.3 n.0
      (omega (arith, balance_level t s r)) (omega arith)
fix_up-IsAvl t (right_of l s up) h v a p q =
    let n = balance-IsAvl l s t v.2 a (omega arith) (omega arith) in
    fix_up-IsAvl (balance l s t) up (suc (max (height l) h)) v.3 n.0
      (omega (arith, balance_level l s t)) (omega arith)
