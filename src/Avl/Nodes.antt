-- ===== src/Avl/Nodes.antt =====
-- The addresses in a tree and on the way to the root: distinct, and the same after rebalancing.
use cand_cppwith_linux.Base.{
  suc, ◌+◌, ◌≡◌, ◌≢◌, refl, sym, ◌∙◌, true, false, arith, ◌==◌, ltb, Bool-cases, inl, inr, length,
  length-append, ◌∷◌, ap,
}
use cand_cppwith_linux.Memory.{Ptr}
use cand_cppwith_linux.Avl.Tree.{
  Tree, leaf, node, height, size, inorder, has, rotate_left, rotate_right, prepare_left,
  prepare_right, balance, Ctx, top, left_of, right_of, ctx_has,
}
use cand_cppwith_linux.Avl.Balance.{inorder-balance}

abbrev pub Disjoint : Tree → Tree → Type 0
Disjoint s t = (a : Ptr) → has a s ≡ true → has a t ≡ false

abbrev pub IsDistinct : Tree → Type 0
IsDistinct leaf = Unit {0}
IsDistinct (node l p r) =
    (has p l ≡ false) × (has p r ≡ false) × Disjoint l r × IsDistinct l × IsDistinct r

-- the way to the root names no address twice, and none of the subtree's
abbrev pub IsApart : Tree → Ctx → Type 0
IsApart t top = Unit {0}
IsApart t (left_of p r up) =
    ((a : Ptr) → has a t ≡ true → (a ≢ p) × (has a r ≡ false))
    × (has p r ≡ false)
    × IsDistinct r
    × IsApart (node t p r) up
IsApart t (right_of l p up) =
    ((a : Ptr) → has a t ≡ true → (a ≢ p) × (has a l ≡ false))
    × (has p l ≡ false)
    × IsDistinct l
    × IsApart (node l p t) up

pub IsDistinct-left :
    (a : Tree) (q : Ptr) (b : Tree) (s : Ptr) (c : Tree)
    → IsDistinct (node a q (node b s c))
    → IsDistinct (node (node a q b) s c)
IsDistinct-left a q b s c d = (
  ground (arith, d.2 s),
  d.4.1,
  λ x m. ground (arith, d.2 x, d.4.2 x),
  (d.0, ground (arith, d.1), λ x m. ground (arith, d.2 x), d.3, d.4.3),
  d.4.4,
)

pub IsDistinct-right :
    (a : Tree) (q : Ptr) (b : Tree) (s : Ptr) (c : Tree)
    → IsDistinct (node (node a q b) s c)
    → IsDistinct (node a q (node b s c))
IsDistinct-right a q b s c d = (
  d.3.0,
  ground (arith, d.2 q),
  λ x m. ground (arith, d.2 x, d.3.2 x),
  d.3.3,
  (ground (arith, d.0), d.1, λ x m. ground (arith, d.2 x), d.3.4, d.4),
)

-- the same nodes on both sides of a left subtree's replacement
pub replace_left :
    (l l' : Tree) (p : Ptr) (r : Tree)
    → ((x : Ptr) → has x l' ≡ has x l)
    → IsDistinct l'
    → IsDistinct (node l p r)
    → IsDistinct (node l' p r)
replace_left l l' p r same dl d = (same p ∙ d.0, d.1, λ x m. d.2 x (sym (same x) ∙ m), dl, d.4)

pub replace_right :
    (l : Tree) (p : Ptr) (r r' : Tree)
    → ((x : Ptr) → has x r' ≡ has x r)
    → IsDistinct r'
    → IsDistinct (node l p r)
    → IsDistinct (node l p r')
replace_right l p r r' same dr d = (d.0, same p ∙ d.1, λ x m. same x ∙ d.2 x m, d.3, dr)

pub Disjoint-symm : (s t : Tree) → Disjoint s t → Disjoint t s
Disjoint-symm s t d x m = elim (Bool-cases (has x s)) [ inl e ↦ let f = d x e in cc | inr e ↦ e ]

pub out_node :
    (l : Tree) (p : Ptr) (r : Tree) (x : Ptr)
    → has x (node l p r) ≡ false
    → (x ≢ p) × (has x l ≡ false) × (has x r ≡ false)
out_node l p r x o = ground arith

pub has-left :
    (a : Tree) (q : Ptr) (b : Tree) (s : Ptr) (c : Tree) (x : Ptr)
    → has x (node (node a q b) s c) ≡ has x (node a q (node b s c))
has-left a q b s c x = ground arith

pub has_moved_left :
    (t u : Tree) (p : Ptr) (r : Tree) (x : Ptr)
    → has x t ≡ has x u
    → has x (node u p r) ≡ false
    → has x (node t p r) ≡ false
has_moved_left t u p r x e o = ground arith

pub has_moved_right :
    (t u : Tree) (p : Ptr) (l : Tree) (x : Ptr)
    → has x t ≡ has x u
    → has x (node l p u) ≡ false
    → has x (node l p t) ≡ false
has_moved_right t u p l x e o = ground arith

-- Rebalancing keeps the set of nodes, and their being distinct.
abbrev pub SameNodes : Tree → Tree → Type 0
SameNodes t u = (x : Ptr) → has x t ≡ has x u

SameNodes-rotate_left : (t : Tree) → SameNodes (rotate_left t) t
SameNodes-rotate_left leaf x = refl
SameNodes-rotate_left (node a p leaf) x = refl
SameNodes-rotate_left (node a p (node b q c)) x = has-left a p b q c x

SameNodes-rotate_right : (t : Tree) → SameNodes (rotate_right t) t
SameNodes-rotate_right leaf x = refl
SameNodes-rotate_right (node leaf p c) x = refl
SameNodes-rotate_right (node (node a q b) p c) x = sym (has-left a q b p c x)

SameNodes-prepare_left : (t : Tree) → SameNodes (prepare_left t) t
SameNodes-prepare_left leaf x = refl
SameNodes-prepare_left (node a q b) x = elim (Bool-cases (ltb (height a) (height b))) [
  | inl e ↦ rw e (SameNodes-rotate_left (node a q b) x)
  | inr e ↦ rw e
]

SameNodes-prepare_right : (t : Tree) → SameNodes (prepare_right t) t
SameNodes-prepare_right leaf x = refl
SameNodes-prepare_right (node b q c) x = elim (Bool-cases (ltb (height c) (height b))) [
  | inl e ↦ rw e (SameNodes-rotate_right (node b q c) x)
  | inr e ↦ rw e
]

pub SameNodes-balance : (l : Tree) (p : Ptr) (r : Tree) → SameNodes (balance l p r) (node l p r)
unfolding balance
SameNodes-balance l p r x = elim (Bool-cases (height l == height r + 2)) [
  | inl e ↦
      rw e (SameNodes-rotate_right (node (prepare_left l) p r) x ∙ rw (SameNodes-prepare_left l x))
  | inr e ↦ elim (Bool-cases (height l + 2 == height r)) [
    | inl f ↦
        rw (e, f)
          (SameNodes-rotate_left (node l p (prepare_right r)) x ∙ rw (SameNodes-prepare_right r x))
    | inr f ↦ rw (e, f)
  ]
]

IsDistinct-rotate_left : (t : Tree) → IsDistinct t → IsDistinct (rotate_left t)
IsDistinct-rotate_left leaf d = d
IsDistinct-rotate_left (node a p leaf) d = d
IsDistinct-rotate_left (node a p (node b q c)) d = IsDistinct-left a p b q c d

IsDistinct-rotate_right : (t : Tree) → IsDistinct t → IsDistinct (rotate_right t)
IsDistinct-rotate_right leaf d = d
IsDistinct-rotate_right (node leaf p c) d = d
IsDistinct-rotate_right (node (node a q b) p c) d = IsDistinct-right a q b p c d

IsDistinct-prepare_left : (t : Tree) → IsDistinct t → IsDistinct (prepare_left t)
IsDistinct-prepare_left leaf d = d
IsDistinct-prepare_left (node a q b) d = elim (Bool-cases (ltb (height a) (height b))) [
  | inl e ↦ rw e (IsDistinct-rotate_left (node a q b) d)
  | inr e ↦ rw e d
]

IsDistinct-prepare_right : (t : Tree) → IsDistinct t → IsDistinct (prepare_right t)
IsDistinct-prepare_right leaf d = d
IsDistinct-prepare_right (node b q c) d = elim (Bool-cases (ltb (height c) (height b))) [
  | inl e ↦ rw e (IsDistinct-rotate_right (node b q c) d)
  | inr e ↦ rw e d
]

pub IsDistinct-balance :
    (l : Tree) (p : Ptr) (r : Tree) → IsDistinct (node l p r) → IsDistinct (balance l p r)
unfolding balance
IsDistinct-balance l p r d = elim (Bool-cases (height l == height r + 2)) [
  | inl e ↦ rw e (
      IsDistinct-rotate_right (node (prepare_left l) p r) (
        replace_left l (prepare_left l) p r (SameNodes-prepare_left l)
          (IsDistinct-prepare_left l d.3) d))
  | inr e ↦ elim (Bool-cases (height l + 2 == height r)) [
    | inl f ↦
        rw (e, f)
          (IsDistinct-rotate_left (node l p (prepare_right r)) (
            replace_right l p r (prepare_right r) (SameNodes-prepare_right r)
              (IsDistinct-prepare_right r d.4) d))
    | inr f ↦ rw (e, f) d
  ]
]

pub IsApart-same : (t u : Tree) (c : Ctx) → SameNodes t u → IsApart u c → IsApart t c
IsApart-same t u top same a = tt
IsApart-same t u (left_of p r up) same (away, n, d, a) = (
  λ x m. away x (sym (same x) ∙ m),
  n,
  d,
  IsApart-same (node t p r) (node u p r) up (λ x. rw (same x)) a,
)
IsApart-same t u (right_of l p up) same (away, n, d, a) = (
  λ x m. away x (sym (same x) ∙ m),
  n,
  d,
  IsApart-same (node l p t) (node l p u) up (λ x. rw (same x)) a,
)

pub size-inorder : (t : Tree) → size t ≡ length (inorder t)
size-inorder leaf = refl
size-inorder (node l p r) =
    omega (arith, length-append (inorder l) (p ∷ inorder r), size-inorder l, size-inorder r)

pub size-balance : (l : Tree) (p : Ptr) (r : Tree) → size (balance l p r) ≡ suc (size l + size r)
size-balance l p r =
    size-inorder (balance l p r)
    ∙ ap length (inorder-balance l p r)
    ∙ sym (size-inorder (node l p r))

-- A node on the way to the root is none of the subtree's.
pub away_from_ctx :
    (t : Tree) (c : Ctx) (x : Ptr) → IsApart t c → ctx_has x c ≡ true → has x t ≡ false
away_from_ctx t top x a m = cc
away_from_ctx t (left_of p r up) x (away, n, d, a) m = elim (Bool-cases (ctx_has x up)) [
  | inl e ↦ ground (arith, away_from_ctx (node t p r) up x a e)
  | inr e ↦ elim (Bool-cases (has x t)) [ inl f ↦ ground (arith, away x) | inr f ↦ f ]
]
away_from_ctx t (right_of l p up) x (away, n, d, a) m = elim (Bool-cases (ctx_has x up)) [
  | inl e ↦ ground (arith, away_from_ctx (node l p t) up x a e)
  | inr e ↦ elim (Bool-cases (has x t)) [ inl f ↦ ground (arith, away x) | inr f ↦ f ]
]
