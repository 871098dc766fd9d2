-- ===== src/Zset/Query.antt =====
-- zset_query finds the first member that is not less than the tuple.
use cand_cppwith_linux.Base.{
  ℕ, zero, suc, ◌<◌, ◌≡◌, refl, sym, ap, ◌∙◌, Bool, true, false, Bool-cases, inl, inr, Option, some,
  none, List, [], ◌∷◌, ◌++◌, ok, arith, ◌==◌, if◌then◌else◌, length,
}
use cand_cppwith_linux.Memory.{Ptr, null, Mem, load-ok}
use cand_cppwith_linux.Wire.{Bytes, u32_mod}
use cand_cppwith_linux.Avl.{AvlNode}
use cand_cppwith_linux.Avl.Tree.{Tree, leaf, node, height, root, inorder}
use cand_cppwith_linux.Avl.Shape.{IsTree}
use cand_cppwith_linux.Zset.{ZNode, ZNodes, lift, query_loop, zset_query}
use cand_cppwith_linux.Zset.Order.{before, before_trans, the_tuple, zless-before}

-- each address holds a member, whose name has less than 2^32 bytes
abbrev pub Members : ZNodes → List Ptr → Type 0
Members zs [] = Unit {0}
Members zs (p ∷ ps) = ((x : ZNode) × (zs p ≡ some x) × (length x.name < u32_mod)) × Members zs ps

-- the member at `p` is before each of the others
abbrev pub AllAfter : ZNodes → Ptr → List Ptr → Type 0
AllAfter zs p [] = Unit {0}
AllAfter zs p (q ∷ qs) =
    ((x y : ZNode) → zs p ≡ some x → zs q ≡ some y → before x y ≡ true) × AllAfter zs p qs

abbrev pub IsSorted : ZNodes → List Ptr → Type 0
IsSorted zs [] = Unit {0}
IsSorted zs (p ∷ ps) = AllAfter zs p ps × IsSorted zs ps

-- the member at an address is less than the tuple
abbrev pub is_less : ZNodes → ZNode → Ptr → Bool
is_less zs y p = elim (zs p) [ none ↦ false | some x ↦ before x y ]

is_less-at :
    (zs : ZNodes) (y : ZNode) (p : Ptr) (x : ZNode) → zs p ≡ some x → is_less zs y p ≡ before x y
is_less-at zs y p x at = ap (λ (o : Option ZNode). elim o [ none ↦ false | some x ↦ before x y ]) at

-- the first address that does not pass the test, or `found`
abbrev pub first_from : (Ptr → Bool) → Ptr → List Ptr → Ptr
first_from f found [] = found
first_from f found (p ∷ ps) = if f p then first_from f found ps else p

abbrev pub AllFail : (Ptr → Bool) → List Ptr → Type 0
AllFail f [] = Unit {0}
AllFail f (p ∷ ps) = (f p ≡ false) × AllFail f ps

-- those that pass the test stand before those that do not
abbrev pub IsCut : (Ptr → Bool) → List Ptr → Type 0
IsCut f [] = Unit {0}
IsCut f (p ∷ ps) = (f p ≡ false → AllFail f ps) × IsCut f ps

pub contradict : {b : Bool} → b ≡ true → b ≡ false → ⊥
contradict e f = cc

module _ (f : Ptr → Bool) where
  pub fails_at : (l : List Ptr) (p : Ptr) (r : List Ptr) → AllFail f (l ++ (p ∷ r)) → f p ≡ false
  fails_at [] p r (e, _) = e
  fails_at (a ∷ l) p r (_, h) = fails_at l p r h

  pub fails_left : (l r : List Ptr) → AllFail f (l ++ r) → AllFail f l
  fails_left [] r h = tt
  fails_left (a ∷ l) r (e, h) = (e, fails_left l r h)

  pub IsCut-left : (l r : List Ptr) → IsCut f (l ++ r) → IsCut f l
  IsCut-left [] r c = tt
  IsCut-left (a ∷ l) r (h, c) = ((λ e. fails_left l r (h e)), IsCut-left l r c)

  pub IsCut-right : (l : List Ptr) (p : Ptr) (r : List Ptr) → IsCut f (l ++ (p ∷ r)) → IsCut f r
  IsCut-right [] p r (_, c) = c
  IsCut-right (a ∷ l) p r (_, c) = IsCut-right l p r c

  first_skip :
      (l : List Ptr) (p : Ptr) (r : List Ptr) (found : Ptr)
      → IsCut f (l ++ (p ∷ r))
      → f p ≡ true
      → first_from f found (l ++ (p ∷ r)) ≡ first_from f found r
  first_skip [] p r found c e = rw e refl
  first_skip (a ∷ l) p r found (h, c) e = elim (Bool-cases (f a)) [
    | inl t ↦ rw t (first_skip l p r found c e)
    | inr t ↦ absurd (contradict e (fails_at l p r (h t)))
  ]

  first_stop :
      (l : List Ptr) (p : Ptr) (r : List Ptr) (found : Ptr)
      → f p ≡ false
      → first_from f found (l ++ (p ∷ r)) ≡ first_from f p l
  first_stop [] p r found e = rw e refl
  first_stop (a ∷ l) p r found e = rw (first_stop l p r found e) refl

fails_after :
    (zs : ZNodes) (y : ZNode) (p : Ptr) (x : ZNode) (qs : List Ptr)
    → zs p ≡ some x
    → before x y ≡ false
    → AllAfter zs p qs
    → Members zs qs
    → AllFail (is_less zs y) qs
fails_after zs y p x [] at e a m = tt
fails_after zs y p x (q ∷ qs) at e (h, a) ((z, zq, _), m) = (
  is_less-at zs y q z zq ∙ (elim (Bool-cases (before z y)) [
    | inl t ↦ absurd (contradict (before_trans x z y (h x z at zq) t) e)
    | inr t ↦ t
  ]),
  fails_after zs y p x qs at e a m,
)

sorted-IsCut :
    (zs : ZNodes) (y : ZNode) (ps : List Ptr)
    → IsSorted zs ps
    → Members zs ps
    → IsCut (is_less zs y) ps
sorted-IsCut zs y [] s m = tt
sorted-IsCut zs y (p ∷ ps) (a, s) ((x, at, _), m) = (
  (λ e. fails_after zs y p x ps at (sym (is_less-at zs y p x at) ∙ e) a m),
  sorted-IsCut zs y ps s m,
)

pub Members-left : (zs : ZNodes) (l r : List Ptr) → Members zs (l ++ r) → Members zs l
Members-left zs [] r m = tt
Members-left zs (a ∷ l) r (x, m) = (x, Members-left zs l r m)

pub Members-right : (zs : ZNodes) (l r : List Ptr) → Members zs (l ++ r) → Members zs r
Members-right zs [] r m = m
Members-right zs (a ∷ l) r (_, m) = Members-right zs l r m

module _ (zs : ZNodes) (score : ℕ) (name : Bytes) (short : length name < u32_mod)
    (h : Mem AvlNode) where
  abbrev passes : Ptr → Bool
  passes = is_less zs (the_tuple score name)

  query_loop-first :
      (k : ℕ) (par : Ptr) (t : Tree) (found : Ptr)
      → height t < k
      → IsTree h par t
      → Members zs (inorder t)
      → IsCut passes (inorder t)
      → query_loop zs score name k (root t) found h ≡ ok (first_from passes found (inorder t), h)
  unfolding query_loop lift
  query_loop-first zero par t found enough i m c = absurd (omega (arith, enough))
  query_loop-first (suc k) par leaf found enough i m c = refl
  query_loop-first (suc k) par (node l p r) found enough (ne, at, il, ir) m c =
      let live : (p == null) ≡ false = ground (arith, ne) in
      let ((x, here, small), mr) = Members-right zs (inorder l) (p ∷ inorder r) m in
      let tested = zless-before zs p x score name here small short in
      let on_left =
        query_loop-first k p l p (omega arith) il (Members-left zs (inorder l) (p ∷ inorder r) m)
          (IsCut-left passes (inorder l) (p ∷ inorder r) c) in
      let on_right =
        query_loop-first k p r found (omega arith) ir mr
          (IsCut-right passes (inorder l) p (inorder r) c) in
      let same : passes p ≡ before x (the_tuple score name) =
        is_less-at zs (the_tuple score name) p x here in
      rw (live, tested, load-ok h ne at)
        (elim (Bool-cases (before x (the_tuple score name))) [
          | inl e ↦
              rw (e, on_right)
                (ap (λ q. ok (q, h))
                  (sym (first_skip passes (inorder l) p (inorder r) found c (same ∙ e))))
          | inr e ↦
              rw (e, on_left)
                (ap (λ q. ok (q, h))
                  (sym (first_stop passes (inorder l) p (inorder r) found (same ∙ e))))
        ])

-- On a tree in memory whose members are sorted by zless, with more fuel than the tree is high,
-- zset_query ends and returns the first member, in the order, that is not less than the score and
-- the name, or NULL if all are less.
pub zset_query-first :
    (zs : ZNodes) (fuel : ℕ) (t : Tree) (score : ℕ) (name : Bytes) (h : Mem AvlNode)
    → length name < u32_mod
    → height t < fuel
    → IsTree h null t
    → Members zs (inorder t)
    → IsSorted zs (inorder t)
    → zset_query zs fuel (root t) score name h
      ≡ ok (first_from (is_less zs (the_tuple score name)) null (inorder t), h)
unfolding zset_query
zset_query-first zs fuel t score name h short enough i m s =
    query_loop-first zs score name short h fuel null t null enough i m
      (sorted-IsCut zs (the_tuple score name) (inorder t) s m)
