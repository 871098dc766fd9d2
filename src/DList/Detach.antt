-- ===== src/DList/Detach.antt =====
-- dlist_detach takes a node out of a ring.
use mathlib.Core.List.{append-nil}
use cand_cppwith_linux.Base.{
  ◌≡◌, ◌≢◌, refl, sym, ap, ◌∙◌, true, false, Bool-cases, inl, inr, ◌⊎◌, List, [], ◌∷◌, ◌++◌, arith,
  ◌==◌, ==_iff,
}
use cand_cppwith_linux.Memory.{Ptr, null, Mem, Ends, Ends-bind, Ends-map, load-ok}
use cand_cppwith_linux.DList.{DList, dlist_detach}
use cand_cppwith_linux.DList.Ring.{
  NextIs, PrevIs, IsLinked, is_in, IsFresh, IsRing, last_of, last-is_in, not_in, fresh_live,
  IsLinked-append, IsLinked-split, linked_last, relinked, modify-NextSet, modify-PrevSet, some_same,
}

is_in-right : (a : Ptr) (xs ys : List Ptr) → is_in a ys ≡ true → is_in a (xs ++ ys) ≡ true
is_in-right a [] ys i = i
is_in-right a (x ∷ xs) ys i = ground (arith, is_in-right a xs ys i)

is_in-less :
    (a x : Ptr) (xs ys : List Ptr) → is_in a (xs ++ (x ∷ ys)) ≡ false → is_in a (xs ++ ys) ≡ false
is_in-less a x [] ys f = ground arith
is_in-less a x (y ∷ xs) ys f = ground (arith, is_in-less a x xs ys)

IsFresh-left : (xs ys : List Ptr) → IsFresh (xs ++ ys) → IsFresh xs
IsFresh-left [] ys f = tt
IsFresh-left (x ∷ xs) ys (live, out, f) = (live, out_left x xs ys out, IsFresh-left xs ys f)
  where
    out_left : (a : Ptr) (xs ys : List Ptr) → is_in a (xs ++ ys) ≡ false → is_in a xs ≡ false
    out_left a [] ys f = refl
    out_left a (x ∷ xs) ys f = ground (arith, out_left a xs ys)

IsFresh-right : (xs ys : List Ptr) → IsFresh (xs ++ ys) → IsFresh ys
IsFresh-right [] ys f = f
IsFresh-right (x ∷ xs) ys (live, out, f) = IsFresh-right xs ys f

IsFresh-less : (x : Ptr) (xs ys : List Ptr) → IsFresh (xs ++ (x ∷ ys)) → IsFresh (xs ++ ys)
IsFresh-less x [] ys (_, _, f) = f
IsFresh-less x (y ∷ xs) ys (live, out, f) = (live, is_in-less y x xs ys out, IsFresh-less x xs ys f)

apart_parts :
    (a b : Ptr) (xs ys : List Ptr)
    → IsFresh (xs ++ ys)
    → is_in a xs ≡ true
    → is_in b ys ≡ true
    → a ≢ b
apart_parts a b [] ys f i j = absurd (cc)
apart_parts a b (x ∷ xs) ys (live, out, f) i j = elim (Bool-cases (a == x)) [
  | inl e ↦
      λ same. not_in x b (xs ++ ys) out (is_in-right b xs ys j) (sym ((==_iff a x).0 e) ∙ same)
  | inr e ↦ apart_parts a b xs ys f (ground arith) j
]

-- links between nodes that keep their fields
IsLinked-kept :
    (m g : Mem DList) (a : Ptr) (xs : List Ptr) (b : Ptr)
    → ((s t : Ptr) → is_in s (a ∷ xs) ≡ true → NextIs m s t → NextIs g s t)
    → ((s t : Ptr) → (is_in s xs ≡ true) ⊎ (s ≡ b) → PrevIs m s t → PrevIs g s t)
    → IsLinked m a xs b
    → IsLinked g a xs b
IsLinked-kept m g a [] b ns ps (n, p) = (ns a b (ground arith) n, ps b a (inr refl) p)
IsLinked-kept m g a (x ∷ xs) b ns ps (n, p, l) = (
  ns a x (ground arith) n,
  ps x a (inl (ground arith)) p,
  IsLinked-kept m g x xs b (λ s t i. ns s t (ground arith))
      (λ s t i. ps s t (elim i [ inl j ↦ inl (ground arith) | inr e ↦ inr e ])) l,
)

-- the two writes, where the node is between `z` and `y`
abbrev Bridged : Mem DList → Ptr → Ptr → Mem DList → Type 0
Bridged m z y g =
    NextIs g z y
    × PrevIs g y z
    × ((s t : Ptr) → s ≢ z → NextIs m s t → NextIs g s t)
    × ((s t : Ptr) → s ≢ y → PrevIs m s t → PrevIs g s t)

detach-Bridged :
    (m : Mem DList) (x z y : Ptr)
    → x ≢ null
    → z ≢ null
    → y ≢ null
    → NextIs m z x
    → PrevIs m x z
    → NextIs m x y
    → PrevIs m y x
    → Ends (λ _ g. Bridged m z y g) (dlist_detach x m)
unfolding dlist_detach
detach-Bridged m x z y lx lz ly zx (n, at, back) (n', at', on) yx =
    let on_n : n.next ≡ y = ap DList.next (some_same (sym at ∙ at')) ∙ on in
    rw (load-ok m lx at, back, on_n)
      (Ends-bind (modify-NextSet m z x y lz zx) λ _ g₁ c₁.
        Ends-map (modify-PrevSet g₁ y x z ly (c₁.prevs y x yx)) λ _ g c₂. (
          c₂.nexts z y c₁.now,
          c₂.now,
          (λ s t ne k. c₂.nexts s t (c₁.nexts s t ne k)),
          λ s t ne k. c₂.prevs s t ne (c₁.prevs s t k),
        ))

-- dlist_detach of a node of a ring ends without a fault and leaves the ring of the other nodes, in
-- their order.
pub dlist_detach-IsRing :
    (m : Mem DList) (h x : Ptr) (l r : List Ptr)
    → IsRing m h (l ++ (x ∷ r))
    → Ends (λ _ g. IsRing g h (l ++ r)) (dlist_detach x m)
dlist_detach-IsRing m h x l r (fresh, links) =
    let (first, second) = IsLinked-split m h l x r h links in
    let (zx, xz) = linked_last m h l x first in
    let z_in = last-is_in h l in
    let fresh_hl = IsFresh-left (h ∷ l) (x ∷ r) fresh in
    let lz = fresh_live (last_of h l) (h ∷ l) fresh_hl z_in in
    let lx = (IsFresh-right (h ∷ l) (x ∷ r) fresh).0 in
    at_end r fresh second fresh_hl zx xz lz lx first
  where
    at_end :
        (r : List Ptr)
        → IsFresh (h ∷ (l ++ (x ∷ r)))
        → IsLinked m x r h
        → IsFresh (h ∷ l)
        → NextIs m (last_of h l) x
        → PrevIs m x (last_of h l)
        → last_of h l ≢ null
        → x ≢ null
        → IsLinked m h l x
        → Ends (λ _ g. IsRing g h (l ++ r)) (dlist_detach x m)
    at_end [] fresh (xh, hx) hl zx xz lz lx first =
        Ends-map (detach-Bridged m x (last_of h l) h lx lz (fresh.0) zx xz xh hx)
          λ _ g (zy, yz, ns, ps). (
            IsFresh-less x (h ∷ l) [] fresh,
            rw (append-nil l) (
                relinked m g h l x h hl (λ s t i ne k. ns s t ne k)
                  (λ s t i k. ps s t (λ e. not_in h s l (hl.1) i (sym e)) k) zy yz first),
          )
    at_end (y ∷ r) fresh (xy, yx, rest) hl zx xz lz lx first =
        let behind : IsFresh (y ∷ r) = (IsFresh-right (h ∷ l) (x ∷ (y ∷ r)) fresh).2 in
        let parts = IsFresh-less x (h ∷ l) (y ∷ r) fresh in
        let z_in = last-is_in h l in
        Ends-map (detach-Bridged m x (last_of h l) y lx lz (behind.0) zx xz xy yx)
          λ _ g (zy, yz, ns, ps). (
            parts,
            IsLinked-append g h l y r h
                (relinked m g h l x y hl (λ s t i ne k. ns s t ne k)
                  (λ s t i k.
                    ps s t (apart_parts s y (h ∷ l) (y ∷ r) parts (ground arith) (ground arith)) k)
                  zy yz first)
                (IsLinked-kept m g y r h
                  (λ s t i k.
                    ns s t (λ e. apart_parts (last_of h l) s (h ∷ l) (y ∷ r) parts z_in i (sym e))
                      k)
                  (λ s t i k.
                    ps s t
                      (elim i [
                        | inl j ↦ λ e. not_in y s r (behind.1) j (sym e)
                        | inr j ↦ λ e.
                            apart_parts h y (h ∷ l) (y ∷ r) parts (ground arith) (ground arith)
                              (sym j ∙ e)
                      ])
                      k)
                  rest),
          )
