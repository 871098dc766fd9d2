-- ===== src/DList/Ring.antt =====
-- A ring in memory is the list of its nodes behind the head.
use cand_cppwith_linux.Base.{
  ◌≡◌, ◌≢◌, refl, sym, ap, ◌∙◌, Bool, true, false, Bool-cases, inl, inr, Option, some, none, List,
  [], ◌∷◌, ◌++◌, arith, ◌==◌, ==_iff, if◌then◌else◌,
}
use cand_cppwith_linux.Memory.{
  Ptr, null, Mem, Ends, ends, Ends-bind, Ends-map, load-ok, modify, modify-ok, write, write_self,
  write_ne,
}
use cand_cppwith_linux.DList.{DList, dlist_insert_before}

-- the node at an address has the field
abbrev pub NextIs : Mem DList → Ptr → Ptr → Type 0
NextIs m a b = (n : DList) × (m a ≡ some n) × (n.next ≡ b)

abbrev pub PrevIs : Mem DList → Ptr → Ptr → Type 0
PrevIs m a b = (n : DList) × (m a ≡ some n) × (n.prev ≡ b)

-- the nodes from `a` over `xs` to `b` are linked in both directions
abbrev pub IsLinked : Mem DList → Ptr → List Ptr → Ptr → Type 0
IsLinked m a [] b = NextIs m a b × PrevIs m b a
IsLinked m a (x ∷ xs) b = NextIs m a x × PrevIs m x a × IsLinked m x xs b

abbrev pub is_in : Ptr → List Ptr → Bool
is_in a [] = false
is_in a (x ∷ xs) = if a == x then true else is_in a xs

abbrev pub IsFresh : List Ptr → Type 0
IsFresh [] = Unit {0}
IsFresh (x ∷ xs) = (x ≢ null) × (is_in x xs ≡ false) × IsFresh xs

-- the ring of the nodes `xs` with the head `h`
abbrev pub IsRing : Mem DList → Ptr → List Ptr → Type 0
IsRing m h xs = IsFresh (h ∷ xs) × IsLinked m h xs h

-- the last of the nodes from `a` over `xs`
abbrev pub last_of : Ptr → List Ptr → Ptr
last_of a [] = a
last_of a (x ∷ xs) = last_of x xs

pub IsLinked-append :
    (m : Mem DList) (a : Ptr) (xs : List Ptr) (y : Ptr) (ys : List Ptr) (b : Ptr)
    → IsLinked m a xs y
    → IsLinked m y ys b
    → IsLinked m a (xs ++ (y ∷ ys)) b
IsLinked-append m a [] y ys b (n, p) l = (n, p, l)
IsLinked-append m a (x ∷ xs) y ys b (n, p, k) l = (n, p, IsLinked-append m x xs y ys b k l)

pub IsLinked-split :
    (m : Mem DList) (a : Ptr) (xs : List Ptr) (y : Ptr) (ys : List Ptr) (b : Ptr)
    → IsLinked m a (xs ++ (y ∷ ys)) b
    → IsLinked m a xs y × IsLinked m y ys b
IsLinked-split m a [] y ys b (n, p, l) = ((n, p), l)
IsLinked-split m a (x ∷ xs) y ys b (n, p, k) =
    let (f, g) = IsLinked-split m x xs y ys b k in ((n, p, f), g)

-- the last node links to the end
pub linked_last :
    (m : Mem DList) (a : Ptr) (xs : List Ptr) (b : Ptr)
    → IsLinked m a xs b
    → NextIs m (last_of a xs) b × PrevIs m b (last_of a xs)
linked_last m a [] b l = l
linked_last m a (x ∷ xs) b (n, p, l) = linked_last m x xs b l

pub last-is_in : (a : Ptr) (xs : List Ptr) → is_in (last_of a xs) (a ∷ xs) ≡ true
last-is_in a [] = let e : (a == a) ≡ true = (==_iff a a).1 refl in rw e refl
last-is_in a (x ∷ xs) = elim (Bool-cases (last_of x xs == a)) [
  | inl e ↦ rw e refl
  | inr e ↦ rw e (last-is_in x xs)
]

pub not_in : (a b : Ptr) (xs : List Ptr) → is_in a xs ≡ false → is_in b xs ≡ true → a ≢ b
not_in a b xs f t e = no (sym f ∙ (ap (λ z. is_in z xs) e ∙ t))
  where
    no : false ≡ true → ⊥
    no e = cc

-- In a memory in which the nodes but the last keep their successors, the nodes `xs` their
-- predecessors, and the last node is linked to `c`, the nodes are linked from `a` to `c`.
pub relinked :
    (m g : Mem DList) (a : Ptr) (xs : List Ptr) (b c : Ptr)
    → IsFresh (a ∷ xs)
    → ((s t : Ptr) → is_in s (a ∷ xs) ≡ true → s ≢ last_of a xs → NextIs m s t → NextIs g s t)
    → ((s t : Ptr) → is_in s xs ≡ true → PrevIs m s t → PrevIs g s t)
    → NextIs g (last_of a xs) c
    → PrevIs g c (last_of a xs)
    → IsLinked m a xs b
    → IsLinked g a xs c
relinked m g a [] b c f ns ps n p l = (n, p)
relinked m g a (x ∷ xs) b c (live, out, f) ns ps n p (n₁, p₁, l) = (
  ns a x (ground arith) (not_in a (last_of x xs) (x ∷ xs) out (last-is_in x xs)) n₁,
  ps x a (ground arith) p₁,
  relinked m g x xs b c f (λ s t i. ns s t (ground arith)) (λ s t i. ps s t (ground arith)) n p l,
)

-- `g` is `m` but for the successor of `p`, which is `r`
pub record NextSet (m : Mem DList) (p r : Ptr) (g : Mem DList) : Type 0 where
  pub now : NextIs g p r
  pub nexts : (s t : Ptr) → s ≢ p → NextIs m s t → NextIs g s t
  pub prevs : (s t : Ptr) → PrevIs m s t → PrevIs g s t

pub record PrevSet (m : Mem DList) (p r : Ptr) (g : Mem DList) : Type 0 where
  pub now : PrevIs g p r
  pub prevs : (s t : Ptr) → s ≢ p → PrevIs m s t → PrevIs g s t
  pub nexts : (s t : Ptr) → NextIs m s t → NextIs g s t

pub some_same : {x y : DList} → some x ≡ some y → x ≡ y
some_same {x} e = ap (λ (o : Option DList). elim o [ none ↦ x | some z ↦ z ]) e

pub modify-NextSet :
    (m : Mem DList) (p b r : Ptr)
    → p ≢ null
    → NextIs m p b
    → Ends (λ _ g. NextSet m p r g) (modify p (λ n. record n { next = r }) m)
modify-NextSet m p b r live (n, at, e) =
    let n' : DList = record n { next = r } in
    rw (modify-ok m live at _) (
      ends (record {
        now = (n', write_self m p n', refl);
        nexts = λ s t ne (k, here, f). (k, write_ne m p n' s ne ∙ here, f);
        prevs = λ s t (k, here, f). elim (Bool-cases (s == p)) [
          | inl q ↦
              let same : s ≡ p = (==_iff s p).0 q in
              (
                n',
                ap (write m p n') same ∙ write_self m p n',
                ap DList.prev (some_same (sym at ∙ (ap m (sym same) ∙ here))) ∙ f,
              )
          | inr q ↦ (k, write_ne m p n' s (ground arith) ∙ here, f)
        ];
      }))

pub modify-PrevSet :
    (m : Mem DList) (p b r : Ptr)
    → p ≢ null
    → PrevIs m p b
    → Ends (λ _ g. PrevSet m p r g) (modify p (λ n. record n { prev = r }) m)
modify-PrevSet m p b r live (n, at, e) =
    let n' : DList = record n { prev = r } in
    rw (modify-ok m live at _) (
      ends (record {
        now = (n', write_self m p n', refl);
        prevs = λ s t ne (k, here, f). (k, write_ne m p n' s ne ∙ here, f);
        nexts = λ s t (k, here, f). elim (Bool-cases (s == p)) [
          | inl q ↦
              let same : s ≡ p = (==_iff s p).0 q in
              (
                n',
                ap (write m p n') same ∙ write_self m p n',
                ap DList.next (some_same (sym at ∙ (ap m (sym same) ∙ here))) ∙ f,
              )
          | inr q ↦ (k, write_ne m p n' s (ground arith) ∙ here, f)
        ];
      }))

pub fresh_live : (a : Ptr) (xs : List Ptr) → IsFresh xs → is_in a xs ≡ true → a ≢ null
fresh_live a [] f i = absurd (cc)
fresh_live a (x ∷ xs) (live, out, f) i = elim (Bool-cases (a == x)) [
  | inl e ↦ ground (arith, live)
  | inr e ↦ fresh_live a xs f (ground arith)
]

is_in-append :
    (a r : Ptr) (xs : List Ptr) → a ≢ r → is_in a xs ≡ false → is_in a (xs ++ (r ∷ [])) ≡ false
is_in-append a r [] ne f = ground arith
is_in-append a r (x ∷ xs) ne f = ground (arith, is_in-append a r xs ne)

IsFresh-append :
    (r : Ptr) (xs : List Ptr)
    → r ≢ null
    → IsFresh xs
    → is_in r xs ≡ false
    → IsFresh (xs ++ (r ∷ []))
IsFresh-append r [] live f out = (live, refl, tt)
IsFresh-append r (x ∷ xs) live (lx, ox, f) out =
    (lx, is_in-append x r xs (ground arith) ox, IsFresh-append r xs live f (ground arith))

-- dlist_insert_before of a node that is not in the ring, with the head as the target, puts it behind
-- all nodes of the ring, and ends without a fault.
pub dlist_insert_before-IsRing :
    (m : Mem DList) (h r : Ptr) (xs : List Ptr) (n : DList)
    → IsRing m h xs
    → r ≢ null
    → m r ≡ some n
    → is_in r (h ∷ xs) ≡ false
    → Ends (λ _ g. IsRing g h (xs ++ (r ∷ []))) (dlist_insert_before h r m)
unfolding dlist_insert_before
dlist_insert_before-IsRing m h r xs n (fresh, l) live at out =
    let z = last_of h xs in
    let z_in = last-is_in h xs in
    let (to_h, (t, at_h, back)) = linked_last m h xs h l in
    let rz : r ≢ z = not_in r z (h ∷ xs) out z_in in
    let rh : r ≢ h = not_in r h (h ∷ xs) out (ground arith) in
    rw (load-ok m (fresh.0) at_h, back)
      (Ends-bind (modify-NextSet m z h r (fresh_live z (h ∷ xs) fresh z_in) to_h) λ _ g₁ c₁.
        Ends-bind (modify-PrevSet g₁ r _ z live (c₁.prevs r _ (n, at, refl))) λ _ g₂ c₂.
          Ends-bind (modify-NextSet g₂ r _ h live (c₂.nexts r _ (c₁.nexts r _ rz (n, at, refl))))
            λ _ g₃ c₃.
              Ends-map
                (modify-PrevSet g₃ h _ r (fresh.0)
                  (c₃.prevs h _ (c₂.prevs h _ (λ e. rh (sym e)) (c₁.prevs h _ (t, at_h, back)))))
                λ _ g c₄.
                  let keep_next : (s u : Ptr)
                      → is_in s (h ∷ xs) ≡ true
                      → s ≢ z
                      → NextIs m s u
                      → NextIs g s u =
                    λ s u i ne k. c₄.nexts s u (
                      c₃.nexts s u (λ e. not_in r s (h ∷ xs) out i (sym e))
                        (c₂.nexts s u (c₁.nexts s u ne k))) in
                  let keep_prev : (s u : Ptr) → is_in s xs ≡ true → PrevIs m s u → PrevIs g s u =
                    λ s u i k.
                      c₄.prevs s u (λ e. not_in h s xs (fresh.1) i (sym e))
                        (c₃.prevs s u (
                          c₂.prevs s u (λ e. not_in r s (h ∷ xs) out (ground arith) (sym e))
                            (c₁.prevs s u k))) in
                  let z_r = c₄.nexts z r (c₃.nexts z r (λ e. rz (sym e)) (c₂.nexts z r c₁.now)) in
                  let r_z = c₄.prevs r z rh (c₃.prevs r z c₂.now) in
                  (
                    IsFresh-append r (h ∷ xs) live fresh out,
                    IsLinked-append g h xs r [] h
                        (relinked m g h xs h r fresh keep_next keep_prev z_r r_z l)
                        (c₄.nexts r h c₃.now, c₄.now),
                  ))
