-- ===== src/Keyspace/Find.antt =====
-- The first node that passes a test, and what reorderings and writes do to it.
use mathlib.Core.Logic.{∥∥₁_elim}
use native.Mathlib.Nat.{ℕ_set}
use cand_cppwith_linux.Base.{
  suc, ◌≤◌, ◌<◌, ◌≡◌, refl, ap, ◌∙◌, inl, inr, ◌⊎◌, Bool-cases, Bool, true, false, List, [], ◌∷◌,
  Permᴰ, Perm, arith, if◌then◌else◌,
}
use cand_cppwith_linux.Base.Count.{to_nat, count_p, count_p-Permᴰ}
use cand_cppwith_linux.Memory.{Ptr, null}
use cand_cppwith_linux.HashTable.{HNode}

unfoldable pub ptr_of : (HNode Ptr → Bool) → List (HNode Ptr) → Ptr
ptr_of f [] = null
ptr_of f (n ∷ ns) = if f n then n.payload else ptr_of f ns

pub ptr_of-none :
    (f : HNode Ptr → Bool) (ns : List (HNode Ptr)) → count_p f ns ≡ 0 → ptr_of f ns ≡ null
unfolding ptr_of count_p
ptr_of-none f [] h = refl
ptr_of-none f (n ∷ ns) h = elim (Bool-cases (f n)) [
  | inl e ↦ absurd (omega (arith, h, ap to_nat e))
  | inr e ↦ rw e (ptr_of-none f ns (omega (arith, h, ap to_nat e)))
]

-- a node that passes, unless there is none
pub ptr_of-some :
    (f : HNode Ptr → Bool) (ns : List (HNode Ptr))
    → (count_p f ns ≡ 0)
      ⊎ ((n : HNode Ptr) × (f n ≡ true) × (ptr_of f ns ≡ n.payload) × (0 < count_p f ns))
unfolding ptr_of count_p
ptr_of-some f [] = inl refl
ptr_of-some f (n ∷ ns) = elim (Bool-cases (f n)) [
  | inl e ↦ inr (n, e, rw e refl, omega (arith, ap to_nat e))
  | inr e ↦ elim (ptr_of-some f ns) [
    | inl h ↦ inl (omega (arith, h, ap to_nat e))
    | inr (m, fm, at, pos) ↦ inr (m, fm, rw e at, omega (arith, pos))
  ]
]

ptr_of-Permᴰ :
    (f : HNode Ptr → Bool) {xs ys : List (HNode Ptr)}
    → Permᴰ xs ys
    → count_p f xs ≤ 1
    → ptr_of f xs ≡ ptr_of f ys
unfolding ptr_of count_p
ptr_of-Permᴰ f Permᴰ.nil h = refl
ptr_of-Permᴰ f (Permᴰ.cons {a = a} {b = b} e p) h =
    rw e (ap (λ r. if f b then b.payload else r) (ptr_of-Permᴰ f p (omega (arith, h))))
ptr_of-Permᴰ f (Permᴰ.swap {a = a} {b = b} {a' = c} {b' = d} e e') h =
    rw (e, e')
      (elim (Bool-cases (f d)) [
        | inr out ↦ rw out refl
        | inl first ↦ elim (Bool-cases (f c)) [
          | inr out ↦ rw (first, out) refl
          | inl also ↦ absurd (
              omega (
                arith,
                h,
                ap (λ n. to_nat (f n)) e,
                ap (λ n. to_nat (f n)) e',
                ap to_nat first,
                ap to_nat also,
              ))
        ]
      ])
ptr_of-Permᴰ f (Permᴰ.trans p q) h =
    ptr_of-Permᴰ f p h ∙ ptr_of-Permᴰ f q (omega (arith, h, count_p-Permᴰ f p))

-- Where at most one node passes, the order of the nodes does not matter.
pub ptr_of-perm :
    (f : HNode Ptr → Bool) {xs ys : List (HNode Ptr)}
    → count_p f xs ≤ 1
    → Perm xs ys
    → ptr_of f xs ≡ ptr_of f ys
ptr_of-perm f h p = ∥∥₁_elim p (ℕ_set _ _) λ d. ptr_of-Permᴰ f d h

pub ptr_of-ext :
    (f g : HNode Ptr → Bool) (ns : List (HNode Ptr))
    → ((n : HNode Ptr) → f n ≡ g n)
    → ptr_of f ns ≡ ptr_of g ns
unfolding ptr_of
ptr_of-ext f g [] e = refl
ptr_of-ext f g (n ∷ ns) e = rw (e n, ptr_of-ext f g ns e) refl

module _ {A : Type 0} where
  pub count_p-ext :
      (f g : A → Bool) (ns : List A) → ((n : A) → f n ≡ g n) → count_p f ns ≡ count_p g ns
  unfolding count_p
  count_p-ext f g [] e = refl
  count_p-ext f g (n ∷ ns) e = rw (e n, count_p-ext f g ns e) refl

  -- two tests that agree on what a third does not pass
  pub count_p-agree :
      (bad f g : A → Bool) (ns : List A)
      → count_p bad ns ≡ 0
      → ((n : A) → bad n ≡ false → f n ≡ g n)
      → count_p f ns ≡ count_p g ns
  unfolding count_p
  count_p-agree bad f g [] h e = refl
  count_p-agree bad f g (n ∷ ns) h e = elim (Bool-cases (bad n)) [
    | inl b ↦ absurd (omega (arith, h, ap to_nat b))
    | inr b ↦ rw (e n b, count_p-agree bad f g ns (omega (arith, h, ap to_nat b)) e) refl
  ]

  pub count_p-head :
      (f : A → Bool) (n : A) (ns : List A) → f n ≡ true → count_p f (n ∷ ns) ≡ suc (count_p f ns)
  unfolding count_p
  count_p-head f n ns e = rw e (omega arith)

  pub count_p-skip :
      (f : A → Bool) (n : A) (ns : List A) → f n ≡ false → count_p f (n ∷ ns) ≡ count_p f ns
  unfolding count_p
  count_p-skip f n ns e = rw e (omega arith)
