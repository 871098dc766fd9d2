-- ===== src/Base/Count.antt =====
-- How many entries of a list pass a test: a measure that no reordering changes.
use mathlib.Core.Logic.{∥∥₁_elim}
use native.Mathlib.Nat.{ℕ_set}
use Prim.Native.Nat.{ℕ, zero, suc, ◌+◌, ◌<◌}
use mathlib.Core.Path.{◌≡◌, refl, ap, ◌∙◌}
use mathlib.Core.Bool.{Bool, true, false}
use mathlib.Core.Logic.{inl, inr}
use mathlib.Core.List.{List, [], ◌∷◌, ◌++◌, Permᴰ, Perm}
use native.Mathlib.Omega.{arith}
use cand_cppwith_linux.Base.Tests.{Bool-cases}
use cand_cppwith_linux.Base.Lists.{length, set}
use cand_cppwith_linux.Base.Array.{get_or}

abbrev pub to_nat : Bool → ℕ
to_nat true = 1
to_nat false = 0

module _ {ℓ} {A : Type ℓ} where
  unfoldable pub count_p : (A → Bool) → List A → ℕ
  count_p p [] = 0
  count_p p (x ∷ xs) = to_nat (p x) + count_p p xs

  pub count_p-cons :
      (p : A → Bool) (x : A) (xs : List A) → count_p p (x ∷ xs) ≡ to_nat (p x) + count_p p xs
  unfolding count_p
  count_p-cons p x xs = refl

  pub count_p-Permᴰ : (p : A → Bool) {xs ys : List A} → Permᴰ xs ys → count_p p xs ≡ count_p p ys
  unfolding count_p
  count_p-Permᴰ p Permᴰ.nil = refl
  count_p-Permᴰ p (Permᴰ.cons e h) = omega (arith, ap (λ x. to_nat (p x)) e, count_p-Permᴰ p h)
  count_p-Permᴰ p (Permᴰ.swap e f) =
      omega (arith, ap (λ x. to_nat (p x)) e, ap (λ x. to_nat (p x)) f)
  count_p-Permᴰ p (Permᴰ.trans g h) = count_p-Permᴰ p g ∙ count_p-Permᴰ p h

  pub count_p-perm : (p : A → Bool) {xs ys : List A} → Perm xs ys → count_p p xs ≡ count_p p ys
  count_p-perm p h = ∥∥₁_elim h (ℕ_set _ _) (count_p-Permᴰ p)

  pub count_p-append :
      (p : A → Bool) (xs ys : List A) → count_p p (xs ++ ys) ≡ count_p p xs + count_p p ys
  unfolding count_p
  count_p-append p [] ys = omega arith
  count_p-append p (x ∷ xs) ys = omega (arith, count_p-append p xs ys)

  pub count_p-set :
      (p : A → Bool) (xs : List A) (i : ℕ) (v d : A)
      → i < length xs
      → count_p p (set xs i v) + to_nat (p (get_or xs i d)) ≡ count_p p xs + to_nat (p v)
  unfolding count_p get_or
  count_p-set p [] i v d h = absurd (omega arith)
  count_p-set p (x ∷ xs) zero v d h = omega arith
  count_p-set p (x ∷ xs) (suc i) v d h = omega (arith, count_p-set p xs i v d (omega arith))

  pub count_p-pos :
      (p : A → Bool) (xs : List A) (i : ℕ) (d : A)
      → i < length xs
      → p (get_or xs i d) ≡ true
      → 0 < count_p p xs
  unfolding count_p get_or
  count_p-pos p [] i d h e = absurd (omega arith)
  count_p-pos p (x ∷ xs) zero d h e = rw e (omega arith)
  count_p-pos p (x ∷ xs) (suc i) d h e = omega (arith, count_p-pos p xs i d (omega arith) e)

  pub index_of_count :
      (p : A → Bool) (xs : List A) (d : A)
      → 0 < count_p p xs
      → (i : ℕ) × (i < length xs) × (p (get_or xs i d) ≡ true)
  unfolding count_p get_or
  index_of_count p [] d h = absurd (omega arith)
  index_of_count p (x ∷ xs) d h = elim (Bool-cases (p x)) [
    | inl e ↦ (0, omega arith, e)
    | inr e ↦
        let (i, inside, found) = index_of_count p xs d (omega (arith, ap to_nat e)) in
        (suc i, omega arith, found)
  ]
