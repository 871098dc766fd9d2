-- ===== src/Base/Array.antt =====
-- Arrays as lists: reads with a default, and what one write or a moved entry does to the contents.
use mathlib.Core.Logic.{∥∥₁_elim, ◌≢◌}
use native.Mathlib.Nat.{ℕ_set}
use Prim.Native.Nat.{ℕ, zero, suc, ◌<◌}
use mathlib.Core.Path.{◌≡◌, refl, ap, ◌∙◌}
use mathlib.Core.List.{List, [], ◌∷◌, ◌++◌, Permᴰ, Perm}
use mathlib.Core.List.Perm
use mathlib.Core.Option.{some}
use native.Mathlib.Omega.{arith}
use cand_cppwith_linux.Base.Tests.{◌==◌, if◌then◌else◌}
use cand_cppwith_linux.Base.Lists.{length, get_elem?, set, length-set}

module _ {ℓ} {A : Type ℓ} where
  unfoldable pub get_or : List A → ℕ → A → A
  get_or [] i d = d
  get_or (x ∷ xs) zero d = x
  get_or (x ∷ xs) (suc i) d = get_or xs i d

  pub get_elem?-get_or :
      (xs : List A) (i : ℕ) (d : A) → i < length xs → get_elem? xs i ≡ some (get_or xs i d)
  unfolding get_or
  get_elem?-get_or [] i d h = absurd (omega arith)
  get_elem?-get_or (x ∷ xs) zero d h = refl
  get_elem?-get_or (x ∷ xs) (suc i) d h = get_elem?-get_or xs i d (omega arith)

  pub get_or-set :
      (xs : List A) (i j : ℕ) (v d : A)
      → i < length xs
      → get_or (set xs i v) j d ≡ (if i == j then v else get_or xs j d)
  unfolding get_or
  get_or-set [] i j v d h = absurd (omega arith)
  get_or-set (x ∷ xs) zero zero v d h = refl
  get_or-set (x ∷ xs) (suc i) (suc j) v d h = ground (arith, get_or-set xs i j v d)
  get_or-set (x ∷ xs) i j v d h = ground arith

  pub set_self : (xs : List A) (i : ℕ) (d : A) → set xs i (get_or xs i d) ≡ xs
  unfolding get_or
  set_self [] i d = refl
  set_self (x ∷ xs) zero d = refl
  set_self (x ∷ xs) (suc i) d = ap (◌∷◌ x) (set_self xs i d)

  pub get_or-append_left :
      (xs ys : List A) (i : ℕ) (d : A) → i < length xs → get_or (xs ++ ys) i d ≡ get_or xs i d
  unfolding get_or
  get_or-append_left [] ys i d h = absurd (omega arith)
  get_or-append_left (x ∷ xs) ys zero d h = refl
  get_or-append_left (x ∷ xs) ys (suc i) d h = get_or-append_left xs ys i d (omega arith)

  pub get_or-append_self :
      (xs : List A) (x d : A) (ys : List A) → get_or (xs ++ x ∷ ys) (length xs) d ≡ x
  unfolding get_or
  get_or-append_self [] x d ys = refl
  get_or-append_self (y ∷ xs) x d ys = get_or-append_self xs x d ys

  same_length : {xs ys : List A} → Permᴰ xs ys → length xs ≡ length ys
  same_length (Permᴰ.trans first second) = same_length first ∙ same_length second
  same_length (Permᴰ.swap _ _) = refl
  same_length (Permᴰ.cons _ rest) = ap suc (same_length rest)
  same_length Permᴰ.nil = refl

  pub length-perm : {xs ys : List A} → Perm xs ys → length xs ≡ length ys
  length-perm moved = ∥∥₁_elim moved (ℕ_set _ _) same_length

  -- The entry that a write replaces and the one that it stores change places.
  pub set-perm :
      (xs : List A) (i : ℕ) (v d : A) → i < length xs → Perm (get_or xs i d ∷ set xs i v) (v ∷ xs)
  unfolding get_or
  set-perm [] i v d h = absurd (omega arith)
  set-perm (x ∷ xs) zero v d h = Perm.swap v x xs
  set-perm (x ∷ xs) (suc i) v d h =
      Perm.trans (Perm.swap x _ _)
        (Perm.trans (Perm.cons x (set-perm xs i v d (omega arith))) (Perm.swap v x xs))

  -- An array with a hole at `i` into which `t` belongs: filling the hole from `j`, with the hole
  -- now at `j`, stands for the same entries.
  pub move_hole-perm :
      (xs : List A) (i j : ℕ) (t d : A)
      → i < length xs
      → j < length xs
      → i ≢ j
      → Perm (set (set xs i (get_or xs j d)) j t) (set xs i t)
  move_hole-perm xs i j t d hi hj ne =
      let v = get_or xs j d in
      let b = set xs i v in
      let kept : get_or b j d ≡ v = ground (arith, get_or-set xs i j v d) in
      let second : Perm (v ∷ set b j t) (t ∷ b) =
        rw kept at (set-perm b j t d (rw length-set hj)) in
      let x = get_or xs i d in
      let first : Perm (x ∷ b) (v ∷ xs) = set-perm xs i v d hi in
      let third : Perm (x ∷ set xs i t) (t ∷ xs) = set-perm xs i t d hi in
      let left : Perm (v ∷ x ∷ set b j t) (v ∷ t ∷ xs) = Perm.trans (Perm.swap x v _) (
        Perm.trans (Perm.cons x second)
          (Perm.trans (Perm.swap t x b) (Perm.trans (Perm.cons t first) (Perm.swap v t xs)))) in
      Perm.cons_inv (Perm.trans (Perm.cons_inv left) (Perm.symm third))
