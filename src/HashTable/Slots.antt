-- ===== src/HashTable/Slots.antt =====
-- The array of chains: what is in it, and what a write to one chain does to the contents.
use mathlib.Core.List.{flatten, perm_middle}
use mathlib.Core.List.Perm
use cand_cppwith_linux.Base.{
  ℕ, zero, suc, ◌<◌, ◌≡◌, ◌≢◌, refl, Bool, true, none, some, List, [], ◌∷◌, Perm, arith, ◌==◌, ◌&&◌,
  length, get_elem?, set, replicate, Option-cases, Bool-cases, inl, inr,
}
use cand_cppwith_linux.Base.Array.{get_or}
use cand_cppwith_linux.Base.Count.{count_p, count_p-append}
use cand_cppwith_linux.HashTable.{HNode, Callback, find_in, unlink}

module _ {ℓ} {A : Type ℓ} where
  abbrev pub All : (A → Type 0) → List A → Type 0
  All Q [] = Unit {0}
  All Q (x ∷ xs) = Q x × All Q xs

  pub All-unlink : (Q : A → Type 0) (xs : List A) (i : ℕ) → All Q xs → All Q (unlink xs i)
  unfolding unlink
  All-unlink Q [] i a = tt
  All-unlink Q (x ∷ xs) zero a = a.1
  All-unlink Q (x ∷ xs) (suc i) a = (a.0, All-unlink Q xs i a.1)

  pub unlink-perm :
      (xs : List A) (i : ℕ) (x : A) → get_elem? xs i ≡ some x → Perm (x ∷ unlink xs i) xs
  unfolding unlink
  unlink-perm [] i x e = cc
  unlink-perm (y ∷ xs) zero x e = let same : y ≡ x = cc in rw same Perm.rfl
  unlink-perm (y ∷ xs) (suc i) x e =
      Perm.trans (Perm.swap y x _) (Perm.cons y (unlink-perm xs i x e))

  -- a chain that gains `x` at its head
  pub flatten-set_cons :
      (slots : List (List A)) (i : ℕ) (x : A)
      → i < length slots
      → Perm (flatten (set slots i (x ∷ get_or slots i []))) (x ∷ flatten slots)
  unfolding get_or flatten
  flatten-set_cons [] i x h = absurd (omega arith)
  flatten-set_cons (c ∷ slots) zero x h = Perm.rfl
  flatten-set_cons (c ∷ slots) (suc i) x h =
      Perm.trans (Perm.append_left c (flatten-set_cons slots i x (omega arith)))
        (perm_middle c (flatten slots))

  -- a chain that loses its node at `k`
  pub flatten-set_unlink :
      (slots : List (List A)) (i k : ℕ) (x : A)
      → i < length slots
      → get_elem? (get_or slots i []) k ≡ some x
      → Perm (x ∷ flatten (set slots i (unlink (get_or slots i []) k))) (flatten slots)
  unfolding get_or flatten
  flatten-set_unlink [] i k x h e = absurd (omega arith)
  flatten-set_unlink (c ∷ slots) zero k x h e =
      Perm.append_right (flatten slots) (unlink-perm c k x e)
  flatten-set_unlink (c ∷ slots) (suc i) k x h e =
      Perm.trans (Perm.symm (perm_middle c _))
        (Perm.append_left c (flatten-set_unlink slots i k x (omega arith) e))

  -- a table whose chains are all empty
  pub flatten_empty :
      (slots : List (List A))
      → ((i : ℕ) → i < length slots → get_or slots i [] ≡ [])
      → flatten slots ≡ []
  unfolding get_or flatten
  flatten_empty [] h = refl
  flatten_empty (c ∷ slots) h =
      rw (h 0 (omega arith)) (flatten_empty slots (λ i p. h (suc i) (omega arith)))

  pub get_or-replicate : (n i : ℕ) (a : A) → get_or (replicate n a) i a ≡ a
  unfolding get_or
  get_or-replicate zero i a = refl
  get_or-replicate (suc n) zero a = refl
  get_or-replicate (suc n) (suc i) a = get_or-replicate n i a

  pub flatten-replicate : (n : ℕ) → flatten {A = A} (replicate n []) ≡ []
  unfolding flatten
  flatten-replicate zero = refl
  flatten-replicate (suc n) = flatten-replicate n

  nowhere :
      (q : A → Bool) (slots : List (List A))
      → ((i : ℕ) → count_p q (get_or slots i []) ≡ 0)
      → count_p q (flatten slots) ≡ 0
  unfolding get_or flatten count_p
  nowhere q [] h = refl
  nowhere q (c ∷ slots) h =
      omega (arith, count_p-append q c (flatten slots), h 0, nowhere q slots (λ i. h (suc i)))

  -- only the chain at `pos` has entries that pass `q`
  pub count_p-flatten :
      (q : A → Bool) (slots : List (List A)) (pos : ℕ)
      → ((i : ℕ) → i ≢ pos → count_p q (get_or slots i []) ≡ 0)
      → count_p q (flatten slots) ≡ count_p q (get_or slots pos [])
  unfolding get_or flatten
  count_p-flatten q [] pos h = refl
  count_p-flatten q (c ∷ slots) zero h =
      omega
        (arith, count_p-append q c (flatten slots), nowhere q slots (λ i. h (suc i) (omega arith)))
  count_p-flatten q (c ∷ slots) (suc pos) h = omega (
    arith,
    count_p-append q c (flatten slots),
    h 0 (omega arith),
    count_p-flatten q slots pos (λ i ne. h (suc i) (omega arith)),
  )

module _ {P : Type 0} (eq : Callback P) (key : HNode P) where
  -- the test of h_lookup
  abbrev pub is_match : HNode P → Bool
  is_match n = (n.hcode == key.hcode) && eq n key

  pub find_in-none :
      (chain : List (HNode P)) → find_in eq key chain ≡ none → count_p is_match chain ≡ 0
  unfolding find_in count_p
  find_in-none [] e = refl
  find_in-none (n ∷ chain) e = ground (arith, find_in-none chain)

  pub find_in-some :
      (chain : List (HNode P)) (i : ℕ)
      → find_in eq key chain ≡ some i
      → (n : HNode P) × (get_elem? chain i ≡ some n) × (is_match n ≡ true)
  unfolding find_in
  find_in-some [] i e = absurd (cc)
  find_in-some (n ∷ chain) i e = elim (Bool-cases (is_match n)) [
    | inl m ↦ (n, ground arith, m)
    | inr m ↦ elim (Option-cases (find_in eq key chain)) [
      | inl f ↦ absurd (ground arith)
      | inr (j, f) ↦ let (n', at, found) = find_in-some chain j f in (n', ground arith, found)
    ]
  ]
