-- ===== src/Zset/Order.antt =====
-- zless is the order by score and then by name.
use cand_cppwith_linux.Base.{
  ℕ, zero, suc, ◌<◌, ◌≤◌, ◌≡◌, refl, sym, ap, ◌∙◌, Bool, true, false, ◌||◌, ◌&&◌, Bool-cases, inl,
  inr, ◌⊎◌, some, [], ◌∷◌, Run, ok, fault, out_of_fuel, arith, ltb, ◌==◌, length, ◌%◌,
}
use cand_cppwith_linux.Memory.{Ptr}
use cand_cppwith_linux.Wire.{Bytes, u32_mod}
use cand_cppwith_linux.Zset.{
  ZNode, ZNodes, dbl_rank, dbl_same, dbl_less, min_u32, Sign, negative, zero_sign, positive, memcmp,
  name_less, zless,
}

-- the order of strings in a dictionary
unfoldable pub lex : Bytes → Bytes → Bool
lex [] [] = false
lex [] (b ∷ t) = true
lex (a ∷ s) [] = false
lex (a ∷ s) (b ∷ t) = ltb a b || ((a == b) && lex s t)

-- the order by the rank of the score and then by name
abbrev pub before : ZNode → ZNode → Bool
before x y =
    ltb (dbl_rank x.score) (dbl_rank y.score)
    || ((dbl_rank x.score == dbl_rank y.score) && lex x.name y.name)

abbrev by_sign : Run Sign → Bool → Run Bool
by_sign r shorter = elim r [
  | ok negative ↦ ok true
  | ok positive ↦ ok false
  | ok zero_sign ↦ ok shorter
  | fault ↦ fault
  | out_of_fuel ↦ out_of_fuel
]

memcmp-lex :
    (n : ℕ) (s t : Bytes)
    → n ≤ length s
    → n ≤ length t
    → (n ≡ length s) ⊎ (n ≡ length t)
    → by_sign (memcmp n s t) (ltb (length s) (length t)) ≡ ok (lex s t)
unfolding memcmp lex
memcmp-lex zero [] [] h k e = refl
memcmp-lex zero [] (b ∷ t) h k e = ap ok (ground arith)
memcmp-lex zero (a ∷ s) [] h k e = ap ok (ground arith)
memcmp-lex zero (a ∷ s) (b ∷ t) h k e =
    absurd (elim e [ inl f ↦ omega (arith, f) | inr f ↦ omega (arith, f) ])
memcmp-lex (suc n) [] t h k e = absurd (omega (arith, h))
memcmp-lex (suc n) (a ∷ s) [] h k e = absurd (omega (arith, k))
memcmp-lex (suc n) (a ∷ s) (b ∷ t) h k e =
    let rest =
      memcmp-lex n s t (omega arith) (omega arith)
        (elim e [ inl f ↦ inl (omega (arith, f)) | inr f ↦ inr (omega (arith, f)) ]) in
    let tails : ltb (suc (length s)) (suc (length t)) ≡ ltb (length s) (length t) = ground arith in
    elim (Bool-cases (ltb a b)) [
      | inl less ↦ rw less refl
      | inr e1 ↦ elim (Bool-cases (ltb b a)) [
        | inl more ↦ let apart : (a == b) ≡ false = ground arith in rw (e1, more, apart) refl
        | inr e2 ↦ let same : (a == b) ≡ true = ground arith in rw (e1, e2, same, tails) rest
      ]
    ]

min_u32-le :
    (m n : ℕ)
    → m < u32_mod
    → n < u32_mod
    → (min_u32 m n ≤ m) × (min_u32 m n ≤ n) × ((min_u32 m n ≡ m) ⊎ (min_u32 m n ≡ n))
unfolding min_u32
min_u32-le m n h k = elim (Bool-cases (ltb m n)) [
  | inl e ↦
      let w : m % u32_mod ≡ m = omega arith in rw (e, w) (omega arith, ground (arith, e), inl refl)
  | inr e ↦
      let w : n % u32_mod ≡ n = omega arith in rw (e, w) (ground (arith, e), omega arith, inr refl)
]

name_less-lex :
    (s t : Bytes) → length s < u32_mod → length t < u32_mod → name_less s t ≡ ok (lex s t)
unfolding name_less
name_less-lex s t h k =
    let (a, b, c) = min_u32-le (length s) (length t) h k in
    memcmp-lex (min_u32 (length s) (length t)) s t a b c

lex_irreflexive : (s : Bytes) → lex s s ≡ false
unfolding lex
lex_irreflexive [] = refl
lex_irreflexive (a ∷ s) =
    let e : ltb a a ≡ false = ground arith in rw (e, lex_irreflexive s) (ground arith)

lex_trans : (s t u : Bytes) → lex s t ≡ true → lex t u ≡ true → lex s u ≡ true
unfolding lex
lex_trans s [] [] h k = absurd (cc)
lex_trans s (b ∷ t) [] h k = absurd (cc)
lex_trans [] t (c ∷ u) h k = refl
lex_trans (a ∷ s) [] (c ∷ u) h k = absurd (cc)
lex_trans (a ∷ s) (b ∷ t) (c ∷ u) h k = ground (arith, lex_trans s t u)

lex_total : (s t : Bytes) → lex s t ≡ false → lex t s ≡ false → s ≡ t
unfolding lex
lex_total [] [] h k = refl
lex_total [] (b ∷ t) h k = absurd (cc)
lex_total (a ∷ s) [] h k = absurd (cc)
lex_total (a ∷ s) (b ∷ t) h k =
    let head : a ≡ b = ground arith in
    let st : lex s t ≡ false = ground arith in
    let ts : lex t s ≡ false = ground arith in
    ap (λ x. x ∷ s) head ∙ ap (λ l. b ∷ l) (lex_total s t st ts)

pub before_trans : (x y z : ZNode) → before x y ≡ true → before y z ≡ true → before x z ≡ true
before_trans x y z h k = ground (arith, lex_trans (x.name) (y.name) (z.name))

abbrev pub the_tuple : ℕ → Bytes → ZNode
the_tuple score name = record { score = score; name = name }

-- For names of less than 2^32 bytes zless compares by score and then by name as in a dictionary,
-- bytes first and a prefix before what it begins.
pub zless-before :
    (zs : ZNodes) (lhs : Ptr) (zl : ZNode) (score : ℕ) (name : Bytes)
    → zs lhs ≡ some zl
    → length zl.name < u32_mod
    → length name < u32_mod
    → zless zs lhs score name ≡ ok (before zl (the_tuple score name))
unfolding zless dbl_same dbl_less
zless-before zs lhs zl score name at h k =
    rw at (elim (Bool-cases (dbl_rank zl.score == dbl_rank score)) [
      | inl e ↦
          let same : ltb (dbl_rank zl.score) (dbl_rank score) ≡ false = ground arith in
          rw (e, same) (name_less-lex (zl.name) name h k)
      | inr e ↦ rw e (ap ok (ground arith))
    ])

-- zless is a strict total order: no node is less than itself, it is transitive, and of two nodes
-- one is less unless their scores are equal and their names are the same.
pub zless-orders :
    (zs : ZNodes) (p q r : Ptr) (x y z : ZNode)
    → zs p ≡ some x
    → zs q ≡ some y
    → zs r ≡ some z
    → length x.name < u32_mod
    → length y.name < u32_mod
    → length z.name < u32_mod
    → (zless zs p x.score x.name ≡ ok false)
      × (zless zs p y.score y.name ≡ ok true
          → zless zs q z.score z.name ≡ ok true
          → zless zs p z.score z.name ≡ ok true)
      × (zless zs p y.score y.name ≡ ok false
          → zless zs q x.score x.name ≡ ok false
          → (dbl_same x.score y.score ≡ true) × (x.name ≡ y.name))
unfolding dbl_same
zless-orders zs p q r x y z ep eq er hx hy hz =
    let xy = zless-before zs p x y.score y.name ep hx hy in
    let yx = zless-before zs q y x.score x.name eq hy hx in
    let yz = zless-before zs q y z.score z.name eq hy hz in
    (
      zless-before zs p x x.score x.name ep hx hx
          ∙ ap ok (let e = lex_irreflexive (x.name) in ground (arith, e)),
      (λ a b.
          zless-before zs p x z.score z.name ep hx hz
          ∙ ap ok (before_trans x y z (same_ok (sym xy ∙ a)) (same_ok (sym yz ∙ b)))),
      λ a b.
          let f = same_ok (sym xy ∙ a) in
          let g = same_ok (sym yx ∙ b) in
          (ground arith, lex_total (x.name) (y.name) (ground arith) (ground arith)),
    )
  where
    same_ok : {a b : Bool} → ok a ≡ ok b → a ≡ b
    same_ok {a} e = ap (λ (r : Run Bool). elim r [ ok v ↦ v | fault ↦ a | out_of_fuel ↦ a ]) e
