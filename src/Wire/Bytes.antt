-- ===== src/Wire/Bytes.antt =====
-- Integers as bytes.
use cand_cppwith_linux.Base.{
  ◌+◌, ◌*◌, ◌/◌, ◌%◌, ◌^◌, ◌<◌, ◌≡◌, refl, [], ◌∷◌, ◌++◌, ok, arith, length, ℕ, zero, suc, drop,
  sym, ap, Returns, returns, ◌≤◌, take, leb, true,
}
use cand_cppwith_linux.Wire.{Bytes, u32_mod, bytes4, u32_of, slice}

abbrev pub AreBytes : Bytes → Type 0
AreBytes [] = Unit {0}
AreBytes (b ∷ bs) = (b < 256) × AreBytes bs

pub length-bytes4 : (n : ℕ) → length (bytes4 n) ≡ 4
unfolding bytes4
length-bytes4 n = refl

-- Reading back what was written.
pub u32_of-bytes4 : (n : ℕ) (rest : Bytes) → n < u32_mod → u32_of (bytes4 n ++ rest) ≡ ok n
unfolding bytes4 u32_of
u32_of-bytes4 n rest h =
    let e : n % 256 + n / 256 % 256 * 256 + n / 2 ^ 16 % 256 * 2 ^ 16 + n / 2 ^ 24 % 256 * 2 ^ 24
        ≡ n =
      omega arith in
    rw e

pub AreBytes-drop : (n : ℕ) (bs : Bytes) → AreBytes bs → AreBytes (drop n bs)
AreBytes-drop zero bs h = h
AreBytes-drop (suc n) [] h = tt
AreBytes-drop (suc n) (b ∷ bs) h = AreBytes-drop n bs h.1

-- Four bytes are the bytes of the number they stand for.
bytes4_of_four :
    (a b c d : ℕ)
    → a < 256
    → b < 256
    → c < 256
    → d < 256
    → bytes4 (a + b * 256 + c * 2 ^ 16 + d * 2 ^ 24) ≡ a ∷ b ∷ c ∷ d ∷ []
unfolding bytes4
bytes4_of_four a b c d ha hb hc hd =
    let n : ℕ = a + b * 256 + c * 2 ^ 16 + d * 2 ^ 24 in
    let e0 : n % 256 ≡ a = omega arith in
    let e1 : n / 256 % 256 ≡ b = omega arith in
    let e2 : n / 2 ^ 16 % 256 ≡ c = omega arith in
    let e3 : n / 2 ^ 24 % 256 ≡ d = omega arith in rw (e0, e1, e2, e3) refl

-- Reading a number takes the bytes that writing it gives.
pub u32_of-Returns :
    (bs : Bytes)
    → AreBytes bs
    → 4 ≤ length bs
    → Returns (λ n. bs ≡ bytes4 n ++ drop 4 bs) (u32_of bs)
unfolding u32_of
u32_of-Returns [] h l = absurd (omega arith)
u32_of-Returns (a ∷ []) h l = absurd (omega arith)
u32_of-Returns (a ∷ b ∷ []) h l = absurd (omega arith)
u32_of-Returns (a ∷ b ∷ c ∷ []) h l = absurd (omega arith)
u32_of-Returns (a ∷ b ∷ c ∷ d ∷ rest) (ha, (hb, (hc, (hd, hr)))) l =
    returns (ap (λ l. l ++ rest) (sym (bytes4_of_four a b c d ha hb hc hd)))

pub AreBytes-take : (n : ℕ) (bs : Bytes) → AreBytes bs → AreBytes (take n bs)
AreBytes-take zero bs h = tt
AreBytes-take (suc n) [] h = tt
AreBytes-take (suc n) (b ∷ bs) h = (h.0, AreBytes-take n bs (h.1))

pub AreBytes-append : (bs cs : Bytes) → AreBytes bs → AreBytes cs → AreBytes (bs ++ cs)
AreBytes-append [] cs h k = k
AreBytes-append (b ∷ bs) cs h k = (h.0, AreBytes-append bs cs (h.1) k)

pub slice-ok :
    (i n : ℕ) (buf : Bytes) → i + n ≤ length buf → slice i n buf ≡ ok (take n (drop i buf))
unfolding slice
slice-ok i n buf h = let e : leb (i + n) (length buf) ≡ true = ground arith in rw e refl
