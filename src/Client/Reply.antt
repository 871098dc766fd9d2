-- ===== src/Client/Reply.antt =====
-- Replies: what the server writes for one, and what the client prints.
use cand_cppwith_linux.Base.{
  ℕ, ◌+◌, ◌/◌, ◌%◌, ◌^◌, ◌*◌, ◌<◌, ◌≡◌, refl, ap, ◌∙◌, List, [], ◌∷◌, ◌++◌, ok, arith, ◌==◌,
  if◌then◌else◌, length, drop, Bool-cases, inl, inr,
}
use cand_cppwith_linux.Wire.{
  Bytes, u32_mod, bytes4, bytes8, u32_of, out_nil, out_str, out_int, out_err,
}
use cand_cppwith_linux.Client.{Line, c_string, u64_of}

-- the replies whose tags common.h and client.cpp agree on
pub data Reply : Type 0 where
  nil : Reply
  err : ℕ → Bytes → Reply
  str : Bytes → Reply
  int : ℕ → Reply

-- the server's output for a reply
unfoldable pub reply_bytes : Reply → Bytes
reply_bytes nil = out_nil []
reply_bytes (err code msg) = out_err [] code msg
reply_bytes (str s) = out_str [] s
reply_bytes (int v) = out_int [] v

-- a string as printf prints it: up to a zero byte
unfoldable pub until_nul : Bytes → Bytes
until_nul [] = []
until_nul (b ∷ s) = if b == 0 then [] else (b ∷ until_nul s)

-- the lines that the client prints
unfoldable pub lines_of : Reply → List Line
lines_of nil = Line.nil ∷ []
lines_of (err code msg) = Line.err code (until_nul msg) ∷ []
lines_of (str s) = Line.str (until_nul s) ∷ []
lines_of (int v) = Line.int v ∷ []

-- the values fit the fields of the format
unfoldable pub Fits : Reply → Type 0
Fits nil = Unit {0}
Fits (err code msg) = (code < u32_mod) × (length msg < 2 ^ 31)
Fits (str s) = length s < 2 ^ 31
Fits (int v) = v < 2 ^ 64

pub c_string-until_nul : (s rest : Bytes) → c_string (length s) (s ++ rest) ≡ ok (until_nul s)
unfolding c_string until_nul
c_string-until_nul [] rest = refl
c_string-until_nul (b ∷ s) rest = elim (Bool-cases (b == 0)) [
  | inl e ↦ rw e refl
  | inr e ↦ rw (e, c_string-until_nul s rest) refl
]

u32_of-bytes4_mod : (n : ℕ) (rest : Bytes) → u32_of (bytes4 n ++ rest) ≡ ok (n % u32_mod)
unfolding bytes4 u32_of
u32_of-bytes4_mod n rest =
    let e : n % 256 + n / 256 % 256 * 256 + n / 2 ^ 16 % 256 * 2 ^ 16 + n / 2 ^ 24 % 256 * 2 ^ 24
        ≡ n % u32_mod =
      omega arith in
    rw e refl

high_half : (n : ℕ) (rest : Bytes) → drop 4 (bytes8 n ++ rest) ≡ bytes4 (n / 2 ^ 32) ++ rest
unfolding bytes8 bytes4
high_half n rest = refl

low_half : (n : ℕ) (rest : Bytes) → bytes8 n ++ rest ≡ bytes4 n ++ (bytes4 (n / 2 ^ 32) ++ rest)
unfolding bytes8 bytes4
low_half n rest = refl

pub u64_of-bytes8 : (n : ℕ) (rest : Bytes) → n < 2 ^ 64 → u64_of (bytes8 n ++ rest) ≡ ok n
unfolding u64_of
u64_of-bytes8 n rest h =
    let low = ap u32_of (low_half n rest) ∙ u32_of-bytes4_mod n (bytes4 (n / 2 ^ 32) ++ rest) in
    let high = ap u32_of (high_half n rest) ∙ u32_of-bytes4_mod (n / 2 ^ 32) rest in
    rw (low, high) (ap ok (omega arith))
