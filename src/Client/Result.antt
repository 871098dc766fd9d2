-- ===== src/Client/Result.antt =====
-- on_response on what the server writes.
use mathlib.Core.List.{append_assoc}
use cand_cppwith_linux.Base.{
  ℕ, suc, ◌+◌, ◌%◌, ◌^◌, ◌<◌, ◌≡◌, refl, ap, ◌∙◌, Bool, false, [], ◌∷◌, ◌++◌, ok, arith, length,
  drop, length-append, take-length, ltb,
}
use cand_cppwith_linux.Wire.{
  Bytes, u32_mod, bytes4, bytes8, u32_of, ser_err, ser_str, ser_int, out_nil, out_str, out_int,
  out_err, out_arr,
}
use cand_cppwith_linux.Wire.Bytes.{length-bytes4, u32_of-bytes4}
use cand_cppwith_linux.Client.{Line, c_string, minus_one, on_err, on_str, on_int, on_response}
use cand_cppwith_linux.Client.Reply.{
  Reply, nil, err, str, int, reply_bytes, until_nul, lines_of, Fits, c_string-until_nul,
  u64_of-bytes8,
}

behind4 : (n : ℕ) (l : Bytes) → drop 4 (bytes4 n ++ l) ≡ l
unfolding bytes4
behind4 n l = refl

behind8 : (m n : ℕ) (l : Bytes) → drop 8 (bytes4 m ++ (bytes4 n ++ l)) ≡ l
unfolding bytes4
behind8 m n l = refl

length-bytes8_append : (n : ℕ) (l : Bytes) → length (bytes8 n ++ l) ≡ 8 + length l
unfolding bytes8 bytes4
length-bytes8_append n l = omega arith

length-bytes8 : (n : ℕ) → length (bytes8 n) ≡ 8
unfolding bytes8 bytes4
length-bytes8 n = refl

on_err-reads :
    (tag code : ℕ) (msg rest : Bytes)
    → code < u32_mod
    → length msg < 2 ^ 31
    → on_err (tag ∷ (bytes4 code ++ (bytes4 (length msg) ++ (msg ++ rest))))
      ≡ ok (Line.err code (until_nul msg) ∷ [], 9 + length msg)
unfolding on_err
on_err-reads tag code msg rest hc hm =
    let buf : Bytes = tag ∷ (bytes4 code ++ (bytes4 (length msg) ++ (msg ++ rest))) in
    let size : length buf ≡ 9 + length msg + length rest = omega (
      arith,
      length-append (bytes4 code) (bytes4 (length msg) ++ (msg ++ rest)),
      length-append (bytes4 (length msg)) (msg ++ rest),
      length-append msg rest,
      length-bytes4 code,
      length-bytes4 (length msg),
    ) in
    let wrap : (9 + length msg) % u32_mod ≡ 9 + length msg = omega arith in
    let e1 : ltb (length buf) 9 ≡ false = ground arith in
    let e2 : u32_of (drop 1 buf) ≡ ok code = u32_of-bytes4 code _ hc in
    let e3 : u32_of (drop 5 buf) ≡ ok (length msg) =
      ap u32_of (behind4 code _) ∙ u32_of-bytes4 (length msg) _ (omega arith) in
    let e4 : ltb (length buf) (9 + length msg) ≡ false = ground arith in
    let e5 : c_string (length msg) (drop 9 buf) ≡ ok (until_nul msg) =
      ap (c_string (length msg)) (behind8 code (length msg) (msg ++ rest))
      ∙ c_string-until_nul msg rest in
    rw (e1, e2, e3, wrap, e4, e5) refl

on_str-reads :
    (tag : ℕ) (s rest : Bytes)
    → length s < 2 ^ 31
    → on_str (tag ∷ (bytes4 (length s) ++ (s ++ rest)))
      ≡ ok (Line.str (until_nul s) ∷ [], 5 + length s)
unfolding on_str
on_str-reads tag s rest h =
    let buf : Bytes = tag ∷ (bytes4 (length s) ++ (s ++ rest)) in
    let size : length buf ≡ 5 + length s + length rest = omega (
      arith,
      length-append (bytes4 (length s)) (s ++ rest),
      length-append s rest,
      length-bytes4 (length s),
    ) in
    let wrap : (5 + length s) % u32_mod ≡ 5 + length s = omega arith in
    let e1 : ltb (length buf) 5 ≡ false = ground arith in
    let e2 : u32_of (drop 1 buf) ≡ ok (length s) = u32_of-bytes4 (length s) _ (omega arith) in
    let e4 : ltb (length buf) (5 + length s) ≡ false = ground arith in
    let e5 : c_string (length s) (drop 5 buf) ≡ ok (until_nul s) =
      ap (c_string (length s)) (behind4 (length s) (s ++ rest)) ∙ c_string-until_nul s rest in
    rw (e1, e2, wrap, e4, e5) refl

on_int-reads :
    (tag v : ℕ) (rest : Bytes)
    → v < 2 ^ 64
    → on_int (tag ∷ (bytes8 v ++ rest)) ≡ ok (Line.int v ∷ [], 9)
unfolding on_int
on_int-reads tag v rest h =
    let size = length-bytes8_append v rest in
    let e1 : ltb (length (tag ∷ (bytes8 v ++ rest))) 9 ≡ false = ground arith in
    rw (e1, u64_of-bytes8 v rest h) refl

-- on_response on the encoding of one reply, with anything behind it
abbrev IsRead : Reply → Type 0
IsRead r =
    (is_arr : Bool) (k : ℕ) (rest : Bytes)
    → Fits r
    → on_response is_arr (suc k) (reply_bytes r ++ rest) ≡ ok (lines_of r, length (reply_bytes r))

IsRead-err : (code : ℕ) (msg : Bytes) → IsRead (err code msg)
unfolding on_response reply_bytes lines_of Fits out_err
IsRead-err code msg is_arr k rest (hc, hm) =
    let wrap : length msg % u32_mod ≡ length msg = omega arith in
    let size : length (bytes4 code ++ (bytes4 (length msg) ++ msg)) ≡ 8 + length msg = omega (
      arith,
      length-append (bytes4 code) (bytes4 (length msg) ++ msg),
      length-append (bytes4 (length msg)) msg,
      length-bytes4 code,
      length-bytes4 (length msg),
    ) in
    let shape =
      append_assoc (bytes4 code) (bytes4 (length msg) ++ msg) rest
      ∙ ap (λ l. bytes4 code ++ l) (append_assoc (bytes4 (length msg)) msg rest) in
    rw (wrap, shape, on_err-reads ser_err code msg rest hc hm, size)
      (ap (λ n. ok (Line.err code (until_nul msg) ∷ [], n)) (omega arith))

IsRead-str : (s : Bytes) → IsRead (str s)
unfolding on_response reply_bytes lines_of Fits out_str
IsRead-str s is_arr k rest f =
    let wrap : length s % u32_mod ≡ length s = omega arith in
    let size : length (bytes4 (length s) ++ s) ≡ 4 + length s =
      omega (arith, length-append (bytes4 (length s)) s, length-bytes4 (length s)) in
    let shape = append_assoc (bytes4 (length s)) s rest in
    let all = take-length (length s) s refl in
    rw (wrap, all, shape, on_str-reads ser_str s rest f, size)
      (ap (λ n. ok (Line.str (until_nul s) ∷ [], n)) (omega arith))

IsRead-int : (v : ℕ) → IsRead (int v)
unfolding on_response reply_bytes lines_of Fits out_int
IsRead-int v is_arr k rest f =
    on_int-reads ser_int v rest f
    ∙ ap (λ n. ok (Line.int v ∷ [], n)) (omega (arith, length-bytes8 v))

IsRead-nil : IsRead nil
unfolding on_response reply_bytes lines_of Fits out_nil
IsRead-nil is_arr k rest f = refl

-- on_response prints a reply that the server wrote and returns the number of its bytes, and reads
-- nothing of what follows.
pub on_response-reads : (r : Reply) → IsRead r
on_response-reads nil = IsRead-nil
on_response-reads (err code msg) = IsRead-err code msg
on_response-reads (str s) = IsRead-str s
on_response-reads (int v) = IsRead-int v

-- the tag of the server's arrays is none of the client's
pub on_response-arr :
    (is_arr : Bool) (k n : ℕ) (l : Bytes)
    → on_response is_arr (suc k) (out_arr [] n ++ l) ≡ ok ([], minus_one)
unfolding on_response out_arr
on_response-arr is_arr k n l = refl
