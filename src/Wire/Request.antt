-- ===== src/Wire/Request.antt =====
-- The format of a request, and parse_req on what is written in it.
use mathlib.Core.List.{append_assoc, append-nil}
use cand_cppwith_linux.Base.{
  ℕ, zero, suc, ◌+◌, ◌-◌, ◌≤◌, ◌<◌, ◌≡◌, refl, sym, ap, ◌∙◌, true, false, some, List, [], ◌∷◌, ◌++◌,
  ok, arith, length, drop, length-append, length-drop, ltb, ◌==◌, take-length_append,
  drop-length_append, drop-drop,
}
use cand_cppwith_linux.Wire.{Bytes, u32_mod, k_max_args, bytes4, u32_of, parse_loop, parse_req}
use cand_cppwith_linux.Wire.Bytes.{length-bytes4, u32_of-bytes4, slice-ok}

-- the strings of a request, each behind its length
unfoldable pub encode_strings : List Bytes → Bytes
encode_strings [] = []
encode_strings (s ∷ cmd) = bytes4 (length s) ++ (s ++ encode_strings cmd)

-- the body of a request
unfoldable pub encode_req : List Bytes → Bytes
encode_req cmd = bytes4 (length cmd) ++ encode_strings cmd

pub length_encode :
    (s : Bytes) (cmd : List Bytes)
    → length (encode_strings (s ∷ cmd)) ≡ 4 + length s + length (encode_strings cmd)
unfolding encode_strings
length_encode s cmd = omega (
  arith,
  length-append (bytes4 (length s)) (s ++ encode_strings cmd),
  length-bytes4 (length s),
  length-append s (encode_strings cmd),
)

pub length-encode_req :
    (cmd : List Bytes) → length (encode_req cmd) ≡ 4 + length (encode_strings cmd)
unfolding encode_req
length-encode_req cmd =
    omega
      (arith, length-append (bytes4 (length cmd)) (encode_strings cmd), length-bytes4 (length cmd))

drop_more : (n m : ℕ) (a rest l : Bytes) → drop n l ≡ a ++ rest → m ≡ n + length a → drop m l ≡ rest
drop_more n m a rest l e same =
    sym (drop-drop n (length a) m l same) ∙ (ap (drop (length a)) e ∙ drop-length_append a rest)

drop_all : (n : ℕ) (l : Bytes) → drop n l ≡ [] → n ≤ length l → n ≡ length l
drop_all n l e h = omega (arith, length-drop n l, ap length e)

-- one string of the loop
parse_loop-string :
    (buf s rest : Bytes) (n pos : ℕ) (out : List Bytes)
    → drop pos buf ≡ bytes4 (length s) ++ (s ++ rest)
    → length buf < u32_mod
    → pos ≤ length buf
    → parse_loop buf (suc n) pos out ≡ parse_loop buf n (pos + 4 + length s) (out ++ s ∷ [])
unfolding parse_loop
parse_loop-string buf s rest n pos out at small in_buf =
    let size : length buf - pos ≡ 4 + length s + length rest = omega (
      arith,
      length-drop pos buf,
      ap length at,
      length-append (bytes4 (length s)) (s ++ rest),
      length-bytes4 (length s),
      length-append s rest,
    ) in
    let header : u32_of (drop pos buf) ≡ ok (length s) =
      rw at (u32_of-bytes4 (length s) (s ++ rest) (omega arith)) in
    let tail =
      drop_more pos (pos + 4) (bytes4 (length s)) (s ++ rest) buf at
        (omega (arith, length-bytes4 (length s))) in
    let first : ltb (length buf) (pos + 4) ≡ false = ground arith in
    let second : ltb (length buf) (pos + 4 + length s) ≡ false = ground arith in
    let inside = slice-ok (pos + 4) (length s) buf (omega arith) in
    rw (first, header, second, inside, tail, take-length_append s rest) refl

parse_loop-encode :
    (buf : Bytes) (cmd : List Bytes) (n pos : ℕ) (out : List Bytes)
    → n ≡ length cmd
    → drop pos buf ≡ encode_strings cmd
    → length buf < u32_mod
    → pos ≤ length buf
    → parse_loop buf n pos out ≡ ok (some (out ++ cmd, length buf))
unfolding parse_loop encode_strings
parse_loop-encode buf [] zero pos out count at small in_buf =
    rw (append-nil out, sym (drop_all pos buf at in_buf)) refl
parse_loop-encode buf [] (suc n) pos out count at small in_buf = absurd (omega arith)
parse_loop-encode buf (s ∷ cmd) zero pos out count at small in_buf = absurd (omega arith)
parse_loop-encode buf (s ∷ cmd) (suc n) pos out count at small in_buf =
    let size : length buf - pos ≡ 4 + length s + length (encode_strings cmd) = omega (
      arith,
      length-drop pos buf,
      ap length at,
      length-append (bytes4 (length s)) (s ++ encode_strings cmd),
      length-bytes4 (length s),
      length-append s (encode_strings cmd),
    ) in
    let tail =
      drop_more pos (pos + 4) (bytes4 (length s)) (s ++ encode_strings cmd) buf at
        (omega (arith, length-bytes4 (length s))) in
    let after = drop_more (pos + 4) (pos + 4 + length s) s (encode_strings cmd) buf tail refl in
    parse_loop-string buf s (encode_strings cmd) n pos out at small in_buf
    ∙ (parse_loop-encode buf cmd n (pos + 4 + length s) (out ++ s ∷ []) (omega arith) after small
          (omega arith)
        ∙ ap (λ l. ok (some (l, length buf))) (append_assoc out (s ∷ []) cmd))

encode_req-header :
    (cmd : List Bytes) → length cmd ≤ k_max_args → u32_of (encode_req cmd) ≡ ok (length cmd)
unfolding encode_req
encode_req-header cmd few = u32_of-bytes4 (length cmd) (encode_strings cmd) (omega arith)

pub drop-encode_req : (cmd : List Bytes) → drop 4 (encode_req cmd) ≡ encode_strings cmd
unfolding encode_req bytes4
drop-encode_req cmd = refl

-- parse_req reads back every request of at most k_max_args strings whose body is shorter than 2^32 bytes.
pub parse_req-encode_req :
    (cmd : List Bytes)
    → length cmd ≤ k_max_args
    → length (encode_req cmd) < u32_mod
    → parse_req (encode_req cmd) ≡ ok (some cmd)
unfolding parse_req
parse_req-encode_req cmd few small =
    let size = length-encode_req cmd in
    let e1 : ltb (length (encode_req cmd)) 4 ≡ false = ground arith in
    let e2 : u32_of (encode_req cmd) ≡ ok (length cmd) = encode_req-header cmd few in
    let e3 : ltb k_max_args (length cmd) ≡ false = ground arith in
    let e4 : parse_loop (encode_req cmd) (length cmd) 4 []
        ≡ ok (some (cmd, length (encode_req cmd))) =
      parse_loop-encode (encode_req cmd) cmd (length cmd) 4 [] refl (drop-encode_req cmd) small
        (omega arith) in
    let e5 : (length (encode_req cmd) == length (encode_req cmd)) ≡ true = ground arith in
    rw (e1, e2, e3, e4, e5) refl
