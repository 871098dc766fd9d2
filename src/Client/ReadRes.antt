-- ===== src/Client/ReadRes.antt =====
-- read_res on what the server sends.
use mathlib.Core.List.{append-nil}
use cand_cppwith_linux.Base.{
  ℕ, ◌+◌, ◌<◌, ◌≤◌, ◌≡◌, refl, sym, ap, ◌∙◌, some, List, [], ◌++◌, ok, Bool, Returns, returns,
  Returns-map, arith, ◌==◌, length, take, drop, length-append, ltb, false, true, take-length_append,
  drop-length_append,
}
use cand_cppwith_linux.Wire.{Bytes, u32_mod, bytes4, u32_of, k_max_msg}
use cand_cppwith_linux.Wire.Bytes.{length-bytes4, u32_of-bytes4}
use cand_cppwith_linux.Conn.{Io}
use cand_cppwith_linux.Client.{Line, Printed, checked, on_response, read_full, read_res}
use cand_cppwith_linux.Client.Reply.{Reply, reply_bytes, lines_of, Fits}
use cand_cppwith_linux.Client.Result.{on_response-reads}
use cand_cppwith_linux.Client.Stream.{stream, IsOpen, read_full-Delivered}

drop_header : (n : ℕ) (l : Bytes) → drop 4 (bytes4 n ++ l) ≡ l
unfolding bytes4
drop_header n l = refl

take_header : (n : ℕ) (l : Bytes) → take 4 (bytes4 n ++ l) ≡ bytes4 n
unfolding bytes4
take_header n l = refl

checked-same : (n : ℕ) → checked n n ≡ n
unfolding checked
checked-same n = let e : (n == n) ≡ true = ground arith in ground (arith, e)

header_read : (n : ℕ) → n < u32_mod → u32_of (bytes4 n) ≡ ok n
header_read n h = ap u32_of (sym (append-nil (bytes4 n))) ∙ u32_of-bytes4 n [] h

-- the bytes of a reply arrive behind their length, in whatever chunks
arrives-Returns :
    (is_arr : Bool) (body : Bytes) (lines : List Line) (rv : ℕ) (reads : List (Io Bytes))
    (rest : Bytes)
    → on_response is_arr (length body + 1) body ≡ ok (lines, rv)
    → length body ≤ k_max_msg
    → IsOpen reads
    → stream reads ≡ bytes4 (length body) ++ (body ++ rest)
    → Returns
        (λ (q : Printed × List (Io Bytes)).
          (q.0 ≡ (lines, checked rv (length body))) × (stream (q.1) ≡ rest))
        (read_res is_arr reads)
unfolding read_res
arrives-Returns is_arr body lines rv reads rest run small o arrives =
    let n = length body in
    let four = length-bytes4 n in
    let long = length-append (bytes4 n) (body ++ rest) in
    let body_long = length-append body rest in
    let first = read_full-Delivered 4 reads o (omega (arith, ap length arrives)) in
    let left : Bytes = body ++ rest in
    let small32 : n < u32_mod = omega arith in
    let head : (read_full 4 reads).0 ≡ some (bytes4 n) =
      first.got ∙ ap some (ap (take 4) arrives ∙ take_header n left) in
    let behind : stream ((read_full 4 reads).1) ≡ left =
      first.left ∙ (ap (drop 4) arrives ∙ drop_header n left) in
    let second =
      read_full-Delivered n ((read_full 4 reads).1) (first.open_left)
        (omega (arith, ap length behind)) in
    let read_body : (read_full n ((read_full 4 reads).1)).0 ≡ some body =
      second.got ∙ ap some (ap (take n) behind ∙ take-length_append body rest) in
    let after : stream ((read_full n ((read_full 4 reads).1)).1) ≡ rest =
      second.left ∙ (ap (drop n) behind ∙ drop-length_append body rest) in
    let fits : ltb k_max_msg n ≡ false = ground arith in
    rw (read_res, head, header_read n small32, read_body, fits, run) (returns (refl, after))

-- If the server's output for a nil, an error, a string or an integer that fits the format has at
-- most k_max_msg bytes and arrives behind its length, in whatever chunks, read_res prints the reply,
-- returns the number of its bytes, and takes no byte of what follows.
pub read_res-prints :
    (is_arr : Bool) (r : Reply) (reads : List (Io Bytes)) (rest : Bytes)
    → Fits r
    → length (reply_bytes r) ≤ k_max_msg
    → IsOpen reads
    → stream reads ≡ bytes4 (length (reply_bytes r)) ++ (reply_bytes r ++ rest)
    → Returns
        (λ (q : Printed × List (Io Bytes)).
          (q.0 ≡ (lines_of r, length (reply_bytes r))) × (stream (q.1) ≡ rest))
        (read_res is_arr reads)
read_res-prints is_arr r reads rest f small o arrives =
    let n = length (reply_bytes r) in
    let run : on_response is_arr (n + 1) (reply_bytes r) ≡ ok (lines_of r, n) =
      ap (λ l. on_response is_arr (n + 1) l) (sym (append-nil (reply_bytes r)))
      ∙ (ap (λ k. on_response is_arr k (reply_bytes r ++ [])) (omega arith)
          ∙ on_response-reads r is_arr n [] f) in
    Returns-map
      (arrives-Returns is_arr (reply_bytes r) (lines_of r) n reads rest run small o arrives)
      λ q (e, after). (e ∙ ap (λ k. (lines_of r, k)) (checked-same n), after)
