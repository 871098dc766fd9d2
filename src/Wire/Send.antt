-- ===== src/Wire/Send.antt =====
-- send_req of client.cpp writes the format that parse_req of server.cpp reads.
use cand_cppwith_linux.Base.{
  ℕ, ◌+◌, ◌%◌, take-length, ◌-◌, ◌≤◌, ◌<◌, ◌≡◌, refl, sym, ap, ◌∙◌, true, false, none, some, List,
  [], ◌∷◌, ◌++◌, ok, Returns, returns, Returns-eq, arith, inl, inr, Bool-cases, ltb_false→le,
  length, take, drop, length-append, ltb, leb, if◌then◌else◌,
}
use cand_cppwith_linux.Wire.{
  Bytes, u32_mod, k_max_args, k_max_msg, bytes4, u32_of, parse_req, request_len, write_strings,
  send_req,
}
use cand_cppwith_linux.Wire.Bytes.{length-bytes4, u32_of-bytes4}
use cand_cppwith_linux.Wire.Request.{
  encode_strings, encode_req, length_encode, length-encode_req, parse_req-encode_req,
}

request_len-sum :
    (len : ℕ) (cmd : List Bytes)
    → len + length (encode_strings cmd) < u32_mod
    → request_len len cmd ≡ len + length (encode_strings cmd)
unfolding request_len encode_strings
request_len-sum len [] h = omega arith
request_len-sum len (s ∷ cmd) h =
    let size = length_encode s cmd in
    let e : (len + (4 + length s)) % u32_mod ≡ len + (4 + length s) = omega arith in
    ap (λ k. request_len k cmd) e
    ∙ (request_len-sum (len + (4 + length s)) cmd (omega arith) ∙ omega arith)

write_strings-encode :
    (cur : ℕ) (cmd : List Bytes)
    → cur + length (encode_strings cmd) ≤ 4 + k_max_msg
    → write_strings cur cmd ≡ ok (encode_strings cmd)
unfolding write_strings encode_strings
write_strings-encode cur [] h = refl
write_strings-encode cur (s ∷ cmd) h =
    let size = length_encode s cmd in
    let e1 : leb (cur + 4 + length s) (4 + k_max_msg) ≡ true = ground arith in
    let e2 : length s % u32_mod ≡ length s = omega arith in
    let e3 = write_strings-encode (cur + 4 + length s) cmd (omega arith) in rw (e1, e3, e2) refl

whole :
    (cmd : List Bytes) (n : ℕ)
    → n ≡ length (encode_req cmd)
    → length cmd < u32_mod
    → take (4 + n) (bytes4 n ++ (bytes4 (length cmd % u32_mod) ++ encode_strings cmd))
      ≡ bytes4 n ++ encode_req cmd
unfolding encode_req
whole cmd n e small =
    let e1 : length cmd % u32_mod ≡ length cmd = omega arith in
    rw e1 (
      take-length (4 + n) (bytes4 n ++ encode_req cmd)
        (omega (arith, length-append (bytes4 n) (encode_req cmd), length-bytes4 n)))

few_strings : (cmd : List Bytes) → length cmd ≤ length (encode_strings cmd)
few_strings [] = omega arith
few_strings (s ∷ cmd) = omega (arith, length_encode s cmd, few_strings cmd)

-- For a command whose encoding is shorter than 2^32 bytes, send_req refuses it if the encoding is
-- longer than k_max_msg, and otherwise writes the length of the encoding and the encoding, within
-- its buffer.
pub send_req-encode_req :
    (cmd : List Bytes)
    → length (encode_req cmd) < u32_mod
    → send_req cmd
      ≡ ok (
          if ltb k_max_msg (length (encode_req cmd))
          then none
          else some (bytes4 (length (encode_req cmd)) ++ encode_req cmd))
unfolding send_req
send_req-encode_req cmd small =
    let size = length-encode_req cmd in
    let sum : request_len 4 cmd ≡ length (encode_req cmd) =
      request_len-sum 4 cmd (omega arith) ∙ sym size in
    elim (Bool-cases (ltb k_max_msg (length (encode_req cmd)))) [
      | inl e ↦ rw (sum, e) refl
      | inr e ↦
          let fits = ltb_false→le k_max_msg (length (encode_req cmd)) e in
          rw (sum, e, write_strings-encode 8 cmd (omega arith))
            (ap (λ l. ok (some l))
              (whole cmd (length (encode_req cmd)) refl (omega (arith, few_strings cmd))))
    ]

four_behind : (n : ℕ) (l : Bytes) → drop 4 (bytes4 n ++ l) ≡ l
unfolding bytes4
four_behind n l = refl

-- A command of at most k_max_args strings whose encoding has at most k_max_msg bytes is sent as one
-- message; what parse_req reads in the message behind its length is the command.
pub parse_req-send_req :
    (cmd : List Bytes)
    → length cmd ≤ k_max_args
    → length (encode_req cmd) ≤ k_max_msg
    → Returns
        (λ r.
          (message : Bytes) × (r ≡ some message)
          × (u32_of message ≡ ok (length message - 4))
          × (parse_req (drop 4 message) ≡ ok (some cmd)))
        (send_req cmd)
parse_req-send_req cmd few small =
    let e : ltb k_max_msg (length (encode_req cmd)) ≡ false = ground arith in
    let n = length (encode_req cmd) in
    let size : length (bytes4 n ++ encode_req cmd) - 4 ≡ n =
      omega (arith, length-append (bytes4 n) (encode_req cmd), length-bytes4 n) in
    let behind : drop 4 (bytes4 n ++ encode_req cmd) ≡ encode_req cmd =
      four_behind n (encode_req cmd) in
    Returns-eq (send_req-encode_req cmd (omega arith)) (
      rw e (
        returns (
          bytes4 n ++ encode_req cmd,
          refl,
          rw size (u32_of-bytes4 n (encode_req cmd) (omega arith)),
          rw behind (parse_req-encode_req cmd few (omega arith)),
        )))
