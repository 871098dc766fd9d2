-- ===== src/Wire/Tests.antt =====
-- The request `get k`.
use cand_cppwith_linux.Base.{
  ◌-◌, ◌≡◌, refl, List, [], ◌∷◌, none, some, ok, Returns, arith, ltb, if◌then◌else◌, length, drop,
  ◌++◌,
}
use cand_cppwith_linux.Wire.{Bytes, bytes4, u32_of, parse_req, send_req, k_max_msg}
use cand_cppwith_linux.Wire.Bytes.{AreBytes}
use cand_cppwith_linux.Wire.Request.{encode_strings, encode_req}
use cand_cppwith_linux.Wire.Parse.{Read, parse_req-Read}
use cand_cppwith_linux.Wire.Send.{parse_req-send_req, send_req-encode_req}

abbrev get_k : List Bytes
get_k = (103 ∷ 101 ∷ 116 ∷ []) ∷ (107 ∷ []) ∷ []

get_k-length : length (encode_req get_k) ≡ 16
unfolding encode_req encode_strings bytes4
get_k-length = refl

abbrev malformed_message : Bytes
malformed_message = 1 ∷ 0 ∷ 0 ∷ 0 ∷ 2 ∷ 0 ∷ 0 ∷ 0 ∷ 107 ∷ []

parse_req-send_req_example :
    Returns
      (λ r.
        (message : Bytes) × (r ≡ some message)
        × (u32_of message ≡ ok (length message - 4))
        × (parse_req (drop 4 message) ≡ ok (some get_k)))
      (send_req get_k)
parse_req-send_req_example = parse_req-send_req get_k (omega arith) (omega (arith, get_k-length))

malformed-AreBytes : AreBytes malformed_message
malformed-AreBytes = (
  omega arith,
  (
    omega arith,
    (
      omega arith,
      (omega arith, (omega arith, (omega arith, (omega arith, (omega arith, (omega arith, tt)))))),
    ),
  ),
)

parse_req-Read_example : Returns (Read malformed_message) (parse_req malformed_message)
parse_req-Read_example = parse_req-Read malformed_message malformed-AreBytes

send_req-encode_req_example :
    send_req get_k
    ≡ ok (
        if ltb k_max_msg (length (encode_req get_k))
        then none
        else some (bytes4 (length (encode_req get_k)) ++ encode_req get_k))
send_req-encode_req_example = send_req-encode_req get_k (omega (arith, get_k-length))
