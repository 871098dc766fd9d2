-- ===== src/Conn/Serve.antt =====
-- What try_one_request answers to a complete request.
use cand_cppwith_linux.Base.{
  ℕ, ◌+◌, ◌%◌, ◌≤◌, ◌≡◌, refl, sym, ap, ◌∙◌, Bool, true, false, List, ◌++◌, Run, ok, Returns,
  returns, Returns-bind, Returns-eq, arith, length, take, drop, length-append, leb, ltb,
  take-length, take-length_append, drop-length_append, drop-drop,
}
use cand_cppwith_linux.Wire.{Bytes, bytes4, u32_of, k_max_msg, k_max_args, u32_mod}
use cand_cppwith_linux.Wire.Bytes.{u32_of-bytes4, length-bytes4, slice-ok}
use cand_cppwith_linux.Wire.Request.{encode_req, parse_req-encode_req}
use cand_cppwith_linux.Conn.{
  ConnState, is_req, Conn, buf_size, Socket, fit_response, answer, try_one_request,
}
use cand_cppwith_linux.Conn.Answer.{remove_request-ok}
use cand_cppwith_linux.Conn.Flush.{Flushed, state_res-Flushed}

fit_response-small : (out : Bytes) → 4 + length out ≤ k_max_msg → fit_response out ≡ out
unfolding fit_response
fit_response-small out h =
    let e : ltb k_max_msg (4 + length out) ≡ false = ground arith in rw e refl

-- the connection once the response is in its buffer
abbrev pub answered : Conn → Bytes → Bytes → Conn
answered c out rest = record c {
  state = ConnState.res;
  rbuf = rest;
  wbuf = bytes4 (length out) ++ out;
}

drop_header : (n : ℕ) (l : Bytes) → drop 4 (bytes4 n ++ l) ≡ l
unfolding bytes4
drop_header n l = refl

module _ {D : Type 0} (do_request : D → List Bytes → Run (D × Bytes)) where
  reads_request :
      (g : D) (c : Conn) (k : Socket) (cmd : List Bytes) (rest : Bytes)
      → c.rbuf ≡ bytes4 (length (encode_req cmd)) ++ (encode_req cmd ++ rest)
      → length cmd ≤ k_max_args
      → length (encode_req cmd) ≤ k_max_msg
      → try_one_request do_request g c k ≡ answer do_request g c k (length (encode_req cmd)) cmd
  unfolding try_one_request
  reads_request g c k cmd rest e few small =
      let n = length (encode_req cmd) in
      let size : length (c.rbuf) ≡ 4 + n + length rest = omega (
        arith,
        ap length e,
        length-append (bytes4 n) (encode_req cmd ++ rest),
        length-bytes4 n,
        length-append (encode_req cmd) rest,
      ) in
      let behind : drop 4 (c.rbuf) ≡ encode_req cmd ++ rest =
        ap (drop 4) e ∙ drop_header n (encode_req cmd ++ rest) in
      let e1 : ltb (length (c.rbuf)) 4 ≡ false = ground arith in
      let e2 : u32_of (c.rbuf) ≡ ok n =
        ap u32_of e ∙ u32_of-bytes4 n (encode_req cmd ++ rest) (omega arith) in
      let e3 : ltb k_max_msg n ≡ false = ground arith in
      let e4 : ltb (length (c.rbuf)) (4 + n) ≡ false = ground arith in
      let e5 : take n (drop 4 (c.rbuf)) ≡ encode_req cmd =
        ap (take n) behind ∙ take-length_append (encode_req cmd) rest in
      rw
        (
          e1,
          e2,
          e3,
          e4,
          slice-ok 4 n (c.rbuf) (omega arith),
          e5,
          parse_req-encode_req cmd few (omega arith),
        )
        refl

  -- If the buffer of a waiting connection starts with a request that send_req could have written, and the command
  -- handler answers it with `out` of at most k_max_msg - 4 bytes, try_one_request removes exactly the
  -- request from the buffer and starts to write the length of `out` and `out`. It returns true just
  -- if the response was written whole.
  pub try_one_request-answers :
      (g : D) (c : Conn) (k : Socket) (cmd : List Bytes) (rest : Bytes) (g' : D) (out : Bytes)
      → c.rbuf ≡ bytes4 (length (encode_req cmd)) ++ (encode_req cmd ++ rest)
      → length cmd ≤ k_max_args
      → length (encode_req cmd) ≤ k_max_msg
      → c.wbuf_sent ≡ 0
      → do_request g cmd ≡ ok (g', out)
      → 4 + length out ≤ k_max_msg
      → Returns
          (λ (r : D × Conn × Socket × Bool).
            (r.0 ≡ g')
            × Flushed (answered c out rest) (k.written) (r.1) (r.2.written)
            × (r.3 ≡ is_req (r.1.state)))
          (try_one_request do_request g c k)
  unfolding answer
  try_one_request-answers g c k cmd rest g' out e few small sent run fits =
      let n = length (encode_req cmd) in
      let left : drop (4 + n) (c.rbuf) ≡ rest =
        sym (drop-drop 4 n (4 + n) (c.rbuf) refl)
        ∙ (ap (λ l. drop n (drop 4 l)) e
            ∙ (ap (drop n) (drop_header n (encode_req cmd ++ rest))
                ∙ drop-length_append (encode_req cmd) rest)) in
      let e1 = fit_response-small out fits in
      let fits_in : 4 + n ≤ length (c.rbuf) = omega (
        arith,
        ap length e,
        length-append (bytes4 n) (encode_req cmd ++ rest),
        length-bytes4 n,
        length-append (encode_req cmd) rest,
      ) in
      let e2 : length out % u32_mod ≡ length out = omega arith in
      let e3 : leb (4 + length out) buf_size ≡ true = ground arith in
      let len : length (bytes4 (length out) ++ out) ≡ 4 + length out =
        omega (arith, length-append (bytes4 (length out)) out, length-bytes4 (length out)) in
      let e4 = take-length (4 + length out) (bytes4 (length out) ++ out) (sym len) in
      Returns-eq (reads_request g c k cmd rest e few small) (
        rw (run, e1, e2, e3, remove_request-ok (c.rbuf) n fits_in, e4, left)
          (Returns-bind (state_res-Flushed (answered c out rest) k (omega arith))
            λ (c', k') f. returns (refl, f, refl)))
