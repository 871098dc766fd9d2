-- ===== src/Conn/Answer.antt =====
-- One request of a connection: try_one_request and the loop over the buffered requests.
use cand_cppwith_linux.Base.{
  ℕ, sym, ap, ◌∙◌, take-length, ◌==◌, ◌+◌, ◌-◌, ◌%◌, ◌≤◌, ◌<◌, ◌≡◌, refl, inl, inr, Bool, true,
  false, List, [], Option, none, some, ◌++◌, Run, ok, Returns, returns, Returns-bind, arith,
  Bool-cases, length, take, drop, length-append, length-drop, length-take, leb, ltb, ltb_false→le,
  ◌>>=◌, if◌then◌else◌,
}
use cand_cppwith_linux.Wire.{Bytes, bytes4, u32_mod, parse_req, slice, k_max_msg, out_err}
use cand_cppwith_linux.Wire.Bytes.{
  AreBytes, AreBytes-drop, AreBytes-take, u32_of-Returns, length-bytes4, slice-ok,
}
use cand_cppwith_linux.Wire.Parse.{Read, bad, request, parse_req-Read}
use cand_cppwith_linux.Conn.{
  ConnState, is_req, Conn, buf_size, Socket, fit_response, size_sub, remove_request, answer,
  try_one_request,
}
use cand_cppwith_linux.Conn.Flush.{Flushed, whole, part, broken, state_res-Flushed}

-- a connection that waits for a request, with at most `n` bytes of it read
pub record Waiting (n : ℕ) (c : Conn) : Type 0 where
  pub state : c.state ≡ ConnState.req
  pub nothing : c.wbuf ≡ []
  pub none_sent : c.wbuf_sent ≡ 0
  pub few : length (c.rbuf) ≤ n
  pub bytes : AreBytes (c.rbuf)

-- a connection at rest: between two calls of connection_io
pub data Rest (c : Conn) : Type 0 where
  waiting : Waiting (buf_size - 1) c → Rest c
  responding :
      c.state ≡ ConnState.res
      → c.wbuf_sent < length (c.wbuf)
      → length (c.wbuf) ≤ buf_size
      → length (c.rbuf) < buf_size
      → AreBytes (c.rbuf)
      → Rest c
  over : c.state ≡ ConnState.ended → Rest c

none_left : (n : ℕ) → (n == 0) ≡ true → n ≡ 0
none_left n e = ground (arith, e)

-- a request that is in the buffer is taken off its start
pub remove_request-ok :
    (rbuf : Bytes) (len : ℕ)
    → 4 + len ≤ length rbuf
    → remove_request rbuf len ≡ ok (drop (4 + len) rbuf)
unfolding remove_request size_sub
remove_request-ok rbuf len h =
    let left = length rbuf - (4 + len) in
    let size = length-drop (4 + len) rbuf in
    let no_wrap : ltb (length rbuf) (4 + len) ≡ false = ground arith in
    let all : take left (drop (4 + len) rbuf) ≡ drop (4 + len) rbuf =
      take-length left (drop (4 + len) rbuf) (sym size) in
    rw no_wrap (elim (Bool-cases (left == 0)) [
      | inr e ↦ rw (e, slice-ok (4 + len) left rbuf (omega arith), all) refl
      | inl e ↦ rw e (ap ok (ap (λ n. take n (drop (4 + len) rbuf)) (sym (none_left left e)) ∙ all))
    ])

length-fit_response : (out : Bytes) → length (fit_response out) ≤ k_max_msg - 4
unfolding fit_response out_err bytes4
length-fit_response out = elim (Bool-cases (ltb k_max_msg (4 + length out))) [
  | inl e ↦ rw e (omega arith)
  | inr e ↦ rw e (omega (arith, ltb_false→le k_max_msg (4 + length out) e))
]

resting : (c : Conn) → Waiting buf_size c → length (c.rbuf) < buf_size → Rest c
resting c w h = waiting (record {
  state = w.state;
  nothing = w.nothing;
  none_sent = w.none_sent;
  few = omega arith;
  bytes = w.bytes;
})

module _ {D : Type 0} where
  -- what a round leaves: a shorter buffer of requests, or a connection at rest
  pub data Served (n : ℕ) : D × Conn × Socket × Bool → Type 0 where
    again : (g : D) (c : Conn) (k : Socket) (m : ℕ) → m < n → Waiting m c → Served n (g, c, k, true)
    stopped : (g : D) (c : Conn) (k : Socket) → Rest c → Served n (g, c, k, false)

  after_flush :
      (g : D) (n : ℕ) (c : Conn) (written : Bytes) (c' : Conn) (w : Bytes) (k : Socket)
      → length (c.rbuf) < n
      → n ≤ buf_size
      → AreBytes (c.rbuf)
      → c.state ≡ ConnState.res
      → length (c.wbuf) ≤ buf_size
      → Flushed c written c' w
      → Served n (g, c', k, is_req (c'.state))
  unfolding is_req
  after_flush g n c written _ _ k few small bytes state fits whole =
      again g _ k (length (c.rbuf)) few (record {
        state = refl;
        nothing = refl;
        none_sent = refl;
        few = omega arith;
        bytes = bytes;
      })
  after_flush g n c written _ _ k few small bytes state fits (part sent now h e) =
      rw state (stopped g _ k (responding refl h fits (omega arith) bytes))
  after_flush g n c written _ _ k few small bytes state fits (broken sent now e) =
      stopped g _ k (over refl)

  module _ (do_request : D → List Bytes → Run (D × Bytes))
      (total : (g : D) (cmd : List Bytes) → Returns (λ _. Unit {0}) (do_request g cmd)) where
    answer-Served :
        (g : D) (c : Conn) (k : Socket) (len n : ℕ) (cmd : List Bytes)
        → Waiting buf_size c
        → 4 + len ≤ length (c.rbuf)
        → length (c.rbuf) ≤ n
        → n ≤ buf_size
        → Returns (Served n) (answer do_request g c k len cmd)
    unfolding answer
    answer-Served g c k len n cmd w h few small = Returns-bind (total g cmd) λ (g', out) _.
        let size = length-fit_response out in
        let e1 : leb (4 + length (fit_response out)) buf_size ≡ true = ground arith in
        let e2 : length (fit_response out) % u32_mod ≡ length (fit_response out) = omega arith in
        let response = bytes4 (length (fit_response out)) ++ fit_response out in
        let long : length (take (4 + length (fit_response out)) response)
            ≡ 4 + length (fit_response out) =
          omega (
            arith,
            length-take (4 + length (fit_response out)) response,
            length-append (bytes4 (length (fit_response out))) (fit_response out),
            length-bytes4 (length (fit_response out)),
          ) in
        let shorter = length-drop (4 + len) (c.rbuf) in
        rw (e1, e2, remove_request-ok (c.rbuf) len h)
          (Returns-bind (state_res-Flushed _ k (omega (arith, long, w.none_sent))) λ (c', k') f.
            returns (
              after_flush g' n _ (k.written) c' (k'.written) k' (omega (arith, shorter)) small
                (AreBytes-drop (4 + len) (c.rbuf) (w.bytes)) refl (omega (arith, long)) f))

    pub try_one_request-Served :
        (g : D) (c : Conn) (k : Socket) (n : ℕ)
        → Waiting buf_size c
        → length (c.rbuf) ≤ n
        → n ≤ buf_size
        → Returns (Served n) (try_one_request do_request g c k)
    unfolding try_one_request
    try_one_request-Served g c k n w few small = elim (Bool-cases (ltb (length (c.rbuf)) 4)) [
      | inl e ↦ rw e (returns (stopped g c k (resting c w (ground arith))))
      | inr e ↦ rw e (
          Returns-bind (u32_of-Returns (c.rbuf) (w.bytes) (ltb_false→le (length (c.rbuf)) 4 e))
            λ len _. header len)
    ]
      where
        parsed :
            (len : ℕ)
            → 4 + len ≤ length (c.rbuf)
            → (r : Option (List Bytes)) → Read (take len (drop 4 (c.rbuf))) r
            → Returns (Served n) (elim r [
              | none ↦ ok (g, record c { state = ConnState.ended }, k, false)
              | some cmd ↦ answer do_request g c k len cmd
            ])
        parsed len fits _ bad = returns (stopped g _ k (over refl))
        parsed len fits _ (request cmd _ _) = answer-Served g c k len n cmd w fits few small

        header :
            (len : ℕ)
            → Returns (Served n) (
                if ltb k_max_msg len
                then ok (g, record c { state = ConnState.ended }, k, false)
                else if ltb (length (c.rbuf)) (4 + len)
                then ok (g, c, k, false)
                else (slice 4 len (c.rbuf) >>= λ message. parse_req message >>= λ r. elim r [
                  | none ↦ ok (g, record c { state = ConnState.ended }, k, false)
                  | some cmd ↦ answer do_request g c k len cmd
                ]))
        header len = elim (Bool-cases (ltb k_max_msg len)) [
          | inl e ↦ rw e (returns (stopped g _ k (over refl)))
          | inr e ↦ elim (Bool-cases (ltb (length (c.rbuf)) (4 + len))) [
            | inl e2 ↦ rw (e, e2) (returns (stopped g c k (resting c w (ground arith))))
            | inr e2 ↦
                rw (e, e2, slice-ok 4 len (c.rbuf) (ltb_false→le (length (c.rbuf)) (4 + len) e2))
                  (Returns-bind
                    (parse_req-Read (take len (drop 4 (c.rbuf)))
                      (AreBytes-take len (drop 4 (c.rbuf)) (AreBytes-drop 4 (c.rbuf) (w.bytes))))
                    λ r p. parsed len (ltb_false→le (length (c.rbuf)) (4 + len) e2) r p)
          ]
        ]
