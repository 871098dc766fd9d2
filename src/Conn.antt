-- ===== src/Conn.antt =====
-- The connections of ownRedisUsingCpp/server.cpp: struct Conn, try_one_request, try_fill_buffer,
-- try_flush_buffer, the loops state_req and state_res, and connection_io. A buffer is the list of
-- its first rbuf_size (wbuf_size) bytes. The results of read() and write() come from lists, at
-- whose end the call would block; the command handler do_request is an argument.
pub mod Flush
pub mod Writes
pub mod Answer
pub mod Fill
pub mod Serve
mod Tests
use cand_cppwith_linux.Base.{
  ℕ, zero, suc, ◌+◌, ◌-◌, ◌%◌, ◌^◌, Bool, true, false, List, [], ◌∷◌, ◌++◌, Run, ok, fault,
  out_of_fuel, check, min, ◌>>=◌, ◌>>◌, ltb, leb, ◌==◌, if◌then◌else◌, length, take, drop, Option,
  none, some,
}
use cand_cppwith_linux.Wire.{Bytes, u32_mod, k_max_msg, bytes4, u32_of, slice, parse_req, out_err}

pub data ConnState : Type 0 where
  req : ConnState
  res : ConnState
  ended : ConnState

pub record Conn : Type 0 where
  pub state : ConnState
  pub rbuf : Bytes
  pub wbuf : Bytes
  pub wbuf_sent : ℕ
  pub idle_start : ℕ

unfoldable pub is_req : ConnState → Bool
is_req req = true
is_req _ = false

-- sizeof(conn->rbuf), and of wbuf
abbrev pub buf_size : ℕ
buf_size = 4100

-- how a read() or a write() ends: with a result, or with EAGAIN, EINTR or another error
pub data Io {ℓ} (A : Type ℓ) : Type ℓ where
  done : A → Io A
  eagain : Io A
  eintr : Io A
  failed : Io A

-- the results of the writes to come, and what was written
pub record Socket : Type 0 where
  pub writes : List (Io ℕ)
  pub written : Bytes

-- try_flush_buffer, up to the EINTR of its loop, for one result of write(): whether to call it again
unfoldable pub try_flush_buffer : Conn → Bytes → Io ℕ → Run (Conn × Bytes × Bool)
try_flush_buffer c written eintr = ok (c, written, true)
try_flush_buffer c written eagain = ok (c, written, false)
try_flush_buffer c written failed = ok (record c { state = ended }, written, false)
try_flush_buffer c written (done n) =
    let rv = min n (length (c.wbuf) - c.wbuf_sent) in
    let sent = c.wbuf_sent + rv in
    let all = written ++ take rv (drop (c.wbuf_sent) (c.wbuf)) in
    let flushed : Conn = record c { state = req; wbuf = []; wbuf_sent = 0 } in
    check (leb sent (length (c.wbuf)))
    >> (if sent == length (c.wbuf)
        then ok (flushed, all, false)
        else ok (record c { wbuf_sent = sent }, all, true))

-- state_res: the loop of try_flush_buffer
unfoldable pub flush_loop : Conn → Bytes → List (Io ℕ) → Run (Conn × Socket)
flush_loop c written [] = ok (c, record { writes = []; written = written })
flush_loop c written (w ∷ writes) = do
  (c', written', again) ← try_flush_buffer c written w
  elim again [
    | true ↦ flush_loop c' written' writes
    | false ↦ ok (c', record { writes = writes; written = written' })
  ]

unfoldable pub state_res : Conn → Socket → Run (Conn × Socket)
state_res c k = flush_loop c (k.written) (k.writes)

-- "response is too big"
abbrev pub too_big : Bytes
too_big =
    114 ∷ 101 ∷ 115 ∷ 112 ∷ 111 ∷ 110 ∷ 115 ∷ 101 ∷ 32 ∷ 105 ∷ 115 ∷ 32 ∷ 116 ∷ 111 ∷ 111 ∷ 32 ∷ 98
    ∷ 105 ∷ 103 ∷ []

-- ERR_2BIG
abbrev pub err_2big : ℕ
err_2big = 2

-- `if (4 + out.size() > k_max_msg)`
unfoldable pub fit_response : Bytes → Bytes
fit_response out = if ltb k_max_msg (4 + length out) then out_err [] err_2big too_big else out

-- `a - b` of size_t
unfoldable pub size_sub : ℕ → ℕ → ℕ
size_sub a b = if ltb a b then 2 ^ 64 + a - b else a - b

-- memmove of what follows the request to the start of rbuf
unfoldable pub remove_request : Bytes → ℕ → Run Bytes
remove_request rbuf len =
    let remain = size_sub (length rbuf) (4 + len) in
    let moved : Run Bytes = slice (4 + len) remain rbuf in if remain == 0 then ok [] else moved

module _ {D : Type 0} (do_request : D → List Bytes → Run (D × Bytes)) where
  -- the part of try_one_request from the parsed command on
  unfoldable pub answer : D → Conn → Socket → ℕ → List Bytes → Run (D × Conn × Socket × Bool)
  answer g c k len cmd = do
    (g', out) ← do_request g cmd
    let wlen = length (fit_response out) % u32_mod
    check (leb (4 + length (fit_response out)) buf_size)
    rest ← remove_request (c.rbuf) len
    (c', k') ←
        state_res
          (record c {
            state = res;
            wbuf = take (4 + wlen) (bytes4 wlen ++ fit_response out);
            rbuf = rest;
          })
          k
    ok (g', c', k', is_req (c'.state))

  unfoldable pub try_one_request : D → Conn → Socket → Run (D × Conn × Socket × Bool)
  try_one_request g c k =
      let stop : Run (D × Conn × Socket × Bool) = ok (g, record c { state = ended }, k, false) in
      let header : Run (D × Conn × Socket × Bool) = do
        len ← u32_of (c.rbuf)
        let parsed : Run (D × Conn × Socket × Bool) = do
          message ← slice 4 len (c.rbuf)
          r ← parse_req message
          elim r [ none ↦ stop | some cmd ↦ answer g c k len cmd ]
        if ltb k_max_msg len
            then stop
            else if ltb (length (c.rbuf)) (4 + len)
            then ok (g, c, k, false)
            else parsed
      in if ltb (length (c.rbuf)) 4 then ok (g, c, k, false) else header

  -- `while (try_one_request(conn)) {}`, with fuel for the rounds
  unfoldable pub request_loop : ℕ → D → Conn → Socket → Run (D × Conn × Socket)
  request_loop zero g c k = out_of_fuel
  request_loop (suc n) g c k = do
    (g', c', k', again) ← try_one_request g c k
    elim again [ true ↦ request_loop n g' c' k' | false ↦ ok (g', c', k') ]

  -- try_fill_buffer for one result of read(): whether to call it again
  unfoldable pub try_fill_buffer : D → Conn → Socket → Io Bytes → Run (D × Conn × Socket × Bool)
  try_fill_buffer g c k eintr = ok (g, c, k, true)
  try_fill_buffer g c k eagain = ok (g, c, k, false)
  try_fill_buffer g c k failed = ok (g, record c { state = ended }, k, false)
  try_fill_buffer g c k (done bytes) =
      let new = take (buf_size - length (c.rbuf)) bytes in
      let full : Conn = record c { rbuf = c.rbuf ++ new } in
      let serve : Run (D × Conn × Socket × Bool) = do
        check (leb (length (full.rbuf)) buf_size)
        (g', c', k') ← request_loop (suc (length (full.rbuf))) g full k
        ok (g', c', k', is_req (c'.state))
      in do
        check (ltb (length (c.rbuf)) buf_size)
        if length new == 0 then ok (g, record c { state = ended }, k, false) else serve

  -- state_req: the loop of try_fill_buffer
  unfoldable pub state_req : D → Conn → Socket → List (Io Bytes) → Run (D × Conn × Socket)
  state_req g c k [] = ok (g, c, k)
  state_req g c k (r ∷ reads) = do
    (g', c', k', again) ← try_fill_buffer g c k r
    elim again [ true ↦ state_req g' c' k' reads | false ↦ ok (g', c', k') ]

  -- connection_io at the time `now`, without the move in the list of idle connections
  unfoldable pub connection_io : ℕ → D → Conn → Socket → List (Io Bytes) → Run (D × Conn × Socket)
  connection_io now g c k reads =
      let c' : Conn = record c { idle_start = now } in
      elim (c.state) [
        | req ↦ state_req g c' k reads
        | res ↦ (do (c'', k') ← state_res c' k; ok (g, c'', k'))
        | ended ↦ fault
      ]
