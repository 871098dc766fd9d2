-- ===== src/Conn/Tests.antt =====
-- A handler that answers every command with one byte.
use cand_cppwith_linux.Base.{
  ℕ, ◌+◌, ◌≡◌, refl, List, [], ◌∷◌, ◌++◌, Bool, Run, ok, Returns, arith, length,
}
use cand_cppwith_linux.Wire.{Bytes, bytes4}
use cand_cppwith_linux.Wire.Request.{encode_strings, encode_req}
use cand_cppwith_linux.Conn.{ConnState, is_req, Conn, done, eagain, eintr, Socket, try_one_request}
use cand_cppwith_linux.Conn.Flush.{Flushed}
use cand_cppwith_linux.Conn.Serve.{answered, try_one_request-answers}

abbrev nil_handler : ℕ → List Bytes → Run (ℕ × Bytes)
nil_handler served cmd = ok (served + 1, 0 ∷ [])

abbrev idle_conn : Conn
idle_conn = record { state = ConnState.req; rbuf = []; wbuf = []; wbuf_sent = 0; idle_start = 0 }

abbrev keys_request : Bytes
keys_request = 12 ∷ 0 ∷ 0 ∷ 0 ∷ 1 ∷ 0 ∷ 0 ∷ 0 ∷ 4 ∷ 0 ∷ 0 ∷ 0 ∷ 107 ∷ 101 ∷ 121 ∷ 115 ∷ []

abbrev slow_socket : Socket
slow_socket = record { writes = eintr ∷ done 3 ∷ done 100 ∷ eagain ∷ []; written = [] }

abbrev half_sent : Conn
half_sent = record {
  state = ConnState.res;
  rbuf = [];
  wbuf = 1 ∷ 0 ∷ 0 ∷ 0 ∷ 0 ∷ [];
  wbuf_sent = 2;
  idle_start = 0;
}

abbrev keys_command : List Bytes
keys_command = (107 ∷ 101 ∷ 121 ∷ 115 ∷ []) ∷ []

abbrev ready : Conn
ready = record idle_conn { rbuf = keys_request ++ 9 ∷ [] }

ready-holds :
    ready.rbuf ≡ bytes4 (length (encode_req keys_command)) ++ (encode_req keys_command ++ 9 ∷ [])
unfolding bytes4 encode_req encode_strings
ready-holds = refl

keys_command-length : length (encode_req keys_command) ≡ 12
unfolding bytes4 encode_req encode_strings
keys_command-length = refl

try_one_request-answers_example :
    Returns
      (λ (r : ℕ × Conn × Socket × Bool).
        (r.0 ≡ 1)
        × Flushed (answered ready (0 ∷ []) (9 ∷ [])) [] (r.1) (r.2.written)
        × (r.3 ≡ is_req (r.1.state)))
      (try_one_request nil_handler 0 ready slow_socket)
try_one_request-answers_example =
    try_one_request-answers nil_handler 0 ready slow_socket keys_command (9 ∷ []) 1 (0 ∷ [])
      ready-holds (omega arith) (omega (arith, keys_command-length)) refl refl (omega arith)
