-- ===== src/Conn/Fill.antt =====
-- The requests of a connection: the loop over the buffered requests, try_fill_buffer, state_req, and
-- connection_io.
use cand_cppwith_linux.Base.{◌-◌, Bool, true, false, List, [], ◌∷◌}
use cand_cppwith_linux.Wire.{Bytes}
use cand_cppwith_linux.Wire.Bytes.{AreBytes}
use cand_cppwith_linux.Conn.{Conn, buf_size, Io, done, Socket}
use cand_cppwith_linux.Conn.Answer.{Waiting, Rest}

-- the bytes of a read
abbrev pub ReadsBytes : Io Bytes → Type 0
ReadsBytes (done bytes) = AreBytes bytes
ReadsBytes _ = Unit {0}

abbrev pub AllReadBytes : List (Io Bytes) → Type 0
AllReadBytes [] = Unit {0}
AllReadBytes (r ∷ reads) = ReadsBytes r × AllReadBytes reads

module _ {D : Type 0} where
  abbrev pub AtRest : D × Conn × Socket → Type 0
  AtRest (g, c, k) = Rest c

  -- what try_fill_buffer leaves: it is called again only with room in the buffer
  pub data Filled : D × Conn × Socket × Bool → Type 0 where
    more : (g : D) (c : Conn) (k : Socket) → Waiting (buf_size - 1) c → Filled (g, c, k, true)
    halted : (g : D) (c : Conn) (k : Socket) → Rest c → Filled (g, c, k, false)
