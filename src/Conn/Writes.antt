-- ===== src/Conn/Writes.antt =====
-- state_res: what it writes, by the results of write().
use cand_cppwith_linux.Base.{ℕ, ◌+◌, ◌<◌, ◌≤◌, ◌≡◌, ◌⊎◌, List, [], ◌∷◌, ◌++◌, length, take, drop}
use cand_cppwith_linux.Wire.{Bytes}
use cand_cppwith_linux.Conn.{ConnState, Conn, Io, done, eagain, failed, Socket}

-- the bytes that the writes take, together
abbrev pub accepted : List (Io ℕ) → ℕ
accepted [] = 0
accepted (done n ∷ writes) = n + accepted writes
accepted (_ ∷ writes) = accepted writes

-- The outcomes, by the results `used` of the calls of write(), with those `left` for later: the rest
-- of the response was taken; less was, and write() would block, or has no result left; or less was
-- taken, and write() failed.
pub data Wrote (c : Conn) (written : Bytes) (writes : List (Io ℕ)) : Conn × Socket → Type 0 where
  whole :
      (used left : List (Io ℕ))
      → used ++ left ≡ writes
      → length c.wbuf ≤ c.wbuf_sent + accepted used
      → Wrote c written writes (
        record c { state = ConnState.req; wbuf = []; wbuf_sent = 0 },
        record { writes = left; written = written ++ drop (c.wbuf_sent) (c.wbuf) },
      )
  part :
      (used left : List (Io ℕ))
      → (used ++ left ≡ writes)
        × ((left ≡ []) ⊎ ((before : List (Io ℕ)) × (used ≡ before ++ (eagain ∷ []))))
      → c.wbuf_sent + accepted used < length c.wbuf
      → Wrote c written writes (
        record c { wbuf_sent = c.wbuf_sent + accepted used },
        record {
          writes = left;
          written = written ++ take (accepted used) (drop (c.wbuf_sent) (c.wbuf));
        },
      )
  broken :
      (used left : List (Io ℕ))
      → used ++ (failed ∷ left) ≡ writes
      → c.wbuf_sent + accepted used < length c.wbuf
      → Wrote c written writes (
        record c { state = ConnState.ended; wbuf_sent = c.wbuf_sent + accepted used },
        record {
          writes = left;
          written = written ++ take (accepted used) (drop (c.wbuf_sent) (c.wbuf));
        },
      )
