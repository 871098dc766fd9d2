-- ===== src/Conn/Flush.antt =====
-- The response of a connection: try_flush_buffer and state_res.
use mathlib.Core.Path.{subst}
use mathlib.Core.List.{append_assoc, append-nil}
use cand_cppwith_linux.Base.{
  ℕ, ◌+◌, ◌-◌, ◌<◌, ◌≡◌, refl, sym, ap, ◌∙◌, inl, inr, Bool, true, false, List, [], ◌∷◌, ◌++◌, ok,
  Returns, returns, Returns-bind, Returns-map, arith, Bool-cases, length, take, drop, min,
  length-drop, drop-drop, take-append-drop, take-length, leb, ◌==◌,
}
use cand_cppwith_linux.Wire.{Bytes}
use cand_cppwith_linux.Conn.{
  ConnState, Conn, Io, done, eagain, eintr, failed, Socket, try_flush_buffer, flush_loop, state_res,
}

-- What flushing may do to a connection with a response: all of it was written and the connection
-- waits for a request, or a part of it was and the rest is still there, or writing failed.
pub data Flushed (c : Conn) (written : Bytes) : Conn → Bytes → Type 0 where
  whole :
      Flushed c written
        (record c { state = ConnState.req; wbuf = []; wbuf_sent = 0 })
        (written ++ drop (c.wbuf_sent) (c.wbuf))
  part :
      (sent : ℕ) (now : Bytes)
      → sent < length (c.wbuf)
      → now ++ drop sent (c.wbuf) ≡ drop (c.wbuf_sent) (c.wbuf)
      → Flushed c written (record c { wbuf_sent = sent }) (written ++ now)
  broken :
      (sent : ℕ) (now : Bytes)
      → now ++ drop sent (c.wbuf) ≡ drop (c.wbuf_sent) (c.wbuf)
      → Flushed c written (record c { state = ConnState.ended; wbuf_sent = sent }) (written ++ now)

-- the step asks to be called again only if a part is left
pub data Stepped (c : Conn) (written : Bytes) : Conn × Bytes × Bool → Type 0 where
  stop : (c' : Conn) (w : Bytes) → Flushed c written c' w → Stepped c written (c', w, false)
  more :
      (sent : ℕ) (now : Bytes)
      → sent < length (c.wbuf)
      → now ++ drop sent (c.wbuf) ≡ drop (c.wbuf_sent) (c.wbuf)
      → Stepped c written (record c { wbuf_sent = sent }, written ++ now, true)

still : (c : Conn) (written : Bytes) → c.wbuf_sent < length (c.wbuf) → Flushed c written c written
still c written h =
    subst (λ w. Flushed c written c w) (append-nil written) (part (c.wbuf_sent) [] h refl)

flush_done :
    (c : Conn) (written : Bytes) (n : ℕ)
    → c.wbuf_sent < length (c.wbuf)
    → Returns (Stepped c written) (try_flush_buffer c written (done n))
unfolding try_flush_buffer
flush_done c written n h =
    let left : Bytes = drop (c.wbuf_sent) (c.wbuf) in
    let rv : ℕ = min n (length (c.wbuf) - c.wbuf_sent) in
    let e1 : leb (c.wbuf_sent + rv) (length (c.wbuf)) ≡ true = ground arith in
    let after : drop rv left ≡ drop (c.wbuf_sent + rv) (c.wbuf) =
      drop-drop (c.wbuf_sent) rv (c.wbuf_sent + rv) (c.wbuf) refl in
    rw e1 (elim (Bool-cases (c.wbuf_sent + rv == length (c.wbuf))) [
      | inl e ↦
          let all : take rv left ≡ left =
            take-length rv left (ground (arith, length-drop (c.wbuf_sent) (c.wbuf))) in
          rw e (returns (rw all (stop _ _ whole)))
      | inr e ↦ rw e (
          returns (
            more (c.wbuf_sent + rv) (take rv left) (ground arith)
              (ap (λ l. take rv left ++ l) (sym after) ∙ take-append-drop rv left)))
    ])

flush_step :
    (c : Conn) (written : Bytes) (w : Io ℕ)
    → c.wbuf_sent < length (c.wbuf)
    → Returns (Stepped c written) (try_flush_buffer c written w)
unfolding try_flush_buffer
flush_step c written eintr h = returns (
    subst (λ w. Stepped c written (c, w, true)) (append-nil written) (more (c.wbuf_sent) [] h refl))
flush_step c written eagain h = returns (stop c written (still c written h))
flush_step c written failed h = returns (
    subst (λ w. Stepped c written (record c { state = ConnState.ended }, w, false))
      (append-nil written) (stop _ _ (broken (c.wbuf_sent) [] refl)))
flush_step c written (done n) h = flush_done c written n h

Flushed-after :
    (c : Conn) (written : Bytes) (sent : ℕ) (now : Bytes)
    → now ++ drop sent (c.wbuf) ≡ drop (c.wbuf_sent) (c.wbuf)
    → (c' : Conn) (w : Bytes) → Flushed (record c { wbuf_sent = sent }) (written ++ now) c' w
    → Flushed c written c' w
Flushed-after c written sent now e _ _ whole =
    subst (λ w. Flushed c written (record c { state = ConnState.req; wbuf = []; wbuf_sent = 0 }) w)
      (ap (λ l. written ++ l) (sym e) ∙ sym (append_assoc written now (drop sent (c.wbuf)))) whole
Flushed-after c written sent now e _ _ (part sent2 now2 h e2) =
    subst (λ w. Flushed c written (record c { wbuf_sent = sent2 }) w)
      (sym (append_assoc written now now2))
      (part sent2 (now ++ now2) h
        (append_assoc now now2 (drop sent2 (c.wbuf)) ∙ (ap (λ l. now ++ l) e2 ∙ e)))
Flushed-after c written sent now e _ _ (broken sent2 now2 e2) =
    subst (λ w. Flushed c written (record c { state = ConnState.ended; wbuf_sent = sent2 }) w)
      (sym (append_assoc written now now2))
      (broken sent2 (now ++ now2)
        (append_assoc now now2 (drop sent2 (c.wbuf)) ∙ (ap (λ l. now ++ l) e2 ∙ e)))

abbrev pub AfterFlush : Conn → Bytes → Conn × Socket → Type 0
AfterFlush c written r = Flushed c written (r.0) (r.1.written)

next_flush :
    (c : Conn) (written : Bytes) (writes : List (Io ℕ))
    → ((c' : Conn) (w : Bytes)
        → c'.wbuf_sent < length (c'.wbuf)
        → Returns (AfterFlush c' w) (flush_loop c' w writes))
    → (r : Conn × Bytes × Bool) → Stepped c written r
    → Returns (AfterFlush c written) (elim (r.2) [
      | true ↦ flush_loop (r.0) (r.1) writes
      | false ↦ ok (r.0, record { writes = writes; written = r.1 })
    ])
next_flush c written writes again _ (stop c' w f) = returns f
next_flush c written writes again _ (more sent now h e) =
    Returns-map (again (record c { wbuf_sent = sent }) (written ++ now) h)
      λ r f. Flushed-after c written sent now e (r.0) (r.1.written) f

loop :
    (c : Conn) (written : Bytes) (writes : List (Io ℕ))
    → c.wbuf_sent < length (c.wbuf)
    → Returns (AfterFlush c written) (flush_loop c written writes)
unfolding flush_loop
loop c written [] h = returns (still c written h)
loop c written (w ∷ writes) h =
    Returns-bind (flush_step c written w h)
      λ r s. next_flush c written writes (λ c' w' h'. loop c' w' writes h') r s

-- state_res on a response of which a part is to be sent: whatever the writes return, no assertion
-- fails, and the bytes written are the next bytes of the response, in order and each once. If all
-- of them were written the connection waits for a request.
pub state_res-Flushed :
    (c : Conn) (k : Socket)
    → c.wbuf_sent < length (c.wbuf)
    → Returns (AfterFlush c (k.written)) (state_res c k)
unfolding state_res
state_res-Flushed c k h = loop c (k.written) (k.writes) h
