-- ===== src/Client/Tests.antt =====
-- The replies "v" and, to `keys` for the one key "k", an array, in two reads.
use cand_cppwith_linux.Base.{◌≡◌, refl, true, List, [], ◌∷◌, ◌++◌, Returns, arith, length}
use cand_cppwith_linux.Wire.{Bytes, bytes4, out_str}
use cand_cppwith_linux.Conn.{Io, done, eagain}
use cand_cppwith_linux.Client.{Printed, read_full, write_all, read_res}
use cand_cppwith_linux.Client.Reply.{Reply, reply_bytes, lines_of, Fits}
use cand_cppwith_linux.Client.Stream.{
  stream, IsOpen, Delivered, read_full-Delivered, Written, write_all-Written,
}
use cand_cppwith_linux.Client.ReadRes.{read_res-prints}

abbrev v_reply : Reply
v_reply = Reply.str (118 ∷ [])

v_reply-Fits : Fits v_reply
unfolding Fits
v_reply-Fits = omega arith

v_reply-length : length (reply_bytes v_reply) ≡ 6
unfolding reply_bytes out_str bytes4
v_reply-length = refl

abbrev chunks : List (Io Bytes)
chunks = done (6 ∷ 0 ∷ []) ∷ done (0 ∷ 0 ∷ 2 ∷ 1 ∷ 0 ∷ 0 ∷ 0 ∷ 118 ∷ []) ∷ []

chunks-IsOpen : IsOpen chunks
chunks-IsOpen = (omega arith, (omega arith, tt))

chunks-reply : stream chunks ≡ bytes4 (length (reply_bytes v_reply)) ++ (reply_bytes v_reply ++ [])
unfolding reply_bytes out_str bytes4
chunks-reply = refl

abbrev one_key : Bytes
one_key = out_str [] (107 ∷ [])

abbrev arr_chunks : List (Io Bytes)
arr_chunks =
    done (11 ∷ 0 ∷ []) ∷ done (0 ∷ 0 ∷ 5 ∷ 1 ∷ 0 ∷ 0 ∷ 0 ∷ 2 ∷ 1 ∷ 0 ∷ 0 ∷ 0 ∷ 107 ∷ []) ∷ []

read_full-Delivered_example : Delivered 4 chunks (read_full 4 chunks)
read_full-Delivered_example = read_full-Delivered 4 chunks chunks-IsOpen (omega arith)

write_all-Written_example :
    Written (1 ∷ 2 ∷ 3 ∷ []) (write_all (1 ∷ 2 ∷ 3 ∷ []) (done 2 ∷ eagain ∷ []))
write_all-Written_example = write_all-Written (1 ∷ 2 ∷ 3 ∷ []) (done 2 ∷ eagain ∷ [])

read_res-prints_example :
    Returns
      (λ (q : Printed × List (Io Bytes)).
        (q.0 ≡ (lines_of v_reply, length (reply_bytes v_reply))) × (stream (q.1) ≡ []))
      (read_res true chunks)
read_res-prints_example =
    read_res-prints true v_reply chunks [] v_reply-Fits (omega (arith, v_reply-length))
      chunks-IsOpen chunks-reply
