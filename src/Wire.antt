-- ===== src/Wire.antt =====
-- The request and response formats: parse_req and the out_* functions of
-- ownRedisUsingCpp/server.cpp, send_req of client.cpp up to the write, and the tags and str_hash of
-- common.h. A string or a buffer is the list of its bytes; integers are in little-endian order, as
-- the code assumes.
pub mod Bytes
pub mod Request
pub mod Parse
pub mod Send
mod Tests
use cand_cppwith_linux.Base.{
  ℕ, zero, suc, ◌+◌, ◌-◌, ◌*◌, ◌/◌, ◌%◌, ◌^◌, Bool, Option, none, some, List, [], ◌∷◌, ◌++◌, Run,
  ok, fault, check, deref, ◌>>=◌, ◌>>◌, ltb, leb, ◌==◌, if◌then◌else◌, length, get_elem?, take,
  drop,
}

abbrev pub Bytes : Type 0
Bytes = List ℕ

abbrev pub u32_mod : ℕ
u32_mod = 2 ^ 32

abbrev pub size_mod : ℕ
size_mod = 2 ^ 64

abbrev pub k_max_msg : ℕ
k_max_msg = 4096

abbrev pub k_max_args : ℕ
k_max_args = 1024

-- the 4 bytes of a uint32_t or an int32_t
unfoldable pub bytes4 : ℕ → Bytes
bytes4 n = n % 256 ∷ n / 256 % 256 ∷ n / 2 ^ 16 % 256 ∷ n / 2 ^ 24 % 256 ∷ []

-- the 8 bytes of an int64_t or a double
unfoldable pub bytes8 : ℕ → Bytes
bytes8 n = bytes4 n ++ bytes4 (n / 2 ^ 32)

-- `memcpy(&n, p, 4)`: a fault if fewer than 4 bytes are there
unfoldable pub u32_of : Bytes → Run ℕ
u32_of (a ∷ b ∷ c ∷ d ∷ rest) = ok (a + b * 256 + c * 2 ^ 16 + d * 2 ^ 24)
u32_of _ = fault

-- str_hash: 32-bit arithmetic, widened at the end
unfoldable pub hash_loop : ℕ → Bytes → ℕ
hash_loop h [] = h
hash_loop h (b ∷ bytes) = hash_loop ((h + b) % u32_mod * 0x01000193 % u32_mod) bytes

unfoldable pub str_hash : Bytes → ℕ
str_hash bytes = hash_loop 0x811C9DC5 bytes

-- the `n` bytes of a buffer from `pos` on: a fault where the buffer does not hold them all
unfoldable pub slice : ℕ → ℕ → Bytes → Run Bytes
slice pos n buf = do check (leb (pos + n) (length buf)); ok (take n (drop pos buf))

-- the loop of parse_req: `n` strings are left, the next at `pos`
unfoldable pub parse_loop : Bytes → ℕ → ℕ → List Bytes → Run (Option (List Bytes × ℕ))
parse_loop buf zero pos out = ok (some (out, pos))
parse_loop buf (suc n) pos out =
    let string : Run (Option (List Bytes × ℕ)) = do
      sz ← u32_of (drop pos buf)
      let more : Run (Option (List Bytes × ℕ)) = do
        s ← slice (pos + 4) sz buf
        parse_loop buf n (pos + 4 + sz) (out ++ s ∷ [])
      if ltb (length buf) (pos + 4 + sz) then ok none else more
    in if ltb (length buf) (pos + 4) then ok none else string

-- parse_req over the `len` bytes of the message: `none` is the return value -1
unfoldable pub parse_req : Bytes → Run (Option (List Bytes))
parse_req buf =
    let header : Run (Option (List Bytes)) = do
      n ← u32_of buf
      let body : Run (Option (List Bytes)) = do
        r ← parse_loop buf n 4 []
        ok (elim r [ none ↦ none | some (out, pos) ↦ if pos == length buf then some out else none ])
      if ltb k_max_args n then ok none else body
    in if ltb (length buf) 4 then ok none else header

-- the two loops of send_req over the command
unfoldable pub request_len : ℕ → List Bytes → ℕ
request_len len [] = len
request_len len (s ∷ cmd) = request_len ((len + (4 + length s)) % u32_mod) cmd

-- the strings, written from `cur` on into a buffer of 4 + k_max_msg bytes: a fault past its end
unfoldable pub write_strings : ℕ → List Bytes → Run Bytes
write_strings cur [] = ok []
write_strings cur (s ∷ cmd) = do
  check (leb (cur + 4 + length s) (4 + k_max_msg))
  rest ← write_strings (cur + 4 + length s) cmd
  ok (bytes4 (length s % u32_mod) ++ (s ++ rest))

-- the bytes that send_req writes to the socket: `none` is the return value -1
unfoldable pub send_req : List Bytes → Run (Option Bytes)
send_req cmd =
    let len = request_len 4 cmd in
    let message : Run (Option Bytes) = do
      strings ← write_strings 8 cmd
      ok (some (take (4 + len) (bytes4 len ++ (bytes4 (length cmd % u32_mod) ++ strings))))
    in if ltb k_max_msg len then ok none else message

abbrev pub ser_nil : ℕ
ser_nil = 0

abbrev pub ser_err : ℕ
ser_err = 1

abbrev pub ser_str : ℕ
ser_str = 2

abbrev pub ser_int : ℕ
ser_int = 3

abbrev pub ser_dbl : ℕ
ser_dbl = 4

abbrev pub ser_arr : ℕ
ser_arr = 5

unfoldable pub out_nil : Bytes → Bytes
out_nil out = out ++ ser_nil ∷ []

unfoldable pub out_str : Bytes → Bytes → Bytes
out_str out s = let len = length s % u32_mod in out ++ (ser_str ∷ (bytes4 len ++ take len s))

-- the value as its 64-bit pattern
unfoldable pub out_int : Bytes → ℕ → Bytes
out_int out val = out ++ (ser_int ∷ bytes8 val)

-- the double as its 64-bit pattern
unfoldable pub out_dbl : Bytes → ℕ → Bytes
out_dbl out val = out ++ (ser_dbl ∷ bytes8 val)

unfoldable pub out_err : Bytes → ℕ → Bytes → Bytes
out_err out code msg = out ++ (ser_err ∷ (bytes4 code ++ (bytes4 (length msg % u32_mod) ++ msg)))

unfoldable pub out_arr : Bytes → ℕ → Bytes
out_arr out n = out ++ (ser_arr ∷ bytes4 n)

-- the `ctx` is the position of the length
unfoldable pub begin_arr : Bytes → Bytes × ℕ
begin_arr out = let grown = out ++ (ser_arr ∷ (0 ∷ 0 ∷ 0 ∷ 0 ∷ [])) in (grown, length grown - 4)

unfoldable pub end_arr : Bytes → ℕ → ℕ → Run Bytes
end_arr out pos n = do
  tag ← deref (get_elem? out (pos - 1))
  check (tag == ser_arr)
  check (leb (pos + 4) (length out))
  ok (take pos out ++ (bytes4 n ++ drop (pos + 4) out))
