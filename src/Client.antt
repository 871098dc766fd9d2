-- ===== src/Client.antt =====
-- The reading and writing of ownRedisUsingCpp/client.cpp: read_full, write_all, on_response and
-- read_res. The results of read() and write() come from lists, at whose end the connection is
-- closed; a chunk that is longer than the request stays for the next read. What is printed on stdout
-- is a list of lines. The tags are those of client.cpp, whose SER_ARR is 4, with common.h's SER_DBL,
-- which is 4 too. A compiler refuses two cases of one value: the argument `is_arr` says which of the
-- two cases the tag 4 selects.
pub mod Stream
pub mod Reply
pub mod Result
pub mod ReadRes
mod Tests
use cand_cppwith_linux.Base.{
  ℕ, zero, suc, ◌+◌, ◌-◌, ◌*◌, ◌%◌, ◌^◌, Bool, Option, none, some, List, [], ◌∷◌, ◌++◌, Run, ok,
  fault, out_of_fuel, check, deref, ◌>>=◌, ◌>>◌, ltb, leb, ◌==◌, if◌then◌else◌, length, take, drop,
  get_elem?, min, not, ◌&&◌,
}
use cand_cppwith_linux.Wire.{
  Bytes, u32_mod, k_max_msg, u32_of, ser_nil, ser_err, ser_str, ser_int, ser_dbl,
}
use cand_cppwith_linux.Conn.{Io, done, eagain, eintr, failed}

-- `none` is the return value -1
unfoldable pub read_full : ℕ → List (Io Bytes) → Option Bytes × List (Io Bytes)
read_full zero reads = (some [], reads)
read_full (suc n) [] = (none, [])
read_full (suc n) (done chunk ∷ reads) =
    let (rest, left) = read_full (suc n - length chunk) reads in
    if length chunk == 0
    then (none, reads)
    else if ltb (suc n) (length chunk)
    then (some (take (suc n) chunk), done (drop (suc n) chunk) ∷ reads)
    else (elim rest [ none ↦ none | some bytes ↦ some (chunk ++ bytes) ], left)
read_full (suc n) (_ ∷ reads) = (none, reads)

-- the bytes written, and whether all were: `false` is the return value -1
unfoldable pub write_all : Bytes → List (Io ℕ) → Bytes × Bool
write_all [] writes = ([], Bool.true)
write_all (b ∷ buf) [] = ([], Bool.false)
write_all (b ∷ buf) (done n ∷ writes) =
    let rv = min n (length (b ∷ buf)) in
    let (now, all) = write_all (drop rv (b ∷ buf)) writes in
    if rv == 0 then ([], Bool.false) else (take rv (b ∷ buf) ++ now, all)
write_all (b ∷ buf) (_ ∷ writes) = ([], Bool.false)

pub data Line : Type 0 where
  nil : Line
  err : ℕ → Bytes → Line
  str : Bytes → Line
  int : ℕ → Line
  dbl : ℕ → Line
  arr : ℕ → Line
  arr_end : Line

-- `%.*s`: up to a zero byte, and at most `n` bytes; a fault where neither is among the bytes
unfoldable pub c_string : ℕ → Bytes → Run Bytes
c_string zero bytes = ok []
c_string (suc n) [] = fault
c_string (suc n) (b ∷ bytes) =
    let rest : Run Bytes = (do more ← c_string n bytes; ok (b ∷ more)) in
    if b == 0 then ok [] else rest

-- the lines printed, and the return value as its 32-bit pattern
abbrev pub Printed : Type 0
Printed = List Line × ℕ

-- -1
abbrev pub minus_one : ℕ
minus_one = u32_mod - 1

abbrev pub is_negative : ℕ → Bool
is_negative rv = leb (2 ^ 31) rv

-- `bad response`
abbrev pub bad_response : Run Printed
bad_response = ok ([], minus_one)

-- the cases of on_response, over the `size` bytes behind the tag and that tag
unfoldable pub on_err : Bytes → Run Printed
on_err buf =
    let body : Run Printed = do
      code ← u32_of (drop 1 buf)
      len ← u32_of (drop 5 buf)
      let line : Run Printed = do
        text ← c_string len (drop 9 buf)
        ok (err code text ∷ [], (9 + len) % u32_mod)
      if ltb (length buf) ((9 + len) % u32_mod) then bad_response else line
    in if ltb (length buf) 9 then bad_response else body

unfoldable pub on_str : Bytes → Run Printed
on_str buf =
    let body : Run Printed = do
      len ← u32_of (drop 1 buf)
      let line : Run Printed = do
        text ← c_string len (drop 5 buf)
        ok (str text ∷ [], (5 + len) % u32_mod)
      if ltb (length buf) ((5 + len) % u32_mod) then bad_response else line
    in if ltb (length buf) 5 then bad_response else body

-- `memcpy(&val, p, 8)`
unfoldable pub u64_of : Bytes → Run ℕ
u64_of bytes = do low ← u32_of bytes; high ← u32_of (drop 4 bytes); ok (low + high * 2 ^ 32)

unfoldable pub on_int : Bytes → Run Printed
on_int buf =
    let body : Run Printed = do val ← u64_of (drop 1 buf); ok (int val ∷ [], 9)
    in if ltb (length buf) 9 then bad_response else body

unfoldable pub on_dbl : Bytes → Run Printed
on_dbl buf =
    let body : Run Printed = do val ← u64_of (drop 1 buf); ok (dbl val ∷ [], 9)
    in if ltb (length buf) 9 then bad_response else body

-- the loop over the elements: `n` are left, the next at `arr_bytes`
unfoldable pub arr_loop : (Bytes → Run Printed) → Bytes → ℕ → ℕ → Run Printed
arr_loop element buf zero arr_bytes = ok (arr_end ∷ [], arr_bytes % u32_mod)
arr_loop element buf (suc n) arr_bytes = do
  check (leb arr_bytes (length buf))
  (lines, rv) ← element (drop arr_bytes buf)
  let rest : Run Printed = do
    (more, r) ← arr_loop element buf n (arr_bytes + rv)
    ok (lines ++ more, r)
  if is_negative rv then ok (lines, rv) else rest

unfoldable pub on_arr : (Bytes → Run Printed) → Bytes → Run Printed
on_arr element buf =
    let body : Run Printed = do
      len ← u32_of (drop 1 buf)
      (lines, rv) ← arr_loop element buf len 5
      ok (arr len ∷ lines, rv)
    in if ltb (length buf) 5 then bad_response else body

-- the enumerator of client.cpp, which is not that of common.h
abbrev pub client_ser_arr : ℕ
client_ser_arr = 4

-- with fuel for the depth of arrays in arrays
unfoldable pub on_response : Bool → ℕ → Bytes → Run Printed
on_response is_arr zero buf = out_of_fuel
on_response is_arr (suc k) [] = bad_response
on_response is_arr (suc k) (tag ∷ buf) =
    if tag == ser_nil
    then ok (nil ∷ [], 1)
    else if tag == ser_err
    then on_err (tag ∷ buf)
    else if tag == ser_str
    then on_str (tag ∷ buf)
    else if tag == ser_int
    then on_int (tag ∷ buf)
    else if (tag == ser_dbl) && not is_arr
    then on_dbl (tag ∷ buf)
    else if tag == client_ser_arr
    then on_arr (on_response is_arr k) (tag ∷ buf)
    else bad_response

-- the test of read_res on the return value of on_response
unfoldable pub checked : ℕ → ℕ → ℕ
checked rv len =
    if not (rv == 0) && (not (is_negative rv) && not (rv == len)) then minus_one else rv

-- read_res: every array takes 5 bytes, which bounds their depth
unfoldable pub read_res : Bool → List (Io Bytes) → Run (Printed × List (Io Bytes))
read_res is_arr reads =
    let (head, left) = read_full 4 reads in
    elim head [
      | none ↦ ok (([], minus_one), left)
      | some header ↦ do
        len ← u32_of header
        let (body, left') = read_full len left
        let reply : Run (Printed × List (Io Bytes)) = elim body [
          | none ↦ ok (([], minus_one), left')
          | some bytes ↦ do
            (lines, rv) ← on_response is_arr (len + 1) bytes
            ok ((lines, checked rv len), left')
        ]
        if ltb k_max_msg len then ok (([], minus_one), left) else reply
    ]
