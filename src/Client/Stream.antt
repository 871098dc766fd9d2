-- ===== src/Client/Stream.antt =====
-- read_full and write_all on a stream that arrives, or leaves, in chunks of any size.
use mathlib.Core.List.{append_assoc}
use cand_cppwith_linux.Base.{
  ℕ, zero, suc, ◌-◌, ◌≤◌, ◌<◌, ◌≡◌, refl, sym, ap, ◌∙◌, inl, inr, Bool-cases, Bool, true, false,
  Option, some, List, [], ◌∷◌, ◌++◌, arith, ltb, ltb_false→le, ◌==◌, length, take, drop,
  length-append, length-drop, min, take-append-drop,
}
use cand_cppwith_linux.Wire.{Bytes}
use cand_cppwith_linux.Conn.{Io, done, eagain, eintr, failed}
use cand_cppwith_linux.Client.{read_full, write_all}

-- the bytes that arrive before the first failure
abbrev pub stream : List (Io Bytes) → Bytes
stream [] = []
stream (done chunk ∷ reads) = chunk ++ stream reads
stream (_ ∷ reads) = []

-- every read succeeds and brings something
abbrev pub IsOpen : List (Io Bytes) → Type 0
IsOpen [] = Unit {0}
IsOpen (done chunk ∷ reads) = (0 < length chunk) × IsOpen reads
IsOpen (_ ∷ reads) = ⊥

take_append : {A : Type 0} (n : ℕ) (xs ys : List A) → n ≤ length xs → take n (xs ++ ys) ≡ take n xs
take_append zero xs ys h = refl
take_append (suc n) [] ys h = absurd (omega arith)
take_append (suc n) (x ∷ xs) ys h = ap (◌∷◌ x) (take_append n xs ys (omega arith))

drop_append :
    {A : Type 0} (n : ℕ) (xs ys : List A) → n ≤ length xs → drop n (xs ++ ys) ≡ drop n xs ++ ys
drop_append zero xs ys h = refl
drop_append (suc n) [] ys h = absurd (omega arith)
drop_append (suc n) (x ∷ xs) ys h = drop_append n xs ys (omega arith)

take_past :
    {A : Type 0} (n : ℕ) (xs ys : List A)
    → length xs ≤ n
    → take n (xs ++ ys) ≡ xs ++ take (n - length xs) ys
take_past n [] ys h = ap (λ k. take k ys) (omega arith)
take_past zero (x ∷ xs) ys h = absurd (omega arith)
take_past (suc n) (x ∷ xs) ys h =
    let e : suc n - suc (length xs) ≡ n - length xs = omega arith in
    ap (◌∷◌ x) (take_past n xs ys (omega arith)) ∙ ap (λ k. x ∷ (xs ++ take k ys)) (sym e)

drop_past :
    {A : Type 0} (n : ℕ) (xs ys : List A)
    → length xs ≤ n
    → drop n (xs ++ ys) ≡ drop (n - length xs) ys
drop_past n [] ys h = ap (λ k. drop k ys) (omega arith)
drop_past zero (x ∷ xs) ys h = absurd (omega arith)
drop_past (suc n) (x ∷ xs) ys h =
    let e : suc n - suc (length xs) ≡ n - length xs = omega arith in
    drop_past n xs ys (omega arith) ∙ ap (λ k. drop k ys) (sym e)

-- what read_full returns if `n` bytes arrive
pub record Delivered (n : ℕ) (reads : List (Io Bytes)) (r : Option Bytes × List (Io Bytes))
    : Type 0 where
  pub got : r.0 ≡ some (take n (stream reads))
  pub left : stream (r.1) ≡ drop n (stream reads)
  pub open_left : IsOpen (r.1)

-- However the bytes of an open connection are split among the reads, read_full returns the first
-- `n` of them, if there are as many, and leaves the others.
pub read_full-Delivered :
    (n : ℕ) (reads : List (Io Bytes))
    → IsOpen reads
    → n ≤ length (stream reads)
    → Delivered n reads (read_full n reads)
unfolding read_full
read_full-Delivered zero reads o h = record { got = refl; left = refl; open_left = o }
read_full-Delivered (suc n) [] o h = absurd (omega arith)
read_full-Delivered (suc n) (done chunk ∷ reads) (some_bytes, o) h =
    let e1 : (length chunk == 0) ≡ false = ground arith in
    let all = length-append chunk (stream reads) in
    elim (Bool-cases (ltb (suc n) (length chunk))) [
      | inl e ↦
          rw (e1, e)
            (record {
              got = ap some (sym (take_append (suc n) chunk (stream reads) (ground arith)));
              left = sym (drop_append (suc n) chunk (stream reads) (ground arith));
              open_left = (ground (arith, length-drop (suc n) chunk), o);
            })
      | inr e ↦
          let fits = ltb_false→le (suc n) (length chunk) e in
          let d = read_full-Delivered (suc n - length chunk) reads o (omega arith) in
          rw (e1, e, d.got)
            (record {
              got = ap some (sym (take_past (suc n) chunk (stream reads) fits));
              left = d.left ∙ sym (drop_past (suc n) chunk (stream reads) fits);
              open_left = d.open_left;
            })
    ]
read_full-Delivered (suc n) (eagain ∷ reads) o h = elim o [ ]
read_full-Delivered (suc n) (eintr ∷ reads) o h = elim o [ ]
read_full-Delivered (suc n) (failed ∷ reads) o h = elim o [ ]

-- What write_all did: the bytes written are a prefix of the buffer, and the whole of it on success.
pub record Written (buf : Bytes) (r : Bytes × Bool) : Type 0 where
  pub rest : Bytes
  pub prefix : r.0 ++ rest ≡ buf
  pub all : r.1 ≡ true → r.0 ≡ buf

none-Written : (buf : Bytes) → Written buf ([], false)
none-Written buf = record { rest = buf; prefix = refl; all = λ e. absurd (cc) }

-- Whatever the writes return, write_all writes a prefix of the buffer, in order and each byte once,
-- and it reports success only if it wrote the whole buffer.
pub write_all-Written : (buf : Bytes) (writes : List (Io ℕ)) → Written buf (write_all buf writes)
unfolding write_all
write_all-Written [] writes = record { rest = []; prefix = refl; all = λ _. refl }
write_all-Written (b ∷ buf) [] = none-Written (b ∷ buf)
write_all-Written (b ∷ buf) (eagain ∷ writes) = none-Written (b ∷ buf)
write_all-Written (b ∷ buf) (eintr ∷ writes) = none-Written (b ∷ buf)
write_all-Written (b ∷ buf) (failed ∷ writes) = none-Written (b ∷ buf)
write_all-Written (b ∷ buf) (done n ∷ writes) =
    let rv : ℕ = min n (length (b ∷ buf)) in
    let w = write_all-Written (drop rv (b ∷ buf)) writes in
    let whole = take-append-drop rv (b ∷ buf) in
    elim (Bool-cases (rv == 0)) [
      | inl e ↦ rw e (none-Written (b ∷ buf))
      | inr e ↦ rw e (record {
        rest = w.rest;
        prefix =
            append_assoc (take rv (b ∷ buf)) _ w.rest
            ∙ (ap (λ l. take rv (b ∷ buf) ++ l) w.prefix ∙ whole);
        all = λ t. ap (λ l. take rv (b ∷ buf) ++ l) (w.all t) ∙ whole;
      })
    ]
