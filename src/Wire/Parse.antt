-- ===== src/Wire/Parse.antt =====
-- parse_req on any bytes: no read out of bounds, and only encodings are accepted.
use mathlib.Core.Path.{subst}
use mathlib.Core.List.{append_assoc, append-nil}
use cand_cppwith_linux.Base.{
  ℕ, zero, suc, ◌+◌, ◌≤◌, ◌≡◌, refl, sym, ap, ◌∙◌, Option, none, some, List, [], ◌∷◌, ◌++◌, ok,
  Returns, returns, Returns-bind, Returns-map, Returns-eq, arith, inl, inr, Bool-cases,
  ltb_false→le, length, take, drop, length-drop, length-take, take-append-drop, ltb, ◌==◌,
  if◌then◌else◌, drop-drop, drop-length, ◌>>=◌,
}
use cand_cppwith_linux.Wire.{Bytes, k_max_args, bytes4, slice, parse_loop, parse_req}
use cand_cppwith_linux.Wire.Bytes.{AreBytes, AreBytes-drop, u32_of-Returns, slice-ok}
use cand_cppwith_linux.Wire.Request.{encode_strings, encode_req}

-- What the loop of parse_req finds from `pos` on, if anything, with `out` before it.
pub data Parsed (buf : Bytes) (n pos : ℕ) (out : List Bytes)
    : Option (List Bytes × ℕ) → Type 0 where
  malformed : Parsed buf n pos out none
  parsed :
      (strings : List Bytes) (stop : ℕ)
      → length strings ≡ n
      → stop ≤ length buf
      → drop pos buf ≡ encode_strings strings ++ drop stop buf
      → Parsed buf n pos out (some (out ++ strings, stop))

split_string :
    (buf : Bytes) (pos sz : ℕ)
    → pos + 4 + sz ≤ length buf
    → drop pos buf ≡ bytes4 sz ++ drop 4 (drop pos buf)
    → (s : Bytes) × (s ≡ take sz (drop (pos + 4) buf))
      × (length s ≡ sz)
      × (drop pos buf ≡ bytes4 (length s) ++ (s ++ drop (pos + 4 + sz) buf))
split_string buf pos sz h e =
    let len : length (take sz (drop (pos + 4) buf)) ≡ sz =
      omega (arith, length-take sz (drop (pos + 4) buf), length-drop (pos + 4) buf) in
    let e2 : drop pos buf ≡ bytes4 sz ++ (take sz (drop (pos + 4) buf) ++ drop (pos + 4 + sz) buf) =
      e
      ∙ ap (λ l. bytes4 sz ++ l)
          (drop-drop pos 4 (pos + 4) buf refl
            ∙ (sym (take-append-drop sz (drop (pos + 4) buf))
                ∙ ap (λ l. take sz (drop (pos + 4) buf) ++ l)
                    (drop-drop (pos + 4) sz (pos + 4 + sz) buf refl))) in
    (
      take sz (drop (pos + 4) buf),
      refl,
      len,
      e2
          ∙ ap (λ k. bytes4 k ++ (take sz (drop (pos + 4) buf) ++ drop (pos + 4 + sz) buf))
              (sym len),
    )

nothing_more : (l : Bytes) → l ≡ encode_strings [] ++ l
unfolding encode_strings
nothing_more l = refl

encode_more :
    (s : Bytes) (strings : List Bytes) (l : Bytes)
    → bytes4 (length s) ++ (s ++ (encode_strings strings ++ l)) ≡ encode_strings (s ∷ strings) ++ l
unfolding encode_strings
encode_more s strings l =
    ap (λ k. bytes4 (length s) ++ k) (sym (append_assoc s (encode_strings strings) l))
    ∙ sym (append_assoc (bytes4 (length s)) (s ++ encode_strings strings) l)

one_more :
    (buf s : Bytes) (n pos after : ℕ) (out : List Bytes)
    → drop pos buf ≡ bytes4 (length s) ++ (s ++ drop after buf)
    → (r : Option (List Bytes × ℕ)) → Parsed buf n after (out ++ s ∷ []) r
    → Parsed buf (suc n) pos out r
one_more buf s n pos after out at _ malformed = malformed
one_more buf s n pos after out at _ (parsed strings stop count fits rest) =
    subst (λ l. Parsed buf (suc n) pos out (some (l, stop)))
      (sym (append_assoc out (s ∷ []) strings))
      (parsed (s ∷ strings) stop (ap suc count) fits (
        at
        ∙ (ap (λ l. bytes4 (length s) ++ (s ++ l)) rest ∙ encode_more s strings (drop stop buf))))

next_string :
    (buf : Bytes) (n pos sz : ℕ) (out : List Bytes)
    → ((out' : List Bytes)
        → Returns (Parsed buf n (pos + 4 + sz) out') (parse_loop buf n (pos + 4 + sz) out'))
    → (s : Bytes) × (s ≡ take sz (drop (pos + 4) buf))
      × (length s ≡ sz)
      × (drop pos buf ≡ bytes4 (length s) ++ (s ++ drop (pos + 4 + sz) buf))
    → Returns
        (Parsed buf (suc n) pos out)
        (parse_loop buf n (pos + 4 + sz) (out ++ take sz (drop (pos + 4) buf) ∷ []))
next_string buf n pos sz out again (s, e, len, at) =
    Returns-map (again (out ++ take sz (drop (pos + 4) buf) ∷ [])) λ r p.
      one_more buf s n pos (pos + 4 + sz) out at r
        (subst (λ l. Parsed buf n (pos + 4 + sz) (out ++ l ∷ []) r) (sym e) p)

string_at :
    (buf : Bytes) (n pos sz : ℕ) (out : List Bytes)
    → (pos + 4 + sz ≤ length buf
        → (out' : List Bytes)
        → Returns (Parsed buf n (pos + 4 + sz) out') (parse_loop buf n (pos + 4 + sz) out'))
    → drop pos buf ≡ bytes4 sz ++ drop 4 (drop pos buf)
    → Returns (Parsed buf (suc n) pos out) (
        if ltb (length buf) (pos + 4 + sz)
        then ok none
        else (slice (pos + 4) sz buf >>= λ s. parse_loop buf n (pos + 4 + sz) (out ++ s ∷ [])))
string_at buf n pos sz out again at = elim (Bool-cases (ltb (length buf) (pos + 4 + sz))) [
  | inl e ↦ rw e (returns malformed)
  | inr e ↦
      let fits = ltb_false→le (length buf) (pos + 4 + sz) e in
      rw (e, slice-ok (pos + 4) sz buf fits)
        (next_string buf n pos sz out (again fits) (split_string buf pos sz fits at))
]

parse_loop-Parsed :
    (buf : Bytes)
    → AreBytes buf
    → (n pos : ℕ) (out : List Bytes) → pos ≤ length buf
    → Returns (Parsed buf n pos out) (parse_loop buf n pos out)
unfolding parse_loop
parse_loop-Parsed buf bytes zero pos out h =
    let e : ok (some (out, pos)) ≡ ok (some (out ++ [], pos)) = rw (append-nil out) refl in
    Returns-eq e (returns (parsed [] pos refl h (nothing_more (drop pos buf))))
parse_loop-Parsed buf bytes (suc n) pos out h = elim (Bool-cases (ltb (length buf) (pos + 4))) [
  | inl e ↦ rw e (returns malformed)
  | inr e ↦ rw e (
      Returns-bind
        (u32_of-Returns (drop pos buf) (AreBytes-drop pos buf bytes)
          (omega (arith, length-drop pos buf, ltb_false→le (length buf) (pos + 4) e)))
        λ sz at.
          string_at buf n pos sz out
            (λ fits out'. parse_loop-Parsed buf bytes n (pos + 4 + sz) out' fits) at)
]

-- What parse_req makes of the bytes of a message.
pub data Read (buf : Bytes) : Option (List Bytes) → Type 0 where
  bad : Read buf none
  request :
      (cmd : List Bytes) → length cmd ≤ k_max_args → encode_req cmd ≡ buf → Read buf (some cmd)

is_request :
    (buf : Bytes) (n : ℕ)
    → n ≤ k_max_args
    → buf ≡ bytes4 n ++ drop 4 buf
    → (strings : List Bytes) → length strings ≡ n
    → drop 4 buf ≡ encode_strings strings ++ drop (length buf) buf
    → encode_req strings ≡ buf
unfolding encode_req
is_request buf n few at strings count rest =
    let none_left : drop (length buf) buf ≡ [] = drop-length buf in
    ap (λ k. bytes4 k ++ encode_strings strings) count
    ∙ (ap (λ l. bytes4 n ++ l)
          (sym (
            rest
            ∙ (ap (λ l. encode_strings strings ++ l) none_left
                ∙ append-nil (encode_strings strings))))
        ∙ sym at)

accept :
    (buf : Bytes) (n : ℕ)
    → n ≤ k_max_args
    → buf ≡ bytes4 n ++ drop 4 buf
    → (r : Option (List Bytes × ℕ)) → Parsed buf n 4 [] r
    → Read buf
        (elim r [ none ↦ none | some (out, pos) ↦ if pos == length buf then some out else none ])
accept buf n few at _ malformed = bad
accept buf n few at _ (parsed strings stop count fits rest) =
    elim (Bool-cases (stop == length buf)) [
      | inr e ↦ rw e bad
      | inl e ↦
          let same : stop ≡ length buf = ground arith in
          rw e (
            request strings (omega arith) (
              is_request buf n few at strings count
                (subst (λ k. drop 4 buf ≡ encode_strings strings ++ drop k buf) same rest)))
    ]

-- parse_req reads no byte out of bounds, whatever the message, and accepts a message only if it is
-- the encoding of the strings it returns, of which there are at most k_max_args.
pub parse_req-Read : (buf : Bytes) → AreBytes buf → Returns (Read buf) (parse_req buf)
unfolding parse_req
parse_req-Read buf bytes = elim (Bool-cases (ltb (length buf) 4)) [
  | inl e ↦ rw e (returns bad)
  | inr e ↦
      let long = ltb_false→le (length buf) 4 e in
      rw e (Returns-bind (u32_of-Returns buf bytes long) λ n at. body n at long)
]
  where
    body :
        (n : ℕ)
        → buf ≡ bytes4 n ++ drop 4 buf
        → 4 ≤ length buf
        → Returns (Read buf) (
            if ltb k_max_args n
            then ok none
            else (parse_loop buf n 4 [] >>= λ r. ok (elim r [
              | none ↦ none
              | some (out, pos) ↦ if pos == length buf then some out else none
            ])))
    body n at long = elim (Bool-cases (ltb k_max_args n)) [
      | inl e ↦ rw e (returns bad)
      | inr e ↦ rw e (
          Returns-bind (parse_loop-Parsed buf bytes n 4 [] long)
            λ r p. returns (accept buf n (ltb_false→le k_max_args n e) at r p))
    ]
