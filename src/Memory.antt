-- ===== src/Memory.antt =====
-- Nodes at addresses, and commands that read and write them: the pointers of the C++ code. A read
-- or a write through NULL, or at an address that holds no node, is a fault.
use cand_cppwith_linux.Base.{
  ℕ, ◌≡◌, ◌≢◌, refl, Option, none, some, Run, ok, fault, out_of_fuel, arith, ◌==◌, if◌then◌else◌,
}

abbrev pub Ptr : Type 0
Ptr = ℕ

abbrev pub null : Ptr
null = 0

abbrev pub Mem : Type 0 → Type 0
Mem N = Ptr → Option N

abbrev pub Cmd : Type 0 → Type 0 → Type 0
Cmd N A = Mem N → Run (A × Mem N)

abbrev pub pure : {N A : Type 0} → A → Cmd N A
pure a h = ok (a, h)

abbrev pub and_then : {N A B : Type 0} → Run (A × Mem N) → (A → Cmd N B) → Run (B × Mem N)
and_then (ok (a, h)) k = k a h
and_then fault k = fault
and_then out_of_fuel k = out_of_fuel

infixl 5 ◌>>=◌ ◌>>◌
abbrev pub ◌>>=◌ : {N A B : Type 0} → Cmd N A → (A → Cmd N B) → Cmd N B
(m >>= k) h = and_then (m h) k

abbrev pub ◌>>◌ : {N B : Type 0} → Cmd N (Unit {0}) → Cmd N B → Cmd N B
m >> k = m >>= λ _. k

unfoldable pub write {ℓ} : {N : Type ℓ} → (Ptr → Option N) → Ptr → N → Ptr → Option N
write h p n a = if a == p then some n else h a

unfoldable pub load : {N : Type 0} → Ptr → Cmd N N
load p h = if p == null then fault else elim (h p) [ none ↦ fault | some n ↦ ok (n, h) ]

-- an assignment to fields of `*p`
unfoldable pub modify : {N : Type 0} → Ptr → (N → N) → Cmd N (Unit {0})
modify p f = do n ← load p; λ h. ok (tt, write h p (f n))

module _ {N : Type 0} (h : Mem N) {p : Ptr} {n : N} (ne : p ≢ null) (at : h p ≡ some n) where
  pub load-ok : load p h ≡ ok (n, h)
  unfolding load
  load-ok = ground arith

  pub modify-ok : (f : N → N) → modify p f h ≡ ok (tt, write h p (f n))
  unfolding modify
  modify-ok f = rw load-ok

-- Total correctness of a command from a state.
pub data Ends {N A : Type 0} (P : A → Mem N → Type 0) : Run (A × Mem N) → Type 0 where
  ends : {a : A} {h : Mem N} → P a h → Ends P (ok (a, h))

module _ {N A : Type 0} {P : A → Mem N → Type 0} where
  pub Ends-bind :
      {B : Type 0} {Q : B → Mem N → Type 0} {r : Run (A × Mem N)} {k : A → Cmd N B}
      → Ends P r
      → ((a : A) (h : Mem N) → P a h → Ends Q (k a h))
      → Ends Q (and_then r k)
  Ends-bind (ends p) k = k _ _ p

  pub Ends-map :
      {Q : A → Mem N → Type 0} {r : Run (A × Mem N)}
      → Ends P r
      → ((a : A) (h : Mem N) → P a h → Q a h)
      → Ends Q r
  Ends-map (ends p) k = ends (k _ _ p)

module _ {N : Type 0} (h : Mem N) (p : Ptr) (n : N) where
  pub write_self : write h p n p ≡ some n
  unfolding write
  write_self = ground arith

  pub write_ne : (a : Ptr) → a ≢ p → write h p n a ≡ h a
  unfolding write
  write_ne a ne = ground arith

pub Ends-inv :
    {N A : Type 0} {P : A → Mem N → Type 0} {r : Run (A × Mem N)}
    → Ends P r
    → (a : A) × (h : Mem N) × (r ≡ ok (a, h)) × P a h
Ends-inv (ends p) = (_, _, refl, p)
