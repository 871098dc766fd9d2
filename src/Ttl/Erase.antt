-- ===== src/Ttl/Erase.antt =====
-- Removing an entry's timer: the last item takes its place in the heap.
use mathlib.Core.List.Perm
use cand_cppwith_linux.Base.{
  ℕ, zero, suc, ◌+◌, ◌-◌, ◌<◌, ◌≡◌, ◌≢◌, ◌∙◌, refl, none, List, [], ◌∷◌, Perm, Bool-cases, inl, inr,
  Returns, returns, Returns-bind, ok, arith, ltb, ◌==◌, if◌then◌else◌, length, length-set, set,
}
use cand_cppwith_linux.Base.Array.{get_or, get_or-set, set-perm, length-perm}
use cand_cppwith_linux.Base.Count.{count_p-pos, count_p-cons, count_p-perm, index_of_count}
use cand_cppwith_linux.Heap.{HeapItem, HeapMem, no_index, heap_update, write_cell}
use cand_cppwith_linux.Heap.Order.{
  blank, item, up, IsDistinct, IsLinkedBut, IsForeign, Sifted, load-ok,
}
use cand_cppwith_linux.Heap.Update.{IsHeapBut, heap_update-Sifted}
use cand_cppwith_linux.Ttl.{pop_back, erase_timer, deadline}
use cand_cppwith_linux.Ttl.Deadline.{IsValid, is_timer, deadline_ext}
use cand_cppwith_linux.Ttl.Update.{store-ok, IsForeign-perm}

-- the vector without its last entry
pub init {ℓ} : {A : Type ℓ} → List A → List A
init [] = []
init (x ∷ []) = []
init (x ∷ (y ∷ xs)) = x ∷ init (y ∷ xs)

module _ {ℓ} {A : Type ℓ} where
  pub pop_back-init : (xs : List A) → 0 < length xs → pop_back xs ≡ ok (init xs)
  unfolding pop_back init
  pop_back-init [] h = absurd (omega arith)
  pop_back-init (x ∷ []) h = refl
  pop_back-init (x ∷ (y ∷ xs)) h = rw (pop_back-init (y ∷ xs) (omega arith))

  pub length-init : (xs : List A) → length (init xs) ≡ length xs - 1
  unfolding init
  length-init [] = omega arith
  length-init (x ∷ []) = omega arith
  length-init (x ∷ (y ∷ xs)) = omega (arith, length-init (y ∷ xs))

  pub get_or-init :
      (xs : List A) (i : ℕ) (d : A) → i + 1 < length xs → get_or (init xs) i d ≡ get_or xs i d
  unfolding init get_or
  get_or-init [] i d h = refl
  get_or-init (x ∷ []) i d h = absurd (omega arith)
  get_or-init (x ∷ (y ∷ xs)) zero d h = refl
  get_or-init (x ∷ (y ∷ xs)) (suc i) d h = get_or-init (y ∷ xs) i d (omega arith)

  pub init-perm :
      (xs : List A) (n : ℕ) (d : A) → length xs ≡ suc n → Perm (get_or xs n d ∷ init xs) xs
  unfolding init get_or
  init-perm [] n d h = absurd (omega arith)
  init-perm (x ∷ []) zero d h = Perm.rfl
  init-perm (x ∷ []) (suc n) d h = absurd (omega arith)
  init-perm (x ∷ (y ∷ xs)) zero d h = absurd (omega arith)
  init-perm (x ∷ (y ∷ xs)) (suc n) d h =
      Perm.trans (Perm.swap x _ _) (Perm.cons x (init-perm (y ∷ xs) n d (omega arith)))

module _ (m : HeapMem) (valid : IsValid m) (ent : ℕ) (n : ℕ) (size : length m.items ≡ suc n)
    (inside : m.cell ent < length m.items) (own : (item m.items (m.cell ent)).ref ≡ ent) where
  abbrev i : ℕ
  i = m.cell ent

  abbrev filled : List HeapItem
  filled = set m.items i (item m.items n)

  -- the array that heap_update is given
  abbrev cut : List HeapItem
  cut = init filled

  cut-length : length cut ≡ n
  cut-length = omega (arith, length-init filled, length-set m.items i (item m.items n))

  item-cut : (c : ℕ) → c < n → item cut c ≡ (if i == c then item m.items n else item m.items c)
  item-cut c h =
      get_or-init filled c blank (omega (arith, length-set m.items i (item m.items n)))
      ∙ get_or-set m.items i c (item m.items n) blank inside

  cut-perm : Perm (item m.items i ∷ cut) m.items
  cut-perm =
      let last : item filled n ≡ item m.items n =
        ground (arith, get_or-set m.items i n (item m.items n) blank) in
      let whole : Perm (item m.items n ∷ cut) filled =
        rw last at (init-perm filled n blank (rw length-set size)) in
      let x = item m.items i in
      let y = item m.items n in
      Perm.cons_inv (
        Perm.trans (Perm.swap x y cut)
          (Perm.trans (Perm.cons x whole) (set-perm m.items i y blank inside)))

  cut-IsDistinct : IsDistinct cut
  cut-IsDistinct = λ c d p q e. ground (
    arith,
    cut-length,
    item-cut c,
    item-cut d,
    valid.apart c d,
    valid.apart c n,
    valid.apart n d,
    size,
  )

  cut-linked : IsLinkedBut i cut m.cell
  cut-linked = λ c p q. ground (arith, cut-length, item-cut c, valid.linked c, size)

  cut-IsHeapBut : IsHeapBut cut i
  cut-IsHeapBut = record {
    edges =
        λ c p q e f. ground (arith, cut-length, item-cut c, item-cut (up c), valid.heap c, size);
    bridged = λ c p q e f.
        ground (arith, cut-length, item-cut c, item-cut (up i), valid.heap c, valid.heap i, size);
  }

  cut-IsForeign : IsForeign cut ent
  cut-IsForeign =
      λ c p e. ground (arith, cut-length, item-cut c, valid.apart c i, valid.apart n i, size)

  others-IsForeign : (r : ℕ) → r ≢ ent → IsForeign cut r → IsForeign m.items r
  others-IsForeign r ne foreign c p e =
      let q = λ (x : HeapItem). x.ref == r in
      let here = count_p-pos q m.items c blank p (ground arith) in
      let (j, there, found) =
        index_of_count q cut blank
          (ground (arith, count_p-perm q cut-perm, here, count_p-cons q (item m.items i) cut)) in
      foreign j there (ground arith)

  -- What erase_timer delivers: a valid heap without a timer for `ent`, the others as before.
  pub record Erased (r : HeapMem) : Type 0 where
    pub valid_after : IsValid r
    pub gone : deadline r ent ≡ none
    pub others : (s : ℕ) → s ≢ ent → deadline r s ≡ deadline m s

  cut-Sifted : m.cell ent ≡ n → Sifted cut m.cell (record m { items = cut })
  cut-Sifted e = record {
    heap = λ c p q. ground (arith, cut-length, item-cut c, item-cut (up c), valid.heap c, size);
    perm = Perm.rfl;
    linked = λ c p. ground (arith, cut-length, item-cut c, valid.linked c, size);
    distinct = cut-IsDistinct;
    frame = λ r f. refl;
  }

  filled_hole : Returns (Sifted cut m.cell) (
      if ltb i (length cut)
      then heap_update (record m { items = cut }) i (length cut)
      else ok (record m { items = cut }))
  filled_hole = elim (Bool-cases (ltb i (length cut))) [
    | inl e ↦ rw e (
        heap_update-Sifted (record m { items = cut }) i (ground arith)
          (omega (arith, cut-length, valid.small)) cut-IsHeapBut cut-IsDistinct cut-linked)
    | inr e ↦ rw e (returns (cut-Sifted (ground (arith, cut-length, size))))
  ]

  cleared : HeapMem → HeapMem
  cleared r = record r { cell = write_cell r.cell ent no_index }

  cleared-Erased : (r : HeapMem) → Sifted cut m.cell r → Erased (cleared r)
  unfolding cleared write_cell deadline
  cleared-Erased r s =
      let away : (c : ℕ) → c < length r.items → (item r.items c).ref ≢ ent =
        IsForeign-perm r.items cut ent (Perm.symm s.perm) cut-IsForeign in
      let v : IsValid (cleared r) = record {
        heap = s.heap;
        apart = s.distinct;
        linked = λ c p. ground (arith, s.linked c, away c);
        idle = λ a foreign. elim (Bool-cases (a == ent)) [
          | inl e ↦ ground arith
          | inr e ↦
              let before = IsForeign-perm cut r.items a s.perm foreign in
              ground
                (arith, s.frame a before, valid.idle a (others-IsForeign a (ground arith) before))
        ];
        small = omega (arith, length-perm s.perm, cut-length, valid.small);
      } in
      record {
        valid_after = v;
        gone = ground arith;
        others = λ t ne. deadline_ext m (cleared r) t valid v (λ w. ground (
          arith,
          own,
          count_p-perm (is_timer w t) s.perm,
          count_p-perm (is_timer w t) cut-perm,
          count_p-cons (is_timer w t) (item m.items i) cut,
        ));
      }

  pub erase_timer-Erased : Returns Erased (erase_timer m ent)
  unfolding erase_timer cleared
  erase_timer-Erased =
      let last : length m.items - 1 ≡ n = omega arith in
      let full : 0 < length filled = omega (arith, length-set m.items i (item m.items n)) in
      rw
        (
          last,
          load-ok m n (omega arith),
          store-ok m i (item m.items n) inside,
          pop_back-init filled full,
        )
        (Returns-bind filled_hole λ r s. returns (cleared-Erased r s))
