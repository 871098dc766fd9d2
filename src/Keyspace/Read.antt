-- ===== src/Keyspace/Read.antt =====
-- The commands that read the key space: do_get and do_ttl.
use cand_cppwith_linux.Base.{
  ℕ, ◌-◌, ◌/◌, ◌^◌, ◌≡◌, refl, sym, ◌∙◌, ◌⊎◌, inl, inr, true, false, not, Option, none, some, List,
  ok, deref, ◌>>=◌, Returns, returns, Returns-bind, arith, ◌==◌, ltb, if◌then◌else◌, get_elem?,
}
use cand_cppwith_linux.Base.Array.{get_elem?-get_or}
use cand_cppwith_linux.Memory.{Ptr}
use cand_cppwith_linux.Heap.{no_index}
use cand_cppwith_linux.Heap
use cand_cppwith_linux.Heap.Order.{blank, item}
use cand_cppwith_linux.Ttl.{deadline}
use cand_cppwith_linux.Ttl.Deadline.{IsValid, foreign_or_item}
use cand_cppwith_linux.Wire.{Bytes, out_nil, out_str, out_int, out_err}
use cand_cppwith_linux.Keyspace.{Entry, GData, t_str, err_type, expect_string, do_get, do_ttl}
use cand_cppwith_linux.Keyspace.View.{
  IsKeyspace, Located, absent, located, view, address, view-absent, view-located, view-reordered,
  address-located, address-reordered, find_entry-Located,
}

-- the key space is in order and the same map as before, with the same entries, timers and jobs
pub record Kept (g g' : GData) : Type 0 where
  pub valid : IsKeyspace g'
  pub same : (k : Bytes) → view g' k ≡ view g k
  pub timers : g'.timers ≡ g.timers
  pub jobs : g'.jobs ≡ g.jobs
  pub entries : g'.entries ≡ g.entries

-- the response to `get` for the entry of the key
abbrev pub get_reply : Bytes → Option Entry → Bytes
get_reply out none = out_nil out
get_reply out (some ent) =
    if not (ent.type == t_str) then out_err out err_type expect_string else out_str out ent.val

-- From a state in order, do_get ends without a fault and changes no key, and answers with the value
-- of the key: nil if there is none, and an error if it is not a string.
pub do_get-Replies :
    (g : GData) (cmd : List Bytes) (k out : Bytes)
    → get_elem? cmd 1 ≡ some k
    → IsKeyspace g
    → Returns
        (λ (r : GData × Bytes). Kept g (r.0) × (r.1 ≡ get_reply out (view g k)))
        (do_get g cmd out)
unfolding do_get
do_get-Replies g cmd k out arg v =
    rw arg (Returns-bind (find_entry-Located g k v) λ r l. answer r l)
  where
    answer :
        (r : Option Ptr × GData)
        → Located g k r
        → Returns
            (λ (r : GData × Bytes). Kept g (r.0) × (r.1 ≡ get_reply out (view g k)))
            (elim (r.0) [
              | none ↦ ok (r.1, out_nil out)
              | some p ↦
                  (deref (r.1.entries p) >>= λ ent. ok (
                    r.1,
                    if not (ent.type == t_str)
                        then out_err out err_type expect_string
                        else out_str out ent.val,
                  ))
            ])
    answer _ (absent db valid p count) =
        let same = view-reordered g db k v p in
        let e = sym same ∙ view-absent (record g { db = db }) k count in
        returns (
          record {
            valid = valid;
            same = λ k'. view-reordered g db k' v p;
            timers = refl;
            jobs = refl;
            entries = refl;
          },
          rw e refl,
        )
    answer _ (located db n rest ent valid p q ne at same_key) =
        let e =
          sym (view-reordered g db k v p)
          ∙ view-located (record g { db = db }) k n rest ent valid q ne at same_key in
        rw at (
          returns (
            record {
              valid = valid;
              same = λ k'. view-reordered g db k' v p;
              timers = refl;
              jobs = refl;
              entries = refl;
            },
            rw e refl,
          ))

-- the response to `pttl`: -2 without the key, -1 without a deadline, and the milliseconds to it
abbrev pub ttl_reply : ℕ → Bytes → Option Entry → Option ℕ → Bytes
ttl_reply now out none d = out_int out (2 ^ 64 - 2)
ttl_reply now out (some ent) none = out_int out (2 ^ 64 - 1)
ttl_reply now out (some ent) (some d) = out_int out (if ltb now d then (d - now) / 1000 else 0)

pub timed_item :
    (m : Heap.HeapMem) (p : Ptr)
    → IsValid m
    → (m.cell p ≡ no_index)
      ⊎ ((x : Heap.HeapItem) × (get_elem? (m.items) (m.cell p) ≡ some x)
          × ((m.cell p == no_index) ≡ false))
timed_item m p v = elim (foreign_or_item m p v) [
  | inl e ↦ inl e
  | inr (inside, own) ↦ inr (
    item (m.items) (m.cell p),
    get_elem?-get_or (m.items) (m.cell p) blank inside,
    ground (arith, v.small),
  )
]

deadline_untimed : (m : Heap.HeapMem) (p : Ptr) → m.cell p ≡ no_index → deadline m p ≡ none
unfolding deadline
deadline_untimed m p e = let off : (m.cell p == no_index) ≡ true = ground arith in rw off refl

pub deadline_timed :
    (m : Heap.HeapMem) (p : Ptr) (x : Heap.HeapItem)
    → get_elem? (m.items) (m.cell p) ≡ some x
    → (m.cell p == no_index) ≡ false
    → deadline m p ≡ some (x.val)
unfolding deadline
deadline_timed m p x at on = rw (on, at) refl

load_item :
    (m : Heap.HeapMem) (i : ℕ) (x : Heap.HeapItem)
    → get_elem? (m.items) i ≡ some x
    → Heap.load m i ≡ ok x
unfolding Heap.load
load_item m i x e = rw e refl

-- From a state in order, do_ttl ends without a fault and changes nothing, and answers with the time
-- to the deadline of the key, -1 if it has none, and -2 if there is no such key.
pub do_ttl-Replies :
    (now : ℕ) (g : GData) (cmd : List Bytes) (k out : Bytes)
    → get_elem? cmd 1 ≡ some k
    → IsKeyspace g
    → Returns
        (λ (r : GData × Bytes).
          Kept g (r.0) × (r.1 ≡ ttl_reply now out (view g k) (deadline g.timers (address g k))))
        (do_ttl now g cmd out)
unfolding do_ttl
do_ttl-Replies now g cmd k out arg v =
    rw arg (Returns-bind (find_entry-Located g k v) λ r l. answer r l)
  where
    answer :
        (r : Option Ptr × GData)
        → Located g k r
        → Returns
            (λ (r : GData × Bytes).
              Kept g (r.0) × (r.1 ≡ ttl_reply now out (view g k) (deadline g.timers (address g k))))
            (elim (r.0) [
              | none ↦ ok (r.1, out_int out (2 ^ 64 - 2))
              | some p ↦
                  (if r.1.timers.cell p == no_index
                    then ok (r.1, out_int out (2 ^ 64 - 1))
                    else (Heap.load (r.1.timers) (r.1.timers.cell p) >>= λ item. ok (
                      r.1,
                      out_int out (if ltb now item.val then (item.val - now) / 1000 else 0),
                    )))
            ])
    answer _ (absent db valid p count) =
        let same = view-reordered g db k v p in
        let e = sym same ∙ view-absent (record g { db = db }) k count in
        returns (
          record {
            valid = valid;
            same = λ k'. view-reordered g db k' v p;
            timers = refl;
            jobs = refl;
            entries = refl;
          },
          rw e refl,
        )
    answer _ (located db n rest ent valid p q ne at same_key) =
        let e =
          sym (view-reordered g db k v p)
          ∙ view-located (record g { db = db }) k n rest ent valid q ne at same_key in
        let here =
          sym (address-reordered g db k v p)
          ∙ address-located (record g { db = db }) k n rest ent valid q at same_key in
        let kept : Kept g (record g { db = db }) = record {
          valid = valid;
          same = λ k'. view-reordered g db k' v p;
          timers = refl;
          jobs = refl;
          entries = refl;
        } in
        elim (timed_item g.timers n.payload (v.timers)) [
          | inl off ↦
              let d = deadline_untimed g.timers n.payload off in
              let test : (g.timers.cell n.payload == no_index) ≡ true = ground arith in
              rw test (returns (kept, rw (e, here, d) refl))
          | inr (x, item_at, on) ↦
              let d = deadline_timed g.timers n.payload x item_at on in
              rw (on, load_item g.timers (g.timers.cell n.payload) x item_at)
                (returns (kept, rw (e, here, d) refl))
        ]
