-- ===== src/Keyspace/Write.antt =====
-- do_set on every branch.
use cand_cppwith_linux.Base.{
  ◌+◌, ◌<◌, ◌≡◌, ◌≢◌, refl, sym, ap, ◌∙◌, inl, inr, Bool-cases, true, not, Option, none, some, List,
  Perm, ok, deref, ◌>>=◌, Returns, returns, Returns-bind, arith, ◌==◌, ==_iff, if◌then◌else◌,
  get_elem?, length,
}
use cand_cppwith_linux.Base.Array.{length-perm}
use cand_cppwith_linux.Memory.{Ptr, null, write}
use cand_cppwith_linux.HashTable.{HNode, HMap, hm_insert}
use cand_cppwith_linux.HashTable.Map.{map_contents, max_nodes}
use cand_cppwith_linux.HashTable.Insert.{hm_insert-Added}
use cand_cppwith_linux.Wire.{Bytes, str_hash, out_nil, out_err}
use cand_cppwith_linux.Keyspace.{
  Entry, GData, t_str, err_type, expect_string, bytes_eq, new_entry, do_set,
}
use cand_cppwith_linux.Keyspace.View.{
  IsKeyspace, Located, absent, located, view, in_order, view-absent, view-located, view-reordered,
  find_entry-Located, eq_of_bytes_eq,
}
use cand_cppwith_linux.Keyspace.Set.{SetsKey, rewrite-SetsKey}
use cand_cppwith_linux.Keyspace.Add.{add-SetsKey, new_entry-timers}

-- what `set` makes of the entry of the key
abbrev pub set_entry : Bytes → Bytes → Option Entry → Option Entry
set_entry key val none = some (record { key = key; val = val; type = t_str; zset = none })
set_entry key val (some ent) =
    if not (ent.type == t_str) then some ent else some (record ent { val = val })

abbrev pub set_reply : Bytes → Option Entry → Bytes
set_reply out none = out_nil out
set_reply out (some ent) =
    if not (ent.type == t_str) then out_err out err_type expect_string else out_nil out

-- malloc succeeds: its address is not null, and no entry of the key space lives at it
abbrev pub IsMalloc : (GData → Ptr) → GData → Type 0
IsMalloc malloc g =
    (db : HMap Ptr)
    → (malloc (record g { db = db }) ≢ null) × (g.entries (malloc (record g { db = db })) ≡ none)

pub SetsKey-reordered :
    (g : GData) (db : HMap Ptr) (k : Bytes) (x : Option Entry) (g' : GData)
    → IsKeyspace g
    → Perm (map_contents db) (map_contents g.db)
    → SetsKey (record g { db = db }) k x g'
    → SetsKey g k x g'
SetsKey-reordered g db k x g' v p s = record {
  valid = s.valid;
  views = λ k'. s.views k' ∙ ap (λ o. if bytes_eq k k' then x else o) (view-reordered g db k' v p);
}

unchanged-SetsKey :
    (g : GData) (db : HMap Ptr) (k : Bytes) (x : Option Entry)
    → IsKeyspace g
    → IsKeyspace (record g { db = db })
    → Perm (map_contents db) (map_contents g.db)
    → view g k ≡ x
    → SetsKey g k x (record g { db = db })
unchanged-SetsKey g db k x v v' p e = record {
  valid = v';
  views = λ k'. view-reordered g db k' v p ∙ (elim (Bool-cases (bytes_eq k k')) [
    | inl t ↦ rw t (ap (view g) (sym (eq_of_bytes_eq k k' t)) ∙ e)
    | inr f ↦ rw f refl
  ]);
}

string_in_order :
    (n : HNode Ptr) (e : Entry) → n.hcode ≡ str_hash e.key → e.type ≡ t_str → in_order n e ≡ true
unfolding in_order
string_in_order n e h t =
    let hash : (n.hcode == str_hash e.key) ≡ true = (==_iff n.hcode (str_hash e.key)).1 h in
    rw (hash, t) refl

-- From a state in order, with room for one more entry and a malloc that succeeds, do_set ends
-- without a fault. A key without an entry gets one with the value, a string gets the value, and on a
-- sorted set the answer is an error and no key changes. No other key, no deadline and no job changes.
pub do_set-Sets :
    (malloc : GData → Ptr) (g : GData) (cmd : List Bytes) (k val out : Bytes)
    → IsMalloc malloc g
    → get_elem? cmd 1 ≡ some k
    → get_elem? cmd 2 ≡ some val
    → IsKeyspace g
    → length (map_contents g.db) + 1 < max_nodes
    → Returns
        (λ (r : GData × Bytes).
          SetsKey g k (set_entry k val (view g k)) (r.0)
          × (r.0.timers ≡ g.timers)
          × (r.0.jobs ≡ g.jobs)
          × (r.1 ≡ set_reply out (view g k)))
        (do_set malloc g cmd out)
unfolding do_set new_entry
do_set-Sets malloc g cmd k val out fresh arg1 arg2 v room =
    rw (arg1, arg2) (Returns-bind (find_entry-Located g k v) λ r l. answer r l)
  where
    answer :
        (r : Option Ptr × GData)
        → Located g k r
        → Returns
            (λ (r : GData × Bytes).
              SetsKey g k (set_entry k val (view g k)) (r.0)
              × (r.0.timers ≡ g.timers)
              × (r.0.jobs ≡ g.jobs)
              × (r.1 ≡ set_reply out (view g k)))
            (elim (r.0) [
              | some p ↦
                  (deref (r.1.entries p) >>= λ ent. ok (
                    if not (ent.type == t_str) then (r.1, out_err out err_type expect_string) else (
                      record (r.1) { entries = write (r.1.entries) p (record ent { val = val }) },
                      out_nil out,
                    )))
              | none ↦
                  (hm_insert
                      ((new_entry
                        (r.1)
                        (malloc (r.1))
                        (record { key = k; val = val; type = t_str; zset = none })).db)
                      (record { hcode = str_hash k; payload = malloc (r.1) })
                    >>= λ db. ok (
                      record (new_entry
                          (r.1)
                          (malloc (r.1))
                          (record { key = k; val = val; type = t_str; zset = none })) { db = db },
                      out_nil out,
                    ))
            ])
    answer _ (absent db valid p count) =
        let e = sym (view-reordered g db k v p) ∙ view-absent (record g { db = db }) k count in
        let g₁ : GData = record g { db = db } in
        let node : HNode Ptr = record { hcode = str_hash k; payload = malloc g₁ } in
        let ent : Entry = record { key = k; val = val; type = t_str; zset = none } in
        Returns-bind (hm_insert-Added db node valid.map (omega (arith, length-perm p))) λ db' added.
          returns (
            SetsKey-reordered g db k _ _ v p (
                rw e (
                  add-SetsKey g₁ k (malloc g₁) ent db' valid (fresh db).0 (fresh db).1 count refl
                    (string_in_order node ent refl refl) added)),
            new_entry-timers g₁ k (malloc g₁) ent db' valid (fresh db).0 (fresh db).1 count refl,
            refl,
            rw e refl,
          )
    answer _ (located db n rest ent valid p q ne at same) =
        let e =
          sym (view-reordered g db k v p)
          ∙ view-located (record g { db = db }) k n rest ent valid q ne at same in
        rw at (elim (Bool-cases (ent.type == t_str)) [
          | inl t ↦
              rw (e, t)
                (returns (
                  SetsKey-reordered g db k _ _ v p (
                      rewrite-SetsKey (record g { db = db }) k n rest ent (record ent { val = val })
                        valid q ne at same (refl, refl, refl)),
                  refl,
                  refl,
                  refl,
                ))
          | inr f ↦
              rw (e, f)
                (returns (unchanged-SetsKey g db k (some ent) v valid p e, refl, refl, refl))
        ])
