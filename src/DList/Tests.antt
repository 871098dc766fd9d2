-- ===== src/DList/Tests.antt =====
-- A ring of the head 1 and the node 2, and the node 3 outside it.
use cand_cppwith_linux.Base.{refl, none, some, [], ◌∷◌, arith, ◌==◌, if◌then◌else◌}
use cand_cppwith_linux.Memory.{Mem, Ends}
use cand_cppwith_linux.DList.{DList, dlist_insert_before, dlist_detach}
use cand_cppwith_linux.DList.Ring.{IsRing, dlist_insert_before-IsRing}
use cand_cppwith_linux.DList.Detach.{dlist_detach-IsRing}

abbrev nodes : Mem DList
nodes a =
    if a == 1
    then some (record { prev = 2; next = 2 })
    else if a == 2
    then some (record { prev = 1; next = 1 })
    else if a == 3
    then some (record { prev = 0; next = 0 })
    else none

nodes-IsRing : IsRing nodes 1 (2 ∷ [])
nodes-IsRing = (
  (ground arith, refl, (ground arith, refl, tt)),
  ((_, refl, refl), (_, refl, refl), ((_, refl, refl), (_, refl, refl))),
)

dlist_insert_before-IsRing_example :
    Ends (λ _ g. IsRing g 1 (2 ∷ (3 ∷ []))) (dlist_insert_before 1 3 nodes)
dlist_insert_before-IsRing_example =
    dlist_insert_before-IsRing nodes 1 3 (2 ∷ []) (record { prev = 0; next = 0 }) nodes-IsRing
      (ground arith) refl refl

dlist_detach-IsRing_example : Ends (λ _ g. IsRing g 1 []) (dlist_detach 2 nodes)
dlist_detach-IsRing_example = dlist_detach-IsRing nodes 1 2 [] [] nodes-IsRing
