-- ===== src/Avl/Tests.antt =====
-- A node hung below a chain of two: the root is rotated.
use cand_cppwith_linux.Base.{refl, some, none, arith, ◌==◌, if◌then◌else◌}
use cand_cppwith_linux.Memory.{Mem, Ends}
use cand_cppwith_linux.Avl.Tree.{leaf, node, Ctx, top, left_of, plug}
use cand_cppwith_linux.Avl.{AvlNode, avl_fix}
use cand_cppwith_linux.Avl.Insert.{IsInserted, avl_fix-Inserted}

abbrev chain : Mem AvlNode
chain a =
    if a == 3
    then some (record { depth = 2; cnt = 2; left = 2; right = 0; parent = 0 })
    else if a == 2
    then some (record { depth = 1; cnt = 1; left = 1; right = 0; parent = 3 })
    else if a == 1
    then some (record { depth = 1; cnt = 1; left = 0; right = 0; parent = 2 })
    else none

abbrev above_new : Ctx
above_new = left_of 2 leaf (left_of 3 leaf top)

avl_fix-Inserted_example : Ends (IsInserted (plug (node leaf 1 leaf) above_new)) (avl_fix 3 1 chain)
avl_fix-Inserted_example =
    avl_fix-Inserted 3 chain 1 above_new (omega arith)
      (record { ne = ground arith; old_depth = 1; old_cnt = 1; at = refl })
      (
        record { ne = ground arith; old_depth = 1; old_cnt = 1; at = refl },
        tt,
        (record { ne = ground arith; old_depth = 2; old_cnt = 2; at = refl }, tt, tt),
      )
      (λ a h. (ground arith, refl), refl, tt, (λ a h. (ground arith, refl), refl, tt, tt))
      (omega arith, omega arith, tt, (omega arith, omega arith, tt, tt)) (omega arith)
