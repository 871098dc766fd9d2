-- ===== src/Avl/RotLeft.antt =====
-- rot_left: the right child becomes the parent of its old parent.
use cand_cppwith_linux.Base.{suc, ◌+◌, ◌<◌, ◌≡◌, ◌≢◌, refl, sym, ◌∙◌, arith}
use cand_cppwith_linux.Memory.{
  Ptr, Mem, Ends, ends, Ends-bind, load-ok, modify-ok, write, write_self, write_ne,
}
use cand_cppwith_linux.Avl.Tree.{Tree, node, size, root}
use cand_cppwith_linux.Avl.{AvlNode, u32_mod, rot_left}
use cand_cppwith_linux.Avl.Nodes.{IsDistinct}
use cand_cppwith_linux.Avl.Shape.{IsTree, Links, frame, SameOutside, avl_update_lem, adopt_lem}

-- rot_left at `p` ends without a fault, returns the right child `q`, leaves the rotated tree in its
-- place with all fields up to date, and touches nothing outside the tree.
pub rot_left_lem :
    (h : Mem AvlNode) (a : Tree) (p : Ptr) (b : Tree) (q : Ptr) (c : Tree) (par par' : Ptr)
    → Links h p (root a) q par
    → Links h q (root b) (root c) par'
    → IsTree h p a
    → IsTree h q b
    → IsTree h q c
    → IsDistinct (node a p (node b q c))
    → suc (suc (size a + size b + size c)) < u32_mod
    → Ends
        (λ r g.
          (r ≡ q) × IsTree g par (node (node a p b) q c) × SameOutside (node a p (node b q c)) h g)
        (rot_left p h)
unfolding rot_left
rot_left_lem h a p b q c par par' kp kq ia ib ic d small =
    rw (load-ok h kp.ne kp.at, load-ok h kq.ne kq.at)
      (Ends-bind (adopt_lem h q p b ib d.4.3) λ _ h₁ (ib₁, same₁).
        let ne : p ≢ q = ground (arith, d.1) in
        let n₁ : AvlNode = record {
          depth = kp.old_depth;
          cnt = kp.old_cnt;
          left = root a;
          right = root b;
          parent = par;
        } in
        let m₁ : AvlNode = record {
          depth = kq.old_depth;
          cnt = kq.old_cnt;
          left = p;
          right = root c;
          parent = par';
        } in
        let n₂ : AvlNode = record n₁ { parent = q } in
        let m₂ : AvlNode = record m₁ { parent = par } in
        let h₂ = write h₁ p n₁ in
        let h₃ = write h₂ q m₁ in
        let h₄ = write h₃ q m₂ in
        let h₅ = write h₄ p n₂ in
        let p₁ = same₁ p (ground (arith, d.1)) ∙ kp.at in
        let q₂ = write_ne h₁ p n₁ q (λ e. ne (sym e)) ∙ same₁ q d.4.0 ∙ kq.at in
        let p₃ = write_ne h₂ q m₁ p ne ∙ write_self h₁ p n₁ in
        let p₄ = write_ne h₃ q m₂ p ne ∙ p₃ in
        let far : (x : Ptr) → x ≢ p → x ≢ q → h₅ x ≡ h₁ x = λ x xp xq.
          write_ne h₄ p n₂ x xp
          ∙ write_ne h₃ q m₂ x xq
          ∙ write_ne h₂ q m₁ x xq
          ∙ write_ne h₁ p n₁ x xp in
        rw
          (
            modify-ok h₁ kp.ne p₁ _,
            modify-ok h₂ kq.ne q₂ _,
            load-ok h₃ kp.ne p₃,
            modify-ok h₃ kq.ne (write_self h₂ q m₁) _,
            modify-ok h₄ kp.ne p₄ _,
          )
          (Ends-bind
            (avl_update_lem h₅ a p b q
              (record {
                ne = kp.ne;
                old_depth = kp.old_depth;
                old_cnt = kp.old_cnt;
                at = write_self h₄ p n₂;
              })
              (frame h h₅ p a
                (λ x m.
                  far x (ground arith) (ground (arith, d.2 x)) ∙ same₁ x (ground (arith, d.2 x)))
                ia)
              (frame h₁ h₅ p b (λ x m. far x (ground arith) (ground arith)) ib₁) d.0
              (ground (arith, d.1)) (omega arith))
            λ _ h₆ (tp, same₆).
              let q₆ =
                same₆ q (λ e. ne (sym e))
                ∙ write_ne h₄ p n₂ q (λ e. ne (sym e))
                ∙ write_self h₃ q m₂ in
              let ic₆ =
                frame h h₆ q c
                  (λ x m.
                    same₆ x (ground arith)
                    ∙ far x (ground arith) (ground arith)
                    ∙ same₁ x (ground (arith, d.4.2 x)))
                  ic in
              Ends-bind
                (avl_update_lem h₆ (node a p b) q c par
                  (record { ne = kq.ne; old_depth = kq.old_depth; old_cnt = kq.old_cnt; at = q₆ })
                  tp ic₆ (ground (arith, d.2 q)) d.4.1 (omega arith))
                λ _ h₇ (tq, same₇). ends (
                  refl,
                  tq,
                  λ x out.
                      same₇ x (ground arith)
                      ∙ same₆ x (ground arith)
                      ∙ far x (ground arith) (ground arith)
                      ∙ same₁ x (ground arith),
                )))
