-- ===== src/DList.antt =====
-- ownRedisUsingCpp/list.h: the intrusive ring of the idle connections, over nodes at addresses.
pub mod Ring
pub mod Detach
mod Tests
use cand_cppwith_linux.Base.{Bool, ◌==◌}
use cand_cppwith_linux.Memory.{Ptr, null, Cmd, pure, ◌>>=◌, ◌>>◌, load, modify}

pub record DList : Type 0 where
  pub prev : Ptr
  pub next : Ptr

unfoldable pub dlist_init : Ptr → Cmd DList (Unit {0})
dlist_init node = modify node λ _. record { prev = node; next = node }

unfoldable pub dlist_empty : Ptr → Cmd DList Bool
dlist_empty node = do n ← load node; pure (n.next == node)

unfoldable pub dlist_detach : Ptr → Cmd DList (Unit {0})
dlist_detach node = do
  n ← load node
  modify n.prev λ m. record m { next = n.next }
  modify n.next λ m. record m { prev = n.prev }

unfoldable pub dlist_insert_before : Ptr → Ptr → Cmd DList (Unit {0})
dlist_insert_before target rookie = do
  t ← load target
  modify t.prev λ m. record m { next = rookie }
  modify rookie λ m. record m { prev = t.prev }
  modify rookie λ m. record m { next = target }
  modify target λ m. record m { prev = rookie }
