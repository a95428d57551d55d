-- ===== src/Dll.antt =====
-- What a doubly linked list in persistent memory stands for: the addresses of its nodes in order
-- (src/list.rs, `PList<T>` as a list that ends at `None`, which the sorted and the unsorted lists
-- are).
pub mod Links
pub mod Erase
pub mod Insert
pub mod Ordered
use int_os.Base.{ℕ, ◌≡◌, none, some, Bool, List, length, has, link_eq}
use int_os.OpLog.{Ptr, ListId}
use int_os.Pm.State.{Mem}
use int_os.Dll.Links.{Chain}

-- The list at `l` holds the nodes `xs`, and no other node says that it is in `l`. Its cursor is not
-- in use.
pub record IsList (m : Mem) (l : ListId) (xs : List Ptr) : Type 0 where
  pub chain : Chain m.next m.prev none (m.head l) xs
  pub count : m.len l ≡ length xs
  pub cursor : m.cursor l ≡ none
  pub owned : (a : Ptr) → link_eq (m.list a) (some l) ≡ has a xs
