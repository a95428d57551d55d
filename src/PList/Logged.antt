-- ===== src/PList/Logged.antt =====
-- The entry in the log leaves the lists alone, and a second entry of the same changes nothing.
use int_os.Base.{ℕ, ◌≡◌, refl, List}
use int_os.OpLog.{ListOpCode, set_micro_op_old_len, ListId, Ptr}
use int_os.Pm.State.{Kind, Mem}
use int_os.PList.{op_logged}
use int_os.Dll.{IsList}

pub logged_twice :
    (t : Kind) (op : ListOpCode) (n : ℕ) (m : Mem)
    → op_logged t op n (op_logged t op n m) ≡ op_logged t op n m
unfolding set_micro_op_old_len
logged_twice Kind.sched_kind op n m = refl
logged_twice _ op n m = refl

pub logged-IsList :
    (t : Kind) (op : ListOpCode) (n : ℕ) {m : Mem} {l : ListId} {xs : List Ptr}
    → IsList m l xs
    → IsList (op_logged t op n m) l xs
logged-IsList t op n is = record {
  chain = is.chain;
  count = is.count;
  cursor = is.cursor;
  owned = is.owned;
}
