-- ===== src/Locks.antt =====
-- The address locks of Blockchain/blockchain.go: the map `addressLocks`. Each operation runs under
-- `lockMutex`, so one is one step.
use blockchain_test.Prelude.{
  Bool, true, false, Option, none, some, String, Map, lookup, insert, delete,
}

abbrev pub Locks : Type 0
Locks = Map Bool

unfoldable pub lock_address : String → Locks → Locks
lock_address address locks = insert address true locks

unfoldable pub unlock_address : String → Locks → Locks
unlock_address address locks = delete address locks

-- A key that is not there reads as false.
abbrev pub held : Option Bool → Bool
held none = false
held (some b) = b

unfoldable pub is_address_locked : String → Locks → Bool
is_address_locked address locks = held (lookup address locks)
