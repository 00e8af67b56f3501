-- ===== src/Chain/Walk.antt =====
-- The walk over a chain: it visits the linked blocks, newest first, and ends.
use blockchain_test.Prelude.{
  ℕ, zero, suc, ◌≤◌, ◌≡◌, refl, false, some, List, [], ◌∷◌, arith, length, ◌==◌,
}
use blockchain_test.Prelude.Bytes.{Bytes}
use blockchain_test.Outcome.{ok}
use blockchain_test.Block.{Block}
use blockchain_test.Chain.{Services, next, walk}

module _ {Db : Type 0} (s : Services Db) where
  -- The blocks are stored under keys of 32 bytes: the first under the given one, each other under
  -- the `PrevHash` of the block before it, and the last has no `PrevHash`.
  abbrev pub IsLinked : Db → Bytes → List Block → Type 0
  IsLinked db key [] = ⊥
  IsLinked db key (b ∷ []) = (length key ≡ 32) × (next s db key ≡ ok b) × (length b.prev_hash ≡ 0)
  IsLinked db key (b ∷ c ∷ rest) =
      (length key ≡ 32) × (next s db key ≡ ok b) × IsLinked db b.prev_hash (c ∷ rest)

  linked-key :
      (db : Db) (key : Bytes) (blocks : List Block) → IsLinked db key blocks → length key ≡ 32
  linked-key db key [] h = absurd h
  linked-key db key (b ∷ []) h = h.0
  linked-key db key (b ∷ c ∷ rest) h = h.0

  -- The walk visits exactly the linked blocks, with as much fuel as there are blocks.
  pub walk-IsLinked :
      (db : Db) (blocks : List Block) (key : Bytes) (f : ℕ)
      → IsLinked db key blocks
      → length blocks ≤ f
      → walk s f db key ≡ some (ok blocks)
  unfolding walk next
  walk-IsLinked db [] key f h le = absurd h
  walk-IsLinked db (b ∷ rest) key zero h le = absurd (omega arith)
  walk-IsLinked db (b ∷ []) key (suc f) (k, e, last) le = rw (e, last) refl
  walk-IsLinked db (b ∷ c ∷ rest) key (suc f) (k, e, more) le =
      let going : (length b.prev_hash == 0) ≡ false =
        ground (arith, linked-key db b.prev_hash (c ∷ rest) more) in
      rw (e, going, walk-IsLinked db (c ∷ rest) b.prev_hash f more (omega arith)) refl
