-- ===== src/Chain/Adding/Storing.antt =====
-- The database after `AddBlock`: the old blocks are where they were, the new one is under its hash.
use blockchain_test.Prelude.{
  inl, inr, ◌≡◌, refl, sym, ap, ◌∙◌, none, some, List, [], ◌∷◌, arith, length, if◌then◌else◌,
  Bool-cases,
}
use blockchain_test.Prelude.Bytes.{Bytes, bytes_equal, bytes_equal-eq, bytes_equal_refl}
use blockchain_test.Outcome.{ok}
use blockchain_test.Block.{Block}
use blockchain_test.Chain.{Services, next, last_hash_key}
use blockchain_test.Chain.Walk.{IsLinked}

module _ {Db : Type 0} (s : Services Db) where
  open s use {get, put, encode, decode, sha256, floats}

  -- What badger and sha256 promise: a read gives what was last written there, and a hash has 32 bytes.
  pub record Laws : Type 0 where
    pub get-put :
        (j k v : Bytes) (db : Db)
        → get j (put k v db) ≡ (if bytes_equal k j then some v else get j db)
    pub sized : (b : Bytes) → length (sha256 b) ≡ 32

  module _ (laws : Laws) where
    get-stored :
        (db : Db) (h v key : Bytes)
        → length key ≡ 32
        → get key (put last_hash_key h (put h v db))
          ≡ (if bytes_equal h key then some v else get key db)
    get-stored db h v key k = elim (Bool-cases (bytes_equal last_hash_key key)) [
      | inl same ↦
          let q : last_hash_key ≡ key = bytes_equal-eq last_hash_key key same in
          absurd (omega (arith, ap length q))
      | inr other ↦
          laws.get-put key last_hash_key h (put h v db) ∙ rw other (laws.get-put key h v db)
    ]

    next-stored :
        (db : Db) (b : Block) (key : Bytes)
        → length key ≡ 32
        → get b.hash db ≡ none
        → (c : Block) → next s db key ≡ ok c
        → next s (put last_hash_key b.hash (put b.hash (encode b) db)) key ≡ ok c
    unfolding next
    next-stored db b key k new c e = elim (Bool-cases (bytes_equal b.hash key)) [
      | inl same ↦
          let q : get key db ≡ none =
            ap (λ z. get z db) (sym (bytes_equal-eq b.hash key same)) ∙ new in
          absurd (cc (rw q at e))
      | inr other ↦ rw (get-stored db b.hash (encode b) key k, other) e
    ]

    IsLinked-stored :
        (db : Db) (b : Block)
        → get b.hash db ≡ none
        → (blocks : List Block) (key : Bytes) → IsLinked s db key blocks
        → IsLinked s (put last_hash_key b.hash (put b.hash (encode b) db)) key blocks
    IsLinked-stored db b new [] key h = h
    IsLinked-stored db b new (c ∷ []) key (k, e, last) = (k, next-stored db b key k new c e, last)
    IsLinked-stored db b new (c ∷ d ∷ rest) key (k, e, more) =
        (k, next-stored db b key k new c e, IsLinked-stored db b new (d ∷ rest) c.prev_hash more)

    -- The stored block is found under its hash.
    pub next-new :
        (db : Db) (b : Block)
        → length b.hash ≡ 32
        → decode (encode b) ≡ some b
        → next s (put last_hash_key b.hash (put b.hash (encode b) db)) b.hash ≡ ok b
    unfolding next
    next-new db b k back =
        rw (get-stored db b.hash (encode b) b.hash k, bytes_equal_refl b.hash, back) refl

    pub IsLinked-new :
        (db : Db) (b : Block) (blocks : List Block)
        → length b.hash ≡ 32
        → decode (encode b) ≡ some b
        → get b.hash db ≡ none
        → IsLinked s db b.prev_hash blocks
        → IsLinked s (put last_hash_key b.hash (put b.hash (encode b) db)) b.hash (b ∷ blocks)
    IsLinked-new db b [] k back new h = absurd h
    IsLinked-new db b (c ∷ rest) k back new h =
        (k, next-new db b k back, IsLinked-stored db b new (c ∷ rest) b.prev_hash h)
