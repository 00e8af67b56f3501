-- ===== src/Block/Create/Laws.antt =====
-- What `CreateBlock` returns: a block that links to its parent, holds its transactions under a tree
-- over them, and passes the proof of work.
use blockchain_test.Prelude.{ℕ, ◌≤◌, ◌<◌, ◌≡◌, ap, ◌∙◌, ◌⊎◌, inl, inr, true, List, arith}
use blockchain_test.Prelude.Int.{ℤ, pos}
use blockchain_test.Prelude.Bytes.{Bytes}
use blockchain_test.Prelude.Float.{FloatOps}
use blockchain_test.Tx.{Transaction}
use blockchain_test.Block.{Block, hash_transactions}
use blockchain_test.Block.Roots.{IsConsistent}
use blockchain_test.Block.Create.{rune_bytes, replacement, prepare_block, create_block}
use blockchain_test.Pow.{new_proof, max_int64, run, validate}
use blockchain_test.Pow.Run.{meets, run-Found, validate-run}

-- A timestamp above the last code point is written as U+FFFD.
rune_bytes_above : (n : ℕ) → 0x10FFFF < n → rune_bytes (pos n) ≡ replacement
unfolding rune_bytes
rune_bytes_above n h = ground arith

module _ (sha256 : Bytes → Bytes) (ops : FloatOps) (txs : List Transaction)
    (prev_hash : Bytes) where
  -- The tree is stored before the proof of work, which does not change it.
  prepared_settled :
      (now : ℤ)
      → (hash_transactions sha256 (prepare_block sha256 ops txs prev_hash now)).1
        ≡ prepare_block sha256 ops txs prev_hash now
  unfolding prepare_block hash_transactions
  prepared_settled now = ground arith

  whole :
      (now : ℤ) (b : Block)
      → (b ≡ prepare_block sha256 ops txs prev_hash now)
        ⊎ (b ≡ (hash_transactions sha256 (prepare_block sha256 ops txs prev_hash now)).1)
      → b ≡ prepare_block sha256 ops txs prev_hash now
  whole now b (inl e) = e
  whole now b (inr e) = e ∙ prepared_settled now

  -- `CreateBlock` adds the hash and the nonce to the prepared block, and nothing else.
  pub created :
      (now : ℤ) (start : ℕ)
      → start ≤ max_int64
      → create_block sha256 ops txs prev_hash now start
        ≡ record (prepare_block sha256 ops txs prev_hash now) {
          hash = (run sha256 (new_proof (prepare_block sha256 ops txs prev_hash now)) start).1;
          nonce = pos (run sha256 (new_proof (prepare_block sha256 ops txs prev_hash now)) start).0;
        }
  unfolding create_block new_proof
  created now start h =
      let b = prepare_block sha256 ops txs prev_hash now in
      let found = run-Found sha256 (new_proof b) start h in
      ap
        (λ (c : Block). record c {
          hash = (run sha256 (new_proof b) start).1;
          nonce = pos (run sha256 (new_proof b) start).0;
        })
        (whole now _ found.kept)

  prepared_fields :
      (now : ℤ)
      → let b = prepare_block sha256 ops txs prev_hash now in
        (b.prev_hash ≡ prev_hash)
        × (b.transactions ≡ txs)
        × (b.timestamp ≡ now)
        × IsConsistent sha256 b
  unfolding prepare_block hash_transactions
  prepared_fields now = ground arith

  -- If some nonce from the start on and below the largest int64 meets the target for the new block, the block that
  -- `CreateBlock` returns passes `Validate`, links to the given parent, carries the given time, and
  -- holds the given transactions under the Merkle tree over them.
  pub create_block-valid :
      (now : ℤ) (start k : ℕ)
      → start ≤ k
      → k < max_int64
      → meets sha256 (new_proof (prepare_block sha256 ops txs prev_hash now)) k ≡ true
      → let b = create_block sha256 ops txs prev_hash now start in
        ((validate sha256 (new_proof b)).0 ≡ true)
        × (b.prev_hash ≡ prev_hash)
        × (b.transactions ≡ txs)
        × (b.timestamp ≡ now)
        × IsConsistent sha256 b
  create_block-valid now start k p q hit =
      let fields = prepared_fields now in
      rw (created now start (omega arith)) (
        validate-run sha256 (prepare_block sha256 ops txs prev_hash now) _ start k p q hit,
        fields.0,
        fields.1,
        fields.2,
        fields.3,
      )

  prepared_state_root :
      (n m : ℕ)
      → 0x10FFFF < n
      → 0x10FFFF < m
      → (prepare_block sha256 ops txs prev_hash (pos n)).state_root
        ≡ (prepare_block sha256 ops txs prev_hash (pos m)).state_root
  unfolding prepare_block hash_transactions
  prepared_state_root n m h k = ground (arith, rune_bytes_above n h, rune_bytes_above m k)

  -- The state root does not depend on the time: any two timestamps above the last Unicode code
  -- point, which all present times are, give the same state root, where the transactions and the
  -- parent are the same and the search for a nonce starts at an int64.
  pub state_root_ignores_time :
      (n m start start' : ℕ)
      → 0x10FFFF < n
      → 0x10FFFF < m
      → start ≤ max_int64
      → start' ≤ max_int64
      → (create_block sha256 ops txs prev_hash (pos n) start).state_root
        ≡ (create_block sha256 ops txs prev_hash (pos m) start').state_root
  state_root_ignores_time n m start start' h k p q =
      rw (created (pos n) start p, created (pos m) start' q) (prepared_state_root n m h k)
