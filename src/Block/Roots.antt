-- ===== src/Block/Roots.antt =====
-- The Merkle root of a block's transactions: the cache, the pruned copy, and what a root commits to.
use blockchain_test.Prelude.{
  ◌≡◌, refl, sym, ap, ◌∙◌, ◌⊎◌, inl, inr, none, some, List, [], ◌∷◌, map, arith, length, length-map,
  All,
}
use blockchain_test.Prelude.Bytes.{Bytes}
use blockchain_test.Merkle.{MerkleNode, node_hash, merkle_loop}
use blockchain_test.Merkle.Shape.{length-loop}
use blockchain_test.Merkle.Binding.{Collision, hashes-loop, hashes_of_head}
use blockchain_test.Tx.{Transaction}
use blockchain_test.Block.{
  Block, id_leaf, transaction_trie, hash_transactions, id_only, prune_block_data,
}

abbrev pub ids : List Transaction → List Bytes
ids [] = []
ids (tx ∷ rest) = tx.id ∷ ids rest

hashes-ids : (txs : List Transaction) → map node_hash (map id_leaf txs) ≡ ids txs
hashes-ids [] = refl
hashes-ids (tx ∷ rest) = ap (λ t. tx.id ∷ t) (hashes-ids rest)

leaves-id_only : (txs : List Transaction) → map id_leaf (map id_only txs) ≡ map id_leaf txs
leaves-id_only [] = refl
leaves-id_only (tx ∷ rest) = ap (λ t. id_leaf tx ∷ t) (leaves-id_only rest)

module _ (sha256 : Bytes → Bytes) where
  -- The stored tree is the one over the block's own transactions.
  abbrev pub IsConsistent : Block → Type 0
  IsConsistent b = b.tx_trie ≡ transaction_trie sha256 b.transactions

  -- A second call of `HashTransactions` returns the same root and changes nothing.
  pub hash_transactions_idem :
      (b : Block)
      → hash_transactions sha256 (hash_transactions sha256 b).1 ≡ hash_transactions sha256 b
  unfolding hash_transactions
  hash_transactions_idem b = ground arith

  -- A block with no stored tree gets the one over its own transactions.
  pub hash_transactions-IsConsistent :
      (b : Block) → b.tx_trie ≡ none → IsConsistent (hash_transactions sha256 b).1
  unfolding hash_transactions
  hash_transactions-IsConsistent b h = ground arith

  trie-id_only :
      (txs : List Transaction)
      → transaction_trie sha256 (map id_only txs) ≡ transaction_trie sha256 txs
  unfolding transaction_trie
  trie-id_only txs = rw (length-map id_only txs, leaves-id_only txs)

  -- A pruned block has the root of the full one, if that stored no tree or a consistent one.
  pub root-prune :
      (b : Block)
      → (b.tx_trie ≡ none) ⊎ IsConsistent b
      → (hash_transactions sha256 (prune_block_data b)).0 ≡ (hash_transactions sha256 b).0
  unfolding hash_transactions prune_block_data
  root-prune b h = ground (arith, trie-id_only b.transactions)

  module _ (sized : (b : Bytes) → length (sha256 b) ≡ 32) where
    Wide-ids :
        (txs : List Transaction)
        → All (λ id. length id ≡ 32) (ids txs)
        → All (λ t. length (node_hash t) ≡ 32) (map id_leaf txs)
    Wide-ids [] h = tt
    Wide-ids (tx ∷ rest) h = (h.0, Wide-ids rest h.1)

    -- Where a hash has 32 bytes, two lists of as many transactions, whose identifiers all have 32
    -- bytes and whose trees have the same root hash, have the same identifiers in the same order,
    -- unless a collision is at hand.
    pub transaction_root_binding :
        (xs ys : List Transaction) {t u : MerkleNode}
        → length xs ≡ length ys
        → All (λ id. length id ≡ 32) (ids xs)
        → All (λ id. length id ≡ 32) (ids ys)
        → transaction_trie sha256 xs ≡ some t
        → transaction_trie sha256 ys ≡ some u
        → node_hash t ≡ node_hash u
        → (ids xs ≡ ids ys) ⊎ Collision sha256
    unfolding transaction_trie
    transaction_root_binding xs ys l p q e k h =
        let ns = map id_leaf xs in
        let ms = map id_leaf ys in
        let nl = length-map id_leaf xs in
        let ml = length-map id_leaf ys in
        let k' = rw (← l) at k in
        let roots =
          hashes_of_head sha256 sized (merkle_loop sha256 (length xs) ns)
            (merkle_loop sha256 (length xs) ms)
            (length-loop sha256 (length xs) ns (omega (arith, nl)))
            (length-loop sha256 (length xs) ms (omega (arith, ml))) e k' h in
        elim (hashes-loop sha256 sized (length xs) ns ms (nl ∙ l ∙ sym ml) (Wide-ids xs p)
          (Wide-ids ys q) roots) [
            | inl same ↦ inl (sym (hashes-ids xs) ∙ same ∙ hashes-ids ys)
            | inr c ↦ inr c
          ]
