-- ===== src/Pow/Run.antt =====
-- `Run` finds the least nonce that meets the target, and what it finds `Validate` accepts.
use blockchain_test.Prelude.{
  ℕ, zero, suc, ◌+◌, ◌-◌, ◌≤◌, ◌<◌, ◌≡◌, refl, sym, ap, ◌∙◌, ◌⊎◌, inl, inr, Bool, true, false, none,
  arith, ltb, Bool-cases, lt→ltb, replicate,
}
use native.Mathlib.Decide.{dec_lt}
use blockchain_test.Prelude.Int.{ℤ, pos}
use blockchain_test.Prelude.Bytes.{Bytes, set_bytes}
use blockchain_test.Block.{Block, hash_transactions, prune_block_data}
use blockchain_test.Block.Roots.{hash_transactions_idem, IsConsistent, root-prune}
use blockchain_test.Pow.{ProofOfWork, new_proof, max_int64, init_data, run_loop, run, validate}

module _ (sha256 : Bytes → Bytes) where
  abbrev pub digest : ProofOfWork → ℕ → Bytes
  digest pow nonce = sha256 (init_data sha256 pow (pos nonce)).0

  abbrev pub meets : ProofOfWork → ℕ → Bool
  meets pow nonce = ltb (set_bytes 0 (digest pow nonce)) pow.target

  -- The proof of work on the block as `HashTransactions` leaves it.
  abbrev pub settled : ProofOfWork → ProofOfWork
  settled pow = record pow { block = (hash_transactions sha256 pow.block).1 }

  -- Storing the tree changes nothing that is hashed.
  init_data-settled :
      (pow : ProofOfWork) (n : ℕ)
      → init_data sha256 (settled pow) (pos n) ≡ init_data sha256 pow (pos n)
  unfolding init_data
  init_data-settled pow n = rw (hash_transactions_idem sha256 pow.block)

  -- What the loop promises from `nonce` on: every nonce that it passed misses the target, and it
  -- stops at one that meets it or at the largest int64.
  pub record Found (pow : ProofOfWork) (start : ℕ) (r : ℕ × Bytes × Block) : Type 0 where
    pub from : start ≤ r.0
    pub bounded : r.0 ≤ max_int64
    pub passed : (k : ℕ) → start ≤ k → k < r.0 → meets pow k ≡ false
    pub stopped : r.0 < max_int64 → (meets pow r.0 ≡ true) × (r.1 ≡ digest pow r.0)
    pub kept : (r.2 ≡ pow.block) ⊎ (r.2 ≡ (settled pow).block)

  meets-settled : (pow : ProofOfWork) (k : ℕ) → meets (settled pow) k ≡ meets pow k
  meets-settled pow k =
      ap (λ (r : Bytes × Block). ltb (set_bytes 0 (sha256 r.0)) pow.target)
        (init_data-settled pow k)

  digest-settled : (pow : ProofOfWork) (k : ℕ) → digest (settled pow) k ≡ digest pow k
  digest-settled pow k = ap (λ (r : Bytes × Block). sha256 r.0) (init_data-settled pow k)

  kept_block :
      (pow : ProofOfWork) (b : Block)
      → (b ≡ (settled pow).block) ⊎ (b ≡ (settled (settled pow)).block)
      → b ≡ (settled pow).block
  kept_block pow b (inl e) = e
  kept_block pow b (inr e) =
      e ∙ ap (λ (r : Bytes × Block). r.1) (hash_transactions_idem sha256 pow.block)

  widen :
      (pow : ProofOfWork) (nonce : ℕ) (r : ℕ × Bytes × Block)
      → meets pow nonce ≡ false
      → Found (settled pow) (nonce + 1) r
      → Found pow nonce r
  widen pow nonce r miss t = record {
    from = omega (arith, t.from);
    bounded = t.bounded;
    passed = λ k p q. elim (dec_lt nonce k) [
      | yes later ↦ sym (meets-settled pow k) ∙ t.passed k (omega arith) q
      | no now ↦ let e : k ≡ nonce = omega arith in rw e miss
    ];
    stopped = λ p.
        (sym (meets-settled pow r.0) ∙ (t.stopped p).0, (t.stopped p).1 ∙ digest-settled pow r.0);
    kept = inr (kept_block pow r.2 t.kept);
  }

  run_loop-Found :
      (f : ℕ) (pow : ProofOfWork) (nonce : ℕ) (h : Bytes)
      → f + nonce ≡ max_int64
      → Found pow nonce (run_loop sha256 f pow nonce h)
  unfolding run_loop init_data
  run_loop-Found zero pow nonce h e = record {
    from = omega arith;
    bounded = omega arith;
    passed = λ k p q. absurd (omega arith);
    stopped = λ p. absurd (omega arith);
    kept = inl refl;
  }
  run_loop-Found (suc f) pow nonce h e =
      let more = lt→ltb nonce max_int64 (omega arith) in
      elim (Bool-cases (meets pow nonce)) [
        | inl hit ↦
            rw (more, hit)
              (record {
                from = omega arith;
                bounded = omega arith;
                passed = λ k p q. absurd (omega arith);
                stopped = λ p. (hit, refl);
                kept = inr refl;
              })
        | inr miss ↦
            let rest =
              run_loop-Found f (record pow { block = (init_data sha256 pow (pos nonce)).1 })
                (nonce + 1) (digest pow nonce) (omega arith) in
            rw (more, miss) (widen pow nonce _ miss rest)
      ]

  -- From a start of at most the largest int64, `Run` passes over every nonce that misses the target,
  -- and stops at the first that meets it, with its hash, or at the largest int64.
  pub run-Found :
      (pow : ProofOfWork) (start : ℕ) → start ≤ max_int64 → Found pow start (run sha256 pow start)
  unfolding run
  run-Found pow start h =
      run_loop-Found (max_int64 - start) pow start (replicate 32 0) (omega arith)

  -- If some nonce from the start on meets the target, `Run` returns one that does.
  pub run-meets :
      (pow : ProofOfWork) (start k : ℕ)
      → start ≤ k
      → k < max_int64
      → meets pow k ≡ true
      → meets pow (run sha256 pow start).0 ≡ true
  run-meets pow start k p q hit =
      let found = run-Found pow start (omega arith) in
      let n = (run sha256 pow start).0 in
      elim (dec_lt n max_int64) [
        | yes inside ↦ (found.stopped inside).0
        | no outside ↦ cc (hit, found.passed k p (omega arith))
      ]

  -- Neither the hash nor the nonce of a block is part of what is hashed.
  init_data-sealed :
      (b : Block) (h : Bytes) (z : ℤ) (n : ℕ)
      → (init_data sha256 (new_proof (record b { hash = h; nonce = z })) (pos n)).0
        ≡ (init_data sha256 (new_proof b) (pos n)).0
  unfolding init_data new_proof hash_transactions
  init_data-sealed b h z n = ground arith

  -- If some nonce from the start on meets the target, `Validate` accepts the block with the nonce
  -- that `Run` returns, whatever hash is stored in it.
  pub validate-run :
      (b : Block) (h : Bytes) (start k : ℕ)
      → start ≤ k
      → k < max_int64
      → meets (new_proof b) k ≡ true
      → (validate sha256
          (new_proof (record b { hash = h; nonce = pos (run sha256 (new_proof b) start).0 }))).0
        ≡ true
  unfolding validate new_proof
  validate-run b h start k p q hit =
      let n = (run sha256 (new_proof b) start).0 in
      rw (init_data-sealed b h (pos n) n) (run-meets (new_proof b) start k p q hit)

  init_data-prune :
      (b : Block) (z : ℤ)
      → (b.tx_trie ≡ none) ⊎ IsConsistent sha256 b
      → (init_data sha256 (new_proof (prune_block_data b)) z).0
        ≡ (init_data sha256 (new_proof b) z).0
  unfolding init_data new_proof prune_block_data hash_transactions
  init_data-prune b z h = ground (arith, root-prune sha256 b h)

  -- Pruning keeps the proof of work: `Validate` says the same of the pruned block as of the block,
  -- if that stored no tree or the tree over its own transactions.
  pub validate-prune :
      (b : Block)
      → (b.tx_trie ≡ none) ⊎ IsConsistent sha256 b
      → (validate sha256 (new_proof (prune_block_data b))).0 ≡ (validate sha256 (new_proof b)).0
  unfolding validate new_proof prune_block_data
  validate-prune b h = rw (init_data-prune b b.nonce h)
