-- ===== src/Tests/Mining.antt =====
-- Mining, and the bytes that are hashed.
use blockchain_test.Prelude.{◌≡◌, refl, inl, true, [], ◌∷◌, arith}
use blockchain_test.Prelude.Int.{pos, negsuc, of_word}
use blockchain_test.Prelude.Bytes.{set_bytes}
use blockchain_test.Block.{prune_block_data}
use blockchain_test.Block.Create.{prepare_block, create_block}
use blockchain_test.Block.Create.Laws.{create_block-valid, state_root_ignores_time}
use blockchain_test.Block.Roots.{IsConsistent}
use blockchain_test.Pow.{new_proof, to_hex, run, validate, init_data}
use blockchain_test.Pow.Run.{Found, run-Found, validate-prune}
use blockchain_test.Pow.Target.{to_hex_roundtrip}
use blockchain_test.Tests.Toys.{toy_hash, toy_meets, toy_floats, reward, first_block}

run-Found_example :
    Found toy_hash (new_proof first_block) 9_999 (run toy_hash (new_proof first_block) 9_999)
run-Found_example = run-Found toy_hash (new_proof first_block) 9_999 (omega arith)

create_block-valid_example :
    let b = create_block toy_hash toy_floats (reward ∷ []) (10 ∷ []) (pos 1_700_000_000) 5 in
    ((validate toy_hash (new_proof b)).0 ≡ true)
    × (b.prev_hash ≡ 10 ∷ [])
    × (b.transactions ≡ reward ∷ [])
    × (b.timestamp ≡ pos 1_700_000_000)
    × IsConsistent toy_hash b
create_block-valid_example =
    create_block-valid toy_hash toy_floats (reward ∷ []) (10 ∷ []) (pos 1_700_000_000) 5 6
      (omega arith) (omega arith)
      (toy_meets (prepare_block toy_hash toy_floats (reward ∷ []) (10 ∷ []) (pos 1_700_000_000))
        (init_data toy_hash
          (new_proof
            (prepare_block toy_hash toy_floats (reward ∷ []) (10 ∷ []) (pos 1_700_000_000)))
          (pos 6)).0)

state_root_ignores_time_example :
    (create_block toy_hash toy_floats (reward ∷ []) [] (pos 1_700_000_000) 5).state_root
    ≡ (create_block toy_hash toy_floats (reward ∷ []) [] (pos 1_800_000_000) 6).state_root
state_root_ignores_time_example =
    state_root_ignores_time toy_hash toy_floats (reward ∷ []) [] 1_700_000_000 1_800_000_000 5 6
      (omega arith) (omega arith) (omega arith) (omega arith)

validate-prune_example :
    (validate toy_hash (new_proof (prune_block_data first_block))).0
    ≡ (validate toy_hash (new_proof first_block)).0
validate-prune_example = validate-prune toy_hash first_block (inl refl)

to_hex_roundtrip_example : of_word (set_bytes 0 (to_hex (negsuc 41))) ≡ negsuc 41
to_hex_roundtrip_example = to_hex_roundtrip (negsuc 41) (omega arith)

to_hex_twelve : to_hex (pos 12) ≡ 0 ∷ 0 ∷ 0 ∷ 0 ∷ 0 ∷ 0 ∷ 0 ∷ 12 ∷ []
unfolding to_hex
to_hex_twelve = refl
