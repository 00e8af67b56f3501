-- ===== src/Tests/Toys.antt =====
-- A stand-in for each parameter: a hash of 32 bytes, a hex encoding that can be read back, and
-- transactions between two addresses.
use Prim.Native.Char.{code}
use mathlib.Core.Path.{◌∙◌}
use blockchain_test.Prelude.{
  ℕ, zero, suc, ◌+◌, ◌%◌, ◌≡◌, refl, sym, ap, true, Option, none, some, String, List, [], ◌∷◌, ◌++◌,
  arith, length, replicate, ◌==◌, ltb, leb, if◌then◌else◌,
}
use blockchain_test.Prelude.Int.{pos, negsuc}
use blockchain_test.Prelude.Bytes.{Bytes, set_bytes}
use blockchain_test.Prelude.Float.{FloatOps}
use blockchain_test.Tx.{Transaction, TxOutput}
use blockchain_test.Block.{Block}
use blockchain_test.Pow.{new_proof}
use blockchain_test.Transfer.{Platform}

abbrev byte_sum : Bytes → ℕ
byte_sum [] = 0
byte_sum (x ∷ xs) = x + byte_sum xs

-- Thirty-one zeros and the sum of the bytes.
abbrev pub toy_hash : Bytes → Bytes
toy_hash b = replicate 31 0 ++ (byte_sum b % 256) ∷ []

pub toy_sized : (b : Bytes) → length (toy_hash b) ≡ 32
toy_sized b = refl

-- Every such hash is below the target.
pub toy_meets :
    (block : Block) (b : Bytes) → ltb (set_bytes 0 (toy_hash b)) (new_proof block).target ≡ true
unfolding set_bytes new_proof
toy_meets block b = ground arith

abbrev pub toy_floats : FloatOps
toy_floats = record {
  add = λ a b. a + b;
  sub = λ a b. a;
  mul = λ a b. a;
  div = λ a b. a;
  lt = λ a b. ltb a b;
  le = λ a b. leb a b;
  eq = λ a b. a == b;
  to_int = λ a. pos a;
  min = λ a b. if ltb a b then a else b;
  max = λ a b. if ltb a b then b else a;
  of_int = λ z. 0;
  literal = λ n k. n;
}

-- Each byte is written as that many `a`, then `b`.
abbrev pub unary : ℕ → String → String
unary zero rest = String.◌∷◌ "b" rest
unary (suc n) rest = String.◌∷◌ "a" (unary n rest)

abbrev pub toy_hex : Bytes → String
toy_hex [] = ""
toy_hex (x ∷ xs) = unary x (toy_hex xs)

abbrev toy_read : ℕ → String → Bytes
toy_read n String.[] = []
toy_read n (String.◌∷◌ c s) =
    let more = toy_read (n + 1) s in
    let next = toy_read 0 s in if code c == 97 then more else n ∷ next

abbrev pub toy_unhex : String → Option Bytes
toy_unhex s = some (toy_read 0 s)

toy_read-unary : (n x : ℕ) (rest : String) → toy_read n (unary x rest) ≡ (n + x) ∷ toy_read 0 rest
toy_read-unary n zero rest = ground arith
toy_read-unary n (suc x) rest = toy_read-unary (n + 1) x rest ∙ ground arith

pub toy_read-hex : (b : Bytes) → toy_read 0 (toy_hex b) ≡ b
toy_read-hex [] = refl
toy_read-hex (x ∷ xs) = toy_read-unary 0 x (toy_hex xs) ∙ ground (arith, toy_read-hex xs)

pub toy_hex_injective : (a b : Bytes) → toy_hex a ≡ toy_hex b → a ≡ b
toy_hex_injective a b h = sym (toy_read-hex a) ∙ ap (toy_read 0) h ∙ toy_read-hex b

abbrev pub toy_platform : Platform
toy_platform = record {
  sha256 = toy_hash;
  encode_tx = λ tx. [];
  hex = toy_hex;
  unhex = toy_unhex;
  visit = λ m. m;
}

abbrev pub paid : String → ℕ → TxOutput
paid to n = record { value = pos n; pub_key = to; metadata = none }

-- 100 coins for "ann", out of nothing.
abbrev pub reward : Transaction
reward = record {
  id = 1 ∷ [];
  inputs = record { id = []; out_index = negsuc 0; signature = "first"; state_proof = none } ∷ [];
  outputs = paid "ann" 100 ∷ [];
  timestamp = pos 7;
  signature = none;
  lock_time = pos 0;
  state_proof = none;
}

-- "ann" pays herself 30 and keeps the change of 70.
abbrev pub self_payment : Transaction
self_payment = record {
  id = 2 ∷ [];
  inputs = record { id = 1 ∷ []; out_index = pos 0; signature = "ann"; state_proof = none } ∷ [];
  outputs = paid "ann" 30 ∷ paid "ann" 70 ∷ [];
  timestamp = pos 8;
  signature = none;
  lock_time = pos 0;
  state_proof = none;
}

abbrev pub block_of : Bytes → Bytes → List Transaction → Block
block_of hash prev txs = record {
  hash = hash;
  transactions = txs;
  prev_hash = prev;
  nonce = pos 0;
  timestamp = pos 1_700_000_000;
  state_root = [];
  accumulator_root = [];
  tx_trie = none;
  entropy_value = 0;
}

abbrev pub first_block : Block
first_block = block_of (10 ∷ []) [] (reward ∷ [])

abbrev pub second_block : Block
second_block = block_of (11 ∷ []) (10 ∷ []) (self_payment ∷ [])
