-- ===== src/Tests/Wallets.antt =====
-- Stand-ins for what the wallets call: hashes of 32 bytes, texts that can be read back, and keys that
-- are numbers.
use Prim.Native.Nat.{Ordering, compare as compare_ℕ}
use Prim.Native.Char.{Char, char, code, nul, IsLt}
use blockchain_test.Prelude.{
  ℕ, zero, suc, ◌+◌, ◌≤◌, ◌≡◌, ◌≢◌, ◌↔◌, refl, sym, ap, ◌∙◌, true, none, some, String, [], ◌∷◌,
  arith, length, insert, delete, if◌then◌else◌,
}
use blockchain_test.Prelude.Bytes.{Bytes, bytes_equal}
use blockchain_test.Outcome.{ok, panic, slice_out_of_range}
use blockchain_test.Wallet.{
  Crypto, Wallet, SerializableWallet, check_sum, check_full, address, validate_address,
}
use blockchain_test.Wallet.Address.{Laws, Checked, validate_address_iff, validate_address-address}
use blockchain_test.Wallet.Store.{Wallets, Disk, missing, create_wallets, add_wallet, get_wallet}
use blockchain_test.Wallet.Store.Laws.{get_wallet-add}
use blockchain_test.Tests.Toys.{toy_hash, toy_sized, unary, toy_hex, toy_unhex, toy_read-hex}

-- The three comparisons that make a number the code of a character.
abbrev BothLess : Ordering → Ordering → Type 0
BothLess Ordering.lt o = IsLt o
BothLess Ordering.eq _ = ⊥
BothLess Ordering.gt _ = ⊥

abbrev Scalar : Ordering → Ordering → Ordering → Type 0
Scalar Ordering.lt _ _ = Unit
Scalar Ordering.eq o p = BothLess o p
Scalar Ordering.gt o p = BothLess o p

abbrev when_scalar : (o p q : Ordering) → (Scalar o p q → Char) → Char
when_scalar Ordering.lt p q k = k tt
when_scalar Ordering.eq Ordering.lt Ordering.lt k = k tt
when_scalar Ordering.gt Ordering.lt Ordering.lt k = k tt
when_scalar _ _ _ k = nul

when_scalar_id :
    (o p q : Ordering) (k : Scalar o p q → Char) (h : Scalar o p q) → when_scalar o p q k ≡ k h
when_scalar_id Ordering.lt p q k h = refl
when_scalar_id Ordering.eq Ordering.lt Ordering.lt k h = refl
when_scalar_id Ordering.eq Ordering.lt Ordering.eq k h = absurd h
when_scalar_id Ordering.eq Ordering.lt Ordering.gt k h = absurd h
when_scalar_id Ordering.eq Ordering.eq q k h = absurd h
when_scalar_id Ordering.eq Ordering.gt q k h = absurd h
when_scalar_id Ordering.gt Ordering.lt Ordering.lt k h = refl
when_scalar_id Ordering.gt Ordering.lt Ordering.eq k h = absurd h
when_scalar_id Ordering.gt Ordering.lt Ordering.gt k h = absurd h
when_scalar_id Ordering.gt Ordering.eq q k h = absurd h
when_scalar_id Ordering.gt Ordering.gt q k h = absurd h

abbrev char_of : ℕ → Char
char_of n =
    when_scalar (compare_ℕ n 55296) (compare_ℕ 57343 n) (compare_ℕ n 1114112) (λ h. char n h)

char_of-code : (c : Char) → char_of (code c) ≡ c
char_of-code (char n h) =
    when_scalar_id (compare_ℕ n 55296) (compare_ℕ 57343 n) (compare_ℕ n 1114112) (λ h. char n h) h

abbrev codes : String → Bytes
codes String.[] = []
codes (String.◌∷◌ c s) = code c ∷ codes s

abbrev text_of : Bytes → String
text_of [] = ""
text_of (n ∷ b) = String.◌∷◌ (char_of n) (text_of b)

text_of-codes : (text : String) → text_of (codes text) ≡ text
text_of-codes String.[] = refl
text_of-codes (String.◌∷◌ c s) = rw (char_of-code c, text_of-codes s) refl

abbrev no_decoding : Crypto ℕ
no_decoding = record {
  sha256 = toy_hash;
  ripemd160 = λ b. 7 ∷ [];
  encode58 = toy_hex;
  decode58 = toy_unhex;
  marshal_key = λ key. some (key ∷ []);
  parse_key = λ b. some 3;
  encode_wallets = λ ws. 1 ∷ [];
  decode_wallets = λ b. none;
  to_bytes = codes;
  of_bytes = text_of;
}

abbrev wallet : Wallet ℕ
wallet = record { private_key = 3; public_key = 4 ∷ 5 ∷ [] }

abbrev pub own_address : String
own_address = text_of (address no_decoding wallet)

abbrev own_stored : SerializableWallet
own_stored = record { private_key = 3 ∷ []; public_key = 4 ∷ 5 ∷ [] }

abbrev pub own_wallets : Wallets
own_wallets = (own_address, own_stored) ∷ []

-- The content 1 holds the one wallet, and no other content can be decoded.
abbrev pub toy_crypto : Crypto ℕ
toy_crypto = record no_decoding {
  decode_wallets = λ b. if bytes_equal b (1 ∷ []) then some own_wallets else none;
}

length-unary :
    (n : ℕ) (rest : String) → length (codes (unary n rest)) ≡ n + suc (length (codes rest))
length-unary zero rest = omega arith
length-unary (suc n) rest = omega (arith, length-unary n rest)

longer-hex : (b : Bytes) → length b ≤ length (codes (toy_hex b))
longer-hex [] = omega arith
longer-hex (n ∷ b) = omega (arith, length-unary n (toy_hex b), longer-hex b)

pub toy_laws : Laws toy_crypto
toy_laws = record {
  sized = toy_sized;
  decode-encode = λ b. ap some (toy_read-hex b);
  encode-longer = longer-hex;
  of_bytes-to_bytes = text_of-codes;
}

same_address : text_of (address toy_crypto wallet) ≡ own_address
unfolding address check_sum bytes_equal
same_address = refl

validate_address_iff_example : (validate_address toy_crypto own_address ≡ ok true) ↔ (
    (4 ≤ length (codes own_address))
    × (full : Bytes) × (toy_unhex own_address ≡ some full)
    × Checked toy_crypto full)
validate_address_iff_example = validate_address_iff toy_crypto toy_laws own_address

-- Four characters that stand for two bytes.
panics_on_short : validate_address toy_crypto "abab" ≡ panic slice_out_of_range
unfolding validate_address check_full
panics_on_short = refl

validate_address-address_example :
    validate_address toy_crypto (text_of (address toy_crypto wallet)) ≡ ok true
validate_address-address_example = validate_address-address toy_crypto toy_laws wallet

pub own_address_valid : validate_address toy_crypto own_address ≡ ok true
own_address_valid =
    ap (validate_address toy_crypto) (sym same_address)
    ∙ validate_address-address toy_crypto toy_laws wallet

abbrev empty_disk : Disk
empty_disk = record { file = missing; writable = true }

get_wallet-add_example :
    let addr = text_of (address toy_crypto wallet) in
    let ws' = insert addr own_stored [] in
    (disk' : Disk) × (add_wallet toy_crypto (some (3, 4 ∷ [], 5 ∷ [])) [] empty_disk
      ≡ ok (addr, ws', disk'))
    × (create_wallets toy_crypto disk' ≡ (none, ws'))
    × (get_wallet toy_crypto addr ws' ≡ ok (some wallet))
    × ((other : String)
        → other ≢ addr
        → get_wallet toy_crypto other ws' ≡ get_wallet toy_crypto other [])
unfolding address check_sum insert delete bytes_equal
get_wallet-add_example =
    get_wallet-add toy_crypto 3 (4 ∷ []) (5 ∷ []) [] empty_disk (3 ∷ []) refl refl refl refl
