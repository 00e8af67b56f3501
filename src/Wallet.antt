-- ===== src/Wallet.antt =====
-- wallet/wallet.go and wallet/utils.go: key pairs, addresses and their check.
pub mod Address
pub mod Store
use blockchain_test.Prelude.{
  ℕ, ◌-◌, Bool, false, Option, none, some, String, List, [], ◌∷◌, ◌++◌, length, take, drop, ltb,
  if◌then◌else◌, Map,
}
use blockchain_test.Prelude.Bytes.{Bytes, bytes_equal}
use blockchain_test.Outcome.{Result, ok, panic, bad_base58, key_failed, slice_out_of_range, ◌>>=◌}

-- `SerializableWallet` of wallet/wallets.go
pub record SerializableWallet : Type 0 where
  pub private_key : Bytes
  pub public_key : Bytes

-- What the package calls and does not implement: the hashes, base58, x509 and gob. `to_bytes` and
-- `of_bytes` are the conversions between a string and its bytes.
pub record Crypto (Key : Type 0) : Type 0 where
  pub sha256 : Bytes → Bytes
  pub ripemd160 : Bytes → Bytes
  pub encode58 : Bytes → String
  pub decode58 : String → Option Bytes
  pub marshal_key : Key → Option Bytes
  pub parse_key : Bytes → Option Key
  pub encode_wallets : Map SerializableWallet → Bytes
  pub decode_wallets : Bytes → Option (Map SerializableWallet)
  pub to_bytes : String → Bytes
  pub of_bytes : Bytes → String

abbrev pub checksum_length : ℕ
checksum_length = 4

abbrev pub version : ℕ
version = 0

pub record Wallet (Key : Type 0) : Type 0 where
  pub private_key : Key
  pub public_key : Bytes

-- `ecdsa.GenerateKey` gives an error, or a key with the bytes of the two coordinates of its point.
abbrev pub Generated : Type 0 → Type 0
Generated Key = Option (Key × Bytes × Bytes)

abbrev pub or_bad_base58 : Option Bytes → Result Bytes
or_bad_base58 none = panic bad_base58
or_bad_base58 (some b) = ok b

module _ {Key : Type 0} (c : Crypto Key) where
  open c use {sha256, ripemd160, encode58, decode58, to_bytes, of_bytes}

  unfoldable pub base58_encode : Bytes → Bytes
  base58_encode input = to_bytes (encode58 input)

  unfoldable pub base58_decode : Bytes → Result Bytes
  base58_decode input = or_bad_base58 (decode58 (of_bytes input))

  -- The hasher of ripemd160 writes into memory, which does not fail.
  unfoldable pub public_key_hash : Bytes → Bytes
  public_key_hash pub_key = ripemd160 (sha256 pub_key)

  unfoldable pub check_sum : Bytes → Bytes
  check_sum payload = take checksum_length (sha256 (sha256 payload))

  unfoldable pub address : Wallet Key → Bytes
  unfolding base58_encode public_key_hash
  address w =
      let versioned_hash = version ∷ public_key_hash w.public_key in
      base58_encode (versioned_hash ++ check_sum versioned_hash)

  unfoldable pub new_key_pair : Generated Key → Result (Key × Bytes)
  new_key_pair none = panic key_failed
  new_key_pair (some (private, x, y)) = ok (private, x ++ y)

  unfoldable pub make_wallet : Generated Key → Result (Wallet Key)
  unfolding new_key_pair
  make_wallet g = new_key_pair g >>= λ r. ok (record { private_key = r.0; public_key = r.1 })

  -- The slices `fullHash[len-4:]`, `fullHash[0]` and `fullHash[1:len-4]` are in range from five bytes
  -- on.
  unfoldable pub check_full : Bytes → Result Bool
  unfolding check_sum
  check_full [] = panic slice_out_of_range
  check_full (v ∷ rest) =
      let n = length rest - checksum_length in
      if ltb (length rest) checksum_length
      then panic slice_out_of_range
      else ok (bytes_equal (drop n rest) (check_sum (v ∷ take n rest)))

  unfoldable pub validate_address : String → Result Bool
  unfolding base58_decode check_full
  validate_address addr =
      let checked = base58_decode (to_bytes addr) >>= check_full in
      if ltb (length (to_bytes addr)) checksum_length then ok false else checked
