-- ===== src/Wallet/Store.antt =====
-- wallet/wallets.go: the wallets by address, and the file that keeps them.
pub mod Laws
use blockchain_test.Prelude.{
  Bool, true, false, Option, none, some, String, List, [], ◌∷◌, if◌then◌else◌, Map, lookup, insert,
}
use blockchain_test.Prelude.Bytes.{Bytes}
use blockchain_test.Outcome.{Result, ok, panic, bad_key, write_failed, ◌>>=◌}
use blockchain_test.Wallet.{Crypto, Wallet, SerializableWallet, Generated, address, make_wallet}

-- `walletFile` on the disk.
pub data WalletFile : Type 0 where
  missing unreadable : WalletFile
  holding : Bytes → WalletFile

pub record Disk : Type 0 where
  pub file : WalletFile
  -- `ioutil.WriteFile` succeeds
  pub writable : Bool

pub data LoadError : Type 0 where
  not_exist read_error decode_error : LoadError

abbrev pub Wallets : Type 0
Wallets = Map SerializableWallet

abbrev pub or_bad_key {ℓ} : {A : Type ℓ} → Option A → Result A
or_bad_key none = panic bad_key
or_bad_key (some a) = ok a

-- The addresses, in the order in which `range` visits the map.
unfoldable pub get_all_addresses : Wallets → List String
get_all_addresses [] = []
get_all_addresses ((addr, w) ∷ ws) = addr ∷ get_all_addresses ws

module _ {Key : Type 0} (c : Crypto Key) where
  open c use {marshal_key, parse_key, encode_wallets, decode_wallets, of_bytes}

  abbrev pub decoded : Wallets → Option Wallets → Option LoadError × Wallets
  decoded ws none = (some decode_error, ws)
  decoded ws (some stored) = (none, stored)

  abbrev pub read_from : Wallets → WalletFile → Option LoadError × Wallets
  read_from ws missing = (some not_exist, ws)
  read_from ws unreadable = (some read_error, ws)
  read_from ws (holding content) = decoded ws (decode_wallets content)

  -- The error, and the wallets after the call.
  unfoldable pub load_file : Disk → Wallets → Option LoadError × Wallets
  load_file disk ws = read_from ws disk.file

  unfoldable pub save_file : Wallets → Disk → Result Disk
  save_file ws disk =
      if disk.writable
      then ok (record disk { file = holding (encode_wallets ws) })
      else panic write_failed

  unfoldable pub create_wallets : Disk → Option LoadError × Wallets
  unfolding load_file
  create_wallets disk = load_file disk []

  unfoldable pub add_wallet : Generated Key → Wallets → Disk → Result (String × Wallets × Disk)
  unfolding save_file
  add_wallet g ws disk = make_wallet c g >>= λ w. or_bad_key (marshal_key w.private_key) >>= λ key.
      let addr = of_bytes (address c w) in
      let ws' = insert addr (record { private_key = key; public_key = w.public_key }) ws in
      save_file ws' disk >>= λ disk'. ok (addr, ws', disk')

  abbrev pub parsed : Option SerializableWallet → Result (Option (Wallet Key))
  parsed none = ok none
  parsed (some stored) = or_bad_key (parse_key stored.private_key) >>= λ key.
      ok (some (record { private_key = key; public_key = stored.public_key }))

  -- `none` is the pointer nil.
  unfoldable pub get_wallet : String → Wallets → Result (Option (Wallet Key))
  get_wallet addr ws = parsed (lookup addr ws)
