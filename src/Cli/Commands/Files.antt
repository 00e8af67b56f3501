-- ===== src/Cli/Commands/Files.antt =====
-- What `createwallet` does to a wallet file.
use blockchain_test.Prelude.{◌≡◌, refl, true, none, some, String, [], ◌∷◌, ◌++◌, insert, delete}
use blockchain_test.Prelude.Bytes.{Bytes}
use blockchain_test.Run.{returns}
use blockchain_test.Wallet.{Wallet, address, make_wallet}
use blockchain_test.Wallet.Store.{
  WalletFile, Wallets, missing, unreadable, holding, create_wallets, read_from, add_wallet,
  save_file, get_all_addresses,
}
use blockchain_test.Cli.{World, Event, Env, new_address, address_line}
use blockchain_test.Cli.Commands.{create_wallet, list_addresses}

module _ {Db Key : Type 0} (env : Env Db Key) where
  open env use {crypto}
  open crypto use {marshal_key, parse_key, encode_wallets, decode_wallets, of_bytes}

  -- The wallet and its address that a key pair makes, and what the file keeps of it.
  abbrev pub wallet_of : Key → Bytes → Wallet Key
  wallet_of private public = record { private_key = private; public_key = public }

  abbrev pub address_of : Key → Bytes → String
  address_of private public = of_bytes (address crypto (wallet_of private public))

  abbrev pub only : Key → Bytes → Bytes → Wallets
  only private key public =
      (address_of private public, record { private_key = key; public_key = public }) ∷ []

  -- The wallet file cannot be read, or gob does not decode it.
  abbrev pub IsBroken : WalletFile → Type 0
  IsBroken missing = ⊥
  IsBroken unreadable = Unit
  IsBroken (holding content) = decode_wallets content ≡ none

  read_from-IsBroken : (f : WalletFile) → IsBroken f → (read_from crypto [] f).1 ≡ []
  read_from-IsBroken missing h = absurd h
  read_from-IsBroken unreadable h = refl
  read_from-IsBroken (holding content) h = rw h refl

  -- With a new key that x509 can write, on a disk that can be written, where gob gives the new wallet
  -- back and a map of one wallet is visited in one way, `createWallet` over a wallet file that cannot
  -- be read or decoded returns, and the file then holds the new wallet alone: its address is all that
  -- `listAddresses` lists.
  pub create_wallet-overwrites :
      (private : Key) (x y key : Bytes) (e later : Event Key) (w : World Db)
      → IsBroken w.disk.file
      → w.disk.writable ≡ true
      → e.generated ≡ some (private, x, y)
      → marshal_key private ≡ some key
      → decode_wallets (encode_wallets (only private key (x ++ y)))
        ≡ some (only private key (x ++ y))
      → later.visit 0 (only private key (x ++ y)) ≡ only private key (x ++ y)
      → (w' : World Db) × (create_wallet env e w
          ≡ returns (w', new_address (address_of private (x ++ y)) ∷ []))
        × (w'.disk.file ≡ holding (encode_wallets (only private key (x ++ y))))
        × (list_addresses env later w' ≡ address_line (address_of private (x ++ y)) ∷ [])
  unfolding create_wallet add_wallet make_wallet save_file insert delete list_addresses
      get_all_addresses create_wallets
  create_wallet-overwrites private x y key e later w broken can made marshals gob order =
      let file = holding (encode_wallets (only private key (x ++ y))) in
      (
        record w { disk = record w.disk { file = file } },
        rw (made, marshals, read_from-IsBroken w.disk.file broken, can) refl,
        refl,
        rw (gob, order) refl,
      )
