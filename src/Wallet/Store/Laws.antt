-- ===== src/Wallet/Store/Laws.antt =====
-- A wallet that is added is there after the file is loaded again.
use blockchain_test.Prelude.{
  ◌≡◌, ◌≢◌, refl, ap, ◌∙◌, true, none, some, String, ◌++◌, arith, lookup, insert, lookup-insert,
}
use text.Mathlib.TextEquality.{eq_iff}
use blockchain_test.Prelude.Bytes.{Bytes}
use blockchain_test.Outcome.{ok}
use blockchain_test.Wallet.{Crypto, Wallet, SerializableWallet, address, make_wallet}
use blockchain_test.Wallet.Store.{
  Wallets, Disk, holding, parsed, create_wallets, add_wallet, get_wallet,
}

module _ {Key : Type 0} (c : Crypto Key) where
  open c use {marshal_key, parse_key, encode_wallets, decode_wallets, of_bytes}

  -- On a disk that can be written, with a key that x509 can write and read back, and where gob gives
  -- the new wallets back, `AddWallet` returns the address of the new wallet. `CreateWallets` then
  -- finds the same wallets in the file; `GetWallet` of the address gives the new wallet, and of any
  -- other address what it gave before.
  pub get_wallet-add :
      (private : Key) (x y : Bytes) (ws : Wallets) (disk : Disk) (key : Bytes)
      → disk.writable ≡ true
      → marshal_key private ≡ some key
      → parse_key key ≡ some private
      → let w : Wallet Key = record { private_key = private; public_key = x ++ y } in
        let addr = of_bytes (address c w) in
        let ws' = insert addr (record { private_key = key; public_key = x ++ y }) ws in
        decode_wallets (encode_wallets ws') ≡ some ws'
        → (disk' : Disk) × (add_wallet c (some (private, x, y)) ws disk ≡ ok (addr, ws', disk'))
          × (create_wallets c disk' ≡ (none, ws'))
          × (get_wallet c addr ws' ≡ ok (some w))
          × ((other : String) → other ≢ addr → get_wallet c other ws' ≡ get_wallet c other ws)
  unfolding add_wallet create_wallets get_wallet make_wallet
  get_wallet-add private x y ws disk key can made back gob =
      let w : Wallet Key = record { private_key = private; public_key = x ++ y } in
      let addr = of_bytes (address c w) in
      let stored : SerializableWallet = record { private_key = key; public_key = x ++ y } in
      let ws' = insert addr stored ws in
      let same : lookup addr ws' ≡ some stored =
        lookup-insert addr addr stored ws ∙ ground (arith, eq_iff addr addr) in
      (
        record disk { file = holding (encode_wallets ws') },
        rw (made, can) refl,
        rw gob refl,
        rw (same, back) refl,
        λ other ne.
            let kept : lookup other ws' ≡ lookup other ws =
              lookup-insert addr other stored ws ∙ ground (arith, eq_iff addr other) in
            ap (parsed c) kept,
      )
