-- ===== src/Wallet/Address.antt =====
-- Which addresses `ValidateAddress` accepts.
use blockchain_test.Prelude.{
  inl, inr, ℕ, ◌-◌, ◌≤◌, ◌≡◌, ◌↔◌, refl, sym, ap, ◌∙◌, true, false, some, String, [], ◌∷◌, ◌++◌,
  arith, length, length-append, length-take, take, drop, take-append, drop-append, take-append-drop,
  ltb, Bool-cases, Option-cases,
}
use blockchain_test.Prelude.Bytes.{Bytes, bytes_equal, bytes_equal-eq, bytes_equal_refl}
use blockchain_test.Outcome.{ok}
use blockchain_test.Wallet.{Crypto, Wallet, check_sum, check_full, address, validate_address}

module _ {Key : Type 0} (c : Crypto Key) where
  open c use {sha256, encode58, decode58, to_bytes, of_bytes}

  -- What the hash, base58 and the conversion of strings promise: a hash has 32 bytes, a decoded text
  -- is the encoded bytes, a text is at least as long as the bytes that it encodes, and a string is
  -- given back by its bytes.
  pub record Laws : Type 0 where
    pub sized : (b : Bytes) → length (sha256 b) ≡ 32
    pub decode-encode : (b : Bytes) → decode58 (encode58 b) ≡ some b
    pub encode-longer : (b : Bytes) → length b ≤ length (to_bytes (encode58 b))
    pub of_bytes-to_bytes : (text : String) → of_bytes (to_bytes text) ≡ text

  -- The bytes of an address: at least one byte, and their checksum.
  pub record Checked (full : Bytes) : Type 0 where
    pub payload : Bytes
    pub filled : 1 ≤ length payload
    pub parts : full ≡ payload ++ check_sum c payload

  module _ (laws : Laws) where
    length-check_sum : (b : Bytes) → length (check_sum c b) ≡ 4
    unfolding check_sum
    length-check_sum b = omega (arith, length-take 4 (sha256 (sha256 b)), laws.sized (sha256 b))

    check_payload : (v : ℕ) (p : Bytes) → check_full c (v ∷ (p ++ check_sum c (v ∷ p))) ≡ ok true
    unfolding check_full
    check_payload v p =
        let size = length-check_sum (v ∷ p) in
        let total = length-append p (check_sum c (v ∷ p)) in
        let long : ltb (length (p ++ check_sum c (v ∷ p))) 4 ≡ false = ground arith in
        let rest : length (p ++ check_sum c (v ∷ p)) - 4 ≡ length p = omega arith in
        rw
          (
            long,
            rest,
            drop-append p (check_sum c (v ∷ p)),
            take-append p (check_sum c (v ∷ p)),
            bytes_equal_refl (check_sum c (v ∷ p)),
          )
          refl

    check_filled :
        (payload : Bytes)
        → 1 ≤ length payload
        → check_full c (payload ++ check_sum c payload) ≡ ok true
    check_filled [] h = absurd (omega arith)
    check_filled (v ∷ p) h = check_payload v p

    check_full-Checked : (full : Bytes) → Checked full → check_full c full ≡ ok true
    check_full-Checked full r = ap (check_full c) r.parts ∙ check_filled r.payload r.filled

    Checked-check_full : (full : Bytes) → check_full c full ≡ ok true → Checked full
    unfolding check_full
    Checked-check_full [] h = absurd cc
    Checked-check_full (v ∷ rest) h =
        let n = length rest - 4 in
        elim (Bool-cases (ltb (length rest) 4)) [
          | inl short ↦ absurd (cc (rw short at h))
          | inr long ↦
              elim (Bool-cases (bytes_equal (drop n rest) (check_sum c (v ∷ take n rest)))) [
                | inl same ↦ record {
                  payload = v ∷ take n rest;
                  filled = omega arith;
                  parts =
                      ap (λ (r : Bytes). v ∷ r)
                        (sym (take-append-drop n rest)
                          ∙ ap (λ (r : Bytes). take n rest ++ r) (bytes_equal-eq _ _ same));
                }
                | inr other ↦ absurd (cc (rw (long, other) at h))
              ]
        ]

    long_enough :
        (addr : String) → 4 ≤ length (to_bytes addr) → ltb (length (to_bytes addr)) 4 ≡ false
    long_enough addr h = ground arith

    validate_decoded :
        (addr : String) (full : Bytes)
        → 4 ≤ length (to_bytes addr)
        → decode58 addr ≡ some full
        → validate_address c addr ≡ check_full c full
    unfolding validate_address
    validate_decoded addr full h e = rw (long_enough addr h, laws.of_bytes-to_bytes addr, e) refl

    accepted_parts :
        (addr : String)
        → validate_address c addr ≡ ok true
        → (4 ≤ length (to_bytes addr)) × (full : Bytes) × (decode58 addr ≡ some full) × Checked full
    unfolding validate_address
    accepted_parts addr h = elim (Bool-cases (ltb (length (to_bytes addr)) 4)) [
      | inl short ↦ absurd (cc (rw short at h))
      | inr long ↦ elim (Option-cases (decode58 addr)) [
        | inl bad ↦ absurd (cc (rw (long, laws.of_bytes-to_bytes addr, bad) at h))
        | inr (full, e) ↦
            let enough : 4 ≤ length (to_bytes addr) = ground arith in
            (
              enough,
              full,
              e,
              Checked-check_full full (sym (validate_decoded addr full enough e) ∙ h),
            )
      ]
    ]

    -- Under the laws, `ValidateAddress` accepts exactly the texts of at least four bytes that decode
    -- to a payload of at least one byte and the payload's checksum.
    pub validate_address_iff :
        (addr : String)
        → (validate_address c addr ≡ ok true) ↔ (
            (4 ≤ length (to_bytes addr))
            × (full : Bytes) × (decode58 addr ≡ some full)
            × Checked full)
    validate_address_iff addr =
        (accepted_parts addr, λ r. validate_decoded addr r.1 r.0 r.2 ∙ check_full-Checked r.1 r.3)

    -- Under the laws, every address that `Address` makes of a wallet passes `ValidateAddress`.
    pub validate_address-address :
        (w : Wallet Key) → validate_address c (of_bytes (address c w)) ≡ ok true
    unfolding address
    validate_address-address w =
        let payload = 0 ∷ c.ripemd160 (sha256 w.public_key) in
        let full = payload ++ check_sum c payload in
        let text = encode58 full in
        let size = length-append payload (check_sum c payload) in
        let enough : 4 ≤ length (to_bytes text) =
          omega (arith, laws.encode-longer full, size, length-check_sum payload) in
        ap (validate_address c) (laws.of_bytes-to_bytes text)
        ∙ validate_decoded text full enough (laws.decode-encode full)
        ∙ check_payload 0 (c.ripemd160 (sha256 w.public_key))
