-- ===== src/Bloom/Members.antt =====
-- What the filter remembers: everything that was added, in its first 256 bits.
use blockchain_test.Prelude.{
  inl, inr, ℕ, zero, suc, ◌+◌, ◌%◌, ◌≤◌, ◌<◌, ◌≡◌, refl, sym, ap, ◌∙◌, Bool, true, false, List, [],
  ◌∷◌, ◌++◌, arith, length, set, replicate, All, length-set, length-replicate, ◌==◌, Bool-cases,
}
use blockchain_test.Prelude.Bytes.{Bytes}
use blockchain_test.Outcome.{Result, ok, ok-injective, ◌>>=◌, >>=-eq-ok}
use blockchain_test.Bloom.{
  BloomFilter, new_bloom_filter, first_byte, bit_at, index_of, add_rounds, add, contains_rounds,
  contains,
}

set-keeps : (bits : List Bool) (i j : ℕ) → bit_at bits j ≡ true → bit_at (set bits i true) j ≡ true
set-keeps [] i j h = h
set-keeps (b ∷ bits) zero zero h = refl
set-keeps (b ∷ bits) zero (suc j) h = h
set-keeps (b ∷ bits) (suc i) zero h = h
set-keeps (b ∷ bits) (suc i) (suc j) h = set-keeps bits i j h

set-sets : (bits : List Bool) (i : ℕ) → i < length bits → bit_at (set bits i true) i ≡ true
set-sets [] i h = absurd (omega arith)
set-sets (b ∷ bits) zero h = refl
set-sets (b ∷ bits) (suc i) h = set-sets bits i (omega arith)

set-other : (bits : List Bool) (i j : ℕ) → i < j → bit_at (set bits i true) j ≡ bit_at bits j
set-other [] i j h = refl
set-other (b ∷ bits) zero zero h = absurd (omega arith)
set-other (b ∷ bits) zero (suc j) h = refl
set-other (b ∷ bits) (suc i) zero h = absurd (omega arith)
set-other (b ∷ bits) (suc i) (suc j) h = set-other bits i j (omega arith)

bit_at-replicate : (n j : ℕ) → bit_at (replicate n false) j ≡ false
bit_at-replicate zero j = refl
bit_at-replicate (suc n) zero = refl
bit_at-replicate (suc n) (suc j) = bit_at-replicate n j

-- As many bits, and those that were set still are.
record Grows (a b : List Bool) : Type 0 where
  size : length b ≡ length a
  kept : (j : ℕ) → bit_at a j ≡ true → bit_at b j ≡ true

not_empty : (bits : List Bool) → 0 < length bits → (length bits == 0) ≡ false
not_empty bits h = ground arith

-- Every item added, one after the other.
abbrev pub add_all : (Bytes → Bytes) → List Bytes → BloomFilter → Result BloomFilter
add_all sha256 [] bf = ok bf
add_all sha256 (x ∷ xs) bf = add sha256 x bf >>= λ grown. add_all sha256 xs grown

module _ (sha256 : Bytes → Bytes) where
  contains_rounds-Grows :
      (k i : ℕ) (item : Bytes) (a b : List Bool)
      → 0 < length a
      → Grows a b
      → contains_rounds sha256 k i item a ≡ ok true
      → contains_rounds sha256 k i item b ≡ ok true
  unfolding contains_rounds
  contains_rounds-Grows zero i item a b h g e = refl
  contains_rounds-Grows (suc k) i item a b h g e =
      let n = index_of sha256 (length a) item i in
      elim (Bool-cases (bit_at a n)) [
        | inl on ↦
            let e' : contains_rounds sha256 k (i + 1) item a ≡ ok true =
              sym (rw (not_empty a h, on) refl) ∙ e in
            rw (g.size, not_empty a h, g.kept n on)
              (contains_rounds-Grows k (i + 1) item a b h g e')
        | inr off ↦
            let no : ok false ≡ ok true = sym (rw (not_empty a h, off) refl) ∙ e in absurd cc
      ]

  add_rounds-contains :
      (k i : ℕ) (item : Bytes) (a : List Bool)
      → 0 < length a
      → (b : List Bool) × (add_rounds sha256 k i item a ≡ ok b)
        × Grows a b
        × (contains_rounds sha256 k i item b ≡ ok true)
  unfolding add_rounds contains_rounds
  add_rounds-contains zero i item a h = (a, refl, record { size = refl; kept = λ j e. e }, refl)
  add_rounds-contains (suc k) i item a h =
      let n = index_of sha256 (length a) item i in
      let size = length-set a n true in
      let (b, e, g, c) = add_rounds-contains k (i + 1) item (set a n true) (omega (arith, size)) in
      let on = g.kept n (set-sets a n (omega arith)) in
      (
        b,
        rw (not_empty a h) e,
        record { size = g.size ∙ size; kept = λ j z. g.kept j (set-keeps a n j z) },
        rw (g.size, size, not_empty a h, on) c,
      )

  add_all-keeps :
      (items : List Bytes) (bf : BloomFilter)
      → 0 < length bf.bits
      → (bf' : BloomFilter) × (add_all sha256 items bf ≡ ok bf')
        × ((item : Bytes) → contains sha256 item bf ≡ ok true → contains sha256 item bf' ≡ ok true)
        × All (λ item. contains sha256 item bf' ≡ ok true) items
  unfolding add contains
  add_all-keeps [] bf h = (bf, refl, (λ item e. e), tt)
  add_all-keeps (x ∷ xs) bf h =
      let (b, e, g, c) = add_rounds-contains bf.num_hash 0 x bf.bits h in
      let grown : BloomFilter = record { bits = b; num_hash = bf.num_hash } in
      let (bf', e', keeps, all) = add_all-keeps xs grown (omega (arith, g.size)) in
      (
        bf',
        rw e e',
        (λ item z. keeps item (contains_rounds-Grows bf.num_hash 0 item bf.bits b h g z)),
        (keeps x c, all),
      )

  -- A new filter with at least one bit takes any items without failing, and then contains each of
  -- them.
  pub contains-add_all :
      (size num_hash : ℕ) (items : List Bytes)
      → 0 < size
      → (bf : BloomFilter) × (add_all sha256 items (new_bloom_filter size num_hash) ≡ ok bf)
        × All (λ item. contains sha256 item bf ≡ ok true) items
  unfolding new_bloom_filter
  contains-add_all size num_hash items h =
      let (bf, e, keeps, all) =
        add_all-keeps items (new_bloom_filter size num_hash)
          (omega (arith, length-replicate {A = Bool} size false)) in
      (bf, e, all)

  module _ (bytes : (b : Bytes) → first_byte (sha256 b) < 256) where
    add_rounds-high :
        (k i : ℕ) (item : Bytes) (a b : List Bool) (j : ℕ)
        → add_rounds sha256 k i item a ≡ ok b
        → 256 ≤ j
        → bit_at b j ≡ bit_at a j
    unfolding add_rounds
    add_rounds-high zero i item a b j e h = cc
    add_rounds-high (suc k) i item a b j e h = elim (Bool-cases (length a == 0)) [
      | inl empty ↦ absurd (cc (rw empty at e))
      | inr some_bits ↦
          let n = index_of sha256 (length a) item i in
          let e' : add_rounds sha256 k (i + 1) item (set a n true) ≡ ok b = rw some_bits at e in
          let small : n < 256 = omega (arith, bytes (item ++ (i % 256) ∷ [])) in
          add_rounds-high k (i + 1) item (set a n true) b j e' h ∙ set-other a n j (omega arith)
    ]

    add_all-high :
        (items : List Bytes) (bf bf' : BloomFilter) (j : ℕ)
        → add_all sha256 items bf ≡ ok bf'
        → 256 ≤ j
        → bit_at bf'.bits j ≡ bit_at bf.bits j
    unfolding add
    add_all-high [] bf bf' j e h = cc
    add_all-high (x ∷ xs) bf bf' j e h =
        let (mid, first, later) =
          >>=-eq-ok (add sha256 x bf) (λ grown. add_all sha256 xs grown) e in
        let (b, rounds, same) =
          >>=-eq-ok (add_rounds sha256 bf.num_hash 0 x bf.bits)
            (λ bits. ok (record { bits = bits; num_hash = bf.num_hash })) first in
        let mid_bits : mid.bits ≡ b = sym (ap BloomFilter.bits (ok-injective same)) in
        add_all-high xs mid bf' j later h
        ∙ ap (λ bits. bit_at bits j) mid_bits
        ∙ add_rounds-high bf.num_hash 0 x bf.bits b j rounds h

    -- Where the bytes of a hash are below 256, whatever is added to a new filter leaves every bit
    -- from 256 on as it was, unset.
    pub add_all-high_bits :
        (size num_hash : ℕ) (items : List Bytes) (bf : BloomFilter) (j : ℕ)
        → add_all sha256 items (new_bloom_filter size num_hash) ≡ ok bf
        → 256 ≤ j
        → bit_at bf.bits j ≡ false
    unfolding new_bloom_filter
    add_all-high_bits size num_hash items bf j e h =
        add_all-high items (new_bloom_filter size num_hash) bf j e h ∙ bit_at-replicate size j
