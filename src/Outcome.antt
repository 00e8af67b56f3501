-- ===== src/Outcome.antt =====
-- How a call of the program ends: with a value, or by a panic, with the reason in the place of the
-- message that `log.Panic` or the runtime prints. The two exits by `os.Exit(1)` stand with the panics.
use blockchain_test.Prelude.{◌≡◌, refl}

pub data Panic : Type 0 where
  key_not_found decode_failed verification_failed nil_pointer : Panic
  address_locked not_enough_funds bad_hex : Panic
  index_out_of_range divide_by_zero slice_out_of_range : Panic
  bad_base58 bad_key bad_address write_failed key_failed : Panic
  not_positive bad_score bad_level blockchain_exists no_blockchain : Panic

-- A panic carries no value.
pub data Result {ℓ} (A : Type ℓ) : Type ℓ where
  panic : Panic → Result A
  ok : A → Result A

-- The next step runs where the first returns.
module _ {ℓ κ} {A : Type ℓ} {B : Type κ} where
  infixl 5 ◌>>=◌
  abbrev pub ◌>>=◌ : Result A → (A → Result B) → Result B
  panic reason >>= next = panic reason
  ok value >>= next = next value

  -- A chain of steps that returns has a first step that returns.
  pub >>=-eq-ok :
      (first : Result A) (next : A → Result B) {result : B}
      → (first >>= next) ≡ ok result
      → (value : A) × (first ≡ ok value) × (next value ≡ ok result)
  >>=-eq-ok (panic reason) next h = cc
  >>=-eq-ok (ok value) next h = (value, refl, h)

pub ok-injective {ℓ} : {A : Type ℓ} {a b : A} → ok a ≡ ok b → a ≡ b
ok-injective h = cc
