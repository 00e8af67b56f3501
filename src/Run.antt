-- ===== src/Run.antt =====
-- How a command ends that walks the chain: it returns, it ends the process, or its fuel is used up.
use blockchain_test.Prelude.{Option, none, some}
use blockchain_test.Outcome.{Panic, Result, ok, panic}

pub data Run {ℓ} (A : Type ℓ) : Type ℓ where
  unfinished : Run A
  fails : Panic → Run A
  returns : A → Run A

module _ {ℓ κ} {A : Type ℓ} {B : Type κ} where
  infixl 5 ◌>>=◌
  abbrev pub ◌>>=◌ : Run A → (A → Run B) → Run B
  unfinished >>= next = unfinished
  fails reason >>= next = fails reason
  returns value >>= next = next value

module _ {ℓ} {A : Type ℓ} where
  abbrev pub of_result : Result A → Run A
  of_result (panic reason) = fails reason
  of_result (ok value) = returns value

  -- `none` stands for fuel that is used up.
  abbrev pub of_walk : Option (Result A) → Run A
  of_walk none = unfinished
  of_walk (some r) = of_result r
