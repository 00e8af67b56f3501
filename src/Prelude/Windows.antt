-- ===== src/Prelude/Windows.antt =====
-- Windows of a list, `take n (drop o xs)`, under a write.
use Prim.Native.Nat.{ℕ, zero, suc, ◌+◌, ◌<◌}
use mathlib.Core.Path.{◌≡◌, refl, ap}
use mathlib.Core.List.{List, [], ◌∷◌, ◌++◌}
use native.Mathlib.Omega.{arith}
use native.Mathlib.Nat.{zero-add, suc-add}
use blockchain_test.Prelude.Lists.{length, set, take, drop}

module _ {ℓ} {A : Type ℓ} where
  -- A write one past a prefix makes the prefix longer by the item.
  pub take-set_end :
      (xs : List A) (n : ℕ) (x : A)
      → n < length xs
      → take (suc n) (set xs n x) ≡ take n xs ++ x ∷ []
  take-set_end [] n x h = absurd (omega arith)
  take-set_end (y ∷ xs) zero x h = refl
  take-set_end (y ∷ xs) (suc n) x h = ap (λ t. y ∷ t) (take-set_end xs n x (omega arith))

  pub drop-set_add :
      (xs : List A) (o n : ℕ) (x : A) → drop o (set xs (o + n) x) ≡ set (drop o xs) n x
  drop-set_add xs zero n x = rw zero-add
  drop-set_add [] (suc o) n x = refl
  drop-set_add (y ∷ xs) (suc o) n x = rw suc-add (drop-set_add xs o n x)

  pub drop-drop : (xs : List A) (o n : ℕ) → drop n (drop o xs) ≡ drop (o + n) xs
  drop-drop xs zero n = rw zero-add
  drop-drop [] (suc o) zero = rw suc-add
  drop-drop [] (suc o) (suc n) = rw suc-add
  drop-drop (y ∷ xs) (suc o) n = rw suc-add (drop-drop xs o n)

  -- A write at the front of what is left.
  pub drop-set_self :
      (xs : List A) (o : ℕ) (x : A) → o < length xs → drop o (set xs o x) ≡ x ∷ drop (suc o) xs
  drop-set_self [] o x h = absurd (omega arith)
  drop-set_self (y ∷ xs) zero x h = refl
  drop-set_self (y ∷ xs) (suc o) x h = drop-set_self xs o x (omega arith)

  pub drop_tail : (xs : List A) (n : ℕ) → take n (drop 1 xs) ≡ drop 1 (take (suc n) xs)
  drop_tail [] zero = refl
  drop_tail [] (suc n) = refl
  drop_tail (x ∷ xs) n = refl
