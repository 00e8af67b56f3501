-- ===== src/Prelude/Wrapping.antt =====
-- Sums of `int` that wrap around do not depend on the order of the summands.
use blockchain_test.Prelude.{ℕ, ◌+◌, ◌%◌, ◌^◌, ◌<◌, ◌≡◌, sym, ap, ◌∙◌, arith}
use blockchain_test.Prelude.Int.{ℤ, pos, negsuc, ◌+ℤ◌, to_word, of_word, wrap64, add64}

to_word-add : (a b : ℤ) → to_word (a +ℤ b) ≡ (to_word a + to_word b) % 2 ^ 64
unfolding ◌+ℤ◌
to_word-add (pos m) (pos n) = ground arith
to_word-add (pos m) (negsuc n) = ground arith
to_word-add (negsuc m) (pos n) = ground arith
to_word-add (negsuc m) (negsuc n) = ground arith

to_word-of_word : (w : ℕ) → w < 2 ^ 64 → to_word (of_word w) ≡ w
to_word-of_word w p = ground arith

add64_word : (a b : ℤ) → add64 a b ≡ of_word ((to_word a + to_word b) % 2 ^ 64)
unfolding add64 wrap64
add64_word a b = ap of_word (to_word-add a b)

word_add64 : (a b : ℤ) → to_word (add64 a b) ≡ (to_word a + to_word b) % 2 ^ 64
word_add64 a b = ap to_word (add64_word a b) ∙ to_word-of_word _ (omega arith)

pub add64_swap : (a b c : ℤ) → add64 (add64 a b) c ≡ add64 (add64 a c) b
add64_swap a b c =
    add64_word (add64 a b) c
    ∙ ap of_word (rw (word_add64 a b, word_add64 a c) (omega arith))
    ∙ sym (add64_word (add64 a c) b)
