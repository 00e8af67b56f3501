-- ===== src/Cli/Atoi.antt =====
-- `strconv.Atoi` as the menu uses it: an optional sign, then decimal digits, within the range of `int`.
use Prim.Native.Char.{Char, code}
use blockchain_test.Prelude.{
  ℕ, zero, suc, ◌+◌, ◌-◌, ◌*◌, ◌^◌, ◌&&◌, Option, none, some, String, ltb, leb, ◌==◌, if◌then◌else◌,
}
use blockchain_test.Prelude.Int.{ℤ, pos, negsuc}

abbrev pub digit_of : Char → Option ℕ
digit_of c = if leb 48 (code c) && leb (code c) 57 then some (code c - 48) else none

abbrev pub with_digit : Option ℕ → (ℕ → Option ℕ) → Option ℕ
with_digit none rest = none
with_digit (some d) rest = rest d

unfoldable pub digits : ℕ → String → Option ℕ
digits total String.[] = some total
digits total (String.◌∷◌ c s) = with_digit (digit_of c) (λ d. digits (total * 10 + d) s)

-- There is at least one digit.
abbrev pub magnitude : String → Option ℕ
magnitude String.[] = none
magnitude (String.◌∷◌ c s) = digits 0 (String.◌∷◌ c s)

abbrev pub positive : Option ℕ → Option ℤ
positive none = none
positive (some n) = if ltb n (2 ^ 63) then some (pos n) else none

abbrev pub minus : ℕ → ℤ
minus zero = pos 0
minus (suc n) = negsuc n

abbrev pub negative : Option ℕ → Option ℤ
negative none = none
negative (some n) = if leb n (2 ^ 63) then some (minus n) else none

unfoldable pub atoi : String → Option ℤ
unfolding digits
atoi String.[] = none
atoi (String.◌∷◌ c s) =
    if code c == 45
    then negative (magnitude s)
    else if code c == 43
    then positive (magnitude s)
    else positive (magnitude (String.◌∷◌ c s))
