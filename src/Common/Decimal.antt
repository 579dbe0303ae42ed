-- ===== src/Common/Decimal.antt =====
-- The decimal digits of a number, as the language prints a `u64`.
use Prim.Native.String.{String, ◌++◌}
use Prim.Native.Nat.{ℕ, zero, suc, ◌*◌, ◌/◌, ◌%◌, ◌<◌}
use mathlib.Core.Path.{◌≡◌}
use native.Mathlib.Omega.{arith}
use aptosbft.Common.Tests.{ltb, ◌==◌, if◌then◌else◌}

abbrev digit : ℕ → String
digit n =
    if n == 0
    then "0"
    else if n == 1
    then "1"
    else if n == 2
    then "2"
    else if n == 3
    then "3"
    else if n == 4
    then "4"
    else if n == 5
    then "5"
    else if n == 6
    then "6"
    else if n == 7
    then "7"
    else if n == 8
    then "8"
    else "9"

-- With fuel, the number of the digits.
unfoldable pub digits : ℕ → ℕ → String
digits zero n = ""
digits (suc fuel) n =
    let front = digits fuel (n / 10) in if ltb n 10 then digit n else front ++ digit (n % 10)

-- A `u64` has at most 20 digits.
unfoldable pub show : ℕ → String
unfolding digits
show n = digits 20 n

abbrev pub pow10 : ℕ → ℕ
pow10 zero = 1
pow10 (suc n) = 10 * pow10 n

-- Fuel for the digits of a number is enough.
pub digits-suc :
    (fuel n : ℕ) → n < pow10 (suc fuel) → digits (suc fuel) n ≡ digits (suc (suc fuel)) n
unfolding digits
digits-suc zero n h = ground arith
digits-suc (suc fuel) n h = ground (arith, digits-suc fuel (n / 10))
