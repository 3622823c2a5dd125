-- ===== src/Base/Decimal.antt =====
-- Decimal numerals, as `%d` prints them.
use Prim.Native.Nat.{ℕ, zero, suc, ◌+◌, ◌/◌, ◌%◌}
use mathlib.Core.Path.{◌≡◌, refl}
use mathlib.Core.List.{[], ◌∷◌}
use cappu.Base.Tests.{ltb, if◌then◌else◌}
use cappu.Base.Strings.{Text, codes}

-- The digits of a number in front of others; one more step than the number is fuel enough.
unfoldable pub digits : ℕ → ℕ → Text → Text
digits zero n after = after
digits (suc fuel) n after =
    let rest = digits fuel (n / 10) ((48 + n % 10) ∷ after) in
    if ltb n 10 then (48 + n) ∷ after else rest

unfoldable pub decimal : ℕ → Text
unfolding digits
decimal n = digits (suc n) n []

test_decimal : decimal 1203 ≡ codes "1203"
unfolding decimal
test_decimal = refl
