-- ===== src/Prelude/Decimal.antt =====
-- Decimal numerals, as `%d` prints a number that is not negative.
use k8up.Prelude.Tests.{◌==◌, if◌then◌else◌}
use k8up.Prelude.Texts.{concat}
use Prim.Native.Nat.{ℕ, zero, suc, ◌/◌, ◌%◌}
use Prim.Native.String.{String}
use mathlib.Core.Path.{◌≡◌, refl}
use mathlib.Core.List.{[], ◌∷◌}

abbrev pub digit : ℕ → String
digit zero = "0"
digit (suc zero) = "1"
digit (suc (suc zero)) = "2"
digit (suc (suc (suc zero))) = "3"
digit (suc (suc (suc (suc zero)))) = "4"
digit (suc (suc (suc (suc (suc zero))))) = "5"
digit (suc (suc (suc (suc (suc (suc zero)))))) = "6"
digit (suc (suc (suc (suc (suc (suc (suc zero))))))) = "7"
digit (suc (suc (suc (suc (suc (suc (suc (suc zero)))))))) = "8"
digit _ = "9"

-- A number has fewer digits than it counts, so `suc n` rounds are enough for `n`.
unfoldable pub digits_from : ℕ → ℕ → String → String
digits_from zero n acc = acc
digits_from (suc f) n acc =
    let longer = concat (digit (n % 10) ∷ acc ∷ []) in
    let rest = digits_from f (n / 10) longer in if n / 10 == 0 then longer else rest

unfoldable pub itoa : ℕ → String
unfolding digits_from
itoa n = digits_from (suc n) n ""

itoa_207 : itoa 207 ≡ "207"
unfolding itoa
itoa_207 = refl
