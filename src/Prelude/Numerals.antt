-- ===== src/Prelude/Numerals.antt =====
-- A decimal numeral can be read back, so two numbers with one numeral are the same.
use Prim.Native.Char.{Char, code}
use Prim.Native.Nat.{ℕ, zero, suc, ◌+◌, ◌-◌, ◌*◌, ◌/◌, ◌%◌, ◌<◌}
use Prim.Native.String
use Prim.Native.String.{String}
use mathlib.Core.Path.{◌≡◌, sym, ap, ◌∙◌}
use mathlib.Core.Logic.{inl, inr}
use mathlib.Core.List.{[], ◌∷◌}
use native.Mathlib.Omega.{arith}
use text.Mathlib.TextLemmas.{append-nil, nil-append, cons-append}
use k8up.Prelude.Tests.{◌==◌, Bool-cases}
use k8up.Prelude.Texts.{concat}
use k8up.Prelude.Decimal.{digit, digits_from, itoa}

-- The number that the digits of a text continue.
read : ℕ → String → ℕ
read v String.[] = v
read v (String.◌∷◌ c s) = read (v * 10 + (code c - 48)) s

in_front : (c : Char) (s : String) → String.◌++◌ (String.◌∷◌ c "") s ≡ String.◌∷◌ c s
in_front c s = cons-append c "" s ∙ ap (String.◌∷◌ c) (nil-append s)

read-digit :
    (d v : ℕ) (s : String) → d < 10 → read v (concat (digit d ∷ s ∷ [])) ≡ read (v * 10 + d) s
unfolding read
read-digit zero v s h = rw (append-nil s) (ap (read v) (in_front "0" s))
read-digit (suc zero) v s h = rw (append-nil s) (ap (read v) (in_front "1" s))
read-digit (suc (suc zero)) v s h = rw (append-nil s) (ap (read v) (in_front "2" s))
read-digit (suc (suc (suc zero))) v s h = rw (append-nil s) (ap (read v) (in_front "3" s))
read-digit (suc (suc (suc (suc zero)))) v s h = rw (append-nil s) (ap (read v) (in_front "4" s))
read-digit (suc (suc (suc (suc (suc zero))))) v s h =
    rw (append-nil s) (ap (read v) (in_front "5" s))
read-digit (suc (suc (suc (suc (suc (suc zero)))))) v s h =
    rw (append-nil s) (ap (read v) (in_front "6" s))
read-digit (suc (suc (suc (suc (suc (suc (suc zero))))))) v s h =
    rw (append-nil s) (ap (read v) (in_front "7" s))
read-digit (suc (suc (suc (suc (suc (suc (suc (suc zero)))))))) v s h =
    rw (append-nil s) (ap (read v) (in_front "8" s))
read-digit (suc (suc (suc (suc (suc (suc (suc (suc (suc zero))))))))) v s h =
    rw (append-nil s) (ap (read v) (in_front "9" s))
read-digit (suc (suc (suc (suc (suc (suc (suc (suc (suc (suc d)))))))))) v s h =
    absurd (omega arith)

read-digits_from : (f n : ℕ) (s : String) → n < f → read 0 (digits_from f n s) ≡ read n s
unfolding digits_from
read-digits_from zero n s h = absurd (omega arith)
read-digits_from (suc f) n s h =
    let longer = concat (digit (n % 10) ∷ s ∷ []) in
    elim (Bool-cases (n / 10 == 0)) [
      | inl e ↦
          rw e (read-digit (n % 10) 0 s (omega arith) ∙ ap (λ v. read v s) (ground (arith, e)))
      | inr e ↦ rw e (
          read-digits_from f (n / 10) longer (ground (arith, e))
          ∙ read-digit (n % 10) (n / 10) s (omega arith)
          ∙ ap (λ v. read v s) (omega arith))
    ]

pub itoa_injective : (m n : ℕ) → itoa m ≡ itoa n → m ≡ n
unfolding itoa read
itoa_injective m n h =
    sym (read-digits_from (suc m) m "" (omega arith))
    ∙ ap (read 0) h
    ∙ read-digits_from (suc n) n "" (omega arith)
