-- ===== src/Prelude/Texts.antt =====
-- Texts. `concat` stands for the string building of `fmt.Sprintf` and of `+`, and a Go map keyed by
-- strings is an association list of which only the first entry of a key counts.
use Prim.Native.Nat.{ℕ}
use Prim.Native.Char.{code}
use Prim.Native.String
use Prim.Native.String.{String}
use mathlib.Core.Path.{◌≡◌, refl}
use mathlib.Core.Bool.{Bool, true, false, ◌||◌}
use mathlib.Core.Option.{Option, none, some}
use mathlib.Core.List.{List, [], ◌∷◌}
use native.Mathlib.Omega.{arith}
use text.Mathlib.Text
pub use text.Mathlib.Text.{starts_with}
pub use text.Mathlib.TextEquality.{eq_iff}
pub use text.Mathlib.TextPositions.{eq_refl}
use k8up.Prelude.Tests.{ltb, ◌==◌, if◌then◌else◌}

abbrev pub str_eq : String → String → Bool
str_eq a b = Text.◌==◌ a b

-- The code points of a text.
abbrev pub codes : String → List ℕ
codes String.[] = []
codes (String.◌∷◌ c s) = code c ∷ codes s

-- The order of lists of numbers by their first difference, a proper prefix first.
pub lex_lt : List ℕ → List ℕ → Bool
lex_lt xs [] = false
lex_lt [] (y ∷ ys) = true
lex_lt (x ∷ xs) (y ∷ ys) = if x == y then lex_lt xs ys else ltb x y

-- Go's `<` on strings compares bytes; for UTF-8 that is the order by code points.
unfoldable pub str_lt : String → String → Bool
unfolding lex_lt
str_lt a b = lex_lt (codes a) (codes b)

lex_lt-nil : (xs : List ℕ) → lex_lt xs [] ≡ false
unfolding lex_lt
lex_lt-nil [] = refl
lex_lt-nil (x ∷ xs) = refl

pub lex_lt_asymm : (xs ys : List ℕ) → lex_lt xs ys ≡ true → lex_lt ys xs ≡ false
unfolding lex_lt
lex_lt_asymm xs [] h = cc
lex_lt_asymm [] (y ∷ ys) h = refl
lex_lt_asymm (x ∷ xs) (y ∷ ys) h = ground (arith, lex_lt_asymm xs ys)

pub lex_lt_le_trans :
    (xs ys zs : List ℕ) → lex_lt ys xs ≡ false → lex_lt zs ys ≡ false → lex_lt zs xs ≡ false
unfolding lex_lt
lex_lt_le_trans [] ys zs h k = lex_lt-nil zs
lex_lt_le_trans (x ∷ xs) [] zs h k = cc
lex_lt_le_trans (x ∷ xs) (y ∷ ys) [] h k = cc
lex_lt_le_trans (x ∷ xs) (y ∷ ys) (z ∷ zs) h k = ground (arith, lex_lt_le_trans xs ys zs)

pub str_lt_asymm : (a b : String) → str_lt a b ≡ true → str_lt b a ≡ false
unfolding str_lt
str_lt_asymm a b h = lex_lt_asymm (codes a) (codes b) h

pub str_lt_le_trans :
    (a b c : String) → str_lt b a ≡ false → str_lt c b ≡ false → str_lt c a ≡ false
unfolding str_lt
str_lt_le_trans a b c h k = lex_lt_le_trans (codes a) (codes b) (codes c) h k

abbrev pub concat : List String → String
concat [] = ""
concat (s ∷ ss) = String.◌++◌ s (concat ss)

-- slices.Contains
abbrev pub contains : List String → String → Bool
contains [] k = false
contains (s ∷ ss) k = str_eq s k || contains ss k

module _ {ℓ} {V : Type ℓ} where
  -- m[k], with `none` for a missing key.
  abbrev pub lookup : String → List (String × V) → Option V
  lookup k [] = none
  lookup k ((j, v) ∷ m) = if str_eq j k then some v else lookup k m

  -- delete(m, k)
  abbrev pub without : String → List (String × V) → List (String × V)
  without k [] = []
  without k ((j, v) ∷ m) = let rest = without k m in if str_eq j k then rest else (j, v) ∷ rest

  -- m[k] = v: in place where the key is there, and at the end where it is not.
  abbrev pub insert : String → V → List (String × V) → List (String × V)
  insert k v [] = (k, v) ∷ []
  insert k v ((j, w) ∷ m) = if str_eq j k then (j, v) ∷ m else (j, w) ∷ insert k v m

  pub lookup-without :
      (k j : String) (m : List (String × V))
      → lookup j (without k m) ≡ (if str_eq k j then none else lookup j m)
  lookup-without k j [] = ground arith
  lookup-without k j ((i, v) ∷ m) =
      ground (arith, lookup-without k j m, eq_iff i k, eq_iff i j, eq_iff k j)

  pub lookup-insert :
      (k j : String) (v : V) (m : List (String × V))
      → lookup j (insert k v m) ≡ (if str_eq k j then some v else lookup j m)
  lookup-insert k j v [] = refl
  lookup-insert k j v ((i, w) ∷ m) =
      ground (arith, eq_iff k j, eq_iff i k, eq_iff i j, lookup-insert k j v m)
