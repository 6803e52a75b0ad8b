-- ===== src/Prelude/Decimals.antt =====
-- Numbers as decimal texts: `format!("{n}")`.
use Prim.Native.Nat.{ℕ, zero, suc, ◌/◌, ◌%◌, ◌<◌, ◌≤◌}
use Prim.Native.String.{String, ◌++◌}
use mathlib.Core.List.{List, [], ◌∷◌}
use mathlib.Core.Path.{◌≡◌}
use native.Mathlib.Omega.{arith}
use evowork.Prelude.Tests.{ltb, if◌then◌else◌}

nth_text : List String → ℕ → String
nth_text [] n = ""
nth_text (s ∷ texts) zero = s
nth_text (s ∷ texts) (suc n) = nth_text texts n

-- The text of a digit below 16.
unfoldable pub digit : ℕ → String
unfolding nth_text
digit = nth_text (
    "0" ∷ "1" ∷ "2" ∷ "3" ∷ "4" ∷ "5" ∷ "6" ∷ "7" ∷ "8" ∷ "9" ∷ "a" ∷ "b" ∷ "c" ∷ "d" ∷ "e" ∷ "f"
    ∷ [])

digits : ℕ → ℕ → String
unfolding digit
digits zero n = ""
digits (suc fuel) n =
    let rest = digits fuel (n / 10) in if ltb n 10 then digit n else rest ++ digit (n % 10)

-- A number has no more digits than its successor counts.
unfoldable pub decimal : ℕ → String
unfolding digits
decimal n = digits (suc n) n

digits_fuel : (f g n : ℕ) → n < f → n < g → digits f n ≡ digits g n
unfolding digits
digits_fuel zero g n h k = absurd (omega (arith, h))
digits_fuel (suc f) zero n h k = absurd (omega (arith, k))
digits_fuel (suc f) (suc g) n h k = ground (arith, digits_fuel f g (n / 10))

pub decimal_small : (n : ℕ) → n < 10 → decimal n ≡ digit n
unfolding decimal
decimal_small n h = ground arith

-- The fuel is enough: the digits of a number are those of its tenth and its last one.
pub decimal_step : (n : ℕ) → 10 ≤ n → decimal n ≡ decimal (n / 10) ++ digit (n % 10)
unfolding decimal
decimal_step n h = ground (arith, digits_fuel n (suc (n / 10)) (n / 10))
