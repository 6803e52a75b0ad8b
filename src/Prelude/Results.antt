-- ===== src/Prelude/Results.antt =====
-- `std::result::Result`.
use mathlib.Core.Bool.{Bool, true, false}

pub data Result {ℓ κ} (A : Type ℓ) (E : Type κ) : Type (ℓ ⊔ κ) where
  ok : A → Result A E
  err : E → Result A E

module _ {ℓ κ} {A : Type ℓ} {E : Type κ} where
  abbrev pub is_ok : Result A E → Bool
  is_ok (Result.ok a) = true
  is_ok (Result.err e) = false

  abbrev pub ok_or : Result A E → A → A
  ok_or (Result.ok a) d = a
  ok_or (Result.err e) d = d
