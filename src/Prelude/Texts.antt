-- ===== src/Prelude/Texts.antt =====
-- Texts: equality and the order of `str`, which is that of the UTF-8 bytes.
use Prim.Native.Nat.{ℕ, Ordering, compare as compare_ℕ}
use Prim.Native.Char.{code}
use Prim.Native.String.{String, [], ◌∷◌, compare, len, slice, ◌++◌, then as then_by}
use Prim.Native.String.compare as Compare
use mathlib.Core.Bool.{Bool, true, false}
use mathlib.Core.List.{List}
use mathlib.Core.Option.{Option, none, some}
use evowork.Prelude.Tests.{◌==◌, if◌then◌else◌}
use mathlib.Core.Path.{◌≡◌, refl, sym, ◌∙◌}
use native.Mathlib.Omega.{arith}
pub use text.Mathlib.Text.{◌==◌ as str_eq}
pub use text.Mathlib.TextEquality.{eq_iff}
pub use text.Mathlib.TextPositions.{eq_refl}

-- The parts of a `format!` one after the other.
abbrev pub concat : List String → String
concat List.[] = ""
concat (List.◌∷◌ s texts) = s ++ concat texts

-- `&s[..n]`, which panics inside a character and past the end.
unfoldable pub slice_to : String → ℕ → Option String
slice_to s n = if len (slice s 0 n) == n then some (slice s 0 n) else none

abbrev pub str_lt : String → String → Bool
str_lt s t = elim (compare s t) [ Ordering.lt ↦ true | _ ↦ false ]

then_trans :
    (a b c : ℕ) (x y z : Ordering)
    → (x ≡ Ordering.lt → y ≡ Ordering.lt → z ≡ Ordering.lt)
    → then_by (compare_ℕ a b) x ≡ Ordering.lt
    → then_by (compare_ℕ b c) y ≡ Ordering.lt
    → then_by (compare_ℕ a c) z ≡ Ordering.lt
then_trans a b c x y z ih h k = ground (arith, ih)

compare_trans :
    (r s t : String)
    → compare r s ≡ Ordering.lt
    → compare s t ≡ Ordering.lt
    → compare r t ≡ Ordering.lt
compare_trans [] [] t h k = k
compare_trans [] (d ∷ s) [] h k = cc (Compare.cons-nil d s)
compare_trans [] (d ∷ s) (e ∷ t) h k = Compare.nil-cons e t
compare_trans (c ∷ r) [] t h k = cc (Compare.cons-nil c r)
compare_trans (c ∷ r) (d ∷ s) [] h k = cc (Compare.cons-nil d s)
compare_trans (c ∷ r) (d ∷ s) (e ∷ t) h k =
    Compare.cons-cons c e r t
    ∙ then_trans (code c) (code d) (code e) (compare r s) (compare s t) (compare r t)
        (compare_trans r s t) (sym (Compare.cons-cons c d r s) ∙ h)
        (sym (Compare.cons-cons d e s t) ∙ k)

then_flip :
    (a b : ℕ) (x y : Ordering)
    → (x ≡ Ordering.gt → y ≡ Ordering.lt)
    → then_by (compare_ℕ a b) x ≡ Ordering.gt
    → then_by (compare_ℕ b a) y ≡ Ordering.lt
then_flip a b x y ih h = ground (arith, ih)

compare_flip : (s t : String) → compare s t ≡ Ordering.gt → compare t s ≡ Ordering.lt
compare_flip [] [] h = cc
compare_flip [] (d ∷ t) h = cc (Compare.nil-cons d t)
compare_flip (c ∷ s) [] h = Compare.nil-cons c s
compare_flip (c ∷ s) (d ∷ t) h =
    Compare.cons-cons d c t s
    ∙ then_flip (code c) (code d) (compare s t) (compare t s) (compare_flip s t)
        (sym (Compare.cons-cons c d s t) ∙ h)

lt_of_test : (o : Ordering) → elim o [ Ordering.lt ↦ true | _ ↦ false ] ≡ true → o ≡ Ordering.lt
lt_of_test Ordering.lt h = refl
lt_of_test Ordering.eq h = cc
lt_of_test Ordering.gt h = cc

-- The order of texts is a strict total order.
pub str_lt_trans : (r s t : String) → str_lt r s ≡ true → str_lt s t ≡ true → str_lt r t ≡ true
str_lt_trans r s t h k =
    cc (compare_trans r s t (lt_of_test (compare r s) h) (lt_of_test (compare s t) k))

pub str_lt_total : (s t : String) → str_eq s t ≡ false → str_lt s t ≡ false → str_lt t s ≡ true
str_lt_total s t h k = go (compare s t) refl
  where
    go : (o : Ordering) → compare s t ≡ o → str_lt t s ≡ true
    go Ordering.lt e = cc
    go Ordering.eq e = cc
    go Ordering.gt e = cc (compare_flip s t e)
