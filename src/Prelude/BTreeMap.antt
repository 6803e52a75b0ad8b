-- ===== src/Prelude/BTreeMap.antt =====
-- `std::collections::BTreeMap` and `BTreeSet` over text keys: entries in ascending order of the keys.
use Prim.Native.String.{String}
use mathlib.Core.Bool.{Bool, true, false, ◌&&◌}
use mathlib.Core.List.{List, [], ◌∷◌}
use mathlib.Core.Option.{Option, none, some}
use mathlib.Core.Path.{◌≡◌, refl}
use native.Mathlib.Omega.{arith}
use evowork.Prelude.Tests.{if◌then◌else◌}
use evowork.Prelude.Texts.{str_eq, str_lt, eq_iff, str_lt_trans, str_lt_total}

abbrev pub BTreeMap {ℓ} : Type ℓ → Type ℓ
BTreeMap V = List (String × V)

-- A set is a map to nothing.
abbrev pub BTreeSet : Type 0
BTreeSet = BTreeMap (Unit {0})

module _ {ℓ} {V : Type ℓ} where
  unfoldable pub get : String → BTreeMap V → Option V
  get k [] = none
  get k ((j, v) ∷ m) = if str_eq j k then some v else get k m

  unfoldable pub insert : String → V → BTreeMap V → BTreeMap V
  insert k v [] = (k, v) ∷ []
  insert k v ((j, w) ∷ m) =
      if str_eq j k
      then (k, v) ∷ m
      else if str_lt k j
      then (k, v) ∷ (j, w) ∷ m
      else (j, w) ∷ insert k v m

  unfoldable pub remove : String → BTreeMap V → BTreeMap V
  remove k [] = []
  remove k ((j, w) ∷ m) = if str_eq j k then remove k m else (j, w) ∷ remove k m

  -- `values().all(p)`
  unfoldable pub values_all : (V → Bool) → BTreeMap V → Bool
  values_all p [] = true
  values_all p ((j, w) ∷ m) = p w && values_all p m

  -- `iter().next()`
  unfoldable pub first : BTreeMap V → Option (String × V)
  first [] = none
  first (e ∷ m) = some e

  pub get-insert :
      (k j : String) (v : V) (m : BTreeMap V)
      → get j (insert k v m) ≡ (if str_eq k j then some v else get j m)
  unfolding get insert
  get-insert k j v [] = refl
  get-insert k j v ((i, w) ∷ m) =
      ground (arith, eq_iff k j, eq_iff i k, eq_iff i j, get-insert k j v m)

  pub get-remove :
      (k j : String) (m : BTreeMap V) → get j (remove k m) ≡ (if str_eq k j then none else get j m)
  unfolding get remove
  get-remove k j [] = ground arith
  get-remove k j ((i, w) ∷ m) = ground (arith, eq_iff k j, eq_iff i k, eq_iff i j, get-remove k j m)

  pub values_all-get :
      (p : V → Bool) (k : String) (m : BTreeMap V) (v : V)
      → values_all p m ≡ true
      → get k m ≡ some v
      → p v ≡ true
  unfolding values_all get
  values_all-get p k [] v h e = ground arith
  values_all-get p k ((j, w) ∷ m) v h e = ground (arith, values_all-get p k m v)

  -- Every key of the map comes after `k`.
  abbrev pub After : String → BTreeMap V → Type 0
  After k [] = Unit
  After k ((j, w) ∷ m) = (str_lt k j ≡ true) × After k m

  -- The keys ascend.
  abbrev pub IsSorted : BTreeMap V → Type 0
  IsSorted [] = Unit
  IsSorted ((j, w) ∷ m) = After j m × IsSorted m

  After-insert :
      (k j : String) (v : V) (m : BTreeMap V)
      → str_lt j k ≡ true
      → After j m
      → After j (insert k v m)
  unfolding insert
  After-insert k j v [] h a = (h, tt)
  After-insert k j v ((i, w) ∷ m) h a = ground (arith, After-insert k j v m)

  After-remove : (k j : String) (m : BTreeMap V) → After j m → After j (remove k m)
  unfolding remove
  After-remove k j [] a = a
  After-remove k j ((i, w) ∷ m) a = ground (arith, After-remove k j m)

  After-trans : (k j : String) (m : BTreeMap V) → str_lt k j ≡ true → After j m → After k m
  After-trans k j [] h a = a
  After-trans k j ((i, w) ∷ m) h a = (str_lt_trans k j i h a.0, After-trans k j m h a.1)

  pub insert-IsSorted : (k : String) (v : V) (m : BTreeMap V) → IsSorted m → IsSorted (insert k v m)
  unfolding insert
  insert-IsSorted k v [] h = (tt, tt)
  insert-IsSorted k v ((j, w) ∷ m) h = ground (
    arith,
    eq_iff j k,
    eq_iff k j,
    After-trans k j m,
    After-insert k j v m,
    str_lt_total k j,
    insert-IsSorted k v m,
  )

  pub remove-IsSorted : (k : String) (m : BTreeMap V) → IsSorted m → IsSorted (remove k m)
  unfolding remove
  remove-IsSorted k [] h = h
  remove-IsSorted k ((j, w) ∷ m) h = ground (arith, After-remove k j m, remove-IsSorted k m)

-- `BTreeSet::insert`, and the loop that inserts each item of a list.
unfoldable pub add : String → BTreeSet → BTreeSet
unfolding insert
add k s = insert k tt s

unfoldable pub add_all : List String → BTreeSet → BTreeSet
unfolding add
add_all [] s = s
add_all (k ∷ ks) s = add_all ks (add k s)

module _ {ℓ} {V : Type ℓ} where
  get-After :
      (k j : String) (m : BTreeMap V) (w : V) → After k m → get j m ≡ some w → str_lt k j ≡ true
  unfolding get
  get-After k j [] w a g = ground arith
  get-After k j ((i, v) ∷ m) w a g = ground (arith, eq_iff i j, get-After k j m w)

  -- The first entry of a map is the one with the least key.
  pub first_least :
      (m : BTreeMap V) (k : String) (v : V)
      → IsSorted m
      → first m ≡ some (k, v)
      → (get k m ≡ some v)
        × ((j : String) (w : V) → get j m ≡ some w → str_eq k j ≡ false → str_lt k j ≡ true)
  unfolding first get
  first_least [] k v o f = cc
  first_least ((i, u) ∷ m) k v o f =
      (ground (arith, eq_iff i k), λ j w g n. ground (arith, get-After i j m w))
