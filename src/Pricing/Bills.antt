-- ===== src/Pricing/Bills.antt =====
-- What the charges of crates/evo-model/src/pricing.rs amount to.
use evowork.Prelude.{
  ℕ, zero, suc, ◌+◌, ◌*◌, ◌<◌, ◌≤◌, lt→ltb, String, Option, none, some, Bool, true, false, ◌&&◌,
  List, [], ◌∷◌, ◌≡◌, refl, arith, leb, if◌then◌else◌, All, any, is_some,
}
use evowork.Prelude.Results.{Result}
use evowork.Prelude.Words.{u64_max}
use evowork.Protocol.Accounting.{CostCharged, CostDimension, CostUnit}
use evowork.Protocol.Turn.{Usage}
use evowork.Model.{ModelError}
use evowork.Pricing.{
  PriceEntry, PriceTable, is_for, find, covers, checked_mul, rows_of, row_charge, prepend,
  charge_rows, charges, charges_for,
}

-- A charge is for something, and its amount is the quantity at the unit price.
abbrev pub IsExact : CostCharged → Type 0
IsExact c = (0 < c.quantity) × (c.amount_micros ≡ c.quantity * c.unit_price_micros)

abbrev pub amount : List CostCharged → ℕ
amount [] = 0
amount (c ∷ charged) = c.amount_micros + amount charged

-- The price of rows of quantities, and whether each product is a word.
price : List (CostUnit × ℕ × ℕ) → ℕ
price [] = 0
price ((unit, quantity, p) ∷ rows) = quantity * p + price rows

fits : List (CostUnit × ℕ × ℕ) → Bool
fits [] = true
fits ((unit, quantity, p) ∷ rows) = leb (quantity * p) u64_max && fits rows

Bills : ℕ → Bool → Result (List CostCharged) ModelError → Type 0
Bills n ok (Result.err e) = ok ≡ false
Bills n ok (Result.ok charged) = (ok ≡ true) × (amount charged ≡ n) × All IsExact charged

module _ (table : PriceTable) (dimension : CostDimension) (turn : Option ℕ) where
  paid-Bills :
      (unit : CostUnit) (q p m n : ℕ) (ok : Bool) (rest : Result (List CostCharged) ModelError)
      → 0 < q
      → m ≡ q * p
      → Bills n ok rest
      → Bills (m + n) (leb m u64_max && ok) (
          prepend table dimension turn
            (row_charge table dimension turn unit q p (if leb m u64_max then some m else none))
            rest)
  unfolding Bills prepend row_charge
  paid-Bills unit q p m n ok (Result.err e) z h b = ground arith
  paid-Bills unit q p m n ok (Result.ok charged) z h b = ground arith

  charge_rows-Bills :
      (rows : List (CostUnit × ℕ × ℕ))
      → Bills (price rows) (fits rows) (charge_rows table dimension turn rows)
  unfolding charge_rows checked_mul Bills price fits
  charge_rows-Bills [] = (refl, refl, tt)
  charge_rows-Bills ((unit, zero, p) ∷ rows) =
      let z : 0 * p ≡ 0 = omega arith in
      let w : 0 * p + price rows ≡ price rows = omega arith in rw (w, z) (charge_rows-Bills rows)
  charge_rows-Bills ((unit, suc q, p) ∷ rows) = rw (lt→ltb 0 (suc q) (omega arith)) (
      paid-Bills unit (suc q) p (suc q * p) (price rows) (fits rows)
        (charge_rows table dimension turn rows) (omega arith) refl (charge_rows-Bills rows))

  -- What `charges` must answer for the entry of the table, if there is one.
  abbrev pub Charged : Option PriceEntry → Usage → Result (List CostCharged) ModelError → Type 0
  Charged none usage r = r ≡ Result.ok []
  Charged (some e) usage (Result.err x) =
      ((usage.input * e.input_micros_per_token ≤ u64_max)
        × (usage.output * e.output_micros_per_token ≤ u64_max)
        × (usage.cache_read * e.cache_read_micros_per_token ≤ u64_max)
        × (usage.cache_write * e.cache_write_micros_per_token ≤ u64_max))
      → ⊥
  Charged (some e) usage (Result.ok charged) =
      (amount charged
        ≡ usage.input * e.input_micros_per_token
          + (usage.output * e.output_micros_per_token
              + (usage.cache_read * e.cache_read_micros_per_token
                  + usage.cache_write * e.cache_write_micros_per_token)))
      × All IsExact charged

  Bills-Charged :
      (e : PriceEntry) (usage : Usage) (r : Result (List CostCharged) ModelError)
      → Bills (price (rows_of e usage)) (fits (rows_of e usage)) r
      → Charged (some e) usage r
  unfolding Bills price fits rows_of
  Bills-Charged e usage (Result.err x) b = λ all. ground arith
  Bills-Charged e usage (Result.ok charged) (ok, n, exact) = (ground arith, exact)

  charges_for-Charged :
      (found : Option PriceEntry) (usage : Usage)
      → Charged found usage (charges_for table dimension turn found usage)
  unfolding charges_for
  charges_for-Charged none usage = refl
  charges_for-Charged (some e) usage = Bills-Charged e usage _ (charge_rows-Bills (rows_of e usage))

  -- A model that has no price is charged nothing. For a model with a price the charges are exact:
  -- each is for a positive quantity at its unit price, and together they are the price of the whole
  -- usage; an error comes only if one of the four products is no 64-bit word.
  pub charges-Charged :
      (provider model : String) (usage : Usage)
      → Charged
          (find (is_for provider model) table.models)
          usage
          (charges table dimension turn provider model usage)
  unfolding charges
  charges-Charged provider model usage =
      charges_for-Charged (find (is_for provider model) table.models) usage

find-is_some : {A : Type 0} (p : A → Bool) (xs : List A) → any p xs ≡ is_some (find p xs)
unfolding find
find-is_some p [] = refl
find-is_some p (x ∷ xs) = ground (arith, find-is_some p xs)

-- The table covers a model exactly if `charges` finds a price for it, so a covered model is never
-- charged as one without a price.
covers_lem :
    (table : PriceTable) (provider model : String)
    → covers table provider model ≡ is_some (find (is_for provider model) table.models)
unfolding covers
covers_lem table provider model = find-is_some (is_for provider model) table.models
