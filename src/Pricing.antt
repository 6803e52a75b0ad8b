-- ===== src/Pricing.antt =====
-- crates/evo-model/src/pricing.rs: the price table and the charges of a call. The TOML parser is
-- left out.
pub mod Bills
mod Examples
use evowork.Prelude.{
  ℕ, ◌*◌, String, Option, none, some, Bool, true, false, ◌&&◌, List, [], ◌∷◌, ◌==◌, if◌then◌else◌,
  ltb, leb, any,
}
use evowork.Prelude.Results.{Result}
use evowork.Prelude.Texts.{str_eq}
use evowork.Prelude.Words.{u64_max}
use evowork.Protocol.Base.{EffectId}
use evowork.Protocol.Accounting.{CostCharged, CostDimension, CostUnit, Currency}
use evowork.Protocol.Turn.{Usage}
use evowork.Model.{ModelError}

pub record PriceEntry : Type 0 where
  pub provider : String
  pub model : String
  pub input_micros_per_token : ℕ
  pub output_micros_per_token : ℕ
  pub cache_read_micros_per_token : ℕ
  pub cache_write_micros_per_token : ℕ

pub record ToolPriceEntry : Type 0 where
  pub name : String
  pub call_micros : ℕ

pub record PriceTable : Type 0 where
  pub version : String
  pub currency : Currency
  pub models : List PriceEntry
  pub tools : List ToolPriceEntry

unfoldable pub is_for : String → String → PriceEntry → Bool
is_for provider model e = str_eq e.provider provider && str_eq e.model model

-- `Iterator::find`
unfoldable pub find : {A : Type 0} → (A → Bool) → List A → Option A
find p [] = none
find p (x ∷ xs) = if p x then some x else find p xs

unfoldable pub covers : PriceTable → String → String → Bool
covers table provider model = any (is_for provider model) table.models

-- `u64::checked_mul`
unfoldable pub checked_mul : ℕ → ℕ → Option ℕ
checked_mul a b = if leb (a * b) u64_max then some (a * b) else none

unfoldable pub rows_of : PriceEntry → Usage → List (CostUnit × ℕ × ℕ)
rows_of e usage =
    (CostUnit.input_token, usage.input, e.input_micros_per_token)
    ∷ (CostUnit.output_token, usage.output, e.output_micros_per_token)
    ∷ (CostUnit.cache_read, usage.cache_read, e.cache_read_micros_per_token)
    ∷ (CostUnit.cache_write, usage.cache_write, e.cache_write_micros_per_token)
    ∷ []

module _ (table : PriceTable) (dimension : CostDimension) (turn : Option ℕ) where
  unfoldable pub row_charge : CostUnit → ℕ → ℕ → Option ℕ → Result CostCharged ModelError
  row_charge unit quantity price none = Result.err (ModelError.cost_overflow quantity price)
  row_charge unit quantity price (some amount) = Result.ok (record {
    effect_id = none;
    turn = turn;
    unit = unit;
    quantity = quantity;
    unit_price_micros = price;
    amount_micros = amount;
    currency = table.currency;
    price_table_ver = table.version;
    dimension = dimension;
  })

  -- `collect` into a `Result`: the first error ends it.
  unfoldable pub prepend :
      Result CostCharged ModelError
      → Result (List CostCharged) ModelError
      → Result (List CostCharged) ModelError
  prepend (Result.err e) rest = Result.err e
  prepend (Result.ok c) (Result.err e) = Result.err e
  prepend (Result.ok c) (Result.ok cs) = Result.ok (c ∷ cs)

  unfoldable pub charge_rows : List (CostUnit × ℕ × ℕ) → Result (List CostCharged) ModelError
  unfolding row_charge prepend checked_mul
  charge_rows [] = Result.ok []
  charge_rows ((unit, quantity, price) ∷ rows) =
      let rest = charge_rows rows in
      if ltb 0 quantity
      then prepend (row_charge unit quantity price (checked_mul quantity price)) rest
      else rest

  unfoldable pub charges_for : Option PriceEntry → Usage → Result (List CostCharged) ModelError
  unfolding charge_rows rows_of
  charges_for none usage = Result.ok []
  charges_for (some e) usage = charge_rows (rows_of e usage)

  unfoldable pub charges : String → String → Usage → Result (List CostCharged) ModelError
  unfolding charges_for
  charges provider model usage = charges_for (find (is_for provider model) table.models) usage

  tool_charge : EffectId → Option ToolPriceEntry → List CostCharged
  tool_charge effect_id none = []
  tool_charge effect_id (some e) =
      if e.call_micros == 0
      then []
      else record {
        effect_id = some effect_id;
        turn = turn;
        unit = CostUnit.call;
        quantity = 1;
        unit_price_micros = e.call_micros;
        amount_micros = e.call_micros;
        currency = table.currency;
        price_table_ver = table.version;
        dimension = dimension;
      }
        ∷ []

  unfoldable pub tool_charges : String → EffectId → List CostCharged
  unfolding tool_charge
  tool_charges tool effect_id = tool_charge effect_id (find (λ e. str_eq e.name tool) table.tools)
