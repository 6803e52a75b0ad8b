-- ===== src/Pricing/Examples.antt =====
-- The theorem on charges at a concrete table.
use evowork.Prelude.{none, some, [], ◌∷◌}
use evowork.Protocol.Accounting.{CostDimension, Currency}
use evowork.Protocol.Turn.{Usage}
use evowork.Pricing.{PriceTable, is_for, find, charges}
use evowork.Pricing.Bills.{Charged, charges-Charged}

abbrev table : PriceTable
table = record {
  version = "v1";
  currency = Currency.cny;
  models =
      record {
        provider = "p";
        model = "m";
        input_micros_per_token = 3;
        output_micros_per_token = 15;
        cache_read_micros_per_token = 0;
        cache_write_micros_per_token = 4;
      }
      ∷ [];
  tools = [];
}

abbrev dimension : CostDimension
dimension = record { principal = "u"; team = none; run_id = "r-1"; skill = none; tool = none }

abbrev usage : Usage
usage = record { input = 100; output = 20; cache_read = 0; cache_write = 1 }

charges-Charged_example :
    Charged table dimension
      (some 0)
      (find (is_for "p" "m") table.models)
      usage
      (charges table dimension (some 0) "p" "m" usage)
charges-Charged_example = charges-Charged table dimension (some 0) "p" "m" usage
