-- ===== src/Kernel/Hash.antt =====
-- crates/evo-kernel/src/hash.rs. CBOR (ciborium), SHA-256 (sha2) and the crate hex are parameters.
use Prim.Native.String.{◌++◌ as str_append}
use evowork.Prelude.{ℕ, ◌/◌, ◌%◌, String, List, [], ◌∷◌}
use evowork.Prelude.Decimals.{digit}
use evowork.Prelude.Results.{Result}
use evowork.Kernel.State.{RunState}

pub record Codec : Type 0 where
  pub into_writer : RunState → List ℕ
  pub from_reader : List ℕ → Result RunState String
  pub digest : List ℕ → List ℕ
  pub hex_encode : List ℕ → String

-- `format!("{b:02x}")`
unfoldable pub hex_bytes : List ℕ → String
hex_bytes [] = ""
hex_bytes (b ∷ bytes) = str_append (digit (b / 16)) (str_append (digit (b % 16)) (hex_bytes bytes))

module _ (codec : Codec) where
  unfoldable pub state_hash : RunState → List ℕ
  state_hash state = codec.digest (codec.into_writer state)

  unfoldable pub state_hash_hex : RunState → String
  state_hash_hex state = hex_bytes (state_hash state)
