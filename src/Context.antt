-- ===== src/Context.antt =====
-- crates/evo-context/src/lib.rs: the blocks of a context. `none` is the panic of a slice that cuts a
-- character. A count of tokens is summed modulo 2^64.
pub mod Estimate
pub mod Assembly
mod Examples
use Prim.Native.String.{len, count, slice, ◌++◌ as text_append}
use evowork.Prelude.{
  ℕ, ◌+◌, ◌/◌, String, Option, none, some, Bool, true, false, List, [], ◌∷◌, ◌++◌, ◌==◌,
  if◌then◌else◌, ltb, map,
}
use evowork.Prelude.Decimals.{decimal}
use evowork.Prelude.Texts.{str_eq, slice_to}
use evowork.Prelude.Words.{u64, max}
use evowork.Protocol.Base.{BlobRef, TaintLevel, TrustLevel, join, taint_of}
use evowork.Protocol.Turn.{ContextAssembled, ContextBlock}

pub record AnsweredClarification : Type 0 where
  pub answer_ref : BlobRef
  pub answer_text : String

pub data BlockSource : Type 0 where
  user_intent clarification_answer tool_result : BlockSource

unfoldable pub trust : BlockSource → TrustLevel
trust BlockSource.user_intent = TrustLevel.user_direct
trust BlockSource.clarification_answer = TrustLevel.user_direct
trust BlockSource.tool_result = TrustLevel.untrusted

unfoldable pub label : BlockSource → String
label BlockSource.user_intent = "user_intent"
label BlockSource.clarification_answer = "clarification_answer"
label BlockSource.tool_result = "tool_result"

pub record ToolOutput : Type 0 where
  pub tool : String
  pub output_ref : BlobRef
  pub output_text : String

pub record Assembler : Type 0 where
  pub profile : String

unfoldable pub estimate_tokens : String → ℕ
estimate_tokens text = if len text == 0 then 0 else max (max (count text) (len text / 4)) 1

unfoldable pub hex_part : String → String
hex_part content_hash =
    if str_eq (slice content_hash 0 7) "sha256:"
    then slice content_hash 7 (len content_hash)
    else content_hash

unfoldable pub short_hash : String → Option String
unfolding slice_to hex_part
short_hash content_hash =
    let hex = hex_part content_hash in slice_to hex (if ltb (len hex) 8 then len hex else 8)

-- `c-t{turn}{infix}{hash}`
cite : ℕ → String → String → String
cite turn middle hash = text_append "c-t" (text_append (decimal turn) (text_append middle hash))

unfoldable pub block_with :
    BlockSource
    → ℕ
    → String
    → BlobRef
    → Option String
    → String
    → Option String
    → Option ContextBlock
unfolding cite
block_with source turn middle blob span text none = none
block_with source turn middle blob span text (some hash) = some (record {
  cite_id = cite turn middle hash;
  source = label source;
  trust = trust source;
  scope = "run";
  content_hash = blob.content_hash;
  span = span;
  token_estimate = estimate_tokens text;
})

unfoldable pub intent_block : ℕ → BlobRef → String → Option ContextBlock
unfolding block_with
intent_block turn intent intent_text =
    block_with BlockSource.user_intent turn "-" intent none intent_text
      (short_hash intent.content_hash)

unfoldable pub clarification_block : ℕ → AnsweredClarification → Option ContextBlock
unfolding block_with
clarification_block turn answer =
    block_with BlockSource.clarification_answer turn "-clar-" answer.answer_ref none
      answer.answer_text (short_hash answer.answer_ref.content_hash)

unfoldable pub tool_result_block : ℕ → ToolOutput → Option ContextBlock
unfolding block_with
tool_result_block turn output =
    block_with BlockSource.tool_result turn "-tool-" output.output_ref (some output.tool)
      output.output_text (short_hash output.output_ref.content_hash)

-- A `Vec` to which each block is pushed in turn.
unfoldable pub sequence : List (Option ContextBlock) → Option (List ContextBlock)
sequence [] = some []
sequence (none ∷ blocks) = none
sequence (some block ∷ blocks) = elim (sequence blocks) [
  | none ↦ none
  | some rest ↦ some (block ∷ rest)
]

-- `fold(Clean, join)` over the blocks, and `sum`.
unfoldable pub fold_taint : TaintLevel → List ContextBlock → TaintLevel
fold_taint acc [] = acc
fold_taint acc (b ∷ blocks) = fold_taint (join acc (taint_of b.trust)) blocks

unfoldable pub sum_estimates : ℕ → List ContextBlock → ℕ
sum_estimates acc [] = acc
sum_estimates acc (b ∷ blocks) = sum_estimates (u64 (acc + b.token_estimate)) blocks

unfoldable pub assembled : String → ℕ → Option (List ContextBlock) → Option ContextAssembled
assembled profile turn none = none
assembled profile turn (some blocks) = some (record {
  turn = turn;
  profile = profile;
  blocks = blocks;
  taint_level = fold_taint TaintLevel.clean blocks;
  total_token_estimate = sum_estimates 0 blocks;
})

unfoldable pub assemble :
    Assembler
    → ℕ
    → BlobRef
    → String
    → List AnsweredClarification
    → List ToolOutput
    → Option ContextAssembled
unfolding assembled
assemble self turn intent intent_text answered_clarifications tool_outputs =
    assembled self.profile turn (
      sequence (
        intent_block turn intent intent_text
        ∷ (map (clarification_block turn) answered_clarifications
            ++ map (tool_result_block turn) tool_outputs)))
