-- ===== src/Context/Assembly.antt =====
-- What `assemble` of crates/evo-context/src/lib.rs puts into a context.
use Prim.Native.String.{count}
use evowork.Prelude.{
  ℕ, ◌+◌, ◌^◌, ◌<◌, String, Option, none, some, Bool, true, ◌||◌, not, List, [], ◌∷◌, ◌++◌, map,
  ◌≡◌, refl, sym, subst, ap, ◌∙◌, arith, is_some, is_empty, All,
}
use evowork.Prelude.Words.{u64}
use evowork.Protocol.Base.{BlobRef, TaintLevel, is_tainted, join, taint_of}
use evowork.Protocol.Turn.{ContextAssembled, ContextBlock}
use evowork.Context.{
  AnsweredClarification, ToolOutput, Assembler, BlockSource, trust, short_hash, block_with,
  intent_block, clarification_block, tool_result_block, sequence, fold_taint, sum_estimates,
  assembled, assemble,
}
use evowork.Context.Estimate.{estimate_tokens_lem}

-- The blocks raise the taint or not, cite these hashes in this order, and have so many characters.
Tells : Bool → List String → ℕ → Option (List ContextBlock) → Type 0
Tells t hashes n none = ⊥
Tells t hashes n (some blocks) =
    ((acc : TaintLevel) → is_tainted (fold_taint acc blocks) ≡ (is_tainted acc || t))
    × (map (λ b. b.content_hash) blocks ≡ hashes)
    × ((acc : ℕ) → acc < 2 ^ 64 → sum_estimates acc blocks ≡ u64 (acc + n))

-- A block that is there, with its source, hash and text.
IsBlock : BlockSource → String → String → Option ContextBlock → Type 0
IsBlock source hash text none = ⊥
IsBlock source hash text (some b) =
    (b.trust ≡ trust source) × (b.content_hash ≡ hash) × (b.token_estimate ≡ count text)

block_with-IsBlock :
    (source : BlockSource) (turn : ℕ) (middle : String) (blob : BlobRef) (span : Option String)
    (text : String) (hash : Option String)
    → is_some hash ≡ true
    → IsBlock source blob.content_hash text (block_with source turn middle blob span text hash)
unfolding block_with IsBlock
block_with-IsBlock source turn middle blob span text none h = ground arith
block_with-IsBlock source turn middle blob span text (some hash) h =
    (refl, refl, estimate_tokens_lem text)

fold_taint_push :
    (t : Bool) (b : ContextBlock) (blocks : List ContextBlock)
    → ((acc : TaintLevel) → is_tainted (fold_taint acc blocks) ≡ (is_tainted acc || t))
    → (acc : TaintLevel)
    → is_tainted (fold_taint acc (b ∷ blocks))
      ≡ (is_tainted acc || (is_tainted (taint_of b.trust) || t))
unfolding fold_taint join
fold_taint_push t b blocks h acc = ground (arith, h (join acc (taint_of b.trust)))

sum_estimates_push :
    (n : ℕ) (b : ContextBlock) (blocks : List ContextBlock)
    → ((acc : ℕ) → acc < 2 ^ 64 → sum_estimates acc blocks ≡ u64 (acc + n))
    → (acc : ℕ) → acc < 2 ^ 64
    → sum_estimates acc (b ∷ blocks) ≡ u64 (acc + (b.token_estimate + n))
unfolding sum_estimates
sum_estimates_push n b blocks h acc k = h (u64 (acc + b.token_estimate)) (omega arith) ∙ omega arith

sequence-Tells :
    (t : Bool) (hashes : List String) (n : ℕ) (source : BlockSource) (hash text : String)
    (block : Option ContextBlock) (blocks : List (Option ContextBlock))
    → IsBlock source hash text block
    → Tells t hashes n (sequence blocks)
    → Tells
        (is_tainted (taint_of (trust source)) || t)
        (hash ∷ hashes)
        (count text + n)
        (sequence (block ∷ blocks))
unfolding Tells IsBlock sequence
sequence-Tells t hashes n source hash text none blocks h k = absurd h
sequence-Tells t hashes n source hash text (some b) blocks (p, q, r) k = go (sequence blocks) k
  where
    go :
        (rest : Option (List ContextBlock))
        → Tells t hashes n rest
        → Tells
            (is_tainted (taint_of (trust source)) || t)
            (hash ∷ hashes)
            (count text + n)
            (elim rest [ none ↦ none | some rest ↦ some (b ∷ rest) ])
    go none l = absurd l
    go (some rest) (taints, cited, summed) =
        rw (sym p, sym q, sym r)
          (
            fold_taint_push t b rest taints,
            ap (λ hs. b.content_hash ∷ hs) cited,
            sum_estimates_push n b rest summed,
          )

-- The characters of some texts.
abbrev pub characters : List String → ℕ
characters [] = 0
characters (s ∷ texts) = count s + characters texts

abbrev pub answer_hash : AnsweredClarification → String
answer_hash answer = answer.answer_ref.content_hash

abbrev pub output_hash : ToolOutput → String
output_hash output = output.output_ref.content_hash

-- A hash that can be cut after its first eight bytes, as each one in hexadecimal can.
abbrev pub Sliceable : String → Type 0
Sliceable hash = is_some (short_hash hash) ≡ true

outputs-Tells :
    (turn : ℕ) (outputs : List ToolOutput)
    → All (λ o. Sliceable (output_hash o)) outputs
    → Tells
        (not (is_empty outputs))
        (map output_hash outputs)
        (characters (map (λ o. o.output_text) outputs))
        (sequence (map (tool_result_block turn) outputs))
unfolding sequence Tells fold_taint sum_estimates trust taint_of tool_result_block
outputs-Tells turn [] a = (λ acc. ground arith, refl, λ acc k. omega arith)
outputs-Tells turn (o ∷ outputs) (a, all) =
    sequence-Tells (not (is_empty outputs)) (map output_hash outputs)
      (characters (map (λ o. o.output_text) outputs)) BlockSource.tool_result (output_hash o)
      o.output_text (tool_result_block turn o) (map (tool_result_block turn) outputs)
      (block_with-IsBlock BlockSource.tool_result turn "-tool-" o.output_ref (some o.tool)
        o.output_text (short_hash (output_hash o)) a)
      (outputs-Tells turn outputs all)

answers-Tells :
    (turn : ℕ) (answers : List AnsweredClarification) (rest : List (Option ContextBlock)) (t : Bool)
    (hashes : List String) (n : ℕ)
    → All (λ a. Sliceable (answer_hash a)) answers
    → Tells t hashes n (sequence rest)
    → Tells t
        (map answer_hash answers ++ hashes)
        (characters (map (λ a. a.answer_text) answers) + n)
        (sequence (map (clarification_block turn) answers ++ rest))
unfolding trust taint_of clarification_block
answers-Tells turn [] rest t hashes n a h =
    subst (λ m. Tells t hashes m (sequence rest)) (omega arith) h
answers-Tells turn (x ∷ answers) rest t hashes n (a, all) h =
    subst
      (λ m.
        Tells t (map answer_hash (x ∷ answers) ++ hashes) m
          (sequence (map (clarification_block turn) (x ∷ answers) ++ rest)))
      (omega arith)
      (sequence-Tells t (map answer_hash answers ++ hashes)
        (characters (map (λ a. a.answer_text) answers) + n) BlockSource.clarification_answer
        (answer_hash x) x.answer_text (clarification_block turn x)
        (map (clarification_block turn) answers ++ rest)
        (block_with-IsBlock BlockSource.clarification_answer turn "-clar-" x.answer_ref none
          x.answer_text (short_hash (answer_hash x)) a)
        (answers-Tells turn answers rest t hashes n all h))

-- The context that comes out: its taint, the hashes that it cites, and its estimate.
abbrev pub Describes : Assembler → ℕ → Bool → List String → ℕ → Option ContextAssembled → Type 0
Describes self turn t hashes n none = ⊥
Describes self turn t hashes n (some c) =
    (c.turn ≡ turn)
    × (c.profile ≡ self.profile)
    × (is_tainted c.taint_level ≡ t)
    × (map (λ b. b.content_hash) c.blocks ≡ hashes)
    × (c.total_token_estimate ≡ u64 n)

assembled-Describes :
    (self : Assembler) (turn : ℕ) (t : Bool) (hashes : List String) (n : ℕ)
    (blocks : Option (List ContextBlock))
    → Tells t hashes n blocks
    → Describes self turn t hashes n (assembled self.profile turn blocks)
unfolding Tells assembled
assembled-Describes self turn t hashes n none h = absurd h
assembled-Describes self turn t hashes n (some blocks) (taints, cited, summed) =
    (refl, refl, taints TaintLevel.clean, cited, summed 0 (omega arith) ∙ omega arith)

-- If the hashes can be cut, a context comes out: it is tainted exactly if a tool has returned
-- something, it cites the intent, the answers and the outputs in this order, and its estimate is the
-- number of their characters modulo 2^64.
pub assemble-Describes :
    (self : Assembler) (turn : ℕ) (intent : BlobRef) (intent_text : String)
    (answers : List AnsweredClarification) (outputs : List ToolOutput)
    → Sliceable intent.content_hash
    → All (λ a. Sliceable (answer_hash a)) answers
    → All (λ o. Sliceable (output_hash o)) outputs
    → Describes self turn
        (not (is_empty outputs))
        (intent.content_hash ∷ (map answer_hash answers ++ map output_hash outputs))
        (count intent_text
          + (characters (map (λ a. a.answer_text) answers)
              + characters (map (λ o. o.output_text) outputs)))
        (assemble self turn intent intent_text answers outputs)
unfolding assemble intent_block trust taint_of
assemble-Describes self turn intent intent_text answers outputs a b c =
    assembled-Describes self turn _ _ _ _ (
      sequence-Tells _ _ _ BlockSource.user_intent intent.content_hash intent_text
        (intent_block turn intent intent_text) _
        (block_with-IsBlock BlockSource.user_intent turn "-" intent none intent_text
          (short_hash intent.content_hash) a)
        (answers-Tells turn answers (map (tool_result_block turn) outputs) _ _ _ b
          (outputs-Tells turn outputs c)))
