-- ===== src/Context/Examples.antt =====
-- The theorems on the context at concrete texts.
use evowork.Prelude.{String, some, true, [], ◌∷◌, ◌≡◌, refl}
use evowork.Prelude.Decimals.{decimal}
use evowork.Protocol.Base.{BlobRef}
use evowork.Context.{AnsweredClarification, ToolOutput, Assembler, short_hash, assemble}
use evowork.Context.Assembly.{Sliceable, Describes, assemble-Describes}

abbrev blob : String → BlobRef
blob hash = record { content_hash = hash; size = 6; mime = "text/plain" }

-- Nine hexadecimal digits after the prefix: eight stay.
shortened : short_hash "sha256:cd1234ef0" ≡ some "cd1234ef"
unfolding short_hash
shortened = refl

abbrev answer : AnsweredClarification
answer = record { answer_ref = blob "sha256:cd1234ef"; answer_text = "yes" }

abbrev output : ToolOutput
output = record { tool = "fs.read"; output_ref = blob "sha256:deadbeef"; output_text = "text" }

abbrev assembler : Assembler
assembler = record { profile = "default" }

sliced : Sliceable "sha256:cd1234ef"
unfolding short_hash
sliced = refl

sliced_output : Sliceable "sha256:deadbeef"
unfolding short_hash
sliced_output = refl

sliced_intent : Sliceable "sha256:ab"
unfolding short_hash
sliced_intent = refl

assemble-Describes_example :
    Describes assembler 12 true
      ("sha256:ab" ∷ "sha256:cd1234ef" ∷ "sha256:deadbeef" ∷ [])
      13
      (assemble assembler 12 (blob "sha256:ab") "intent" (answer ∷ []) (output ∷ []))
assemble-Describes_example =
    assemble-Describes assembler 12 (blob "sha256:ab") "intent" (answer ∷ []) (output ∷ [])
      sliced_intent (sliced, tt) (sliced_output, tt)

twelve : decimal 12 ≡ "12"
unfolding decimal
twelve = refl
