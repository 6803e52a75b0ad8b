-- ===== src/Runlog/Examples.antt =====
-- The theorems on the log at a concrete log.
use evowork.Prelude.{
  ℕ, String, none, some, List, [], ◌∷◌, ◌≡◌, refl, sym, ap, ◌∙◌, arith, ltb, if◌then◌else◌,
}
use evowork.Prelude.BTreeMap.{get}
use evowork.Prelude.Texts.{eq_iff, slice_to}
use evowork.Prelude.Results.{Result}
use evowork.Protocol.Base.{Actor}
use evowork.Kernel.Samples.{checkpointed}
use evowork.Runlog.Store.{event_of, append, events, filter}
use evowork.Runlog.Select.{Holds, within, events-Holds}
use evowork.Runlog.Append.{Appends, append-Appends}
use evowork.Runlog.Blobs.{Digest, BlobStore, path_of_hex, put_blob}
use evowork.Runlog.Blobs.RoundTrip.{IsAddressed, IsUnlike, Stored, get_blob-put_blob}
use evowork.Runlog.Samples.{serde, log, held}

log-Holds : Holds serde "r-1" log held
unfolding event_of
log-Holds = ((refl, refl, (refl, refl, tt)), omega arith)

events-Holds_example :
    events serde log "r-1" 1 none ≡ Result.ok (filter (λ e. within 1 none e.seq) held)
events-Holds_example = events-Holds serde "r-1" log held 1 none log-Holds

append-Appends_example :
    Appends serde "r-1" log held Actor.runtime "2026-08-29T10:00:00Z" checkpointed
      (append serde log "r-1" Actor.runtime "2026-08-29T10:00:00Z" checkpointed)
append-Appends_example =
    append-Appends serde "r-1" log held Actor.runtime "2026-08-29T10:00:00Z" checkpointed
      "checkpoint" "runtime" refl refl refl refl log-Holds (omega arith)

-- A digest of four letters, which many contents share.
abbrev digest : Digest
digest [] = "none"
digest (b ∷ bytes) = if ltb b 2 then "less" else "more"

abbrev store : BlobStore
store = record { files = (digest (1 ∷ []), 1 ∷ []) ∷ [] }

get_one :
    (k path : String) (v bytes : List ℕ)
    → get path ((k, v) ∷ []) ≡ some bytes
    → (path ≡ k) × (bytes ≡ v)
unfolding get
get_one k path v bytes h = grind (arith, eq_iff k path)

store-IsAddressed : IsAddressed digest store
store-IsAddressed = record {
  named = λ path bytes h.
      let (p, b) = get_one (digest (1 ∷ [])) path (1 ∷ []) bytes h in p ∙ ap digest (sym b);
}

less-more : digest (1 ∷ []) ≡ digest (2 ∷ 0 ∷ []) → ⊥
less-more h = ground (arith, eq_iff "less" "more")

store-IsUnlike : IsUnlike digest store (2 ∷ 0 ∷ [])
store-IsUnlike path old h same =
    let (p, b) = get_one (digest (1 ∷ [])) path (1 ∷ []) old h in
    absurd (less-more (ap digest (sym b) ∙ same))

get_blob-put_blob_example :
    Stored digest "text/plain" (2 ∷ 0 ∷ []) store (put_blob digest "text/plain" (2 ∷ 0 ∷ []) store)
unfolding path_of_hex slice_to
get_blob-put_blob_example =
    get_blob-put_blob digest "text/plain" (2 ∷ 0 ∷ []) store store-IsAddressed store-IsUnlike
      (omega arith) refl
