-- ===== src/Runlog/Blobs.antt =====
-- crates/evo-runlog/src/blobstore.rs: contents in files that are named by their digest. The file system
-- is taken as a map from names to bytes whose operations succeed; `none` is the panic of a slice.
pub mod RoundTrip
use evowork.Prelude.{
  ℕ, String, Option, none, some, List, [], ◌∷◌, length, ltb, is_some, if◌then◌else◌,
}
use Prim.Native.String.{len, slice}
use evowork.Prelude.BTreeMap.{BTreeMap, get, insert}
use evowork.Prelude.Results.{Result}
use evowork.Prelude.Texts.{str_eq, concat, slice_to}
use evowork.Protocol.Base.{BlobRef}
use evowork.Runlog.Store.{RunLogError}

-- SHA-256 with the crate hex.
abbrev pub Digest : Type 0
Digest = List ℕ → String

pub record BlobStore : Type 0 where
  pub files : BTreeMap (List ℕ)

-- `path_of_hex` below the root: the file is known by its last part, and the slices of the two directories
-- must not panic.
unfoldable pub path_of_hex : String → Option String
path_of_hex hex_digest = elim (slice_to hex_digest 2) [
  | none ↦ none
  | some head ↦ elim (slice_to hex_digest 4) [ none ↦ none | some next ↦ some hex_digest ]
]

unfoldable pub ok_path : Option String → Option (Result String RunLogError)
ok_path none = none
ok_path (some path) = some (Result.ok path)

unfoldable pub path_of : String → Option (Result String RunLogError)
unfolding ok_path
path_of content_hash =
    if str_eq (slice content_hash 0 7) "sha256:"
    then (let hex_digest = slice content_hash 7 (len content_hash) in
        if ltb (len hex_digest) 4
        then some (Result.err (RunLogError.bad_blob_ref content_hash))
        else ok_path (path_of_hex hex_digest))
    else some (Result.err (RunLogError.bad_blob_ref content_hash))

-- A file that is there is left alone.
unfoldable pub write_new : String → List ℕ → BlobStore → BlobStore
write_new path bytes store =
    if is_some (get path store.files)
    then store
    else record store { files = insert path bytes store.files }

unfoldable pub put_at :
    String → String → List ℕ → BlobStore → Option String → Option (BlobStore × BlobRef)
unfolding write_new
put_at hex_digest mime bytes store none = none
put_at hex_digest mime bytes store (some path) = some (
  write_new path bytes store,
  record { content_hash = concat ("sha256:" ∷ hex_digest ∷ []); size = length bytes; mime = mime },
)

unfoldable pub put_blob : Digest → String → List ℕ → BlobStore → Option (BlobStore × BlobRef)
unfolding put_at
put_blob digest mime bytes store =
    put_at (digest bytes) mime bytes store (path_of_hex (digest bytes))

-- `fs::read`: a file that is missing is an error.
abbrev pub ok_or_else : RunLogError → Option (List ℕ) → Result (List ℕ) RunLogError
ok_or_else e none = Result.err e
ok_or_else e (some bytes) = Result.ok bytes

unfoldable pub read_at :
    String → BlobStore → Option (Result String RunLogError) → Option (Result (List ℕ) RunLogError)
read_at content_hash store none = none
read_at content_hash store (some (Result.err e)) = some (Result.err e)
read_at content_hash store (some (Result.ok path)) =
    some (ok_or_else (RunLogError.blob_not_found content_hash) (get path store.files))

unfoldable pub get_blob : BlobRef → BlobStore → Option (Result (List ℕ) RunLogError)
unfolding read_at path_of
get_blob r store = read_at r.content_hash store (path_of r.content_hash)
