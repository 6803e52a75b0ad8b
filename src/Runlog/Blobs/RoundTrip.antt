-- ===== src/Runlog/Blobs/RoundTrip.antt =====
-- What crates/evo-runlog/src/blobstore.rs stores is read back.
use evowork.Prelude.{
  ℕ, ◌+◌, ◌≤◌, String, Option, none, some, false, List, [], ◌∷◌, ◌≡◌, refl, sym, ap, ◌∙◌, arith,
  length, inl, inr, Option-cases, ltb,
}
use Prim.Native.String.{len, slice, ◌++◌ as text_append}
use text.Mathlib.TextLemmas.{append-nil}
use text.Mathlib.TextPositions.{slice-append_left, slice-append_right, len-append}
use evowork.Prelude.BTreeMap.{get, get-insert}
use evowork.Prelude.Results.{Result}
use evowork.Prelude.Texts.{eq_iff, eq_refl, concat}
use evowork.Protocol.Base.{BlobRef}
use evowork.Runlog.Store.{RunLogError}
use evowork.Runlog.Blobs.{
  Digest, BlobStore, path_of_hex, path_of, write_new, put_at, put_blob, read_at, get_blob,
}

-- The name of a file is the digest of its contents.
pub record IsAddressed (digest : Digest) (store : BlobStore) : Type 0 where
  pub named :
      (path : String) (bytes : List ℕ) → get path store.files ≡ some bytes → path ≡ digest bytes

-- The parts of a reference.
scheme : (hex : String) → slice (text_append "sha256:" hex) 0 7 ≡ "sha256:"
scheme hex = slice-append_left "sha256:" hex

name_length : (hex : String) → len (text_append "sha256:" hex) ≡ 7 + len hex
name_length hex = len-append "sha256:" hex

name : (hex : String) → slice (text_append "sha256:" hex) 7 (7 + len hex) ≡ hex
name hex = slice-append_right "sha256:" hex

path_of-name :
    (hex : String)
    → path_of_hex hex ≡ some hex
    → 4 ≤ len hex
    → path_of (text_append "sha256:" hex) ≡ some (Result.ok hex)
unfolding path_of
path_of-name hex h k = rw (scheme hex, name_length hex, name hex, h, not_short hex k) refl
  where
    not_short : (hex : String) → 4 ≤ len hex → ltb (len hex) 4 ≡ false
    not_short hex k = ground arith

module _ (digest : Digest) where
  -- No other contents in the store share the digest of the bytes.
  abbrev pub IsUnlike : BlobStore → List ℕ → Type 0
  IsUnlike store bytes =
      (path : String) (old : List ℕ)
      → get path store.files ≡ some old
      → digest old ≡ digest bytes
      → old ≡ bytes

  -- After a write the name leads to the bytes.
  get-write_new :
      (path : String) (bytes : List ℕ) (store : BlobStore)
      → IsAddressed digest store
      → IsUnlike store bytes
      → path ≡ digest bytes
      → get path (write_new path bytes store).files ≡ some bytes
  unfolding write_new
  get-write_new path bytes store a unlike e = elim (Option-cases (get path store.files)) [
    | inl n ↦ rw n (get-insert path path bytes store.files ∙ rw (eq_refl path) refl)
    | inr (old, o) ↦ rw o (o ∙ ap some (unlike path old o (sym (a.named path old o) ∙ e)))
  ]

  write_new-IsAddressed :
      (path : String) (bytes : List ℕ) (store : BlobStore)
      → IsAddressed digest store
      → path ≡ digest bytes
      → IsAddressed digest (write_new path bytes store)
  unfolding write_new
  write_new-IsAddressed path bytes store a e = elim (Option-cases (get path store.files)) [
    | inl n ↦ rw n (record {
      named = λ other b h.
          ground
            (arith, eq_iff path other, get-insert path other bytes store.files, a.named other b);
    })
    | inr (old, o) ↦ rw o a
  ]

  -- What was there stays.
  write_new-keeps :
      (path : String) (bytes : List ℕ) (store : BlobStore) (other : String) (old : List ℕ)
      → get other store.files ≡ some old
      → get other (write_new path bytes store).files ≡ some old
  unfolding write_new
  write_new-keeps path bytes store other old h = elim (Option-cases (get path store.files)) [
    | inl n ↦ rw n (ground (arith, eq_iff path other, get-insert path other bytes store.files))
    | inr (found, o) ↦ rw o h
  ]

  -- What a reference leads to.
  abbrev pub Reads : BlobStore → BlobRef → List ℕ → Type 0
  Reads store r bytes = get_blob r store ≡ some (Result.ok bytes)

  abbrev pub Stored : String → List ℕ → BlobStore → Option (BlobStore × BlobRef) → Type 0
  Stored mime bytes store none = ⊥
  Stored mime bytes store (some (store', r)) =
      Reads store' r bytes
      × (r.mime ≡ mime)
      × (r.size ≡ length bytes)
      × IsAddressed digest store'
      × ((other : BlobRef) (old : List ℕ) → Reads store other old → Reads store' other old)

  write_new-Reads :
      (path : String) (bytes : List ℕ) (store : BlobStore) (other : BlobRef) (old : List ℕ)
      → Reads store other old
      → Reads (write_new path bytes store) other old
  unfolding get_blob read_at
  write_new-Reads path bytes store other old h = go (path_of other.content_hash) h
    where
      go :
          (at : Option (Result String RunLogError))
          → read_at other.content_hash store at ≡ some (Result.ok old)
          → read_at other.content_hash (write_new path bytes store) at ≡ some (Result.ok old)
      go none h = h
      go (some (Result.err e)) h = h
      go (some (Result.ok at)) h = elim (Option-cases (get at store.files)) [
        | inl n ↦ ground (arith, n)
        | inr (b, o) ↦ ground (arith, o, write_new-keeps path bytes store at b o)
      ]

  written-Reads :
      (mime : String) (bytes : List ℕ) (store : BlobStore)
      → IsAddressed digest store
      → IsUnlike store bytes
      → 4 ≤ len (digest bytes)
      → path_of_hex (digest bytes) ≡ some (digest bytes)
      → Reads
          (write_new (digest bytes) bytes store)
          (record {
            content_hash = concat ("sha256:" ∷ digest bytes ∷ []);
            size = length bytes;
            mime = mime;
          })
          bytes
  unfolding get_blob read_at
  written-Reads mime bytes store a unlike k e =
      rw
        (
          append-nil (digest bytes),
          path_of-name (digest bytes) e k,
          get-write_new (digest bytes) bytes store a unlike refl,
        )
        refl

  -- Storing bytes succeeds, and the reference leads back to them, with their size and the type that
  -- was given; every reference that led to bytes before still leads to them. This takes a store whose
  -- files are named by the digest of their contents, as they are again afterwards, and that holds no
  -- other contents with the digest of the bytes, and a digest whose text has four bytes or more and can
  -- be cut after the second and the fourth.
  pub get_blob-put_blob :
      (mime : String) (bytes : List ℕ) (store : BlobStore)
      → IsAddressed digest store
      → IsUnlike store bytes
      → 4 ≤ len (digest bytes)
      → path_of_hex (digest bytes) ≡ some (digest bytes)
      → Stored mime bytes store (put_blob digest mime bytes store)
  unfolding put_blob put_at
  get_blob-put_blob mime bytes store a unlike k e = rw e (
    written-Reads mime bytes store a unlike k e,
    refl,
    refl,
    write_new-IsAddressed (digest bytes) bytes store a refl,
    λ other old h. write_new-Reads (digest bytes) bytes store other old h,
  )
