-- ===== src/Compiler/Manifest.antt =====
-- internal/compiler/manifest.go: the source closure of a compile and its digest. Files, the
-- compiler's own dependencies and BLAKE3 are arguments; paths are those of a Unix system.
use hpcc.Prelude.{
  ℕ, ◌+◌, ◌%◌, ◌^◌, Bool, not, ◌&&◌, ◌||◌, leb, Option, none, some, List, [], ◌∷◌, ◌++◌, Bytes,
  codes, bytes_eq, has_prefix, if◌then◌else◌, length, drop,
}
use hpcc.Prelude.Endian.{be_bytes}
use hpcc.Prelude.FilePath.{dots, rel_path}
use hpcc.Compiler.Key.{bytes_lt}

pub record BlobRef : Type 0 where
  pub path : Bytes
  pub digest : Bytes
  pub size : ℕ

pub record Manifest : Type 0 where
  pub digest : Bytes
  pub blobs : List BlobRef

-- ASCII letters A to Z in lower case.
unfoldable pub ascii_lower : Bytes → Bytes
ascii_lower [] = []
ascii_lower (c ∷ s) = (if leb b'A' c && leb c b'Z' then c + 32 else c) ∷ ascii_lower s

-- What the hasher is fed for a list of blobs.
unfoldable pub manifest_bytes : List BlobRef → Bytes
manifest_bytes [] = []
manifest_bytes (b ∷ blobs) =
    be_bytes 8 (length (ascii_lower b.path) % 2 ^ 64)
    ++ (ascii_lower b.path ++ (b.digest ++ manifest_bytes blobs))

unfoldable pub aggregate_manifest_digest : (Bytes → Bytes) → List BlobRef → Bytes
unfolding manifest_bytes
aggregate_manifest_digest blake3 blobs = blake3 (manifest_bytes blobs)

-- slices.SortFunc by path.
unfoldable pub place_blob : BlobRef → List BlobRef → List BlobRef
place_blob b [] = b ∷ []
place_blob b (c ∷ blobs) = if bytes_lt c.path b.path then c ∷ place_blob b blobs else b ∷ c ∷ blobs

unfoldable pub sort_blobs : List BlobRef → List BlobRef
sort_blobs [] = []
sort_blobs (b ∷ blobs) = place_blob b (sort_blobs blobs)

abbrev pub extended_prefix : Bytes
extended_prefix = codes "\\\\?\\"

abbrev pub unc_prefix : Bytes
unc_prefix = codes "\\\\?\\UNC\\"

unfoldable pub strip_extended_length_prefix : Bytes → Bytes
strip_extended_length_prefix p =
    if has_prefix p unc_prefix
    then codes "\\\\" ++ drop 8 p
    else if has_prefix p extended_prefix
    then drop 4 p
    else p

-- rejectUNC: true where it refuses the path.
unfoldable pub reject_unc : Bytes → Bool
unfolding strip_extended_length_prefix
reject_unc p =
    has_prefix (strip_extended_length_prefix p) (codes "\\\\")
    && not (has_prefix (strip_extended_length_prefix p) extended_prefix)

-- `filepath.Rel(root, p)` behind the checks, for the path as it was given.
unfoldable pub within_root : Bytes → Bytes → Bytes → Bytes
within_root given root p = elim (rel_path root p) [
  | none ↦ given
  | some rel ↦ if bytes_eq rel dots || has_prefix rel (codes "../") then given else rel
]

-- None where a UNC path is refused; `abs` is filepath.Abs, none where it fails.
unfoldable pub normalize_manifest_path : (Bytes → Option Bytes) → Bytes → Bytes → Option Bytes
normalize_manifest_path abs p root =
    if reject_unc p then none else if bytes_eq root [] then some p else elim (abs p) [
      | none ↦ some p
      | some a ↦
          let full = strip_extended_length_prefix a in
          let base = strip_extended_length_prefix root in
          if reject_unc full || reject_unc base then none else some (within_root p base full)
    ]
