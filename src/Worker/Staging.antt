-- ===== src/Worker/Staging.antt =====
-- internal/worker/staging.go. Directories and files are written below a fresh temporary directory;
-- what is written is the list of paths and contents, and a write itself does not fail.
use hpcc.Prelude.{
  ℕ, Bool, true, false, not, ◌||◌, ◌==◌, Option, none, some, List, [], ◌∷◌, Bytes, codes, bytes_eq,
  has_prefix, if◌then◌else◌,
}
use hpcc.Prelude.FilePath.{is_abs, clean, dots, join_path}
use hpcc.Worker.Sources.{SourceStore}

-- The BlobRef and the CasDescriptor of a request.
pub record BlobRef : Type 0 where
  pub digest : Bytes
  pub path : Bytes
  pub size : ℕ

pub record CasDescriptor : Type 0 where
  pub manifest_digest : Bytes
  pub blobs : List BlobRef
  pub entry_path : Bytes

pub data SourceSettings : Type 0 where
  preprocessed : Bytes → SourceSettings
  cas : CasDescriptor → SourceSettings
  no_settings : SourceSettings

pub data SourceMode : Type 0 where
  preprocessed_mode cas_mode other_mode : SourceMode

pub record Descriptor : Type 0 where
  pub tenant_id : Bytes
  pub image_digest : Bytes
  pub image_ref : Bytes
  pub scheduler_token : Bytes
  pub source_mode : SourceMode
  pub settings : SourceSettings

pub data StagingError : Type 0 where
  bad_path unavailable no_descriptor no_source_store namespace_panics unknown_mode : StagingError

-- A file that is written: its path and its content.
abbrev pub Write : Type 0
Write = Bytes × Bytes

pub data StagingResult : Type 0 where
  staged : List Write → StagingResult
  refused : StagingError → StagingResult

-- strings.ContainsRune, for a byte.
unfoldable pub has_byte : ℕ → Bytes → Bool
has_byte b [] = false
has_byte b (c ∷ s) = if c == b then true else has_byte b s

unfoldable pub validate_blob_path : Bytes → Bool
validate_blob_path p =
    if bytes_eq p []
    then false
    else if has_byte 0 p
    then false
    else if has_byte b'\\' p
    then false
    else if bytes_eq (clean p) dots || has_prefix (clean p) (codes "../")
    then false
    else not (has_prefix (clean p) (codes "/"))

abbrev pub preprocessed_source_name : Bytes
preprocessed_source_name = codes "main.i"

unfoldable pub then_write : Write → StagingResult → StagingResult
then_write w (staged ws) = staged (w ∷ ws)
then_write w (refused e) = refused e

module _ (S : SourceStore) where
  open S use {Contents, is_tenant, get}

  unfoldable pub materialize_blob :
      Contents → Bytes → Bytes → BlobRef → StagingResult → StagingResult
  materialize_blob c tenant src_dir b rest =
      if is_abs b.path
      then rest
      else if not (validate_blob_path b.path)
      then refused bad_path
      else elim (get c tenant b.digest) [
        | none ↦ refused unavailable
        | some bytes ↦ then_write (join_path src_dir b.path, bytes) rest
      ]

  unfoldable pub materialize_cas_blobs : Contents → Bytes → Bytes → List BlobRef → StagingResult
  materialize_cas_blobs c tenant src_dir [] = staged []
  materialize_cas_blobs c tenant src_dir (b ∷ blobs) =
      materialize_blob c tenant src_dir b (materialize_cas_blobs c tenant src_dir blobs)

  unfoldable pub stage_cas : Option Contents → Bytes → Bytes → SourceSettings → StagingResult
  stage_cas none tenant src_dir (cas d) = refused no_source_store
  stage_cas (some c) tenant src_dir (cas d) =
      if not (is_tenant tenant)
      then refused namespace_panics
      else materialize_cas_blobs c tenant src_dir d.blobs
  stage_cas c tenant src_dir other = refused no_descriptor

  -- The store is none where the worker has none.
  unfoldable pub stage_source : Option Contents → Bytes → Descriptor → StagingResult
  stage_source c src_dir d = elim d.source_mode [
    | preprocessed_mode ↦ elim d.settings [
      | preprocessed bytes ↦ staged ((join_path src_dir preprocessed_source_name, bytes) ∷ [])
      | _ ↦ refused no_descriptor
    ]
    | cas_mode ↦ stage_cas c d.tenant_id src_dir d.settings
    | other_mode ↦ refused unknown_mode
  ]
