-- ===== src/Worker/Sources.antt =====
-- What the handlers rely on of the worker's source store: `sourceStore.Namespace(tenant)` of
-- internal/worker/worker.go with its Get, Has and Put of the blob "data".
use hpcc.Prelude.{◌≡◌, Bool, ◌&&◌, Option, some, Bytes, bytes_eq, if◌then◌else◌}

-- What Namespace(tenant).Has answers: that there is an entry or not, an error, or the panic of
-- Namespace on a tenant that is no path component.
pub data Presence : Type 0 where
  present absent unreadable panics : Presence

pub record SourceStore : Type 1 where
  pub Contents : Type 0
  pub IsKey : Bytes → Type 0
  -- Whether Namespace returns a store for the tenant, or else panics.
  pub is_tenant : Bytes → Bool
  pub get : Contents → Bytes → Bytes → Option Bytes
  pub has : Contents → Bytes → Bytes → Presence
  -- None where Put fails, or Namespace panics; `failed_put` is the store that is then left.
  pub put : Bytes → Bytes → Bytes → Contents → Option Contents
  pub failed_put : Bytes → Bytes → Bytes → Contents → Contents
  pub get-put :
      (tenant key value : Bytes) (c after : Contents) (other j : Bytes)
      → IsKey key
      → IsKey j
      → put tenant key value c ≡ some after
      → get after other j
        ≡ (if bytes_eq tenant other && bytes_eq key j then some value else get c other j)
  pub get-failed_put :
      (tenant key value : Bytes) (c : Contents) (other j : Bytes)
      → IsKey key
      → IsKey j
      → get (failed_put tenant key value c) other j ≡ get c other j

-- The store holds something for a tenant under a key.
abbrev pub Present : (S : SourceStore) → S.Contents → Bytes → Bytes → Type 0
Present S c tenant k = (v : Bytes) × (S.get c tenant k ≡ some v)

-- Where Has finds an entry, the entry holds the blob: no Put ended between its directory and its
-- file.
abbrev pub IsComplete : (S : SourceStore) → S.Contents → Bytes → Type 0
IsComplete S c tenant = (k : Bytes) → S.has c tenant k ≡ present → Present S c tenant k

-- What the store holds for a tenant has its key for its hash.
abbrev pub IsSound : (S : SourceStore) → (Bytes → Bytes) → S.Contents → Bytes → Type 0
IsSound S blake3 c tenant = (k v : Bytes) → S.IsKey k → S.get c tenant k ≡ some v → blake3 v ≡ k
