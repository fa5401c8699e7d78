-- ===== src/Store/Examples.antt =====
-- Runs of the store, and the component's theorems at concrete inputs.
use hpcc.Prelude.{
  ℕ, ◌^◌, ◌<◌, ◌≡◌, ◌⊎◌, refl, true, false, has_prefix, some, List, [], ◌∷◌, Bytes, codes, bytes_eq,
  arith,
}
use hpcc.Prelude.Assoc.{lookup, insert, erase}
use hpcc.Store.{
  DiskCacheStore, FileSystem, Disk, KeyDir, listed, Shard, EntryInfo, has_separator, validate_name,
  put, write_atomic, with_blob, made_dirs, enforce, remove_all, remove_dirs, remove_files, is_below,
  blob_path, tmp_path, scan_entries, scan_keys, dir_stats, dir_stats_from, entry_dir, hex,
  scan_shards, clean, evict, evict_loop, sort_entries, place_entry, total_size,
}
use hpcc.Store.Paths.{IsBytes}
use hpcc.Store.Blobs.{Stored, put-Stored}
use hpcc.Store.Eviction.{Evicted, evict-Evicted}
use hpcc.Store.Cleaning.{Cleaned, clean-Cleaned}
use hpcc.Store.Namespaces.{clean-Nested}
use hpcc.Store.Size.{
  SizeResult, Exact, parse_size, parse_size-Exact, scale, trim_space, split_digits, decimal,
  parse_int, parse_digits, parse_trimmed, unit_of,
}

abbrev store : DiskCacheStore
store = record { dir = codes "cache"; max_size = 0 }

abbrev key : Bytes
key = 171 ∷ 1 ∷ []

key-IsBytes : IsBytes key
key-IsBytes = (omega arith, (omega arith, tt))

entry_path : entry_dir store key ≡ codes "cache/ab/ab01"
unfolding entry_dir hex
entry_path = refl

-- A directory of a key with one file.
abbrev listed_key : Bytes → ℕ → ℕ → KeyDir
listed_key name size time = record {
  name = name;
  is_dir = true;
  files = some (record { is_dir = false; info = some (size, time) } ∷ []);
}

-- What is read behind the Put: an older entry, and the new one.
abbrev tree : List Shard
tree =
    record { name = codes "cd"; is_dir = true; keys = some (listed_key (codes "cd02") 4 10 ∷ []) }
    ∷ record { name = codes "ab"; is_dir = true; keys = some (listed_key (codes "ab01") 5 20 ∷ []) }
    ∷ []

abbrev file_system : FileSystem
file_system = record { remove = λ path. true; read_root = λ dir disk. listed tree }

-- Room for one of the two.
abbrev limited : DiskCacheStore
limited = record { dir = codes "cache"; max_size = 6 }

abbrev before_put : Disk
before_put = record {
  dirs = codes "cache/cd/cd02" ∷ codes "cache/cd" ∷ codes "cache" ∷ [];
  files = (codes "cache/cd/cd02/stdout", codes "old!") ∷ [];
}

abbrev after_put : Disk
after_put = record {
  dirs =
      codes "cache/ab/ab01"
      ∷ codes "cache/ab"
      ∷ codes "cache"
      ∷ codes "cache/cd"
      ∷ codes "cache"
      ∷ [];
  files = (codes "cache/ab/ab01/stdout", codes "hello") ∷ [];
}

put_run :
    put file_system limited key (codes "stdout") (codes "hello") before_put ≡ (after_put, true)
unfolding put validate_name has_separator bytes_eq write_atomic enforce with_blob made_dirs
    entry_dir hex blob_path tmp_path scan_entries scan_shards scan_keys dir_stats dir_stats_from
    evict evict_loop sort_entries place_entry total_size remove_all remove_dirs remove_files
    is_below has_prefix insert erase
put_run = refl

put-Stored_example :
    Stored file_system limited key (codes "stdout") (codes "hello") before_put after_put
put-Stored_example =
    put-Stored file_system limited key (codes "stdout") (codes "hello") before_put after_put
      key-IsBytes put_run

abbrev entry : Bytes → ℕ → ℕ → EntryInfo
entry path size time = record { path = path; size = size; mod_time = time }

abbrev entries : List EntryInfo
entries = entry (codes "a") 10 30 ∷ entry (codes "b") 20 10 ∷ entry (codes "c") 5 20 ∷ []

evicted : (evict (λ path. true) 16 entries).0 ≡ entry (codes "b") 20 10 ∷ []
unfolding evict evict_loop sort_entries place_entry total_size
evicted = refl

evict-Evicted_example :
    Evicted 16 entries (evict (λ path. true) 16 entries).0 (evict (λ path. true) 16 entries).1
evict-Evicted_example = evict-Evicted 16 entries

clean-Cleaned_example :
    Cleaned 100 12 75 entries
      (clean (λ path. true) 100 12 75 entries).0
      (clean (λ path. true) 100 12 75 entries).1
clean-Cleaned_example = clean-Cleaned 100 12 75 entries

-- compile/acme/ab: the scan of the root takes acme for an entry.
abbrev shards : List Shard
shards =
    record {
      name = codes "compile";
      is_dir = true;
      keys = some (
          record {
            name = codes "acme";
            is_dir = true;
            files = some (record { is_dir = true; info = some (4096, 95) } ∷ []);
          }
          ∷ []);
    }
    ∷ []

clean-Nested_example :
    ((clean (λ path. true) 100 1 0 (scan_shards (codes "cache") shards)).0 ≡ [])
    × (0 < 10
        → 10 < 100
        → (clean (λ path. true) 100 1 10 (scan_shards (codes "cache") shards)).1 ≡ [])
clean-Nested_example = clean-Nested (codes "cache") 100 1 10 shards (((refl, tt), tt), tt)

sizes : Bytes → SizeResult
unfolding parse_size parse_trimmed trim_space bytes_eq split_digits parse_digits unit_of parse_int
    decimal lookup scale
sizes s = parse_size s

parse_size-Exact_example :
    (10240 < 2 ^ 63)
    × (((trim_space (codes " 10 KB") ≡ []) × (◌≡◌ {A = ℕ} 10240 0))
        ⊎ Exact (trim_space (codes " 10 KB")) 10240)
unfolding sizes
parse_size-Exact_example = parse_size-Exact (codes " 10 KB") 10240 refl
