-- ===== src/Store.antt =====
-- internal/cache/store/disk.go. Get, Put and Has act on the directories and the
-- files of the cache; the scan and the two evictions read a listing of the directory tree. Paths are those of a Unix system, under a
-- directory that filepath.Join leaves as it is.
pub mod Paths
pub mod Blobs
pub mod Eviction
pub mod Cleaning
pub mod Namespaces
pub mod Size
mod Examples
use hpcc.Prelude.{
  ℕ, zero, suc, ◌+◌, ◌-◌, ◌/◌, ◌%◌, ◌≡◌, Bool, true, false, not, ◌||◌, ◌&&◌, Option, none, some,
  List, [], ◌∷◌, ◌++◌, Bytes, codes, bytes_eq, contains, has_prefix, ltb, leb, ◌==◌, if◌then◌else◌,
}
use hpcc.Prelude.Assoc.{lookup, insert, erase}

pub record DiskCacheStore : Type 0 where
  pub dir : Bytes
  pub max_size : ℕ

-- A byte that may not stand in a name: "/", "\" and NUL.
unfoldable pub has_separator : Bytes → Bool
has_separator [] = false
has_separator (c ∷ s) = if c == b'/' || (c == b'\\' || c == 0) then true else has_separator s

unfoldable pub validate_name : Bytes → Bool
validate_name name =
    if bytes_eq name []
    then false
    else if bytes_eq name (codes ".") || bytes_eq name (codes "..")
    then false
    else not (has_separator name)

unfoldable pub validate_namespace : Bytes → Bool
validate_namespace prefix =
    if bytes_eq prefix []
    then false
    else if bytes_eq prefix (codes ".") || bytes_eq prefix (codes "..")
    then false
    else not (has_separator prefix)

-- filepath.Join of a directory and one more component.
abbrev pub join : Bytes → Bytes → Bytes
join dir name = dir ++ (b'/' ∷ name)

-- hex.EncodeToString.
abbrev pub hex_digit : ℕ → ℕ
hex_digit n = if ltb n 10 then n + 48 else n + 87

unfoldable pub hex : Bytes → Bytes
hex [] = []
hex (c ∷ s) = hex_digit (c / 16) ∷ hex_digit (c % 16) ∷ hex s

unfoldable pub entry_dir : DiskCacheStore → Bytes → Bytes
entry_dir d [] = d.dir
entry_dir d (c ∷ key) =
    join (join d.dir (hex_digit (c / 16) ∷ hex_digit (c % 16) ∷ [])) (hex (c ∷ key))

-- None stands for the panic on a bad prefix.
unfoldable pub namespace : DiskCacheStore → Bytes → Option DiskCacheStore
namespace d prefix =
    if validate_namespace prefix
    then some (record { dir = join d.dir prefix; max_size = 0 })
    else none

unfoldable pub blob_path : DiskCacheStore → Bytes → Bytes → Bytes
blob_path d key name = join (entry_dir d key) name

unfoldable pub tmp_path : Bytes → Bytes
tmp_path dst = dst ++ codes ".tmp"

-- The regular files by their paths.
abbrev pub Files : Type 0
Files = List (Bytes × Bytes)

pub data Read : Type 0 where
  invalid missing : Read
  found : Bytes → Read

unfoldable pub get : DiskCacheStore → Files → Bytes → Bytes → Read
get d files key name =
    if not (validate_name name)
    then invalid
    else elim (lookup (blob_path d key name) files) [ none ↦ missing | some value ↦ found value ]

-- A cache directory: the directories that exist in it, and its files.
pub record Disk : Type 0 where
  pub dirs : List Bytes
  pub files : Files

-- The directories that MkdirAll of an entry's directory makes.
unfoldable pub made_dirs : DiskCacheStore → Bytes → List Bytes
made_dirs d [] = d.dir ∷ []
made_dirs d (c ∷ key) =
    entry_dir d (c ∷ key) ∷ join d.dir (hex_digit (c / 16) ∷ hex_digit (c % 16) ∷ []) ∷ d.dir ∷ []

unfoldable pub has : DiskCacheStore → Disk → Bytes → Bool
has d disk key = contains (entry_dir d key) disk.dirs

-- WriteFile to the temporary file, and its rename.
unfoldable pub write_atomic : Bytes → Bytes → Files → Files
write_atomic dst value files =
    insert dst value (erase (tmp_path dst) (insert (tmp_path dst) value files))

-- What is read of a directory: the size and the time of a file are none where Info fails, and the
-- listing of a directory is none where ReadDir fails. A time before 1970 counts as 0, as the code's
-- maximum starts there.
pub record DirFile : Type 0 where
  pub is_dir : Bool
  pub info : Option (ℕ × ℕ)

pub record KeyDir : Type 0 where
  pub name : Bytes
  pub is_dir : Bool
  pub files : Option (List DirFile)

pub record Shard : Type 0 where
  pub name : Bytes
  pub is_dir : Bool
  pub keys : Option (List KeyDir)

pub data Root : Type 0 where
  absent unreadable : Root
  listed : List Shard → Root

pub record EntryInfo : Type 0 where
  pub path : Bytes
  pub size : ℕ
  pub mod_time : ℕ

abbrev pub max : ℕ → ℕ → ℕ
max t m = if ltb m t then t else m

unfoldable pub dir_stats_from : ℕ → ℕ → List DirFile → ℕ × ℕ
dir_stats_from size m [] = (size, m)
dir_stats_from size m (f ∷ files) = if f.is_dir then dir_stats_from size m files else elim f.info [
  | none ↦ dir_stats_from size m files
  | some (s, t) ↦ dir_stats_from (size + s) (max t m) files
]

unfoldable pub dir_stats : Option (List DirFile) → Option (ℕ × ℕ)
dir_stats none = none
dir_stats (some files) = some (dir_stats_from 0 0 files)

unfoldable pub scan_keys : Bytes → List KeyDir → List EntryInfo
scan_keys shard [] = []
scan_keys shard (k ∷ keys) =
    if not k.is_dir then scan_keys shard keys else elim (dir_stats k.files) [
      | none ↦ scan_keys shard keys
      | some (size, m) ↦
          record { path = join shard k.name; size = size; mod_time = m } ∷ scan_keys shard keys
    ]

unfoldable pub scan_shards : Bytes → List Shard → List EntryInfo
scan_shards dir [] = []
scan_shards dir (s ∷ shards) = if not s.is_dir then scan_shards dir shards else elim s.keys [
  | none ↦ scan_shards dir shards
  | some keys ↦ scan_keys (join dir s.name) keys ++ scan_shards dir shards
]

unfoldable pub total_size : List EntryInfo → ℕ
total_size [] = 0
total_size (e ∷ entries) = e.size + total_size entries

unfoldable pub scan_entries : DiskCacheStore → Root → Option (List EntryInfo)
scan_entries d absent = some []
scan_entries d unreadable = none
scan_entries d (listed shards) = some (scan_shards d.dir shards)

-- sort.Slice by the time, oldest first; entries of one time may come in any order.
unfoldable pub place_entry : EntryInfo → List EntryInfo → List EntryInfo
place_entry e [] = e ∷ []
place_entry e (f ∷ entries) =
    if leb e.mod_time f.mod_time then e ∷ f ∷ entries else f ∷ place_entry e entries

unfoldable pub sort_entries : List EntryInfo → List EntryInfo
sort_entries [] = []
sort_entries (e ∷ entries) = place_entry e (sort_entries entries)

-- The loop over the sorted entries: those that are removed and those that are kept. `remove` tells
-- whether RemoveAll succeeds, and `past` whether the entry is past its age.
unfoldable pub evict_loop :
    (Bytes → Bool)
    → (EntryInfo → Bool)
    → (ℕ → Bool)
    → ℕ
    → List EntryInfo
    → List EntryInfo × List EntryInfo
evict_loop remove past over total [] = ([], [])
evict_loop remove past over total (e ∷ entries) =
    let gone = evict_loop remove past over (total - e.size) entries in
    let left = evict_loop remove past over total entries in
    if not (past e) && not (over total)
    then ([], e ∷ entries)
    else if remove e.path
    then (e ∷ gone.0, gone.1)
    else (left.0, e ∷ left.1)

-- evict, for the entries of the scan.
unfoldable pub evict : (Bytes → Bool) → ℕ → List EntryInfo → List EntryInfo × List EntryInfo
evict remove max_size entries =
    if leb (total_size entries) max_size
    then ([], entries)
    else evict_loop remove (λ e. false) (λ total. ltb max_size total) (total_size entries)
        (sort_entries entries)

-- Clean, with the cutoff that it computes from the age.
unfoldable pub cutoff_of : ℕ → ℕ → ℕ
cutoff_of now max_age = if ltb 0 max_age then now - max_age else 0

unfoldable pub clean : (Bytes → Bool) → ℕ → ℕ → ℕ → List EntryInfo → List EntryInfo × List EntryInfo
clean remove now max_size max_age entries =
    evict_loop remove (λ e. ltb 0 (cutoff_of now max_age) && ltb e.mod_time (cutoff_of now max_age))
      (λ total. ltb 0 max_size && ltb max_size total) (total_size entries) (sort_entries entries)

-- What the file system answers: whether RemoveAll of a path succeeds, and what is read of the tree
-- of directories below a cache directory.
pub record FileSystem : Type 0 where
  pub remove : Bytes → Bool
  pub read_root : Bytes → Disk → Root

-- The path stands at or below the directory of an entry.
unfoldable pub is_below : List EntryInfo → Bytes → Bool
is_below [] path = false
is_below (e ∷ entries) path =
    if bytes_eq e.path path || has_prefix path (e.path ++ b'/' ∷ [])
    then true
    else is_below entries path

unfoldable pub remove_dirs : List EntryInfo → List Bytes → List Bytes
remove_dirs gone [] = []
remove_dirs gone (path ∷ dirs) =
    if is_below gone path then remove_dirs gone dirs else path ∷ remove_dirs gone dirs

unfoldable pub remove_files : List EntryInfo → Files → Files
remove_files gone [] = []
remove_files gone ((path, value) ∷ files) =
    if is_below gone path then remove_files gone files else (path, value) ∷ remove_files gone files

-- RemoveAll of the directory of each entry.
unfoldable pub remove_all : List EntryInfo → Disk → Disk
remove_all gone disk = record {
  dirs = remove_dirs gone disk.dirs;
  files = remove_files gone disk.files;
}

-- `if d.maxSize > 0 { return nil, d.evict() }`: the disk behind it, and whether there was no error.
unfoldable pub enforce : FileSystem → DiskCacheStore → Disk → Disk × Bool
enforce fs d disk =
    if ltb 0 d.max_size
    then elim (scan_entries d (fs.read_root d.dir disk)) [
      | none ↦ (disk, false)
      | some entries ↦ (remove_all (evict fs.remove d.max_size entries).0 disk, true)
    ]
    else (disk, true)

-- MkdirAll, and the file.
unfoldable pub with_blob : DiskCacheStore → Bytes → Bytes → Bytes → Disk → Disk
with_blob d key name value disk = record {
  dirs = made_dirs d key ++ disk.dirs;
  files = write_atomic (blob_path d key name) value disk.files;
}

unfoldable pub put : FileSystem → DiskCacheStore → Bytes → Bytes → Bytes → Disk → Disk × Bool
put fs d key name value disk =
    if not (validate_name name)
    then (disk, false)
    else enforce fs d (with_blob d key name value disk)
