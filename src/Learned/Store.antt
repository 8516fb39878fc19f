-- ===== src/Learned/Store.antt =====
-- `Store.read`, `Store.Load` and `Store.Record` of server-go/modules/sandbox/sandbox.go. The mutex
-- makes each call one step on the disk; the calls of the operating system fail as `Faults` says.
-- The JSON codec of the document is a parameter.
pub mod Sorted
pub mod Loaded
pub mod Recorded
pub mod Persisted
use aimee_module_sandbox.Base.{
  ℕ, zero, suc, ◌+◌, ◌-◌, Bool, true, false, not, ◌&&◌, ◌||◌, Option, none, some, List, [], ◌∷◌,
  ◌++◌, ltb, leb, ◌==◌, if◌then◌else◌, length,
}
use aimee_module_sandbox.GoString.{Bytes, equal}
use aimee_module_sandbox.Learned.Grammar.{package_valid}
use aimee_module_sandbox.Learned.Parse.{learn_max, contains}

abbrev pub max_store_bytes : ℕ
max_store_bytes = 1048576

-- `map[string][]string`, the latest entry of a root in front.
abbrev pub Document : Type 0
Document = List (Bytes × List Bytes)

unfoldable pub lookup : Document → Bytes → List Bytes
unfolding equal
lookup [] root = []
lookup ((key, names) ∷ doc) root = if equal key root then names else lookup doc root

-- What `read` returns: the map, or none for the nil map, which json.Unmarshal makes of the text `null`
-- and which has no entries.
abbrev pub StoredMap : Type 0
StoredMap = Option Document

-- `doc[gitRoot]`
unfoldable pub names_of : StoredMap → Bytes → List Bytes
names_of none root = []
names_of (some doc) root = lookup doc root

-- Which calls of the operating system fail in a call of the store.
pub record Faults : Type 0 where
  pub stat : Bool
  pub read_file : Bool
  pub create_temp : Bool
  pub write : Bool
  pub close : Bool
  pub rename : Bool
  pub remove : Bool

-- The sidecar, if there is one, and the number of temporary files beside it.
pub record Disk : Type 0 where
  pub sidecar : Option Bytes
  pub temps : ℕ

-- The encoding of documents by encoding/json: a text does not decode, or it decodes as the nil map or
-- as a document.
pub record Codec : Type 0 where
  pub unmarshal : Bytes → Option StoredMap
  pub marshal : Document → Option Bytes

-- The order of strings, byte by byte.
unfoldable pub string_le : Bytes → Bytes → Bool
string_le [] t = true
string_le (a ∷ s) [] = false
string_le (a ∷ s) (b ∷ t) = ltb a b || (a == b && string_le s t)

unfoldable pub insert : Bytes → List Bytes → List Bytes
insert s [] = s ∷ []
insert s (t ∷ ts) = if string_le s t then s ∷ t ∷ ts else t ∷ insert s ts

-- `sort.Strings`
unfoldable pub sort_strings : List Bytes → List Bytes
sort_strings [] = []
sort_strings (s ∷ ss) = insert s (sort_strings ss)

-- The loop of `Load`.
unfoldable pub valid_names : ℕ → List Bytes → List Bytes → List Bytes
valid_names max out [] = out
valid_names max out (name ∷ names) = elim (leb max (length out)) [
  | true ↦ out
  | false ↦ elim (package_valid name) [
    | true ↦ valid_names max (out ++ name ∷ []) names
    | false ↦ valid_names max out names
  ]
]

-- The loop of `Record`: the names and how many of them are new.
unfoldable pub union : List Bytes → ℕ → List Bytes → List Bytes × ℕ
union existing added [] = (existing, added)
union existing added (name ∷ pkgs) = elim (package_valid name) [
  | false ↦ union existing added pkgs
  | true ↦ elim (leb learn_max (length existing)) [
    | true ↦ (existing, added)
    | false ↦ elim (contains existing name) [
      | true ↦ union existing added pkgs
      | false ↦ union (existing ++ name ∷ []) (added + 1) pkgs
    ]
  ]
]

-- `os.CreateTemp`, `os.Remove` and `os.Rename` where they do not fail.
abbrev pub add_temp : Disk → Disk
add_temp disk = record { sidecar = disk.sidecar; temps = disk.temps + 1 }

abbrev pub remove_temp : Faults → Disk → Disk
remove_temp faults disk =
    if faults.remove then disk else record { sidecar = disk.sidecar; temps = disk.temps - 1 }

abbrev pub rename_temp : Disk → Bytes → Disk
rename_temp disk encoded = record { sidecar = some encoded; temps = disk.temps - 1 }

-- From the temporary file on: success or an error, and the disk.
unfoldable pub replace : Faults → Disk → Bytes → Bool × Disk
replace faults disk encoded =
    if faults.create_temp
    then (false, disk)
    else if faults.write
    then (false, remove_temp faults (add_temp disk))
    else if faults.close
    then (false, remove_temp faults (add_temp disk))
    else if faults.rename
    then (false, remove_temp faults (add_temp disk))
    else (true, rename_temp (add_temp disk) encoded)

-- How a call of `Record` ends: with the number of new names, with an error, or with a panic.
pub data Recording : Type 0 where
  recorded : ℕ → Recording
  failed panicked : Recording

abbrev pub reported : ℕ → Bool × Disk → Recording × Disk
reported added (true, disk) = (recorded added, disk)
reported added (false, disk) = (failed, disk)

module _ (json : Codec) where
  abbrev parsed : Option StoredMap → StoredMap
  parsed none = some []
  parsed (some doc) = doc

  abbrev pub parse_raw : Faults → Bytes → StoredMap
  parse_raw faults raw =
      if length raw == 0 || ltb max_store_bytes (length raw)
      then some []
      else if faults.read_file
      then some []
      else parsed (json.unmarshal raw)

  unfoldable pub read_sidecar : Faults → Option Bytes → StoredMap
  read_sidecar faults none = some []
  read_sidecar faults (some raw) = if faults.stat then some [] else parse_raw faults raw

  -- `Store.read`
  unfoldable pub read : Faults → Disk → StoredMap
  read faults disk = read_sidecar faults disk.sidecar

  -- `Store.Load`
  unfoldable pub load : Faults → Disk → Bytes → ℕ → List Bytes
  load faults disk root max =
      if length root == 0 || max == 0
      then []
      else sort_strings (valid_names max [] (names_of (read faults disk) root))

  abbrev pub save : Faults → Disk → ℕ → Option Bytes → Recording × Disk
  save faults disk added none = (failed, disk)
  save faults disk added (some encoded) = reported added (replace faults disk encoded)

  -- From the assignment `doc[gitRoot] = existing` on, which panics on the nil map.
  abbrev pub assign : Faults → Disk → StoredMap → Bytes → List Bytes → ℕ → Recording × Disk
  assign faults disk none root existing added = (panicked, disk)
  assign faults disk (some doc) root existing added =
      save faults disk added (json.marshal ((root, existing) ∷ doc))

  abbrev pub persist : Faults → Disk → StoredMap → Bytes → List Bytes × ℕ → Recording × Disk
  persist faults disk doc root (existing, added) =
      if added == 0 then (recorded 0, disk) else assign faults disk doc root existing added

  -- `Store.Record`
  unfoldable pub record_names : Faults → Disk → Bytes → List Bytes → Recording × Disk
  record_names faults disk root pkgs =
      if length root == 0 || length pkgs == 0
      then (recorded 0, disk)
      else (let doc = read faults disk in
          persist faults disk doc root (union (names_of doc root) 0 pkgs))
