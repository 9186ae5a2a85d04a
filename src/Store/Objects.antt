-- ===== src/Store/Objects.antt =====
-- src/draftbench/store.py: the objects of a directory, `_check_object`, `_read` and `get`. SHA-256
-- is a parameter, and so is which call of the operating system fails.
use llm_draftbench.Prelude.{
  ℕ, String, Bool, true, false, Option, none, some, List, [], ◌∷◌, ◌&&◌, ◌==◌, leb, length, Result,
  ok, err, guard, ◌>>=◌, ◌>>◌,
}
use llm_draftbench.Ledger.Ident.{is_digest}

pub data StoreError : Type 0 where
  unsafe_store store_exists store_unavailable store_io_error invalid_digest : StoreError
  invalid_artifact artifact_limit artifact_missing unsafe_artifact : StoreError
  artifact_hash_mismatch invalid_json : StoreError

abbrev pub Bytes : Type 0
Bytes = List ℕ

-- `MAX_OBJECT_BYTES`
abbrev pub max_object_bytes : ℕ
max_object_bytes = 8388608

-- A directory entry: a regular file, with mode 0600, of the user's own.
pub record File : Type 0 where
  pub regular : Bool
  pub mode_600 : Bool
  pub owned : Bool
  pub content : Bytes

-- Staging names have a dot, which no digest has: they stand apart from the objects.
pub record Store : Type 0 where
  pub objects : List (String × File)
  pub staged : ℕ

-- The calls that may fail; at `at_inspect` the staging file is found to be another.
pub data Point : Type 0 where
  at_read at_sync at_stage at_identity at_write at_inspect at_link at_read_back : Point
  at_discard at_directory_sync : Point

abbrev pub StoreFaults : Type 0
StoreFaults = Point → Bool

-- `_check_object`
abbrev pub check_object : File → Result StoreError (Unit {0})
check_object f = do
  guard (f.regular && f.mode_600) unsafe_artifact
  guard f.owned unsafe_artifact
  guard (leb (length f.content) max_object_bytes) artifact_limit

abbrev pub find_object : String → List (String × File) → Option File
find_object name [] = none
find_object name ((n, f) ∷ rest) = elim (n == name) [
  | true ↦ some f
  | false ↦ find_object name rest
]

abbrev pub present_bytes : Option Bytes → Result StoreError Bytes
present_bytes none = err artifact_missing
present_bytes (some content) = ok content

module _ (sha256 : Bytes → String) where
  -- What `_read` makes of an entry; `none` is a file that is not there.
  abbrev pub read_entry : String → Option File → Result StoreError (Option Bytes)
  read_entry digest none = ok none
  read_entry digest (some f) = do
    check_object f
    guard (sha256 f.content == digest) artifact_hash_mismatch
    ok (some f.content)

  -- `_read`
  abbrev pub read : Bool → String → List (String × File) → Result StoreError (Option Bytes)
  read fault digest objects = do
    guard (elim fault [ true ↦ false | false ↦ true ]) store_io_error
    read_entry digest (find_object digest objects)

  -- `get`
  unfoldable pub get : StoreFaults → String → Store → Result StoreError Bytes
  unfolding is_digest
  get faults digest s = do
    guard (is_digest digest) invalid_digest
    found ← read (faults at_read) digest s.objects
    present_bytes found
