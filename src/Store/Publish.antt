-- ===== src/Store/Publish.antt =====
-- src/draftbench/store.py: `put` and `_publish`. Another writer may link the same name first.
use llm_draftbench.Prelude.{
  ℕ, suc, String, Bool, true, false, Option, none, some, List, [], ◌∷◌, not, ◌||◌, leb, length,
  if◌then◌else◌, Result, ok, err,
}
use llm_draftbench.Scoring.Decisions.{same_codes}
use llm_draftbench.Store.Objects.{
  StoreError, store_io_error, artifact_limit, artifact_missing, artifact_hash_mismatch, Bytes,
  max_object_bytes, File, Store, StoreFaults, at_read, at_sync, at_stage, at_write, at_link,
  at_read_back, at_discard, at_directory_sync, find_object, read, at_identity, at_inspect,
  unsafe_artifact,
}

abbrev pub object_of : Bytes → File
object_of content = record { regular = true; mode_600 = true; owned = true; content = content }

-- `os.link`, which does not replace what is there.
abbrev pub link_entry : String → File → Option File → List (String × File) → List (String × File)
link_entry name f none objects = (name, f) ∷ objects
link_entry name f (some g) objects = objects

abbrev pub link : String → File → List (String × File) → List (String × File)
link name f objects = link_entry name f (find_object name objects) objects

-- What another writer links meanwhile.
abbrev pub raced : Option File → String → List (String × File) → List (String × File)
raced none name objects = objects
raced (some f) name objects = link name f objects

-- An object that is there already is synced.
abbrev pub synced : Bool → Result StoreError (Option Bytes) → Result StoreError (Option Bytes)
synced true (ok (some found)) = err store_io_error
synced fault r = r

-- The object that is read back has to be the data.
abbrev pub read_back : Bytes → Result StoreError (Option Bytes) → Result StoreError (Unit {0})
read_back content (err e) = err e
read_back content (ok none) = err artifact_missing
read_back content (ok (some found)) =
    if same_codes found content then ok tt else err artifact_hash_mismatch

-- `_discard_stage` and the last fsync, after an outcome; either may fail.
abbrev pub discarded :
    (discard sync : Bool)
    → List (String × File)
    → ℕ
    → String
    → Result StoreError (Unit {0})
    → Store × Result StoreError String
discarded true sync objects staged digest outcome =
    (record { objects = objects; staged = suc staged }, err store_io_error)
discarded false sync objects staged digest (err e) =
    (record { objects = objects; staged = staged }, err e)
discarded false true objects staged digest (ok _) =
    (record { objects = objects; staged = staged }, err store_io_error)
discarded false false objects staged digest (ok _) =
    (record { objects = objects; staged = staged }, ok digest)

-- A staging file that is not what was written is unsafe.
abbrev pub write_error : StoreFaults → StoreError
write_error faults = if faults at_write then store_io_error else unsafe_artifact

-- A put of any process, with its faults and its race.
pub record PutCall : Type 0 where
  pub faults : StoreFaults
  pub race : Option File
  pub content : Bytes

module _ (sha256 : Bytes → String) where
  -- `_publish`. A staging file whose identity is not known yet is not discarded.
  unfoldable pub publish :
      StoreFaults → Option File → String → Bytes → Store → Store × Result StoreError String
  publish faults race digest content s =
      if faults at_stage
      then (s, err store_io_error)
      else if faults at_identity
      then (record s { staged = suc s.staged }, err store_io_error)
      else if faults at_write || faults at_inspect
      then discarded (faults at_discard) (faults at_directory_sync) s.objects s.staged digest
          (err (write_error faults))
      else if faults at_link
      then discarded (faults at_discard) (faults at_directory_sync) (raced race digest s.objects)
          s.staged digest (err store_io_error)
      else (let objects = link digest (object_of content) (raced race digest s.objects) in
          discarded (faults at_discard) (faults at_directory_sync) objects s.staged digest
            (read_back content (read sha256 (faults at_read_back) digest objects)))

  -- `put`, once the name was looked up.
  abbrev pub put_found :
      StoreFaults
      → Option File
      → Bytes
      → Store
      → Result StoreError (Option Bytes)
      → Store × Result StoreError String
  put_found faults race content s (err e) = (s, err e)
  put_found faults race content s (ok none) = publish faults race (sha256 content) content s
  put_found faults race content s (ok (some found)) =
      if not (same_codes found content)
      then (s, err artifact_hash_mismatch)
      else if faults at_directory_sync
      then (s, err store_io_error)
      else (s, ok (sha256 content))

  -- `put`
  unfoldable pub put : StoreFaults → Option File → Bytes → Store → Store × Result StoreError String
  unfolding publish
  put faults race content s =
      if not (leb (length content) max_object_bytes)
      then (s, err artifact_limit)
      else put_found faults race content s
          (synced (faults at_sync) (read sha256 (faults at_read) (sha256 content) s.objects))

  unfoldable pub puts : List PutCall → Store → Store
  unfolding put
  puts [] s = s
  puts (c ∷ cs) s = puts cs (put c.faults c.race c.content s).0
