-- ===== src/Store/Samples.antt =====
-- src/draftbench/store.py: two artifacts, puts that fail, and the theorems there.
use llm_draftbench.Prelude.{
  String, true, false, Bool-cases, inr, none, some, List, [], ◌∷◌, map, inl, length, if◌then◌else◌,
  nat_eq, ◌≡◌, refl, ok, err,
}
use llm_draftbench.Ledger.Ident.{is_digest}
use llm_draftbench.Store.Objects.{
  Bytes, Store, StoreFaults, artifact_missing, artifact_hash_mismatch, store_io_error, at_link,
  at_identity, at_directory_sync, find_object, get,
}
use llm_draftbench.Store.Publish.{PutCall, object_of, publish, put, puts}
use llm_draftbench.Store.Kept.{puts-Keeps}
use llm_draftbench.Store.Trips.{get-put}
use llm_draftbench.Store.Retry.{calm, attempt, put-attempts}

-- A digest of two classes of bytes.
abbrev sha : Bytes → String
sha b =
    if nat_eq (length b) 1
    then "1111111111111111111111111111111111111111111111111111111111111111"
    else "2222222222222222222222222222222222222222222222222222222222222222"

abbrev empty : Store
empty = record { objects = []; staged = 0 }

abbrev unlinked : StoreFaults
unlinked at_link = true
unlinked _ = false

abbrev unsynced : StoreFaults
unsynced at_directory_sync = true
unsynced _ = false

program : Unit {0}
unfolding is_digest get publish put puts
program = tt

-- A link that fails leaves no object, and a last sync that fails leaves one.
put-unlinked : put sha unlinked none (7 ∷ []) empty ≡ (empty, err store_io_error)
unfolding program
put-unlinked = refl

-- A staging file whose identity is not known stays.
abbrev unknown_stage : StoreFaults
unknown_stage at_identity = true
unknown_stage _ = false

put-unknown_stage :
    put sha unknown_stage none (7 ∷ []) empty
    ≡ (record { objects = []; staged = 1 }, err store_io_error)
unfolding program
put-unknown_stage = refl

put-unsynced :
    put sha unsynced none (7 ∷ []) empty
    ≡ (record { objects = (sha (7 ∷ []), object_of (7 ∷ [])) ∷ []; staged = 0 }, err store_io_error)
unfolding program
put-unsynced = refl

-- Other bytes under the name are not replaced.
put-taken :
    (put sha calm none
      (8 ∷ [])
      (record { objects = (sha (7 ∷ []), object_of (7 ∷ [])) ∷ []; staged = 0 })).1
    ≡ err artifact_hash_mismatch
unfolding program
put-taken = refl

get-absent : get sha calm (sha (7 ∷ [])) empty ≡ err artifact_missing
unfolding program
get-absent = refl

abbrev later : List PutCall
later =
    record { faults = unlinked; race = some (object_of (9 ∷ 9 ∷ [])); content = 1 ∷ 2 ∷ [] }
    ∷ record { faults = calm; race = none; content = 7 ∷ [] }
    ∷ []

hex : is_digest (sha (7 ∷ [])) ≡ true
unfolding program
hex = refl

returned : (put sha calm none (7 ∷ []) empty).1 ≡ ok (sha (7 ∷ []))
unfolding program
returned = refl

get-put_example :
    get sha calm (sha (7 ∷ [])) (puts sha later (put sha calm none (7 ∷ []) empty).0) ≡ ok (7 ∷ [])
get-put_example = get-put sha calm none (7 ∷ []) empty (sha (7 ∷ [])) later calm hex refl returned

puts-Keeps_example :
    find_object
      (sha (7 ∷ []))
      (puts sha later
        (record { objects = (sha (7 ∷ []), object_of (7 ∷ [])) ∷ []; staged = 0 })).objects
    ≡ some (object_of (7 ∷ []))
puts-Keeps_example =
    puts-Keeps sha later (record { objects = (sha (7 ∷ []), object_of (7 ∷ [])) ∷ []; staged = 0 })
      (sha (7 ∷ [])) (object_of (7 ∷ [])) refl

put-attempts_example :
    (put sha calm none
      (7 ∷ [])
      (puts sha (map (attempt sha (7 ∷ [])) (unlinked ∷ unsynced ∷ [])) empty)).1
    ≡ ok (sha (7 ∷ []))
put-attempts_example = put-attempts sha (7 ∷ []) (unlinked ∷ unsynced ∷ []) empty refl (inl refl)

all_hex : (b : Bytes) → is_digest (sha b) ≡ true
unfolding program
all_hex b = elim (Bool-cases (nat_eq (length b) 1)) [
  | inl one ↦ rw one refl
  | inr more ↦ rw more refl
]
