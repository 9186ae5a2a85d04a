-- ===== src/Store/Kept.antt =====
-- src/draftbench/store.py: no `put` replaces or removes an object.
use llm_draftbench.Prelude.{
  ◌||◌, ℕ, String, Bool, true, false, Option, none, some, List, [], ◌∷◌, not, ◌==◌, ◌≡◌, refl, sym,
  ap, ◌∙◌, subst, inl, inr, Bool-cases, leb, length, Result, ok, err,
}
use llm_draftbench.Prelude.Text.{eq→path}
use llm_draftbench.Scoring.Decisions.{same_codes}
use llm_draftbench.Store.Objects.{
  StoreError, store_io_error, Bytes, max_object_bytes, File, Store, StoreFaults, at_read, at_sync,
  at_stage, at_identity, at_write, at_inspect, at_link, at_read_back, at_discard, at_directory_sync,
  find_object, read,
}
use llm_draftbench.Store.Publish.{
  object_of, link_entry, link, raced, read_back, discarded, write_error, publish, put_found, put,
  synced, PutCall, puts,
}

-- Every object of the first list is in the second, as it is.
abbrev pub Keeps : List (String × File) → List (String × File) → Type 0
Keeps before after =
    (name : String) (f : File) → find_object name before ≡ some f → find_object name after ≡ some f

none-some {ℓ} : {A : Type ℓ} {a : A} → ◌≡◌ {A = Option A} none (some a) → ⊥
none-some h = cc

link_entry-Keeps :
    (name : String) (f : File) (o : Option File) (objects : List (String × File))
    → find_object name objects ≡ o
    → Keeps objects (link_entry name f o objects)
link_entry-Keeps name f (some g) objects there n h found = found
link_entry-Keeps name f none objects missing n h found = elim (Bool-cases (name == n)) [
  | inl same ↦
      absurd
        (none-some (sym missing ∙ ap (λ x. find_object x objects) (eq→path name n same) ∙ found))
  | inr other ↦ rw (find_object, other) found
]

pub link-Keeps :
    (name : String) (f : File) (objects : List (String × File))
    → Keeps objects (link name f objects)
link-Keeps name f objects = link_entry-Keeps name f (find_object name objects) objects refl

raced-Keeps :
    (race : Option File) (name : String) (objects : List (String × File))
    → Keeps objects (raced race name objects)
raced-Keeps none name objects n h found = found
raced-Keeps (some f) name objects n h found = link-Keeps name f objects n h found

pub discarded-objects :
    (discard sync : Bool) (objects : List (String × File)) (staged : ℕ) (digest : String)
    (o : Result StoreError (Unit {0}))
    → (discarded discard sync objects staged digest o).0.objects ≡ objects
discarded-objects true sync objects staged digest o = refl
discarded-objects false sync objects staged digest (err e) = refl
discarded-objects false true objects staged digest (ok x) = refl
discarded-objects false false objects staged digest (ok x) = refl

discarded-Keeps :
    (before : List (String × File)) (discard sync : Bool) (objects : List (String × File))
    (staged : ℕ) (digest : String) (o : Result StoreError (Unit {0}))
    → Keeps before objects
    → Keeps before (discarded discard sync objects staged digest o).0.objects
discarded-Keeps before discard sync objects staged digest o k =
    subst (Keeps before) (sym (discarded-objects discard sync objects staged digest o)) k

module _ (sha256 : Bytes → String) where
  publish-Keeps :
      (faults : StoreFaults) (race : Option File) (digest : String) (content : Bytes) (s : Store)
      → Keeps s.objects (publish sha256 faults race digest content s).0.objects
  unfolding publish
  publish-Keeps faults race digest content s =
      let met = raced race digest s.objects in
      let linked = link digest (object_of content) met in
      elim (Bool-cases (faults at_stage)) [
        | inl down ↦ rw down (λ n f found. found)
        | inr staged ↦ elim (Bool-cases (faults at_identity)) [
          | inl named ↦ rw (staged, named) (λ n f found. found)
          | inr known ↦ elim (Bool-cases (faults at_write || faults at_inspect)) [
            | inl down ↦
                rw (staged, known, down)
                  (discarded-Keeps s.objects (faults at_discard) (faults at_directory_sync)
                    s.objects s.staged digest (err (write_error faults)) (λ n f found. found))
            | inr written ↦ elim (Bool-cases (faults at_link)) [
              | inl down ↦
                  rw (staged, known, written, down)
                    (discarded-Keeps s.objects (faults at_discard) (faults at_directory_sync) met
                      s.staged digest (err store_io_error) (raced-Keeps race digest s.objects))
              | inr links ↦
                  rw (staged, known, written, links)
                    (discarded-Keeps s.objects (faults at_discard) (faults at_directory_sync) linked
                      s.staged digest
                      (read_back content (read sha256 (faults at_read_back) digest linked))
                      (λ n f found.
                        link-Keeps digest (object_of content) met n f
                          (raced-Keeps race digest s.objects n f found)))
            ]
          ]
        ]
      ]

  put_found-Keeps :
      (faults : StoreFaults) (race : Option File) (content : Bytes) (s : Store)
      (o : Result StoreError (Option Bytes))
      → Keeps s.objects (put_found sha256 faults race content s o).0.objects
  put_found-Keeps faults race content s (err e) = λ n f found. found
  put_found-Keeps faults race content s (ok none) =
      publish-Keeps faults race (sha256 content) content s
  put_found-Keeps faults race content s (ok (some there)) =
      elim (Bool-cases (not (same_codes there content))) [
        | inl differs ↦ rw differs (λ n f found. found)
        | inr agrees ↦ elim (Bool-cases (faults at_directory_sync)) [
          | inl down ↦ rw (agrees, down) (λ n f found. found)
          | inr synced ↦ rw (agrees, synced) (λ n f found. found)
        ]
      ]

  pub put-Keeps :
      (faults : StoreFaults) (race : Option File) (content : Bytes) (s : Store)
      → Keeps s.objects (put sha256 faults race content s).0.objects
  unfolding put
  put-Keeps faults race content s =
      elim (Bool-cases (not (leb (length content) max_object_bytes))) [
        | inl large ↦ rw large (λ n f found. found)
        | inr fits ↦ rw fits (
            put_found-Keeps faults race content s
              (synced (faults at_sync) (read sha256 (faults at_read) (sha256 content) s.objects)))
      ]

  -- Whatever is put, by whom and with whatever faults, an object that is there stays as it is.
  pub puts-Keeps :
      (cs : List PutCall) (s : Store) (name : String) (f : File)
      → find_object name s.objects ≡ some f
      → find_object name (puts sha256 cs s).objects ≡ some f
  unfolding puts
  puts-Keeps [] s name f found = found
  puts-Keeps (c ∷ cs) s name f found =
      puts-Keeps cs (put sha256 c.faults c.race c.content s).0 name f
        (put-Keeps c.faults c.race c.content s name f found)
