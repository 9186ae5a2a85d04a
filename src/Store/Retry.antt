-- ===== src/Store/Retry.antt =====
-- src/draftbench/store.py: a put that failed may be tried again.
use llm_draftbench.Prelude.{
  ◌||◌, ℕ, String, Bool, true, false, none, some, List, [], ◌∷◌, map, not, ◌≡◌, ◌⊎◌, refl, sym,
  subst, inl, inr, Bool-cases, leb, length, Result, ok, err,
}
use llm_draftbench.Prelude.Text.{eq_self}
use llm_draftbench.Scoring.Checks.Substrings.{same_codes_refl}
use llm_draftbench.Store.Objects.{
  StoreError, store_io_error, Bytes, max_object_bytes, File, Store, StoreFaults, at_read, at_sync,
  at_stage, at_identity, at_write, at_inspect, at_link, at_read_back, at_discard, at_directory_sync,
  find_object, read,
}
use llm_draftbench.Store.Publish.{
  object_of, link, read_back, discarded, write_error, publish, put, synced, PutCall, puts,
}
use llm_draftbench.Store.Kept.{discarded-objects, put-Keeps}

-- Nothing fails.
abbrev pub calm : StoreFaults
calm p = false

-- At a name there is nothing, or the object that a put of the bytes makes.
abbrev pub Clean : String → Bytes → List (String × File) → Type 0
Clean digest content objects =
    (find_object digest objects ≡ none) ⊎ (find_object digest objects ≡ some (object_of content))

link-Clean :
    (digest : String) (content : Bytes) (objects : List (String × File))
    → find_object digest objects ≡ none
    → find_object digest (link digest (object_of content) objects) ≡ some (object_of content)
link-Clean digest content objects missing = rw (link, missing, find_object, eq_self digest) refl

discarded-Clean :
    (name : String) (content : Bytes) (discard sync : Bool) (objects : List (String × File))
    (staged : ℕ) (digest : String) (o : Result StoreError (Unit {0}))
    → Clean name content objects
    → Clean name content (discarded discard sync objects staged digest o).0.objects
discarded-Clean name content discard sync objects staged digest o c =
    subst (Clean name content) (sym (discarded-objects discard sync objects staged digest o)) c

synced-none : (b : Bool) → synced b (ok none) ≡ ok none
synced-none true = refl
synced-none false = refl

synced-err : (b : Bool) (e : StoreError) → synced b (err e) ≡ err e
synced-err true e = refl
synced-err false e = refl

module _ (sha256 : Bytes → String) where
  publish-Clean :
      (faults : StoreFaults) (content : Bytes) (s : Store)
      → find_object (sha256 content) s.objects ≡ none
      → Clean
          (sha256 content)
          content
          (publish sha256 faults none (sha256 content) content s).0.objects
  unfolding publish
  publish-Clean faults content s missing =
      let linked = link (sha256 content) (object_of content) s.objects in
      elim (Bool-cases (faults at_stage)) [
        | inl down ↦ rw down (inl missing)
        | inr staged ↦ elim (Bool-cases (faults at_identity)) [
          | inl named ↦ rw (staged, named) (inl missing)
          | inr known ↦ elim (Bool-cases (faults at_write || faults at_inspect)) [
            | inl down ↦
                rw (staged, known, down)
                  (discarded-Clean (sha256 content) content (faults at_discard)
                    (faults at_directory_sync) s.objects s.staged (sha256 content)
                    (err (write_error faults)) (inl missing))
            | inr written ↦ elim (Bool-cases (faults at_link)) [
              | inl down ↦
                  rw (staged, known, written, down)
                    (discarded-Clean (sha256 content) content (faults at_discard)
                      (faults at_directory_sync) s.objects s.staged (sha256 content)
                      (err store_io_error) (inl missing))
              | inr links ↦
                  rw (staged, known, written, links)
                    (discarded-Clean (sha256 content) content (faults at_discard)
                      (faults at_directory_sync) linked s.staged (sha256 content)
                      (read_back content
                        (read sha256 (faults at_read_back) (sha256 content) linked))
                      (inr (link-Clean (sha256 content) content s.objects missing)))
            ]
          ]
        ]
      ]

  read-missing :
      (fault sync : Bool) (content : Bytes) (objects : List (String × File))
      → find_object (sha256 content) objects ≡ none
      → (synced sync (read sha256 fault (sha256 content) objects) ≡ ok none)
        ⊎ (synced sync (read sha256 fault (sha256 content) objects) ≡ err store_io_error)
  read-missing true sync content objects missing = inr (synced-err sync store_io_error)
  read-missing false sync content objects missing = inl (rw missing (synced-none sync))

  put-Clean :
      (faults : StoreFaults) (content : Bytes) (s : Store)
      → Clean (sha256 content) content s.objects
      → Clean (sha256 content) content (put sha256 faults none content s).0.objects
  unfolding put
  put-Clean faults content s (inr there) =
      inr (put-Keeps sha256 faults none content s (sha256 content) (object_of content) there)
  put-Clean faults content s (inl missing) =
      elim (Bool-cases (not (leb (length content) max_object_bytes))) [
        | inl large ↦ rw large (inl missing)
        | inr fits ↦
            elim (read-missing (faults at_read) (faults at_sync) content s.objects missing) [
              | inl looked ↦ rw (fits, looked) (publish-Clean faults content s missing)
              | inr failed ↦ rw (fits, failed) (inl missing)
            ]
      ]

  read-object :
      (content : Bytes) (objects : List (String × File))
      → leb (length content) max_object_bytes ≡ true
      → find_object (sha256 content) objects ≡ some (object_of content)
      → read sha256 false (sha256 content) objects ≡ ok (some content)
  read-object content objects fits there = rw (there, fits, eq_self (sha256 content)) refl

  publish-calm :
      (content : Bytes) (s : Store)
      → leb (length content) max_object_bytes ≡ true
      → find_object (sha256 content) s.objects ≡ none
      → (publish sha256 calm none (sha256 content) content s).1 ≡ ok (sha256 content)
  unfolding publish
  publish-calm content s fits missing =
      let linked = link (sha256 content) (object_of content) s.objects in
      rw
        (
          read-object content linked fits (link-Clean (sha256 content) content s.objects missing),
          same_codes_refl content,
        )
        refl

  put-calm :
      (content : Bytes) (s : Store)
      → leb (length content) max_object_bytes ≡ true
      → Clean (sha256 content) content s.objects
      → (put sha256 calm none content s).1 ≡ ok (sha256 content)
  unfolding put
  put-calm content s fits (inr there) =
      rw (fits, read-object content s.objects fits there, same_codes_refl content) refl
  put-calm content s fits (inl missing) = rw (fits, missing) (publish-calm content s fits missing)

  abbrev pub attempt : Bytes → StoreFaults → PutCall
  attempt content faults = record { faults = faults; race = none; content = content }

  -- Bytes that fit, and of which there is no object yet, or theirs, are put by the first attempt
  -- without a fault, however many attempts failed before it and wherever.
  pub put-attempts :
      (content : Bytes) (failed : List StoreFaults) (s : Store)
      → leb (length content) max_object_bytes ≡ true
      → Clean (sha256 content) content s.objects
      → (put sha256 calm none content (puts sha256 (map (attempt content) failed) s)).1
        ≡ ok (sha256 content)
  unfolding puts
  put-attempts content [] s fits clean = put-calm content s fits clean
  put-attempts content (f ∷ fs) s fits clean =
      put-attempts content fs (put sha256 f none content s).0 fits (put-Clean f content s clean)
