-- ===== src/Store/Trips.antt =====
-- src/draftbench/store.py: what was put is what is got.
use llm_draftbench.Prelude.{
  ◌||◌, ℕ, String, Bool, true, false, Option, none, some, List, ◌≡◌, refl, sym, ap, subst, inl, inr,
  Bool-cases, leb, length, Result, ok, err, ok-injective, arith,
}
use llm_draftbench.Ledger.Ident.{is_digest}
use llm_draftbench.Scoring.Decisions.{same_codes}
use llm_draftbench.Scoring.Checks.Substrings.{same_codes→path}
use llm_draftbench.Store.Objects.{
  StoreError, store_io_error, Bytes, max_object_bytes, File, Store, StoreFaults, at_read, at_sync,
  at_stage, at_identity, at_write, at_inspect, at_link, at_read_back, at_discard, at_directory_sync,
  find_object, read_entry, read, get,
}
use llm_draftbench.Store.Publish.{
  object_of, link, raced, read_back, discarded, write_error, publish, put_found, put, synced,
  PutCall, puts,
}
use llm_draftbench.Store.Kept.{puts-Keeps}

err-ok {ℓ} :
    {A : Type ℓ} {e : StoreError} {a : A} → ◌≡◌ {A = Result StoreError A} (err e) (ok a) → ⊥
err-ok h = cc

module _ (sha256 : Bytes → String) where
  -- An object under its digest, with its bytes, that passes every check.
  pub record Intact (digest : String) (content : Bytes) (objects : List (String × File))
      : Type 0 where
    pub file : File
    pub found : find_object digest objects ≡ some file
    pub sound : read_entry sha256 digest (some file) ≡ ok (some content)

  read_entry-Intact :
      (digest : String) (content : Bytes) (objects : List (String × File)) (o : Option File)
      → find_object digest objects ≡ o
      → read_entry sha256 digest o ≡ ok (some content)
      → Intact digest content objects
  read_entry-Intact digest content objects none missing h = cc
  read_entry-Intact digest content objects (some f) there h = record {
    file = f;
    found = there;
    sound = h;
  }

  read-Intact :
      (fault : Bool) (digest : String) (content : Bytes) (objects : List (String × File))
      → read sha256 fault digest objects ≡ ok (some content)
      → Intact digest content objects
  read-Intact false digest content objects h =
      read_entry-Intact digest content objects (find_object digest objects) refl h
  read-Intact true digest content objects h = cc

  synced-ok :
      (b : Bool) (r : Result StoreError (Option Bytes)) (o : Option Bytes)
      → synced b r ≡ ok o
      → r ≡ ok o
  synced-ok true (ok (some found)) o h = cc
  synced-ok true (ok none) o h = h
  synced-ok true (err e) o h = h
  synced-ok false r o h = h

  discarded-ok :
      (discard sync : Bool) (objects : List (String × File)) (staged : ℕ) (digest d : String)
      (o : Result StoreError (Unit {0}))
      → (discarded discard sync objects staged digest o).1 ≡ ok d
      → (o ≡ ok tt)
        × (digest ≡ d)
        × ((discarded discard sync objects staged digest o).0.objects ≡ objects)
  discarded-ok true sync objects staged digest d o h = cc
  discarded-ok false sync objects staged digest d (err e) h = cc
  discarded-ok false true objects staged digest d (ok x) h = cc
  discarded-ok false false objects staged digest d (ok x) h = (refl, ok-injective h, refl)

  discarded-err :
      (discard sync : Bool) (objects : List (String × File)) (staged : ℕ) (digest d : String)
      (e : StoreError)
      → (discarded discard sync objects staged digest (err e)).1 ≡ ok d
      → ⊥
  discarded-err discard sync objects staged digest d e h =
      err-ok (discarded-ok discard sync objects staged digest d (err e) h).0

  read_back-ok :
      (content : Bytes) (r : Result StoreError (Option Bytes))
      → read_back content r ≡ ok tt
      → r ≡ ok (some content)
  read_back-ok content (err e) h = cc
  read_back-ok content (ok none) h = cc
  read_back-ok content (ok (some found)) h = elim (Bool-cases (same_codes found content)) [
    | inl same ↦ ap (λ b. ok (some b)) (same_codes→path found content same)
    | inr differs ↦ absurd (ground (arith, h, differs))
  ]

  -- A put that returned: its name is the digest, and the object is there.
  abbrev Published : Bytes → String → Store → Type 0
  Published content d s = (sha256 content ≡ d) × Intact (sha256 content) content s.objects

  publish-Published :
      (faults : StoreFaults) (race : Option File) (content : Bytes) (s : Store) (d : String)
      → (publish sha256 faults race (sha256 content) content s).1 ≡ ok d
      → Published content d (publish sha256 faults race (sha256 content) content s).0
  unfolding publish
  publish-Published faults race content s d h = elim (Bool-cases (faults at_stage)) [
    | inl down ↦ absurd (err-ok (rw down at h))
    | inr staged ↦ elim (Bool-cases (faults at_identity)) [
      | inl named ↦ absurd (err-ok (rw (staged, named) at h))
      | inr known ↦ elim (Bool-cases (faults at_write || faults at_inspect)) [
        | inl down ↦ absurd (
            discarded-err (faults at_discard) (faults at_directory_sync) s.objects s.staged
              (sha256 content) d (write_error faults) (rw (staged, known, down) at h))
        | inr written ↦ elim (Bool-cases (faults at_link)) [
          | inl down ↦ absurd (
              discarded-err (faults at_discard) (faults at_directory_sync)
                (raced race (sha256 content) s.objects) s.staged (sha256 content) d store_io_error
                (rw (staged, known, written, down) at h))
          | inr links ↦
              let linked =
                link (sha256 content) (object_of content) (raced race (sha256 content) s.objects) in
              let back = read sha256 (faults at_read_back) (sha256 content) linked in
              let (outcome, named, objects) =
                discarded-ok (faults at_discard) (faults at_directory_sync) linked s.staged
                  (sha256 content) d (read_back content back)
                  (rw (staged, known, written, links) at h) in
              let intact =
                read-Intact (faults at_read_back) (sha256 content) content linked
                  (read_back-ok content back outcome) in
              rw (staged, known, written, links)
                (named, subst (Intact (sha256 content) content) (sym objects) intact)
        ]
      ]
    ]
  ]

  put_found-Published :
      (faults : StoreFaults) (race : Option File) (content : Bytes) (s : Store) (d : String)
      (o : Result StoreError (Option Bytes))
      → ((found : Bytes) → o ≡ ok (some found) → Intact (sha256 content) found s.objects)
      → (put_found sha256 faults race content s o).1 ≡ ok d
      → Published content d (put_found sha256 faults race content s o).0
  put_found-Published faults race content s d (err e) seen h = absurd (err-ok h)
  put_found-Published faults race content s d (ok none) seen h =
      publish-Published faults race content s d h
  put_found-Published faults race content s d (ok (some there)) seen h =
      elim (Bool-cases (same_codes there content)) [
        | inr differs ↦ absurd (err-ok (rw differs at h))
        | inl agrees ↦ elim (Bool-cases (faults at_directory_sync)) [
          | inl down ↦ absurd (err-ok (rw (agrees, down) at h))
          | inr syncs ↦
              rw (agrees, syncs)
                (
                  ok-injective (rw (agrees, syncs) at h),
                  subst (λ b. Intact (sha256 content) b s.objects)
                      (same_codes→path there content agrees) (seen there refl),
                )
        ]
      ]

  put-Published :
      (faults : StoreFaults) (race : Option File) (content : Bytes) (s : Store) (d : String)
      → (put sha256 faults race content s).1 ≡ ok d
      → Published content d (put sha256 faults race content s).0
  unfolding put
  put-Published faults race content s d h =
      elim (Bool-cases (leb (length content) max_object_bytes)) [
        | inr large ↦ absurd (err-ok (rw large at h))
        | inl fits ↦
            let seen =
              synced (faults at_sync) (read sha256 (faults at_read) (sha256 content) s.objects) in
            rw fits (
              put_found-Published faults race content s d seen
                (λ found e.
                  read-Intact (faults at_read) (sha256 content) found s.objects
                    (synced-ok (faults at_sync) _ _ e))
                (rw fits at h))
      ]

  get-Intact :
      (reading : StoreFaults) (digest : String) (content : Bytes) (s : Store)
      → is_digest digest ≡ true
      → reading at_read ≡ false
      → Intact digest content s.objects
      → get sha256 reading digest s ≡ ok content
  unfolding get
  get-Intact reading digest content s hex calm i = rw (hex, calm, i.found, i.sound) refl

  -- What a put returned gets its bytes back, whatever is put afterwards, by whom and with whatever
  -- faults, where the digests are digests and the reads of the get do not fail.
  pub get-put :
      (faults : StoreFaults) (race : Option File) (content : Bytes) (s : Store) (d : String)
      (later : List PutCall) (reading : StoreFaults)
      → is_digest (sha256 content) ≡ true
      → reading at_read ≡ false
      → (put sha256 faults race content s).1 ≡ ok d
      → get sha256 reading d (puts sha256 later (put sha256 faults race content s).0) ≡ ok content
  get-put faults race content s d later reading hex calm h =
      let (named, intact) = put-Published faults race content s d h in
      let kept =
        puts-Keeps sha256 later (put sha256 faults race content s).0 (sha256 content) intact.file
          intact.found in
      subst
        (λ n.
          get sha256 reading n (puts sha256 later (put sha256 faults race content s).0)
          ≡ ok content)
        named
        (get-Intact reading (sha256 content) content
          (puts sha256 later (put sha256 faults race content s).0) hex calm
          (record { file = intact.file; found = kept; sound = intact.sound }))
