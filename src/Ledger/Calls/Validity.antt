-- ===== src/Ledger/Calls/Validity.antt =====
-- src/draftbench/ledger.py: what every body keeps, every sequence of calls keeps.
use llm_draftbench.Prelude.{
  String, Bool, true, false, Option, none, some, List, [], ◌∷◌, ◌≡◌, refl, ◌||◌, Result, ok, err,
  guard, ◌>>◌, guard-eq-ok, ◌&&◌, if◌then◌else◌,
}
use llm_draftbench.Ledger.Types.{
  LedgerError, closed, readonly, invalid_state, State, planned, reserved, uncertain, unavailable,
  blocked, state_eq, Db, skip_codes,
}
use llm_draftbench.Ledger.Ident.{is_identifier, check_identifier, check_code}
use llm_draftbench.Ledger.Session.{
  Ledger, CommitFault, rolled_back, durable, Faults, Body, transaction, committed, opened, checked,
  close,
}
use llm_draftbench.Ledger.Policy.{Policy}
use llm_draftbench.Ledger.Operations
use llm_draftbench.Ledger.Operations.{
  reserve_body, transition_body, skip_body, recover_body, reconcile_body, authorize_body,
}
use llm_draftbench.Ledger.Invariant.{IsValid}
use llm_draftbench.Ledger.Preservation.Methods.{
  transition_body-Keeps, skip_body-Keeps, recover_body-Keeps,
}
use llm_draftbench.Ledger.Preservation.Reserve.{reserve_body-Keeps}
use llm_draftbench.Ledger.Preservation.Reconcile.{reconcile_body-Keeps}
use llm_draftbench.Ledger.Preservation.Retrying.{authorize_body-Keeps}
use llm_draftbench.Ledger.Calls.{Call, call, run, forget}

-- `P` of the database before a method is `P` of the database after it.
abbrev pub Preserves :
    {A : Type 0} → (Db → Type 0) → (Ledger → Result LedgerError A × Ledger) → Type 0
Preserves P method = (l : Ledger) → P l.db → P (method l).1.db

abbrev pub KeepsOf : {A : Type 0} → (Db → Type 0) → Body A → Type 0
KeepsOf {A} P body = (db : Db) (p : A × Db) → P db → body db ≡ ok p → P p.1

forget-db :
    {A : Type 0} (P : Db → Type 0) (r : Result LedgerError A × Ledger)
    → P r.1.db
    → P (forget r).1.db
forget-db P (ok a, l) h = h
forget-db P (err e, l) h = h

module _ {A : Type 0} (P : Db → Type 0) where
  committed-Preserves :
      (fault : Option CommitFault) (l : Ledger) (r : Result LedgerError (A × Db))
      → P l.db
      → ((p : A × Db) → r ≡ ok p → P p.1)
      → P (committed fault l r).1.db
  committed-Preserves fault l (err e) h k = h
  committed-Preserves none l (ok (a, db)) h k = k (a, db) refl
  committed-Preserves (some (rolled_back e)) l (ok (a, db)) h k = h
  committed-Preserves (some (durable e)) l (ok (a, db)) h k = k (a, db) refl

  opened-Preserves :
      (fault : Option LedgerError) (l : Ledger) (rest : Result LedgerError A × Ledger)
      → P l.db
      → P rest.1.db
      → P (opened fault l rest).1.db
  opened-Preserves none l rest h k = k
  opened-Preserves (some e) l rest h k = h

  either :
      (b : Bool) (x y : Result LedgerError A × Ledger)
      → P x.1.db
      → P y.1.db
      → P (if b then x else y).1.db
  either true x y h k = h
  either false x y h k = k

  -- A transaction that fails, is refused or is rolled back changes nothing.
  pub transaction-Preserves :
      (faults : Faults) (write : Bool) (body : Body A)
      → ((db : Db) (p : A × Db) → P db → body db ≡ ok p → P p.1)
      → Preserves P (transaction faults write body)
  unfolding transaction
  transaction-Preserves faults write body k l h =
      either l.closed (err closed, l) _ h
        (either (write && l.readonly) (err readonly, l) _ h
          (opened-Preserves faults.before l (committed faults.commit l (body l.db)) h
            (committed-Preserves faults.commit l (body l.db) h (λ p e. k l.db p h e))))

  pub checked-Preserves :
      (checks : Result LedgerError (Unit {0})) (method : Ledger → Result LedgerError A × Ledger)
      → (checks ≡ ok tt → Preserves P method)
      → Preserves P (checked checks method)
  checked-Preserves (err e) method k l h = h
  checked-Preserves (ok tt) method k l h = k refl l h

  pub forget-Preserves :
      (method : Ledger → Result LedgerError A × Ledger)
      → Preserves P method
      → Preserves P (λ l. forget (method l))
  forget-Preserves method k l h = forget-db P (method l) (k l h)

-- A state that `skip` accepts.
skippable :
    (state : State) (work code : String)
    → (do
      check_identifier work
      guard (state_eq state unavailable || state_eq state blocked) invalid_state
      check_code code skip_codes)
      ≡ ok tt
    → state_eq state reserved ≡ false
skippable reserved work code h = let (_, rest) = guard-eq-ok (is_identifier work) _ _ h in cc (rest)
skippable planned work code h = refl
skippable _ work code h = refl

-- What the bodies keep.
pub record Rules (P : Db → Type 0) : Type 0 where
  pub reserve :
      (policy : Option Policy) (uuid work request : String)
      → KeepsOf P (reserve_body policy uuid work request)
  pub transition :
      (attempt : String) (source target : State) (result code : Option String)
      → state_eq source uncertain ≡ false
      → state_eq target reserved ≡ false
      → KeepsOf P (transition_body attempt source target result code)
  pub skip :
      (work : String) (state : State) (code : String)
      → state_eq state reserved ≡ false
      → KeepsOf P (skip_body work state code)
  pub recover : KeepsOf P recover_body
  pub reconcile :
      (attempt result receipt : String) → KeepsOf P (reconcile_body attempt result receipt)
  pub authorize :
      (attempt receipt evidence : String) → KeepsOf P (authorize_body attempt receipt evidence)

module _ {P : Db → Type 0} (rules : Rules P) where
  write_call :
      {A : Type 0}
      → (faults : Faults) (checks : Result LedgerError (Unit {0})) (body : Body A)
      → (checks ≡ ok tt → KeepsOf P body)
      → Preserves P (λ l. forget (checked checks (transaction faults true body) l))
  write_call faults checks body k =
      forget-Preserves P (checked checks (transaction faults true body)) (
        checked-Preserves P checks (transaction faults true body)
          (λ passed. transaction-Preserves P faults true body (k passed)))

  pub call-Preserves : (f : Faults) (c : Call) → Preserves P (call f c)
  unfolding call Operations.reserve Operations.start Operations.record_result Operations.complete
      Operations.fail Operations.skip Operations.recover Operations.reconcile_result
      Operations.authorize_unsent_retry close
  call-Preserves f (Call.reserve policy uuid work request) =
      write_call f _ _ (λ _. rules.reserve policy uuid work request)
  call-Preserves f (Call.start attempt) =
      write_call f _ _ (λ _. rules.transition attempt _ _ _ _ refl refl)
  call-Preserves f (Call.record_result attempt result) =
      write_call f _ _ (λ _. rules.transition attempt _ _ _ _ refl refl)
  call-Preserves f (Call.complete attempt) =
      write_call f _ _ (λ _. rules.transition attempt _ _ _ _ refl refl)
  call-Preserves f (Call.fail attempt code true) =
      write_call f _ _ (λ _. rules.transition attempt _ _ _ _ refl refl)
  call-Preserves f (Call.fail attempt code false) =
      write_call f _ _ (λ _. rules.transition attempt _ _ _ _ refl refl)
  call-Preserves f (Call.skip work state code) =
      write_call f _ _ (λ passed. rules.skip work state code (skippable state work code passed))
  call-Preserves f Call.recover =
      forget-Preserves P (transaction f true recover_body)
        (transaction-Preserves P f true recover_body rules.recover)
  call-Preserves f (Call.reconcile_result attempt result receipt) =
      write_call f _ _ (λ _. rules.reconcile attempt result receipt)
  call-Preserves f (Call.authorize_unsent_retry attempt receipt evidence) =
      write_call f _ _ (λ _. rules.authorize attempt receipt evidence)
  call-Preserves f Call.close_it = λ l h. h

  pub run-Preserves : (calls : List (Faults × Call)) (l : Ledger) → P l.db → P (run calls l).db
  unfolding run
  run-Preserves [] l h = h
  run-Preserves ((f, c) ∷ rest) l h = run-Preserves rest (call f c l).1 (call-Preserves f c l h)

IsValid-Rules : Rules IsValid
IsValid-Rules = record {
  reserve = λ policy uuid work request db p h. reserve_body-Keeps policy uuid work request db p h;
  transition = λ attempt source target result code calm other db p h.
      transition_body-Keeps attempt source target result code calm other db p h;
  skip = λ work state code other db p h. skip_body-Keeps work state code other db p h;
  recover = λ db p h. recover_body-Keeps db p h;
  reconcile = λ attempt result receipt db p h. reconcile_body-Keeps attempt result receipt db p h;
  authorize =
      λ attempt receipt evidence db p h. authorize_body-Keeps attempt receipt evidence db p h;
}

pub run-IsValid :
    (calls : List (Faults × Call)) (l : Ledger) → IsValid l.db → IsValid (run calls l).db
run-IsValid = run-Preserves IsValid-Rules
