-- ===== src/Ledger/Session.antt =====
-- src/draftbench/ledger.py: `Ledger`, its flags, and `_transaction`. The checks of the file and of
-- its sidecars, BEGIN and COMMIT belong to the file system and to SQLite: what they raise, if they
-- raise, is a parameter.
use llm_draftbench.Prelude.{Bool, true, Option, none, some, ◌&&◌, if◌then◌else◌, Result, ok, err}
use llm_draftbench.Ledger.Types.{LedgerError, closed, readonly, Db}

pub record Handle (D : Type 0) : Type 0 where
  pub closed : Bool
  pub readonly : Bool
  pub db : D

abbrev pub Ledger : Type 0
Ledger = Handle Db

-- A COMMIT that raises: the transaction is rolled back, or the database has it for all that.
pub data CommitFault : Type 0 where
  rolled_back durable : LedgerError → CommitFault

-- What the environment raises: before the body runs (`_same_file`, `_check_sidecars`,
-- `_check_readonly`, BEGIN), and at COMMIT.
pub record Faults : Type 0 where
  pub before : Option LedgerError
  pub commit : Option CommitFault

abbrev pub no_faults : Faults
no_faults = record { before = none; commit = none }

-- What runs between BEGIN and COMMIT.
abbrev pub BodyOn : Type 0 → Type 0 → Type 0
BodyOn D A = D → Result LedgerError (A × D)

abbrev pub Body : Type 0 → Type 0
Body A = BodyOn Db A

-- COMMIT, which may raise, or a rollback that leaves the database as it was.
abbrev pub committed :
    {D A : Type 0}
    → Option CommitFault
    → Handle D
    → Result LedgerError (A × D)
    → Result LedgerError A × Handle D
committed fault l (err e) = (err e, l)
committed none l (ok (a, db)) = (ok a, record l { db = db })
committed (some (rolled_back e)) l (ok (a, db)) = (err e, l)
committed (some (durable e)) l (ok (a, db)) = (err e, record l { db = db })

abbrev pub opened :
    {D A : Type 0}
    → Option LedgerError
    → Handle D
    → Result LedgerError A × Handle D
    → Result LedgerError A × Handle D
opened none l rest = rest
opened (some e) l rest = (err e, l)

unfoldable pub transaction :
    {D A : Type 0}
    → Faults
    → (write : Bool) → BodyOn D A
    → Handle D
    → Result LedgerError A × Handle D
transaction faults write body l =
    if l.closed
    then (err closed, l)
    else if write && l.readonly
    then (err readonly, l)
    else opened faults.before l (committed faults.commit l (body l.db))

-- The checks of the arguments come before the transaction.
abbrev pub checked :
    {D A : Type 0}
    → Result LedgerError (Unit {0})
    → (Handle D → Result LedgerError A × Handle D)
    → Handle D
    → Result LedgerError A × Handle D
checked (err e) method l = (err e, l)
checked (ok _) method l = method l

unfoldable pub close : Ledger → Ledger
close l = record l { closed = true }
