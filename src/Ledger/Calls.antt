-- ===== src/Ledger/Calls.antt =====
-- src/draftbench/ledger.py: any sequence of calls on one `Ledger`, errors and faults of the file
-- system included, from the database that `create` writes.
pub mod Create
pub mod Validity
pub mod Traces
use llm_draftbench.Prelude.{String, Bool, Option, List, [], ◌∷◌, Result, ok, err}
use llm_draftbench.Ledger.Types.{LedgerError, State}
use llm_draftbench.Ledger.Session.{Ledger, Faults, close}
use llm_draftbench.Ledger.Policy.{Policy}
use llm_draftbench.Ledger.Operations

-- A method with its arguments, and with what `uuid4` returns where it is asked.
pub data Call : Type 0 where
  reserve : Option Policy → (uuid work request : String) → Call
  start : (attempt : String) → Call
  record_result : (attempt result : String) → Call
  complete : (attempt : String) → Call
  fail : (attempt code : String) → Bool → Call
  skip : String → State → String → Call
  recover : Call
  reconcile_result : (attempt result receipt : String) → Call
  authorize_unsent_retry : (attempt receipt evidence : String) → Call
  close_it : Call

-- The error that a call raised, if any, and the object afterwards.
abbrev pub forget :
    {A : Type 0} → Result LedgerError A × Ledger → Result LedgerError (Unit {0}) × Ledger
forget (ok a, l) = (ok tt, l)
forget (err e, l) = (err e, l)

unfoldable pub call : Faults → Call → Ledger → Result LedgerError (Unit {0}) × Ledger
call f (reserve policy uuid work request) l =
    forget (Operations.reserve f policy uuid work request l)
call f (start attempt) l = forget (Operations.start f attempt l)
call f (record_result attempt result) l = forget (Operations.record_result f attempt result l)
call f (complete attempt) l = forget (Operations.complete f attempt l)
call f (fail attempt code limited) l = forget (Operations.fail f attempt code limited l)
call f (skip work state code) l = forget (Operations.skip f work state code l)
call f recover l = forget (Operations.recover f l)
call f (reconcile_result attempt result receipt) l =
    forget (Operations.reconcile_result f attempt result receipt l)
call f (authorize_unsent_retry attempt receipt evidence) l =
    forget (Operations.authorize_unsent_retry f attempt receipt evidence l)
call f close_it l = (ok tt, close l)

-- A caller that goes on after an error.
unfoldable pub run : List (Faults × Call) → Ledger → Ledger
unfolding call
run [] l = l
run ((f, c) ∷ rest) l = run rest (call f c l).1
