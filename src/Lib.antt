-- ===== src/Lib.antt =====
-- llm-draftbench: a benchmark of editorial drafts. A run is a plan of work items (a writer, a
-- reviewer or a revision of a case, with dependencies) whose attempts a durable ledger records,
-- so that a provider is never asked twice by accident; the results are then scored.
--
-- Ledger (src/draftbench/ledger.py) is the attempt ledger. Types has the states, the rows of the
-- tables and the codes of LedgerError. Ident has the patterns of identifiers and digests. Tables
-- has the queries (current_states is `current`), Schema the CHECK constraints, foreign keys and
-- triggers of the three schema versions, one `insert_` function per table. Session has the flags
-- of the object `Ledger` and `_transaction`. Policy is the admission that `reserve` asks. Plan is
-- `_validate_plan`. Operations has each method that changes the database, with the body that runs
-- inside its transaction. History is `_verify` with `_verify_history`. Calls has one constructor
-- per method, and `run` makes a list of calls; Calls.Create is the database that `create` writes.
-- Invariant, Preservation, Transaction, Exact, Recovery and the rest of Calls are proofs,
-- Guarantees the statements for a caller, and Samples the tests and the witnesses.
--
-- A database is a record of the tables; a table that only grows is a list with its newest row
-- first, so that the newest event of a work item is the first with its name. A method takes a
-- ledger and gives its result, or the error that it raises, and the ledger after it. What the
-- environment raises before a body (the checks of the file and of its sidecars, BEGIN) and at
-- COMMIT is a value of `Faults`, an argument of each call; a COMMIT that raises is rolled back,
-- or durable for all that. The name that uuid4 makes is an argument of `reserve`, and a
-- provider's `admit` is a field of its policy.
--
-- The traversal of `_validate_plan` runs on fuel, one unit per popped key, and gets the number of
-- rows: a key is put into the queue only when its degree falls to zero, once, so a plan of n rows
-- pops n keys at most (Plan.Traversal). Plans are lists of rows, with the column types of the
-- tables; what Python tests with type() holds by typing. A fraction has a natural numerator and a
-- positive denominator.
--
-- Not modelled: opening and making the files, fsync and the sidecars of SQLite, which are I/O;
-- the comparison of the schema's text; the checks by PRAGMA; and the triggers that refuse UPDATE
-- and DELETE, since no operation here does either.
--
-- Campaign (src/draftbench/campaign.py) is the budget that all runs of a campaign share, a second
-- use of Ledger's file and transaction. Amount is `_units`, with decimals by their digits and
-- exponent and `as_integer_ratio` in lowest terms; Budget has the tables, `_verify` and
-- `reserve`; the SHA-256 of a claim's canonical bytes is the parameter `bind`, a function of the
-- claim and the exact ratio. Rounding, Grown, Outcomes, Exact and Guarantees are proofs, Samples
-- the tests and the witnesses.
--
-- Scoring (src/draftbench/scoring/) has the data of a scored case in Case, the data model's
-- validators in Valid, `_assess_decision` in Decisions, `reference_scope` and the views that the
-- keys hash in Scope, `rate` in Rate and `score_decisions` in Cohort. Checks is
-- scoring/deterministic.py: Verdicts decides one check, Deterministic has `score_deterministic`;
-- Substrings, Holds, Facts, Passing, Applied, Owed and Outcomes are proofs. Match is
-- scoring/findings.py: Alignments resolves the predictions, Findings has `score_findings`;
-- Matching, OneToOne, LeftOut and Tallies are proofs, as are Validity, Support and Balance above.
-- The SHA-256 digests of keys, texts, units and cases are parameters, the patterns and lengths of
-- strings are left to the data model's library, and the value of a rate is left as its numerator
-- and denominator. Not modelled: ScoringBundle and the report.
--
-- Judge (src/draftbench/judge/) makes blinded panels and runs them. Judges is `_judges`, Panel is
-- `_build` and `build_panel`, whose digests of bodies and panels are parameters; Run has the
-- loops of `run` over the ledger and Dispatch its checks and the work it plans, where the answers
-- of the judges (`_invoke`) are a parameter that may raise; Tally is `_tally` and `_wins`, and
-- Games the games of `bradley_terry`, with weights in halves, and Agreement is `_agreement` and
-- `summary`. Orders, Blinding, Once, Growth, Progress, Totals, Played and Agreeing are proofs.
-- Not modelled: files, prompts, the parsing of answers, and the strengths of `bradley_terry`,
-- which are floats, and what their arithmetic may raise.
--
-- Store (src/draftbench/store.py) is the store of artifacts. Objects has the directory, `_read`
-- and `get`, Publish has `put` and `_publish`: each call of the system that may fail is a value
-- of Point, and what another writer links meanwhile is an argument. SHA-256 is a parameter. Kept,
-- Trips and Retry are proofs. Not modelled: `put_json` and `get_json`, the directory's identity,
-- descriptors, the choice of staging names, and files that change while they are read.
--
-- Tariff (src/draftbench/adapters/) is the money of the text providers. Policy is the two
-- policies of pilot_policy.py with their validators and token_budget.py: money is a natural
-- number of 10 ** -8 USD, and a cost a fraction; a comparison with None is a type_error. Usage is
-- `_usage` of openai_contract.py and anthropic_contract.py. Precision is the decimal context of
-- `token_cost`, with the digits of a string of Money. Typed and Covered are proofs. Not modelled:
-- the validators that fill in a mapping before it is validated.
pub mod Prelude
pub mod Ledger
pub mod Campaign
pub mod Scoring
pub mod Judge
pub mod Store
pub mod Tariff
