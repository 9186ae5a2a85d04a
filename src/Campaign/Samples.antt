-- ===== src/Campaign/Samples.antt =====
-- src/draftbench/campaign.py: a small budget, what the program does on it, and the theorems there.
use llm_draftbench.Prelude.{
  ℕ, ◌≤◌, ◌<◌, ◌≡◌, ◌≢◌, ap, is_nil, refl, String, true, false, Option, none, some, List, [], ◌∷◌,
  ok, err,
}
use llm_draftbench.Ledger.Types.{corrupt, campaign_exhausted, campaign_binding_mismatch}
use llm_draftbench.Ledger.Ident.{is_attempt, is_digest, is_identifier}
use llm_draftbench.Ledger.Session.{Faults, rolled_back, durable, no_faults, transaction}
use llm_draftbench.Campaign.Amount.{
  down, UpperBound, decimal, finite, strip, as_integer_ratio, units, ceiling_units,
}
use llm_draftbench.Campaign.Rounding.{Covers, units-Covers}
use llm_draftbench.Campaign.Budget.{
  Reservation, Budget, Claim, check_claim, find_reservation, total, insert_reservation, create,
  verify, reserve_new, reserve_from, reserve_body, reservation, reserve, Call, run,
}
use llm_draftbench.Campaign.Exact.{answer, reserve_exact}
use llm_draftbench.Campaign.Guarantees.{
  run-ceiling, run-reservation, reserve_again, reserve_uncertain,
}

abbrev hex_a : String
hex_a = "aaaaaaaaaaaaaaaaaaaaaaaaaaaaaaaa"

abbrev hex_b : String
hex_b = "bbbbbbbbbbbbbbbbbbbbbbbbbbbbbbbb"

abbrev digest : String
digest = "0123456789abcdef0123456789abcdef0123456789abcdef0123456789abcdef"

abbrev other_digest : String
other_digest = "fedcba9876543210fedcba9876543210fedcba9876543210fedcba9876543210"

-- A digest for each request.
abbrev binder : Claim → Option (ℕ × ℕ) → String
binder c exact = c.request_digest

-- 30.25
abbrev thirty : UpperBound
thirty = decimal (finite false (3 ∷ 0 ∷ 2 ∷ 5 ∷ []) (down 2))

-- 10 ** -15, a tenth of a unit.
abbrev speck : List ℕ
speck = 1 ∷ []

abbrev claim : String → String → Claim
claim attempt request = record {
  attempt_id = attempt;
  run_digest = digest;
  request_digest = request;
  config_digest = digest;
  provider = "openai";
  currency = "USD";
  upper_bound = thirty;
}

abbrev quietly : String → String → Call
quietly attempt request = record {
  reading = no_faults;
  writing = no_faults;
  claim = claim attempt request;
}

-- The COMMIT of this call fails.
abbrev lost : Call
lost = record {
  reading = no_faults;
  writing = record { before = none; commit = some (rolled_back corrupt) };
  claim = claim hex_b digest;
}

-- All that a test has to run.
program : Unit {0}
unfolding is_identifier is_digest is_attempt transaction strip as_integer_ratio units
    insert_reservation verify reserve_new reserve_from reserve_body reserve run
program = tt

abbrev fresh : Budget
fresh = create hex_a false

abbrev taken : Budget
taken = run binder (quietly hex_a digest ∷ []) fresh

units_thirty : units thirty ≡ ok (3025000000000000, (121, 4))
unfolding program
units_thirty = refl

units_speck : units (decimal (finite false speck (down 15))) ≡ ok (1, (1, 1000000000000000))
unfolding program
units_speck = refl

second_over :
    (reserve binder no_faults no_faults (claim hex_b digest) taken).0 ≡ err campaign_exhausted
unfolding program
second_over = refl

same_attempt_other :
    (reserve binder no_faults no_faults (claim hex_a other_digest) taken).0
    ≡ err campaign_binding_mismatch
unfolding program
same_attempt_other = refl

units-Covers_example : Covers (down 15) 1 1 × (0 < 1) × (1 ≤ ceiling_units)
units-Covers_example = units-Covers false speck (down 15) 1 (1, 1000000000000000) units_speck

abbrev calls : List Call
calls = lost ∷ quietly hex_a digest ∷ quietly hex_b digest ∷ quietly hex_a other_digest ∷ []

hex_a-hex : is_attempt hex_a ≡ true
unfolding program
hex_a-hex = refl

run-ceiling_example :
    (verify (run binder calls (create hex_a true)).db ≡ ok tt)
    × (verify (run binder calls (create hex_a false)).db ≡ ok tt)
    × (total (run binder calls (create hex_a false)).db.reservations ≤ ceiling_units)
run-ceiling_example = run-ceiling binder hex_a calls hex_a-hex

abbrev first : Reservation
first = reservation (claim hex_a digest) digest (some 3025000000000000)

held : find_reservation hex_a taken.db.reservations ≡ some first
unfolding program
held = refl

run-reservation_example :
    find_reservation hex_a (run binder calls taken).db.reservations ≡ some first
run-reservation_example = run-reservation binder calls taken hex_a first held

granted : (reserve binder no_faults no_faults (claim hex_a digest) fresh).0 ≡ ok hex_a
unfolding program
granted = refl

abbrev later : Budget
later = run binder calls (reserve binder no_faults no_faults (claim hex_a digest) fresh).1

reserve_again_example :
    reserve binder no_faults no_faults (claim hex_a digest) later ≡ (ok hex_a, later)
reserve_again_example =
    reserve_again binder no_faults no_faults (claim hex_a digest) calls fresh hex_a granted

fresh-verify : verify fresh.db ≡ ok tt
unfolding program
fresh-verify = refl

digest-hex : is_digest digest ≡ true
unfolding program
digest-hex = refl

claim-check : check_claim (claim hex_a digest) ≡ ok tt
unfolding program
claim-check = refl

reserve_exact_example :
    reserve binder no_faults no_faults (claim hex_a digest) fresh
    ≡ answer none first 3025000000000000 fresh
reserve_exact_example =
    reserve_exact binder (claim hex_a digest) fresh 3025000000000000 (121, 4)
      (record { not_closed = refl; writable = refl }) fresh-verify refl claim-check units_thirty
      digest-hex

-- A COMMIT that raises after it was durable.
abbrev unclear : Faults
unclear = record { before = none; commit = some (durable corrupt) }

unclear_raised : (reserve binder no_faults unclear (claim hex_a digest) fresh).0 ≡ err corrupt
unfolding program
unclear_raised = refl

unclear_held :
    is_nil (reserve binder no_faults unclear (claim hex_a digest) fresh).1.db.reservations ≡ false
unfolding program
unclear_held = refl

fresh-nil : is_nil fresh.db.reservations ≡ true
fresh-nil = refl

unclear_changed : (reserve binder no_faults unclear (claim hex_a digest) fresh).1 ≢ fresh
unclear_changed h = cc (unclear_held, fresh-nil, ap (λ b. is_nil b.db.reservations) h)

reserve_uncertain_example :
    let last = run binder calls (reserve binder no_faults unclear (claim hex_a digest) fresh).1 in
    (i : String) × (reserve binder no_faults no_faults (claim hex_a digest) last ≡ (ok i, last))
reserve_uncertain_example =
    reserve_uncertain binder no_faults unclear (claim hex_a digest) calls fresh corrupt
      unclear_raised unclear_changed
