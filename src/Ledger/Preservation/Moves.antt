-- ===== src/Ledger/Preservation/Moves.antt =====
-- src/draftbench/ledger.py: the trigger `events_guard` against `_MOVES`.
use llm_draftbench.Prelude.{
  String, true, false, Option, none, some, ◌≡◌, refl, sym, arith, and-left, and-right,
  if◌then◌else◌,
}
use llm_draftbench.Prelude.Text.{opt_eq, opt_eq→path, path→opt_eq}
use llm_draftbench.Ledger.Types.{
  State, planned, reserved, in_flight, result_saved, completed, failed, limited, uncertain,
  unavailable, blocked, state_eq, Event, Db,
}
use llm_draftbench.Ledger.Schema.{guarded_move, same_attempt, state_columns, is_none, is_unbound}
use llm_draftbench.Ledger.History.{moves}

pub same_attempt-eq :
    (c e : Event)
    → same_attempt c e ≡ true
    → (c.attempt_id ≡ e.attempt_id) × (c.request_digest ≡ e.request_digest)
same_attempt-eq c e h = (
  ground (arith, opt_eq→path c.attempt_id e.attempt_id),
  ground (arith, opt_eq→path c.request_digest e.request_digest),
)

unbound-eq : (a b : Option String) → is_none a ≡ true → is_none b ≡ true → a ≡ b
unbound-eq none none h k = refl
unbound-eq none (some b) h k = cc
unbound-eq (some a) b h k = cc

unbound-same :
    (c e : Event)
    → is_unbound c ≡ true
    → is_unbound e ≡ true
    → (c.attempt_id ≡ e.attempt_id) × (c.request_digest ≡ e.request_digest)
unbound-same c e h k = (
  unbound-eq _ _ (and-left _ _ (and-left _ _ h)) (and-left _ _ (and-left _ _ k)),
  unbound-eq _ _ (and-right _ _ (and-left _ _ h)) (and-right _ _ (and-left _ _ k)),
)

module _ (db : Db) (c e : Event) where
  -- The trigger lets no move through that `_MOVES` lacks.
  pub guarded_move-moves : (a b : State) → guarded_move db c a b e ≡ true → moves a b ≡ true
  unfolding moves
  guarded_move-moves planned unavailable h = refl
  guarded_move-moves planned blocked h = refl
  guarded_move-moves planned reserved h = refl
  guarded_move-moves reserved in_flight h = refl
  guarded_move-moves in_flight result_saved h = refl
  guarded_move-moves in_flight failed h = refl
  guarded_move-moves in_flight limited h = refl
  guarded_move-moves in_flight uncertain h = refl
  guarded_move-moves uncertain result_saved h = refl
  guarded_move-moves uncertain reserved h = refl
  guarded_move-moves result_saved completed h = refl
  guarded_move-moves _ _ h = cc

  pub guarded_move-completes :
      (a b : State)
      → guarded_move db c a b e ≡ true
      → (if state_eq b completed then opt_eq e.result_digest c.result_digest else true) ≡ true
  guarded_move-completes result_saved completed h =
      path→opt_eq _ _ (sym (opt_eq→path c.result_digest e.result_digest (and-right _ _ h)))
  guarded_move-completes planned completed h = cc
  guarded_move-completes reserved completed h = cc
  guarded_move-completes in_flight completed h = cc
  guarded_move-completes completed completed h = cc
  guarded_move-completes failed completed h = cc
  guarded_move-completes limited completed h = cc
  guarded_move-completes uncertain completed h = cc
  guarded_move-completes unavailable completed h = cc
  guarded_move-completes blocked completed h = cc
  guarded_move-completes _ _ h = refl

  -- Outside a reservation the attempt and its request stay as they were, `None` included.
  pub guarded_move-same :
      (a b : State)
      → guarded_move db c a b e ≡ true
      → state_eq b reserved ≡ false
      → state_columns a c ≡ true
      → state_columns b e ≡ true
      → (c.attempt_id ≡ e.attempt_id) × (c.request_digest ≡ e.request_digest)
  guarded_move-same planned unavailable h r x y = unbound-same c e (and-left _ _ x) (and-left _ _ y)
  guarded_move-same planned blocked h r x y = unbound-same c e (and-left _ _ x) (and-left _ _ y)
  guarded_move-same planned reserved h r x y = cc
  guarded_move-same reserved in_flight h r x y = same_attempt-eq c e h
  guarded_move-same in_flight result_saved h r x y = same_attempt-eq c e h
  guarded_move-same in_flight failed h r x y = same_attempt-eq c e h
  guarded_move-same in_flight limited h r x y = same_attempt-eq c e h
  guarded_move-same in_flight uncertain h r x y = same_attempt-eq c e h
  guarded_move-same uncertain result_saved h r x y =
      same_attempt-eq c e (and-left _ _ (and-left _ _ h))
  guarded_move-same uncertain reserved h r x y = cc
  guarded_move-same result_saved completed h r x y =
      same_attempt-eq c e (and-left _ _ (and-left _ _ h))
  guarded_move-same _ _ h r x y = cc

  -- Only a reconciliation and a retry leave `uncertain`.
  pub guarded_move-calm :
      (a b : State)
      → guarded_move db c a b e ≡ true
      → state_eq b result_saved ≡ false
      → state_eq b reserved ≡ false
      → state_eq a uncertain ≡ false
  guarded_move-calm uncertain result_saved h x y = cc
  guarded_move-calm uncertain reserved h x y = cc
  guarded_move-calm uncertain planned h x y = cc
  guarded_move-calm uncertain in_flight h x y = cc
  guarded_move-calm uncertain completed h x y = cc
  guarded_move-calm uncertain failed h x y = cc
  guarded_move-calm uncertain limited h x y = cc
  guarded_move-calm uncertain uncertain h x y = cc
  guarded_move-calm uncertain unavailable h x y = cc
  guarded_move-calm uncertain blocked h x y = cc
  guarded_move-calm _ b h x y = refl
