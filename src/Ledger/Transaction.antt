-- ===== src/Ledger/Transaction.antt =====
-- src/draftbench/ledger.py: what `_transaction` makes of its body's outcome.
use llm_draftbench.Prelude.{
  Bool, true, false, Option, none, some, ◌≡◌, refl, ◌∙◌, ◌&&◌, if◌then◌else◌, Result, ok, err,
  arith,
}
use llm_draftbench.Ledger.Types.{LedgerError, closed, readonly}
use llm_draftbench.Ledger.Session.{
  Handle, CommitFault, rolled_back, durable, Faults, no_faults, BodyOn, transaction, committed,
  opened,
}

if_false {ℓ} : {A : Type ℓ} (b : Bool) (x y : A) → b ≡ false → (if b then x else y) ≡ y
if_false false x y h = refl
if_false true x y h = cc

and_false : (a b : Bool) → b ≡ false → (a && b) ≡ false
and_false a b h = ground arith

module _ {D : Type 0} where
  -- An object that is open for reading and writing.
  pub record IsOpen (l : Handle D) : Type 0 where
    pub not_closed : l.closed ≡ false
    pub writable : l.readonly ≡ false

  pub transaction-open :
      {A : Type 0} (write : Bool) (body : BodyOn D A) (l : Handle D)
      → IsOpen l
      → transaction no_faults write body l ≡ committed none l (body l.db)
  unfolding transaction
  transaction-open write body l o =
      if_false l.closed _ _ o.not_closed
      ∙ if_false (write && l.readonly) _ _ (and_false write l.readonly o.writable)

  -- A transaction that returned: its body did, and its database is there.
  pub record Returned {A : Type 0} (write : Bool) (body : BodyOn D A) (l : Handle D) (a : A)
      (after : Handle D) : Type 0 where
    pub not_closed : l.closed ≡ false
    pub allowed : (write && l.readonly) ≡ false
    pub db : D
    pub ran : body l.db ≡ ok (a, db)
    pub kept : after ≡ record l { db = db }

  -- A transaction changes nothing, returns, or raises at a COMMIT that was durable.
  pub data Outcome {A : Type 0} (write : Bool) (body : BodyOn D A) (l : Handle D)
      : Result LedgerError A × Handle D → Type 0 where
    raised : (e : LedgerError) → Outcome write body l (err e, l)
    returned :
        (a : A) (after : Handle D)
        → Returned write body l a after
        → Outcome write body l (ok a, after)
    uncertain :
        (e : LedgerError) (a : A) (after : Handle D)
        → Returned write body l a after
        → Outcome write body l (err e, after)

  committed-Outcome :
      {A : Type 0} (write : Bool) (body : BodyOn D A) (l : Handle D) (fault : Option CommitFault)
      (r : Result LedgerError (A × D))
      → l.closed ≡ false
      → (write && l.readonly) ≡ false
      → body l.db ≡ r
      → Outcome write body l (committed fault l r)
  committed-Outcome write body l fault (err e) not_closed allowed ran = raised e
  committed-Outcome write body l none (ok (a, db)) not_closed allowed ran =
      returned a _
        (record { not_closed = not_closed; allowed = allowed; db = db; ran = ran; kept = refl })
  committed-Outcome write body l (some (rolled_back e)) (ok (a, db)) not_closed allowed ran =
      raised e
  committed-Outcome write body l (some (durable e)) (ok (a, db)) not_closed allowed ran =
      uncertain e a _
        (record { not_closed = not_closed; allowed = allowed; db = db; ran = ran; kept = refl })

  if-Outcome :
      {A : Type 0} (write : Bool) (body : BodyOn D A) (l : Handle D) (b : Bool)
      (x y : Result LedgerError A × Handle D)
      → Outcome write body l x
      → (b ≡ false → Outcome write body l y)
      → Outcome write body l (if b then x else y)
  if-Outcome write body l true x y p q = p
  if-Outcome write body l false x y p q = q refl

  opened-Outcome :
      {A : Type 0} (write : Bool) (body : BodyOn D A) (l : Handle D) (fault : Option LedgerError)
      (r : Result LedgerError A × Handle D)
      → Outcome write body l r
      → Outcome write body l (opened fault l r)
  opened-Outcome write body l none r p = p
  opened-Outcome write body l (some e) r p = raised e

  pub transaction-Outcome :
      {A : Type 0} (faults : Faults) (write : Bool) (body : BodyOn D A) (l : Handle D)
      → Outcome write body l (transaction faults write body l)
  unfolding transaction
  transaction-Outcome faults write body l =
      if-Outcome write body l l.closed _ _ (raised closed) (λ not_closed.
        if-Outcome write body l (write && l.readonly) _ _ (raised readonly) (λ allowed.
          opened-Outcome write body l faults.before _
            (committed-Outcome write body l faults.commit (body l.db) not_closed allowed refl)))

  pub committed-if :
      {A : Type 0} (l : Handle D) (t : Bool) (a : A) (db : D) (e : LedgerError)
      → committed none l (if t then ok (a, db) else err e)
        ≡ (if t then (ok a, record l { db = db }) else (err e, l))
  committed-if l true a db e = refl
  committed-if l false a db e = refl
