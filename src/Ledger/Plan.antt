-- ===== src/Ledger/Plan.antt =====
-- src/draftbench/ledger.py: `_validate_plan`. The dictionaries are association lists in the order
-- of the plan. Kahn's loop takes fuel; `none` means that the fuel ran out.
pub mod Traversal
use llm_draftbench.Prelude.{
  ℕ, zero, suc, ◌+◌, ◌-◌, String, Bool, false, Option, none, some, List, [], ◌∷◌, ◌++◌, map, not,
  ◌&&◌, ◌==◌, nat_eq, leb, all, length, if◌then◌else◌, Result, ok, guard, ◌>>=◌, ◌>>◌,
}
use llm_draftbench.Prelude.Text.{member, distinct}
use llm_draftbench.Ledger.Types.{LedgerError, invalid_plan, Row, max_plan_rows}
use llm_draftbench.Ledger.Ident.{is_identifier}

-- The checks of one row. A row that lacks a key, or has another, is no `Row`.
unfoldable pub row_ok : List String → Row → Bool
row_ok known r =
    is_identifier r.work_id
    && is_identifier r.case_id
    && leb (length r.dependencies) max_plan_rows
    && all is_identifier r.dependencies
    && distinct r.dependencies
    && not (member r.work_id known)

-- The first loop, with the set `known`.
unfoldable pub check_rows : List String → List Row → Result LedgerError (List String)
unfolding row_ok
check_rows known [] = ok known
check_rows known (r ∷ rs) = do
  guard (row_ok known r) invalid_plan
  check_rows (r.work_id ∷ known) rs

abbrev pub Table : Type 0 → Type 0
Table A = List (String × A)

abbrev pub get_or : {A : Type 0} → String → A → Table A → A
get_or k d [] = d
get_or k d ((j, v) ∷ t) = if j == k then v else get_or k d t

abbrev pub update : {A : Type 0} → String → (A → A) → Table A → Table A
update k f [] = []
update k f ((j, v) ∷ t) = if j == k then (j, f v) ∷ t else (j, v) ∷ update k f t

-- `children[dep].append(row["work_id"])` for each dependency of a row.
unfoldable pub add_children :
    List String
    → String
    → List String
    → Table (List String)
    → Result LedgerError (Table (List String))
add_children known work [] children = ok children
add_children known work (dep ∷ deps) children = do
  guard (member dep known) invalid_plan
  add_children known work deps (update dep (λ l. l ++ work ∷ []) children)

unfoldable pub build_children :
    List String → List Row → Table (List String) → Result LedgerError (Table (List String))
build_children known [] children = ok children
build_children known (r ∷ rs) children = do
  next ← add_children known r.work_id r.dependencies children
  build_children known rs next

abbrev pub degrees : List Row → Table ℕ
degrees = map (λ r. (r.work_id, length r.dependencies))

-- The loop over the children of the item that was taken. A degree falls to zero where it was one;
-- one that is zero already, which the source would make negative, stays there.
unfoldable pub visit : List String → Table ℕ → List String → Table ℕ × List String
visit [] degree ready = (degree, ready)
visit (c ∷ cs) degree ready =
    visit cs (update c (λ n. n - 1) degree)
      (if nat_eq (get_or c 0 degree) 1 then ready ++ c ∷ [] else ready)

-- `while ready`, with the number of items seen.
unfoldable pub kahn : ℕ → Table (List String) → Table ℕ → List String → ℕ → Option ℕ
kahn fuel children degree [] seen = some seen
kahn zero children degree (w ∷ ready) seen = none
kahn (suc fuel) children degree (w ∷ ready) seen =
    let (next, queue) = visit (get_or w [] children) degree ready in
    kahn fuel children next queue (seen + 1)

abbrev pub roots : Table ℕ → List String
roots [] = []
roots ((k, n) ∷ t) = if nat_eq n 0 then k ∷ roots t else roots t

abbrev pub seen_all : Option ℕ → ℕ → Bool
seen_all none n = false
seen_all (some m) n = nat_eq m n

unfoldable pub validate_plan : List Row → Result LedgerError (Unit {0})
unfolding check_rows build_children add_children kahn visit
validate_plan plan = do
  guard (leb 1 (length plan) && leb (length plan) max_plan_rows) invalid_plan
  known ← check_rows [] plan
  children ← build_children known plan (map (λ r. (r.work_id, [])) plan)
  guard
      (seen_all (kahn (length plan) children (degrees plan) (roots (degrees plan)) 0) (length plan))
      invalid_plan
