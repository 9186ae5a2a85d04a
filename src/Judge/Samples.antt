-- ===== src/Judge/Samples.antt =====
-- src/draftbench/judge: a panel of three drafts and two judges, its runs and its tally.
use llm_draftbench.Prelude.{
  ℕ, inl, ◌⊎◌, ◌≡◌, refl, String, Bool, true, false, Option, nat_eq, if◌then◌else◌, none, some,
  List, [], ◌∷◌, length, Result, ok, err,
}
use llm_draftbench.Prelude.Sorting.{insert_by, sort_by}
use llm_draftbench.Ledger.Ident.{is_identifier}
use llm_draftbench.Scoring.Decisions.{has_text}
use llm_draftbench.Judge.Error.{JudgeError, invalid_judges, duplicate_candidate}
use llm_draftbench.Judge.Judges.{plain, reasons, JudgeKind, JudgeItem, Judge, is_name, judges_of}
use llm_draftbench.Judge.Panel.{
  PanelBody, Presentation, Panel, Custody, check_text, presentations_of, blind, build, build_panel,
}
use llm_draftbench.Judge.Blinding.{Presents, build_panel-Presents}
use llm_draftbench.Judge.Run.{
  Work, LedgerRow, Reply, success, failure, RunReport, step, started, report_of, each_work,
  each_judge,
}
use llm_draftbench.Judge.Dispatch.{Mode, RunCall, check_call, run, runs, work_of, selected_of}
use llm_draftbench.Judge.Once.{once, runs-once}
use llm_draftbench.Judge.Progress.{run-Reports}
use llm_draftbench.Judge.Tally.{verdict_for, Choice, Record, JudgeTally, tally_all, tally_judge}
use llm_draftbench.Judge.Totals.{included}
use llm_draftbench.Judge.Agreement.{
  agreement_of, Counted, Compared, Agreed, agreement_of-Counted, summary_requests, report_requests,
  planned-summary,
}
use llm_draftbench.Judge.Agreeing.{Agrees, tally_judge-Agrees}

abbrev body_digest : String → String
body_digest s = s

abbrev frozen : PanelBody → String
frozen b = "frozen"

abbrev judge : String → JudgeKind → JudgeItem
judge name kind = record {
  judge_id = name;
  kind = kind;
  model = "m";
  reasoning_effort = none;
  effort = none;
  thinking_level = none;
  max_output_tokens = none;
  max_tokens = none;
  others = [];
}

abbrev judges : List JudgeItem
judges = judge "j1" JudgeKind.openai ∷ judge "j2" JudgeKind.typesafe ∷ []

abbrev drafts : List (String × String)
drafts = ("one", "3") ∷ ("two", "1") ∷ ("three", "2") ∷ []

program : Unit {0}
unfolding has_text is_identifier is_name insert_by sort_by judges_of check_text presentations_of
    blind build build_panel step each_work each_judge check_call run runs tally_all tally_judge
program = tt

abbrev shown_as : String → String → String → String → String → Presentation
shown_as name a b first second = record {
  presentation_id = name;
  a = a;
  b = b;
  first = first;
  second = second;
}

-- The drafts are named after their digests, and stand in their order.
abbrev panel : Panel
panel = record {
  body = record {
    brief = "Write.";
    candidates = ("c1", "1") ∷ ("c2", "2") ∷ ("c3", "3") ∷ [];
    criteria = "clarity" ∷ [];
    judges =
        record {
          judge_id = "j1";
          kind = JudgeKind.openai;
          model = "m";
          settings = reasons "low" 4000;
        }
        ∷ record { judge_id = "j2"; kind = JudgeKind.typesafe; model = "m"; settings = plain }
        ∷ [];
    presentations =
        shown_as "c1-c2" "c1" "c2" "c1" "c2"
        ∷ shown_as "c2-c1" "c2" "c1" "c1" "c2"
        ∷ shown_as "c1-c3" "c1" "c3" "c1" "c3"
        ∷ shown_as "c3-c1" "c3" "c1" "c1" "c3"
        ∷ shown_as "c2-c3" "c2" "c3" "c2" "c3"
        ∷ shown_as "c3-c2" "c3" "c2" "c2" "c3"
        ∷ [];
    pairwise = true;
  };
  digest = "frozen";
}

abbrev custody : Custody
custody = record {
  panel_digest = "frozen";
  candidates = ("c3", "one") ∷ ("c1", "two") ∷ ("c2", "three") ∷ [];
}

made : build_panel body_digest frozen "Write." drafts judges ("clarity" ∷ []) ≡ ok (panel, custody)
unfolding program
made = refl

made-twice :
    build_panel body_digest frozen "Write." (("one", "1") ∷ ("two", "1") ∷ []) judges []
    ≡ err duplicate_candidate
unfolding program
made-twice = refl

made-strange :
    build_panel body_digest frozen "Write." drafts
      (record (judge "j1" JudgeKind.typesafe) { effort = some "low" } ∷ [])
      []
    ≡ err invalid_judges
unfolding program
made-strange = refl

build_panel-Presents_example : Presents 3 panel custody
build_panel-Presents_example =
    build_panel-Presents body_digest frozen "Write." drafts judges ("clarity" ∷ []) panel custody
      made

abbrev asked : Option ℕ → RunCall
asked limit = record {
  approve = "frozen";
  judges = some ("j1" ∷ []);
  max_requests = limit;
  mode = Mode.pairwise;
  reps = 1;
}

abbrev answered : ℕ → Judge → Work → Result JudgeError Reply
answered n j w = ok success

-- The second answer is lost.
abbrev failing : ℕ → Judge → Work → Result JudgeError Reply
failing n j w = if nat_eq n 1 then ok (failure "transport") else ok success

abbrev row : String → String → Bool → LedgerRow
row key presentation went = record {
  key = key;
  judge_id = "j1";
  presentation_id = presentation;
  success = went;
}

-- The next run sends again what failed, and nothing else.
resumed :
    runs panel
      (record { call = asked (some 3); invoke = failing }
        ∷ record { call = asked (some 2); invoke = answered }
        ∷ [])
      []
    ≡ row "c1-c2:j1" "c1-c2" true
      ∷ row "c2-c1:j1" "c2-c1" false
      ∷ row "c1-c3:j1" "c1-c3" true
      ∷ row "c2-c1:j1" "c2-c1" true
      ∷ row "c3-c1:j1" "c3-c1" true
      ∷ []
unfolding program
resumed = refl

runs-once_example :
    once (
      runs panel
        (record { call = asked (some 3); invoke = failing }
          ∷ record { call = asked none; invoke = answered }
          ∷ [])
        [])
    ≡ true
runs-once_example =
    runs-once panel
      (record { call = asked (some 3); invoke = failing }
        ∷ record { call = asked none; invoke = answered }
        ∷ [])
      [] refl

fine : check_call panel (asked (some 3)) ≡ ok tt
unfolding program
fine = refl

run-Reports_example :
    (r : RunReport) × ((run answered panel (asked (some 3)) []).1 ≡ ok r)
    × ((r.complete ≡ true) ⊎ (some 3 ≡ some r.sent_this_invocation))
run-Reports_example = run-Reports answered panel (asked (some 3)) [] fine (λ n j w. refl)

abbrev verdict : String → Choice → Record
verdict key choice = record { key = key; verdicts = ("clarity", choice) ∷ [] }

abbrev verdicts : List Record
verdicts =
    verdict "c1-c2:j1" Choice.a
    ∷ verdict "c2-c1:j1" Choice.b
    ∷ verdict "c1-c3:j1" Choice.a
    ∷ verdict "c3-c1:j1" Choice.a
    ∷ verdict "c2-c3:j1" Choice.tie
    ∷ []

-- The first pair is consistent, the second follows the position, and the third lacks an order.
tallied :
    (t : JudgeTally) × (tally_judge panel verdicts "j1" "clarity" [] ≡ ok t)
    × (t.pairs_with_both_orders ≡ 2)
    × (t.pairs_consistent ≡ 1)
    × (t.pairs_position_biased ≡ 1)
    × (t.scored_presentations ≡ 5)
    × (t.wins ≡ (("c1", 6) ∷ ("c2", 1) ∷ ("c3", 3) ∷ []))
unfolding program
tallied = (_, refl, refl, refl, refl, refl, refl)

tally_judge-Agrees_example :
    (t : JudgeTally) × (tally_judge panel verdicts "j1" "clarity" ("c3" ∷ []) ≡ ok t)
    × Agrees (length (included ("c3" ∷ []) panel.body.presentations)) t
tally_judge-Agrees_example = tally_judge-Agrees panel verdicts "j1" "clarity" ("c3" ∷ []) refl refl

agreement_of-Counted_example :
    Counted
      (Compared (verdict_for verdicts "j1" "clarity") (verdict_for verdicts "j2" "clarity"))
      panel.body.presentations
      (agreement_of panel verdicts "j1" "j2" "clarity").compared
    × Counted
        (Agreed (verdict_for verdicts "j1" "clarity") (verdict_for verdicts "j2" "clarity"))
        panel.body.presentations
        (agreement_of panel verdicts "j1" "j2" "clarity").agree
agreement_of-Counted_example = agreement_of-Counted panel verdicts "j1" "j2" "clarity"

abbrev every : RunCall
every = record {
  approve = "frozen";
  judges = none;
  max_requests = none;
  mode = Mode.pairwise;
  reps = 1;
}

planned-summary_example :
    (report_of (work_of panel every) (selected_of panel every.judges) (
      each_judge answered none
        (work_of panel every)
        (selected_of panel every.judges)
        (started []))).planned_requests
    ≡ summary_requests panel
planned-summary_example =
    planned-summary panel every
      (each_judge answered none (work_of panel every) (selected_of panel every.judges) (started []))
      refl (inl (refl, refl))

-- A brief panel, of which `summary` plans requests and `build_report` none.
abbrev brief_panel : Panel
brief_panel = record panel { body = record panel.body { pairwise = false; presentations = [] } }

planned-brief : summary_requests brief_panel ≡ 6
planned-brief = refl

planned-report : report_requests brief_panel ≡ 0
planned-report = refl
