-- ===== src/Judge/Judges.antt =====
-- src/draftbench/judge/panel.py: `_judges`, which checks who judges and fills in the defaults.
use llm_draftbench.Prelude.{
  ℕ, String, Bool, Option, none, some, List, [], ◌∷◌, not, ◌&&◌, ◌||◌, ◌==◌, leb, length, is_nil,
  Result, ok, guard, ◌>>=◌, ◌>>◌,
}
use llm_draftbench.Prelude.Text.{codes, member}
use llm_draftbench.Ledger.Ident.{is_identifier}
use llm_draftbench.Scoring.Valid.{is_absent}
use llm_draftbench.Judge.Error.{JudgeError, invalid_judges}

-- `JUDGE_KINDS`
pub data JudgeKind : Type 0 where
  typesafe openai anthropic google : JudgeKind

-- `_NAME.fullmatch`
unfoldable pub is_name : String → Bool
unfolding is_identifier
is_name s = is_identifier s && leb (length (codes s)) 64

-- A judge as it is given: `none` is a key that is left out, `others` are keys that no judge has.
pub record JudgeItem : Type 0 where
  pub judge_id : String
  pub kind : JudgeKind
  pub model : String
  pub reasoning_effort : Option String
  pub effort : Option String
  pub thinking_level : Option String
  pub max_output_tokens : Option ℕ
  pub max_tokens : Option ℕ
  pub others : List String

-- What a kind of judge is set to.
pub data Settings : Type 0 where
  plain : Settings
  reasons reflects thinks : String → ℕ → Settings

pub record Judge : Type 0 where
  pub judge_id : String
  pub kind : JudgeKind
  pub model : String
  pub settings : Settings

abbrev pub is_effort : String → Bool
is_effort s = s == "low" || s == "medium" || s == "high"

abbrev pub or_default {ℓ} : {A : Type ℓ} → A → Option A → A
or_default d none = d
or_default d (some a) = a

-- `_bounded`
abbrev pub bounded : ℕ → Result JudgeError ℕ
bounded n = do guard (leb 256 n && leb n 64000) invalid_judges; ok n

abbrev pub checked_effort : Option String → Result JudgeError String
checked_effort o = do guard (is_effort (or_default "low" o)) invalid_judges; ok (or_default "low" o)

-- The settings of a kind, and no key of another kind.
abbrev pub settings_of : JudgeKind → JudgeItem → Result JudgeError Settings
settings_of typesafe j = do
  guard
      (is_absent j.reasoning_effort
        && is_absent j.effort
        && is_absent j.thinking_level
        && is_absent j.max_output_tokens
        && is_absent j.max_tokens)
      invalid_judges
  ok plain
settings_of openai j = do
  effort ← checked_effort j.reasoning_effort
  tokens ← bounded (or_default 4000 j.max_output_tokens)
  guard (is_absent j.effort && is_absent j.thinking_level && is_absent j.max_tokens) invalid_judges
  ok (reasons effort tokens)
settings_of anthropic j = do
  effort ← checked_effort j.effort
  tokens ← bounded (or_default 4000 j.max_tokens)
  guard
      (is_absent j.reasoning_effort && is_absent j.thinking_level && is_absent j.max_output_tokens)
      invalid_judges
  ok (reflects effort tokens)
settings_of google j = do
  level ← checked_effort j.thinking_level
  tokens ← bounded (or_default 8000 j.max_output_tokens)
  guard (is_absent j.reasoning_effort && is_absent j.effort && is_absent j.max_tokens)
      invalid_judges
  ok (thinks level tokens)

-- The loop, with the names that were seen.
abbrev pub judges_from : List String → List JudgeItem → Result JudgeError (List Judge)
judges_from seen [] = ok []
judges_from seen (j ∷ js) = do
  guard (is_name j.judge_id && not (member j.judge_id seen) && is_name j.model) invalid_judges
  settings ← settings_of j.kind j
  guard (is_nil j.others) invalid_judges
  rest ← judges_from (j.judge_id ∷ seen) js
  ok (record { judge_id = j.judge_id; kind = j.kind; model = j.model; settings = settings } ∷ rest)

-- `_judges`
unfoldable pub judges_of : List JudgeItem → Result JudgeError (List Judge)
unfolding is_name
judges_of js = do guard (leb 1 (length js) && leb (length js) 8) invalid_judges; judges_from [] js
