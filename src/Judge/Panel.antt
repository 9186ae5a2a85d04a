-- ===== src/Judge/Panel.antt =====
-- src/draftbench/judge/panel.py: `_build`. The digests of bodies and panels are parameters.
use llm_draftbench.Prelude.{
  ℕ, String, Bool, true, List, [], ◌∷◌, ◌++◌, map, not, ◌&&◌, ltb, leb, length, sum_of,
  if◌then◌else◌, Result, ok, guard, ◌>>=◌, ◌>>◌,
}
use llm_draftbench.Prelude.Text.{codes, member, joined}
use llm_draftbench.Prelude.Sorting.{sort_by}
use llm_draftbench.Scoring.Decisions.{has_text}
use llm_draftbench.Judge.Error.{
  JudgeError, invalid_text, text_too_large, invalid_candidates, invalid_candidate_name,
  duplicate_candidate,
}
use llm_draftbench.Judge.Judges.{Judge, JudgeItem, is_name, judges_of}

-- The bytes of a code point in UTF-8.
abbrev pub utf8_size : ℕ → ℕ
utf8_size c = if ltb c 128 then 1 else if ltb c 2048 then 2 else if ltb c 65536 then 3 else 4

-- `_text`
unfoldable pub check_text : String → Result JudgeError (Unit {0})
unfolding has_text
check_text s = do
  guard (has_text s) invalid_text
  guard (leb (sum_of utf8_size (codes s)) 200000) text_too_large

pub record Candidate : Type 0 where
  pub candidate_id : String
  pub name : String
  pub body : String

pub record Presentation : Type 0 where
  pub presentation_id : String
  pub a : String
  pub b : String
  pub first : String
  pub second : String

abbrev pub presentation_of : String → String → String → String → Presentation
presentation_of a b first second = record {
  presentation_id = joined a (joined "-" b);
  a = a;
  b = b;
  first = first;
  second = second;
}

-- Both orders of the pairs of one candidate with later ones.
abbrev pub present_with : String → List String → List Presentation
present_with x [] = []
present_with x (y ∷ ys) = presentation_of x y x y ∷ presentation_of y x x y ∷ present_with x ys

-- Both orders of `combinations(ids, 2)`.
unfoldable pub presentations_of : List String → List Presentation
presentations_of [] = []
presentations_of (x ∷ xs) = present_with x xs ++ presentations_of xs

-- What the panel's digest covers.
pub record PanelBody : Type 0 where
  pub brief : String
  pub candidates : List (String × String)
  pub criteria : List String
  pub judges : List Judge
  pub presentations : List Presentation
  pub pairwise : Bool

pub record Panel : Type 0 where
  pub body : PanelBody
  pub digest : String

pub record Custody : Type 0 where
  pub panel_digest : String
  pub candidates : List (String × String)

abbrev pub candidate_ids : List Candidate → List String
candidate_ids cs = map (λ c. c.candidate_id) cs

abbrev pub panel_of : String → List String → Bool → List Candidate → List Judge → PanelBody
panel_of brief criteria pairwise cs judges = record {
  brief = brief;
  candidates = map (λ c. (c.candidate_id, c.body)) (sort_by (λ c. c.candidate_id) cs);
  criteria = criteria;
  judges = judges;
  presentations = if pairwise then presentations_of (sort_by (λ i. i) (candidate_ids cs)) else [];
  pairwise = pairwise;
}

module _ (candidate_digest : String → String) where
  -- The loop over the candidates, with the ids that were seen.
  unfoldable pub blind : List String → List (String × String) → Result JudgeError (List Candidate)
  unfolding check_text
  blind seen [] = ok []
  blind seen ((name, body) ∷ rest) = do
    guard (is_name name) invalid_candidate_name
    check_text body
    let id = joined "c" (candidate_digest body)
    guard (not (member id seen)) duplicate_candidate
    later ← blind (id ∷ seen) rest
    ok (record { candidate_id = id; name = name; body = body } ∷ later)

module _ (candidate_digest : String → String) (panel_digest : PanelBody → String) where
  -- `_build`
  unfoldable pub build :
      String
      → List (String × String)
      → List JudgeItem
      → List String
      → Bool
      → Result JudgeError (Panel × Custody)
  unfolding blind presentations_of sort_by
  build brief candidates items criteria pairwise = do
    guard (leb 2 (length candidates) && leb (length candidates) 32) invalid_candidates
    cs ← blind candidate_digest [] candidates
    judges ← judges_of items
    let body = panel_of brief criteria pairwise cs judges
    ok (
      record { body = body; digest = panel_digest body },
      record {
        panel_digest = panel_digest body;
        candidates = map (λ c. (c.candidate_id, c.name)) cs;
      },
    )

  -- `build_panel`
  unfoldable pub build_panel :
      String
      → List (String × String)
      → List JudgeItem
      → List String
      → Result JudgeError (Panel × Custody)
  unfolding build
  build_panel brief candidates items criteria = do
    check_text brief
    build brief candidates items criteria true
