-- ===== src/Judge/Blinding.antt =====
-- src/draftbench/judge/panel.py: the panel that `build_panel` makes of its candidates.
use llm_draftbench.Prelude.{
  ℕ, suc, ◌+◌, ◌*◌, String, true, false, List, [], ◌∷◌, map, not, ◌&&◌, ◌==◌, ◌≡◌, refl, sym, ap,
  ◌∙◌, subst, arith, length, leb, ok, >>=-eq-ok, guard-eq-ok, ok-injective,
}
use llm_draftbench.Prelude.Text.{member, distinct, joined, eq_self, eq→path}
use llm_draftbench.Prelude.Sorting.{sort_by}
use llm_draftbench.Judge.Judges.{JudgeItem, is_name, judges_of}
use llm_draftbench.Judge.Panel.{
  check_text, Candidate, presentations_of, PanelBody, Panel, Custody, candidate_ids, blind,
  build_panel,
}
use llm_draftbench.Judge.Orders.{
  shown, one_if, shown-presentations_of, length-presentations_of, member-sort, distinct-sort,
  length-sort,
}

-- What the loop over the candidates returns: fresh ids, one for each candidate.
record Blinded (seen : List String) (count : ℕ) (cs : List Candidate) : Type 0 where
  fresh : distinct (candidate_ids cs) ≡ true
  unseen : (x : String) → member x seen ≡ true → member x (candidate_ids cs) ≡ false
  whole : length (candidate_ids cs) ≡ count

apart_lem : (x y : String) (seen : List String) → (x == y) ≡ true → member y seen ≡ member x seen
apart_lem x y seen e = ap (λ z. member z seen) (sym (eq→path x y e))

cons-Blinded :
    (seen : List String) (id name body : String) (later : List Candidate) (count : ℕ)
    → not (member id seen) ≡ true
    → Blinded (id ∷ seen) count later
    → Blinded seen (suc count) (record { candidate_id = id; name = name; body = body } ∷ later)
cons-Blinded seen id name body later count new b =
    let first = b.unseen id (rw (eq_self id) refl) in
    record {
      fresh = rw (distinct, first) b.fresh;
      unseen = λ x m. ground (arith, b.unseen x, m, new, apart_lem id x seen);
      whole = ap (λ n. suc n) b.whole;
    }

module _ (candidate_digest : String → String) where
  blind-Blinded :
      (seen : List String) (given : List (String × String)) (cs : List Candidate)
      → blind candidate_digest seen given ≡ ok cs
      → Blinded seen (length given) cs
  unfolding blind
  blind-Blinded seen [] cs h =
      subst (λ c. Blinded seen 0 c) (ok-injective h)
        (record { fresh = refl; unseen = λ x m. refl; whole = refl })
  blind-Blinded seen ((name, body) ∷ rest) cs h =
      let id = joined "c" (candidate_digest body) in
      let (_, h1) = guard-eq-ok (is_name name) _ _ h in
      let (_, _, h2) = >>=-eq-ok (check_text body) _ h1 in
      let (new, h3) = guard-eq-ok (not (member id seen)) _ _ h2 in
      let (later, blinded, h4) = >>=-eq-ok (blind candidate_digest (id ∷ seen) rest) _ h3 in
      let b = blind-Blinded (id ∷ seen) rest later blinded in
      subst (λ c. Blinded seen (suc (length rest)) c) (ok-injective h4)
        (cons-Blinded seen id name body later (length rest) new b)

abbrev pub keys_of : List (String × String) → List String
keys_of [] = []
keys_of ((k, v) ∷ rest) = k ∷ keys_of rest

-- The panel shows each two candidates in both orders, once each, and none with itself.
pub record Presents (count : ℕ) (p : Panel) (k : Custody) : Type 0 where
  pub shows :
      (a b : String)
      → shown a b p.body.presentations
        ≡ one_if
            (member a (keys_of k.candidates) && member b (keys_of k.candidates) && not (a == b))
  pub size : length p.body.presentations + count ≡ count * count

keys_of-names :
    (cs : List Candidate) → keys_of (map (λ c. (c.candidate_id, c.name)) cs) ≡ candidate_ids cs
keys_of-names [] = refl
keys_of-names (c ∷ cs) = ap (λ ids. c.candidate_id ∷ ids) (keys_of-names cs)

module _ (cs : List Candidate) (count : ℕ) (b : Blinded [] count cs) where
  abbrev sorted : List String
  sorted = sort_by (λ i. i) (candidate_ids cs)

  shows_lem :
      (x y : String)
      → shown x y (presentations_of sorted)
        ≡ one_if (
            member x (keys_of (map (λ c. (c.candidate_id, c.name)) cs))
            && member y (keys_of (map (λ c. (c.candidate_id, c.name)) cs))
            && not (x == y))
  shows_lem x y =
      subst
        (λ ids.
          shown x y (presentations_of sorted)
          ≡ one_if (member x ids && member y ids && not (x == y)))
        (sym (keys_of-names cs))
        (subst
          (λ m.
            shown x y (presentations_of sorted)
            ≡ one_if (m && member y (candidate_ids cs) && not (x == y)))
          (member-sort x (candidate_ids cs))
          (subst
            (λ m.
              shown x y (presentations_of sorted) ≡ one_if (member x sorted && m && not (x == y)))
            (member-sort y (candidate_ids cs))
            (shown-presentations_of x y sorted (distinct-sort (candidate_ids cs) b.fresh))))

  size_lem : length (presentations_of sorted) + count ≡ count * count
  size_lem =
      subst (λ n. length (presentations_of sorted) + n ≡ n * n)
        (length-sort (candidate_ids cs) ∙ b.whole) (length-presentations_of sorted)

-- Where `build_panel` returns, its panel shows each two candidates of the custody in both orders,
-- once each, and none with itself: n candidates have n (n - 1) presentations.
pub build_panel-Presents :
    (candidate_digest : String → String) (panel_digest : PanelBody → String) (brief : String)
    (candidates : List (String × String)) (items : List JudgeItem) (criteria : List String)
    (p : Panel) (k : Custody)
    → build_panel candidate_digest panel_digest brief candidates items criteria ≡ ok (p, k)
    → Presents (length candidates) p k
unfolding build_panel
build_panel-Presents candidate_digest panel_digest brief candidates items criteria p k h =
    let (_, _, h1) = >>=-eq-ok (check_text brief) _ h in
    let (_, h2) = guard-eq-ok (leb 2 (length candidates) && leb (length candidates) 32) _ _ h1 in
    let (cs, blinded, h3) = >>=-eq-ok (blind candidate_digest [] candidates) _ h2 in
    let (judges, _, h4) = >>=-eq-ok (judges_of items) _ h3 in
    let b = blind-Blinded candidate_digest [] candidates cs blinded in
    let same = ok-injective h4 in
    subst (λ r. Presents (length candidates) r.0 r.1) same
      (record {
        shows = shows_lem cs (length candidates) b;
        size = size_lem cs (length candidates) b;
      })
