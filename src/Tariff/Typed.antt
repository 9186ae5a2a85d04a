-- ===== src/Tariff/Typed.antt =====
-- src/draftbench/adapters/pilot_policy.py: what the validators leave for `admit` to compute with.
use llm_draftbench.Prelude.{
  ℕ, ◌+◌, ◌*◌, Bool, true, false, Option, none, some, ◌&&◌, not, leb, Result, ok, err, guard, ◌>>◌,
  guard-eq-ok, and-parts, Bool-cases, ◌≡◌, refl, subst, ◌⊎◌, inl, inr, sym,
}
use llm_draftbench.Tariff.Policy.{
  PolicyError, Service, gpt6, anthropic, Terms, not_given, context_window, admit, validated,
  full_cost, affordable, admission_exhausted, all_caps, positive_cap, service_mode, explicit_caps,
  fields, invalid_field, positive_explicit_pricing_required, output_within,
}

pub present : (o : Option ℕ) → not (not_given o) ≡ true → (n : ℕ) × (o ≡ some n)
present none h = cc
present (some n) h = (n, refl)

output-present : (o : Option ℕ) → output_within o ≡ true → (n : ℕ) × (o ≡ some n)
output-present none h = cc
output-present (some n) h = (n, refl)

window-present :
    (s : Service) (t : Terms)
    → t.tracking_only ≡ false
    → service_mode s t ≡ ok tt
    → (n : ℕ) × (context_window s ≡ some n)
window-present (gpt6 model effort none) t off h = cc
window-present (gpt6 model effort (some n)) t off h = (n, refl)
window-present (anthropic model thinking) t off h = (1000000, refl)

-- The bounds of a policy that is not for tracking only.
pub record Caps (s : Service) (t : Terms) : Type 0 where
  pub window : ℕ
  pub output : ℕ
  pub requests : ℕ
  pub token_total : ℕ
  pub bound : ℕ
  pub window_eq : context_window s ≡ some window
  pub output_eq : t.max_output_tokens ≡ some output
  pub requests_eq : t.max_requests ≡ some requests
  pub total_eq : t.max_total_tokens ≡ some token_total
  pub bound_eq : t.max_cost ≡ some bound

explicit_cap :
    (s : Service) (t : Terms)
    → t.tracking_only ≡ false
    → positive_cap s t ≡ guard (explicit_caps t) positive_explicit_pricing_required
explicit_cap s t off = rw off refl

modes :
    (s : Service) (t : Terms)
    → t.tracking_only ≡ false
    → validated s t ≡ ok tt
    → (explicit_caps t ≡ true) × (service_mode s t ≡ ok tt)
unfolding validated
modes s t off h =
    guard-eq-ok (explicit_caps t) positive_explicit_pricing_required (service_mode s t) (
      subst (λ m. (m >> service_mode s t) ≡ ok tt) (explicit_cap s t off)
        (guard-eq-ok (fields s t) invalid_field (positive_cap s t >> service_mode s t) h).1)

abbrev counted_caps : Terms → Bool
counted_caps t = not (not_given t.max_cost) && not (not_given t.max_requests)

abbrev first_caps : Terms → Bool
first_caps t = counted_caps t && not (not_given t.max_total_tokens)

pub validated-Caps :
    (s : Service) (t : Terms) → t.tracking_only ≡ false → validated s t ≡ ok tt → Caps s t
validated-Caps s t off h =
    let (caps, mode) = modes s t off h in
    let costed = and-parts (all_caps t && output_within t.max_output_tokens) _ caps in
    let within = and-parts (all_caps t) (output_within t.max_output_tokens) costed.0 in
    let timed = and-parts (first_caps t && not (not_given t.max_input_bytes)) _ within.0 in
    let sized = and-parts (first_caps t) (not (not_given t.max_input_bytes)) timed.0 in
    let totalled = and-parts (counted_caps t) (not (not_given t.max_total_tokens)) sized.0 in
    let priced =
      and-parts (not (not_given t.max_cost)) (not (not_given t.max_requests)) totalled.0 in
    let (window, window_eq) = window-present s t off mode in
    let (output, output_eq) = output-present t.max_output_tokens within.1 in
    let (bound, bound_eq) = present t.max_cost priced.0 in
    let (most, requests_eq) = present t.max_requests priced.1 in
    let (token_total, total_eq) = present t.max_total_tokens totalled.1 in
    record {
      window = window;
      output = output;
      requests = most;
      token_total = token_total;
      bound = bound;
      window_eq = window_eq;
      output_eq = output_eq;
      requests_eq = requests_eq;
      total_eq = total_eq;
      bound_eq = bound_eq;
    }

-- `admit` once the bounds are there.
pub admit-Caps :
    (s : Service) (t : Terms) (count : ℕ)
    → t.tracking_only ≡ false
    → (c : Caps s t)
    → admit s t count ≡ (
        guard (leb count c.requests) admission_exhausted
        >> (guard (leb (count * (c.window + c.output)) c.token_total) admission_exhausted
            >> guard
                (affordable (full_cost s t count c.window c.output) c.bound)
                admission_exhausted))
unfolding admit
admit-Caps s t count off c =
    rw (off, c.requests_eq, c.window_eq, c.output_eq, c.total_eq, c.bound_eq) refl

pub Answer : Result PolicyError (Unit {0}) → Type 0
Answer r = (r ≡ ok tt) ⊎ (r ≡ err admission_exhausted)

guards-Answer :
    (a b c : Bool)
    → Answer (
        guard a admission_exhausted >> (guard b admission_exhausted >> guard c admission_exhausted))
unfolding Answer
guards-Answer false b c = inr refl
guards-Answer true false c = inr refl
guards-Answer true true false = inr refl
guards-Answer true true true = inl refl

admit_tracking :
    (s : Service) (t : Terms) (count : ℕ) → t.tracking_only ≡ true → admit s t count ≡ ok tt
unfolding admit
admit_tracking s t count on = rw on refl

-- The validators of a policy leave no None for `admit` to compare with: whatever the count, `admit`
-- of a validated policy returns or raises `admission_exhausted`, and no TypeError.
pub admit-Answer :
    (s : Service) (t : Terms) (count : ℕ)
    → validated s t ≡ ok tt
    → (admit s t count ≡ ok tt) ⊎ (admit s t count ≡ err admission_exhausted)
unfolding Answer
admit-Answer s t count h = elim (Bool-cases t.tracking_only) [
  | inl on ↦ inl (admit_tracking s t count on)
  | inr off ↦
      let c = validated-Caps s t off h in
      subst Answer (sym (admit-Caps s t count off c)) (
        guards-Answer (leb count c.requests) (leb (count * (c.window + c.output)) c.token_total)
          (affordable (full_cost s t count c.window c.output) c.bound))
]
