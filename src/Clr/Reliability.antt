-- ===== src/Clr/Reliability.antt =====
-- What `_calculate_reliability` of vibe_clr_async.py can give.
use vibe_thinker.Prelude.{
  ℕ, ◌≤◌, ◌≡◌, ◌≢◌, refl, String, Bool, true, false, not, List, Option, arith, ltb, if_both, length,
  is_nil,
}
use vibe_thinker.Clr.Floats.{Floats, IsOrder}
use vibe_thinker.Clr.Confidence.{
  Policy, meaningful_verdicts, base_score, adjusted, compute_confidence, calculate_reliability,
}

module _ {F : Type 0} (fl : Floats F) where
  -- At most 0.65, and 0 without an answer, without verdicts or with too few claims that count.
  pub record Restrained (policy : Policy F) (verdicts : List ℕ) (claims : List String)
      (answer_present : Bool) (score : F) : Type 0 where
    pub capped : fl.lt (fl.thousandths 650) score ≡ false
    pub answered : score ≢ fl.thousandths 0 → answer_present ≡ true
    pub backed :
        score ≢ fl.thousandths 0
        → policy.min_claims ≤ length (meaningful_verdicts fl claims verdicts)

  -- Whatever the verdicts and the consistency, the score of a trajectory is at most 0.65, and it is
  -- 0 unless there is an answer and at least the required number of claims that count.
  pub calculate_reliability-Restrained :
      IsOrder fl
      → fl.lt (fl.thousandths 650) (fl.thousandths 0) ≡ false
      → (policy : Policy F) (verdicts : List ℕ) (claims : List String) (answer_present : Bool)
        (consistency : Option Bool)
      → Restrained policy verdicts claims answer_present
          (calculate_reliability fl policy verdicts claims answer_present consistency)
  unfolding calculate_reliability compute_confidence
  calculate_reliability-Restrained order sane policy verdicts claims answer_present consistency =
      let P = Restrained policy verdicts claims answer_present in
      let counted = meaningful_verdicts fl claims verdicts in
      let base = adjusted fl policy consistency (base_score fl counted) in
      let zero : P (fl.thousandths 0) = record {
        capped = sane;
        answered = λ h. absurd (h refl);
        backed = λ h. absurd (h refl);
      } in
      if_both P (is_nil verdicts) _ _ (λ e. zero)
        (λ e.
          if_both P (not answer_present) _ _ (λ e. zero)
            (λ present.
              if_both P (ltb (length counted) policy.min_claims) _ _ (λ e. zero)
                (λ enough. record {
                  capped =
                      if_both (λ x. fl.lt (fl.thousandths 650) x ≡ false)
                        (fl.lt (fl.thousandths 650) base) _ _
                        (λ e. order.irreflexive (fl.thousandths 650)) (λ e. e);
                  answered = λ h. ground (arith, present);
                  backed = λ h. ground (arith, enough);
                })))
