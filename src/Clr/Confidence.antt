-- ===== src/Clr/Confidence.antt =====
-- `compute_confidence` of scoring.py, and `AdaptivePolicy` and `_calculate_reliability` of
-- vibe_clr_async.py.
use vibe_thinker.Prelude.{
  ℕ, suc, ◌+◌, ◌-◌, String, Bool, true, false, not, List, [], ◌∷◌, Option, none, some, ltb, ◌==◌,
  if◌then◌else◌, length, is_nil,
}
use vibe_thinker.Clr.Floats.{Floats, le, lesser}
use vibe_thinker.Clr.Claims.{is_meaningful_claim}

pub record Confidence (F : Type 0) : Type 0 where
  pub model_confidence : F
  pub claim_consistency : F
  pub deterministic_verification : Option F
  pub final_score : F
  pub verified : Bool
  pub verification_method : String

pub record Policy (F : Type 0) : Type 0 where
  pub initial_k_with_verifier : ℕ
  pub initial_k_without_verifier : ℕ
  pub max_k : ℕ
  pub self_claim_cap : F
  pub min_claims : ℕ
  pub early_exit_on_self_consensus : Bool
  pub disable_self_consensus_for_high_risk : Bool
  pub consistency_boost : F
  pub contradiction_penalty : F

-- `min(a, b)` of two integers.
abbrev pub min_ℕ : ℕ → ℕ → ℕ
min_ℕ a b = if ltb b a then b else a

module _ {F : Type 0} (fl : Floats F) where
  abbrev pub self_claims_only_cap : F
  self_claims_only_cap = fl.thousandths 650

  -- The score of a verifier, blended with the consistency of the claims.
  abbrev pub blend : F → F → F
  blend det consistency =
      fl.add (fl.mul det (fl.thousandths 700)) (fl.mul consistency (fl.thousandths 300))

  unfoldable pub compute_confidence : F → F → Option F → String → Confidence F
  compute_confidence model_score claim_consistency none method = record {
    model_confidence = model_score;
    claim_consistency = claim_consistency;
    deterministic_verification = none;
    final_score = lesser fl claim_consistency self_claims_only_cap;
    verified = false;
    verification_method = method;
  }
  compute_confidence model_score claim_consistency (some det) method =
      let refuted = le fl det (fl.thousandths 0) in
      record {
        model_confidence = model_score;
        claim_consistency = claim_consistency;
        deterministic_verification = some det;
        final_score = if refuted then fl.thousandths 0 else blend det claim_consistency;
        verified = if refuted then false else le fl (fl.thousandths 1000) det;
        verification_method = method;
      }

  -- The defaults of `AdaptivePolicy`.
  unfoldable pub default_policy : Policy F
  default_policy = record {
    initial_k_with_verifier = 1;
    initial_k_without_verifier = 2;
    max_k = 6;
    self_claim_cap = fl.thousandths 650;
    min_claims = 5;
    early_exit_on_self_consensus = true;
    disable_self_consensus_for_high_risk = true;
    consistency_boost = fl.thousandths 50;
    contradiction_penalty = fl.thousandths 750;
  }

  unfoldable pub make_fast_specialist_policy : ℕ → Policy F
  make_fast_specialist_policy k = record default_policy {
    initial_k_with_verifier = min_ℕ 3 k;
    initial_k_without_verifier = min_ℕ 5 k;
    max_k = min_ℕ 15 k;
    self_claim_cap = fl.thousandths 650;
  }

  -- The policy that the constructor makes from `k`, `k_min` and `k_max`.
  unfoldable pub constructed_policy : Bool → Bool → ℕ → ℕ → ℕ → Policy F
  constructed_policy adaptive fast_specialist k k_min k_max =
      if fast_specialist then make_fast_specialist_policy k else record default_policy {
        initial_k_without_verifier = if adaptive then min_ℕ k_min k else k;
        initial_k_with_verifier = if adaptive then 1 else k;
        max_k = if adaptive then min_ℕ k_max k else k;
      }

  -- `adjust_max_k_for_queue_load`, from the maximum at construction.
  unfoldable pub adjust_max_k : ℕ → F → Policy F → Policy F
  adjust_max_k original load policy = record policy {
    max_k =
        if fl.lt (fl.thousandths 800) load
        then min_ℕ 2 original
        else if fl.lt (fl.thousandths 500) load
        then min_ℕ 4 original
        else original;
  }

  -- The verdicts of the claims that count, as `zip` pairs them.
  abbrev pub meaningful_verdicts : List String → List ℕ → List ℕ
  meaningful_verdicts [] vs = []
  meaningful_verdicts (c ∷ cs) [] = []
  meaningful_verdicts (c ∷ cs) (v ∷ vs) =
      let rest = meaningful_verdicts cs vs in if is_meaningful_claim c then v ∷ rest else rest

  abbrev pub count_failed : List ℕ → ℕ
  count_failed [] = 0
  count_failed (v ∷ vs) = let n = count_failed vs in if v == 0 then suc n else n

  abbrev total : List ℕ → ℕ
  total [] = 0
  total (v ∷ vs) = v + total vs

  -- `mean ** 5`
  abbrev fifth_power : F → F
  fifth_power x = fl.mul x (fl.mul x (fl.mul x (fl.mul x x)))

  -- The score of the verdicts that count.
  unfoldable pub base_score : List ℕ → F
  base_score vs =
      let failed = count_failed vs in
      if ltb 0 failed
      then fl.mul (fl.ratio (length vs - failed) (length vs)) (fl.thousandths 300)
      else fifth_power (fl.ratio (total vs) (length vs))

  -- The boost or the penalty of the consistency check.
  unfoldable pub adjusted : Policy F → Option Bool → F → F
  adjusted policy none base = base
  adjusted policy (some true) base =
      lesser fl (fl.add base policy.consistency_boost) policy.self_claim_cap
  adjusted policy (some false) base = fl.mul base policy.contradiction_penalty

  -- Called with the claims, as by every trajectory. The ratios are meant for one verdict at least: a
  -- policy with `min_claims` of 0, which the program never makes, would divide by zero.
  unfoldable pub calculate_reliability : Policy F → List ℕ → List String → Bool → Option Bool → F
  calculate_reliability policy verdicts claims answer_present consistency =
      let counted = meaningful_verdicts claims verdicts in
      let base = adjusted policy consistency (base_score counted) in
      if is_nil verdicts
      then fl.thousandths 0
      else if not answer_present
      then fl.thousandths 0
      else if ltb (length counted) policy.min_claims
      then fl.thousandths 0
      else (compute_confidence base base none "self_claims_only").final_score
