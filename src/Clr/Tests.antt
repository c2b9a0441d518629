-- ===== src/Clr/Tests.antt =====
-- Runs of vibe_clr_async.py on small inputs, with thousandths for floats.
use vibe_thinker.Prelude.{
  ℕ, ◌+◌, ◌*◌, ◌/◌, ◌≤◌, ◌≡◌, refl, String, true, false, [], ◌∷◌, none, some, arith, ltb, ◌==◌, ◌⊎◌,
  if◌then◌else◌,
}
use vibe_thinker.Prelude.Int.{pos}
use vibe_thinker.Json.{str, int, truthy, codes}
use vibe_thinker.Text.{strip}
use vibe_thinker.Clr.Floats.{Floats, IsOrder}
use vibe_thinker.Clr.Claims.{is_meaningful_claim, extract_boxed_answer}
use vibe_thinker.Clr.Confidence.{Policy, calculate_reliability, compute_confidence}
use vibe_thinker.Clr.Trajectory.{
  Parts, is_answered, full_trajectory, lightweight_trajectory, scoring_raises,
}
use vibe_thinker.Clr.Run.{
  Verifier, Model, ClrResult, raised, done, is_high_risk, try_verifier, early_result,
}
use vibe_thinker.Clr.Modes.{run, run_adaptive, run_static, conclude, decide, initial_k}
use vibe_thinker.Clr.Honest.{Honest, run-Honest}
use vibe_thinker.Clr.Choice.{Chosen, run-Chosen}
use vibe_thinker.Clr.Budget.{Within, max_ℕ, run_adaptive-Within}
use vibe_thinker.Clr.Early.{run_adaptive-ExitsVerified}
use vibe_thinker.Clr.Raises.{AllFail, batch, Unscorable, run-raises}
use vibe_thinker.Clr.Reliability.{Restrained, calculate_reliability-Restrained}

abbrev pub thousandths : Floats ℕ
thousandths = record {
  thousandths = λ n. n;
  add = λ a b. a + b;
  mul = λ a b. a * b / 1000;
  ratio = λ a b. a * 1000 / b;
  lt = λ a b. ltb a b;
  close = λ a b. a == b;
}

pub thousandths-IsOrder : IsOrder thousandths
thousandths-IsOrder = record {
  irreflexive = λ a. ground arith;
  asymmetric = λ a b h. ground (arith, h);
  transitive = λ a b c h k. ground (arith, h, k);
}

abbrev claim : String
claim = "Two and two make four."

-- A claim that starts like "na" does not count.
claims_count :
    (is_meaningful_claim claim ≡ true)
    × (is_meaningful_claim "Natural numbers are closed under addition." ≡ false)
unfolding is_meaningful_claim strip
claims_count = (refl, refl)

boxed_found : extract_boxed_answer "so \\boxed {3}, no: \\boxed{ 4 }." ≡ some (codes "4")
unfolding extract_boxed_answer strip
boxed_found = refl

abbrev good : Parts
good = record {
  final_answer = str "4";
  claims = claim ∷ claim ∷ claim ∷ claim ∷ claim ∷ [];
  verdicts = 1 ∷ 1 ∷ 1 ∷ 1 ∷ 1 ∷ [];
  raw_trace = "\\boxed{4}";
}

abbrev pub model : Model ℕ
model = record { attempt = λ i. if i == 1 then none else some good; numeric = λ t. none }

abbrev pub checker : Verifier ℕ
checker = record {
  name = "math_verifier";
  verify = λ i a. some (record { verified = true; score = 1000 });
}

abbrev pub policy : Policy ℕ
policy = record {
  initial_k_with_verifier = 1;
  initial_k_without_verifier = 2;
  max_k = 3;
  self_claim_cap = 650;
  min_claims = 5;
  early_exit_on_self_consensus = true;
  disable_self_consensus_for_high_risk = true;
  consistency_boost = 50;
  contradiction_penalty = 750;
}

-- The verifier confirms the only trajectory of phase 1.
abbrev pub confirmed : ClrResult ℕ
confirmed = record {
  best_answer = str "4";
  best_score = 895;
  best_raw_trace = "\\boxed{4}";
  all_trajectories =
      record {
        score = 0;
        answer = str "4";
        claims = [];
        verdicts = [];
        raw_trace = "\\boxed{4}";
        answer_present = true;
        lightweight = true;
        consistency_check = none;
      }
      ∷ [];
  k = 1;
  transport_failures = 0;
  model_failures = 0;
  partial_failure = false;
  failure_reason = none;
  verification_method = "math_verifier";
  verified = true;
  deterministic_verification = some 1000;
  adaptive = true;
  trajectories_used = 1;
  max_trajectories = 3;
  early_exit_reason = some "deterministic_verifier_passed";
  branch_reason = none;
  agreement = none;
  verification_status = "verified";
}

confirmed_adaptive : run_adaptive thousandths policy model "code" (some checker) ≡ done confirmed
unfolding run_adaptive decide try_verifier early_result lightweight_trajectory is_answered truthy
    compute_confidence
confirmed_adaptive = refl

pub confirmed_run : run thousandths policy model true 2 "code" (some checker) ≡ done confirmed
unfolding run
confirmed_run = confirmed_adaptive

run-Honest_example : Honest thousandths policy model (some checker) confirmed
run-Honest_example =
    run-Honest thousandths policy model (some checker) thousandths-IsOrder refl true 2 "code"
      confirmed confirmed_run

run-Chosen_example : Chosen thousandths thousandths-IsOrder confirmed
run-Chosen_example =
    run-Chosen thousandths thousandths-IsOrder policy model (some checker) true 2 "code" confirmed
      confirmed_run

run_adaptive-Within_example :
    Within
      (max_ℕ (initial_k thousandths policy model (some checker)) policy.max_k)
      (initial_k thousandths policy model (some checker) + policy.max_k)
      confirmed
run_adaptive-Within_example =
    run_adaptive-Within thousandths policy model "code" (some checker) confirmed confirmed_adaptive

run_adaptive-ExitsVerified_example :
    (confirmed.early_exit_reason ≡ none) ⊎ (confirmed.verified ≡ true)
unfolding is_high_risk
run_adaptive-ExitsVerified_example =
    run_adaptive-ExitsVerified thousandths policy model (some checker) "code" refl refl confirmed
      confirmed_adaptive

abbrev dead : Model ℕ
dead = record { attempt = λ i. none; numeric = λ t. none }

run-raises_example :
    ((1 ≤ batch thousandths policy dead none true 2)
        × AllFail thousandths policy dead none 0 (batch thousandths policy dead none true 2)
      → run thousandths policy dead true 2 "math" none ≡ raised)
    × (run thousandths policy dead true 2 "math" none ≡ raised
        → ((1 ≤ batch thousandths policy dead none true 2)
            × AllFail thousandths policy dead none 0 (batch thousandths policy dead none true 2))
          ⊎ Unscorable thousandths policy dead none)
run-raises_example = run-raises thousandths policy dead none (omega arith) true 2 "math"

-- The model's JSON has the number 4 as its answer, and the traces box it twice: scoring raises.
abbrev counting : Model ℕ
counting = record {
  attempt = λ i. some (record good { final_answer = int (pos 4) });
  numeric = λ t. none;
}

counting_raises : run thousandths policy counting false 2 "math" none ≡ raised
unfolding run run_static conclude full_trajectory is_answered scoring_raises extract_boxed_answer
    strip truthy
counting_raises = refl

calculate_reliability-Restrained_example :
    Restrained thousandths policy good.verdicts good.claims true
      (calculate_reliability thousandths policy good.verdicts good.claims true (some true))
calculate_reliability-Restrained_example =
    calculate_reliability-Restrained thousandths thousandths-IsOrder refl policy good.verdicts
      good.claims true (some true)
