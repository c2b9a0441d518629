-- ===== src/Clr/Run.antt =====
-- `run` of vibe_clr_async.py with its two modes. The model, the verifier and the reading of numbers
-- are parameters.
use vibe_thinker.Prelude.{
  ℕ, zero, suc, String, Bool, true, false, List, [], ◌∷◌, Option, none, some, ltb, ◌==◌, mem,
  if◌then◌else◌, length,
}
use vibe_thinker.Json.{Json, str}
use vibe_thinker.Text.{Text}
use vibe_thinker.Clr.Floats.{Floats, le, lesser}
use vibe_thinker.Clr.Confidence.{Policy, compute_confidence}
use vibe_thinker.Clr.Trajectory.{Parts, Trajectory}

-- What a verifier says of an answer.
pub record Verdict (F : Type 0) : Type 0 where
  pub verified : Bool
  pub score : F

-- `verify i answer` is its `i`-th call, none if it raises.
pub record Verifier (F : Type 0) : Type 0 where
  pub name : String
  pub verify : ℕ → Json → Option (Verdict F)

-- `attempt i` is what the calls of the `i`-th trajectory give, none if one raises.
pub record Model (F : Type 0) : Type 0 where
  pub attempt : ℕ → Option Parts
  pub numeric : Text → Option F

pub record ClrResult (F : Type 0) : Type 0 where
  pub best_answer : Json
  pub best_score : F
  pub best_raw_trace : String
  pub all_trajectories : List (Trajectory F)
  pub k : ℕ
  pub transport_failures : ℕ
  pub model_failures : ℕ
  pub partial_failure : Bool
  pub failure_reason : Option String
  pub verification_method : String
  pub verified : Bool
  pub deterministic_verification : Option F
  pub adaptive : Bool
  pub trajectories_used : ℕ
  pub max_trajectories : ℕ
  pub early_exit_reason : Option String
  pub branch_reason : Option String
  pub agreement : Option Bool
  pub verification_status : String

-- `raised` is an exception: all trajectories failed, or an answer that is no text was scored.
pub data Outcome (F : Type 0) : Type 0 where
  raised : Outcome F
  done : ClrResult F → Outcome F

-- What `_try_verifier` returns: method, score of the verifier, verified, final score.
pub record Tried (F : Type 0) : Type 0 where
  pub method : String
  pub det : Option F
  pub verified : Bool
  pub final : Option F

abbrev high_risk_task_types : List String
high_risk_task_types = "code" ∷ "file_modify" ∷ "security" ∷ "medical" ∷ "legal" ∷ "financial" ∷ []

unfoldable pub is_high_risk : String → Bool
is_high_risk task_type = mem task_type high_risk_task_types

abbrev pub self_only : String
self_only = "self_claims_only"

module _ {F : Type 0} (fl : Floats F) (policy : Policy F) (model : Model F) where
  abbrev zero_score : F
  zero_score = fl.thousandths 0

  -- `asyncio.gather` of `n` trajectories from the `i`-th on: those made, and the number of failures.
  abbrev pub gather : (Parts → Trajectory F) → ℕ → ℕ → List (Trajectory F) × ℕ
  gather make i zero = ([], 0)
  gather make i (suc n) =
      let (made, failures) = gather make (suc i) n in
      elim (model.attempt i) [
        | none ↦ (made, suc failures)
        | some parts ↦ (make parts ∷ made, failures)
      ]

  unfoldable pub try_verifier : Verifier F → ℕ → Json → F → Option (Tried F)
  try_verifier verifier i answer best_score = elim (verifier.verify i answer) [
    | none ↦ none
    | some v ↦
        if v.verified
        then some (record {
          method = verifier.name;
          det = some v.score;
          verified = true;
          final = some (
              (compute_confidence fl best_score best_score (some v.score)
                verifier.name).final_score);
        })
        else if le fl v.score zero_score
        then some (record {
          method = verifier.name;
          det = some zero_score;
          verified = false;
          final = some zero_score;
        })
        else some (record { method = verifier.name; det = none; verified = false; final = none })
  ]

  -- `_build_no_answer_result`, and the two results without an answer of `_run_static`.
  unfoldable pub no_answer_result :
      List (Trajectory F) → ℕ → ℕ → Bool → Option String → Option String → ClrResult F
  no_answer_result ts failures k adaptive branch_reason failure_reason = record {
    best_answer = str "No clear answer found";
    best_score = zero_score;
    best_raw_trace = "";
    all_trajectories = ts;
    k = k;
    transport_failures = failures;
    model_failures = 0;
    partial_failure = ltb 0 failures;
    failure_reason = failure_reason;
    verification_method = self_only;
    verified = false;
    deterministic_verification = none;
    adaptive = adaptive;
    trajectories_used = length ts;
    max_trajectories = k;
    early_exit_reason = none;
    branch_reason = branch_reason;
    agreement = none;
    verification_status = "error";
  }

  abbrev pub or_score : Option F → F → F
  or_score none score = score
  or_score (some s) score = s

  -- The cap of what no verifier confirmed.
  abbrev pub capped : Bool → F → F
  capped verified score = if verified then score else lesser fl score policy.self_claim_cap

  -- `_build_final_result`
  unfoldable pub early_result :
      Trajectory F
      → List (Trajectory F)
      → ℕ
      → ℕ
      → Tried F
      → String
      → Option Bool
      → String
      → ClrResult F
  early_result best ts failures max_k tried exit_reason agreement status = record {
    best_answer = best.answer;
    best_score = capped tried.verified (or_score tried.final best.score);
    best_raw_trace = best.raw_trace;
    all_trajectories = ts;
    k = length ts;
    transport_failures = failures;
    model_failures = 0;
    partial_failure = ltb 0 failures;
    failure_reason = none;
    verification_method = tried.method;
    verified = tried.verified;
    deterministic_verification = tried.det;
    adaptive = true;
    trajectories_used = length ts;
    max_trajectories = if max_k == 0 then length ts else max_k;
    early_exit_reason = some exit_reason;
    branch_reason = none;
    agreement = agreement;
    verification_status = status;
  }
