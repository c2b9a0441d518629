-- ===== src/Clr/Modes.antt =====
-- The two modes of `run` of vibe_clr_async.py: adaptive compute with its three phases, and all
-- trajectories at once.
use vibe_thinker.Prelude.{
  ℕ, ◌+◌, ◌-◌, String, Bool, true, false, not, ◌&&◌, List, [], ◌∷◌, ◌++◌, Option, none, some, ltb,
  leb, if◌then◌else◌, length, keep, is_nil,
}
use vibe_thinker.Json.{Json}
use vibe_thinker.Clr.Floats.{Floats, le, lesser}
use vibe_thinker.Clr.Confidence.{Policy}
use vibe_thinker.Clr.Trajectory.{
  Trajectory, is_answered, full_trajectory, lightweight_trajectory, check_answer_agreement,
  scoring_raises, score_trajectories, best_of,
}
use vibe_thinker.Clr.Run.{
  Verifier, Model, ClrResult, Outcome, raised, done, Tried, is_high_risk, self_only, gather,
  try_verifier, no_answer_result, or_score, capped, early_result,
}

module _ {F : Type 0} (fl : Floats F) (policy : Policy F) (model : Model F) where
  abbrev nil : F
  nil = fl.thousandths 0

  -- No verifier, or one that raised.
  abbrev pub tried_at : Option (Verifier F) → ℕ → Json → F → Option (Tried F)
  tried_at none i answer best_score = none
  tried_at (some v) i answer best_score = try_verifier fl policy model v i answer best_score

  -- The verifier's score is there, and at most zero.
  abbrev pub is_refuting : Tried F → Bool
  is_refuting t = elim t.det [ none ↦ false | some d ↦ le fl d nil ]

  abbrev pub verified_by : Option (Tried F) → Bool
  verified_by none = false
  verified_by (some t) = t.verified

  abbrev pub refuted_by : Option (Tried F) → Bool
  refuted_by none = false
  refuted_by (some t) = not t.verified && is_refuting t

  abbrev pub unsupported_by : Option (Tried F) → Bool
  unsupported_by none = false
  unsupported_by (some t) = not t.verified && not (is_refuting t)

  -- What the verifier makes of the best trajectory in the end.
  pub record Settled : Type 0 where
    pub method : String
    pub det : Option F
    pub verified : Bool
    pub score : F
    pub status : String

  unfoldable pub settle : F → Option (Tried F) → Settled
  settle best_score none = record {
    method = self_only;
    det = none;
    verified = false;
    score = best_score;
    status = "self_only";
  }
  settle best_score (some t) =
      let final = or_score fl policy model t.final best_score in
      record {
        method = t.method;
        det = t.det;
        verified = t.verified;
        score = if t.verified then final else if is_refuting t then nil else final;
        status =
            if t.verified then "verified" else if is_refuting t then "refuted" else "unsupported";
      }

  -- The result when all trajectories are there.
  unfoldable pub late_result :
      Bool
      → ℕ
      → List (Trajectory F)
      → ℕ
      → Option String
      → Option Bool
      → Trajectory F
      → Settled
      → ClrResult F
  late_result adaptive k ts failures branch_reason agreement best s = record {
    best_answer = best.answer;
    best_score = capped fl policy model s.verified s.score;
    best_raw_trace = best.raw_trace;
    all_trajectories = ts;
    k = k;
    transport_failures = failures;
    model_failures = 0;
    partial_failure = ltb 0 failures;
    failure_reason = none;
    verification_method = s.method;
    verified = s.verified;
    deterministic_verification = s.det;
    adaptive = adaptive;
    trajectories_used = length ts;
    max_trajectories = k;
    early_exit_reason = none;
    branch_reason = branch_reason;
    agreement = agreement;
    verification_status = s.status;
  }

  -- The end of both modes: all trajectories are scored again and the best goes to the verifier, in
  -- its `i`-th call.
  unfoldable pub conclude :
      Bool → ℕ → Option (Verifier F) → ℕ → Option String → List (Trajectory F) → ℕ → Outcome F
  conclude adaptive k verifier i branch_reason made failures =
      let ts = score_trajectories fl policy model.numeric made in
      let answered = keep is_answered ts in
      if scoring_raises fl made
      then raised
      else done (elim answered [
        | [] ↦ no_answer_result fl policy model ts failures k adaptive branch_reason none
        | a ∷ rest ↦
            let best = best_of fl a rest in
            let agreement =
              if adaptive && leb 2 (length (a ∷ rest))
              then some (check_answer_agreement fl (a ∷ rest))
              else none in
            late_result adaptive k ts failures branch_reason agreement best
              (settle best.score (tried_at verifier i best.answer best.score))
      ])

  -- Phase 2 may end the run.
  unfoldable pub can_consensus_exit : String → Option (Tried F) → Bool
  can_consensus_exit task_type tried =
      not (refuted_by tried)
      && (policy.early_exit_on_self_consensus
          && not (is_high_risk task_type && policy.disable_self_consensus_for_high_risk))

  unfoldable pub branch_reason_of : String → Option (Tried F) → ℕ → String
  branch_reason_of task_type tried answered =
      if refuted_by tried
      then "verifier_refuted"
      else if unsupported_by tried && ltb answered 2
      then "insufficient_trajectories"
      else if not (can_consensus_exit task_type tried) && is_high_risk task_type
      then "high_risk_no_verifier"
      else "disagreement_or_uncertainty"

  abbrev pub by_consensus : Trajectory F → Tried F
  by_consensus best = record {
    method = self_only;
    det = none;
    verified = false;
    final = some (lesser fl best.score policy.self_claim_cap);
  }

  -- The test of phase 2.
  abbrev pub agrees : String → List (Trajectory F) → Trajectory F → Option (Tried F) → Bool
  agrees task_type answered best tried =
      can_consensus_exit task_type tried
      && (leb 2 (length answered) && (fl.lt nil best.score && check_answer_agreement fl answered))

  -- Phase 3 fills up to the maximum.
  unfoldable pub branch :
      String
      → Option (Verifier F)
      → ℕ
      → List (Trajectory F)
      → ℕ
      → List (Trajectory F)
      → Option (Tried F)
      → Outcome F
  branch task_type verifier k_initial made failures answered tried =
      let more =
        gather fl policy model (full_trajectory fl policy) k_initial (policy.max_k - length made) in
      conclude true policy.max_k verifier 1
        (some (branch_reason_of task_type tried (length answered))) (made ++ more.0)
        (failures + more.1)

  -- Phases 2 and 3, from the answered trajectories of phase 1 and the best of them.
  unfoldable pub later_phases :
      String
      → Option (Verifier F)
      → ℕ
      → List (Trajectory F)
      → ℕ
      → List (Trajectory F)
      → Trajectory F
      → Option (Tried F)
      → Outcome F
  later_phases task_type verifier k_initial made failures answered best tried =
      if agrees task_type answered best tried
      then done (
          early_result fl policy model best made failures policy.max_k (by_consensus best)
            "self_consensus_cap_reached" (some true) "self_only")
      else branch task_type verifier k_initial made failures answered tried

  abbrev pub initial_k : Option (Verifier F) → ℕ
  initial_k none = policy.initial_k_without_verifier
  initial_k (some v) = policy.initial_k_with_verifier

  -- With a verifier, phase 1 leaves out claims and verdicts.
  abbrev pub phase_1 : Option (Verifier F) → List (Trajectory F) × ℕ
  phase_1 none =
      gather fl policy model (full_trajectory fl policy) 0 policy.initial_k_without_verifier
  phase_1 (some v) =
      gather fl policy model (lightweight_trajectory fl) 0 policy.initial_k_with_verifier

  -- Behind phase 1: the verifier may confirm the best answer at once.
  unfoldable pub decide :
      String → Option (Verifier F) → List (Trajectory F) → ℕ → List (Trajectory F) → Outcome F
  decide task_type verifier made failures [] =
      done (no_answer_result fl policy model made failures policy.max_k true none none)
  decide task_type verifier made failures (a ∷ rest) =
      let best = best_of fl a rest in
      let tried = tried_at verifier 0 best.answer (fl.thousandths 650) in
      elim tried [
        | none ↦
            later_phases task_type verifier (initial_k verifier) made failures (a ∷ rest) best none
        | some t ↦
            if t.verified
            then done (
                early_result fl policy model best made failures policy.max_k t
                  "deterministic_verifier_passed" none "verified")
            else later_phases task_type verifier (initial_k verifier) made failures (a ∷ rest) best
                (some t)
      ]

  unfoldable pub run_adaptive : String → Option (Verifier F) → Outcome F
  run_adaptive task_type verifier =
      let phase = phase_1 verifier in
      if is_nil phase.0 && ltb 0 phase.1
      then raised
      else decide task_type verifier phase.0 phase.1 (keep is_answered phase.0)

  unfoldable pub run_static : ℕ → Option (Verifier F) → Outcome F
  run_static k verifier =
      let all = gather fl policy model (full_trajectory fl policy) 0 k in
      if is_nil all.0 && ltb 0 all.1
      then raised
      else if is_nil all.0
      then done
          (no_answer_result fl policy model [] 0 k false none (some "no trajectories produced"))
      else conclude false k verifier 0 none all.0 all.1

  unfoldable pub run : Bool → ℕ → String → Option (Verifier F) → Outcome F
  run adaptive k task_type verifier =
      if adaptive then run_adaptive task_type verifier else run_static k verifier
