-- ===== src/Clr/Budget.antt =====
-- How much a run of vibe_clr_async.py computes, when it stops early, and when it raises.
use vibe_thinker.Prelude.{
  ℕ, zero, suc, ◌+◌, ◌-◌, ◌≤◌, ◌≡◌, refl, ap, subst, String, Bool, true, ◌&&◌, List, [], ◌∷◌, ◌++◌,
  map, Option, none, some, arith, ltb, if◌then◌else◌, if_both, option_both, list_both, length,
  length-append, keep, is_nil,
}
use vibe_thinker.Clr.Floats.{Floats}
use vibe_thinker.Clr.Confidence.{Policy}
use vibe_thinker.Clr.Trajectory.{
  Parts, Trajectory, is_answered, full_trajectory, scoring_raises, score_trajectories, best_of,
}
use vibe_thinker.Clr.Run.{
  Verifier, Model, ClrResult, raised, done, Tried, gather, no_answer_result, early_result,
}
use vibe_thinker.Clr.Modes.{
  tried_at, late_result, conclude, by_consensus, agrees, branch, later_phases, initial_k, phase_1,
  decide, run_adaptive,
}
use vibe_thinker.Clr.Honest.{Yields}

abbrev pub max_ℕ : ℕ → ℕ → ℕ
max_ℕ a b = if ltb a b then b else a

length-map : {A B : Type 0} (f : A → B) (xs : List A) → length (map f xs) ≡ length xs
length-map f [] = refl
length-map f (x ∷ xs) = ap suc (length-map f xs)

-- The result counts its trajectories; they are at most `most`, and with the failures at most
-- `attempts`.
pub record Within {F : Type 0} (most attempts : ℕ) (r : ClrResult F) : Type 0 where
  pub counted : r.trajectories_used ≡ length r.all_trajectories
  pub used : r.trajectories_used ≤ most
  pub attempted : r.trajectories_used + r.transport_failures ≤ attempts

module _ {F : Type 0} (fl : Floats F) (policy : Policy F) (model : Model F) where
  pub gather-length :
      (make : Parts → Trajectory F) (i n : ℕ)
      → let g = gather fl policy model make i n in length g.0 + g.1 ≡ n
  gather-length make i zero = refl
  gather-length make i (suc n) = ground (arith, gather-length make (suc i) n)

  module _ (verifier : Option (Verifier F)) where
    conclude-Within :
        (adaptive : Bool) (k i : ℕ) (reason : Option String) (made : List (Trajectory F))
        (failures most attempts : ℕ)
        → length made ≤ most
        → length made + failures ≤ attempts
        → Yields
            (Within most attempts)
            (conclude fl policy model adaptive k verifier i reason made failures)
    unfolding conclude no_answer_result late_result score_trajectories
    conclude-Within adaptive k i reason made failures most attempts h g =
        let ts = score_trajectories fl policy model.numeric made in
        let size : length ts ≡ length made = length-map _ made in
        if_both (Yields (Within most attempts)) (scoring_raises fl made) raised _ (λ e. tt)
          (λ e.
            list_both (Within most attempts) (keep is_answered ts) _ _
              (λ e. record {
                counted = refl;
                used = omega (arith, size, h);
                attempted = omega (arith, size, g);
              })
              (λ a rest e. record {
                counted = refl;
                used = omega (arith, size, h);
                attempted = omega (arith, size, g);
              }))

  phase_1-length :
      (verifier : Option (Verifier F))
      → let g = phase_1 fl policy model verifier in
        length g.0 + g.1 ≡ initial_k fl policy model verifier
  phase_1-length none = gather-length _ 0 policy.initial_k_without_verifier
  phase_1-length (some v) = gather-length _ 0 policy.initial_k_with_verifier

  module _ (task_type : String) (verifier : Option (Verifier F)) where
    abbrev first : ℕ
    first = initial_k fl policy model verifier

    -- The bounds of an adaptive run.
    abbrev Bounded : ClrResult F → Type 0
    Bounded = Within (max_ℕ first policy.max_k) (first + policy.max_k)

    early-Bounded :
        (best : Trajectory F) (made : List (Trajectory F)) (failures : ℕ) (t : Tried F)
        (reason : String) (agreement : Option Bool) (status : String)
        → length made + failures ≤ first
        → Bounded
            (early_result fl policy model best made failures policy.max_k t reason agreement status)
    unfolding early_result
    early-Bounded best made failures t reason agreement status h = record {
      counted = refl;
      used = ground (arith, h);
      attempted = ground (arith, h);
    }

    branch-Bounded :
        (made : List (Trajectory F)) (failures : ℕ) (answered : List (Trajectory F))
        (tried : Option (Tried F))
        → length made + failures ≤ first
        → Yields Bounded
            (branch fl policy model task_type verifier first made failures answered tried)
    unfolding branch
    branch-Bounded made failures answered tried h =
        let n = policy.max_k - length made in
        let more = gather fl policy model (full_trajectory fl policy) first n in
        let made_more : length more.0 + more.1 ≡ n = gather-length _ first n in
        conclude-Within verifier true policy.max_k 1 _ (made ++ more.0) (failures + more.1) _ _
          (ground (arith, length-append made more.0, made_more, h))
          (ground (arith, length-append made more.0, made_more, h))

    later-Bounded :
        (made : List (Trajectory F)) (failures : ℕ) (answered : List (Trajectory F))
        (best : Trajectory F) (tried : Option (Tried F))
        → length made + failures ≤ first
        → Yields Bounded (
            later_phases fl policy model task_type verifier first made failures answered best tried)
    unfolding later_phases
    later-Bounded made failures answered best tried h =
        if_both (Yields Bounded) (agrees fl policy model task_type answered best tried) _ _
          (λ e. early-Bounded best made failures (by_consensus fl policy model best) _ _ _ h)
          (λ e. branch-Bounded made failures answered tried h)

    decide-Bounded :
        (made : List (Trajectory F)) (failures : ℕ) (answered : List (Trajectory F))
        → length made + failures ≤ first
        → Yields Bounded (decide fl policy model task_type verifier made failures answered)
    unfolding decide no_answer_result
    decide-Bounded made failures [] h = record {
      counted = refl;
      used = ground (arith, h);
      attempted = ground (arith, h);
    }
    decide-Bounded made failures (a ∷ rest) h =
        let best = best_of fl a rest in
        option_both (Yields Bounded)
          (tried_at fl policy model verifier 0 best.answer (fl.thousandths 650)) _ _
          (λ e. later-Bounded made failures (a ∷ rest) best none h)
          (λ t eq.
            if_both (Yields Bounded) t.verified _ _
              (λ y. early-Bounded best made failures t _ _ _ h)
              (λ y. later-Bounded made failures (a ∷ rest) best (some t) h))

    -- An adaptive run uses at most as many trajectories as the greater of its first batch and its
    -- maximum, and with the failed ones at most their sum.
    pub run_adaptive-Within :
        (r : ClrResult F)
        → run_adaptive fl policy model task_type verifier ≡ done r
        → Within
            (max_ℕ (initial_k fl policy model verifier) policy.max_k)
            (initial_k fl policy model verifier + policy.max_k)
            r
    unfolding run_adaptive
    run_adaptive-Within r e =
        let phase = phase_1 fl policy model verifier in
        subst (Yields Bounded) e (
          if_both (Yields Bounded) (is_nil phase.0 && ltb 0 phase.1) raised _ (λ x. tt)
            (λ x.
              decide-Bounded phase.0 phase.1 (keep is_answered phase.0)
                (omega (arith, phase_1-length verifier))))
