-- ===== src/Clr/Early.antt =====
-- When a run of vibe_clr_async.py stops early.
use vibe_thinker.Prelude.{
  ℕ, ◌≡◌, refl, subst, String, Bool, true, ◌&&◌, List, [], ◌∷◌, Option, none, some, arith, ltb,
  if_both, option_both, list_both, ◌⊎◌, inl, inr, keep, is_nil,
}
use vibe_thinker.Clr.Floats.{Floats}
use vibe_thinker.Clr.Confidence.{Policy}
use vibe_thinker.Clr.Trajectory.{
  Trajectory, is_answered, scoring_raises, score_trajectories, best_of,
}
use vibe_thinker.Clr.Run.{
  Verifier, Model, ClrResult, raised, done, Tried, is_high_risk, no_answer_result, early_result,
}
use vibe_thinker.Clr.Modes.{
  tried_at, late_result, conclude, can_consensus_exit, agrees, branch, later_phases, initial_k,
  phase_1, decide, run_adaptive,
}
use vibe_thinker.Clr.Honest.{Yields}

-- An early exit comes with a verified answer.
abbrev pub ExitsVerified : {F : Type 0} → ClrResult F → Type 0
ExitsVerified r = (r.early_exit_reason ≡ none) ⊎ (r.verified ≡ true)

module _ {F : Type 0} (fl : Floats F) (policy : Policy F) (model : Model F)
    (verifier : Option (Verifier F)) where
  conclude-ExitsVerified :
      (adaptive : Bool) (k i : ℕ) (reason : Option String) (made : List (Trajectory F))
      (failures : ℕ)
      → Yields ExitsVerified (conclude fl policy model adaptive k verifier i reason made failures)
  unfolding conclude no_answer_result late_result score_trajectories
  conclude-ExitsVerified adaptive k i reason made failures =
      if_both (Yields ExitsVerified) (scoring_raises fl made) raised _ (λ e. tt)
        (λ e.
          list_both ExitsVerified
            (keep is_answered (score_trajectories fl policy model.numeric made)) _ _ (λ e. inl refl)
            (λ a rest e. inl refl))

  module _ (task_type : String) (risky : is_high_risk task_type ≡ true)
      (guarded : policy.disable_self_consensus_for_high_risk ≡ true) where
    later-ExitsVerified :
        (k : ℕ) (made : List (Trajectory F)) (failures : ℕ) (answered : List (Trajectory F))
        (best : Trajectory F) (tried : Option (Tried F))
        → Yields ExitsVerified
            (later_phases fl policy model task_type verifier k made failures answered best tried)
    unfolding later_phases branch can_consensus_exit
    later-ExitsVerified k made failures answered best tried =
        if_both (Yields ExitsVerified) (agrees fl policy model task_type answered best tried) _ _
          (λ e. absurd (ground (arith, e, risky, guarded)))
          (λ e. conclude-ExitsVerified true policy.max_k 1 _ _ _)

    decide-ExitsVerified :
        (made : List (Trajectory F)) (failures : ℕ) (answered : List (Trajectory F))
        → Yields ExitsVerified (decide fl policy model task_type verifier made failures answered)
    unfolding decide no_answer_result early_result
    decide-ExitsVerified made failures [] = inl refl
    decide-ExitsVerified made failures (a ∷ rest) =
        let best = best_of fl a rest in
        option_both (Yields ExitsVerified)
          (tried_at fl policy model verifier 0 best.answer (fl.thousandths 650)) _ _
          (λ e.
            later-ExitsVerified (initial_k fl policy model verifier) made failures (a ∷ rest) best
              none)
          (λ t eq.
            if_both (Yields ExitsVerified) t.verified _ _ (λ y. inr y)
              (λ y.
                later-ExitsVerified (initial_k fl policy model verifier) made failures (a ∷ rest)
                  best (some t)))

    -- With the guard for high-risk tasks on, an adaptive run of such a task stops early only on
    -- a verified answer, never because the model agrees with itself.
    pub run_adaptive-ExitsVerified :
        (r : ClrResult F)
        → run_adaptive fl policy model task_type verifier ≡ done r
        → (r.early_exit_reason ≡ none) ⊎ (r.verified ≡ true)
    unfolding run_adaptive
    run_adaptive-ExitsVerified r e =
        let phase = phase_1 fl policy model verifier in
        subst (Yields ExitsVerified) e (
          if_both (Yields ExitsVerified) (is_nil phase.0 && ltb 0 phase.1) raised _ (λ x. tt)
            (λ x. decide-ExitsVerified phase.0 phase.1 (keep is_answered phase.0)))
