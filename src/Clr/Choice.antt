-- ===== src/Clr/Choice.antt =====
-- Which trajectory's answer a run of vibe_clr_async.py returns.
use vibe_thinker.Prelude.{
  ℕ, ◌≡◌, refl, sym, subst, String, Bool, true, false, ◌&&◌, List, [], ◌∷◌, Option, none, some, ltb,
  if◌then◌else◌, if_both, option_both, list_both, ◌⊎◌, inl, inr, keep, is_nil, All, In,
}
use vibe_thinker.Json.{str}
use vibe_thinker.Clr.Floats.{Floats, IsOrder}
use vibe_thinker.Clr.Confidence.{Policy}
use vibe_thinker.Clr.Trajectory.{
  Trajectory, is_answered, full_trajectory, scoring_raises, score_trajectories, best_of,
}
use vibe_thinker.Clr.Run.{
  Verifier, Model, ClrResult, raised, done, Tried, gather, no_answer_result, early_result,
}
use vibe_thinker.Clr.Modes.{
  tried_at, late_result, conclude, by_consensus, agrees, branch, later_phases, initial_k, phase_1,
  decide, run_adaptive, run_static, run,
}
use vibe_thinker.Clr.Honest.{Yields}

module _ {F : Type 0} (fl : Floats F) (order : IsOrder fl) where
  -- No trajectory of the list scores better.
  abbrev pub Best : Trajectory F → List (Trajectory F) → Type 0
  Best t = All (λ u. fl.lt t.score u.score ≡ false)

  best_of-In : (t : Trajectory F) (us : List (Trajectory F)) → In (best_of fl t us) (t ∷ us)
  best_of-In t [] = inl refl
  best_of-In t (u ∷ us) =
      let w = if fl.lt t.score u.score then u else t in
      let b = best_of fl w us in
      elim (best_of-In w us) [
        | inr later ↦ inr (inr later)
        | inl same ↦
            if_both (λ x. b ≡ x → In b (t ∷ u ∷ us)) (fl.lt t.score u.score) u t
              (λ e h. inr (inl h)) (λ e h. inl h) same
      ]

  best_of-Best : (t : Trajectory F) (us : List (Trajectory F)) → Best (best_of fl t us) (t ∷ us)
  best_of-Best t [] = (order.irreflexive t.score, tt)
  best_of-Best t (u ∷ us) =
      let w = if fl.lt t.score u.score then u else t in
      let b = best_of fl w us in
      let (best, others) = best_of-Best w us in
      let (first, second) =
        if_both
          (λ x.
            fl.lt b.score x.score ≡ false
            → (fl.lt b.score t.score ≡ false) × (fl.lt b.score u.score ≡ false))
          (fl.lt t.score u.score) u t
          (λ e h.
            (order.transitive b.score u.score t.score h (order.asymmetric t.score u.score e), h))
          (λ e h. (h, order.transitive b.score t.score u.score h e)) best in
      (first, (second, others))

  -- The result is that of the best of its trajectories that have an answer, or says that there is
  -- none.
  pub record Picks (r : ClrResult F) (t : Trajectory F) : Type 0 where
    pub member : In t (keep is_answered r.all_trajectories)
    pub best : Best t (keep is_answered r.all_trajectories)
    pub answer : r.best_answer ≡ t.answer
    pub trace : r.best_raw_trace ≡ t.raw_trace

  pub record GivesUp (r : ClrResult F) : Type 0 where
    pub unanswered : keep is_answered r.all_trajectories ≡ []
    pub answer : r.best_answer ≡ str "No clear answer found"
    pub status : r.verification_status ≡ "error"
    pub score : r.best_score ≡ fl.thousandths 0

  abbrev pub Chosen : ClrResult F → Type 0
  Chosen r = GivesUp r ⊎ ((t : Trajectory F) × Picks r t)

  module _ (policy : Policy F) (model : Model F) (verifier : Option (Verifier F)) where
    conclude-Chosen :
        (adaptive : Bool) (k i : ℕ) (reason : Option String) (made : List (Trajectory F))
        (failures : ℕ)
        → Yields Chosen (conclude fl policy model adaptive k verifier i reason made failures)
    unfolding conclude no_answer_result late_result
    conclude-Chosen adaptive k i reason made failures =
        let ts = score_trajectories fl policy model.numeric made in
        if_both (Yields Chosen) (scoring_raises fl made) raised _ (λ e. tt)
          (λ e.
            list_both Chosen (keep is_answered ts) _ _
              (λ e. inl (record { unanswered = e; answer = refl; status = refl; score = refl }))
              (λ a rest e. inr (
                best_of fl a rest,
                record {
                  member = subst (In (best_of fl a rest)) (sym e) (best_of-In a rest);
                  best = subst (Best (best_of fl a rest)) (sym e) (best_of-Best a rest);
                  answer = refl;
                  trace = refl;
                },
              )))

    early-Chosen :
        (a : Trajectory F) (rest made : List (Trajectory F)) (failures : ℕ) (t : Tried F)
        (reason : String) (agreement : Option Bool) (status : String)
        → keep is_answered made ≡ a ∷ rest
        → Chosen (
            early_result fl policy model
              (best_of fl a rest)
              made
              failures
              policy.max_k
              t
              reason
              agreement
              status)
    unfolding early_result
    early-Chosen a rest made failures t reason agreement status e = inr (
      best_of fl a rest,
      record {
        member = subst (In (best_of fl a rest)) (sym e) (best_of-In a rest);
        best = subst (Best (best_of fl a rest)) (sym e) (best_of-Best a rest);
        answer = refl;
        trace = refl;
      },
    )

    later-Chosen :
        (task_type : String) (k : ℕ) (made : List (Trajectory F)) (failures : ℕ) (a : Trajectory F)
        (rest : List (Trajectory F)) (tried : Option (Tried F))
        → keep is_answered made ≡ a ∷ rest
        → Yields Chosen (
            later_phases fl policy model task_type verifier k made failures
              (a ∷ rest)
              (best_of fl a rest)
              tried)
    unfolding later_phases branch
    later-Chosen task_type k made failures a rest tried e =
        let best = best_of fl a rest in
        if_both (Yields Chosen) (agrees fl policy model task_type (a ∷ rest) best tried) _ _
          (λ x. early-Chosen a rest made failures (by_consensus fl policy model best) _ _ _ e)
          (λ x. conclude-Chosen true policy.max_k 1 _ _ _)

    decide-Chosen :
        (task_type : String) (made : List (Trajectory F)) (failures : ℕ)
        (answered : List (Trajectory F))
        → keep is_answered made ≡ answered
        → Yields Chosen (decide fl policy model task_type verifier made failures answered)
    unfolding decide no_answer_result
    decide-Chosen task_type made failures [] e =
        inl (record { unanswered = e; answer = refl; status = refl; score = refl })
    decide-Chosen task_type made failures (a ∷ rest) e =
        let best = best_of fl a rest in
        let k = initial_k fl policy model verifier in
        option_both (Yields Chosen)
          (tried_at fl policy model verifier 0 best.answer (fl.thousandths 650)) _ _
          (λ x. later-Chosen task_type k made failures a rest none e)
          (λ t eq.
            if_both (Yields Chosen) t.verified _ _
              (λ y. early-Chosen a rest made failures t _ _ _ e)
              (λ y. later-Chosen task_type k made failures a rest (some t) e))

    adaptive-Chosen :
        (task_type : String) → Yields Chosen (run_adaptive fl policy model task_type verifier)
    unfolding run_adaptive
    adaptive-Chosen task_type =
        let phase = phase_1 fl policy model verifier in
        if_both (Yields Chosen) (is_nil phase.0 && ltb 0 phase.1) raised _ (λ e. tt)
          (λ e. decide-Chosen task_type phase.0 phase.1 (keep is_answered phase.0) refl)

    static-Chosen : (k : ℕ) → Yields Chosen (run_static fl policy model k verifier)
    unfolding run_static no_answer_result
    static-Chosen k =
        let all = gather fl policy model (full_trajectory fl policy) 0 k in
        if_both (Yields Chosen) (is_nil all.0 && ltb 0 all.1) raised _ (λ e. tt)
          (λ e.
            if_both (Yields Chosen) (is_nil all.0) _ _
              (λ e. inl (record { unanswered = refl; answer = refl; status = refl; score = refl }))
              (λ e. conclude-Chosen false k 0 none all.0 all.1))

    -- A run that does not raise returns the answer and the trace of a trajectory that has an answer,
    -- and no other one that has scores better; if none has, it says so, with a score of 0 and the
    -- status of an error.
    pub run-Chosen :
        (adaptive : Bool) (k : ℕ) (task_type : String) (r : ClrResult F)
        → run fl policy model adaptive k task_type verifier ≡ done r
        → Chosen r
    unfolding run
    run-Chosen adaptive k task_type r e = subst (Yields Chosen) e (
        if_both (Yields Chosen) adaptive _ _ (λ a. adaptive-Chosen task_type)
          (λ s. static-Chosen k))
