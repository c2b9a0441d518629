-- ===== src/Clr/Honest.antt =====
-- When a result of vibe_clr_async.py is verified, and how high it scores when it is not.
use vibe_thinker.Prelude.{
  ℕ, ◌≡◌, refl, sym, ap, subst, ◌∙◌, String, Bool, true, false, ◌&&◌, List, [], ◌∷◌, Option, none,
  some, arith, ltb, if◌then◌else◌, if_both, option_both, list_both, Bool-cases, Option-cases, inl,
  inr, keep, is_nil,
}
use vibe_thinker.Json.{Json}
use vibe_thinker.Clr.Floats.{Floats, le, lesser, IsOrder}
use vibe_thinker.Clr.Confidence.{Policy, compute_confidence, blend}
use vibe_thinker.Clr.Trajectory.{
  Trajectory, is_answered, full_trajectory, scoring_raises, score_trajectories, best_of,
}
use vibe_thinker.Clr.Run.{
  Verdict, Verifier, Model, ClrResult, Outcome, raised, done, Tried, gather, try_verifier,
  no_answer_result, or_score, early_result,
}
use vibe_thinker.Clr.Modes.{
  tried_at, settle, late_result, conclude, by_consensus, agrees, branch, later_phases, phase_1,
  decide, run_adaptive, run_static, run,
}

module _ {F : Type 0} (fl : Floats F) (policy : Policy F) (model : Model F) where
  not_verified :
      (v : Verifier F) (i : ℕ) (answer : Json) (s : F) (verdict : Verdict F) (t : Tried F)
      → v.verify i answer ≡ some verdict
      → verdict.verified ≡ false
      → try_verifier fl policy model v i answer s ≡ some t
      → t.verified ≡ false
  unfolding try_verifier
  not_verified v i answer s verdict t says refused eq = ground (arith, says, refused, eq)

  try_verified :
      (v : Verifier F) (i : ℕ) (answer : Json) (s : F) (verdict : Verdict F)
      → v.verify i answer ≡ some verdict
      → verdict.verified ≡ true
      → try_verifier fl policy model v i answer s
        ≡ some (record {
          method = v.name;
          det = some verdict.score;
          verified = true;
          final = some (
              if le fl verdict.score (fl.thousandths 0)
              then fl.thousandths 0
              else blend fl verdict.score s);
        })
  unfolding try_verifier compute_confidence
  try_verified v i answer s verdict says h = rw (try_verifier, says, h) refl

-- The predicate holds of the result, if the run does not raise.
abbrev pub Yields : {F : Type 0} → (ClrResult F → Type 0) → Outcome F → Type 0
Yields P raised = Unit
Yields P (done r) = P r

module _ {F : Type 0} (fl : Floats F) (policy : Policy F) (model : Model F)
    (verifier : Option (Verifier F)) where
  -- Some call of the verifier confirmed the answer; method, verifier's score and final score are
  -- its own.
  pub record Confirmed (answer : Json) (name : String) (given_det : Option F) (given_score : F)
      : Type 0 where
    pub by : Verifier F
    pub given : verifier ≡ some by
    pub method : name ≡ by.name
    pub call : ℕ
    pub verdict : Verdict F
    pub says : by.verify call answer ≡ some verdict
    pub verified : verdict.verified ≡ true
    pub det : given_det ≡ some verdict.score
    pub consistency : F
    pub score : given_score ≡ (
        if le fl verdict.score (fl.thousandths 0)
        then fl.thousandths 0
        else blend fl verdict.score consistency)

  -- A verified result was confirmed by the verifier; one that is not scores at most the cap.
  pub record Honest (r : ClrResult F) : Type 0 where
    pub confirmed :
        r.verified ≡ true
        → Confirmed r.best_answer r.verification_method r.deterministic_verification r.best_score
    pub capped : r.verified ≡ false → fl.lt policy.self_claim_cap r.best_score ≡ false

  tried-Confirmed :
      (i : ℕ) (answer : Json) (s other : F) (t : Tried F)
      → tried_at fl policy model verifier i answer s ≡ some t
      → t.verified ≡ true
      → Confirmed answer t.method t.det (or_score fl policy model t.final other)
  unfolding try_verifier compute_confidence
  tried-Confirmed i answer s other t eq h = elim (Option-cases verifier) [
    | inl absent ↦ absurd (cc (rw absent at eq))
    | inr (v, given) ↦ elim (Option-cases (v.verify i answer)) [
      | inl raises ↦ absurd (cc (rw (given, try_verifier, raises) at eq))
      | inr (verdict, says) ↦ elim (Bool-cases verdict.verified) [
        | inr refused ↦
            let weak = not_verified fl policy model v i answer s verdict t says refused in
            absurd (cc (weak (rw given at eq)))
        | inl yes_verified ↦
            let made : Tried F = record {
              method = v.name;
              det = some verdict.score;
              verified = true;
              final = some (
                  if le fl verdict.score (fl.thousandths 0)
                  then fl.thousandths 0
                  else blend fl verdict.score s);
            } in
            let same : some made ≡ some t =
              sym (try_verified fl policy model v i answer s verdict says yes_verified)
              ∙ (rw given at eq) in
            subst
              (λ (u : Tried F).
                Confirmed answer u.method u.det (or_score fl policy model u.final other))
              (ap (λ o. elim o [ none ↦ made | some u ↦ u ]) same)
              (record {
                by = v;
                given = given;
                method = refl;
                call = i;
                verdict = verdict;
                says = says;
                verified = yes_verified;
                det = refl;
                consistency = s;
                score = refl;
              })
      ]
    ]
  ]

  module _ (order : IsOrder fl)
      (sane : fl.lt policy.self_claim_cap (fl.thousandths 0) ≡ false) where
    lesser_le : (s : F) → fl.lt policy.self_claim_cap (lesser fl s policy.self_claim_cap) ≡ false
    lesser_le s =
        if_both (λ x. fl.lt policy.self_claim_cap x ≡ false) (fl.lt policy.self_claim_cap s) _ _
          (λ e. order.irreflexive policy.self_claim_cap) (λ e. e)

    no_answer-Honest :
        (ts : List (Trajectory F)) (failures k : ℕ) (adaptive : Bool) (br fr : Option String)
        → Honest (no_answer_result fl policy model ts failures k adaptive br fr)
    unfolding no_answer_result
    no_answer-Honest ts failures k adaptive br fr = record {
      confirmed = λ h. absurd (cc h);
      capped = λ h. sane;
    }

    early-Honest :
        (best : Trajectory F) (ts : List (Trajectory F)) (failures max_k : ℕ) (t : Tried F)
        (reason status : String) (agreement : Option Bool)
        → (t.verified ≡ true
            → Confirmed best.answer t.method t.det (or_score fl policy model t.final best.score))
        → Honest (early_result fl policy model best ts failures max_k t reason agreement status)
    unfolding early_result
    early-Honest best ts failures max_k t reason status agreement c = record {
      confirmed = λ h. rw h (c h);
      capped = λ h. rw h (lesser_le (or_score fl policy model t.final best.score));
    }

    settled-Honest :
        (adaptive : Bool) (k : ℕ) (ts : List (Trajectory F)) (failures : ℕ) (reason : Option String)
        (agreement : Option Bool) (best : Trajectory F) (tried : Option (Tried F))
        → ((t : Tried F)
            → tried ≡ some t
            → t.verified ≡ true
            → Confirmed best.answer t.method t.det (or_score fl policy model t.final best.score))
        → Honest (
            late_result fl policy model adaptive k ts failures reason agreement best
              (settle fl policy model best.score tried))
    unfolding late_result settle
    settled-Honest adaptive k ts failures reason agreement best none c = record {
      confirmed = λ h. absurd (cc h);
      capped = λ h. lesser_le best.score;
    }
    settled-Honest adaptive k ts failures reason agreement best (some t) c = record {
      confirmed = λ h. rw h (c t refl h);
      capped = λ h. rw h (lesser_le _);
    }

    conclude-Honest :
        (adaptive : Bool) (k i : ℕ) (reason : Option String) (made : List (Trajectory F))
        (failures : ℕ)
        → Yields Honest (conclude fl policy model adaptive k verifier i reason made failures)
    unfolding conclude
    conclude-Honest adaptive k i reason made failures =
        let ts = score_trajectories fl policy model.numeric made in
        if_both (Yields Honest) (scoring_raises fl made) raised _ (λ e. tt)
          (λ e.
            list_both Honest (keep is_answered ts) _ _
              (λ e. no_answer-Honest ts failures k adaptive reason none)
              (λ a rest e.
                let best = best_of fl a rest in
                settled-Honest adaptive k ts failures reason _ best
                  (tried_at fl policy model verifier i best.answer best.score)
                  (λ t eq h. tried-Confirmed i best.answer best.score best.score t eq h)))

    branch-Honest :
        (task_type : String) (k : ℕ) (made : List (Trajectory F)) (failures : ℕ)
        (answered : List (Trajectory F)) (tried : Option (Tried F))
        → Yields Honest (branch fl policy model task_type verifier k made failures answered tried)
    unfolding branch
    branch-Honest task_type k made failures answered tried =
        conclude-Honest true policy.max_k 1 _ _ _

    later-Honest :
        (task_type : String) (k : ℕ) (made : List (Trajectory F)) (failures : ℕ)
        (answered : List (Trajectory F)) (best : Trajectory F) (tried : Option (Tried F))
        → Yields Honest
            (later_phases fl policy model task_type verifier k made failures answered best tried)
    unfolding later_phases
    later-Honest task_type k made failures answered best tried =
        if_both (Yields Honest) (agrees fl policy model task_type answered best tried) _ _
          (λ e.
            early-Honest best made failures policy.max_k (by_consensus fl policy model best)
              "self_consensus_cap_reached" "self_only" (some true) (λ h. absurd (cc h)))
          (λ e. branch-Honest task_type k made failures answered tried)

    decide-Honest :
        (task_type : String) (made : List (Trajectory F)) (failures : ℕ)
        (answered : List (Trajectory F))
        → Yields Honest (decide fl policy model task_type verifier made failures answered)
    unfolding decide
    decide-Honest task_type made failures [] =
        no_answer-Honest made failures policy.max_k true none none
    decide-Honest task_type made failures (a ∷ rest) =
        let best = best_of fl a rest in
        let s = fl.thousandths 650 in
        option_both (Yields Honest) (tried_at fl policy model verifier 0 best.answer s) _ _
          (λ e. later-Honest task_type _ made failures (a ∷ rest) best none)
          (λ t eq.
            if_both (Yields Honest) t.verified _ _
              (λ h.
                early-Honest best made failures policy.max_k t "deterministic_verifier_passed"
                  "verified" none (λ yes. tried-Confirmed 0 best.answer s best.score t eq h))
              (λ h. later-Honest task_type _ made failures (a ∷ rest) best (some t)))

    adaptive-Honest :
        (task_type : String) → Yields Honest (run_adaptive fl policy model task_type verifier)
    unfolding run_adaptive
    adaptive-Honest task_type =
        let phase = phase_1 fl policy model verifier in
        if_both (Yields Honest) (is_nil phase.0 && ltb 0 phase.1) raised _ (λ e. tt)
          (λ e. decide-Honest task_type phase.0 phase.1 (keep is_answered phase.0))

    static-Honest : (k : ℕ) → Yields Honest (run_static fl policy model k verifier)
    unfolding run_static
    static-Honest k =
        let all = gather fl policy model (full_trajectory fl policy) 0 k in
        if_both (Yields Honest) (is_nil all.0 && ltb 0 all.1) raised _ (λ e. tt)
          (λ e.
            if_both (Yields Honest) (is_nil all.0) _ _ (λ e. no_answer-Honest [] 0 k false none _)
              (λ e. conclude-Honest false k 0 none all.0 all.1))

    -- Whatever the model and the verifier answer: a result that is verified was confirmed by the
    -- verifier, for that very answer, and carries its name and score; any other result scores at most
    -- the cap of the model's own claims.
    pub run-Honest :
        (adaptive : Bool) (k : ℕ) (task_type : String) (r : ClrResult F)
        → run fl policy model adaptive k task_type verifier ≡ done r
        → Honest r
    unfolding run
    run-Honest adaptive k task_type r e = subst (Yields Honest) e (
        if_both (Yields Honest) adaptive _ _ (λ a. adaptive-Honest task_type)
          (λ s. static-Honest k))
