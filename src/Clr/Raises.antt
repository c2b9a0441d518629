-- ===== src/Clr/Raises.antt =====
-- When a run of vibe_clr_async.py raises, and that it returns otherwise.
use vibe_thinker.Prelude.{
  ℕ, zero, suc, ◌+◌, ◌-◌, ◌++◌, ◌≤◌, ◌≡◌, ◌↔◌, refl, subst, String, Bool, true, false, ◌&&◌, List,
  [], ◌∷◌, Option, none, some, arith, ltb, if◌then◌else◌, if_both, option_both, Option-cases,
  Bool-cases, All, All-append, not, ◌⊎◌, inl, inr, length, keep, is_nil,
}
use vibe_thinker.Json.{truthy}
use vibe_thinker.Clr.Floats.{Floats}
use vibe_thinker.Clr.Confidence.{Policy}
use vibe_thinker.Clr.Trajectory.{
  Parts, Trajectory, is_answered, full_trajectory, lightweight_trajectory, any_other, is_text,
  scoring_raises, best_of,
}
use vibe_thinker.Clr.Run.{Verifier, Model, Outcome, raised, done, Tried, gather}
use vibe_thinker.Clr.Modes.{
  tried_at, conclude, agrees, branch, later_phases, initial_k, phase_1, decide, run_adaptive,
  run_static, run,
}
use vibe_thinker.Clr.Budget.{gather-length}

is_nil-eq : {A : Type 0} (xs : List A) → is_nil xs ≡ true → xs ≡ []
is_nil-eq [] h = refl
is_nil-eq (x ∷ xs) h = absurd (cc h)

module _ {F : Type 0} (fl : Floats F) (policy : Policy F) (model : Model F)
    (verifier : Option (Verifier F)) where
  -- Every attempt of the range fails.
  abbrev pub AllFail : ℕ → ℕ → Type 0
  AllFail i zero = Unit
  AllFail i (suc n) = (model.attempt i ≡ none) × AllFail (suc i) n

  gather-AllFail :
      (make : Parts → Trajectory F) (i n : ℕ)
      → ((gather fl policy model make i n).0 ≡ []) ↔ AllFail i n
  gather-AllFail make i zero = (λ h. tt, λ h. refl)
  gather-AllFail make i (suc n) = elim (Option-cases (model.attempt i)) [
    | inl fails ↦
        let (to, from) = gather-AllFail make (suc i) n in
        (λ h. (fails, to (rw (gather, fails) at h)), λ h. rw (gather, fails) (from h.1))
    | inr (parts, works) ↦
        (λ h. absurd (cc (rw (gather, works) at h)), λ h. absurd (cc (rw works at h.0)))
  ]

  all_failed :
      (make : Parts → Trajectory F) (k : ℕ)
      → let g = gather fl policy model make 0 k in
        ((is_nil g.0 && ltb 0 g.1) ≡ true) ↔ ((1 ≤ k) × AllFail 0 k)
  all_failed make k =
      let g = gather fl policy model make 0 k in
      let (to, from) = gather-AllFail make 0 k in
      let size : length g.0 + g.1 ≡ k = gather-length fl policy model make 0 k in
      (
        λ h.
            let empty : g.0 ≡ [] = is_nil-eq g.0 (ground (arith, h)) in
            (ground (arith, h, size), to empty),
        λ h. let empty : g.0 ≡ [] = from h.1 in ground (arith, empty, size, h.0),
      )

  phase_1-fails :
      (o : Option (Verifier F))
      → let g = phase_1 fl policy model o in
        ((is_nil g.0 && ltb 0 g.1) ≡ true)
        ↔ ((1 ≤ initial_k fl policy model o) × AllFail 0 (initial_k fl policy model o))
  phase_1-fails none = all_failed _ policy.initial_k_without_verifier
  phase_1-fails (some v) = all_failed _ policy.initial_k_with_verifier

  -- The size of the first batch.
  abbrev pub batch : Bool → ℕ → ℕ
  batch adaptive k = if adaptive then initial_k fl policy model verifier else k

  -- An attempt gives a final answer that is true and no text.
  pub record Unscorable : Type 0 where
    pub place : ℕ
    pub parts : Parts
    pub attempted : model.attempt place ≡ some parts
    pub answered : truthy parts.final_answer ≡ true
    pub other : is_text parts.final_answer ≡ false

  -- The trajectory has the answer of an attempt.
  abbrev IsMade : Trajectory F → Type 0
  IsMade t =
      (i : ℕ) × (parts : Parts) × (model.attempt i ≡ some parts) × (t.answer ≡ parts.final_answer)

  gather-IsMade :
      (make : Parts → Trajectory F) (i n : ℕ)
      → ((parts : Parts) → (make parts).answer ≡ parts.final_answer)
      → All IsMade (gather fl policy model make i n).0
  gather-IsMade make i zero same = tt
  gather-IsMade make i (suc n) same = elim (Option-cases (model.attempt i)) [
    | inl fails ↦ rw (gather, fails) (gather-IsMade make (suc i) n same)
    | inr (parts, works) ↦
        rw (gather, works) ((i, parts, works, same parts), gather-IsMade make (suc i) n same)
  ]

  full-IsMade : (i n : ℕ) → All IsMade (gather fl policy model (full_trajectory fl policy) i n).0
  unfolding full_trajectory
  full-IsMade i n = gather-IsMade (full_trajectory fl policy) i n (λ parts. refl)

  any_other-Unscorable :
      (ts : List (Trajectory F)) → All IsMade ts → any_other fl ts ≡ true → Unscorable
  unfolding is_answered
  any_other-Unscorable [] made h = absurd (cc h)
  any_other-Unscorable (t ∷ ts) made h =
      elim (Bool-cases (is_answered t && not (is_text t.answer))) [
        | inr fine ↦ any_other-Unscorable ts made.1 (rw fine at h)
        | inl found ↦
            let (i, parts, attempted, same) = made.0 in
            record {
              place = i;
              parts = parts;
              attempted = attempted;
              answered = subst (λ a. truthy a ≡ true) same (ground (arith, found));
              other = subst (λ a. is_text a ≡ false) same (ground (arith, found));
            }
      ]

  -- If that is how the run ends, there is such an answer.
  abbrev Explained : Outcome F → Type 0
  Explained o = o ≡ raised → Unscorable

  conclude-Explained :
      (adaptive : Bool) (k i : ℕ) (reason : Option String) (made : List (Trajectory F))
      (failures : ℕ)
      → All IsMade made
      → Explained (conclude fl policy model adaptive k verifier i reason made failures)
  unfolding conclude scoring_raises
  conclude-Explained adaptive k i reason made failures all =
      if_both Explained (scoring_raises fl made) raised (done _)
        (λ e h. any_other-Unscorable made all (ground (arith, e))) (λ e h. absurd (cc h))

  later-Explained :
      (task_type : String) (k : ℕ) (made : List (Trajectory F)) (failures : ℕ)
      (answered : List (Trajectory F)) (best : Trajectory F) (tried : Option (Tried F))
      → All IsMade made
      → Explained
          (later_phases fl policy model task_type verifier k made failures answered best tried)
  unfolding later_phases branch
  later-Explained task_type k made failures answered best tried all =
      let n = policy.max_k - length made in
      let more = gather fl policy model (full_trajectory fl policy) k n in
      if_both Explained (agrees fl policy model task_type answered best tried) _ _
        (λ e h. absurd (cc h))
        (λ e.
          conclude-Explained true policy.max_k 1 _ (made ++ more.0) (failures + more.1)
            (All-append IsMade made more.0 all (full-IsMade k n)))

  decide-Explained :
      (task_type : String) (made : List (Trajectory F)) (failures : ℕ)
      (answered : List (Trajectory F))
      → All IsMade made
      → Explained (decide fl policy model task_type verifier made failures answered)
  unfolding decide
  decide-Explained task_type made failures [] all = λ h. absurd (cc h)
  decide-Explained task_type made failures (a ∷ rest) all =
      let best = best_of fl a rest in
      let k = initial_k fl policy model verifier in
      option_both Explained (tried_at fl policy model verifier 0 best.answer (fl.thousandths 650)) _
        _ (λ e. later-Explained task_type k made failures (a ∷ rest) best none all)
        (λ t e.
          if_both Explained t.verified _ _ (λ y h. absurd (cc h))
            (λ y. later-Explained task_type k made failures (a ∷ rest) best (some t) all))

  phase_1-IsMade : (o : Option (Verifier F)) → All IsMade (phase_1 fl policy model o).0
  unfolding lightweight_trajectory
  phase_1-IsMade none = full-IsMade 0 policy.initial_k_without_verifier
  phase_1-IsMade (some v) =
      gather-IsMade (lightweight_trajectory fl) 0 policy.initial_k_with_verifier (λ parts. refl)

  -- A test that raises, before an outcome that is explained.
  raises_or :
      (test : Bool) (o : Outcome F) (Q : Type 0)
      → (test ≡ true) ↔ Q
      → Explained o
      → (Q → (if test then raised else o) ≡ raised)
        × ((if test then raised else o) ≡ raised → Q ⊎ Unscorable)
  raises_or true o Q (to, from) h = (λ q. refl, λ e. inl (to refl))
  raises_or false o Q (to, from) h = (λ q. absurd (cc (from q)), λ e. inr (h e))

  -- With a policy that wants at least one claim, a run raises if its first batch is not empty and
  -- every trajectory of it fails. Otherwise it returns a result, unless some attempt gives a final
  -- answer that Python takes for true and that is no text.
  pub run-raises :
      1 ≤ policy.min_claims
      → (adaptive : Bool) (k : ℕ) (task_type : String)
      → ((1 ≤ batch adaptive k) × AllFail 0 (batch adaptive k)
          → run fl policy model adaptive k task_type verifier ≡ raised)
        × (run fl policy model adaptive k task_type verifier ≡ raised
            → ((1 ≤ batch adaptive k) × AllFail 0 (batch adaptive k)) ⊎ Unscorable)
  unfolding run run_adaptive run_static
  run-raises claims true k task_type =
      let phase = phase_1 fl policy model verifier in
      raises_or _ _ _ (phase_1-fails verifier) (
        decide-Explained task_type phase.0 phase.1 (keep is_answered phase.0)
          (phase_1-IsMade verifier))
  run-raises claims false k task_type =
      let g = gather fl policy model (full_trajectory fl policy) 0 k in
      raises_or _ _ _ (all_failed (full_trajectory fl policy) k) (
        if_both Explained (is_nil g.0) (done _) _ (λ e h. absurd (cc h))
          (λ e. conclude-Explained false k 0 none g.0 g.1 (full-IsMade 0 k)))
