-- ===== src/Orchestrator/Detection.antt =====
-- What the detection of a task's type in hybrid_orchestrator.py gives.
use vibe_thinker.Prelude.{
  ℕ, ◌≤◌, ◌<◌, ◌≡◌, refl, sym, subst, ap, ◌∙◌, String, Bool, true, false, ◌⊎◌, inl, inr, List, [],
  ◌∷◌, Option, none, some, In, All, ltb, ltb→lt, arith, if_both, if◌then◌else◌,
}
use vibe_thinker.Json.{codes}
use vibe_thinker.Text.{Text, lowered}
use vibe_thinker.Orchestrator.Keywords.{TaskConfig, task_type_keywords}
use vibe_thinker.Orchestrator.TaskTypes.{
  guards_of, is_skipped, score_of, Best, step, pick, Detected, conclude, detect_task_type,
}

module _ (score : TaskConfig → ℕ) (skipped : TaskConfig → Bool) where
  -- No eligible entry scores more than `n`.
  abbrev AtMost : ℕ → List TaskConfig → Type 0
  AtMost n cs = All (λ c. skipped c ≡ false → score c ≤ n) cs

  -- An eligible entry that scores `n`.
  abbrev Scores : ℕ → List TaskConfig → TaskConfig → Type 0
  Scores n cs c = In c cs × (skipped c ≡ false) × (score c ≡ n)

  -- The outcome of the loop from `best` on.
  abbrev Picked : List TaskConfig → Best → Best → Type 0
  Picked cs best r =
      (best.best_score ≤ r.best_score)
      × AtMost r.best_score cs
      × ((r ≡ best)
          ⊎ ((c : TaskConfig) × (r.best_type ≡ some c)
              × (best.best_score < r.best_score)
              × Scores r.best_score cs c))

  abbrev Stepped : TaskConfig → Best → Best → Type 0
  Stepped c best r =
      (best.best_score ≤ r.best_score)
      × (skipped c ≡ false → score c ≤ r.best_score)
      × ((r ≡ best)
          ⊎ ((r.best_type ≡ some c)
              × (best.best_score < r.best_score)
              × (skipped c ≡ false)
              × (score c ≡ r.best_score)))

  step-Stepped : (c : TaskConfig) (best : Best) → Stepped c best (step score skipped best c)
  unfolding step
  step-Stepped c best =
      if_both (Stepped c best) (skipped c) best
        (if ltb best.best_score (score c)
          then record { best_type = some c; best_score = score c }
          else best)
        (λ h. (omega arith, λ k. absurd (cc (h, k)), inl refl))
        (λ h.
          if_both (Stepped c best) (ltb best.best_score (score c))
            (record { best_type = some c; best_score = score c }) best
            (λ l.
              let less = ltb→lt best.best_score (score c) l in
              (omega (arith, less), λ _. omega arith, inr (refl, less, h, refl)))
            (λ l. (omega arith, λ _. ground (arith, l), inl refl)))

  -- The step's entry is the last one picked, or a later one is.
  last_row :
      (c : TaskConfig) (cs : List TaskConfig) (best m r : Best)
      → Stepped c best m
      → Picked cs m r
      → (r ≡ best)
        ⊎ ((x : TaskConfig) × (r.best_type ≡ some x)
            × (best.best_score < r.best_score)
            × Scores r.best_score (c ∷ cs) x)
  last_row c cs best m r (le, at, s) (le', at', inr (d, t, less, (i, el, sc))) =
      inr (d, t, omega (arith, le, less), (inr i, el, sc))
  last_row c cs best m r (le, at, inl same) (le', at', inl same') = inl (same' ∙ same)
  last_row c cs best m r (le, at, inr (t, less, el, sc)) (le', at', inl same) =
      let scores = ap (λ (b : Best). b.best_score) same in
      inr (
        c,
        ap (λ (b : Best). b.best_type) same ∙ t,
        omega (arith, less, scores),
        (inl refl, el, omega (arith, sc, scores)),
      )

  pick-Picked : (cs : List TaskConfig) (best : Best) → Picked cs best (pick score skipped cs best)
  unfolding pick
  pick-Picked [] best = (omega arith, tt, inl refl)
  pick-Picked (c ∷ cs) best =
      let m = step score skipped best c in
      let stepped = step-Stepped c best in
      let picked = pick-Picked cs m in
      (
        omega (arith, stepped.0, picked.0),
        (λ h. omega (arith, stepped.1 h, picked.0), picked.1),
        last_row c cs best m (pick score skipped cs m) stepped picked,
      )

-- What the detection may give for a lowered query: a row of the table that is not skipped, has at
-- least one keyword in the query and no fewer than any other such row; without a keyword of such a
-- row, math if the query has the intent, else unknown.
pub data Detects (q_lower : Text) : Detected → Type 0 where
  keywords :
      (c : TaskConfig) (n : ℕ)
      → Scores
          (λ d. score_of d.keywords q_lower)
          (is_skipped (guards_of q_lower))
          n
          task_type_keywords
          c
      → 0 < n
      → AtMost
          (λ d. score_of d.keywords q_lower)
          (is_skipped (guards_of q_lower))
          n
          task_type_keywords
      → Detects q_lower (conclude false (some c))
  intent :
      AtMost
        (λ d. score_of d.keywords q_lower)
        (is_skipped (guards_of q_lower))
        0
        task_type_keywords
      → (guards_of q_lower).has_math_intent ≡ true
      → Detects q_lower (conclude true none)
  nothing :
      AtMost
        (λ d. score_of d.keywords q_lower)
        (is_skipped (guards_of q_lower))
        0
        task_type_keywords
      → (guards_of q_lower).has_math_intent ≡ false
      → Detects q_lower (conclude false none)

detects :
    (q : Text) (o : Option TaskConfig) (n : ℕ)
    → Picked
        (λ d. score_of d.keywords q)
        (is_skipped (guards_of q))
        task_type_keywords
        (record { best_type = none; best_score = 0 })
        (record { best_type = o; best_score = n })
    → Detects q (conclude (guards_of q).has_math_intent o)
detects q (some c) n (le, at, inl same) = absurd (cc (ap (λ (b : Best). b.best_type) same))
detects q (some c) n (le, at, inr (d, t, less, scores)) =
    subst (λ x. Detects q (conclude false x)) (sym t) (keywords d n scores less at)
detects q none n (le, at, inr (d, t, less, scores)) = absurd (cc t)
detects q none n (le, at, inl same) =
    let least =
      subst
        (λ m. AtMost (λ d. score_of d.keywords q) (is_skipped (guards_of q)) m task_type_keywords)
        (ap (λ (b : Best). b.best_score) same) at in
    if_both (Detects q) (guards_of q).has_math_intent (conclude true none) (conclude false none)
      (λ h. intent least h) (λ h. nothing least h)

-- The detection gives a row of the table that no guard skips, has a keyword in the query and at least
-- as many as every other such row; if no such row has one, math for a query with the intent of
-- computing and no strong sign of code, and unknown otherwise.
pub detect_task_type-Detects :
    (query : String) → Detects (lowered (codes query)) (detect_task_type query)
unfolding detect_task_type
detect_task_type-Detects query =
    let q = lowered (codes query) in
    let best =
      pick (λ d. score_of d.keywords q) (is_skipped (guards_of q)) task_type_keywords
        (record { best_type = none; best_score = 0 }) in
    detects q best.best_type best.best_score (
      pick-Picked (λ d. score_of d.keywords q) (is_skipped (guards_of q)) task_type_keywords
        (record { best_type = none; best_score = 0 }))
