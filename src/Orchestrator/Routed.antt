-- ===== src/Orchestrator/Routed.antt =====
-- The routing decision of hybrid_orchestrator.py: route, review, verifier and limits.
use vibe_thinker.Prelude.{
  ℕ, ◌≤◌, ◌≡◌, refl, sym, subst, ◌∙◌, String, Bool, true, false, ◌||◌, ◌⊎◌, inl, inr, Option, none,
  some, ltb, ◌=s◌, if_both, arith,
}
use vibe_thinker.Json.{codes}
use vibe_thinker.Text.{lowered}
use vibe_thinker.Clr.Floats.{Floats, IsOrder}
use vibe_thinker.Orchestrator.TaskTypes.{detect_task_type}
use vibe_thinker.Orchestrator.Detection.{detect_task_type-Detects}
use vibe_thinker.Orchestrator.Routing.{
  confidence_of, hybrid_route, route_of, classify_route, Limits, default_limits, limits_for,
  suggest_compute_limits, Decision, route_structured, select_verifier,
}
use vibe_thinker.Orchestrator.Selection.{Selects, detected-Selects}

-- A timeout of 5 to 60 seconds, never less than the default of the type.
abbrev pub Bounded : String → Limits → Type 0
Bounded t l = (5 ≤ l.timeout) × ((default_limits t).timeout ≤ l.timeout) × (l.timeout ≤ 60)

default_limits-timeout :
    (t : String) → ((default_limits t).timeout ≡ 5) ⊎ ((default_limits t).timeout ≡ 10)
default_limits-timeout t = ground arith

limits_for-Bounded : (heavy_hits : ℕ) (t : String) → Bounded t (limits_for heavy_hits t)
unfolding limits_for
limits_for-Bounded n t = ground (arith, default_limits-timeout t)

module _ {F : Type 0} (fl : Floats F) (order : IsOrder fl)
    (literals : (m n : ℕ) → fl.lt (fl.thousandths m) (fl.thousandths n) ≡ ltb m n) where
  -- The confidence of a forced route is at least its floor.
  confidence_of-floor :
      (classify : Option (String → String × F)) (query : String) (floor low : ℕ)
      → ltb floor low ≡ false
      → fl.lt (confidence_of fl classify query floor) (fl.thousandths low) ≡ false
  confidence_of-floor none query floor low h = literals floor low ∙ h
  confidence_of-floor (some classify) query floor low h =
      if_both (λ c. fl.lt c (fl.thousandths low) ≡ false)
        (fl.lt (classify query).1 (fl.thousandths floor)) (fl.thousandths floor) (classify query).1
        (λ _. literals floor low ∙ h)
        (λ k.
          order.transitive (classify query).1 (fl.thousandths floor) (fl.thousandths low) k
            (literals floor low ∙ h))

  module _ (classify : Option (String → String × F)) (query : String) where
    -- The route, and whether its confidence is below 0.65.
    abbrev Takes : String → Bool → String × F → Type 0
    Takes route low routed = (routed.0 ≡ route) × (fl.lt routed.1 (fl.thousandths 650) ≡ low)

    abbrev Agrees : String → String × F → Type 0
    Agrees t routed =
        ((t ≡ "math") ⊎ (t ≡ "code") → Takes "specialist" false routed)
        × ((t ≡ "conversation") ⊎ (t ≡ "summarization") → Takes "generalist" false routed)
        × ((t ≡ "planning") ⊎ (t ≡ "retrieval") ⊎ (t ≡ "unknown")
            → classify ≡ none
            → Takes "hybrid" true routed)

    named :
        (t s route : String) (low : Bool)
        → t ≡ s
        → Takes route low (route_of fl classify query s)
        → Takes route low (route_of fl classify query t)
    named t s route low h r = subst (λ x. Takes route low (route_of fl classify query x)) (sym h) r

    without_router : classify ≡ none → Takes "hybrid" true (hybrid_route fl classify query)
    without_router h =
        subst (λ cl. Takes "hybrid" true (hybrid_route fl cl query)) (sym h)
          (refl, literals 500 650)

    route_of-Agrees : (t : String) → Agrees t (route_of fl classify query t)
    unfolding route_of
    route_of-Agrees t = (
      λ o. elim o [
        | inl h ↦
            named t "math" "specialist" false h
              (refl, confidence_of-floor classify query 800 650 refl)
        | inr h ↦
            named t "code" "specialist" false h
              (refl, confidence_of-floor classify query 800 650 refl)
      ],
      λ o. elim o [
        | inl h ↦
            named t "conversation" "generalist" false h
              (refl, confidence_of-floor classify query 750 650 refl)
        | inr h ↦
            named t "summarization" "generalist" false h
              (refl, confidence_of-floor classify query 750 650 refl)
      ],
      λ o. elim o [
        | inl h ↦ λ n. named t "planning" "hybrid" true h (without_router n)
        | inr (inl h) ↦ λ n. named t "retrieval" "hybrid" true h (without_router n)
        | inr (inr h) ↦ λ n. named t "unknown" "hybrid" true h (without_router n)
      ],
    )

    -- A confident decision for a type other than unknown needs no human.
    unreviewed :
        (low : Bool) (t s : String)
        → t ≡ s
        → low ≡ false
        → (s =s "unknown") ≡ false
        → (low || (t =s "unknown")) ≡ false
    unreviewed low t s h l k = rw (h, l) k

    reviewed : (low : Bool) (t : String) → t ≡ "unknown" → (low || (t =s "unknown")) ≡ true
    reviewed true t h = refl
    reviewed false t h = rw h refl

    doubtful : (low b : Bool) → low ≡ true → (low || b) ≡ true
    doubtful low b h = rw h refl

    -- What the parts of a decision have to do with the task's type: the route with its review by a
    -- human, the verifier and the limits.
    pub record Routed (d : Decision F) : Type 0 where
      pub verifiable :
          (d.task_type ≡ "math") ⊎ (d.task_type ≡ "code")
          → (d.route ≡ "specialist") × (d.requires_human_review ≡ false)
      pub talk :
          (d.task_type ≡ "conversation") ⊎ (d.task_type ≡ "summarization")
          → (d.route ≡ "generalist") × (d.requires_human_review ≡ false)
      pub others :
          (d.task_type ≡ "planning") ⊎ (d.task_type ≡ "retrieval") ⊎ (d.task_type ≡ "unknown")
          → classify ≡ none
          → (d.route ≡ "hybrid") × (d.requires_human_review ≡ true)
      pub unknown : d.task_type ≡ "unknown" → d.requires_human_review ≡ true
      pub verifier : (p e : Bool) → Selects d.task_type (select_verifier d.task_type p e)
      pub limits : Bounded d.task_type d.compute_limits

    -- A routing decision, the detection included: math and code go to the specialist, conversation
    -- and summarization to the generalist, none of them to a human, whatever the embedding router
    -- says; without it all else is hybrid and for a human, as an unknown type always is. The math and
    -- the code verifier are selected for their types and none for the other types, so that the
    -- factual, schema and logic ones never are; the timeout is 5 to 60 seconds and not below the
    -- default of the type.
    pub route_structured-Routed :
        (round_4 : F → F) → Routed (route_structured fl round_4 classify query)
    unfolding route_structured classify_route suggest_compute_limits
    route_structured-Routed round_4 =
        let t = (detect_task_type query).task_type in
        let routed = route_of fl classify query t in
        let low = fl.lt routed.1 (fl.thousandths 650) in
        let agrees = route_of-Agrees t in
        record {
          verifiable = λ o.
              let r = agrees.0 o in
              (
                r.0,
                elim o [
                  | inl h ↦ unreviewed low t "math" h r.1 refl
                  | inr h ↦ unreviewed low t "code" h r.1 refl
                ],
              );
          talk = λ o.
              let r = agrees.1 o in
              (
                r.0,
                elim o [
                  | inl h ↦ unreviewed low t "conversation" h r.1 refl
                  | inr h ↦ unreviewed low t "summarization" h r.1 refl
                ],
              );
          others = λ o n. let r = agrees.2 o n in (r.0, doubtful low (t =s "unknown") r.1);
          unknown = λ h. reviewed low t h;
          verifier = λ p e.
              detected-Selects p e (lowered (codes query)) (detect_task_type query)
                (detect_task_type-Detects query);
          limits = limits_for-Bounded _ t;
        }
