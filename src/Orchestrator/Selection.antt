-- ===== src/Orchestrator/Selection.antt =====
-- The verifier that hybrid_orchestrator.py selects for a detected type.
use vibe_thinker.Prelude.{
  ℕ, ◌≡◌, refl, sym, subst, ap, String, Bool, ◌⊎◌, inl, inr, Option, none, some, List, In,
}
use vibe_thinker.Orchestrator.Keywords.{TaskConfig, task_type_keywords}
use vibe_thinker.Orchestrator.TaskTypes.{Detected}
use vibe_thinker.Orchestrator.Detection.{Detects, keywords, intent, nothing}
use vibe_thinker.Orchestrator.Routing.{VerifierKind, math_verifier, code_verifier, select_verifier}

-- The verifier for a detected type; no other one is ever selected.
pub data Selects : String → Option VerifierKind → Type 0 where
  for_math : Selects "math" (some math_verifier)
  for_code : Selects "code" (some code_verifier)
  for_other :
      (t : String)
      → ((t ≡ "planning")
          ⊎ (t ≡ "retrieval")
          ⊎ (t ≡ "summarization")
          ⊎ (t ≡ "conversation")
          ⊎ (t ≡ "unknown"))
      → Selects t none

select_named :
    (p e : Bool) (t s : String)
    → t ≡ s
    → Selects s (select_verifier s p e)
    → Selects t (select_verifier t p e)
select_named p e t s h r = subst (λ x. Selects x (select_verifier x p e)) (sym h) r

row-Selects :
    (p e : Bool) (c : TaskConfig)
    → In c task_type_keywords
    → Selects c.name (select_verifier c.name p e)
unfolding select_verifier
row-Selects p e c (inl h) =
    select_named p e c.name "math" (ap (λ (x : TaskConfig). x.name) h) for_math
row-Selects p e c (inr (inl h)) =
    select_named p e c.name "code" (ap (λ (x : TaskConfig). x.name) h) for_code
row-Selects p e c (inr (inr (inl h))) =
    select_named p e c.name "planning" (ap (λ (x : TaskConfig). x.name) h)
      (for_other "planning" (inl refl))
row-Selects p e c (inr (inr (inr (inl h)))) =
    select_named p e c.name "retrieval" (ap (λ (x : TaskConfig). x.name) h)
      (for_other "retrieval" (inr (inl refl)))
row-Selects p e c (inr (inr (inr (inr (inl h))))) =
    select_named p e c.name "summarization" (ap (λ (x : TaskConfig). x.name) h)
      (for_other "summarization" (inr (inr (inl refl))))
row-Selects p e c (inr (inr (inr (inr (inr (inl h)))))) =
    select_named p e c.name "conversation" (ap (λ (x : TaskConfig). x.name) h)
      (for_other "conversation" (inr (inr (inr (inl refl)))))
row-Selects p e c (inr (inr (inr (inr (inr (inr x)))))) = elim x [ ]

pub detected-Selects :
    (p e : Bool) (q : List ℕ) (d : Detected)
    → Detects q d
    → Selects d.task_type (select_verifier d.task_type p e)
unfolding select_verifier
detected-Selects p e q d (keywords c n scores less at) = row-Selects p e c scores.0
detected-Selects p e q d (intent least h) = for_math
detected-Selects p e q d (nothing least h) = for_other "unknown" (inr (inr (inr (inr refl))))
