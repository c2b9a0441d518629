-- ===== src/Orchestrator/TaskTypes.antt =====
-- `_detect_task_type` of hybrid_orchestrator.py.
use vibe_thinker.Prelude.{
  ℕ, suc, String, Bool, true, false, ◌&&◌, ◌||◌, not, List, [], ◌∷◌, Option, none, some, ltb, ◌=s◌,
  if◌then◌else◌,
}
use vibe_thinker.Json.{codes}
use vibe_thinker.Text.{Text, lowered}
use vibe_thinker.Orchestrator.Patterns.{found, any_found, contains, whole}
use vibe_thinker.Orchestrator.Keywords.{
  non_programming_code_patterns, strong_code_signals, math_intent_patterns, TaskConfig,
  task_type_keywords,
}

-- The three guards on a lowered query.
pub record Guards : Type 0 where
  pub is_non_programming_code : Bool
  pub has_math_intent : Bool

unfoldable pub guards_of : Text → Guards
guards_of q_lower = record {
  is_non_programming_code = any_found non_programming_code_patterns q_lower;
  has_math_intent =
      if any_found strong_code_signals q_lower
      then false
      else any_found math_intent_patterns q_lower;
}

-- The `continue`s of the loop.
unfoldable pub is_skipped : Guards → TaskConfig → Bool
is_skipped guards c =
    ((c.name =s "code") && guards.is_non_programming_code)
    || ((c.name =s "math") && not guards.has_math_intent)

abbrev hits : String → Text → Bool
hits kw q_lower =
    if contains (codes " ") (codes kw)
    then contains (codes kw) q_lower
    else found (whole kw) q_lower

-- The number of keywords in the query.
unfoldable pub score_of : List String → Text → ℕ
score_of [] q_lower = 0
score_of (kw ∷ kws) q_lower =
    let rest = score_of kws q_lower in if hits kw q_lower then suc rest else rest

-- `best_type` and `best_score`; the type is none for "unknown".
pub record Best : Type 0 where
  pub best_type : Option TaskConfig
  pub best_score : ℕ

unfoldable pub step : (TaskConfig → ℕ) → (TaskConfig → Bool) → Best → TaskConfig → Best
step score skipped best c =
    if skipped c
    then best
    else if ltb best.best_score (score c)
    then record { best_type = some c; best_score = score c }
    else best

unfoldable pub pick : (TaskConfig → ℕ) → (TaskConfig → Bool) → List TaskConfig → Best → Best
pick score skipped [] best = best
pick score skipped (c ∷ cs) best = pick score skipped cs (step score skipped best c)

-- `(task_type, requires_tools, requires_model)`
pub record Detected : Type 0 where
  pub task_type : String
  pub requires_tools : List String
  pub requires_model : Bool

abbrev pub conclude : Bool → Option TaskConfig → Detected
conclude intent (some c) = record {
  task_type = c.name;
  requires_tools = c.requires_tools;
  requires_model = c.requires_model;
}
conclude intent none =
    if intent
    then record {
      task_type = "math";
      requires_tools = "deterministic_check" ∷ [];
      requires_model = true;
    }
    else record { task_type = "unknown"; requires_tools = []; requires_model = true }

unfoldable pub detect_task_type : String → Detected
detect_task_type query =
    let q_lower = lowered (codes query) in
    let guards = guards_of q_lower in
    conclude guards.has_math_intent
      (pick (λ c. score_of c.keywords q_lower) (is_skipped guards) task_type_keywords
        (record { best_type = none; best_score = 0 })).best_type
