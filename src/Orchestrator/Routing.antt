-- ===== src/Orchestrator/Routing.antt =====
-- Routing in hybrid_orchestrator.py: the route of a query, the limits of the sandbox and the
-- verifier. The embedding router's answer and the encoder judge are parameters; times are seconds.
use vibe_thinker.Prelude.{
  ℕ, suc, ◌+◌, ◌*◌, String, Bool, ◌||◌, List, [], ◌∷◌, Option, none, some, ltb, leb, ◌==◌, ◌=s◌,
  if◌then◌else◌,
}
use vibe_thinker.Json.{codes}
use vibe_thinker.Text.{Text, lowered}
use vibe_thinker.Clr.Floats.{Floats}
use vibe_thinker.Orchestrator.Patterns.{contains}
use vibe_thinker.Orchestrator.TaskTypes.{detect_task_type}

-- `max(a, b)`: the first one unless the second is greater.
abbrev greater : {F : Type 0} → Floats F → F → F → F
greater fl a b = if fl.lt a b then b else a

module _ {F : Type 0} where
  -- `classify` is the embedding router's `classify` if `use_embedding_router` is set.
  abbrev pub confidence_of : Floats F → Option (String → String × F) → String → ℕ → F
  confidence_of fl none query floor = fl.thousandths floor
  confidence_of fl (some classify) query floor =
      greater fl (classify query).1 (fl.thousandths floor)

  abbrev pub hybrid_route : Floats F → Option (String → String × F) → String → String × F
  hybrid_route fl none query = ("hybrid", fl.thousandths 500)
  hybrid_route fl (some classify) query = classify query

  unfoldable pub route_of : Floats F → Option (String → String × F) → String → String → String × F
  route_of fl classify query task_type =
      if (task_type =s "math") || (task_type =s "code")
      then ("specialist", confidence_of fl classify query 800)
      else if (task_type =s "conversation") || (task_type =s "summarization")
      then ("generalist", confidence_of fl classify query 750)
      else hybrid_route fl classify query

  unfoldable pub classify_route : Floats F → Option (String → String × F) → String → String × F
  classify_route fl classify query = route_of fl classify query (detect_task_type query).task_type

abbrev pub heavy_compute_keywords : List String
heavy_compute_keywords =
    "dataframe" ∷ "pandas" ∷ "numpy" ∷ "tensor" ∷ "torch" ∷ "tensorflow" ∷ "ml" ∷ "machine learning"
    ∷ "model" ∷ "train" ∷ "inference" ∷ "matrix" ∷ "large" ∷ "dataset" ∷ "csv" ∷ "json file"
    ∷ "parse" ∷ "sort" ∷ "merge" ∷ "graph" ∷ "tree" ∷ "recursive" ∷ "backtracking"
    ∷ "dynamic programming" ∷ "dp" ∷ "simulation" ∷ "monte carlo" ∷ "scrape" ∷ "crawl" ∷ "download"
    ∷ "process" ∷ "transform" ∷ "encrypt" ∷ "decrypt" ∷ "hash" ∷ "compress" ∷ "image" ∷ "audio" ∷ []

pub record DefaultLimits : Type 0 where
  pub memory : String
  pub timeout : ℕ

pub record Limits : Type 0 where
  pub memory : String
  pub timeout : ℕ
  pub heavy_compute_keywords : ℕ

-- `_DEFAULT_COMPUTE_LIMITS.get(task_type, ...["unknown"])`
abbrev pub default_limits : String → DefaultLimits
default_limits task_type =
    if task_type =s "code"
    then record { memory = "128m"; timeout = 10 }
    else if task_type =s "logic"
    then record { memory = "128m"; timeout = 10 }
    else record { memory = "64m"; timeout = 5 }

abbrev pub count_in : List String → Text → ℕ
count_in [] q_lower = 0
count_in (kw ∷ kws) q_lower =
    let rest = count_in kws q_lower in if contains (codes kw) q_lower then suc rest else rest

abbrev memory_for : ℕ → String → String
memory_for heavy_hits task_type =
    if leb 3 heavy_hits
    then "512m"
    else if leb 2 heavy_hits
    then "256m"
    else if task_type =s "code"
    then "256m"
    else "128m"

unfoldable pub limits_for : ℕ → String → Limits
limits_for heavy_hits task_type =
    let base = default_limits task_type in
    let timeout = base.timeout + heavy_hits * 10 in
    record {
      memory = if heavy_hits == 0 then base.memory else memory_for heavy_hits task_type;
      timeout = if heavy_hits == 0 then base.timeout else if ltb 60 timeout then 60 else timeout;
      heavy_compute_keywords = heavy_hits;
    }

unfoldable pub suggest_compute_limits : String → String → Limits
suggest_compute_limits query task_type =
    limits_for (count_in heavy_compute_keywords (lowered (codes query))) task_type

-- `confidence` is what `round(confidence, 4)` gives.
pub record Decision (F : Type 0) : Type 0 where
  pub route : String
  pub confidence : F
  pub task_type : String
  pub requires_tools : List String
  pub requires_model : Bool
  pub requires_human_review : Bool
  pub compute_limits : Limits

unfoldable pub route_structured :
    {F : Type 0} → Floats F → (F → F) → Option (String → String × F) → String → Decision F
route_structured fl round_4 classify query =
    let routed = classify_route fl classify query in
    let detected = detect_task_type query in
    record {
      route = routed.0;
      confidence = round_4 routed.1;
      task_type = detected.task_type;
      requires_tools = detected.requires_tools;
      requires_model = detected.requires_model;
      requires_human_review =
          fl.lt routed.1 (fl.thousandths 650) || (detected.task_type =s "unknown");
      compute_limits = suggest_compute_limits query detected.task_type;
    }

pub data Judge : Type 0 where
  encoder : Judge
  llm : Judge

pub data VerifierKind : Type 0 where
  math_verifier : VerifierKind
  code_verifier : VerifierKind
  factual_verifier : Judge → VerifierKind
  schema_verifier : VerifierKind
  logic_verifier : VerifierKind

-- `encoder_built`: the encoder judge is available and its construction does not raise.
unfoldable pub select_verifier : String → Bool → Bool → Option VerifierKind
select_verifier task_type prefer_encoder_nli encoder_built =
    if task_type =s "math"
    then some math_verifier
    else if task_type =s "code"
    then some code_verifier
    else if task_type =s "factual"
    then some (
        factual_verifier
          (if prefer_encoder_nli then if encoder_built then encoder else llm else llm))
    else if task_type =s "schema"
    then some schema_verifier
    else if task_type =s "logic"
    then some logic_verifier
    else none
