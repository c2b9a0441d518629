-- ===== src/Orchestrator/Tests.antt =====
-- Routing and the cache around a run of hybrid_orchestrator.py on small inputs.
use vibe_thinker.Prelude.{ℕ, ◌≡◌, refl, String, true, false, [], none, some, ltb}
use vibe_thinker.Prelude.Int.{pos}
use vibe_thinker.Cache.Entries.{SimilarityMode, Backend}
use vibe_thinker.Cache.Results.{ResultCache, lookup, lookup_local}
use vibe_thinker.Clr.Modes.{run}
use vibe_thinker.Clr.Tests.{
  thousandths, thousandths-IsOrder, policy, model, checker, confirmed, confirmed_run,
}
use vibe_thinker.Json.{codes}
use vibe_thinker.Text.{lowered}
use vibe_thinker.Orchestrator.Patterns.{found, any_found, contains}
use vibe_thinker.Orchestrator.TaskTypes.{
  guards_of, is_skipped, score_of, step, pick, detect_task_type,
}
use vibe_thinker.Orchestrator.Detection.{Detects, detect_task_type-Detects}
use vibe_thinker.Orchestrator.Routing.{route_of, classify_route, route_structured}
use vibe_thinker.Orchestrator.Routed.{Routed, route_structured-Routed}
use vibe_thinker.Orchestrator.Caching.{run_clr_with_cache, result, respond, keep_result}
use vibe_thinker.Orchestrator.Trusted.{
  Vouched, run_clr_with_cache-Vouched, run_clr_with_cache-unchanged,
}

abbrev router : String → String × ℕ
router query = ("generalist", 300)

detect_task_type-Detects_example :
    Detects (lowered (codes "Solve 2x + 5 = 13")) (detect_task_type "Solve 2x + 5 = 13")
detect_task_type-Detects_example = detect_task_type-Detects "Solve 2x + 5 = 13"

solve :
    (route_structured thousandths (λ c. c) (some router) "Solve 2x + 5 = 13").route ≡ "specialist"
unfolding route_structured classify_route route_of detect_task_type guards_of is_skipped score_of
    step pick found any_found contains
solve = refl

conduct : (detect_task_type "What is the code of conduct?").task_type ≡ "conversation"
unfolding detect_task_type guards_of is_skipped score_of step pick found any_found contains
conduct = refl

thousandths-literals :
    (m n : ℕ) → thousandths.lt (thousandths.thousandths m) (thousandths.thousandths n) ≡ ltb m n
thousandths-literals m n = refl

route_structured-Routed_example :
    Routed thousandths thousandths-IsOrder thousandths-literals
      (some router)
      "Solve 2x + 5 = 13"
      (route_structured thousandths (λ c. c) (some router) "Solve 2x + 5 = 13")
route_structured-Routed_example =
    route_structured-Routed thousandths thousandths-IsOrder thousandths-literals (some router)
      "Solve 2x + 5 = 13" (λ c. c)

abbrev backend : Backend ℕ
backend = record {
  encode = λ s. [];
  cosine = λ u v. pos 0;
  ranking = λ sims. [];
  search = λ s v k. [];
  upsert = λ s id v m. none;
}

abbrev id_of : ℕ → String
id_of n = "clr"

abbrev cache : ResultCache ℕ
cache = record {
  entries = [];
  matrix = none;
  file = none;
  store = none;
  mode = SimilarityMode.none_mode;
  has_model = false;
  agentdb_only = false;
  similarity_threshold = pos 920;
  min_score = 700;
  max_entries = 256;
  autosave = true;
}

run_clr_with_cache-unchanged_example :
    (run_clr_with_cache backend id_of thousandths 8 "2+2" 7
      (run thousandths policy model true 2 "code" (some checker))
      cache).0
    ≡ (lookup backend "2+2" false cache).0
run_clr_with_cache-unchanged_example =
    run_clr_with_cache-unchanged backend id_of thousandths 8 "2+2" 7
      (run thousandths policy model true 2 "code" (some checker)) cache

reply :
    (run_clr_with_cache backend id_of thousandths 2 "2+2" 7
      (run thousandths policy model true 2 "code" (some checker))
      cache).1
    ≡ result confirmed false
unfolding run_clr_with_cache respond keep_result lookup lookup_local
reply = rw confirmed_run refl

run_clr_with_cache-Vouched_example :
    Vouched backend id_of thousandths policy model (some checker) "2+2" cache confirmed
run_clr_with_cache-Vouched_example =
    run_clr_with_cache-Vouched backend id_of thousandths thousandths-IsOrder policy model
      (some checker) refl true 2 "code" "2+2" 7 cache confirmed false reply refl
