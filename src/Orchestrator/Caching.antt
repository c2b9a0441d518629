-- ===== src/Orchestrator/Caching.antt =====
-- The cache around a CLR run in hybrid_orchestrator.py. Scores are numbers of thousandths, as in the
-- cache.
use vibe_thinker.Prelude.{
  ℕ, suc, String, Bool, true, false, not, List, [], ◌∷◌, none, some, ltb, ◌==◌, ◌=s◌, if◌then◌else◌,
  length,
}
use vibe_thinker.Json.{str, when_text, codes}
use vibe_thinker.Text.{Text, lowered, strip}
use vibe_thinker.Cache.Entry.{ResultDict, any_same, should_cache}
use vibe_thinker.Cache.Entries.{Backend}
use vibe_thinker.Cache.Results.{ResultCache, Hit, Lookup, miss, key_error, hit, lookup}
use vibe_thinker.Cache.Insert.{Write, insert}
use vibe_thinker.Clr.Floats.{Floats}
use vibe_thinker.Clr.Claims.{is_meaningful_claim}
use vibe_thinker.Clr.Trajectory.{Trajectory, best_of}
use vibe_thinker.Clr.Run.{ClrResult, Outcome, raised, done}

abbrev uncacheable_answers : List Text
uncacheable_answers =
    codes "no clear answer found"
    ∷ codes "all trajectories failed"
    ∷ codes ""
    ∷ codes "none"
    ∷ codes "null"
    ∷ codes "n/a"
    ∷ []

unfoldable pub is_uncacheable : String → Bool
is_uncacheable answer = any_same (lowered (strip (codes answer))) uncacheable_answers

abbrev count_meaningful : List String → ℕ
count_meaningful [] = 0
count_meaningful (c ∷ cs) =
    let n = count_meaningful cs in if is_meaningful_claim c then suc n else n

-- The claims of the first of the best trajectories that count.
unfoldable pub claim_count : Floats ℕ → List (Trajectory ℕ) → ℕ
claim_count fl [] = 0
claim_count fl (t ∷ ts) = count_meaningful (best_of fl t ts).claims

-- `_build_cache_result_dict` of a result whose best answer is the text: the dict has no key `verified`.
unfoldable pub build_cache_result_dict : Floats ℕ → String → ClrResult ℕ → ResultDict
build_cache_result_dict fl answer r = record {
  answer = some answer;
  score = some r.best_score;
  answer_present = not (answer =s "");
  claim_count = some (claim_count fl r.all_trajectories);
  verification_method = some r.verification_method;
  verified = none;
  failure = r.failure_reason;
  transport_failures = some r.transport_failures;
}

-- The arguments of the insert in `_run_clr_with_cache`, for a best answer that is a text.
abbrev pub write_of : Floats ℕ → String → String → ClrResult ℕ → Write
write_of fl query answer r = record {
  problem = query;
  best_answer = answer;
  best_score = r.best_score;
  k = r.k;
  trajectory_count = length r.all_trajectories;
  verified = r.verified;
  verification_method = r.verification_method;
  claim_count = claim_count fl r.all_trajectories;
  answer_present = true;
  deterministic_check = r.deterministic_verification;
  failure = r.failure_reason;
  transport_failures = r.transport_failures;
  model_failures = r.model_failures;
}

-- The result that stands for a hit.
unfoldable pub cached_result : ℕ → Hit → ClrResult ℕ
cached_result k h = record {
  best_answer = str h.best_answer;
  best_score = h.best_score;
  best_raw_trace = "<cached>";
  all_trajectories = [];
  k = elim h.k [ none ↦ k | some n ↦ if n == 0 then k else n ];
  transport_failures = 0;
  model_failures = 0;
  partial_failure = false;
  failure_reason = none;
  verification_method = h.verification_method;
  verified = h.verified;
  deterministic_verification = none;
  adaptive = false;
  trajectories_used = 0;
  max_trajectories = 0;
  early_exit_reason = none;
  branch_reason = none;
  agreement = none;
  verification_status = "self_only";
}

-- `failed` is an exception of the lookup or the run.
pub data Reply : Type 0 where
  failed : Reply
  result : ClrResult ℕ → Bool → Reply

module _ {S : Type 0} where
  unfoldable pub is_cacheable : Floats ℕ → String → ClrResult ℕ → Bool → ResultCache S → Bool
  is_cacheable fl answer r allow_weak c =
      if not (should_cache (build_cache_result_dict fl answer r) allow_weak)
      then false
      else not (ltb r.best_score c.min_score)

  -- Behind the run: the result is inserted if it may be. The best answer of a run that is no text is
  -- true and comes without a failure, and on such a one `should_cache` raises.
  unfoldable pub keep_result :
      Backend S
      → (ℕ → String)
      → Floats ℕ
      → String
      → ℕ
      → Outcome ℕ
      → ResultCache S
      → ResultCache S × Reply
  keep_result b id_of fl query now raised c = (c, failed)
  keep_result b id_of fl query now (done r) c =
      when_text r.best_answer
        (λ answer. (
          if is_cacheable fl answer r false c
              then insert b id_of (write_of fl query answer r) now c
              else c,
          result r false,
        ))
        (c, failed)

  -- What follows the lookup: a hit ends the call, unless its answer is a sentinel.
  unfoldable pub respond :
      Backend S
      → (ℕ → String)
      → Floats ℕ
      → ℕ
      → String
      → ℕ
      → Outcome ℕ
      → Lookup
      → ResultCache S
      → ResultCache S × Reply
  respond b id_of fl k query now outcome key_error c = (c, failed)
  respond b id_of fl k query now outcome miss c = keep_result b id_of fl query now outcome c
  respond b id_of fl k query now outcome (hit h) c =
      if is_uncacheable h.best_answer
      then keep_result b id_of fl query now outcome c
      else (c, result (cached_result k h) true)

  -- `_run_clr_with_cache` with the cache in use, from the outcome that a run would have.
  unfoldable pub run_clr_with_cache :
      Backend S
      → (ℕ → String)
      → Floats ℕ
      → ℕ
      → String
      → ℕ
      → Outcome ℕ
      → ResultCache S
      → ResultCache S × Reply
  run_clr_with_cache b id_of fl k query now outcome c =
      let found = lookup b query false c in respond b id_of fl k query now outcome found.1 found.0
