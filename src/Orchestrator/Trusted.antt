-- ===== src/Orchestrator/Trusted.antt =====
-- Which results hybrid_orchestrator.py caches, and which it calls verified.
use vibe_thinker.Prelude.{ℕ, ◌≡◌, refl, subst, String, Bool, true, false, Option, arith, if_both}
use vibe_thinker.Json.{str, text_both}
use vibe_thinker.Cache.Entry.{should_cache}
use vibe_thinker.Cache.Entries.{Backend}
use vibe_thinker.Cache.Results.{ResultCache, Hit, Lookup, miss, key_error, hit, lookup}
use vibe_thinker.Cache.Reads.{Served, lookup-Served}
use vibe_thinker.Clr.Floats.{Floats, IsOrder}
use vibe_thinker.Clr.Confidence.{Policy}
use vibe_thinker.Clr.Run.{Verifier, Model, ClrResult, Outcome, raised, done}
use vibe_thinker.Clr.Modes.{run}
use vibe_thinker.Clr.Honest.{Confirmed, run-Honest}
use vibe_thinker.Orchestrator.Caching.{
  build_cache_result_dict, is_cacheable, is_uncacheable, cached_result, keep_result, respond, Reply,
  failed, result, run_clr_with_cache,
}

module _ {S : Type 0} (b : Backend S) (id_of : ℕ → String) (fl : Floats ℕ) where
  -- No result may be cached, whatever it is: the dict that is judged says neither that it is
  -- verified nor may a result without that be cached.
  is_cacheable-false :
      (answer : String) (r : ClrResult ℕ) (c : ResultCache S)
      → is_cacheable fl answer r false c ≡ false
  unfolding is_cacheable build_cache_result_dict should_cache
  is_cacheable-false answer r c = ground arith

  keep_result-cache :
      (query : String) (now : ℕ) (outcome : Outcome ℕ) (c : ResultCache S)
      → (keep_result b id_of fl query now outcome c).0 ≡ c
  unfolding keep_result
  keep_result-cache query now raised c = refl
  keep_result-cache query now (done r) c =
      text_both (λ (p : ResultCache S × Reply). p.0 ≡ c) r.best_answer _ _
        (λ answer. rw (is_cacheable-false answer r c) refl) refl

  respond-cache :
      (k : ℕ) (query : String) (now : ℕ) (outcome : Outcome ℕ) (found : Lookup) (c : ResultCache S)
      → (respond b id_of fl k query now outcome found c).0 ≡ c
  unfolding respond
  respond-cache k query now outcome key_error c = refl
  respond-cache k query now outcome miss c = keep_result-cache query now outcome c
  respond-cache k query now outcome (hit h) c =
      if_both (λ (p : ResultCache S × Reply). p.0 ≡ c) (is_uncacheable h.best_answer) _ _
        (λ e. keep_result-cache query now outcome c) (λ e. refl)

  -- A run with the cache changes the cache no more than its lookup does: nothing is ever inserted,
  -- verified or not.
  pub run_clr_with_cache-unchanged :
      (k : ℕ) (query : String) (now : ℕ) (outcome : Outcome ℕ) (c : ResultCache S)
      → (run_clr_with_cache b id_of fl k query now outcome c).0 ≡ (lookup b query false c).0
  unfolding run_clr_with_cache
  run_clr_with_cache-unchanged k query now outcome c =
      let found = lookup b query false c in respond-cache k query now outcome found.1 found.0

  -- The answer of a verified result is one that a verifier confirmed, in this run or as a trusted
  -- entry of the cache.
  pub data Vouched (policy : Policy ℕ) (model : Model ℕ) (verifier : Option (Verifier ℕ))
      (query : String) (c : ResultCache S) (r : ClrResult ℕ) : Type 0 where
    from_cache :
        (h : Hit)
        → Served b query c h
        → r.best_answer ≡ str h.best_answer
        → r.best_score ≡ h.best_score
        → Vouched policy model verifier query c r
    from_verifier :
        Confirmed fl policy model verifier r.best_answer r.verification_method
          r.deterministic_verification r.best_score
        → Vouched policy model verifier query c r

  -- What the reply says of a verified result.
  abbrev Vouches : (ClrResult ℕ → Type 0) → Reply → Type 0
  Vouches P failed = Unit
  Vouches P (result r cached) = r.verified ≡ true → P r

  keep_result-Vouches :
      (P : ClrResult ℕ → Type 0) (query : String) (now : ℕ) (outcome : Outcome ℕ)
      (c : ResultCache S)
      → ((r : ClrResult ℕ) → outcome ≡ done r → r.verified ≡ true → P r)
      → Vouches P (keep_result b id_of fl query now outcome c).1
  unfolding keep_result
  keep_result-Vouches P query now raised c f = tt
  keep_result-Vouches P query now (done r) c f =
      text_both (λ (p : ResultCache S × Reply). Vouches P p.1) r.best_answer _ _
        (λ answer h. f r refl h) tt

  respond-Vouches :
      (P : ClrResult ℕ → Type 0) (k : ℕ) (query : String) (now : ℕ) (outcome : Outcome ℕ)
      (found : Lookup) (c : ResultCache S)
      → ((r : ClrResult ℕ) → outcome ≡ done r → r.verified ≡ true → P r)
      → ((h : Hit) → found ≡ hit h → P (cached_result k h))
      → Vouches P (respond b id_of fl k query now outcome found c).1
  unfolding respond
  respond-Vouches P k query now outcome key_error c f g = tt
  respond-Vouches P k query now outcome miss c f g = keep_result-Vouches P query now outcome c f
  respond-Vouches P k query now outcome (hit h) c f g =
      if_both (λ (p : ResultCache S × Reply). Vouches P p.1) (is_uncacheable h.best_answer) _ _
        (λ e. keep_result-Vouches P query now outcome c f) (λ e v. g h refl)

  -- A result of a run with the cache that is verified has the answer and the score of a trusted entry
  -- of the cache or the vector store, or an answer that the verifier confirmed in this run.
  pub run_clr_with_cache-Vouched :
      IsOrder fl
      → (policy : Policy ℕ) (model : Model ℕ) (verifier : Option (Verifier ℕ))
      → fl.lt policy.self_claim_cap (fl.thousandths 0) ≡ false
      → (adaptive : Bool) (k : ℕ) (task_type query : String) (now : ℕ) (c : ResultCache S)
        (r : ClrResult ℕ) (cached : Bool)
      → (run_clr_with_cache b id_of fl k query now
          (run fl policy model adaptive k task_type verifier)
          c).1
        ≡ result r cached
      → r.verified ≡ true
      → Vouched policy model verifier query c r
  unfolding run_clr_with_cache cached_result
  run_clr_with_cache-Vouched order policy model verifier sane adaptive k task_type query now c r
        cached eq =
      let P = Vouched policy model verifier query c in
      let found = lookup b query false c in
      let outcome = run fl policy model adaptive k task_type verifier in
      subst (Vouches P) eq (
        respond-Vouches P k query now outcome found.1 found.0
          (λ s e v.
            from_verifier (
              (run-Honest fl policy model verifier order sane adaptive k task_type s e).confirmed
                v))
          (λ h e. from_cache h (lookup-Served b query c h e) refl refl))
