-- ===== src/Cache/Trust.antt =====
-- What the two tests of persistent_cache.py demand of an entry and of a result.
use vibe_thinker.Prelude.{
  ℕ, ◌≤◌, ◌≡◌, ◌≢◌, refl, String, Bool, true, false, not, [], ◌∷◌, some, arith, eq_iff, ◌=s◌,
}
use vibe_thinker.Json.{codes}
use vibe_thinker.Text.{Text, lowered, strip}
use vibe_thinker.Cache.Entry.{
  bad_answers, any_same, Vector, Entry, ResultDict, or_default, holds, given, first_given,
  method_of, self_claims_only, current_schema_version, is_bad, is_blank, is_empty, is_trustworthy,
  should_cache,
}
use vibe_thinker.Cache.Insert.{Write, entry_of, metadata_of}

-- An entry that a caller may take for verified.
pub record Trusted (e : Entry) : Type 0 where
  pub verified : holds e.verified ≡ true
  pub method : method_of e.verification_method ≢ self_claims_only
  pub answer : is_bad (first_given e.best_answer e.answer) ≡ false
  pub failure : given e.failure ≡ false
  pub claims : 5 ≤ or_default e.claim_count 0
  pub schema : current_schema_version ≤ or_default e.schema_version 1

pub is_trustworthy-Trusted : (e : Entry) → is_trustworthy e false ≡ true → Trusted e
unfolding is_trustworthy
is_trustworthy-Trusted e h = record {
  verified = ground (arith, h);
  method =
      λ same. ground (arith, h, eq_iff (method_of e.verification_method) self_claims_only, same);
  answer = ground (arith, h);
  failure = ground (arith, h);
  claims = ground (arith, h);
  schema = ground (arith, h);
}

-- The dict for `should_cache` that agrees with the arguments of `insert`.
abbrev pub dict_of : Write → ResultDict
dict_of w = record {
  answer = some w.best_answer;
  score = some w.best_score;
  answer_present = w.answer_present;
  claim_count = some w.claim_count;
  verification_method = some w.verification_method;
  verified = some w.verified;
  failure = w.failure;
  transport_failures = some w.transport_failures;
}

nonempty : (t : Text) → any_same (lowered t) bad_answers ≡ false → is_empty t ≡ false
nonempty [] h = absurd (cc h)
nonempty (c ∷ cs) h = refl

is_bad-blank : (s : String) → is_bad s ≡ false → is_blank s ≡ false
unfolding is_bad is_blank
is_bad-blank s h = nonempty (strip (codes s)) h

-- What `should_cache` lets into the cache is trusted by every later lookup if its method is not the
-- model's own claims, and by none if it is: with leave for weak results, a score must be at least
-- 0.75 to be written and at most 0.65 to be read.
pub should_cache-trusted :
    (w : Write) (embedding : Vector) (now : ℕ) (allow_weak allow_weak' : Bool)
    → should_cache (dict_of w) allow_weak ≡ true
    → is_trustworthy (entry_of w embedding now) allow_weak'
      ≡ not (w.verification_method =s self_claims_only)
unfolding should_cache is_trustworthy entry_of
should_cache-trusted w embedding now allow_weak allow_weak' h =
    ground (arith, h, is_bad-blank w.best_answer, eq_iff w.best_answer "")

pub should_cache-strict :
    (w : Write)
    → should_cache (dict_of w) false ≡ true
    → (w.verification_method =s self_claims_only) ≡ false
unfolding should_cache
should_cache-strict w h = ground (arith, h)

-- What `insert` tells the vector store is never trusted: the number of claims is missing.
pub metadata_of-distrusted :
    (w : Write) (now : ℕ) (allow_weak : Bool)
    → is_trustworthy (metadata_of w now) allow_weak ≡ false
unfolding is_trustworthy metadata_of
metadata_of-distrusted w now allow_weak = ground arith
