-- ===== src/Cache/Entry.antt =====
-- The entries of the semantic caches of persistent_cache.py, and the tests that guard them:
-- `is_cache_entry_trustworthy` at every read, `should_cache` before a write.
-- A score is a number of thousandths. Python's `dict` with its known keys is a record of options.
use vibe_thinker.Prelude.{
  ℕ, String, Bool, true, false, not, ◌&&◌, ◌||◌, List, [], ◌∷◌, Option, none, some, ltb, ◌=s◌,
  if◌then◌else◌,
}
use vibe_thinker.Prelude.Int.{ℤ}
use vibe_thinker.Json.{codes}
use vibe_thinker.Text.{Text, same_codes, lowered, strip}

-- An embedding; only the vector libraries read its coordinates.
abbrev pub Vector : Type 0
Vector = List ℤ

pub record Entry : Type 0 where
  pub problem : Option String
  pub query : Option String
  pub embedding : Option Vector
  pub best_answer : Option String
  pub answer : Option String
  pub best_score : Option ℕ
  pub score : Option ℕ
  pub k : Option ℕ
  pub timestamp : Option ℕ
  pub trajectory_count : Option ℕ
  pub verified : Option Bool
  pub verification_method : Option String
  pub claim_count : Option ℕ
  pub answer_present : Option Bool
  pub deterministic_check : Option ℕ
  pub failure : Option String
  pub transport_failures : Option ℕ
  pub model_failures : Option ℕ
  pub schema_version : Option ℕ
  pub task_type : Option String
  pub route_taken : Option String
  pub access_count : Option ℕ
  pub synthesized : Option Bool
  pub source_count : Option ℕ
  pub source_queries : Option (List String)
  pub verification_context : Option (List (String × String))

-- The entry without keys.
abbrev pub blank : Entry
blank = record {
  problem = none;
  query = none;
  embedding = none;
  best_answer = none;
  answer = none;
  best_score = none;
  score = none;
  k = none;
  timestamp = none;
  trajectory_count = none;
  verified = none;
  verification_method = none;
  claim_count = none;
  answer_present = none;
  deterministic_check = none;
  failure = none;
  transport_failures = none;
  model_failures = none;
  schema_version = none;
  task_type = none;
  route_taken = none;
  access_count = none;
  synthesized = none;
  source_count = none;
  source_queries = none;
  verification_context = none;
}

-- `d.get(key, default)`
abbrev pub or_default {ℓ} : {A : Type ℓ} → Option A → A → A
or_default none d = d
or_default (some a) d = a

-- The truth test of an optional Boolean, and of an optional text.
abbrev pub holds : Option Bool → Bool
holds b = or_default b false

abbrev pub given : Option String → Bool
given none = false
given (some s) = not (s =s "")

-- `a or b` of two optional texts, "" if neither is given.
abbrev pub first_given : Option String → Option String → String
first_given a b = if given a then or_default a "" else or_default b ""

abbrev pub self_claims_only : String
self_claims_only = "self_claims_only"

abbrev pub bad_answers : List Text
bad_answers =
    codes "no clear answer found"
    ∷ codes "all trajectories failed"
    ∷ codes "generalist call failed"
    ∷ codes "specialist call failed"
    ∷ codes ""
    ∷ codes "none"
    ∷ codes "null"
    ∷ codes "n/a"
    ∷ []

abbrev pub any_same : Text → List Text → Bool
any_same t [] = false
any_same t (x ∷ xs) = same_codes t x || any_same t xs

-- `answer.strip().lower() in BAD_ANSWERS`
unfoldable pub is_bad : String → Bool
is_bad answer = any_same (lowered (strip (codes answer))) bad_answers

-- `not answer.strip()`
abbrev pub is_empty : Text → Bool
is_empty [] = true
is_empty (c ∷ cs) = false

unfoldable pub is_blank : String → Bool
is_blank answer = is_empty (strip (codes answer))

abbrev pub current_schema_version : ℕ
current_schema_version = 3

-- The method that an entry or a result names.
abbrev pub method_of : Option String → String
method_of m = or_default m self_claims_only

unfoldable pub is_trustworthy : Entry → Bool → Bool
is_trustworthy entry allow_weak =
    let answer = first_given entry.best_answer entry.answer in
    let method = method_of entry.verification_method in
    let weak = method =s self_claims_only in
    if is_blank answer
    then false
    else if is_bad answer
    then false
    else if given entry.failure
    then false
    else if ltb 0 (or_default entry.transport_failures 0) && not (holds entry.verified)
    then false
    else if ltb (or_default entry.claim_count 0) 5
    then false
    else if weak && not allow_weak
    then false
    else if weak && ltb 650 (or_default entry.best_score 0)
    then false
    else if not weak && not (holds entry.verified)
    then false
    else if ltb (or_default entry.schema_version 1) current_schema_version
    then false
    else true

-- The dict that `should_cache` judges.
pub record ResultDict : Type 0 where
  pub answer : Option String
  pub score : Option ℕ
  pub answer_present : Bool
  pub claim_count : Option ℕ
  pub verification_method : Option String
  pub verified : Option Bool
  pub failure : Option String
  pub transport_failures : Option ℕ

unfoldable pub should_cache : ResultDict → Bool → Bool
should_cache result allow_weak =
    let answer = or_default result.answer "" in
    let weak = method_of result.verification_method =s self_claims_only in
    if not result.answer_present
    then false
    else if given result.failure
    then false
    else if is_bad answer
    then false
    else if ltb (or_default result.claim_count 0) 5
    then false
    else if ltb (or_default result.score 0) 750
    then false
    else if weak && not allow_weak
    then false
    else if not weak && not (holds result.verified)
    then false
    else if ltb 0 (or_default result.transport_failures 0)
    then false
    else true
