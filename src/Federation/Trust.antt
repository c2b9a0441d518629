-- ===== src/Federation/Trust.antt =====
-- What moves a node's reputation, and how fast a bad node is silenced.
use vibe_thinker.Prelude.{
  ℕ, ◌≡◌, refl, String, true, false, arith, eq_refl, ◌+◌, Bool-cases, Option-cases, inl, inr,
}
use vibe_thinker.Prelude.Int.{pos, negsuc, ◌+ℤ◌, ◌*ℤ◌, ◌≤ℤ◌}
use vibe_thinker.Prelude.Dict.{get, get-put, Items-get}
use vibe_thinker.Json.{Json, Fields, null, bool, obj, truthy, get_field}
use vibe_thinker.Federation.Reputation.{
  standard, Reputation, get_score, record_outcome, downweight_factor, verdict_weight, result_weight,
  outcome_weight, record_outcome_lem, IsBounded,
}

verified_of_weight : (v : Json) → pos 1 ≤ℤ verdict_weight v → v ≡ bool true
verified_of_weight (bool true) h = refl
verified_of_weight (bool false) h = absurd (omega arith)
verified_of_weight _ h = absurd (omega arith)

object_of_weight :
    (result : Json)
    → pos 1 ≤ℤ result_weight result
    → (fields : Fields) × (result ≡ obj fields) × (get_field fields "verified" null ≡ bool true)
object_of_weight (obj fields) h = (fields, refl, verified_of_weight _ h)
object_of_weight _ h = absurd (omega arith)

-- The only completion that raises a reputation is one with no error whose result is an object with
-- `verified` exactly `true`: every other weight is at most 0.
pub outcome_weight_positive :
    (result err : Json)
    → pos 1 ≤ℤ outcome_weight result err
    → (truthy err ≡ false)
      × ((fields : Fields) × (result ≡ obj fields) × (get_field fields "verified" null ≡ bool true))
unfolding outcome_weight
outcome_weight_positive result err h = elim (Bool-cases (truthy err)) [
  | inl failed ↦ absurd (ground arith)
  | inr fine ↦ (fine, object_of_weight result (rw fine at h))
]

get_score-IsBounded :
    (r : Reputation) (identity : String) → IsBounded r → get_score standard r identity ≤ℤ pos 10
unfolding get_score
get_score-IsBounded r identity b = elim (Option-cases (get r.scores identity)) [
  | inl e ↦ rw e (omega arith)
  | inr (s, e) ↦ rw e (Items-get (λ k s. (pos 0 ≤ℤ s) × (s ≤ℤ pos 10)) r.scores identity s b e).1
]

-- A failed verification takes at least 0.6 off a score, down to 0 at the least.
failed_score :
    (r : Reputation) (identity : String) (n : ℕ)
    → get_score standard r identity ≤ℤ pos (n + 6)
    → get_score standard (record_outcome standard r identity (negsuc 1)).0 identity ≤ℤ pos n
unfolding record_outcome get_score ◌+ℤ◌ ◌*ℤ◌
failed_score r identity n h = rw (get-put, eq_refl) (ground arith)

-- From any scores between 0.0 and 1.0, two failed verifications in a row silence a node: its gossip
-- counts with weight 0.
pub two_failures_silence :
    (r : Reputation) (identity : String)
    → IsBounded r
    → let r' = (record_outcome standard r identity (negsuc 1)).0 in
      downweight_factor standard (record_outcome standard r' identity (negsuc 1)).0 identity ≡ pos 0
unfolding downweight_factor
two_failures_silence r identity b =
    let r' = (record_outcome standard r identity (negsuc 1)).0 in
    let first = failed_score r identity 4 (get_score-IsBounded r identity b) in
    let second = failed_score r' identity 0 (omega (arith, first)) in
    let bounds = record_outcome_lem standard r' identity identity (negsuc 1) in
    ground (arith, second)
