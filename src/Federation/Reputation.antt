-- ===== src/Federation/Reputation.antt =====
-- `ReputationStore` and the outcome weights of federation_server.py. A score of 1.0 is 10 tenths:
-- the rate, the default and the floor that the module fixes (0.3, 0.7, 0.3) and the weights (1, -2,
-- -1) are exact in this unit, so a score is an integer.
use vibe_thinker.Prelude.{
  ℕ, ◌+◌, ◌≡◌, String, true, false, Option, none, some, [], arith, ◌=s◌, if◌then◌else◌,
}
use vibe_thinker.Prelude.Int.{ℤ, pos, negsuc, ◌+ℤ◌, ◌*ℤ◌, ◌≤ℤ◌, ltb_ℤ}
use vibe_thinker.Prelude.Dict.{Dict, get, put, get-put, Items, Items-put}
use vibe_thinker.Json.{Json, null, bool, obj, truthy, get_field}

pub record Config : Type 0 where
  pub alpha : ℤ
  pub default : ℤ
  pub floor : ℤ

-- `_REP_EMA_ALPHA`, `_REP_DEFAULT`, `_REP_GOSSIP_FLOOR`
abbrev pub standard : Config
standard = record { alpha = pos 3; default = pos 7; floor = pos 3 }

pub record Reputation : Type 0 where
  pub scores : Dict ℤ
  pub counts : Dict ℕ

abbrev pub empty : Reputation
empty = record { scores = []; counts = [] }

abbrev pub or_default {ℓ} : {A : Type ℓ} → Option A → A → A
or_default none d = d
or_default (some a) d = a

-- `max(0.0, min(1.0, x))`
unfoldable pub clamp : ℤ → ℤ
clamp x = let y = if ltb_ℤ x (pos 10) then x else pos 10 in if ltb_ℤ (pos 0) y then y else pos 0

unfoldable pub get_score : Config → Reputation → String → ℤ
get_score c r identity = or_default (get r.scores identity) c.default

unfoldable pub record_outcome : Config → Reputation → String → ℤ → Reputation × ℤ
unfolding clamp
record_outcome c r identity weight =
    let new = clamp (or_default (get r.scores identity) c.default +ℤ c.alpha *ℤ weight) in
    (
      record {
        scores = put r.scores identity new;
        counts = put r.counts identity (or_default (get r.counts identity) 0 + 1);
      },
      new,
    )

unfoldable pub downweight_factor : Config → Reputation → String → ℤ
unfolding get_score
downweight_factor c r identity =
    let score = get_score c r identity in if ltb_ℤ score c.floor then pos 0 else score

-- `_REP_WEIGHT_VERIFIED_TRUE`, `_REP_WEIGHT_VERIFIED_FALSE`, `_REP_WEIGHT_ERROR`
abbrev pub verdict_weight : Json → ℤ
verdict_weight (bool true) = pos 1
verdict_weight (bool false) = negsuc 1
verdict_weight _ = pos 0

abbrev pub result_weight : Json → ℤ
result_weight (obj fields) = verdict_weight (get_field fields "verified" null)
result_weight _ = pos 0

unfoldable pub outcome_weight : Json → Json → ℤ
outcome_weight result err = if truthy err then negsuc 0 else result_weight result

-- Whatever the store and the weight, the new score lies between 0.0 and 1.0, is what `get_score`
-- reads next for the identity, and no other identity's score changes.
pub record_outcome_lem :
    (c : Config) (r : Reputation) (identity other : String) (weight : ℤ)
    → let (r', new) = record_outcome c r identity weight in
      (pos 0 ≤ℤ new)
      × (new ≤ℤ pos 10)
      × (get_score c r' other ≡ (if identity =s other then new else get_score c r other))
unfolding record_outcome get_score
record_outcome_lem c r identity other weight =
    ground (arith, get-put r.scores identity other (record_outcome c r identity weight).1)

-- Every stored score is a fraction.
abbrev pub IsBounded : Reputation → Type 0
IsBounded r = Items (λ k s. (pos 0 ≤ℤ s) × (s ≤ℤ pos 10)) r.scores

pub record_outcome-IsBounded :
    (c : Config) (r : Reputation) (identity : String) (weight : ℤ)
    → IsBounded r
    → IsBounded (record_outcome c r identity weight).0
unfolding record_outcome
record_outcome-IsBounded c r identity weight b =
    Items-put (λ k s. (pos 0 ≤ℤ s) × (s ≤ℤ pos 10)) r.scores identity _ b (ground arith)
