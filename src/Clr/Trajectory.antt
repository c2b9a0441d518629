-- ===== src/Clr/Trajectory.antt =====
-- The trajectories of vibe_clr_async.py: how one is made and scored, and how several are compared.
use vibe_thinker.Prelude.{
  ℕ, suc, String, Bool, true, false, not, ◌&&◌, ◌||◌, List, [], ◌∷◌, map, Option, none, some, ltb,
  leb, if◌then◌else◌, length, keep, is_nil,
}
use vibe_thinker.Json.{Json, null, str, truthy, codes}
use vibe_thinker.Text.{Text, same_codes, lowered, strip}
use vibe_thinker.Clr.Floats.{Floats}
use vibe_thinker.Clr.Claims.{extract_boxed_answer}
use vibe_thinker.Clr.Confidence.{Policy, calculate_reliability}

-- What the model's calls give for one full trajectory. The final answer is the value that the model's
-- JSON has for it, which need not be a text; `null` is None.
pub record Parts : Type 0 where
  pub final_answer : Json
  pub claims : List String
  pub verdicts : List ℕ
  pub raw_trace : String

pub record Trajectory (F : Type 0) : Type 0 where
  pub score : F
  pub answer : Json
  pub claims : List String
  pub verdicts : List ℕ
  pub raw_trace : String
  pub answer_present : Bool
  pub lightweight : Bool
  pub consistency_check : Option Bool

-- `answer is not None`
abbrev is_present : Json → Bool
is_present null = false
is_present answer = true

-- `t.get("answer_present") and t.get("answer")`
unfoldable pub is_answered : {F : Type 0} → Trajectory F → Bool
is_answered t = t.answer_present && truthy t.answer

abbrev pub is_text : Json → Bool
is_text (str s) = true
is_text answer = false

module _ {F : Type 0} (fl : Floats F) where
  unfoldable pub full_trajectory : Policy F → Parts → Trajectory F
  full_trajectory policy parts = record {
    score =
        calculate_reliability fl policy parts.verdicts parts.claims (is_present parts.final_answer)
          none;
    answer = parts.final_answer;
    claims = parts.claims;
    verdicts = parts.verdicts;
    raw_trace = parts.raw_trace;
    answer_present = is_present parts.final_answer;
    lightweight = false;
    consistency_check = none;
  }

  -- Claims and verdicts are left out.
  unfoldable pub lightweight_trajectory : Parts → Trajectory F
  lightweight_trajectory parts = record {
    score = fl.thousandths 0;
    answer = parts.final_answer;
    claims = [];
    verdicts = [];
    raw_trace = parts.raw_trace;
    answer_present = is_present parts.final_answer;
    lightweight = true;
    consistency_check = none;
  }

  -- The boxed answers of the traces.
  abbrev pub boxed_answers : List (Trajectory F) → List Text
  boxed_answers [] = []
  boxed_answers (t ∷ ts) =
      let rest = boxed_answers ts in
      elim (extract_boxed_answer t.raw_trace) [ none ↦ rest | some a ↦ a ∷ rest ]

  abbrev count : {A : Type 0} → (A → Bool) → List A → ℕ
  count test [] = 0
  count test (x ∷ xs) = let n = count test xs in if test x then suc n else n

  -- The verdict on `matching` and `contradicting` answers.
  abbrev judged : ℕ → ℕ → Option Bool
  judged matching contradicting =
      if leb 2 matching then some true else if ltb matching contradicting then some false else none

  -- The answer is a number, and near the target or not.
  abbrev is_close : (Text → Option F) → F → Bool → Text → Bool
  is_close numeric target near a = elim (numeric a) [
    | none ↦ false
    | some n ↦ if near then fl.close n target else not (fl.close n target)
  ]

  -- `numeric` is `_normalize_numeric`, Python's reading of a number.
  unfoldable pub check_answer_consistency :
      (Text → Option F) → String → List (Trajectory F) → Option Bool
  check_answer_consistency numeric answer ts =
      let boxed = boxed_answers (keep (λ t. t.answer_present) ts) in
      let same = λ (a : Text). same_codes (lowered (strip a)) (lowered (strip (codes answer))) in
      if ltb (length boxed) 2 then none else elim (numeric (codes answer)) [
        | none ↦ judged (count same boxed) (count (λ a. not (same a)) boxed)
        | some target ↦
            judged (count (is_close numeric target true) boxed)
              (count (is_close numeric target false) boxed)
      ]

  abbrev all_same : Text → List Text → Bool
  all_same s [] = true
  all_same s (x ∷ xs) = same_codes s x && all_same s xs

  -- At least two boxed answers, and all the same.
  abbrev agree : List Text → Bool
  agree [] = false
  agree (x ∷ xs) = not (is_nil xs) && all_same x xs

  unfoldable pub check_answer_agreement : List (Trajectory F) → Bool
  check_answer_agreement answered =
      if ltb (length answered) 2
      then false
      else agree (map (λ a. strip (lowered a)) (boxed_answers answered))

  -- On an answer that is no text, where `scoring_raises` is false.
  abbrev consistency_of : (Text → Option F) → List (Trajectory F) → Json → Option Bool
  consistency_of numeric valid (str s) = check_answer_consistency numeric s valid
  consistency_of numeric valid answer = none

  abbrev pub any_other : List (Trajectory F) → Bool
  any_other [] = false
  any_other (t ∷ ts) = (is_answered t && not (is_text t.answer)) || any_other ts

  -- With two boxed answers, `_check_answer_consistency` calls `strip` on every answer, which raises
  -- on one that is no text.
  unfoldable pub scoring_raises : List (Trajectory F) → Bool
  scoring_raises valid =
      leb 2 (length (boxed_answers (keep (λ t. t.answer_present) valid))) && any_other valid

  -- The loop of `_score_trajectories` changes the answered trajectories in place.
  unfoldable pub rescored :
      Policy F → (Text → Option F) → List (Trajectory F) → Trajectory F → Trajectory F
  rescored policy numeric valid t =
      if is_answered t
      then (let consistency = consistency_of numeric valid t.answer in
          record t {
            consistency_check = consistency;
            score = calculate_reliability fl policy t.verdicts t.claims true consistency;
          })
      else t

  -- All trajectories after `_score_trajectories`; the answered ones are what it returns.
  unfoldable pub score_trajectories :
      Policy F → (Text → Option F) → List (Trajectory F) → List (Trajectory F)
  score_trajectories policy numeric ts = map (rescored policy numeric ts) ts

  -- `max(..., key=score)`: the first of the best.
  abbrev pub best_of : Trajectory F → List (Trajectory F) → Trajectory F
  best_of t [] = t
  best_of t (u ∷ us) = best_of (if fl.lt t.score u.score then u else t) us
