-- ===== src/Clr/Claims.antt =====
-- The texts of vibe_clr_async.py: which claims count, and the boxed answer of a trace. Letters and
-- cases are those of ASCII.
use vibe_thinker.Prelude.{
  ℕ, zero, suc, String, Bool, true, false, ◌&&◌, ◌||◌, List, [], ◌∷◌, Option, none, some, ltb, leb,
  ◌==◌, if◌then◌else◌, length,
}
use vibe_thinker.Json.{codes}
use vibe_thinker.Text.{Text, lower, is_space, lowered, strip}

-- The rest of the text behind a prefix.
abbrev pub behind : Text → Text → Option Text
behind [] s = some s
behind (c ∷ cs) [] = none
behind (c ∷ cs) (d ∷ ds) = if c == d then behind cs ds else none

abbrev starts_with_any : List Text → Text → Bool
starts_with_any [] s = false
starts_with_any (p ∷ ps) s = elim (behind p s) [ none ↦ starts_with_any ps s | some rest ↦ true ]

-- What `_GARBAGE_PATTERNS` matches at the start of a lowered text: each alternative with an optional
-- end is a prefix, and `n/?a` is two of them.
abbrev garbage : List Text
garbage =
    codes "by step"
    ∷ codes "step by step"
    ∷ codes "so we can elaborate"
    ∷ codes "the final answer"
    ∷ codes "none"
    ∷ codes "n/a"
    ∷ codes "na"
    ∷ codes "null"
    ∷ codes "undefined"
    ∷ []

abbrev is_letter : ℕ → Bool
is_letter c = let l = lower c in leb b'a' l && leb l b'z'

-- `[a-zA-Z]{3,}` stands in the text; `run` letters stand before it.
abbrev three_letters : ℕ → Text → Bool
three_letters run [] = leb 3 run
three_letters run (c ∷ cs) =
    leb 3 run || (if is_letter c then three_letters (suc run) cs else three_letters 0 cs)

abbrev pub min_claim_length : ℕ
min_claim_length = 15

unfoldable pub is_meaningful_claim : String → Bool
is_meaningful_claim claim =
    let s = strip (codes claim) in
    if ltb (length s) min_claim_length
    then false
    else if starts_with_any garbage (lowered s)
    then false
    else three_letters 0 s

-- The content up to the closing brace, and what stands behind it.
abbrev closed : Text → Option (Text × Text)
closed [] = none
closed (c ∷ cs) = elim (closed cs) [
  | none ↦ if c == b'}' then some ([], cs) else none
  | some (content, rest) ↦ if c == b'}' then some ([], cs) else some (c ∷ content, rest)
]

-- `\s*\{`, and the content.
abbrev opened : Text → Option (Text × Text)
opened [] = none
opened (c ∷ cs) =
    let rest = opened cs in if c == b'{' then closed cs else if is_space c then rest else none

-- The matches of `\\boxed\s*\{([^}]*)\}` from left to right; no text has more than its length.
abbrev pub boxed_in : ℕ → Text → List Text
boxed_in zero s = []
boxed_in (suc fuel) [] = []
boxed_in (suc fuel) (c ∷ cs) =
    let next = boxed_in fuel cs in
    elim (behind (codes "\\boxed") (c ∷ cs)) [
      | none ↦ next
      | some s ↦ elim (opened s) [
        | none ↦ next
        | some (content, rest) ↦ content ∷ boxed_in fuel rest
      ]
    ]

abbrev last_of : List Text → Option Text
last_of [] = none
last_of (x ∷ xs) = elim (last_of xs) [ none ↦ some x | some y ↦ some y ]

unfoldable pub extract_boxed_answer : String → Option Text
extract_boxed_answer trace =
    let s = codes trace in
    elim (last_of (boxed_in (suc (length s)) s)) [ none ↦ none | some x ↦ some (strip x) ]
