-- ===== src/Orchestrator/Patterns.antt =====
-- Regular expressions as the routing of hybrid_orchestrator.py uses them, `re.search` as a Boolean
-- matcher with backtracking, and the substring test. Letters, digits and cases are those of ASCII.
use vibe_thinker.Prelude.{
  ℕ, zero, suc, String, Bool, true, false, ◌&&◌, ◌||◌, not, List, [], ◌∷◌, leb, ◌==◌, if◌then◌else◌,
  length,
}
use vibe_thinker.Json.{codes}
use vibe_thinker.Text.{Text, lower, is_space}

-- `boundary` is `\b`, `one` a character with a property, `star` `r*`.
pub data Regex : Type 0 where
  empty : Regex
  boundary : Regex
  one : (ℕ → Bool) → Regex
  seq : Regex → Regex → Regex
  alt : Regex → Regex → Regex
  star : Regex → Regex

abbrev is_digit : ℕ → Bool
is_digit c = leb b'0' c && leb c b'9'

-- `\w`
abbrev is_word : ℕ → Bool
is_word c = let l = lower c in (leb b'a' l && leb l b'z') || (is_digit c || (c == b'_'))

abbrev first_is_word : Text → Bool
first_is_word [] = false
first_is_word (c ∷ cs) = is_word c

-- What is left behind a match; the Boolean tells whether a word character stands before it.
abbrev Next : Type 0
Next = Bool → Text → Bool

abbrev match_one : (ℕ → Bool) → Text → Next → Bool
match_one test [] next = false
match_one test (c ∷ cs) next = test c && next (is_word c) cs

-- Up to `fuel` turns; one that matters takes a character.
abbrev match_many : (Bool → Text → Next → Bool) → ℕ → Bool → Text → Next → Bool
match_many turn zero before s next = next before s
match_many turn (suc fuel) before s next =
    next before s || turn before s (λ before' s'. match_many turn fuel before' s' next)

-- The expression matches at the start of the text, and `next` accepts what is left.
abbrev match_at : Regex → Bool → Text → Next → Bool
match_at empty before s next = next before s
match_at boundary before s next =
    (if before then not (first_is_word s) else first_is_word s) && next before s
match_at (one test) before s next = match_one test s next
match_at (seq r q) before s next = match_at r before s (λ before' s'. match_at q before' s' next)
match_at (alt r q) before s next = match_at r before s next || match_at q before s next
match_at (star r) before s next = match_many (match_at r) (length s) before s next

abbrev search_from : Bool → Regex → Text → Bool
search_from before r [] = match_at r before [] (λ b s. true)
search_from before r (c ∷ cs) =
    match_at r before (c ∷ cs) (λ b s. true) || search_from (is_word c) r cs

-- `re.search(r, s)`
unfoldable pub found : Regex → Text → Bool
found r s = search_from false r s

-- `any(re.search(pattern, s) for pattern in rs)`
unfoldable pub any_found : List Regex → Text → Bool
any_found [] s = false
any_found (r ∷ rs) s = found r s || any_found rs s

abbrev char : ℕ → Regex
char c = one (λ d. c == d)

abbrev literal : Text → Regex
literal [] = empty
literal (c ∷ cs) = seq (char c) (literal cs)

abbrev pub text : String → Regex
text s = literal (codes s)

infixr 60 ◌~◌
abbrev pub ◌~◌ : Regex → Regex → Regex
r ~ q = seq r q

abbrev pub plus : Regex → Regex
plus r = seq r (star r)

abbrev pub optional : Regex → Regex
optional r = alt r empty

-- The classes `.`, `\d`, `\s`, `\w` and `[...]`.
abbrev pub any : Regex
any = one (λ c. not (c == 10))

abbrev pub digit : Regex
digit = one is_digit

abbrev pub space : Regex
space = one is_space

abbrev pub word : Regex
word = one is_word

abbrev stands_in : ℕ → Text → Bool
stands_in c [] = false
stands_in c (d ∷ ds) = (c == d) || stands_in c ds

abbrev pub one_of : String → Regex
one_of s = one (λ c. stands_in c (codes s))

-- `\b...\b` around a literal.
abbrev pub whole : String → Regex
whole s = seq boundary (seq (text s) boundary)

-- `s in t` of two texts.
unfoldable pub contains : Text → Text → Bool
contains s t = found (literal s) t
