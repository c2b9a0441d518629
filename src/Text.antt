-- ===== src/Text.antt =====
-- Texts as lists of code points, with the methods of Python's `str` that the program uses on them.
-- Lower case is that of ASCII.
use vibe_thinker.Prelude.{
  ℕ, ◌+◌, ◌≡◌, refl, subst, ap, Bool, true, false, ◌&&◌, ◌||◌, List, [], ◌∷◌, ◌++◌, Option, none,
  some, arith, leb, ◌==◌, if◌then◌else◌,
}

abbrev pub Text : Type 0
Text = List ℕ

abbrev pub lower : ℕ → ℕ
lower c = if leb b'A' c && leb c b'Z' then c + 32 else c

abbrev pub same_codes : Text → Text → Bool
same_codes [] [] = true
same_codes (a ∷ xs) (b ∷ ys) = (a == b) && same_codes xs ys
same_codes _ _ = false

abbrev pub lowered : Text → Text
lowered [] = []
lowered (c ∷ cs) = lower c ∷ lowered cs

-- `str.isspace` on one character.
abbrev pub is_space : ℕ → Bool
is_space c =
    (leb 9 c && leb c 13)
    || ((leb 28 c && leb c 32)
        || ((c == 133)
            || ((c == 160)
                || ((c == 5760)
                    || ((leb 8192 c && leb c 8202)
                        || ((c == 8232)
                            || ((c == 8233) || ((c == 8239) || ((c == 8287) || (c == 12288))))))))))

abbrev strip_left : Text → Text
strip_left [] = []
strip_left (c ∷ cs) = let rest = strip_left cs in if is_space c then rest else c ∷ cs

abbrev blank_before : ℕ → Text → Text
blank_before c [] = if is_space c then [] else c ∷ []
blank_before c (d ∷ ds) = c ∷ d ∷ ds

abbrev strip_right : Text → Text
strip_right [] = []
strip_right (c ∷ cs) = blank_before c (strip_right cs)

unfoldable pub strip : Text → Text
strip s = strip_left (strip_right s)

abbrev pub split_at : Bool → ℕ → Text → Option (Text × Text) → Option (Text × Text)
split_at true c cs rest = some ([], cs)
split_at false c cs none = none
split_at false c cs (some (before, after)) = some (c ∷ before, after)

-- `s.split(c, 1)`, if `c` stands in the text.
unfoldable pub split_once : ℕ → Text → Option (Text × Text)
split_once sep [] = none
split_once sep (c ∷ cs) = split_at (c == sep) c cs (split_once sep cs)

-- `s.rpartition(c)`, if `c` stands in the text.
unfoldable pub rpartition : ℕ → Text → Option (Text × Text)
rpartition sep [] = none
rpartition sep (c ∷ cs) = elim (rpartition sep cs) [
  | some (before, after) ↦ some (c ∷ before, after)
  | none ↦ if c == sep then some ([], cs) else none
]

-- The character does not stand in the text.
abbrev pub Without : ℕ → Text → Type 0
Without sep [] = Unit
Without sep (c ∷ cs) = ((c == sep) ≡ false) × Without sep cs

pub same_codes-eq : (s t : Text) → same_codes s t ≡ true → s ≡ t
same_codes-eq [] [] h = refl
same_codes-eq [] (b ∷ t) h = cc
same_codes-eq (a ∷ s) [] h = cc
same_codes-eq (a ∷ s) (b ∷ t) h =
    rw (same_codes-eq s t (ground (arith, h))) (ap (λ c. c ∷ t) (ground (arith, h)))

pub same_codes_refl : (s : Text) → same_codes s s ≡ true
same_codes_refl [] = refl
same_codes_refl (a ∷ s) = ground (arith, same_codes_refl s)

-- The text is split at the first place where the character stands.
pub split_once-append :
    (sep : ℕ) (before after : Text)
    → Without sep before
    → split_once sep (before ++ sep ∷ after) ≡ some (before, after)
unfolding split_once
split_once-append sep [] after w = ground arith
split_once-append sep (c ∷ before) after w = rw (w.0, split_once-append sep before after w.1) refl

split_pair :
    (a b c d : Text)
    → ◌≡◌ {A = Option (Text × Text)} (some (a, b)) (some (c, d))
    → (a ≡ c) × (b ≡ d)
split_pair a b c d h =
    (ap (λ o. elim o [ none ↦ a | some p ↦ p.0 ]) h, ap (λ o. elim o [ none ↦ b | some p ↦ p.1 ]) h)

split_first :
    (sep c : ℕ) (s before after : Text) (b : Bool)
    → (c == sep) ≡ b
    → (r : Option (Text × Text))
    → ((x y : Text) → r ≡ some (x, y) → (s ≡ x ++ sep ∷ y) × Without sep x)
    → split_at b c s r ≡ some (before, after)
    → (c ∷ s ≡ before ++ sep ∷ after) × Without sep before
split_first sep c s before after true e r ih h =
    let (p, q) = split_pair [] s before after h in
    let same : c ≡ sep = ground (arith, e) in
    subst (λ x. (c ∷ s ≡ x ++ sep ∷ after) × Without sep x) p (rw (same, q) refl, tt)
split_first sep c s before after false e none ih h = absurd (cc h)
split_first sep c s before after false e (some (x, y)) ih h =
    let (p, q) = split_pair (c ∷ x) y before after h in
    let (t, w) = ih x y refl in
    subst (λ z. (c ∷ s ≡ z ++ sep ∷ after) × Without sep z) p (rw (t, q) refl, (e, w))

-- And only there.
pub split_once-splits :
    (sep : ℕ) (s before after : Text)
    → split_once sep s ≡ some (before, after)
    → (s ≡ before ++ sep ∷ after) × Without sep before
unfolding split_once
split_once-splits sep [] before after h = absurd (cc h)
split_once-splits sep (c ∷ s) before after h =
    split_first sep c s before after (c == sep) refl (split_once sep s) (split_once-splits sep s) h
