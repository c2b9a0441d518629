-- ===== src/Clr/Floats.antt =====
-- Python's floats, as far as scoring.py and vibe_clr_async.py use them, and the laws of their order
-- (that of the floats but nan, which no score is).
use vibe_thinker.Prelude.{ℕ, ◌≡◌, Bool, true, false, if◌then◌else◌}

pub record Floats (F : Type 0) : Type 0 where
  -- `thousandths n` is the literal of n / 1000.
  pub thousandths : ℕ → F
  pub add : F → F → F
  pub mul : F → F → F
  -- `a / b` of two integers.
  pub ratio : ℕ → ℕ → F
  pub lt : F → F → Bool
  -- `abs(a - b) < 1e-6`
  pub close : F → F → Bool

-- `a <= b`
abbrev pub le : {F : Type 0} → Floats F → F → F → Bool
le fl a b = if fl.lt b a then false else true

-- `min(a, b)`: the first one unless the second is less.
abbrev pub lesser : {F : Type 0} → Floats F → F → F → F
lesser fl a b = if fl.lt b a then b else a

pub record IsOrder {F : Type 0} (fl : Floats F) : Type 0 where
  pub irreflexive : (a : F) → fl.lt a a ≡ false
  pub asymmetric : (a b : F) → fl.lt a b ≡ true → fl.lt b a ≡ false
  pub transitive : (a b c : F) → fl.lt a b ≡ false → fl.lt b c ≡ false → fl.lt a c ≡ false
